-- ===== src/Daemon/Tcp/Arrive.antt =====
-- daemon.py: the reading of a frame that has arrived, and the writing of one.
use phonect.Prelude.{
  ℕ, ◌<◌, ◌||◌, true, false, [], ◌∷◌, ◌++◌, length, leb, ltb, ◌≡◌, refl, ◌∙◌, ap, arith,
  length-append, take-length, drop-length,
}
use phonect.Python.{dict, Dict, ok}
use phonect.Bytes.{Bytes, unpack_word}
use phonect.Bytes.Word.{word}
use phonect.Protocol.Frame.{Json, encode_frame, max_frame_size}
use phonect.Protocol.Frame.Decode.{encode_frame-parts}
use phonect.Daemon.Reader.{Session, readexactly, write_and_drain, read_frame}

-- What the JSON codec must do with one message that the phone sends.
pub record Conveys (json : Json) (d : Dict) (frame : Bytes) : Type 0 where
  pub parsed : json.loads_utf8 (json.dumps d) ≡ ok (dict d)
  pub filled : 0 < length (json.dumps d)
  pub encoded : encode_frame json d ≡ ok frame

unpack_word-run : (a b c d : ℕ) → unpack_word (a ∷ b ∷ c ∷ d ∷ []) ≡ ok (word a b c d)
unfolding unpack_word
unpack_word-run a b c d = refl

module _ {Key : Type 0} where
  readexactly-run :
      (b rest : Bytes) (s : Session Key)
      → s.input ≡ b ++ rest
      → readexactly (length b) s ≡ (ok b, record s { input = rest })
  unfolding readexactly
  readexactly-run b rest s e = rw e (
      let fits : leb (length b) (length (b ++ rest)) ≡ true =
        ground (arith, length-append b rest) in
      rw (fits, take-length b rest, drop-length b rest))

  pub read_frame-run :
      (json : Json) (d : Dict) (frame rest : Bytes) (s : Session Key)
      → Conveys json d frame
      → s.input ≡ frame ++ rest
      → read_frame json s ≡ (ok (dict d), record s { input = rest })
  unfolding read_frame
  read_frame-run json d frame rest s k e =
      let (a, b, c, x, shape, len, fits) = encode_frame-parts json d frame k.encoded in
      let within : (leb (length (json.dumps d)) 0 || ltb max_frame_size (length (json.dumps d)))
          ≡ false =
        grind (arith, k.filled, fits) in
      rw (
        readexactly-run (a ∷ b ∷ c ∷ x ∷ []) (json.dumps d ++ rest) s
            (e ∙ ap (λ f. f ++ rest) shape),
        unpack_word-run a b c x,
        len,
        within,
        readexactly-run (json.dumps d) rest (record s { input = json.dumps d ++ rest }) refl,
        k.parsed,
      )

  pub write_and_drain-run :
      (b : Bytes) (s : Session Key)
      → s.drains ≡ []
      → write_and_drain b s ≡ (ok tt, record s { output = s.output ++ b })
  unfolding write_and_drain
  write_and_drain-run b s e = rw e
