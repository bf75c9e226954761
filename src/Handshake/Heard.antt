-- ===== src/Handshake/Heard.antt =====
-- handshake.py: a message that the reading loop returns, among the bytes that the peer sends.
use mathlib.Core.List.{append_assoc}
use mathlib.Core.Path.{subst}
use phonect.Prelude.{
  ℕ, zero, suc, ◌+◌, ◌≡◌, refl, ◌∙◌, ap, sym, false, some, List, [], ◌∷◌, ◌++◌, length, take, drop,
  leb, arith, Bool-cases, inl, inr, take-append-drop,
}
use phonect.Python.{Dict, dict, Result, ok, raise}
use phonect.Bytes.{Bytes}
use phonect.Protocol.Frame.{Json, decode_frame, max_frame_size, frame_header_size}
use phonect.Protocol.Frame.Decoded.{IsWhole, decode_frame-eq-message}
use phonect.Handshake.{
  Conn, Recv, chunk, fails, recv, recv_event, stop, more, turn, turn_decoded, message, too_large,
  out_of_fuel, read_loop, read_chunk_size,
}
use phonect.Handshake.Reading.{Turn-cases, read_loop-stop, read_loop-more}

-- The bytes that can still be read, one chunk behind the other, up to a failure.
abbrev pub stream : List Recv → Bytes
stream [] = []
stream (chunk b ∷ rest) = b ++ stream rest
stream (fails e ∷ rest) = []

stream-recv_event :
    (n : ℕ) (l : List Recv) (c c' : Conn) (b : Bytes)
    → recv_event n l c ≡ (ok b, c')
    → l ≡ c.incoming
    → stream l ≡ b ++ stream c'.incoming
unfolding recv_event
stream-recv_event n [] c c' b h at = ground (arith, at)
stream-recv_event n (fails e ∷ rest) c c' b h at = cc
stream-recv_event n (chunk a ∷ rest) c c' b h at =
    let cut : take n a ++ (drop n a ++ stream rest) ≡ a ++ stream rest =
      sym (append_assoc (take n a) (drop n a) (stream rest))
      ∙ ap (λ l. l ++ stream rest) (take-append-drop n a) in
    elim (Bool-cases (leb (length a) n)) [
      | inl fits ↦ taken_from (ap (λ p. p.0) (rw fits at h)) (ap (λ p. p.1.incoming) (rw fits at h))
      | inr long ↦
          sym cut
          ∙ taken_from (ap (λ p. p.0) (rw long at h)) (ap (λ p. p.1.incoming) (rw long at h))
    ]
  where
    taken_from :
        {x : Bytes} {left : List Recv}
        → ◌≡◌ {A = Result Bytes} (ok x) (ok b)
        → left ≡ c'.incoming
        → x ++ stream left ≡ b ++ stream c'.incoming
    taken_from e same = ground (arith, e, same)

stream-recv :
    (n : ℕ) (c : Conn) (b : Bytes)
    → (recv n c).0 ≡ ok b
    → stream c.incoming ≡ b ++ stream (recv n c).1.incoming
unfolding recv
stream-recv n c b h =
    stream-recv_event n c.incoming c (recv n c).1 b (ap (λ q. (q, (recv n c).1)) h) refl

turn-eq-message :
    (json : Json) (buf : Bytes) (r : Result Bytes) (d : Dict)
    → turn json buf r ≡ stop (ok (message d))
    → (b : Bytes) × (r ≡ ok b) × (decode_frame json (buf ++ b) ≡ ok (some d))
unfolding turn turn_decoded
turn-eq-message json buf (raise e) d h = cc
turn-eq-message json buf (ok []) d h = cc
turn-eq-message json buf (ok (b ∷ bs)) d h = (b ∷ bs, refl, ground arith)

turn-eq-longer :
    (json : Json) (buf buf' : Bytes) (r : Result Bytes)
    → turn json buf r ≡ more buf'
    → (b : Bytes) × (r ≡ ok b) × (buf' ≡ buf ++ b)
unfolding turn turn_decoded
turn-eq-longer json buf buf' (raise e) h = cc
turn-eq-longer json buf buf' (ok []) h = cc
turn-eq-longer json buf buf' (ok (b ∷ bs)) h = (b ∷ bs, refl, ground arith)

module _ (json : Json) where
  read_loop-long :
      (fuel : ℕ) (buf : Bytes) (c : Conn)
      → leb (length buf) (frame_header_size + max_frame_size) ≡ false
      → read_loop json (suc fuel) buf c ≡ (ok too_large, c)
  unfolding read_loop
  read_loop-long fuel buf c long = rw (read_loop, long)

  read_loop-spent : (buf : Bytes) (c : Conn) → read_loop json zero buf c ≡ (ok out_of_fuel, c)
  unfolding read_loop
  read_loop-spent buf c = refl

  -- A message that the loop returns is what the text of a frame is read as, which stands in front of the
  -- buffer and of the bytes that the peer sends; the loop has read these in order.
  pub read_loop-eq-message :
      (fuel : ℕ) (buf : Bytes) (c c' : Conn) (d : Dict)
      → read_loop json fuel buf c ≡ (ok (message d), c')
      → (got text : Bytes) × (stream c.incoming ≡ got ++ stream c'.incoming)
        × IsWhole (buf ++ got) text
        × (json.loads text ≡ ok (dict d))
  read_loop-eq-message zero buf c c' d h = absurd (cc (read_loop-spent buf c, h))
  read_loop-eq-message (suc fuel) buf c c' d h =
      elim (Bool-cases (leb (length buf) (frame_header_size + max_frame_size))) [
        | inl fits ↦ elim (Turn-cases (turn json buf (recv read_chunk_size c).0)) [
          | inl (q, e) ↦
              let whole = sym (read_loop-stop json fuel buf c fits q e) ∙ h in
              let is_message : q ≡ ok (message d) = ap (λ p. p.0) whole in
              let (b, read, decoded) = turn-eq-message json buf _ d (e ∙ ap stop is_message) in
              let (text, frame, parsed) = decode_frame-eq-message json (buf ++ b) d decoded in
              let left : (recv read_chunk_size c).1 ≡ c' = ap (λ p. p.1) whole in
              (
                b,
                text,
                stream-recv read_chunk_size c b read
                    ∙ ap (λ (k : Conn). b ++ stream k.incoming) left,
                frame,
                parsed,
              )
          | inr (buf', e) ↦
              let (b, read, longer) = turn-eq-longer json buf buf' _ e in
              let (got, text, rest, frame, parsed) =
                read_loop-eq-message fuel buf' (recv read_chunk_size c).1 c' d
                  (sym (read_loop-more json fuel buf c fits buf' e) ∙ h) in
              (
                b ++ got,
                text,
                stream-recv read_chunk_size c b read
                    ∙ ap (λ l. b ++ l) rest
                    ∙ sym (append_assoc b got (stream c'.incoming)),
                subst (λ l. IsWhole l text) (ap (λ l. l ++ got) longer ∙ append_assoc buf b got)
                    frame,
                parsed,
              )
        ]
        | inr long ↦ absurd (cc (read_loop-long fuel buf c long, h))
      ]

-- A message of the peer: the bytes that can be read begin with a frame whose text is read as it.
pub record IsHeard (json : Json) (incoming : List Recv) (d : Dict) : Type 0 where
  pub got : Bytes
  pub text : Bytes
  pub rest : Bytes
  pub placed : stream incoming ≡ got ++ rest
  pub whole : IsWhole got text
  pub parsed : json.loads text ≡ ok (dict d)

pub read_loop-IsHeard :
    (json : Json) (fuel : ℕ) (c : Conn) (d : Dict)
    → (read_loop json fuel [] c).0 ≡ ok (message d)
    → IsHeard json c.incoming d
read_loop-IsHeard json fuel c d h =
    let c' : Conn = (read_loop json fuel [] c).1 in
    let (got, text, placed, whole, parsed) =
      read_loop-eq-message json fuel [] c c' d (ap (λ q. (q, c')) h) in
    record {
      got = got;
      text = text;
      rest = stream c'.incoming;
      placed = placed;
      whole = whole;
      parsed = parsed;
    }
