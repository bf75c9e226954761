-- ===== src/Protocol/Frame/Laws.antt =====
-- protocol.py: laws of `encode_frame` and `decode_frame`, on whole frames, parts of frames and bad lengths.
use phonect.Prelude.{
  ltb→lt, ℕ, ◌+◌, ◌<◌, ◌≤◌, ◌≡◌, ◌≢◌, ◌∙◌, none, some, ◌∷◌, ◌++◌, length, length-append,
  take-length, take-append_left, arith, ltb, Bool-cases, inl, inr, ◌⊎◌, ap, sym,
}
use phonect.Python.{
  dict, Dict, protocol_security_error, payload_too_long, declared_length, ok, raise,
}
use phonect.Bytes.{Bytes}
use phonect.Bytes.Word.{word, pack_word-IsBytes}
use phonect.Protocol.Frame.{max_frame_size, Json, encode_frame, decode_frame}
use phonect.Protocol.Frame.Decode.{
  decode_body, decode_frame-header, four_first, decode_frame_short, encode_frame-parts,
}

module _ (json : Json) where
  decode_body-whole :
      (text rest : Bytes) (d : Dict)
      → json.loads text ≡ ok (dict d)
      → 0 < length text
      → length text ≤ max_frame_size
      → decode_body json (length text) (text ++ rest) ≡ ok (some d)
  unfolding decode_body
  decode_body-whole text rest d parsed pos fits =
      rw take-length (ground (arith, length-append text rest))

  -- Where the JSON text of a message is not empty and is read as that message, `decode_frame` reads
  -- the frame that `encode_frame` wrote, whatever bytes follow it.
  pub decode_frame-encode_frame :
      (payload : Dict) (frame rest : Bytes)
      → json.loads (json.dumps payload) ≡ ok (dict payload)
      → 0 < length (json.dumps payload)
      → encode_frame json payload ≡ ok frame
      → decode_frame json (frame ++ rest) ≡ ok (some payload)
  decode_frame-encode_frame payload frame rest parsed pos encoded =
      let (a, b, c, d, parts, joined, fits) = encode_frame-parts json payload frame encoded in
      rw (parts, decode_frame-header json a b c d (json.dumps payload ++ rest), joined)
        (decode_body-whole (json.dumps payload) rest payload parsed pos fits)

  decode_body-waits :
      (n : ℕ) (body : Bytes)
      → length body < n
      → n ≤ max_frame_size
      → decode_body json n body ≡ ok none
  unfolding decode_body
  decode_body-waits n body short fits = ground arith

  -- two buffers that are equal have the same header
  same_header :
      {a b c d a' b' c' d' : ℕ} {s t : Bytes}
      → ◌≡◌ {A = Bytes} (a ∷ b ∷ c ∷ d ∷ s) (a' ∷ b' ∷ c' ∷ d' ∷ t)
      → (word a b c d ≡ word a' b' c' d') × (length s ≡ length t)
  same_header e = ground arith

  -- Of an encoded frame that has arrived only in part, `decode_frame` says that it is not complete.
  pub decode_frame_waits :
      (payload : Dict) (frame arrived missing : Bytes)
      → encode_frame json payload ≡ ok frame
      → frame ≡ arrived ++ missing
      → 0 < length missing
      → decode_frame json arrived ≡ ok none
  decode_frame_waits payload frame arrived missing encoded split more =
      elim (Bool-cases (ltb (length arrived) 4)) [
        | inl short ↦ decode_frame_short json arrived (ground arith)
        | inr long ↦
            let (a, b, c, d, parts, joined, fits) = encode_frame-parts json payload frame encoded in
            let (a', b', c', d', body, cut) = four_first arrived (ground arith) in
            let (same, rest) = same_header (sym parts ∙ split ∙ ap (λ l. l ++ missing) cut) in
            rw (cut, decode_frame-header json a' b' c' d' body)
              (decode_body-waits (word a' b' c' d') body (omega (arith, length-append body missing))
                (omega arith))
      ]

  -- `encode_frame` refuses a JSON text of more than 65536 bytes and writes any other behind a
  -- header of four bytes.
  pub encode_frame_bounds :
      (payload : Dict)
      → ((max_frame_size < length (json.dumps payload))
          × (encode_frame json payload
              ≡ raise (protocol_security_error (payload_too_long (length (json.dumps payload))))))
        ⊎ ((length (json.dumps payload) ≤ max_frame_size)
            × (frame : Bytes) × (encode_frame json payload ≡ ok frame)
            × (length frame ≡ 4 + length (json.dumps payload)))
  unfolding encode_frame
  encode_frame_bounds payload =
      elim (Bool-cases (ltb max_frame_size (length (json.dumps payload)))) [
        | inl long ↦ inl (ltb→lt max_frame_size _ long, rw long)
        | inr fits ↦
            let within : length (json.dumps payload) ≤ max_frame_size = ground arith in
            let (a, b, c, d, packed, _, _) =
              pack_word-IsBytes (length (json.dumps payload)) (omega arith) in
            inr (within, a ∷ b ∷ c ∷ d ∷ json.dumps payload, rw (fits, packed), omega arith)
      ]

  -- A header that declares no bytes or more than 65536 is refused as soon as its four bytes are
  -- there, whatever follows.
  pub decode_frame_refuses :
      (a b c d : ℕ) (body : Bytes)
      → (word a b c d ≡ 0) ⊎ (max_frame_size < word a b c d)
      → decode_frame json (a ∷ b ∷ c ∷ d ∷ body)
        ≡ raise (protocol_security_error (declared_length (word a b c d)))
  unfolding decode_body
  decode_frame_refuses a b c d body bad =
      decode_frame-header json a b c d body ∙ refused (word a b c d) bad
    where
      refused :
          (n : ℕ)
          → (n ≡ 0) ⊎ (max_frame_size < n)
          → decode_body json n body ≡ raise (protocol_security_error (declared_length n))
      refused n bad = ground arith

  decode_body_stable :
      (n : ℕ) (body more : Bytes)
      → decode_body json n body ≢ ok none
      → decode_body json n (body ++ more) ≡ decode_body json n body
  unfolding decode_body
  decode_body_stable n body more settled =
      ground (arith, length-append body more, take-append_left body more n)

  -- Once `decode_frame` has returned a message or raised, more bytes do not change its answer.
  pub decode_frame_stable :
      (buffer more : Bytes)
      → decode_frame json buffer ≢ ok none
      → decode_frame json (buffer ++ more) ≡ decode_frame json buffer
  decode_frame_stable buffer more settled = elim (Bool-cases (ltb (length buffer) 4)) [
    | inl short ↦ absurd (settled (decode_frame_short json buffer (ground arith)))
    | inr long ↦
        let (a, b, c, d, body, cut) = four_first buffer (ground arith) in
        let settled' : decode_body json (word a b c d) body ≢ ok none =
          λ waits. settled (rw cut (decode_frame-header json a b c d body ∙ waits)) in
        rw (cut, decode_frame-header json a b c d body)
          (decode_frame-header json a b c d (body ++ more)
            ∙ decode_body_stable (word a b c d) body more settled')
  ]
