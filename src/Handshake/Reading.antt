-- ===== src/Handshake/Reading.antt =====
-- handshake.py: the reading loop, its fuel, and frames that come in chunks.
use phonect.Prelude.{
  ℕ, zero, suc, ◌+◌, ◌<◌, ◌≤◌, ◌≡◌, ◌≢◌, refl, ◌∙◌, sym, true, Option, none, some, List, [], ◌∷◌,
  ◌++◌, length, leb, ltb, arith, Bool-cases, inl, inr, ◌⊎◌, length-append, All, map,
}
use mathlib.Core.List.{append-nil, append_assoc}
use phonect.Python.{Dict, dict, Result, ok, raise}
use phonect.Bytes.{Bytes}
use phonect.Protocol.Frame.{
  Json, decode_frame, encode_frame, wrap_json, require_object, max_frame_size, frame_header_size,
}
use phonect.Protocol.Frame.Decode.{decode_body, decode_frame-header, four_first}
use phonect.Bytes.Word.{word}
use phonect.Protocol.Frame.Laws.{decode_frame-encode_frame, decode_frame_waits}
use phonect.Handshake.{
  Conn, Recv, Turn, turn, turn_decoded, stop, more, chunk, recv, read_loop, Read, message,
  too_large, out_of_fuel, read_chunk_size, read_fuel,
}

incomplete_body :
    (json : Json) (n : ℕ) (body : Bytes)
    → decode_body json n body ≡ ok none
    → (length body < n) × (n ≤ max_frame_size)
unfolding decode_body wrap_json require_object
incomplete_body json n body h = ground arith

-- A buffer in which no frame is complete is at most as long as the longest frame.
decode_frame_incomplete :
    (json : Json) (buf : Bytes) → decode_frame json buf ≡ ok none → length buf < 4 + max_frame_size
decode_frame_incomplete json buf h = elim (Bool-cases (ltb (length buf) 4)) [
  | inl short ↦ ground arith
  | inr long ↦
      let (a, b, c, d, body, cut) = four_first buf (ground arith) in
      ground (
        arith,
        incomplete_body json (word a b c d) body
            (sym (decode_frame-header json a b c d body) ∙ (rw cut at h)),
      )
]

incomplete-fits :
    (json : Json) (buf : Bytes)
    → decode_frame json buf ≡ ok none
    → leb (length buf) (frame_header_size + max_frame_size) ≡ true
incomplete-fits json buf h = ground (arith, decode_frame_incomplete json buf h)

turn_decoded-eq-more :
    (buf buf' : Bytes) (r : Result (Option Dict))
    → turn_decoded buf r ≡ more buf'
    → (r ≡ ok none) × (buf ≡ buf')
unfolding turn_decoded
turn_decoded-eq-more buf buf' r h = ground arith

-- The loop goes on with a longer buffer, in which no frame is complete.
turn-eq-more :
    (json : Json) (buf buf' : Bytes) (r : Result Bytes)
    → turn json buf r ≡ more buf'
    → (decode_frame json buf' ≡ ok none) × (length buf < length buf')
turn-eq-more json buf buf' (raise e) h = absurd (unfold turn in cc)
turn-eq-more json buf buf' (ok []) h = absurd (unfold turn in cc)
turn-eq-more json buf buf' (ok (b ∷ bs)) h =
    let (waits, same) =
      turn_decoded-eq-more (buf ++ b ∷ bs) buf' (decode_frame json (buf ++ b ∷ bs))
        (unfold turn in h) in
    (rw (← same) waits, rw (← same) (omega (arith, length-append buf (b ∷ bs))))

turn-eq-stop :
    (json : Json) (buf : Bytes) (r : Result Bytes) (q : Result Read)
    → turn json buf r ≡ stop q
    → (q ≢ ok out_of_fuel) × (q ≢ ok too_large)
unfolding turn
turn-eq-stop json buf r q h = ground arith

pub Turn-cases : (t : Turn) → ((q : Result Read) × (t ≡ stop q)) ⊎ ((b : Bytes) × (t ≡ more b))
Turn-cases (stop q) = inl (q, refl)
Turn-cases (more b) = inr (b, refl)

module _ (json : Json) (fuel : ℕ) (buf : Bytes) (c : Conn)
    (fits : leb (length buf) (frame_header_size + max_frame_size) ≡ true) where
  pub read_loop-stop :
      (q : Result Read)
      → turn json buf (recv read_chunk_size c).0 ≡ stop q
      → read_loop json (suc fuel) buf c ≡ (q, (recv read_chunk_size c).1)
  unfolding read_loop
  read_loop-stop q h = rw (read_loop, fits, h)

  pub read_loop-more :
      (buf' : Bytes)
      → turn json buf (recv read_chunk_size c).0 ≡ more buf'
      → read_loop json (suc fuel) buf c ≡ read_loop json fuel buf' (recv read_chunk_size c).1
  unfolding read_loop
  read_loop-more buf' h = rw (read_loop, fits, h)

-- Started on a buffer that holds no complete frame, with fuel for every byte that the buffer can still
-- take, the loop does not run out of fuel and does not end because its buffer is too large.
pub read_loop_ends :
    (json : Json) (fuel : ℕ) (buf : Bytes) (c : Conn)
    → decode_frame json buf ≡ ok none
    → 4 + max_frame_size < length buf + fuel
    → ((read_loop json fuel buf c).0 ≢ ok out_of_fuel)
      × ((read_loop json fuel buf c).0 ≢ ok too_large)
read_loop_ends json zero buf c waits enough =
    absurd (omega (arith, decode_frame_incomplete json buf waits))
read_loop_ends json (suc fuel) buf c waits enough =
    let fits = incomplete-fits json buf waits in
    elim (Turn-cases (turn json buf (recv read_chunk_size c).0)) [
      | inl (q, e) ↦ rw (read_loop-stop json fuel buf c fits q e) (turn-eq-stop json buf _ q e)
      | inr (buf', e) ↦
          let (waits', longer) = turn-eq-more json buf buf' _ e in
          rw (read_loop-more json fuel buf c fits buf' e)
            (read_loop_ends json fuel buf' (recv read_chunk_size c).1 waits' (omega arith))
    ]

empty_waits : (json : Json) → decode_frame json [] ≡ ok none
unfolding decode_frame
empty_waits json = refl

-- From an empty buffer the loop does not run out of its fuel.
pub read_loop-returns :
    (json : Json) (c : Conn) → (read_loop json read_fuel [] c).0 ≢ ok out_of_fuel
read_loop-returns json c = (read_loop_ends json read_fuel [] c (empty_waits json) (omega arith)).0

-- The bytes that a connection delivers, in chunks that one `recv` takes whole.
abbrev pub IsChunk : Bytes → Type 0
IsChunk b = (0 < length b) × (length b ≤ read_chunk_size)

abbrev pub concat : List Bytes → Bytes
concat [] = []
concat (b ∷ bs) = b ++ concat bs

abbrev pub deliver : Conn → List Bytes → List Recv → Conn
deliver c chunks rest = record c { incoming = map chunk chunks ++ rest }

recv-chunk :
    (c : Conn) (b : Bytes) (rest : List Recv)
    → IsChunk b
    → recv read_chunk_size (record c { incoming = chunk b ∷ rest })
      ≡ (ok b, record c { incoming = rest })
unfolding recv
recv-chunk c b rest h = ground arith

turn-whole :
    (json : Json) (buf b : Bytes) (d : Dict)
    → 0 < length b
    → decode_frame json (buf ++ b) ≡ ok (some d)
    → turn json buf (ok b) ≡ stop (ok (message d))
unfolding turn turn_decoded
turn-whole json buf [] d full whole = absurd (omega arith)
turn-whole json buf (x ∷ b) d full whole = rw whole

turn-waits :
    (json : Json) (buf b : Bytes)
    → 0 < length b
    → decode_frame json (buf ++ b) ≡ ok none
    → turn json buf (ok b) ≡ more (buf ++ b)
unfolding turn turn_decoded
turn-waits json buf [] full waits = absurd (omega arith)
turn-waits json buf (x ∷ b) full waits = rw waits

module _ (json : Json) (payload : Dict) (frame : Bytes)
    (parsed : json.loads (json.dumps payload) ≡ ok (dict payload))
    (filled : 0 < length (json.dumps payload))
    (encoded : encode_frame json payload ≡ ok frame) where
  -- neither what was there before a chunk nor that chunk with it is the whole frame
  waits-before :
      (buf b later missing : Bytes)
      → IsChunk b
      → 0 < length missing
      → (buf ++ b) ++ later ++ missing ≡ frame
      → (decode_frame json buf ≡ ok none) × (decode_frame json (buf ++ b) ≡ ok none)
  waits-before buf b later missing full left cut = (
    decode_frame_waits json payload frame buf (b ++ (later ++ missing)) encoded
        (sym (
          rw (← append_assoc buf b (later ++ missing), ← append_assoc (buf ++ b) later missing)
            cut))
        (omega (arith, length-append b (later ++ missing))),
    decode_frame_waits json payload frame (buf ++ b) (later ++ missing) encoded
        (sym (rw (← append_assoc (buf ++ b) later missing) cut))
        (omega (arith, length-append later missing)),
  )

  -- Where the frame of a message arrives in chunks, the last of which may hold bytes beyond it, the
  -- loop returns the message and has read those chunks and no more, however the frame is cut.
  pub read_loop_finds :
      (fuel : ℕ) (buf : Bytes) (earlier : List Bytes) (missing extra : Bytes) (c : Conn)
      (rest : List Recv)
      → All IsChunk earlier
      → IsChunk (missing ++ extra)
      → 0 < length missing
      → buf ++ concat earlier ++ missing ≡ frame
      → length earlier < fuel
      → read_loop json fuel buf (deliver c (earlier ++ (missing ++ extra) ∷ []) rest)
        ≡ (ok (message payload), record c { incoming = rest })
  read_loop_finds zero buf earlier missing extra c rest chunks last left cut enough =
      absurd (omega arith)
  read_loop_finds (suc fuel) buf [] missing extra c rest chunks last left cut enough =
      let frame_here : buf ++ missing ≡ frame = rw append-nil at cut in
      let waits = decode_frame_waits json payload frame buf missing encoded (sym frame_here) left in
      let whole : decode_frame json (buf ++ (missing ++ extra)) ≡ ok (some payload) =
        rw (← append_assoc buf missing extra, frame_here)
          (decode_frame-encode_frame json payload frame extra parsed filled encoded) in
      let got = recv-chunk c (missing ++ extra) rest last in
      read_loop-stop json fuel buf (deliver c ((missing ++ extra) ∷ []) rest)
        (incomplete-fits json buf waits) (ok (message payload))
        (rw got (turn-whole json buf (missing ++ extra) payload last.0 whole))
      ∙ rw got
  read_loop_finds (suc fuel) buf (b ∷ earlier) missing extra c rest (first, chunks) last left cut
        enough =
      let shifted : (buf ++ b) ++ concat earlier ++ missing ≡ frame =
        rw (append_assoc buf b (concat earlier)) cut in
      let waits_here = waits-before buf b (concat earlier) missing first left shifted in
      let got = recv-chunk c b (map chunk (earlier ++ (missing ++ extra) ∷ []) ++ rest) first in
      read_loop-more json fuel buf (deliver c (b ∷ earlier ++ (missing ++ extra) ∷ []) rest)
        (incomplete-fits json buf waits_here.0) (buf ++ b)
        (rw got (turn-waits json buf b first.0 waits_here.1))
      ∙ (rw got (
          read_loop_finds fuel (buf ++ b) earlier missing extra c rest chunks last left shifted
            (omega arith)))
