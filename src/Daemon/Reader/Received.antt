-- ===== src/Daemon/Reader/Received.antt =====
-- daemon.py: what `_read_frame` has read, among the bytes that the phone sends.
use phonect.Prelude.{
  Option, none, some, ℕ, ◌||◌, String, ltb, some, ◌≡◌, refl, ◌∙◌, ap, sym, ◌++◌, length, leb, arith,
  take-append-drop, length-take,
}
use phonect.Python.{
  Exception, Value, null, str, dict, Dict, get, protocol_security_error, declared_length, ok, raise,
  raise_if, Result,
}
use phonect.Python.Io.{Io, catch, handle, continue-eq}
use phonect.Bytes.{Bytes, unpack_word, fromhex}
use phonect.Handshake.{fromhex_value}
use phonect.Protocol.Frame.{Json, max_frame_size}
use phonect.Daemon.Reader.{Session, readexactly, read_frame}

-- The message is an object, and its "signature" the hexadecimal text of the signature.
pub record Gives (msg : Value) (signature : Bytes) : Type 0 where
  pub fields : Dict
  pub digits : String
  pub object : msg ≡ dict fields
  pub given : get "signature" fields ≡ some (str digits)
  pub digits_read : fromhex digits ≡ some signature

-- The text that `bytes.fromhex` has read.
pub fromhex_value-eq-ok :
    (o : Option Value) (signature : Bytes)
    → fromhex_value o ≡ ok signature
    → (digits : String) × (o ≡ some (str digits)) × (fromhex digits ≡ some signature)
unfolding fromhex_value
fromhex_value-eq-ok (some (str s)) signature h = (s, refl, ground arith)
fromhex_value-eq-ok none signature h = cc
fromhex_value-eq-ok (some null) signature h = cc
fromhex_value-eq-ok (some _) signature h = cc

-- The signatures that a message gives were sent.
abbrev pub IsHeard : (Bytes → Type 0) → Value → Type 0
IsHeard sent msg = (signature : Bytes) → Gives msg signature → sent signature

-- Among the bytes is a frame that holds the message: four bytes that declare the length of a text,
-- and this text, which is read as the message.
pub record Received (json : Json) (input : Bytes) (msg : Value) : Type 0 where
  pub before : Bytes
  pub header : Bytes
  pub text : Bytes
  pub rest : Bytes
  pub placed : input ≡ before ++ (header ++ (text ++ rest))
  pub declared : unpack_word header ≡ ok (length text)
  pub parsed : json.loads_utf8 text ≡ ok msg

-- Among the bytes is a frame whose message gives the signature.
pub record IsSent (json : Json) (input signature : Bytes) : Type 0 where
  pub msg : Value
  pub received : Received json input msg
  pub gives : Gives msg signature

module _ {Key : Type 0} where
  readexactly-eq-ok :
      (n : ℕ) (s t : Session Key) (b : Bytes)
      → readexactly n s ≡ (ok b, t)
      → (s.input ≡ b ++ t.input) × (length b ≡ n)
  unfolding readexactly
  readexactly-eq-ok n s t b h = ground (arith, take-append-drop n s.input, length-take n s.input)

  pub read_frame-eq-ok :
      (json : Json) (s t : Session Key) (msg : Value)
      → read_frame json s ≡ (ok msg, t)
      → (header text : Bytes) × (s.input ≡ header ++ (text ++ t.input))
        × (unpack_word header ≡ ok (length text))
        × (json.loads_utf8 text ≡ ok msg)
  unfolding read_frame
  read_frame-eq-ok json s t msg h =
      let (header, s1, first, h1) = continue-eq (readexactly 4 s) _ h in
      let (n, s2, second, h2) = continue-eq (unpack_word header, s1) _ h1 in
      let (_, s3, third, h3) =
        continue-eq
          (
            raise_if (leb n 0 || ltb max_frame_size n)
                (protocol_security_error (declared_length n)),
            s2,
          )
          _ h2 in
      let (text, s4, fourth, h4) = continue-eq (readexactly n s3) _ h3 in
      let (at_header, _) = readexactly-eq-ok 4 s s1 header first in
      let (at_text, sized) = readexactly-eq-ok n s3 s4 text fourth in
      let same : s1.input ≡ s3.input = ground arith in
      let left : s4.input ≡ t.input = ap (λ q. q.1.input) h4 in
      (
        header,
        text,
        at_header ∙ ap (λ l. header ++ l) (same ∙ at_text ∙ ap (λ l. text ++ l) left),
        ap (λ q. q.0) second ∙ ap ok (sym sized),
        ap (λ q. q.0) h4,
      )

-- What was read behind some bytes, is received among all of them.
pub read_frame-Received :
    {Key : Type 0} (json : Json) (s t : Session Key) (msg : Value) (input before : Bytes)
    → read_frame json s ≡ (ok msg, t)
    → input ≡ before ++ s.input
    → Received json input msg
read_frame-Received json s t msg input before h behind =
    let (header, text, placed, declared, parsed) = read_frame-eq-ok json s t msg h in
    record {
      before = before;
      header = header;
      text = text;
      rest = t.input;
      placed = behind ∙ ap (λ l. before ++ l) placed;
      declared = declared;
      parsed = parsed;
    }

-- A message that was read behind some bytes, or null in its place, gives signatures that were sent.
pub heard_behind :
    {Key : Type 0} (json : Json) (refuse : Exception → Io (Session Key) Value) (s t : Session Key)
    (msg : Value) (input before signature : Bytes)
    → ((e : Exception) (u v : Session Key) (m : Value) → refuse e u ≡ (ok m, v) → m ≡ null)
    → catch (read_frame json) refuse s ≡ (ok msg, t)
    → input ≡ before ++ s.input
    → Gives msg signature
    → IsSent json input signature
heard_behind {Key} json refuse s t msg input before signature nulls h behind gives =
    by_reading (read_frame json s) refl h
  where
    by_reading :
        (p : Result Value × Session Key)
        → read_frame json s ≡ p
        → handle p refuse ≡ (ok msg, t)
        → IsSent json input signature
    by_reading (ok m, u) e h' = record {
      msg = msg;
      received = read_frame-Received json s t msg input before (e ∙ h') behind;
      gives = gives;
    }
    by_reading (raise e', u) e h' =
        let is_null : msg ≡ null = nulls e' u t msg h' in absurd (cc (is_null, gives.object))
