-- ===== src/Daemon/Reader.antt =====
-- daemon.py: the stream pair of one TCP connection, as a handshake sees it, and `_read_frame`.
pub mod Received
use phonect.Prelude.{
  ℕ, String, ◌||◌, Option, none, some, List, [], ◌∷◌, ◌++◌, length, take, drop, leb, ltb,
  if◌then◌else◌,
}
use phonect.Python.{Value, Exception, protocol_security_error, declared_length, ok, raise, raise_if}
use phonect.Python.Io.{Io, lift, ◌>>=◌, ◌>>◌}
use phonect.Bytes.{Bytes, unpack_word}
use phonect.Protocol.Frame.{Json, max_frame_size}

-- What one handshake reads and writes: the streams, the trusted key and the file that keeps it.
pub record Session (Key : Type 0) : Type 0 where
  -- what the phone will have sent, and what a read past it meets: the end of the stream
  -- (`IncompleteReadError`), a timeout or a broken connection
  pub input : Bytes
  pub ending : Exception
  -- how the next calls of `drain` end; past the end of the list they succeed
  pub drains : List (Option Exception)
  pub output : Bytes
  pub trusted_key : Option Key
  -- the text in `config.public_key_path`, and how writing it will fail, if it does: with which exception, and what
  -- the file holds then
  pub key_file : Option String
  pub save_error : Option (Exception × Option String)

module _ {Key : Type 0} where
  -- `asyncio.wait_for(reader.readexactly(n), timeout)`
  unfoldable pub readexactly : ℕ → Io (Session Key) Bytes
  readexactly n s =
      if leb n (length s.input)
      then (ok (take n s.input), record s { input = drop n s.input })
      else (raise s.ending, s)

  drain_event : List (Option Exception) → Io (Session Key) (Unit {0})
  drain_event [] s = (ok tt, s)
  drain_event (none ∷ rest) s = (ok tt, record s { drains = rest })
  drain_event (some e ∷ rest) s = (raise e, record s { drains = rest })

  -- `writer.write(bytes)` and `await writer.drain()`
  unfoldable pub write_and_drain : Bytes → Io (Session Key) (Unit {0})
  unfolding drain_event
  write_and_drain b s = drain_event s.drains (record s { output = s.output ++ b })

  -- `_read_frame`
  unfoldable pub read_frame : Json → Io (Session Key) Value
  read_frame json = do
    header ← readexactly 4
    payload_len ← lift (unpack_word header)
    lift (
        raise_if (leb payload_len 0 || ltb max_frame_size payload_len)
          (protocol_security_error (declared_length payload_len)))
    payload ← readexactly payload_len
    lift (json.loads_utf8 payload)
