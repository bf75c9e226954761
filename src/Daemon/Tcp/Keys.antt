-- ===== src/Daemon/Tcp/Keys.antt =====
-- daemon.py: reading and writing, and the trusted key with its file.
use phonect.Prelude.{ℕ, ◌≡◌, refl, arith}
use phonect.Bytes.{Bytes}
use phonect.Protocol.Frame.{Json}
use phonect.Daemon.Reader.{Session, readexactly, write_and_drain, read_frame}

-- The same trusted key, the same file.
pub record SameKeys {Key : Type 0} (s t : Session Key) : Type 0 where
  pub trusted_key : t.trusted_key ≡ s.trusted_key
  pub key_file : t.key_file ≡ s.key_file
  pub save_error : t.save_error ≡ s.save_error

module _ {Key : Type 0} where
  pub same_keys : (s : Session Key) → SameKeys s s
  same_keys s = record { trusted_key = refl; key_file = refl; save_error = refl }

  pub write_and_drain-SameKeys : (b : Bytes) (s : Session Key) → SameKeys s (write_and_drain b s).1
  unfolding write_and_drain
  write_and_drain-SameKeys b s = ground arith

  pub write_and_drain-input :
      (b : Bytes) (s : Session Key) → (write_and_drain b s).1.input ≡ s.input
  unfolding write_and_drain
  write_and_drain-input b s = ground arith

  readexactly-SameKeys : (n : ℕ) (s : Session Key) → SameKeys s (readexactly n s).1
  unfolding readexactly
  readexactly-SameKeys n s = ground arith

  pub read_frame-SameKeys : (json : Json) (s : Session Key) → SameKeys s (read_frame json s).1
  unfolding read_frame
  read_frame-SameKeys json s = grind (arith, readexactly-SameKeys)
