-- ===== src/Daemon/Start.antt =====
-- daemon.py: how `PhonectDaemon.__init__` loads the two keys from the files that the configuration
-- names.
pub mod Restart
use phonect.Prelude.{Option, none, some}
use phonect.Python.{Result, ok, raise}
use phonect.Bytes.{Bytes}
use phonect.Crypto.{Cryptography, load_public_key, load_private_key}

-- `except Exception`: a key that cannot be loaded is logged and left out
abbrev pub if_loaded : {A : Type 0} → Result A → Option A
if_loaded (ok key) = some key
if_loaded (raise e) = none

module _ (crypto : Cryptography) where
  open crypto use {PublicKey, PrivateKey}

  -- `self._pc_private_key`; the file is missing, or reading it gives bytes or an exception
  unfoldable pub initial_pc_key : Option (Result Bytes) → Option PrivateKey
  initial_pc_key none = none
  initial_pc_key (some (raise e)) = none
  initial_pc_key (some (ok pem)) = if_loaded (load_private_key crypto pem)

  -- `self._trusted_key`, in the same way
  unfoldable pub initial_trusted_key : Option (Result Bytes) → Option PublicKey
  initial_trusted_key none = none
  initial_trusted_key (some (raise e)) = none
  initial_trusted_key (some (ok pem)) = if_loaded (load_public_key crypto pem)
