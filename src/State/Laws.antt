-- ===== src/State/Laws.antt =====
-- state.py: `save_state` and then `load_state`, and `load_state` on other files.
use phonect.Prelude.{true, Option, [], ◌∷◌, ◌++◌, ◌≡◌, ◌≢◌, refl, ap}
use phonect.Python.{Value, dict, Dict, attribute_error, ok, raise}
use phonect.Python.Io.{pure, lift, handle, continue, continue-eq-ok, ◌>>◌}
use phonect.Python.Paths.{PurePath, parent}
use phonect.Python.Disk.{Disk, exists, read_bytes, write_bytes, mkdir_parents}
use phonect.Python.Disk.Laws.{write_bytes-eq-ok, read_bytes-set_file, exists-set_file}
use phonect.Bytes.{Bytes}
use phonect.Protocol.Frame.{Json}
use phonect.Config.Load.{Environment}
use phonect.State.{DeviceState, path_or, state_of, dict_of, use_defaults, load_state, save_state}

module _ (json : Json) (env : Environment) where
  -- Where `save_state` succeeds and the JSON text of the state is read as that document, `load_state`
  -- returns the saved state and leaves the disk as it is.
  pub load_state-save_state :
      (print : Dict → Bytes) (s : DeviceState) (path : Option PurePath) (disk : Disk)
      → json.loads_utf8 (print (dict_of s) ++ 10 ∷ []) ≡ ok (dict (dict_of s))
      → (save_state json env print s path disk).0 ≡ ok (path_or env path)
      → load_state json env path (save_state json env print s path disk).1
        ≡ (ok s, (save_state json env print s path disk).1)
  unfolding save_state load_state state_of
  load_state-save_state print s path disk parsed saved =
      let p : PurePath = path_or env path in
      let text : Bytes = print (dict_of s) ++ 10 ∷ [] in
      let (_, d1, made, h1) =
        continue-eq-ok (mkdir_parents (parent p) disk) (λ _. write_bytes p text >> pure p) saved in
      let (_, _, wrote, _) = continue-eq-ok (write_bytes p text d1) (λ _. pure p) h1 in
      let (same, free) = write_bytes-eq-ok p text d1 (ap (λ q. q.0) wrote) in
      rw (made, same, exists-set_file p text d1, read_bytes-set_file p text d1 free, parsed)

  -- Of a file that is there and whose content is JSON that is no object, `load_state` raises an
  -- `AttributeError`; it does not return the empty state.
  pub load_state_not_object :
      (path : Option PurePath) (disk : Disk) (raw : Bytes) (document : Value)
      → exists disk (path_or env path) ≡ true
      → read_bytes (path_or env path) disk ≡ (ok raw, disk)
      → json.loads_utf8 raw ≡ ok document
      → ((d : Dict) → document ≢ dict d)
      → load_state json env path disk ≡ (raise attribute_error, disk)
  unfolding load_state state_of use_defaults
  load_state_not_object path disk raw document there read parsed other =
      rw (there, read, parsed) (by_kind document other)
    where
      by_kind :
          (v : Value)
          → ((d : Dict) → v ≢ dict d)
          → handle (continue {B = DeviceState} (ok v, disk) (λ v'. lift (state_of v'))) use_defaults
            ≡ (raise attribute_error, disk)
      by_kind (dict d) other = absurd (other d refl)
      by_kind _ other = refl
