-- ===== src/Python/Disk.antt =====
-- Files and directories, and the methods of `Path` that read and write them.
pub mod Laws
use phonect.Prelude.{
  ℕ, String, Bool, true, false, ◌&&◌, ◌||◌, Option, none, some, List, [], ◌∷◌, ◌++◌, if◌then◌else◌,
}
use phonect.Python.Raise.{Exception, file_not_found, os_error, Result, ok, raise}
use phonect.Python.Io.{Io, pure, throw, ◌>>=◌, ◌>>◌}
use phonect.Python.Paths.{PurePath, path_eq, parent}

-- What stands on the disk, and which paths the system refuses to open or to make, with which exception.
pub record Disk : Type 0 where
  pub dirs : PurePath → Bool
  pub files : PurePath → Option (List ℕ)
  pub denied : PurePath → Option Exception

abbrev pub is_some {ℓ} : {A : Type ℓ} → Option A → Bool
is_some none = false
is_some (some _) = true

abbrev pub no_names : List String → Bool
no_names [] = true
no_names (_ ∷ _) = false

-- "/" and the working directory are always there
abbrev pub is_dir : Disk → PurePath → Bool
is_dir d p = no_names p.parts || d.dirs p

-- `path.exists()` and `path.is_file()`
unfoldable pub exists : Disk → PurePath → Bool
exists d p = is_dir d p || is_some (d.files p)

unfoldable pub is_file : Disk → PurePath → Bool
is_file d p = is_some (d.files p)

abbrev pub set_file : PurePath → List ℕ → Disk → Disk
set_file p b d = record d { files = λ q. if path_eq q p then some b else d.files q }

abbrev pub set_dir : PurePath → Disk → Disk
set_dir p d = record d { dirs = λ q. if path_eq q p then true else d.dirs q }

-- `path.read_bytes()`
unfoldable pub read_bytes : PurePath → Io Disk (List ℕ)
read_bytes p d = elim (d.denied p) [
  | some e ↦ (raise e, d)
  | none ↦ elim (d.files p) [
    | some b ↦ (ok b, d)
    | none ↦ (raise (if is_dir d p then os_error else file_not_found), d)
  ]
]

-- `path.write_bytes(b)`
unfoldable pub write_bytes : PurePath → List ℕ → Io Disk (Unit {0})
write_bytes p b d = elim (d.denied p) [
  | some e ↦ (raise e, d)
  | none ↦
      if is_dir d p
      then (raise os_error, d)
      else (if is_dir d (parent p) then (ok tt, set_file p b d) else (raise file_not_found, d))
]

-- `os.mkdir` with `exist_ok`
make_dir : PurePath → Io Disk (Unit {0})
make_dir p d =
    if is_dir d p
    then (ok tt, d)
    else (if is_some (d.files p)
        then (raise os_error, d)
        else elim (d.denied p) [ some e ↦ (raise e, d) | none ↦ (ok tt, set_dir p d) ])

make_dirs : PurePath → List String → Io Disk (Unit {0})
unfolding make_dir
make_dirs at [] = pure tt
make_dirs at (x ∷ xs) =
    let next : PurePath = record { root = at.root; parts = at.parts ++ x ∷ [] } in
    make_dir next >> make_dirs next xs

-- `path.mkdir(parents=True, exist_ok=True)`
unfoldable pub mkdir_parents : PurePath → Io Disk (Unit {0})
unfolding make_dirs
mkdir_parents p = make_dirs (record { root = p.root; parts = [] }) p.parts
