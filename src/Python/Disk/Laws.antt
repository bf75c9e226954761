-- ===== src/Python/Disk/Laws.antt =====
-- Files: writing and then reading.
use phonect.Prelude.{
  ℕ, String, true, false, none, some, List, [], ◌∷◌, ◌≡◌, refl, ap, arith, eq_refl,
}
use phonect.Python.Raise.{ok}
use phonect.Python.Io.{continue-eq-ok, ◌>>◌}
use phonect.Python.Paths.{PurePath, path_eq, texts_eq}
use phonect.Python.Disk.{Disk, exists, set_file, read_bytes, write_bytes}

texts_eq_refl : (xs : List String) → texts_eq xs xs ≡ true
texts_eq_refl [] = refl
texts_eq_refl (x ∷ xs) = rw (eq_refl x, texts_eq_refl xs)

pub path_eq_refl : (p : PurePath) → path_eq p p ≡ true
path_eq_refl p = ground (arith, texts_eq_refl p.parts)

-- A write that succeeds was allowed, and changes that file only.
pub write_bytes-eq-ok :
    (p : PurePath) (b : List ℕ) (d : Disk)
    → (write_bytes p b d).0 ≡ ok tt
    → (write_bytes p b d ≡ (ok tt, set_file p b d)) × (d.denied p ≡ none)
unfolding write_bytes
write_bytes-eq-ok p b d h = ground arith

-- A file that may be opened and that was written is there and is read.
pub read_bytes-set_file :
    (p : PurePath) (b : List ℕ) (d : Disk)
    → d.denied p ≡ none
    → read_bytes p (set_file p b d) ≡ (ok b, set_file p b d)
unfolding read_bytes
read_bytes-set_file p b d h = ground (arith, path_eq_refl p)

pub exists-set_file : (p : PurePath) (b : List ℕ) (d : Disk) → exists (set_file p b d) p ≡ true
unfolding exists
exists-set_file p b d = ground (arith, path_eq_refl p)

-- Reading changes nothing, and what it returns is the file.
pub read_bytes-disk : (p : PurePath) (d : Disk) → (read_bytes p d).1 ≡ d
unfolding read_bytes
read_bytes-disk p d = ground arith

pub read_bytes-eq-ok :
    (p : PurePath) (d : Disk) (raw : List ℕ) → (read_bytes p d).0 ≡ ok raw → d.files p ≡ some raw
unfolding read_bytes
read_bytes-eq-ok p d raw h = ground arith

read_bytes-set_file-set_file :
    (p q : PurePath) (a b : List ℕ) (d : Disk)
    → path_eq p q ≡ false
    → d.denied p ≡ none
    → read_bytes p (set_file q b (set_file p a d)) ≡ (ok a, set_file q b (set_file p a d))
unfolding read_bytes
read_bytes-set_file-set_file p q a b d differ h = ground (arith, path_eq_refl p)

-- Two different files that are written one after the other are both read.
pub read_bytes-write_bytes :
    (p q : PurePath) (a b : List ℕ) (d : Disk)
    → path_eq p q ≡ false
    → ((write_bytes p a >> write_bytes q b) d).0 ≡ ok tt
    → let d' = ((write_bytes p a >> write_bytes q b) d).1 in
      (read_bytes p d' ≡ (ok a, d')) × (read_bytes q d' ≡ (ok b, d'))
read_bytes-write_bytes p q a b d differ h =
    let (_, d1, e, h1) = continue-eq-ok (write_bytes p a d) (λ _. write_bytes q b) h in
    let (first, open_p) = write_bytes-eq-ok p a d (ap (λ r. r.0) e) in
    let later : (write_bytes q b (set_file p a d)).0 ≡ ok tt = rw first at h in
    let (second, open_q) = write_bytes-eq-ok q b (set_file p a d) later in
    rw (first, second)
      (
        read_bytes-set_file-set_file p q a b d differ open_p,
        read_bytes-set_file q b (set_file p a d) open_q,
      )
