-- ===== src/Handshake/Server/Socket.antt =====
-- handshake.py: the listening socket of `HandshakeServer`, from `start` to `close`.
use phonect.Prelude.{true, none, some, ◌≡◌, ◌⊎◌, inl, inr, refl, ◌∙◌}
use phonect.Python.{ℤ, pos, Exception, is_os_error, Result, ok, raise}
use phonect.Python.Io.{continue}
use phonect.Crypto.{Cryptography}
use phonect.Handshake.Server.{Opening, HandshakeServer, port, start, close}

module _ (crypto : Cryptography) where
  -- the port of a socket that `start` leaves
  abbrev IsPort : Opening → HandshakeServer crypto → ℤ → Type 0
  IsPort calls s p = (p ≡ pos 0) ⊎ (calls.binding s.listen_host s.listen_port ≡ ok p)

  -- the rest of `start`, by how the binding ended
  abbrev after_binding : Opening → HandshakeServer crypto → Result ℤ → HandshakeServer crypto
  after_binding calls s q =
      (continue {B = Unit {0}} (q, record s { sock = some (pos 0) })
        (λ bound t. (calls.listening, record t { sock = some bound }))).1

  binding-IsPort :
      (calls : Opening) (s : HandshakeServer crypto) (q : Result ℤ)
      → calls.binding s.listen_host s.listen_port ≡ q
      → (p : ℤ) × IsPort calls s p × (after_binding calls s q ≡ record s { sock = some p })
  binding-IsPort calls s (ok p) e = (p, inr e, refl)
  binding-IsPort calls s (raise x) e = (pos 0, inl refl, refl)

  start-created :
      (calls : Opening) (s : HandshakeServer crypto)
      → calls.creating ≡ ok tt
      → (start crypto calls s).1 ≡ after_binding calls s (calls.binding s.listen_host s.listen_port)
  unfolding start
  start-created calls s created = rw created refl

  start-IsPort :
      (calls : Opening) (s : HandshakeServer crypto)
      → calls.creating ≡ ok tt
      → (p : ℤ) × IsPort calls s p × ((start crypto calls s).1 ≡ record s { sock = some p })
  start-IsPort calls s created =
      let (p, is_port, e) =
        binding-IsPort calls s (calls.binding s.listen_host s.listen_port) refl in
      (p, is_port, start-created calls s created ∙ e)

  close-run :
      (closing : Result (Unit {0})) (s : HandshakeServer crypto) (p : ℤ)
      → (closing ≡ ok tt) ⊎ ((e : Exception) × (closing ≡ raise e) × (is_os_error e ≡ true))
      → close crypto closing (record s { sock = some p }) ≡ (ok tt, record s { sock = none })
  unfolding close
  close-run closing s p (inl closed) = rw closed refl
  close-run closing s p (inr (e, raised, caught)) = rw (raised, caught) refl

  -- Once its socket is made, a server that is started has a socket, also where binding it or listening
  -- fails and `start` raises; its port is 0 or the one that it was bound to. Closing it, which may fail
  -- with an `OSError`, then succeeds and leaves no socket, and no other field has changed.
  pub close-start :
      (calls : Opening) (closing : Result (Unit {0})) (s : HandshakeServer crypto)
      → calls.creating ≡ ok tt
      → (closing ≡ ok tt) ⊎ ((e : Exception) × (closing ≡ raise e) × (is_os_error e ≡ true))
      → let t = (start crypto calls s).1 in
        (p : ℤ) × ((p ≡ pos 0) ⊎ (calls.binding s.listen_host s.listen_port ≡ ok p))
        × (port crypto t ≡ some p)
        × (close crypto closing t ≡ (ok tt, record s { sock = none }))
  close-start calls closing s created closes =
      let (p, is_port, e) = start-IsPort calls s created in
      (p, is_port, rw e refl, rw e (close-run closing s p closes))
