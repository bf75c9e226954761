-- ===== src/Daemon/Window/Safety.antt =====
-- daemon.py: invariants of the event loop.
use phonect.Prelude.{
  ℕ, true, false, Option, none, some, [], ◌∷◌, ◌≡◌, ◌↔◌, ◌⊎◌, inl, inr, ◌∙◌, ap, sym, arith,
}
use phonect.Protocol.Frame.{Json}
use phonect.Crypto.{Cryptography}
use phonect.Daemon.Window.Refines.{
  Exchange, View, view, IsAnswered, Spec, rests, pins, unlocks, exchange_of, Step-Spec,
}
use phonect.Daemon.Window.{
  in_window, Daemon, on_prepare_for_sleep, begin_client, wake_up, close_window, end_client, Step,
  sleep_signal, triggered, stopped, cancelled, woken, window_closed, connected, handled, aborted,
  Reach, here, after,
}

-- One handshake at a time, and the flag says whether there is one; connections are let in exactly
-- while `run` is inside a window.
pub record IsCoordinated {Key : Type 0} (d : Daemon Key) : Type 0 where
  pub single :
      ((d.auth_in_progress ≡ true) × ((id : ℕ) × (d.handlers ≡ id ∷ [])))
      ⊎ ((d.auth_in_progress ≡ false) × (d.handlers ≡ []))
  pub bounded : (d.auth_pending ≡ true) ↔ (d.phase ≡ in_window)

module _ (crypto : Cryptography) (json : Json) (pc : Option crypto.PrivateKey) where
  pub Step-IsCoordinated :
      {d e : Daemon crypto.PublicKey} → Step crypto json pc d e → IsCoordinated d → IsCoordinated e
  unfolding on_prepare_for_sleep begin_client wake_up close_window end_client
  Step-IsCoordinated (sleep_signal b) i = (ground arith)
  Step-IsCoordinated triggered i = record { single = i.single; bounded = i.bounded }
  Step-IsCoordinated stopped i = record { single = i.single; bounded = i.bounded }
  Step-IsCoordinated cancelled i = record { single = i.single; bounded = ground arith }
  Step-IsCoordinated {d} (woken at up) i = (ground arith)
  Step-IsCoordinated {d} (window_closed none at) i = (ground arith)
  Step-IsCoordinated {d} (window_closed (some e) at) i = (ground arith)
  Step-IsCoordinated {d} (connected id) i = (ground arith)
  Step-IsCoordinated {d} (handled h id r l running) i = (ground arith)
  Step-IsCoordinated {d} (aborted h id l e running) i = (ground arith)

  -- In every state that the daemon reaches from its start, at most one handshake is running, the
  -- flag `_auth_in_progress` says whether one is, and `_auth_pending` is set exactly inside a window.
  pub Reach-IsCoordinated :
      {d e : Daemon crypto.PublicKey} → IsCoordinated d → Reach crypto json pc d e → IsCoordinated e
  Reach-IsCoordinated i here = i
  Reach-IsCoordinated i (after way step) = Step-IsCoordinated step (Reach-IsCoordinated i way)

  -- A key is trusted, and in an exchange of these the phone has answered with its signature.
  pub record IsProven (Met : Exchange → Type 0) (v : View crypto.PublicKey) : Type 0 where
    pub key : crypto.PublicKey
    pub exchange : Exchange
    pub trusted : v.trusted_key ≡ some key
    pub answered : IsAnswered crypto json pc exchange key
    pub met : Met exchange

  -- Nothing was issued yet, or the unlocking was earned in an exchange of these.
  abbrev IsEarned : (Exchange → Type 0) → View crypto.PublicKey → Type 0
  IsEarned Met v = (v.issued ≡ []) ⊎ IsProven Met v

  -- What the specification allows, is earned by its exchange and those before it.
  Spec-IsEarned :
      {exchange : Option Exchange} {v w : View crypto.PublicKey} {Met : Exchange → Type 0}
      → Spec crypto json pc exchange v w
      → IsEarned Met v
      → IsEarned (λ x. (exchange ≡ some x) ⊎ Met x) w
  Spec-IsEarned {Met = Met} (rests same) (inl none_yet) =
      inl (ap (λ (u : View _). u.issued) (sym same) ∙ none_yet)
  Spec-IsEarned {Met = Met} (rests same) (inr p) = inr (record {
    key = p.key;
    exchange = p.exchange;
    trusted = ap (λ (u : View _). u.trusted_key) (sym same) ∙ p.trusted;
    answered = p.answered;
    met = inr p.met;
  })
  Spec-IsEarned (pins key x made untrusted answered next) earned = inr (record {
    key = key;
    exchange = x;
    trusted = ap (λ (u : View _). u.trusted_key) next;
    answered = answered;
    met = inl made;
  })
  Spec-IsEarned (unlocks key x h made trusted answered next) earned = inr (record {
    key = key;
    exchange = x;
    trusted = ap (λ (u : View _). u.trusted_key) next ∙ trusted;
    answered = answered;
    met = inl made;
  })

  -- One of these steps has ended the handshake of this exchange.
  abbrev pub Happened :
      {d e : Daemon crypto.PublicKey} → Exchange → Reach crypto json pc d e → Type 0
  Happened x here = ⊥
  Happened x (after way step) = (exchange_of crypto json pc step ≡ some x) ⊎ Happened x way

  -- From its start on, a daemon has issued no unlock command unless a key is trusted and one of its
  -- handshakes has ended in which a frame of the phone gave a signature, verified under this key, of
  -- the nonce drawn for that handshake.
  pub issued_is_earned :
      {d e : Daemon crypto.PublicKey}
      → d.issued ≡ []
      → (way : Reach crypto json pc d e) → (e.issued ≡ []) ⊎ IsProven (λ x. Happened x way) (view e)
  issued_is_earned none_yet here = inl none_yet
  issued_is_earned none_yet (after way step) =
      Spec-IsEarned (Step-Spec crypto json pc step) (issued_is_earned none_yet way)

  Spec-trusted_key :
      {exchange : Option Exchange} {v w : View crypto.PublicKey} (key : crypto.PublicKey)
      → Spec crypto json pc exchange v w
      → v.trusted_key ≡ some key
      → w.trusted_key ≡ some key
  Spec-trusted_key key (rests same) h = ap (λ (u : View _). u.trusted_key) (sym same) ∙ h
  Spec-trusted_key key (pins _ x made untrusted answered next) h = absurd (ground arith)
  Spec-trusted_key key (unlocks _ x host made trusted answered next) h =
      ap (λ (u : View _). u.trusted_key) next ∙ h

  -- Once a key is trusted, no sequence of events replaces it.
  pub trusted_key_stays :
      {d e : Daemon crypto.PublicKey} (key : crypto.PublicKey)
      → d.trusted_key ≡ some key
      → Reach crypto json pc d e
      → e.trusted_key ≡ some key
  trusted_key_stays key trusted here = trusted
  trusted_key_stays key trusted (after way step) =
      Spec-trusted_key key (Step-Spec crypto json pc step) (trusted_key_stays key trusted way)
