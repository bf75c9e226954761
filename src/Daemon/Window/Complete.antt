-- ===== src/Daemon/Window/Complete.antt =====
-- daemon.py: from a wakeup to the unlocked sessions, with a phone that keeps to the protocol.
use phonect.Prelude.{ℕ, String, true, false, none, some, List, ◌++◌, map, ◌≡◌, refl, ◌∙◌, ap, inl}
use phonect.Python.{ok}
use phonect.Protocol.Frame.{Json}
use phonect.Crypto.{Cryptography, IsLawful}
use phonect.Config.{UnlockConfig, text_list}
use phonect.Config.Unlock.{IsUnlock}
use phonect.Daemon.Sessions.{get_active_session_ids}
use phonect.Daemon.Unlock.{Host, Trace, unlock_sessions}
use phonect.Daemon.Unlock.Effects.{IsExpected, issued, asked, unlock_sessions_issues}
use phonect.Daemon.Window.{
  waiting, Daemon, close_window, window_closed, Reach, after, begin_client, wake_up, trigger_wakeup,
  IsHandler,
}
use phonect.Daemon.Window.Visit.{Visit, Answered, visited, wakeup-Answered, begin_client-wake_up}

-- A connection that comes after a wakeup is let in.
let_in :
    {Key : Type 0} (n : ℕ) (d : Daemon Key)
    → d.running ≡ true
    → d.auth_in_progress ≡ false
    → IsHandler n (begin_client n (wake_up (trigger_wakeup d))).handlers
let_in n d running free = rw (begin_client-wake_up n d running free) (inl refl)

module _ (crypto : Cryptography) (L : IsLawful crypto) (k : crypto.PrivateKey) (id name : String)
    (json : Json) (pc : crypto.PrivateKey) where
  -- A daemon that runs, waits, has no handshake in progress and has unlock settings that validate is
  -- woken, and then the phone that it trusts connects: it is let in, and behind the end of its handshake
  -- the daemon has issued what its unlock settings ask for, in order, behind what it had issued before,
  -- with the same trusted key and the authentication noted as completed and successful, where no write
  -- fails, the sessions can be listed and the processes end in an expected way. The steps of the event
  -- loop lead there.
  pub wakeup_unlocks :
      (d : Daemon crypto.PublicKey) (n : ℕ) (v : Visit crypto L k id name json pc) (h : Host)
      (ids : List String)
      → d.phase ≡ waiting
      → d.running ≡ true
      → d.auth_in_progress ≡ false
      → d.trusted_key ≡ some (crypto.public_key k)
      → IsUnlock d.config
      → get_active_session_ids h.user h.listing ≡ ok ids
      → ((argv : List String) → IsExpected (h.outcome argv))
      → let e = visited crypto L k id name json pc h n v d in
        IsHandler n (begin_client n (wake_up (trigger_wakeup d))).handlers
        × Reach crypto json (some pc) d e
        × (e.issued ≡ d.issued ++ map (issued h) (asked (text_list d.config.unlock_command) ids))
        × (e.trusted_key ≡ some (crypto.public_key k))
        × (e.auth_completed ≡ true)
        × (e.last_auth_ok ≡ true)
  wakeup_unlocks d n v h ids at running free trusted settings listed expected =
      let a = wakeup-Answered crypto L k id name json pc true d n v h at running free trusted in
      (
        let_in n d running free,
        a.way,
        a.issued
            ∙ ap (λ q. q.1)
                (unlock_sessions_issues h d.config ids d.issued settings listed expected),
        a.trusted,
        a.completed,
        a.successful,
      )

  -- What the end of a window leaves of a daemon that has paired a phone.
  record Closed (d e : Daemon crypto.PublicKey) : Type 0 where
    phase : e.phase ≡ waiting
    running : e.running ≡ true
    idle : e.auth_in_progress ≡ false
    trusted : e.trusted_key ≡ some (crypto.public_key k)
    issued : e.issued ≡ d.issued
    config : e.config ≡ d.config

  close_window-Closed :
      (d e : Daemon crypto.PublicKey) (h : Host)
      → Answered crypto L k id name json pc false h d e
      → Closed d (close_window none e)
  unfolding close_window
  close_window-Closed d e h a = record {
    phase = rw a.running refl;
    running = rw a.running refl;
    idle = rw a.running a.idle;
    trusted = rw a.running a.trusted;
    issued = rw a.running a.issued;
    config = rw a.running a.config;
  }

  -- A daemon that runs, waits, has no handshake in progress, trusts no key and has unlock settings that
  -- validate is woken, a phone connects, the window closes, the daemon is woken again and the same phone
  -- connects once more: both times it is let in, the first visit pairs the phone and issues nothing, and
  -- the second issues what the unlock settings ask for, where no write fails, the sessions can be listed
  -- and the processes end in an expected way. The steps of the event loop lead from the one state to the
  -- next.
  pub pair_then_unlock :
      (d : Daemon crypto.PublicKey) (n m : ℕ) (v w : Visit crypto L k id name json pc) (h : Host)
      (ids : List String)
      → d.phase ≡ waiting
      → d.running ≡ true
      → d.auth_in_progress ≡ false
      → d.trusted_key ≡ none
      → IsUnlock d.config
      → get_active_session_ids h.user h.listing ≡ ok ids
      → ((argv : List String) → IsExpected (h.outcome argv))
      → let paired = close_window none (visited crypto L k id name json pc h n v d) in
        let unlocked = visited crypto L k id name json pc h m w paired in
        IsHandler n (begin_client n (wake_up (trigger_wakeup d))).handlers
        × Reach crypto json (some pc) d paired
        × (paired.trusted_key ≡ some (crypto.public_key k))
        × (paired.issued ≡ d.issued)
        × IsHandler m (begin_client m (wake_up (trigger_wakeup paired))).handlers
        × Reach crypto json (some pc) paired unlocked
        × (unlocked.trusted_key ≡ some (crypto.public_key k))
        × (unlocked.issued
            ≡ d.issued ++ map (issued h) (asked (text_list d.config.unlock_command) ids))
  pair_then_unlock d n m v w h ids at running free untrusted settings listed expected =
      let a = wakeup-Answered crypto L k id name json pc false d n v h at running free untrusted in
      let c = close_window-Closed d (visited crypto L k id name json pc h n v d) h a in
      let b =
        wakeup-Answered crypto L k id name json pc true
          (close_window none (visited crypto L k id name json pc h n v d)) m w h c.phase c.running
          c.idle c.trusted in
      (
        let_in n d running free,
        after a.way (window_closed none a.phase),
        c.trusted,
        c.issued,
        let_in m (close_window none (visited crypto L k id name json pc h n v d)) c.running c.idle,
        b.way,
        b.trusted,
        b.issued
            ∙ ap
                (λ (x : UnlockConfig).
                  (unlock_sessions h x
                    (close_window none (visited crypto L k id name json pc h n v d)).issued).1)
                c.config
            ∙ ap (λ (t : Trace). (unlock_sessions h d.config t).1) c.issued
            ∙ ap (λ q. q.1)
                (unlock_sessions_issues h d.config ids d.issued settings listed expected),
      )
