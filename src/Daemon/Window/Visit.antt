-- ===== src/Daemon/Window/Visit.antt =====
-- daemon.py: a phone that keeps to the protocol and connects in the window of a wakeup.
use mathlib.Core.Path.{subst}
use phonect.Prelude.{
  ℕ, String, Bool, true, false, none, some, ◌∙◌, if◌then◌else◌, [], ◌∷◌, ◌++◌, ◌≡◌, inl, refl, sym,
  arith,
}
use phonect.Python.{Result, ok}
use phonect.Bytes.{Bytes}
use phonect.Protocol.Frame.{Json, encode_frame}
use phonect.Crypto.{Cryptography, IsLawful}
use phonect.Handshake.Server.{Drawn}
use phonect.Daemon.Tcp.{Verdict, tcp_handshake}
use phonect.Daemon.Tcp.Arrive.{Conveys}
use phonect.Daemon.Tcp.Honest.{
  hello, accept, challenge, response, tcp_handshake_complete, trusted_if, keyed,
}
use phonect.Daemon.Reader.{Session}
use phonect.Daemon.Unlock.{Host, unlock_sessions}
use phonect.Daemon.Window.{
  waiting, in_window, Daemon, Link, trigger_wakeup, wake_up, begin_client, session_of, unlock_if,
  end_client, triggered, woken, connected, handled, Reach, here, after,
}

-- The daemon of a wakeup, inside its window, with the handshake of the connection `n` running.
abbrev admitted : {Key : Type 0} → ℕ → Daemon Key → Daemon Key
admitted n d = record d {
  wakeup_event = false;
  auth_pending = true;
  auth_completed = false;
  last_auth_ok = false;
  auth_in_progress = true;
  phase = in_window;
  handlers = n ∷ d.handlers;
}

pub begin_client-wake_up :
    {Key : Type 0} (n : ℕ) (d : Daemon Key)
    → d.running ≡ true
    → d.auth_in_progress ≡ false
    → begin_client n (wake_up (trigger_wakeup d)) ≡ admitted n d
unfolding begin_client wake_up
begin_client-wake_up n d running free = ground arith

module _ (crypto : Cryptography) (L : IsLawful crypto) (k : crypto.PrivateKey) (id name : String)
    (json : Json) (pc : crypto.PrivateKey) where
  -- A connection of the phone that holds `k`: it greets and answers the challenge drawn for it, no write
  -- fails, and the JSON codec conveys the four messages.
  pub record Visit : Type 0 where
    pub drawn : Drawn
    pub salt : Bytes
    pub link : Link
    pub hello_frame : Bytes
    pub accept_frame : Bytes
    pub challenge_frame : Bytes
    pub response_frame : Bytes
    pub rest : Bytes
    pub ready : link.drains ≡ []
    pub saves : link.save_error ≡ none
    pub input : link.input ≡ hello_frame ++ (response_frame ++ rest)
    pub greeted : Conveys json (hello crypto L k id name) hello_frame
    pub accepted :
        encode_frame json (accept crypto L k id name json pc drawn salt) ≡ ok accept_frame
    pub challenged :
        encode_frame json (challenge crypto L k id name json pc drawn salt) ≡ ok challenge_frame
    pub answered : Conveys json (response crypto L k id name json pc drawn salt) response_frame

  -- What a visit in a new window makes of `d`, where the phone is known or not.
  pub record Answered (known : Bool) (h : Host) (d e : Daemon crypto.PublicKey) : Type 0 where
    pub way : Reach crypto json (some pc) d e
    pub issued : e.issued ≡ (if known then (unlock_sessions h d.config d.issued).1 else d.issued)
    pub trusted : e.trusted_key ≡ some (crypto.public_key k)
    pub completed : e.auth_completed ≡ true
    pub successful : e.last_auth_ok ≡ true
    pub idle : e.auth_in_progress ≡ false
    pub config : e.config ≡ d.config
    pub running : e.running ≡ true
    pub phase : e.phase ≡ in_window

  -- the handshake of a visit inside the window
  abbrev handshake : Daemon crypto.PublicKey → ℕ → Visit → Result Verdict × Session crypto.PublicKey
  handshake d n v = tcp_handshake crypto json (some pc) v.drawn (session_of v.link (admitted n d))

  -- Where the daemon is when the visit is over: it was woken, let the connection `n` in, and its
  -- handshake has ended.
  abbrev pub visited : Host → ℕ → Visit → Daemon crypto.PublicKey → Daemon crypto.PublicKey
  visited h n v d =
      let inside : Daemon crypto.PublicKey = begin_client n (wake_up (trigger_wakeup d)) in
      end_client h n (tcp_handshake crypto json (some pc) v.drawn (session_of v.link inside)) inside

  end_client-Answered :
      (known : Bool) (d : Daemon crypto.PublicKey) (n : ℕ) (v : Visit) (h : Host)
      (t : Session crypto.PublicKey)
      → Reach crypto json (some pc) d (end_client h n (handshake d n v) (admitted n d))
      → d.running ≡ true
      → d.trusted_key ≡ trusted_if crypto L k id name known
      → t.trusted_key ≡ d.trusted_key
      → handshake d n v
        ≡ (ok (true, known), keyed crypto L k id name json pc v.drawn v.salt known t)
      → Answered known h d (end_client h n (handshake d n v) (admitted n d))
  unfolding end_client unlock_if
  end_client-Answered true d n v h t way running trusted same agreed = record {
    way = way;
    issued = rw agreed refl;
    trusted = rw agreed (same ∙ trusted);
    completed = rw agreed refl;
    successful = rw agreed refl;
    idle = rw agreed refl;
    config = rw agreed refl;
    running = rw agreed running;
    phase = rw agreed refl;
  }
  end_client-Answered false d n v h t way running trusted same agreed = record {
    way = way;
    issued = rw agreed refl;
    trusted = rw agreed refl;
    completed = rw agreed refl;
    successful = rw agreed refl;
    idle = rw agreed refl;
    config = rw agreed refl;
    running = rw agreed running;
    phase = rw agreed refl;
  }

  pub wakeup-Answered :
      (known : Bool) (d : Daemon crypto.PublicKey) (n : ℕ) (v : Visit) (h : Host)
      → d.phase ≡ waiting
      → d.running ≡ true
      → d.auth_in_progress ≡ false
      → d.trusted_key ≡ trusted_if crypto L k id name known
      → Answered known h d (visited h n v d)
  wakeup-Answered known d n v h at running free trusted =
      let inside : Daemon crypto.PublicKey = admitted n d in
      let way : Reach crypto json (some pc) d inside =
        subst (λ e. Reach crypto json (some pc) d e) (begin_client-wake_up n d running free)
          (after (after (after here triggered) (woken at refl)) (connected n)) in
      let agreed =
        tcp_handshake_complete crypto L k id name json pc v.drawn v.salt known v.hello_frame
          v.accept_frame v.challenge_frame v.response_frame v.rest (session_of v.link inside)
          trusted v.ready v.saves v.input v.greeted v.accepted v.challenged v.answered in
      let answered =
        end_client-Answered known d n v h _ (after way (handled h n v.drawn v.link (inl refl)))
          running trusted refl agreed in
      subst
        (λ x.
          Answered known h d
            (end_client h n (tcp_handshake crypto json (some pc) v.drawn (session_of v.link x)) x))
        (sym (begin_client-wake_up n d running free)) answered
