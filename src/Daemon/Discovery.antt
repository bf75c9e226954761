-- ===== src/Daemon/Discovery.antt =====
-- daemon.py: `_broadcast_discovery_window`. Time is counted in microseconds.
pub mod Bounds
pub mod Cycle
use Prim.Native.Char.{Char}
use phonect.Prelude.{
  ℕ, zero, suc, ◌+◌, ◌-◌, ◌*◌, ◌/◌, ◌%◌, String, Bool, true, false, ◌&&◌, Option, none, some, List,
  [], ◌∷◌, ◌++◌, leb, ltb, ◌==◌, if◌then◌else◌,
}
use phonect.Python.{ℤ, pos, negsuc, Value, Exception, Result, ok, raise}
use phonect.Python.Paths.{text_append}
use phonect.Bytes.{Bytes, utf8, hex_digit}
use phonect.Crypto.{Cryptography, fingerprint_from_public_key}
use phonect.Config.Load.{truthy}

-- `text[:n]`
abbrev pub take_text : ℕ → String → String
take_text zero s = ""
take_text (suc n) String.[] = ""
take_text (suc n) (String.◌∷◌ c s) = String.◌∷◌ c (take_text n s)

-- the decimal digits of a number, before those that are there already; `fuel` beyond the number is enough
decimal : ℕ → ℕ → String → String
decimal zero n later = later
decimal (suc fuel) n later =
    let here : String = String.◌∷◌ (hex_digit (n % 10)) later in
    elim (n / 10) [ zero ↦ here | suc m ↦ decimal fuel (suc m) here ]

-- `str` of an integer
unfoldable pub int_text : ℤ → String
unfolding decimal
int_text (pos n) = decimal (suc n) n ""
int_text (negsuc n) = text_append "-" (decimal (suc (suc n)) (suc n) "")

-- the name of the computer; `text_of` is `str(value)`
abbrev pub display_name : (Value → String) → Value → String → String
display_name text_of pc_name hostname = if truthy pc_name then text_of pc_name else hostname

module _ (crypto : Cryptography) where
  -- the first sixteen digits of the computer's own fingerprint, or "unknown"
  unfoldable pub short_fingerprint : Option crypto.PrivateKey → String
  short_fingerprint none = "unknown"
  short_fingerprint (some pc) =
      take_text 16 (fingerprint_from_public_key crypto (crypto.public_key pc))

  unfoldable pub discovery_payload :
      (Value → String) → Value → String → Option crypto.PrivateKey → ℤ → Bytes
  discovery_payload text_of pc_name hostname pc port = utf8 (
      text_append "PHONECT_DISCOVERY:" (
        text_append (display_name text_of pc_name hostname)
          (text_append ":" (text_append (short_fingerprint pc) (text_append ":" (int_text port))))))

-- How `sendto` ends: `unreachable` is the error ENETUNREACH, `failed` any other `OSError`.
pub data Sendto : Type 0 where
  sent unreachable : Sendto
  failed : Exception → Sendto

-- What one round meets: how its packet goes, by how much its sleep is late, whether the window is still
-- open when it wakes, and whether the task is cancelled in this sleep.
pub record Round : Type 0 where
  pub outcome : Sendto
  pub late : ℕ
  pub pending : Bool
  pub cut : Bool

-- A packet that was broadcast, and the time at which it was.
pub record Packet : Type 0 where
  pub sent_at : ℕ
  pub payload : Bytes

-- The clock, `_auth_pending`, the rounds to come (past their end all goes well), what was broadcast, and
-- whether the socket is open.
pub record Air : Type 0 where
  pub now : ℕ
  pub pending : Bool
  pub rounds : List Round
  pub packets : List Packet
  pub socket_open : Bool

-- How the task ends: it returns, a cancellation cuts it short, or an exception comes up.
pub data TaskEnd : Type 0 where
  returned cut_short : TaskEnd
  failed_with : Exception → TaskEnd

abbrev calm : Round
calm = record { outcome = sent; late = 0; pending = true; cut = false }

abbrev pub next_round : List Round → Round
next_round [] = calm
next_round (r ∷ _) = r

abbrev pub later_rounds : List Round → List Round
later_rounds [] = []
later_rounds (_ ∷ rs) = rs

-- `min(0.25, max(0.05, poll_interval / 2))`
abbrev pub retry_pause : ℕ → ℕ
retry_pause interval =
    if ltb (interval / 2) 50_000
    then 50_000
    else (if ltb (interval / 2) 250_000 then interval / 2 else 250_000)

-- `asyncio.sleep`, and what has changed then
abbrev pub sleep : ℕ → Round → Air → Air
sleep pause r a = record a {
  now = a.now + pause + r.late;
  pending = r.pending;
  rounds = later_rounds a.rounds;
}

abbrev pub with_packet : Bytes → Air → Air
with_packet payload a = record a {
  packets = a.packets ++ record { sent_at = a.now; payload = payload } ∷ [];
}

-- the loop; `none` is the end of the fuel
unfoldable pub broadcast : ℕ → Bytes → ℕ → ℕ → Air → Option TaskEnd × Air
broadcast zero payload interval deadline a = (none, a)
broadcast (suc fuel) payload interval deadline a = elim (a.pending && leb a.now deadline) [
  | false ↦ (some returned, a)
  | true ↦ elim (next_round a.rounds).outcome [
    | sent ↦ elim (next_round a.rounds).cut [
      | true ↦ (some cut_short, with_packet payload a)
      | false ↦
          broadcast fuel payload interval deadline
            (sleep interval (next_round a.rounds) (with_packet payload a))
    ]
    | unreachable ↦ elim (next_round a.rounds).cut [
      | true ↦ (some cut_short, a)
      | false ↦
          broadcast fuel payload interval deadline
            (sleep (retry_pause interval) (next_round a.rounds) a)
    ]
    | failed e ↦ (some (failed_with e), a)
  ]
]

-- `socket.socket(…)` and the `finally: sock.close()`
abbrev pub open_socket : Air → Air
open_socket a = record a { socket_open = true }

abbrev pub close_socket : Option TaskEnd × Air → Option TaskEnd × Air
close_socket (q, a) = (q, record a { socket_open = false })

-- `_broadcast_discovery_window`, where `making` and `allowing` are how the making of the socket and its
-- `setsockopt` end; with fuel for every microsecond of the window
unfoldable pub broadcast_discovery_window :
    (making allowing : Result (Unit {0})) → Bytes → ℕ → ℕ → Air → Option TaskEnd × Air
broadcast_discovery_window (raise e) allowing payload interval timeout a = (some (failed_with e), a)
broadcast_discovery_window (ok _) (raise e) payload interval timeout a =
    (some (failed_with e), open_socket a)
broadcast_discovery_window (ok _) (ok _) payload interval timeout a =
    close_socket (broadcast (suc (suc timeout)) payload interval (a.now + timeout) (open_socket a))

-- The `await discovery_task` of `_run_auth_cycle`: what it raises, other than a cancellation.
unfoldable pub await_discovery : TaskEnd → Option Exception
await_discovery returned = none
await_discovery cut_short = none
await_discovery (failed_with e) = some e
