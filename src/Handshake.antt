-- ===== src/Handshake.antt =====
-- handshake.py: what `HandshakeServer` and `HandshakeClient` share. A connection holds what the peer
-- will send, how the calls of `sendall` will end, and what was sent.
pub mod Reading
pub mod Arrival
pub mod Heard
pub mod Server
pub mod Client
pub mod Outcome
use phonect.Prelude.{
  ℕ, zero, suc, ◌+◌, Bool, true, false, Option, none, some, List, [], ◌∷◌, ◌++◌, length, take, drop,
  leb, if◌then◌else◌,
}
use phonect.Python.{
  Value, null, bool, int, float, str, list, dict, Dict, Exception, protocol_security_error,
  SecurityFault, type_error, value_error, Result, ok, raise,
}
use phonect.Python.Io.{Io, pure, throw, continue}
use phonect.Bytes.{Bytes, fromhex}
use phonect.Protocol.Frame.{Json, decode_frame, max_frame_size, frame_header_size}

-- What one call of `recv` meets: bytes that have arrived, or an exception. A chunk of no bytes is the
-- end of the stream, and so is the end of the list.
pub data Recv : Type 0 where
  chunk : Bytes → Recv
  fails : Exception → Recv

-- How one call of `sendall` ends: all the bytes go out, or an exception comes after so many of them.
pub data Send : Type 0 where
  taken : Send
  breaks : ℕ → Exception → Send

pub record Conn : Type 0 where
  pub incoming : List Recv
  -- how the next calls of `sendall` end; past the end of the list they succeed
  pub sends : List Send
  pub sent : Bytes
  pub closed : Bool

-- `conn.recv(n)`: at most `n` bytes, and the others stay for the next call
recv_event : ℕ → List Recv → Io Conn Bytes
recv_event n [] c = (ok [], c)
recv_event n (fails e ∷ rest) c = (raise e, record c { incoming = rest })
recv_event n (chunk b ∷ rest) c =
    if leb (length b) n
    then (ok b, record c { incoming = rest })
    else (ok (take n b), record c { incoming = chunk (drop n b) ∷ rest })

unfoldable pub recv : ℕ → Io Conn Bytes
unfolding recv_event
recv n c = recv_event n c.incoming c

-- `conn.sendall(bytes)`
send_event : Bytes → List Send → Io Conn (Unit {0})
send_event b [] c = (ok tt, record c { sent = c.sent ++ b })
send_event b (taken ∷ rest) c = (ok tt, record c { sent = c.sent ++ b; sends = rest })
send_event b (breaks n e ∷ rest) c = (raise e, record c { sent = c.sent ++ take n b; sends = rest })

unfoldable pub sendall : Bytes → Io Conn (Unit {0})
unfolding send_event
sendall b c = send_event b c.sends c

abbrev pub read_chunk_size : ℕ
read_chunk_size = 4096

-- How the reading loop ends.
pub data Read : Type 0 where
  message : Dict → Read
  closed_by_peer too_large out_of_fuel : Read
  violation : SecurityFault → Read

-- What one round of the loop decides: to stop, or to go on with a longer buffer.
pub data Turn : Type 0 where
  stop : Result Read → Turn
  more : Bytes → Turn

turn_decoded : Bytes → Result (Option Dict) → Turn
turn_decoded buf (ok none) = more buf
turn_decoded buf (ok (some d)) = stop (ok (message d))
turn_decoded buf (raise (protocol_security_error fault)) = stop (ok (violation fault))
turn_decoded buf (raise e) = stop (raise e)

-- the body of the loop, from what `recv` gave
unfoldable pub turn : Json → Bytes → Result Bytes → Turn
unfolding turn_decoded
turn json buf (raise e) = stop (raise e)
turn json buf (ok []) = stop (ok closed_by_peer)
turn json buf (ok (b ∷ bs)) = turn_decoded (buf ++ b ∷ bs) (decode_frame json (buf ++ b ∷ bs))

-- `while len(buf) <= FRAME_HEADER_SIZE + MAX_FRAME_SIZE: …`, the same loop in server and client.
-- Each round that does not end the loop adds a byte at least, so `read_fuel` rounds are enough.
unfoldable pub read_loop : Json → ℕ → Bytes → Io Conn Read
read_loop json zero buf c = (ok out_of_fuel, c)
read_loop json (suc fuel) buf c = elim (leb (length buf) (frame_header_size + max_frame_size)) [
  | false ↦ (ok too_large, c)
  | true ↦
      let (r, c') = recv read_chunk_size c in
      elim (turn json buf r) [ stop q ↦ (q, c') | more buf' ↦ read_loop json fuel buf' c' ]
]

abbrev pub read_fuel : ℕ
read_fuel = 65_542

-- `bytes.fromhex(value)`
unfoldable pub fromhex_value : Option Value → Result Bytes
fromhex_value (some (str s)) = elim (fromhex s) [ none ↦ raise value_error | some bs ↦ ok bs ]
fromhex_value _ = raise type_error

-- `value[:16]`, which a log line computes: texts and lists can be sliced
unfoldable pub check_slice : Option Value → Result (Unit {0})
check_slice none = ok tt
check_slice (some (str _)) = ok tt
check_slice (some (list _)) = ok tt
check_slice _ = raise type_error
