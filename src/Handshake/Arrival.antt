-- ===== src/Handshake/Arrival.antt =====
-- handshake.py: the frame of a message that arrives whole, in whatever chunks.
use phonect.Prelude.{◌<◌, List, [], ◌∷◌, ◌++◌, ◌≡◌, length, All}
use phonect.Python.{dict, Dict, ok}
use phonect.Bytes.{Bytes}
use phonect.Protocol.Frame.{Json, encode_frame}
use phonect.Handshake.{Conn, Recv, sendall, message, read_loop, read_fuel}
use phonect.Handshake.Reading.{IsChunk, deliver, concat, read_loop_finds}

-- Where the frame of a message arrives: whole, in chunks, with bytes behind it perhaps.
pub record Arrives (frame : Bytes) : Type 0 where
  pub earlier : List Bytes
  pub missing : Bytes
  pub extra : Bytes
  pub chunks : All IsChunk earlier
  pub last : IsChunk (missing ++ extra)
  pub left : 0 < length missing
  pub whole : concat earlier ++ missing ≡ frame
  pub rounds : length earlier < read_fuel

abbrev pub arriving : {frame : Bytes} → Conn → Arrives frame → List Recv → Conn
arriving c a rest = deliver c (a.earlier ++ (a.missing ++ a.extra) ∷ []) rest

-- What the JSON codec must do with one message: write some text that fits and read it back.
pub record Carries (json : Json) (d : Dict) (frame : Bytes) : Type 0 where
  pub parsed : json.loads (json.dumps d) ≡ ok (dict d)
  pub filled : 0 < length (json.dumps d)
  pub encoded : encode_frame json d ≡ ok frame

-- The loop reads a message whose frame arrives.
pub read_arriving :
    (json : Json) (d : Dict) (frame : Bytes) (c : Conn) (a : Arrives frame) (rest : List Recv)
    → Carries json d frame
    → read_loop json read_fuel [] (arriving c a rest)
      ≡ (ok (message d), record c { incoming = rest })
read_arriving json d frame c a rest k =
    read_loop_finds json d frame k.parsed k.filled k.encoded read_fuel [] a.earlier a.missing
      a.extra c rest a.chunks a.last a.left a.whole a.rounds

pub sendall_ready :
    (b : Bytes) (c : Conn) → c.sends ≡ [] → sendall b c ≡ (ok tt, record c { sent = c.sent ++ b })
unfolding sendall
sendall_ready b c h = rw h
