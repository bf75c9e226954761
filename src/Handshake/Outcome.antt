-- ===== src/Handshake/Outcome.antt =====
-- handshake.py: a server and a client of this repository that talk to each other.
use phonect.Prelude.{String, true, some, List, [], ◌++◌, ◌≡◌, length}
use phonect.Python.{ProtocolFault, ok}
use phonect.Bytes.{Bytes, IsBytes}
use phonect.Protocol.Frame.{Json}
use phonect.Crypto.{Cryptography, IsLawful}
use phonect.Handshake.{Conn, Recv}
use phonect.Handshake.Arrival.{Arrives, arriving, Carries}
use phonect.Handshake.Server.{Drawn, HandshakeServer, has_socket, accept_and_verify}
use phonect.Handshake.Server.Complete.{accept_and_verify_complete}
use phonect.Handshake.Client.{HandshakeClient, Gate, ask, do_handshake}
use phonect.Handshake.Client.Complete.{session_of, challenge, response, do_handshake_complete}

module _ (crypto : Cryptography) (L : IsLawful crypto) (json : Json)
    (str_fault : ProtocolFault → String) (s : HandshakeServer crypto) (r : Drawn)
    (h : HandshakeClient crypto) (gate : Gate) (salt : Bytes) where
  -- A listening server and the client whose key it trusts, where the gate of the client approves and
  -- each gets the frame that the other sends, in whatever chunks: both say `True` and close their end,
  -- the client having sent its response only and the server its challenge only.
  pub handshake_completes :
      (challenge_frame response_frame : Bytes) (server_conn client_conn : Conn)
      (to_client : Arrives challenge_frame) (to_server : Arrives response_frame)
      (later_client later_server : List Recv)
      → has_socket crypto s ≡ true
      → s.trusted_key ≡ crypto.public_key h.signing_key
      → IsBytes r.nonce
      → length r.nonce ≡ 32
      → ask gate r.nonce (challenge crypto json s r h gate salt) ≡ ok true
      → server_conn.sends ≡ []
      → client_conn.sends ≡ []
      → Carries json (challenge crypto json s r h gate salt) challenge_frame
      → Carries json (response crypto json s r h gate salt) response_frame
      → (do_handshake crypto json h gate salt (ok tt) (arriving client_conn to_client later_client)
          ≡ (
            ok true,
            record client_conn {
              incoming = later_client;
              sent = client_conn.sent ++ response_frame;
              closed = true;
            },
          ))
        × (accept_and_verify crypto json str_fault s r
              (ok (arriving server_conn to_server later_server))
            ≡ (
              ok true,
              some (record server_conn {
                incoming = later_server;
                sent = server_conn.sent ++ challenge_frame;
                closed = true;
              }),
            ))
  handshake_completes f1 f2 sc cc a1 a2 rest1 rest2 up trusted bytes size approved sready cready c1
        c2 =
      (
        do_handshake_complete crypto json s r h gate salt f1 f2 cc a1 rest1 bytes size approved
            cready c1 c2.encoded,
        accept_and_verify_complete crypto json str_fault s r L h.signing_key trusted salt
            (session_of r) h.fingerprint h.device_name f1 f2 sc a2 rest2 up sready c1.encoded c2,
      )
