-- ===== src/Cli/Laws.antt =====
-- cli.py: `gen-keys` and then the two other commands, and the status of `server`.
use phonect.Prelude.{
  List, String, Bool, true, false, none, some, [], ◌≡◌, refl, ◌∙◌, ap, sym, arith, length,
}
use phonect.Python.{ℤ, Dict, ProtocolFault, ok}
use phonect.Python.Io.{continue-eq-ok}
use phonect.Python.Paths.{of_text, path_eq}
use phonect.Python.Disk.{Disk, read_bytes}
use phonect.Python.Disk.Laws.{read_bytes-eq-ok, read_bytes-write_bytes}
use phonect.Bytes.{Bytes, IsBytes}
use phonect.Protocol.Frame.{Json}
use phonect.Crypto.{Cryptography, IsLawful, generate_key_pair, load_public_key}
use phonect.Handshake.{Conn, Recv}
use phonect.Handshake.Arrival.{Arrives, arriving, Carries}
use phonect.Handshake.Server.{HandshakeServer, new_server, Opening, start, close, accept_and_verify}
use phonect.Handshake.Server.Sound.{accept_and_verify_sound}
use phonect.Handshake.Outcome.{handshake_completes}
use phonect.Handshake.Client.{ask}
use phonect.Handshake.Client.Complete.{challenge, response}
use phonect.Python.Results.{ok_injective}
use phonect.Cli.{
  exit_status, biometric_prompt, client_of, Network, cmd_gen_keys, serve, cmd_server, cmd_client,
}

module _ (crypto : Cryptography) (json : Json) (str_fault : ProtocolFault → String) where
  exit_status-eq-zero : (b : Bool) → exit_status b ≡ 0 → b ≡ true
  exit_status-eq-zero true h = refl
  exit_status-eq-zero false h = ground arith

  start-trusted_key :
      (calls : Opening) (s : HandshakeServer crypto)
      → (start crypto calls s).1.trusted_key ≡ s.trusted_key
  unfolding start
  start-trusted_key calls s = ground arith

  serve-eq-zero :
      (net : Network) (port : ℤ) (timeout : String) (key : crypto.PublicKey) (disk : Disk)
      → (serve crypto json str_fault net port timeout key disk).0 ≡ ok 0
      → (signature : Bytes) × (crypto.verify key signature net.drawn.nonce ≡ ok tt)
  unfolding serve
  serve-eq-zero net port timeout key disk h =
      let s0 : HandshakeServer crypto = new_server crypto key none "0.0.0.0" port timeout in
      let s : HandshakeServer crypto = (start crypto net.opening s0).1 in
      let (_, d1, e1, h1) = continue-eq-ok ((start crypto net.opening s0).0, disk) _ h in
      let (result, d2, e2, h2) =
        continue-eq-ok ((accept_and_verify crypto json str_fault s net.drawn net.accepted).0, d1) _
          h1 in
      let (_, d3, e3, h3) = continue-eq-ok ((close crypto net.closing s).0, d2) _ h2 in
      let is_true : result ≡ true = exit_status-eq-zero result (ok_injective h3) in
      let (_, _, _, signature, _, _, _, _, good) =
        accept_and_verify_sound crypto json str_fault s net.drawn net.accepted
          (ap (λ q. q.0) e2 ∙ ap ok is_true) in
      (
        signature,
        ap (λ k. crypto.verify k signature net.drawn.nonce) (sym (start-trusted_key net.opening s0))
            ∙ good,
      )

  -- `phonect server` exits with status 0 only if the file that it was given holds a public key and the
  -- nonce of this run was answered with a signature that is verified under that key.
  pub cmd_server_sound :
      (net : Network) (public_key : String) (port : ℤ) (timeout : String) (disk : Disk)
      → (cmd_server crypto json str_fault net public_key port timeout disk).0 ≡ ok 0
      → (pem : Bytes) × (key : crypto.PublicKey) × (signature : Bytes) × (disk.files
            (of_text public_key)
          ≡ some pem)
        × (crypto.load_pem_public_key pem ≡ ok key)
        × (crypto.verify key signature net.drawn.nonce ≡ ok tt)
  unfolding cmd_server
  cmd_server_sound net public_key port timeout disk h =
      let (pem, d1, read, h1) = continue-eq-ok (read_bytes (of_text public_key) disk) _ h in
      let (key, d2, loaded, h2) = continue-eq-ok (load_public_key crypto pem, d1) _ h1 in
      let (signature, good) = serve-eq-zero net port timeout key d2 h2 in
      (
        pem,
        key,
        signature,
        read_bytes-eq-ok (of_text public_key) disk pem (ap (λ q. q.0) read),
        ap (λ q. q.0) loaded,
        good,
      )

module _ (crypto : Cryptography) (L : IsLawful crypto) (json : Json)
    (str_fault : ProtocolFault → String) (drawn_key : crypto.PrivateKey) (net : Network)
    (private_key public_key device_name pc_ip timeout client_timeout : String)
    (port pc_port bound_port : ℤ) (disk : Disk) where
  -- the server and the client that the two commands make
  abbrev pub server_of_pair : HandshakeServer crypto
  server_of_pair =
      record (new_server crypto (crypto.public_key drawn_key) none "0.0.0.0" port timeout) {
        sock = some bound_port;
      }

  abbrev pub challenge_sent : Dict
  challenge_sent =
      challenge crypto json server_of_pair net.drawn
        (client_of crypto drawn_key device_name client_timeout) (some biometric_prompt) net.salt

  abbrev pub response_sent : Dict
  response_sent =
      response crypto json server_of_pair net.drawn
        (client_of crypto drawn_key device_name client_timeout) (some biometric_prompt) net.salt

  abbrev pub written : Disk
  written = (cmd_gen_keys crypto drawn_key private_key public_key disk).1

  cmd_gen_keys-files :
      path_eq (of_text private_key) (of_text public_key) ≡ false
      → (cmd_gen_keys crypto drawn_key private_key public_key disk).0 ≡ ok tt
      → (read_bytes (of_text private_key) written ≡ (ok (crypto.private_pem drawn_key), written))
        × (read_bytes (of_text public_key) written
            ≡ (ok (crypto.public_pem (crypto.public_key drawn_key)), written))
  unfolding cmd_gen_keys generate_key_pair
  cmd_gen_keys-files differ h =
      read_bytes-write_bytes (of_text private_key) (of_text public_key)
        (crypto.private_pem drawn_key) (crypto.public_pem (crypto.public_key drawn_key)) disk differ
        h

  approved : (nonce : Bytes) (d : Dict) → ask (some biometric_prompt) nonce d ≡ ok true
  unfolding ask
  approved nonce d = refl

  start-run :
      net.opening.creating ≡ ok tt
      → net.opening.binding "0.0.0.0" port ≡ ok bound_port
      → net.opening.listening ≡ ok tt
      → start crypto net.opening
          (new_server crypto (crypto.public_key drawn_key) none "0.0.0.0" port timeout)
        ≡ (ok tt, server_of_pair)
  unfolding start
  start-run created bound listens = rw (created, bound, listens) refl

  -- After `phonect gen-keys` has written its two files, `phonect client` with the one and `phonect
  -- server` with the other both exit with status 0, where the socket is opened and closed, they are
  -- connected, the sockets take what is sent, and each gets the frame that the other sends, in whatever
  -- chunks.
  pub gen_keys_serve :
      (challenge_frame response_frame : Bytes) (server_conn client_conn : Conn)
      (to_client : Arrives challenge_frame) (to_server : Arrives response_frame)
      (later_client later_server : List Recv)
      → path_eq (of_text private_key) (of_text public_key) ≡ false
      → (cmd_gen_keys crypto drawn_key private_key public_key disk).0 ≡ ok tt
      → net.opening.creating ≡ ok tt
      → net.opening.binding "0.0.0.0" port ≡ ok bound_port
      → net.opening.listening ≡ ok tt
      → net.closing ≡ ok tt
      → net.connecting pc_ip pc_port ≡ ok tt
      → net.accepted ≡ ok (arriving server_conn to_server later_server)
      → net.conn ≡ arriving client_conn to_client later_client
      → IsBytes net.drawn.nonce
      → length net.drawn.nonce ≡ 32
      → server_conn.sends ≡ []
      → client_conn.sends ≡ []
      → Carries json challenge_sent challenge_frame
      → Carries json response_sent response_frame
      → (cmd_client crypto json str_fault net private_key pc_ip pc_port device_name client_timeout
            written
          ≡ (ok 0, written))
        × (cmd_server crypto json str_fault net public_key port timeout written ≡ (ok 0, written))
  unfolding cmd_client cmd_server serve close
  gen_keys_serve f1 f2 sc client a1 a2 rest1 rest2 differ made created bound listens closes
        connected accepted conn bytes size ready1 ready2 c1 c2 =
      let (private_there, public_there) = cmd_gen_keys-files differ made in
      let (client_done, server_done) =
        handshake_completes crypto L json str_fault server_of_pair net.drawn
          (client_of crypto drawn_key device_name client_timeout) (some biometric_prompt) net.salt
          f1 f2 sc client a1 a2 rest1 rest2 refl refl bytes size (approved _ _) ready1 ready2 c1
          c2 in
      (
        rw (private_there, L.load-private_pem drawn_key, connected, conn, client_done) refl,
        rw
            (
              public_there,
              L.load-public_pem (crypto.public_key drawn_key),
              start-run created bound listens,
              accepted,
              server_done,
              closes,
            )
            refl,
      )
