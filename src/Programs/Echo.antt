-- ===== src/Programs/Echo.antt =====
-- The two programs in examples/ with each other.
use sockd.Common.{ℕ, suc, ◌≤◌, some, ◌≡◌, refl, ap, none, List, [], ◌∷◌, arith, length, map, All}
use sockd.Text.{Text, as_bytes}
use sockd.Outcome.{ok, pure, mapping_err}
use sockd.Config.{from_secs, from_millis, default_max_payload_len}
use sockd.Frame.{FrameKind, read_frame}
use sockd.Frame.Streams.{wire}
use sockd.Os.{Os}
use sockd.Daemon.{Daemon, Running}
use sockd.Daemon.Run.{run}
use sockd.Daemon.Connection.{process_connection}
use sockd.Daemon.Duplex.{IsDuplex}
use sockd.Client.Waiting.{request}
use sockd.Client.Conversation.{IsConversation}
use sockd.Client.Served.{send_request_once_served}
use sockd.Programs.{of_crate, to_ascii_uppercase, upper, Environment, socket_path, pid_path}
use sockd.Programs.EchoClient.{message, client_of}
use sockd.Programs.EchoDaemon.{idle_secs, daemon_of}
use sockd.Programs.EchoClient
use sockd.Programs.EchoDaemon
use sockd.Programs.Words.{IsWord, main_sends}

-- The daemon that the environment stands for.
abbrev pub daemon_for : {W : Type 0} → Environment → Daemon W (Unit {0})
daemon_for var = record {
  config = record {
    socket_path = socket_path var;
    pid_file = some (pid_path var);
    idle_timeout = from_secs (idle_secs var);
    poll_interval = from_millis 50;
    max_payload_len = default_max_payload_len;
  };
  on_start = pure tt;
  on_request = upper;
  on_stop = λ _. pure tt;
}

-- What the echo daemon runs: the environment decides on the socket, the PID file and the idle timeout.
main_serves :
    (os : Os) (fuel : ℕ) (var : Environment) (w : os.World)
    → EchoDaemon.main os fuel var w ≡ mapping_err of_crate (run os (daemon_for var) fuel) w
unfolding EchoDaemon.main daemon_of
main_serves os fuel var w = refl

length-map : {A B : Type 0} (f : A → B) (l : List A) → length (map f l) ≡ length l
length-map f [] = refl
length-map f (x ∷ l) = ap suc (length-map f l)

module _ (os : Os) (s : os.Stream) (input output : os.World → List ℕ) (peer : List ℕ → List ℕ)
    (talks : IsConversation os s input output peer) (remote : Os) (t : remote.Stream)
    (input' output' : remote.World → List ℕ) (duplex : IsDuplex remote t input' output')
    (var var' : Environment) (words : List Text) where
  abbrev bytes : List ℕ
  bytes = as_bytes (message words)

  -- The echo client is given words that are no options, and on its fresh connection the echo daemon
  -- is at the other end: its fresh stream has received just what the client sent, and what it writes
  -- is what the client reads. The text is within the payload limit of the crate. Then the client
  -- prints the text in ASCII upper case.
  pub main_echoes :
      (fuel : ℕ) (w w₁ : os.World) (r : Running remote.World (Unit {0}))
      → All IsWord words
      → os.connect (socket_path var) w ≡ (ok s, w₁)
      → output w₁ ≡ []
      → length bytes ≤ default_max_payload_len
      → input' r.world ≡ wire FrameKind.request 0 bytes
      → output' r.world ≡ []
      → peer (wire FrameKind.request 0 bytes)
        ≡ output' (process_connection remote (daemon_for var') t r).1.world
      → (EchoClient.main os fuel var words w).0
        ≡ ok (os.from_utf8_lossy (map to_ascii_uppercase bytes))
  unfolding request client_of upper
  main_echoes fuel w w₁ r plain connected fresh fits arrived unused joined =
      let same = length-map to_ascii_uppercase bytes in
      let once =
        send_request_once_served os s input output peer talks remote (daemon_for var') t input'
          output' duplex (client_of var none) bytes w w₁ r (ok (map to_ascii_uppercase bytes)) tt
          (read_frame (remote.reader t) default_max_payload_len r.world).1 connected fresh
          (omega arith) fits arrived unused joined (refl, refl) (omega arith) (omega arith)
          (λ e h. cc) in
      rw (main_sends os fuel var w words plain) (rw once refl)
