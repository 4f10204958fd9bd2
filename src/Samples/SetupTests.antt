-- ===== src/Samples/SetupTests.antt =====
-- utils/io.go, rpc, app/client/client.go: starts, invokers and logs at concrete inputs.
use zhangyu.Base.{
  ℕ, String, ◌≡◌, ◌≢◌, refl, true, false, none, some, [], ◌∷◌, ◌++◌, concat, ne_of_eq_false, List,
}
use zhangyu.Rpc.Route
use zhangyu.Rpc.Route.{InvokeRoute, new_invoke_route}
use zhangyu.Utils.Cache.Runs.{Reach-IsValid, start}
use zhangyu.Utils.Logs.{LogDir, LogFileWriter, new_log_file_writer, log_name, log_all}
use zhangyu.Utils.Logs.Laws.{content, log_all-content}
use zhangyu.Utils.Settings.{Disk}
use zhangyu.Node.Peers.{Peer}
use zhangyu.Quic.Server.{Adapter, accepted_peer, upgrade_web_transport}
use zhangyu.Quic.Client.{default_invoker}
use zhangyu.Quic.Setup.{KeyPair, new_server}
use zhangyu.Quic.Setup.Laws.{new_server_again}
use zhangyu.Client.{Client}
use zhangyu.System.Connect.{command_peer}
use zhangyu.System.Reconnect.{coming, taken_in, reconnected, known_client_reconnects}
use zhangyu.Samples.Ascii.{ascii}
use zhangyu.Samples.Codec.{codec}

abbrev node_log : LogFileWriter
node_log = new_log_file_writer "node"

abbrev no_logs : LogDir
no_logs = record { made = false; files = [] }

abbrev messages : List (List ℕ)
messages = (104 ∷ 10 ∷ []) ∷ (105 ∷ 10 ∷ []) ∷ []

other_day : log_name node_log "2024-05-01" ≢ "node-2024-05-02.log"
unfolding log_name
other_day = ne_of_eq_false "node-2024-05-01.log" "node-2024-05-02.log" refl

log_all-content_example :
    (content (log_all node_log no_logs [] "2024-05-01" messages).0 (log_name node_log "2024-05-01")
      ≡ content no_logs (log_name node_log "2024-05-01") ++ concat messages)
    × ((log_all node_log no_logs [] "2024-05-01" messages).1 ≡ [] ++ concat messages)
    × (content (log_all node_log no_logs [] "2024-05-01" messages).0 "node-2024-05-02.log"
        ≡ content no_logs "node-2024-05-02.log")
log_all-content_example =
    log_all-content node_log no_logs [] "2024-05-01" "node-2024-05-02.log" messages other_day

abbrev blank_disk : Disk
blank_disk = record { files = []; writable = true }

abbrev pair : String → KeyPair
pair name = record { key_pem = name; cert_pem = name }

new_server_again_example :
    new_server {Uni = ℕ} {Bidi = ℕ} ascii
      (new_server {Uni = ℕ} {Bidi = ℕ} ascii blank_disk
        (pair "a")
        18888
        18888
        18889
        "/_zhangyu/transport"
        0).0.1
      (pair "b")
      18888
      18888
      18889
      "/_zhangyu/transport"
      0
    ≡ new_server ascii blank_disk (pair "a") 18888 18888 18889 "/_zhangyu/transport" 0
new_server_again_example =
    new_server_again ascii blank_disk (pair "a") (pair "b") 18888 18888 18889 "/_zhangyu/transport"
      0

abbrev alice_client : Client
alice_client = record {
  node_addr = "example.org";
  heart_beat_seconds = 20;
  terminal_id = "alice";
  token = "t1";
  tunnel_id = "10000001";
  auth_code = "c1";
  connection_id = "";
  listen_started = false;
}

abbrev idle_adapter : Adapter ℕ
idle_adapter = record {
  get_invoker = λ s id. none;
  on_new_client_rec = λ s. none;
  on_close_client = λ s peer. (s, []);
}

abbrev no_route : InvokeRoute ℕ ℕ Peer
no_route = new_invoke_route

known_client_reconnects_example :
    (upgrade_web_transport codec ascii "r" idle_adapter 0 no_route
        (coming codec ascii "r" idle_adapter 0 no_route alice_client "10.0.0.1:5" "i1")
      ≡ some (taken_in codec ascii "r" idle_adapter 0 no_route alice_client "10.0.0.1:5" "i1"))
    × ((reconnected codec ascii "r" idle_adapter 0 no_route alice_client "10.0.0.1:5" "i1"
          ℕ).terminal_id
        ≡ alice_client.terminal_id)
    × (default_invoker
          (reconnected codec ascii "r" idle_adapter 0 no_route alice_client "10.0.0.1:5" "i1" ℕ)
        ≡ some (command_peer codec ascii "r" "i1" alice_client.terminal_id))
    × (Route.get_invoker ascii
          (taken_in codec ascii "r" idle_adapter 0 no_route alice_client "10.0.0.1:5" "i1").route
          "i1"
        ≡ some (
            accepted_peer codec ascii "r"
              (coming codec ascii "r" idle_adapter 0 no_route alice_client "10.0.0.1:5" "i1")
              alice_client.terminal_id))
known_client_reconnects_example =
    known_client_reconnects codec ascii "r" idle_adapter 0 no_route alice_client "10.0.0.1:5" "i1" ℕ
      (ne_of_eq_false "alice" "" refl) (Reach-IsValid ascii start)
