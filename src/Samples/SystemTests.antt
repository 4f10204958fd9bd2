-- ===== src/Samples/SystemTests.antt =====
-- Clients and nodes together, at concrete inputs.
use zhangyu.Base.{ℕ, ◌≡◌, refl, none, some, [], ◌∷◌, arith, true, false}
use zhangyu.Base.Dict
use zhangyu.Utils.Settings.{Disk}
use zhangyu.Etcd.Runs
use zhangyu.Etcd.Runs.{Steps}
use zhangyu.Etcd.Store.{delete_online_client}
use zhangyu.Client.Setup
use zhangyu.Client.Setup.{settled}
use zhangyu.System.Restart.{joined_disk, joined_client_restarts}
use zhangyu.Samples.Lines.{lines}
use zhangyu.Base.Strings.{decimal, decimal_onto}
use zhangyu.Etcd.Keys.{tunnel_key}
use zhangyu.Etcd.Register.{generate_new_client, tunnel_id_of}
use zhangyu.Etcd.Register.Laws.{IsRegistered, generate_new_client-IsRegistered}
use zhangyu.Rpc.Records.{ClientRec, ListenRequest}
use zhangyu.Rpc.Records.Clients.{online_client_struct}
use zhangyu.Rpc.Route.{InvokeRoute, new_invoke_route}
use zhangyu.Node.Peers.{Peer}
use zhangyu.Node.Login.{on_invoker_client_login}
use zhangyu.Node.Login.Laws.{accepted}
use zhangyu.Quic.Server.{Incoming, client_new_request}
use zhangyu.Client.{Client, invokes, saves}
use zhangyu.Client.Login.{login_request, on_client_new}
use zhangyu.System.Join.{joined, joining_request, new_client_joins}
use zhangyu.Samples.Ascii.{ascii}
use zhangyu.Samples.Codec.{codec}
use zhangyu.Samples.Memory.{memory, Entries}

-- A registration in an empty store.
registered :
    (rec : ClientRec) × (s : Entries) × (generate_new_client memory codec [] "u" "t" "c"
        (20000000 ∷ [])
        9
      ≡ some (rec, s))
    × (rec.client_id ≡ "u")
    × (rec.token ≡ "t")
    × (rec.auth_code ≡ "c")
    × IsRegistered memory codec [] rec s
unfolding tunnel_key Dict.lookup tunnel_id_of decimal decimal_onto
registered =
    generate_new_client-IsRegistered memory codec [] "u" "t" "c" [] [] 20000000 9 tt (omega arith)
      refl

abbrev new_rec : ClientRec
new_rec = registered.0

abbrev new_store : Entries
new_store = registered.1

abbrev first_peer : Peer
first_peer = record {
  terminal_id = new_rec.client_id;
  invoker_id = "i1";
  remote_addr = "10.0.0.1:5";
  client_ip = "10.0.0.1";
  is_command_tunnel = true;
  http_trans_key = none;
}

abbrev new_client : Client
new_client = record {
  node_addr = "example.org";
  heart_beat_seconds = 20;
  terminal_id = "";
  token = "";
  tunnel_id = "";
  auth_code = "";
  connection_id = "i1";
  listen_started = false;
}

new_client_joins_example :
    (on_invoker_client_login memory codec new_store "node" first_peer
        (joining_request memory codec ascii new_store [] new_rec new_client first_peer "node" "r1"
          "r2" 10)
        10
      ≡ accepted memory codec new_store "node" first_peer
          (joining_request memory codec ascii new_store [] new_rec new_client first_peer "node" "r1"
            "r2" 10)
          10
          new_rec)
    × (on_client_new codec "r2" new_client (client_new_request codec ascii "r1" new_rec) (λ request.
          some
            (on_invoker_client_login memory codec new_store "node" first_peer request 10).response)
        ≡ (
          joined memory codec ascii new_client new_rec,
          invokes (
                joining_request memory codec ascii new_store [] new_rec new_client first_peer "node"
                  "r1" "r2" 10)
              ∷ saves (joined memory codec ascii new_client new_rec)
              ∷ [],
        ))
new_client_joins_example =
    new_client_joins memory codec ascii new_store [] new_rec new_client first_peer "node" "r1" "r2"
      10 registered.6 refl

abbrev no_route : InvokeRoute ℕ ℕ Peer
no_route = new_invoke_route

abbrev coming : Incoming
coming = record {
  header = λ key. "";
  remote_addr = "10.0.0.1:5";
  invoker_id = "i1";
  upgrade_error = none;
  stream_error = none;
  set_id_error = none;
  client_new_error = none;
}

abbrev a_request : ListenRequest
a_request = record {
  listen_client_id = "";
  target_tunnel_id = "10000001";
  target_auth_code = "c1";
  listen_addr = "tcp://:90";
  target_addr = "tcp://127.0.0.1:22";
}

abbrev empty_disk : Disk
empty_disk = record { files = []; writable = true }

abbrev restart_disk : Disk
restart_disk =
    joined_disk memory codec lines true ascii new_store new_rec new_client first_peer "node" "r1"
      "r2" 10 empty_disk

-- Another client goes online and offline in between.
abbrev later_store : Entries
later_store = delete_online_client memory codec new_store "bob"

later_run : Steps memory codec new_store later_store
later_run = Runs.next Runs.here (Runs.goes_offline "bob")

joined_client_restarts_example :
    ((Setup.new_client lines true restart_disk).0
      ≡ settled (joined memory codec ascii new_client new_rec))
    × (on_invoker_client_login memory codec later_store "node" first_peer
          (login_request codec "r3" (Setup.new_client lines true restart_disk).0)
          30
        ≡ accepted memory codec later_store "node" first_peer
            (login_request codec "r3" (settled (joined memory codec ascii new_client new_rec)))
            30
            new_rec)
joined_client_restarts_example =
    joined_client_restarts memory codec lines true ascii new_store new_rec new_client first_peer
      "node" "r1" "r2" 10 [] empty_disk later_store "node" "r3" first_peer 30 registered.6 refl refl
      later_run refl
