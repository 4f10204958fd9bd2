-- ===== src/Samples/QuicTests.antt =====
-- rpc/quic: connections at concrete inputs.
use zhangyu.Base.{ℕ, ◌≤◌, String, ◌≡◌, refl, none, some, [], ◌∷◌, true, ◌==◌, if◌then◌else◌, arith}
use zhangyu.Base.Dict
use zhangyu.Utils.Cache
use zhangyu.Utils.Cache.Runs.{Reach-IsValid, start}
use zhangyu.Etcd.Register.Laws.{IsRegistered}
use zhangyu.Etcd.Keys.{tunnel_key}
use zhangyu.Etcd.Register.{tunnel_id_of}
use zhangyu.Base.Strings.{decimal, decimal_onto}
use zhangyu.Rpc.Records.{ClientRec}
use zhangyu.Rpc.Route.{InvokeRoute, new_invoke_route}
use zhangyu.Rpc.Route
use zhangyu.Node.Peers.{Peer, Node}
use zhangyu.Node.Adapter.{node_adapter}
use zhangyu.Node.Adapter.Laws.{draws, upgrade_new_client}
use zhangyu.Quic.Server.{
  Adapter, Incoming, http_error, writes, type_of, set_id_request, client_new_request, accepted_peer,
  handed_on, upgrade_web_transport, invalid_invoker_connect,
}
use zhangyu.Quic.Server.Laws.{IsFine, with_invoker, upgrade_unattached}
use zhangyu.Quic.Client.Keepalive.{
  Loops, Steps, here, next, passes, enters, reconnects, connecting, keepalive_single,
}
use zhangyu.Samples.Ascii.{ascii}
use zhangyu.Samples.Codec.{codec}
use zhangyu.Samples.Memory.{memory, Entries}

-- A connection of a type, without a terminal.
abbrev coming : String → Incoming
coming type_name = record {
  header = λ key. if key == "Zhangyu-Connection-Type" then type_name else "";
  remote_addr = "10.0.0.1:5";
  invoker_id = "i1";
  upgrade_error = none;
  stream_error = none;
  set_id_error = none;
  client_new_error = none;
}

abbrev coming-IsFine : (type_name : String) → IsFine (coming type_name)
coming-IsFine type_name = record {
  upgraded = refl;
  opened = refl;
  set_id = refl;
  client_new = refl;
}

abbrev no_route : InvokeRoute ℕ ℕ Peer
no_route = new_invoke_route

abbrev empty_node : Node memory
empty_node = record { etcd = []; transports = Cache.new_cache; made = [] }

upgrade_new_client_example :
    (rec : ClientRec) × (s : Entries) × IsRegistered memory codec [] rec s
    × (upgrade_web_transport codec ascii "r"
          (node_adapter memory codec ascii no_route (
            draws memory codec ascii "r" no_route empty_node
              (coming "Command")
              "u"
              "t"
              "c"
              (5 ∷ [])
              []
              20000000
              9))
          empty_node
          no_route
          (coming "Command")
        ≡ some (record {
          state = record empty_node { etcd = s };
          route = with_invoker codec ascii "r" no_route (coming "Command") rec.client_id;
          acts =
              writes (set_id_request codec ascii "r" "i1" rec.client_id)
              ∷ writes (client_new_request codec ascii "r" rec)
              ∷ handed_on codec ascii "r"
                  (type_of (coming "Command"))
                  (accepted_peer codec ascii "r" (coming "Command") rec.client_id)
              ∷ [];
        }))
    × (Route.get_invoker ascii
          (with_invoker codec ascii "r" no_route (coming "Command") rec.client_id)
          "i1"
        ≡ some (accepted_peer codec ascii "r" (coming "Command") rec.client_id))
unfolding tunnel_key Dict.lookup tunnel_id_of decimal decimal_onto
upgrade_new_client_example =
    upgrade_new_client memory codec ascii "r" no_route empty_node (coming "Command") "u" "t" "c"
      (5 ∷ []) [] 20000000 9 refl refl (coming-IsFine "Command") (Reach-IsValid ascii start)
      (omega arith, tt) (omega arith) refl

-- A server behind which there is nothing.
abbrev bare : Adapter ℕ
bare = record {
  get_invoker = λ s terminal_id. none;
  on_new_client_rec = λ s. none;
  on_close_client = λ s peer. (s, []);
}

upgrade_unattached_example :
    (upgrade_web_transport codec ascii "r" bare 0 no_route (coming "Instance_Listen")
      ≡ some (record {
        state = 0;
        route = with_invoker codec ascii "r" no_route (coming "Instance_Listen") "";
        acts =
            http_error invalid_invoker_connect
            ∷ writes (set_id_request codec ascii "r" "i1" "")
            ∷ handed_on codec ascii "r"
                (type_of (coming "Instance_Listen"))
                (accepted_peer codec ascii "r" (coming "Instance_Listen") "")
            ∷ [];
      }))
    × (Route.get_invoker ascii
          (with_invoker codec ascii "r" no_route (coming "Instance_Listen") "")
          "i1"
        ≡ some (accepted_peer codec ascii "r" (coming "Instance_Listen") ""))
upgrade_unattached_example =
    upgrade_unattached codec ascii "r" bare 0 no_route (coming "Instance_Listen") refl refl
      (coming-IsFine "Instance_Listen") (Reach-IsValid ascii start)

-- The loop runs, and has started another goroutine.
abbrev reconnecting : Loops
reconnecting = record { keepalive_run = true; pending = 1; passed = 0; looping = 1; heartbeats = 1 }

reconnecting_run : Steps connecting reconnecting
reconnecting_run = next (next (next here (passes 0 refl refl)) (enters 0 refl)) (reconnects 0 refl)

keepalive_single_example : (reconnecting.looping ≤ 1) × (reconnecting.heartbeats ≤ 1)
keepalive_single_example = keepalive_single reconnecting_run
