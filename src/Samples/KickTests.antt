-- ===== src/Samples/KickTests.antt =====
-- Two logins of one client at concrete inputs.
use zhangyu.Base.{ℕ, ◌≡◌, ◌∙◌, refl, none, some, [], ◌∷◌, eq_refl}
use zhangyu.Base.Dict
use zhangyu.Base.Text.{to_lower, trim_space}
use zhangyu.Utils.Cache
use zhangyu.Utils.Cache.{get_key}
use zhangyu.Utils.Cache.Access.{get-set_item}
use zhangyu.Utils.Cache.Runs.{Reach-IsValid, start}
use zhangyu.Etcd.Keys.{online_client_key}
use zhangyu.Etcd.Watch.{Event, put, watch_event}
use zhangyu.Rpc.Route.{InvokeRoute, new_invoke_route, path_key, get_uni_handler}
use zhangyu.Rpc.Route
use zhangyu.Node.Peers
use zhangyu.Node.Peers.{Peer}
use zhangyu.Node.Login.{on_invoker_client_login}
use zhangyu.Node.Login.Laws.{accepted}
use zhangyu.Node.Handlers.{BidiHandler}
use zhangyu.Client.Handlers.{ClientHandler, kick, init_client_handlers}
use zhangyu.System.Paths.{Kept}
use zhangyu.System.Kick.{after_login, kick_request, online_watcher, second_login_kicks}
use zhangyu.Samples.Ascii.{ascii, ascii_lower, lower_letter}
use zhangyu.Samples.Codec.{codec}
use zhangyu.Samples.Memory.{memory, Entries}
use zhangyu.Samples.NodeTests.{
  alice, alice_peer, one_client, alice_known, alice-Proves, login_request,
}

-- A client logs in over `i2`, which is on the route of its node, and then over `i1` at another node.
abbrev older_peer : Peer
older_peer = record alice_peer { invoker_id = "i2" }

abbrev empty_route : InvokeRoute ℕ ℕ Peer
empty_route = new_invoke_route

abbrev older_route : InvokeRoute ℕ ℕ Peer
older_route = record empty_route { invokes = Cache.set_item ascii Cache.new_cache "i2" older_peer }

abbrev client_route : InvokeRoute ClientHandler BidiHandler Peer
client_route = new_invoke_route

older_found : Route.get_invoker ascii older_route "i2" ≡ some older_peer
unfolding Route.get_invoker
older_found =
    get-set_item ascii Cache.new_cache (Reach-IsValid ascii start) "i2" older_peer "i2"
    ∙ rw (eq_refl (get_key ascii "i2"))

none_found : Route.get_invoker ascii empty_route "i2" ≡ none
unfolding Route.get_invoker Cache.get Cache.find Dict.lookup
none_found = refl

lower_put : to_lower ascii "PUT" ≡ "put"
unfolding to_lower ascii_lower lower_letter
lower_put = refl

kick_Kept : Kept ascii "/client/kick"
unfolding path_key to_lower trim_space ascii_lower lower_letter
kick_Kept = refl

target_out_Kept : Kept ascii "/transfer/target/out"
unfolding path_key to_lower trim_space ascii_lower lower_letter
target_out_Kept = refl

listen_add_Kept : Kept ascii "/transfer/listen/add"
unfolding path_key to_lower trim_space ascii_lower lower_letter
listen_add_Kept = refl

abbrev between_logins : Entries
between_logins = after_login memory codec ascii one_client "node" older_peer login_request 9

abbrev put_event : Event
put_event = record {
  event_type = put;
  key = online_client_key "alice";
  value = "";
  prev_value = memory.get between_logins (online_client_key "alice");
}

second_login_kicks_example :
    (on_invoker_client_login memory codec between_logins "node2" alice_peer login_request 12
      ≡ accepted memory codec between_logins "node2" alice_peer login_request 12 alice)
    × (watch_event (online_watcher memory codec ascii older_route "r") put_event
        ≡ Peers.writes older_peer (kick_request memory codec ascii "r") ∷ [])
    × (watch_event (online_watcher memory codec ascii empty_route "r") put_event ≡ [])
    × (get_uni_handler ascii
          (init_client_handlers ascii client_route)
          (kick_request memory codec ascii "r").path
        ≡ some kick)
second_login_kicks_example =
    second_login_kicks memory codec ascii older_route empty_route client_route one_client "node"
      "node2" "r" older_peer alice_peer older_peer login_request login_request 9 12 alice put_event
      refl alice_known alice-Proves alice-Proves lower_put kick_Kept target_out_Kept listen_add_Kept
      refl refl older_found none_found
