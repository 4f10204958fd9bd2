-- ===== src/Etcd/Directory.antt =====
-- rpc/models.go, rpc/conn.go, app/node/etcd/etcd.go: the record of a node that is online, and the domains of
-- a client.
use zhangyu.Base.{
  ℕ, String, ◌≡◌, refl, Bool, true, false, Option, none, some, List, [], ◌∷◌, ◌&&◌, ◌==◌,
  if◌then◌else◌,
}
use zhangyu.Utils.Json.{
  Json, null, str, stamp, obj, Fields, end, field, Struct, JsonText, fill, set_string, set_time,
  get_json_value,
}
use zhangyu.Etcd.Server.{Server}
use zhangyu.Etcd.Keys.{node_key, domain_key}
use zhangyu.Etcd.Store.{put_value_keep_alive, get_record}
use zhangyu.Rpc.Records.{Listen}
use zhangyu.Rpc.Records.Listens.{listen_struct, marshal_listen, unmarshal_listen, no_listen}

-- `OnlineNode`, `NodeInfo` with the fields that are read, and `Domain`.
pub record OnlineNode : Type 0 where
  pub node_id : String
  pub connection_id : String
  pub connection_time : ℕ
  pub server_addr : String

pub record NodeInfo : Type 0 where
  pub node_addr : String
  pub terminal_id : String
  pub connection_id : String

pub record Domain : Type 0 where
  domain_name : String
  pub listen_key : String
  listen_info : Option Listen

abbrev no_online_node : OnlineNode
no_online_node = record { node_id = ""; connection_id = ""; connection_time = 0; server_addr = "" }

abbrev marshal_online_node : OnlineNode → Fields
marshal_online_node n = field "NodeId" (str n.node_id) (
    field "ConnectionId" (str n.connection_id) (
      field "ConnectionTime" (stamp n.connection_time)
        (field "ServerAddr" (str n.server_addr) end)))

abbrev unmarshal_online_node : Fields → OnlineNode → OnlineNode × Bool
unmarshal_online_node fs n =
    let node_id = fill set_string "NodeId" fs n.node_id in
    let connection_id = fill set_string "ConnectionId" fs n.connection_id in
    let connection_time = fill set_time "ConnectionTime" fs n.connection_time in
    let server_addr = fill set_string "ServerAddr" fs n.server_addr in
    (
      record {
        node_id = node_id.0;
        connection_id = connection_id.0;
        connection_time = connection_time.0;
        server_addr = server_addr.0;
      },
      node_id.1 && connection_id.1 && connection_time.1 && server_addr.1,
    )

pub online_node_trip :
    (n : OnlineNode) → unmarshal_online_node (marshal_online_node n) no_online_node ≡ (n, true)
unfolding fill
online_node_trip n = refl

instance abbrev pub online_node_struct : Struct OnlineNode
online_node_struct = record {
  zero_value = no_online_node;
  marshal = marshal_online_node;
  unmarshal = unmarshal_online_node;
  unmarshal-marshal = online_node_trip;
}

-- A pointer to a listen: `null` makes it nil, an object fills the listen behind it, or a new one.
abbrev set_listen : Json → Option Listen → Option Listen × Bool
set_listen (obj fs) none = let l = unmarshal_listen fs no_listen in (some l.0, l.1)
set_listen (obj fs) (some cur) = let l = unmarshal_listen fs cur in (some l.0, l.1)
set_listen null cur = (none, true)
set_listen _ cur = (cur, false)

abbrev no_domain : Domain
no_domain = record { domain_name = ""; listen_key = ""; listen_info = none }

abbrev listen_field : Option Listen → Fields
listen_field none = end
listen_field (some l) = field "listen_Info" (obj (marshal_listen l)) end

abbrev marshal_domain : Domain → Fields
marshal_domain d =
    field "DomainName" (str d.domain_name)
      (field "ListenKey" (str d.listen_key) (listen_field d.listen_info))

abbrev unmarshal_domain : Fields → Domain → Domain × Bool
unmarshal_domain fs d =
    let domain_name = fill set_string "DomainName" fs d.domain_name in
    let listen_key = fill set_string "ListenKey" fs d.listen_key in
    let listen_info = fill set_listen "listen_Info" fs d.listen_info in
    (
      record {
        domain_name = domain_name.0;
        listen_key = listen_key.0;
        listen_info = listen_info.0;
      },
      domain_name.1 && listen_key.1 && listen_info.1,
    )

domain_of_trip :
    (name key : String) (info : Option Listen)
    → unmarshal_domain
        (marshal_domain (record { domain_name = name; listen_key = key; listen_info = info }))
        no_domain
      ≡ (record { domain_name = name; listen_key = key; listen_info = info }, true)
unfolding fill
domain_of_trip name key none = refl
domain_of_trip name key (some l) = refl

pub domain_trip : (d : Domain) → unmarshal_domain (marshal_domain d) no_domain ≡ (d, true)
domain_trip d = domain_of_trip d.domain_name d.listen_key d.listen_info

instance abbrev pub domain_struct : Struct Domain
domain_struct = record {
  zero_value = no_domain;
  marshal = marshal_domain;
  unmarshal = unmarshal_domain;
  unmarshal-marshal = domain_trip;
}

module _ (srv : Server) (codec : JsonText) where
  open srv use {State, range}

  -- `RegisterNode`, on the store.
  unfoldable pub register_node : State → NodeInfo → ℕ → State
  register_node s info now =
      let online : OnlineNode = record {
        node_id = info.terminal_id;
        connection_id = info.connection_id;
        connection_time = now;
        server_addr = info.node_addr;
      } in
      put_value_keep_alive srv codec s (node_key info.terminal_id) online 10

  -- A domain with its listen, if there is one; etcd refuses the empty key.
  abbrev pub with_listen : State → Domain → Domain
  with_listen s d =
      let found : Option Listen =
        if d.listen_key == "" then none else get_record srv codec s d.listen_key in
      elim found [ none ↦ d | some listen ↦ record d { listen_info = some listen } ]

  unfoldable domains_of : State → List (String × String) → List Domain
  domains_of s [] = []
  domains_of s ((key, text) ∷ rest) =
      let (domain, fine) = get_json_value codec no_domain text in
      let more = domains_of s rest in if fine then with_listen s domain ∷ more else more

  -- `GetDomainList`.
  unfoldable pub get_domain_list : State → String → List Domain
  unfolding domains_of
  get_domain_list s client_id = domains_of s (range s (domain_key client_id ""))
