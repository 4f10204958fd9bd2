-- ===== src/Samples/EtcdTests.antt =====
-- app/node/etcd/etcd.go: runs on a server in memory.
use zhangyu.Base.{String, ◌≡◌, refl, none, some, [], ◌∷◌, ◌++◌, ne_of_eq_false, arith, All, ◌≢◌}
use zhangyu.Base.Dict
use zhangyu.Base.Strings.{decimal, decimal_onto}
use zhangyu.Utils.Json.{get_json_string}
use zhangyu.Etcd.Keys.{tunnel_key, listen_key}
use zhangyu.Etcd.Register.{tunnel_id_of, generate_new_client}
use zhangyu.Etcd.Register.Laws.{IsRegistered, generate_new_client-IsRegistered}
use zhangyu.Etcd.Register.{domain_name_of, generate_domain_name}
use zhangyu.Etcd.Register.Domains.{IsNumbered, generate_domain_name_free}
use zhangyu.Etcd.Keys.{domain_name_key}
use zhangyu.Etcd.Server.{seconds}
use zhangyu.Etcd.Listens.Laws.{range-separates}
use zhangyu.Rpc.Records.{ClientRec, Listen}
use zhangyu.Rpc.Records.Clients.{tunnel_struct}
use zhangyu.Rpc.Records.Listens.{listen_struct}
use zhangyu.Samples.Codec.{codec}
use zhangyu.Samples.Memory.{memory, Entries}

-- A store in which the first draw is taken.
abbrev one_tunnel : Entries
one_tunnel = ("/zhangyu/client/tunnel/10000005", "") ∷ []

generate_new_client-IsRegistered_example :
    (rec : ClientRec) × (s' : Entries) × (generate_new_client memory codec one_tunnel "u" "t" "c"
        ((5 ∷ []) ++ 20000000 ∷ [])
        9
      ≡ some (rec, s'))
    × (rec.client_id ≡ "u")
    × (rec.token ≡ "t")
    × (rec.auth_code ≡ "c")
    × IsRegistered memory codec one_tunnel rec s'
unfolding tunnel_key Dict.lookup tunnel_id_of decimal decimal_onto
generate_new_client-IsRegistered_example =
    generate_new_client-IsRegistered memory codec one_tunnel "u" "t" "c" (5 ∷ []) [] 20000000 9
      (omega arith, tt) (omega arith) refl

abbrev a_listen : Listen
a_listen = record {
  listen_client_id = "u";
  listen_tunnel_id = "10000001";
  target_client_id = "v";
  target_tunnel_id = "10000002";
  listen_addr = "tcp://:90";
  target_addr = "tcp://:80";
  create_time = 4;
}

abbrev one_listen : Entries
one_listen = (listen_key "u" "tcp://:90", get_json_string codec a_listen) ∷ []

range-separates_example :
    All (λ e. e.0 ≢ listen_key "v" "x") (memory.range one_listen (listen_key "u" ""))
range-separates_example =
    range-separates memory codec one_listen "u" "v" "x" (ground arith) (ground arith)
      (ne_of_eq_false "u" "v" refl)

-- A store in which the first draw for a name is taken.
abbrev one_name : Entries
one_name = ("/zhangyu/domain/list/c100005.example.org", "") ∷ []

generate_domain_name_free_example :
    (name : String) × IsNumbered "example.org" name
    × (memory.get one_name (domain_name_key name) ≡ none)
    × (generate_domain_name memory codec "example.org" one_name ((5 ∷ []) ++ 200000 ∷ [])
        ≡ some (name, memory.put one_name (domain_name_key name) "" (seconds 5)))
unfolding domain_name_key domain_name_of Dict.lookup decimal decimal_onto
generate_domain_name_free_example =
    generate_domain_name_free memory codec "example.org" one_name (5 ∷ []) [] 200000
      (omega arith, tt) (omega arith) refl
