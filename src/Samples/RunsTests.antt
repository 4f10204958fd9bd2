-- ===== src/Samples/RunsTests.antt =====
-- app/node/etcd/etcd.go: runs of the store at concrete inputs.
use zhangyu.Base.{String, ◌≡◌, ◌≢◌, refl, ◌∙◌, some, none, [], ◌∷◌}
use zhangyu.Base.Dict
use zhangyu.Base.Strings.{decimal, decimal_onto}
use zhangyu.Etcd.Keys.{client_key, tunnel_key}
use zhangyu.Etcd.Store.{lock, put_value, get_client_rec, get_tunnel, delete_online_client}
use zhangyu.Etcd.Store.Laws.{get_record-put, get_record-same}
use zhangyu.Etcd.Server.{forever}
use zhangyu.Etcd.Register.{tunnel_id_of, generate_tunnel_id, generate_new_client, store_client}
use zhangyu.Etcd.Register.Laws.{tunnel_of}
use zhangyu.Etcd.Runs.{Steps, here, next, registers, goes_offline}
use zhangyu.Etcd.Runs.Registered.{with_client}
use zhangyu.Etcd.Runs.Clients.{client-stays, tunnels_differ}
use zhangyu.Rpc.Records.{ClientRec}
use zhangyu.Rpc.Records.Clients.{client_rec_struct, tunnel_struct}
use zhangyu.Samples.Codec.{codec}
use zhangyu.Samples.Memory.{memory, Entries}

abbrev client_of : String → String → ClientRec
client_of id tunnel = record {
  client_id = id;
  token = "t";
  tunnel_id = tunnel;
  auth_code = "c";
  create_time = 9;
}

abbrev first_client : ClientRec
first_client = client_of "u1" "20000000"

abbrev second_client : ClientRec
second_client = client_of "u2" "30000000"

abbrev first_store : Entries
first_store = with_client memory codec [] first_client

abbrev second_store : Entries
second_store = with_client memory codec first_store second_client

first_registered :
    generate_new_client memory codec [] "u1" "t" "c" (20000000 ∷ []) 9
    ≡ some (first_client, first_store)
unfolding generate_new_client generate_tunnel_id lock tunnel_id_of decimal decimal_onto tunnel_key
    Dict.lookup
first_registered = refl

-- The first draw of the second client is the tunnel of the first.
second_registered :
    generate_new_client memory codec first_store "u2" "t" "c" (20000000 ∷ 30000000 ∷ []) 9
    ≡ some (second_client, second_store)
unfolding generate_new_client generate_tunnel_id lock tunnel_id_of decimal decimal_onto tunnel_key
    client_key Dict.lookup Dict.insert store_client put_value
second_registered = refl

tunnels_differ_example : first_client.tunnel_id ≢ second_client.tunnel_id
tunnels_differ_example =
    tunnels_differ memory codec [] first_store first_store second_store first_client second_client
      "u1" "u2" "t" "t" "c" "c" (20000000 ∷ []) (20000000 ∷ 30000000 ∷ []) 9 9 first_registered here
      second_registered

u2_is_new : memory.get first_store (client_key "u2") ≡ none
unfolding tunnel_key client_key Dict.lookup Dict.insert store_client put_value
u2_is_new = refl

a_run : Steps memory codec first_store (delete_online_client memory codec second_store "u1")
a_run =
    next
      (next here (registers "u2" "t" "c" (20000000 ∷ 30000000 ∷ []) 9 u2_is_new second_registered))
      (goes_offline "u1")

abbrev one_record : Entries
one_record = put_value memory codec [] (client_key "u1") first_client

record_kept : memory.get first_store (client_key "u1") ≡ memory.get one_record (client_key "u1")
unfolding store_client put_value client_key tunnel_key Dict.lookup Dict.insert
record_kept = refl

record_found : get_client_rec memory codec first_store "u1" ≡ some first_client
unfolding get_client_rec put_value
record_found =
    get_record-same memory codec first_store one_record (client_key "u1") record_kept
    ∙ get_record-put memory codec [] (client_key "u1") first_client forever

tunnel_found : get_tunnel memory codec first_store "20000000" ≡ some (tunnel_of first_client)
unfolding get_tunnel store_client put_value
tunnel_found =
    get_record-put memory codec _ (tunnel_key "20000000") (tunnel_of first_client) forever

client-stays_example :
    (get_client_rec memory codec (delete_online_client memory codec second_store "u1") "u1"
      ≡ some first_client)
    × (get_tunnel memory codec (delete_online_client memory codec second_store "u1") "20000000"
        ≡ some (tunnel_of first_client))
client-stays_example =
    client-stays memory codec first_store (delete_online_client memory codec second_store "u1") "u1"
      "20000000" first_client (tunnel_of first_client) a_run record_found tunnel_found
