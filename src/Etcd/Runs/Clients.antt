-- ===== src/Etcd/Runs/Clients.antt =====
-- app/node/etcd/etcd.go: the records and tunnels of clients in the runs of the store.
use zhangyu.Base.{ℕ, String, ◌≡◌, ◌≢◌, refl, sym, ap, ◌∙◌, none, some, List, inl, inr, Option-cases}
use zhangyu.Utils.Json.{JsonText, Struct}
use zhangyu.Etcd.Server.{Server, forever}
use zhangyu.Etcd.Keys.{client_key, tunnel_key}
use zhangyu.Etcd.Store.{put_value, get_record, get_client_rec, get_tunnel}
use zhangyu.Etcd.Store.Laws.{get_record-same, get-put_self}
use zhangyu.Etcd.Register.{store_client, generate_new_client}
use zhangyu.Etcd.Runs.{Steps}
use zhangyu.Etcd.Runs.Keeps.{IsApart, client_key-IsApart, tunnel_key-IsApart, ne_of_absent}
use zhangyu.Etcd.Runs.Registered.{with_client, registration, Steps-keep}
use zhangyu.Rpc.Records.{ClientRec, Tunnel}
use zhangyu.Rpc.Records.Clients.{client_rec_struct, tunnel_struct}

module _ (srv : Server) (codec : JsonText) where
  open srv use {State, get, put}

  absent_record :
      {A : Type 0} ⦃struct : Struct A⦄ (s : State) (key : String)
      → get s key ≡ none
      → get_record srv codec {A = A} s key ≡ none
  unfolding get_record
  absent_record s key e = rw (e, get_record) refl

  record-stays :
      {A : Type 0} ⦃struct : Struct A⦄ (s s' : State) (key : String) (a : A)
      → IsApart key
      → Steps srv codec s s'
      → get_record srv codec s key ≡ some a
      → get_record srv codec s' key ≡ some a
  record-stays {A} s s' key a apart run found = elim (Option-cases (get s key)) [
    | inl absent ↦ absurd (let lost = absent_record {A = A} s key absent in cc (lost, found))
    | inr (text, held) ↦
        get_record-same srv codec s' s key (Steps-keep srv codec key text apart run held ∙ sym held)
        ∙ found
  ]

  -- In every run of the store, a step of which is an operation of some node as a whole or the end
  -- of an online record, and in which a new client's identifier has no record yet, the record of a
  -- client and the tunnel of an identifier stay as they are.
  pub client-stays :
      (s s' : State) (client_id tunnel_id : String) (rec : ClientRec) (tunnel : Tunnel)
      → Steps srv codec s s'
      → get_client_rec srv codec s client_id ≡ some rec
      → get_tunnel srv codec s tunnel_id ≡ some tunnel
      → (get_client_rec srv codec s' client_id ≡ some rec)
        × (get_tunnel srv codec s' tunnel_id ≡ some tunnel)
  unfolding get_client_rec get_tunnel
  client-stays s s' client_id tunnel_id rec tunnel run known open_tunnel = (
    record-stays s s' (client_key client_id) rec (client_key-IsApart client_id) run known,
    record-stays s s' (tunnel_key tunnel_id) tunnel (tunnel_key-IsApart tunnel_id) run open_tunnel,
  )

  tunnel_held :
      (s : State) (rec : ClientRec)
      → (text : String) × (get (with_client srv codec s rec) (tunnel_key rec.tunnel_id) ≡ some text)
  unfolding store_client put_value
  tunnel_held s rec = (_, get-put_self srv codec _ (tunnel_key rec.tunnel_id) _ forever)

  -- Two clients that are registered in a run of the store, the one before and the other after it,
  -- have different tunnels, whatever numbers are drawn.
  pub tunnels_differ :
      (s s' r r' : State) (rec rec' : ClientRec)
      (uuid uuid' token token' auth_code auth_code' : String) (draws draws' : List ℕ) (now now' : ℕ)
      → generate_new_client srv codec s uuid token auth_code draws now ≡ some (rec, s')
      → Steps srv codec s' r
      → generate_new_client srv codec r uuid' token' auth_code' draws' now' ≡ some (rec', r')
      → rec.tunnel_id ≢ rec'.tunnel_id
  tunnels_differ s s' r r' rec rec' uuid uuid' token token' auth_code auth_code' draws draws' now
        now' first run second same =
      let (_, _, left) = registration srv codec s s' rec uuid token auth_code draws now first in
      let (_, unused, _) =
        registration srv codec r r' rec' uuid' token' auth_code' draws' now' second in
      let (text, held) = tunnel_held s rec in
      let kept =
        Steps-keep srv codec (tunnel_key rec.tunnel_id) text (tunnel_key-IsApart rec.tunnel_id) run
          (rw left held) in
      ne_of_absent srv codec r (tunnel_key rec'.tunnel_id) (tunnel_key rec.tunnel_id) text unused
        kept (ap tunnel_key (sym same))
