-- ===== src/System/Join.antt =====
-- rpc/quic/cli/client.go, app/client/client.go, app/node/node.go: a new client takes the record that it
-- is sent, and logs in with it.
use zhangyu.Base.{ℕ, String, ◌≡◌, refl, ap, ◌∙◌, Option, some, [], ◌∷◌, eq_refl, Bool}
use zhangyu.Base.Text.{CaseTable}
use zhangyu.Utils.Json.{JsonText, get_json_value, get_json_string, get_json_value-get_json_string}
use zhangyu.Etcd.Server.{Server}
use zhangyu.Etcd.Store.{get_client_rec}
use zhangyu.Etcd.Register.Laws.{IsRegistered}
use zhangyu.Rpc.Models.{InvokeRequest, InvokeResponse}
use zhangyu.Rpc.Records.{ClientRec}
use zhangyu.Rpc.Records.Clients.{client_rec_struct, no_client_rec}
use zhangyu.Rpc.Records.Requests.{login_request_struct}
use zhangyu.Node.Peers.{Peer}
use zhangyu.Node.Login.{on_invoker_client_login}
use zhangyu.Node.Login.Laws.{accepted, Proves, login-known}
use zhangyu.Quic.Server.{client_new_request}
use zhangyu.Client.{Client, invokes, saves}
use zhangyu.Client.Login.{login_request, with_tunnel, login, set_client_rec, on_client_new}

module _ (srv : Server) (codec : JsonText) (u : CaseTable) where
  open srv use {State}

  -- A client with all that a record gives it.
  abbrev pub joined : Client → ClientRec → Client
  joined c rec = record c {
    terminal_id = rec.client_id;
    token = rec.token;
    tunnel_id = rec.tunnel_id;
    auth_code = rec.auth_code;
  }

  client_new-known :
      (uuid uuid' : String) (c : Client) (rec : ClientRec)
      (invoke : InvokeRequest → Option InvokeResponse)
      → on_client_new codec uuid' c (client_new_request codec u uuid rec) invoke
        ≡ login codec uuid' (set_client_rec codec c rec) invoke
  unfolding on_client_new
  client_new-known uuid uuid' c rec invoke =
      ap (λ (r : ClientRec × Bool). login codec uuid' (set_client_rec codec c r.0) invoke)
        (get_json_value-get_json_string codec rec)

  login-Proves :
      (s : State) (node_id uuid : String) (peer : Peer) (c : Client) (rec : ClientRec) (now : ℕ)
      → Proves srv codec s node_id peer
          (login_request codec uuid (set_client_rec codec c rec))
          now
          rec
  unfolding login_request set_client_rec
  login-Proves s node_id uuid peer c rec now =
      (_, get_json_value-get_json_string codec _, refl, refl)

  tunnel-known :
      (c : Client) (rec : ClientRec)
      → with_tunnel codec
          (set_client_rec codec c rec)
          (get_json_value codec no_client_rec (get_json_string codec rec))
        ≡ joined c rec
  unfolding set_client_rec
  tunnel-known c rec = rw (get_json_value-get_json_string codec rec)

  module _ (s before : State) (rec : ClientRec) (c : Client) (peer : Peer)
      (node_id uuid uuid' : String) (now : ℕ) where
    abbrev pub joining_request : InvokeRequest
    joining_request = login_request codec uuid' (set_client_rec codec c rec)

    -- A client that is sent the record of a registration and logs in with it, over an invoker of
    -- that record's identifier and on the store that the registration leaves, is accepted by the
    -- node, and saves itself with the record's identifier, token, tunnel and authorization code.
    pub new_client_joins :
        IsRegistered srv codec before rec s
        → peer.terminal_id ≡ rec.client_id
        → (on_invoker_client_login srv codec s node_id peer joining_request now
            ≡ accepted srv codec s node_id peer joining_request now rec)
          × (on_client_new codec uuid' c (client_new_request codec u uuid rec) (λ request.
                some (on_invoker_client_login srv codec s node_id peer request now).response)
              ≡ (joined c rec, invokes joining_request ∷ saves (joined c rec) ∷ []))
    unfolding login
    new_client_joins r e =
        (logs_in, client_new-known uuid uuid' c rec _ ∙ rw logs_in (rw (tunnel-known c rec)))
      where
        known : get_client_rec srv codec s peer.terminal_id ≡ some rec
        known = rw e (r.client_recs rec.client_id ∙ rw (eq_refl rec.client_id))

        logs_in :
            on_invoker_client_login srv codec s node_id peer joining_request now
            ≡ accepted srv codec s node_id peer joining_request now rec
        logs_in =
            login-known srv codec s node_id peer joining_request now rec known
              (login-Proves s node_id uuid' peer c rec now)
