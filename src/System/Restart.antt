-- ===== src/System/Restart.antt =====
-- app/client/client.go, app/node/node.go: a client that has joined starts again from its settings file.
use zhangyu.Base.{ℕ, String, ◌≡◌, refl, ap, ◌∙◌, some, List, Bool, true, eq_refl}
use zhangyu.Base.Text.{CaseTable}
use zhangyu.Utils.Json.{JsonText, get_json_value-get_json_string}
use zhangyu.Utils.Settings.{Disk, IndentedText}
use zhangyu.Etcd.Server.{Server}
use zhangyu.Etcd.Runs.{Steps}
use zhangyu.Etcd.Runs.Clients.{client-stays}
use zhangyu.Etcd.Store.{get_client_rec}
use zhangyu.Etcd.Register.Laws.{IsRegistered, tunnel_of}
use zhangyu.Rpc.Records.{ClientRec}
use zhangyu.Rpc.Records.Requests.{login_request_struct}
use zhangyu.Node.Peers.{Peer}
use zhangyu.Node.Login.{on_invoker_client_login}
use zhangyu.Node.Login.Laws.{accepted, Proves, login-known}
use zhangyu.Quic.Server.{client_new_request}
use zhangyu.Client.{Client, Act}
use zhangyu.Client.Login.{login_request, on_client_new}
use zhangyu.Client.Setup.{new_client, run_saves, settled, new_client-save}
use zhangyu.System.Join.{joined, new_client_joins}

module _ (srv : Server) (codec : JsonText) (text : IndentedText) (windows : Bool)
    (u : CaseTable) where
  open srv use {State}

  module _ (s : State) (rec : ClientRec) (c : Client) (peer : Peer) (node_id uuid uuid' : String)
      (now : ℕ) where
    -- The settings file after a new client was sent its record and has logged in at the node.
    abbrev pub joined_disk : Disk → Disk
    joined_disk disk =
        run_saves text windows
          (on_client_new codec uuid' c (client_new_request codec u uuid rec) (λ request.
            some (on_invoker_client_login srv codec s node_id peer request now).response)).1
          disk

    restarted :
        (before : State) (disk : Disk)
        → IsRegistered srv codec before rec s
        → peer.terminal_id ≡ rec.client_id
        → disk.writable ≡ true
        → (new_client text windows (joined_disk disk)).0 ≡ settled (joined srv codec u c rec)
    unfolding run_saves
    restarted before disk r e w =
        ap
          (λ (o : Client × List Act). (new_client text windows (run_saves text windows o.1 disk)).0)
          (new_client_joins srv codec u s before rec c peer node_id uuid uuid' now r e).1
        ∙ ap (λ (o : Client × Disk). o.0)
            (new_client-save text windows disk (joined srv codec u c rec) w)

    settled-Proves :
        (s' : State) (node_id' uuid'' : String) (peer' : Peer) (now' : ℕ)
        → Proves srv codec s' node_id' peer'
            (login_request codec uuid'' (settled (joined srv codec u c rec)))
            now'
            rec
    unfolding login_request settled
    settled-Proves s' node_id' uuid'' peer' now' =
        (_, get_json_value-get_json_string codec _, refl, refl)

    known_later :
        (before s' : State)
        → IsRegistered srv codec before rec s
        → Steps srv codec s s'
        → get_client_rec srv codec s' rec.client_id ≡ some rec
    known_later before s' r run =
        (client-stays srv codec s s' rec.client_id rec.tunnel_id rec (tunnel_of rec) run
          (r.client_recs rec.client_id ∙ rw (eq_refl rec.client_id) refl)
          (r.tunnels rec.tunnel_id ∙ rw (eq_refl rec.tunnel_id) refl)).0

    -- A client that was sent the record of a registration and has logged in with it, over an
    -- invoker of the record's identifier and with a settings file that can be written, starts again
    -- with all that it has saved, the defaults in place of an empty address and heartbeat; and
    -- after any run of the store since the registration, a node that is asked over an invoker of
    -- this client accepts the login that it makes then.
    pub joined_client_restarts :
        (before : State) (disk : Disk) (s' : State) (node_id' uuid'' : String) (peer' : Peer)
        (now' : ℕ)
        → IsRegistered srv codec before rec s
        → peer.terminal_id ≡ rec.client_id
        → disk.writable ≡ true
        → Steps srv codec s s'
        → peer'.terminal_id ≡ rec.client_id
        → ((new_client text windows (joined_disk disk)).0 ≡ settled (joined srv codec u c rec))
          × (on_invoker_client_login srv codec s' node_id' peer'
                (login_request codec uuid'' (new_client text windows (joined_disk disk)).0)
                now'
              ≡ accepted srv codec s' node_id' peer'
                  (login_request codec uuid'' (settled (joined srv codec u c rec)))
                  now'
                  rec)
    joined_client_restarts before disk s' node_id' uuid'' peer' now' r e w run named = (
      restarted before disk r e w,
      ap
            (λ c'.
              on_invoker_client_login srv codec s' node_id' peer' (login_request codec uuid'' c')
                now')
            (restarted before disk r e w)
          ∙ login-known srv codec s' node_id' peer'
              (login_request codec uuid'' (settled (joined srv codec u c rec))) now' rec
              (rw named (known_later before s' r run))
              (settled-Proves s' node_id' uuid'' peer' now'),
    )
