-- ===== src/Node/Peers/Laws.antt =====
-- app/node/node.go: theorems about `OnCloseClient`.
use zhangyu.Base.{
  Bool-cases, inl, inr, eq-image, String, ◌≡◌, refl, ap, ◌∙◌, true, none, some, ◌==◌, if◌then◌else◌,
  Option,
}
use zhangyu.Base.Text.{CaseTable}
use zhangyu.Utils.Json.{JsonText}
use zhangyu.Etcd.Server.{Server}
use zhangyu.Etcd.Keys.{online_client_key, online_client_key_inj}
use zhangyu.Etcd.Store.{get_online_client, delete_online_client, get_record}
use zhangyu.Etcd.Store.Laws.{get_record-same}
use zhangyu.Rpc.Records.{OnlineClient}
use zhangyu.Rpc.Records.Clients.{online_client_struct}
use zhangyu.Node.Peers.{Peer, Node, close_transport, close_online, on_close_client}

module _ (srv : Server) (codec : JsonText) (u : CaseTable) where
  open srv use {State, get, delete, get-delete}

  deleted-value :
      (s : State) (terminal_id id : String)
      → get (delete s (online_client_key terminal_id)) (online_client_key id)
        ≡ (if terminal_id == id then none else get s (online_client_key id))
  deleted-value s terminal_id id =
      get-delete s (online_client_key terminal_id) (online_client_key id)
      ∙ ap (λ b. if b then none else get s (online_client_key id))
          (eq-image online_client_key online_client_key_inj terminal_id id)

  record-absent :
      (s : State) (key : String)
      → get s key ≡ none
      → get_record srv codec {A = OnlineClient} s key ≡ none
  unfolding get_record
  record-absent s key e = rw (e, get_record)

  online-delete :
      (s : State) (terminal_id id : String)
      → get_online_client srv codec (delete_online_client srv codec s terminal_id) id
        ≡ (if terminal_id == id then none else get_online_client srv codec s id)
  unfolding get_online_client delete_online_client
  online-delete s terminal_id id = elim (Bool-cases (terminal_id == id)) [
    | inl same ↦
        rw same (record-absent _ (online_client_key id) (deleted-value s terminal_id id ∙ rw same))
    | inr differ ↦ rw differ (
        get_record-same srv codec _ s (online_client_key id)
          (deleted-value s terminal_id id ∙ rw differ))
  ]

  close_online-at :
      (s : State) (peer : Peer) (online : OnlineClient)
      → get_online_client srv codec s peer.terminal_id ≡ some online
      → close_online srv codec u s peer ≡ (
          if online.invoker_id == peer.invoker_id
          then delete_online_client srv codec s peer.terminal_id
          else s)
  unfolding close_online
  close_online-at s peer online e = rw (e, close_online)

  close_transport-etcd :
      (n : Node srv) (key : Option String) → (close_transport srv codec u n key).0.etcd ≡ n.etcd
  unfolding close_transport
  close_transport-etcd n none = refl
  close_transport-etcd n (some key) = refl

  -- When the invoker of a command tunnel closes and its terminal has an online record, that record
  -- goes if it names this invoker, and stays if it names another; the online record of no other
  -- terminal changes.
  pub on_close_client-online :
      (n : Node srv) (peer : Peer) (online : OnlineClient) (id : String)
      → peer.is_command_tunnel ≡ true
      → get_online_client srv codec n.etcd peer.terminal_id ≡ some online
      → get_online_client srv codec (on_close_client srv codec u n peer).0.etcd id ≡ (
          if online.invoker_id == peer.invoker_id
          then (if peer.terminal_id == id then none else get_online_client srv codec n.etcd id)
          else get_online_client srv codec n.etcd id)
  unfolding on_close_client
  on_close_client-online n peer online id command e =
      rw (command, close_transport-etcd n peer.http_trans_key, close_online-at n.etcd peer online e)
        (elim (Bool-cases (online.invoker_id == peer.invoker_id)) [
          | inl same ↦ rw same (online-delete n.etcd peer.terminal_id id)
          | inr other ↦ rw other
        ])
