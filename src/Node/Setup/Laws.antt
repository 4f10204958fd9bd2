-- ===== src/Node/Setup/Laws.antt =====
-- app/node/node.go, `NewNode`: what a node keeps from one start to the next.
use zhangyu.Base.{
  ℕ, String, ◌≡◌, refl, Bool, true, Option, none, some, arith, returns, Option-cases, inl, inr,
}
use zhangyu.Base.Dict
use zhangyu.Base.Dict.{insert_twice}
use zhangyu.Utils.Json.{JsonText, fill}
use zhangyu.Utils.Settings.{Disk, IndentedText, setting_text, save_json_setting, read_json_setting}
use zhangyu.Utils.Settings.Laws.{read_json_setting-save}
use zhangyu.Etcd.Server.{Server, keep_alive}
use zhangyu.Etcd.Keys.{node_key}
use zhangyu.Etcd.Store.{get_record, put_value_keep_alive}
use zhangyu.Etcd.Store.Laws.{get_record-put}
use zhangyu.Etcd.Directory.{OnlineNode, online_node_struct, register_node}
use zhangyu.Node.Setup.{
  NodeSetting, marshal_node, unmarshal_node, node_setting, zero_node, reset_node, default_ports,
  start_node, before_char, node_info, register_self, new_node,
}

node_trip : (n m : NodeSetting) → (unmarshal_node (marshal_node n) m).0 ≡ n
unfolding unmarshal_node marshal_node fill
node_trip n m = refl

default_ports_twice : (n : NodeSetting) → default_ports (default_ports n) ≡ default_ports n
unfolding default_ports
default_ports_twice n = ground arith

module _ (text : IndentedText) (windows : Bool) where
  save_twice :
      (disk : Disk) (n : NodeSetting)
      → disk.writable ≡ true
      → save_json_setting text windows node_setting
          (save_json_setting text windows node_setting disk "node.json" n)
          "node.json"
          n
        ≡ save_json_setting text windows node_setting disk "node.json" n
  unfolding save_json_setting
  save_twice disk n w =
      rw (w, insert_twice "node.json" (setting_text text windows node_setting n) disk.files) refl

  read-writable :
      (disk : Disk) (a : NodeSetting) (reset : NodeSetting → NodeSetting)
      → disk.writable ≡ true
      → (read_json_setting text windows node_setting disk "node.json" a reset).1.writable ≡ true
  unfolding read_json_setting save_json_setting
  read-writable disk a reset w = elim (Option-cases (Dict.lookup "node.json" disk.files)) [
    | inl absent ↦ rw (absent, read_json_setting, w, save_json_setting) refl
    | inr (content, found) ↦ rw (found, read_json_setting) w
  ]

  start_saved :
      (disk : Disk) (n : NodeSetting) (uuid : String)
      → disk.writable ≡ true
      → start_node text windows
          (save_json_setting text windows node_setting disk "node.json" (default_ports n))
          uuid
        ≡ (
          default_ports n,
          save_json_setting text windows node_setting disk "node.json" (default_ports n),
        )
  unfolding start_node
  start_saved disk n uuid w =
      rw
        (
          read_json_setting-save text windows node_setting disk "node.json" (default_ports n)
              zero_node (reset_node uuid) w,
          node_trip (default_ports n) (reset_node uuid zero_node),
          default_ports_twice n,
          save_twice disk (default_ports n) w,
        )
        refl

  -- A start on the file that a start has left gives the same settings, and leaves the file as it is.
  start_node_again :
      (disk : Disk) (uuid uuid' : String)
      → disk.writable ≡ true
      → start_node text windows (start_node text windows disk uuid).1 uuid'
        ≡ start_node text windows disk uuid
  unfolding start_node
  start_node_again disk uuid uuid' w =
      let read =
        read_json_setting text windows node_setting disk "node.json" zero_node (reset_node uuid) in
      start_saved read.1 read.0 uuid' (read-writable disk zero_node (reset_node uuid) w)

  -- A node without a settings file has no domain.
  pub start_node_first :
      (disk : Disk) (uuid : String)
      → Dict.lookup "node.json" disk.files ≡ none
      → (start_node text windows disk uuid).0 ≡ reset_node uuid zero_node
  unfolding start_node default_ports read_json_setting
  start_node_first disk uuid absent = rw (absent, read_json_setting) refl

  module _ (srv : Server) (codec : JsonText) where
    open srv use {State}

    -- The record under which a node is online.
    abbrev pub online_node : NodeSetting → String → String → ℕ → OnlineNode
    online_node n connection_id local_addr now = record {
      node_id = n.terminal_id;
      connection_id = connection_id;
      connection_time = now;
      server_addr = (node_info n connection_id local_addr).node_addr;
    }

    abbrev pub registered : State → NodeSetting → String → String → ℕ → State
    registered s n connection_id local_addr now =
        register_node srv codec s (node_info n connection_id local_addr) now

    registered-found :
        (s : State) (n : NodeSetting) (connection_id local_addr : String) (now : ℕ)
        → get_record srv codec
            (registered s n connection_id local_addr now)
            (node_key n.terminal_id)
          ≡ some (online_node n connection_id local_addr now)
    unfolding register_node put_value_keep_alive
    registered-found s n connection_id local_addr now =
        get_record-put srv codec s (node_key n.terminal_id)
          (online_node n connection_id local_addr now) (keep_alive 10)

    -- A node that has started with a settings file that can be written starts again with the same
    -- settings, its identifier among them, whatever identifier is drawn the second time, and leaves
    -- the file as it is. If the dial of its first endpoint succeeds, it registers, and the record
    -- under its identifier is that of its new connection.
    pub node_restarts :
        (dial : String → Option String) (disk : Disk) (s : State)
        (uuid uuid' connection_id local_addr : String) (now : ℕ)
        → disk.writable ≡ true
        → dial (before_char b',' (start_node text windows disk uuid).0.etcd_addr) ≡ some local_addr
        → (new_node srv codec text windows dial
              (start_node text windows disk uuid).1
              s
              uuid'
              connection_id
              now
            ≡ (
              (
                (start_node text windows disk uuid).0,
                returns (
                    registered s
                      (start_node text windows disk uuid).0
                      connection_id
                      local_addr
                      now),
              ),
              (start_node text windows disk uuid).1,
            ))
          × (get_record srv codec
                (registered s (start_node text windows disk uuid).0 connection_id local_addr now)
                (node_key (start_node text windows disk uuid).0.terminal_id)
              ≡ some
                  (online_node (start_node text windows disk uuid).0 connection_id local_addr now))
    unfolding new_node register_self
    node_restarts dial disk s uuid uuid' connection_id local_addr now w reached = (
      rw (start_node_again disk uuid uuid' w) (rw (reached, register_self) refl),
      registered-found s (start_node text windows disk uuid).0 connection_id local_addr now,
    )
