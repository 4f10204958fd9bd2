-- ===== src/Node/Setup.antt =====
-- app/node/node.go, `NewNode`: the settings of a node, its defaults, and the record that it registers.
pub mod Laws
use Prim.Native.Char.{Char, code}
use zhangyu.Base.{
  ℕ, String, ◌≡◌, Bool, Option, none, some, List, [], ◌∷◌, ◌&&◌, nat_eq, if◌then◌else◌, Run,
  returns, panics,
}
use zhangyu.Base.Strings.{join, decimal}
use zhangyu.Utils.Json.{Json, num, str, Fields, end, field, set_string, set_number, fill, JsonText}
use zhangyu.Utils.Settings.{Disk, IndentedText, Setting, save_json_setting, read_json_setting}
use zhangyu.Etcd.Server.{Server}
use zhangyu.Etcd.Directory.{NodeInfo, register_node}

-- The fields of `Node` that its settings file holds.
pub record NodeSetting : Type 0 where
  pub terminal_id : String
  pub http_port : ℕ
  pub quic_port : ℕ
  pub https_port : ℕ
  pub etcd_addr : String
  pub domain : String
  client_time_out : ℕ

unfoldable pub marshal_node : NodeSetting → Fields
marshal_node n = field "TerminalId" (str n.terminal_id) (
    field "HttpPort" (num n.http_port) (
      field "QuicPort" (num n.quic_port) (
        field "HttpsPort" (num n.https_port) (
          field "EtcdAddr" (str n.etcd_addr)
            (field "Domain" (str n.domain) (field "ClientTimeOut" (num n.client_time_out) end))))))

unfoldable pub unmarshal_node : Fields → NodeSetting → NodeSetting × Bool
unmarshal_node fs n =
    let terminal_id = fill set_string "TerminalId" fs n.terminal_id in
    let http_port = fill set_number "HttpPort" fs n.http_port in
    let quic_port = fill set_number "QuicPort" fs n.quic_port in
    let https_port = fill set_number "HttpsPort" fs n.https_port in
    let etcd_addr = fill set_string "EtcdAddr" fs n.etcd_addr in
    let domain = fill set_string "Domain" fs n.domain in
    let client_time_out = fill set_number "ClientTimeOut" fs n.client_time_out in
    (
      record {
        terminal_id = terminal_id.0;
        http_port = http_port.0;
        quic_port = quic_port.0;
        https_port = https_port.0;
        etcd_addr = etcd_addr.0;
        domain = domain.0;
        client_time_out = client_time_out.0;
      },
      terminal_id.1 && http_port.1 && quic_port.1 && https_port.1 && etcd_addr.1 && domain.1
          && client_time_out.1,
    )

abbrev pub node_setting : Setting NodeSetting
node_setting = record { marshal = marshal_node; unmarshal = unmarshal_node }

abbrev pub zero_node : NodeSetting
zero_node = record {
  terminal_id = "";
  http_port = 0;
  quic_port = 0;
  https_port = 0;
  etcd_addr = "";
  domain = "";
  client_time_out = 0;
}

-- The reset of `NewNode`, with a new identifier.
abbrev pub reset_node : String → NodeSetting → NodeSetting
reset_node uuid n = record n {
  quic_port = 18888;
  http_port = 18888;
  https_port = 18889;
  etcd_addr = "127.0.0.1:2379";
  terminal_id = uuid;
}

-- The ports that are still 0 get their defaults.
unfoldable pub default_ports : NodeSetting → NodeSetting
default_ports n = record n {
  quic_port = if nat_eq n.quic_port 0 then 18888 else n.quic_port;
  http_port = if nat_eq n.http_port 0 then 18888 else n.http_port;
  https_port = if nat_eq n.https_port 0 then 18889 else n.https_port;
}

-- `NewNode`, from the read of the settings to their save.
unfoldable pub start_node : IndentedText → Bool → Disk → String → NodeSetting × Disk
start_node text windows disk uuid =
    let read =
      read_json_setting text windows node_setting disk "node.json" zero_node (reset_node uuid) in
    let n = default_ports read.0 in
    (n, save_json_setting text windows node_setting read.1 "node.json" n)

-- The text before the first separator, `strings.Split(s, sep)[0]`.
unfoldable pub before_char : ℕ → String → String
before_char sep String.[] = String.[]
before_char sep (String.◌∷◌ c s) =
    let rest = before_char sep s in if nat_eq (code c) sep then String.[] else String.◌∷◌ c rest

-- The record that a node registers, with its own address on the connection to etcd.
abbrev pub node_info : NodeSetting → String → String → NodeInfo
node_info n connection_id local_addr = record {
  node_addr = join (before_char b':' local_addr) (join ":" (decimal n.quic_port));
  terminal_id = n.terminal_id;
  connection_id = connection_id;
}

module _ (srv : Server) (codec : JsonText) where
  open srv use {State}

  -- The end of `NewNode`: it registers, unless its dial of the first endpoint fails.
  unfoldable pub register_self :
      (String → Option String) → State → NodeSetting → String → ℕ → Run State
  register_self dial s n connection_id now = elim (dial (before_char b',' n.etcd_addr)) [
    | none ↦ panics
    | some local_addr ↦
        returns (register_node srv codec s (node_info n connection_id local_addr) now)
  ]

  -- `NewNode`, with its two new identifiers, what a dial finds as its own address, and the time: the
  -- settings, what becomes of the store, and the disk.
  unfoldable pub new_node :
      IndentedText
      → Bool
      → (String → Option String)
      → Disk
      → State
      → String
      → String
      → ℕ
      → (NodeSetting × Run State) × Disk
  new_node text windows dial disk s uuid connection_id now =
      let (n, disk') = start_node text windows disk uuid in
      ((n, register_self dial s n connection_id now), disk')
