-- ===== src/Client/Setup.antt =====
-- app/client/client.go, `NewClient` and the settings file of a client.
use zhangyu.Base.{
  ◌≡◌, ap, ◌∙◌, Bool, true, false, List, [], ◌∷◌, ◌==◌, nat_eq, ◌&&◌, if◌then◌else◌, eq_iff, arith,
}
use zhangyu.Utils.Json.{num, str, Fields, end, field, set_string, set_number, fill}
use zhangyu.Utils.Settings.{Disk, IndentedText, Setting, save_json_setting, read_json_setting}
use zhangyu.Utils.Settings.Laws.{read_json_setting-save}
use zhangyu.Rpc.Records.Requests.{field_nonempty}
use zhangyu.Client.{
  Client, Act, invokes, writes, saves, exits, closes, opens_listener, dials, serves_socks, copies,
}

-- The fields that `omitempty` leaves out, and those that have no tag; `ConnectionId` is not written.
unfoldable pub marshal_client : Client → Fields
marshal_client c =
    let codes = field "TunnelId" (str c.tunnel_id) (field "AuthCode" (str c.auth_code) end) in
    let ids = field_nonempty "terminalId" c.terminal_id (field_nonempty "token" c.token codes) in
    field_nonempty "nodeAddr" c.node_addr (
      if nat_eq c.heart_beat_seconds 0
      then ids
      else field "heartBeatSeconds" (num c.heart_beat_seconds) ids)

unfoldable pub unmarshal_client : Fields → Client → Client × Bool
unmarshal_client fs c =
    let node_addr = fill set_string "nodeAddr" fs c.node_addr in
    let heart_beat_seconds = fill set_number "heartBeatSeconds" fs c.heart_beat_seconds in
    let terminal_id = fill set_string "terminalId" fs c.terminal_id in
    let token = fill set_string "token" fs c.token in
    let tunnel_id = fill set_string "TunnelId" fs c.tunnel_id in
    let auth_code = fill set_string "AuthCode" fs c.auth_code in
    (
      record c {
        node_addr = node_addr.0;
        heart_beat_seconds = heart_beat_seconds.0;
        terminal_id = terminal_id.0;
        token = token.0;
        tunnel_id = tunnel_id.0;
        auth_code = auth_code.0;
      },
      node_addr.1 && heart_beat_seconds.1 && terminal_id.1 && token.1 && tunnel_id.1 && auth_code.1,
    )

abbrev client_setting : Setting Client
client_setting = record { marshal = marshal_client; unmarshal = unmarshal_client }

abbrev zero_client : Client
zero_client = record {
  node_addr = "";
  heart_beat_seconds = 0;
  terminal_id = "";
  token = "";
  tunnel_id = "";
  auth_code = "";
  connection_id = "";
  listen_started = false;
}

-- The defaults of `NewClient`.
abbrev reset_client : Client → Client
reset_client c = record c { heart_beat_seconds = 10; node_addr = "zhangyu.io" }

-- A client as a later start finds it: the fields that were empty have their defaults.
unfoldable pub settled : Client → Client
settled c = record c {
  node_addr = if c.node_addr == "" then "zhangyu.io" else c.node_addr;
  heart_beat_seconds = if nat_eq c.heart_beat_seconds 0 then 10 else c.heart_beat_seconds;
  connection_id = "";
  listen_started = false;
}

client_trip :
    (c : Client) → (unmarshal_client (marshal_client c) (reset_client zero_client)).0 ≡ settled c
unfolding fill unmarshal_client marshal_client settled
client_trip c = ground (arith, eq_iff c.node_addr "", eq_iff c.terminal_id "", eq_iff c.token "")

module _ (text : IndentedText) (windows : Bool) where
  -- `NewClient`, up to `InitClient`.
  unfoldable pub new_client : Disk → Client × Disk
  new_client disk =
      read_json_setting text windows client_setting disk "client.json" zero_client reset_client

  -- The saves among what a client does.
  unfoldable pub run_saves : List Act → Disk → Disk
  run_saves [] disk = disk
  run_saves (saves c ∷ acts) disk =
      run_saves acts (save_json_setting text windows client_setting disk "client.json" c)
  run_saves (invokes request ∷ acts) disk = run_saves acts disk
  run_saves (writes request ∷ acts) disk = run_saves acts disk
  run_saves (exits ∷ acts) disk = run_saves acts disk
  run_saves (closes ∷ acts) disk = run_saves acts disk
  run_saves (opens_listener host listen ∷ acts) disk = run_saves acts disk
  run_saves (dials scheme host ∷ acts) disk = run_saves acts disk
  run_saves (serves_socks ∷ acts) disk = run_saves acts disk
  run_saves (copies ∷ acts) disk = run_saves acts disk

  pub new_client-save :
      (disk : Disk) (c : Client)
      → disk.writable ≡ true
      → new_client (save_json_setting text windows client_setting disk "client.json" c)
        ≡ (settled c, save_json_setting text windows client_setting disk "client.json" c)
  unfolding new_client
  new_client-save disk c w =
      read_json_setting-save text windows client_setting disk "client.json" c zero_client
        reset_client w
      ∙ ap (λ c'. (c', save_json_setting text windows client_setting disk "client.json" c))
          (client_trip c)
