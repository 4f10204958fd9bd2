-- ===== src/Rpc/InvokePath.antt =====
-- rpc/consts.go: the invoke paths.
use zhangyu.Base.{String}

abbrev pub transfer_go : String
transfer_go = "/transfer/go"

abbrev pub transfer_listen_in : String
transfer_listen_in = "/transfer/listen/in"

abbrev pub transfer_listen_add : String
transfer_listen_add = "/transfer/listen/add"

abbrev pub transfer_target_out : String
transfer_target_out = "/transfer/target/out"

abbrev pub client_kick : String
client_kick = "/client/kick"

abbrev pub client_set_id : String
client_set_id = "/client/connection/id"

abbrev pub client_new : String
client_new = "/client/record/new"

abbrev pub client_login : String
client_login = "/client/login"

abbrev pub client_heartbeat : String
client_heartbeat = "/client/heartbeat"

abbrev pub client_transfer_list : String
client_transfer_list = "/client/transfer/list"

abbrev transfer_listen_del : String
transfer_listen_del = "/transfer/listen/del"
