-- ===== src/Samples/PathTests.antt =====
-- Which handlers the requests of a connection reach, at concrete inputs.
use zhangyu.Base.{String, ◌≡◌, refl, Option, none, some, returns, All}
use zhangyu.Base.Text.{to_lower, trim_space}
use zhangyu.Etcd.Listens.{Url}
use zhangyu.Rpc.Models.{listen, target}
use zhangyu.Rpc.Records.Listens.{no_listen}
use zhangyu.Rpc.Route.{InvokeRoute, new_invoke_route, path_key, get_uni_handler}
use zhangyu.Node.Peers.{Peer}
use zhangyu.Node.Transfer.{target_out}
use zhangyu.Node.Handlers.{UniHandler, BidiHandler, listen_in, go, init_handlers, connection_in}
use zhangyu.Client.Handlers.{ClientHandler, dial_out, init_client_handlers}
use zhangyu.Client.Listens.{listen_in_request}
use zhangyu.Client.DialOut.{go_request}
use zhangyu.System.Paths.{Kept, paths, paths_served}
use zhangyu.Samples.Ascii.{ascii, ascii_lower, lower_letter}
use zhangyu.Samples.Codec.{codec}
use zhangyu.Samples.NodeTests.{alice_peer}

abbrev parse_none : String → Option Url
parse_none address = none

abbrev node_route : InvokeRoute UniHandler BidiHandler Peer
node_route = new_invoke_route

abbrev client_route : InvokeRoute ClientHandler BidiHandler Peer
client_route = new_invoke_route

paths-Kept : All (Kept ascii) (paths ascii)
unfolding path_key to_lower trim_space ascii_lower lower_letter
paths-Kept = (refl, (refl, (refl, (refl, tt))))

paths_served_example :
    (connection_in ascii
        (init_handlers ascii node_route)
        listen
        (some (listen_in_request codec parse_none "r" no_listen))
      ≡ returns (some listen_in))
    × (get_uni_handler ascii
          (init_client_handlers ascii client_route)
          (target_out alice_peer (listen_in_request codec parse_none "r" no_listen)).path
        ≡ some dial_out)
    × (connection_in ascii (init_handlers ascii node_route) target (
          some
            (go_request (target_out alice_peer (listen_in_request codec parse_none "r" no_listen))))
        ≡ returns (some go))
paths_served_example =
    paths_served ascii codec parse_none node_route client_route "r" no_listen alice_peer paths-Kept
