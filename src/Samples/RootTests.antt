-- ===== src/Samples/RootTests.antt =====
-- app/node/node.go, `OnHttpRoot` at concrete inputs.
use zhangyu.Base.{String, Option, some, [], ◌∷◌}
use zhangyu.Etcd.Listens.{Url}
use zhangyu.Node.Peers.{HttpTransport, Node}
use zhangyu.Samples.Memory.{memory}
use zhangyu.Samples.NodeTests.{alice_peer, a_node}

abbrev target_url : Url
target_url = record { scheme = "http"; host = "127.0.0.1:80"; hostname = "127.0.0.1"; port = "80" }

abbrev parse_target : String → Option Url
parse_target address = some target_url

abbrev served : HttpTransport
served = record { key = "10000001|10.0.0.9:7"; invoker = some alice_peer }

abbrev serving_node : Node memory
serving_node = record a_node { made = served ∷ [] }
