-- ===== src/Quic/Setup.antt =====
-- rpc/quic/srv/server.go, `NewServer` and the methods of `Server` around its route.
pub mod Laws
use zhangyu.Base.{
  ℕ, String, ◌≡◌, refl, ap, ◌∙◌, sym, Bool, true, false, Option, none, some, List, [], ◌∷◌, ◌||◌,
  ◌&&◌, not, if◌then◌else◌, Option-cases, Bool-cases, inl, inr,
}
use zhangyu.Base.Dict
use zhangyu.Base.Strings.{has_prefix}
use zhangyu.Base.Text.{CaseTable}
use zhangyu.Utils.Settings.{Disk, file_exists}
use zhangyu.Rpc.InvokePath.{client_heartbeat}
use zhangyu.Rpc.Route
use zhangyu.Rpc.Route.{InvokeRoute, new_invoke_route}
use zhangyu.Node.Peers.{Peer}
use zhangyu.Quic.Server.{lease_seconds}

-- `Server`, without its adapter and the servers behind it.
pub record Server (Uni Bidi : Type 0) : Type 0 where
  pub quic_port : ℕ
  pub http_port : ℕ
  pub quic_path : String
  pub lease_seconds : ℕ
  invoke_route : InvokeRoute Uni Bidi Peer

-- A key and its certificate as PEM, which the standard library makes.
pub record KeyPair : Type 0 where
  pub key_pem : String
  pub cert_pem : String

-- The goroutines that `NewServer` starts: a server for QUIC under a path, for HTTP, and for HTTPS with the
-- certificate in two files.
pub data Serves : Type 0 where
  quic : ℕ → String → Serves
  http : ℕ → Serves
  https : ℕ → String → String → Serves

-- `os.Create` and a write.
abbrev pub create : Disk → String → String → Disk
create disk name content =
    if disk.writable then record disk { files = Dict.insert name content disk.files } else disk

-- `generateTLSConfig`.
unfoldable pub generate_tls_config : Disk → KeyPair → Disk
generate_tls_config disk pair =
    create (create disk "node.key" pair.key_pem) "node.pem" pair.cert_pem

-- The certificate of `NewServer`: it is made if one of its files is missing.
unfoldable pub ensure_tls : Disk → KeyPair → Disk
ensure_tls disk pair =
    if not (file_exists disk "node.pem") || not (file_exists disk "node.key")
    then generate_tls_config disk pair
    else disk

-- `CheckOrigin`.
unfoldable check_origin : String → String → Bool
check_origin quic_path request_uri = has_prefix quic_path request_uri

module _ {Uni Bidi : Type 0} where
  -- `LeaseSeconds` and `SetLeaseSeconds`.
  unfoldable get_lease_seconds : Server Uni Bidi → ℕ × Server Uni Bidi
  get_lease_seconds s =
      (lease_seconds s.lease_seconds, record s { lease_seconds = lease_seconds s.lease_seconds })

  unfoldable pub set_lease_seconds : Server Uni Bidi → ℕ → Server Uni Bidi
  set_lease_seconds s n = record s { lease_seconds = n }

  module _ (u : CaseTable) where
    unfoldable pub add_rpc_handler : Server Uni Bidi → String → Bidi → Server Uni Bidi
    add_rpc_handler s path h = record s {
      invoke_route = Route.add_rpc_handler u s.invoke_route path h;
    }

    unfoldable pub add_uni_handler : Server Uni Bidi → String → Uni → Server Uni Bidi
    add_uni_handler s path h = record s {
      invoke_route = Route.add_uni_handler u s.invoke_route path h;
    }

    unfoldable pub remove_uni_handler : Server Uni Bidi → String → Server Uni Bidi
    remove_uni_handler s path = record s {
      invoke_route = Route.remove_uni_handler u s.invoke_route path;
    }

    unfoldable pub remove_rpc_handler : Server Uni Bidi → String → Server Uni Bidi
    remove_rpc_handler s path = record s {
      invoke_route = Route.remove_rpc_handler u s.invoke_route path;
    }

    -- `NewServer`, with a new key pair and the handler of the heartbeat.
    unfoldable pub new_server :
        Disk → KeyPair → ℕ → ℕ → ℕ → String → Uni → (Server Uni Bidi × Disk) × List Serves
    unfolding add_uni_handler get_lease_seconds ensure_tls
    new_server disk pair quic_port http_port https_port quic_path heartbeat =
        let made : Server Uni Bidi = record {
          quic_port = quic_port;
          http_port = http_port;
          quic_path = quic_path;
          lease_seconds = 0;
          invoke_route = new_invoke_route;
        } in
        let (seconds, s) = get_lease_seconds made in
        let leased = record s { invoke_route = Route.set_lease_seconds s.invoke_route seconds } in
        (
          (add_uni_handler leased client_heartbeat heartbeat, ensure_tls disk pair),
          quic quic_port quic_path ∷ http http_port ∷ https https_port "node.pem" "node.key" ∷ [],
        )
