-- ===== src/Etcd/Keys.antt =====
-- app/node/etcd/keys.go: the keys, each a format filled by `fmt.Sprintf`.
use Prim.Native.Char.{Char}
use zhangyu.Base.{sym, ◌∙◌, String, ◌≡◌, ◌≢◌, ap, arith, ℕ, true}
use zhangyu.Base.Strings.{
  has_prefix-join, join, join_cancel, code_at, Lacks, has_prefix, has_prefix-join_cancel,
  has_prefix_marked,
}

abbrev pub jwt_sign_key : String
jwt_sign_key = "/zhangyu/jwt/sign"

-- `getNodeKey`, `getTunnelKey`, `getClientKey`, `getOnlineClientKey`, `getDomainKey`,
-- `getDomainNameKey`.
unfoldable pub node_key : String → String
node_key id = join "/zhangyu/node/online/" id

unfoldable pub tunnel_key : String → String
tunnel_key id = join "/zhangyu/client/tunnel/" id

unfoldable pub client_key : String → String
client_key id = join "/zhangyu/client/record/" id

unfoldable pub online_client_key : String → String
online_client_key id = join "/zhangyu/client/online/" id

unfoldable pub domain_key : String → String → String
domain_key client domain = join "/zhangyu/domain/" (join client (join "/" domain))

unfoldable pub domain_name_key : String → String
domain_name_key domain = join "/zhangyu/domain/list/" domain

-- The format of `getListenKey`, and of the prefix in `GetTransferList`.
unfoldable pub listen_key : String → String → String
listen_key client addr = join "/zhangyu/client/listen/" (join client (join "=>" addr))

-- Keys of one kind differ where their identifiers do.
pub client_key_inj : (a b : String) → client_key a ≡ client_key b → a ≡ b
unfolding client_key
client_key_inj a b e = join_cancel "/zhangyu/client/record/" a b e

pub tunnel_key_inj : (a b : String) → tunnel_key a ≡ tunnel_key b → a ≡ b
unfolding tunnel_key
tunnel_key_inj a b e = join_cancel "/zhangyu/client/tunnel/" a b e

pub online_client_key_inj : (a b : String) → online_client_key a ≡ online_client_key b → a ≡ b
unfolding online_client_key
online_client_key_inj a b e = join_cancel "/zhangyu/client/online/" a b e

domain_name_key_inj : (a b : String) → domain_name_key a ≡ domain_name_key b → a ≡ b
unfolding domain_name_key
domain_name_key_inj a b e = join_cancel "/zhangyu/domain/list/" a b e

-- Keys of two kinds are never the same.
differ : (n : ℕ) (s t : String) → code_at n s ≢ code_at n t → s ≢ t
differ n s t h e = h (ap (code_at n) e)

pub client-ne-tunnel : (a b : String) → client_key a ≢ tunnel_key b
unfolding client_key tunnel_key
client-ne-tunnel a b = differ 16 _ _ (omega arith)

pub client-ne-online : (a b : String) → client_key a ≢ online_client_key b
unfolding client_key online_client_key
client-ne-online a b = differ 16 _ _ (omega arith)

pub tunnel-ne-online : (a b : String) → tunnel_key a ≢ online_client_key b
unfolding tunnel_key online_client_key
tunnel-ne-online a b = differ 16 _ _ (omega arith)

pub listen-ne-tunnel : (a x b : String) → listen_key a x ≢ tunnel_key b
unfolding listen_key tunnel_key
listen-ne-tunnel a x b = differ 16 _ _ (omega arith)

pub listen-ne-client : (a x b : String) → listen_key a x ≢ client_key b
unfolding listen_key client_key
listen-ne-client a x b = differ 16 _ _ (omega arith)

pub domain_name-ne-tunnel : (a b : String) → domain_name_key a ≢ tunnel_key b
unfolding domain_name_key tunnel_key
domain_name-ne-tunnel a b = differ 9 _ _ (omega arith)

pub domain_name-ne-client : (a b : String) → domain_name_key a ≢ client_key b
unfolding domain_name_key client_key
domain_name-ne-client a b = differ 9 _ _ (omega arith)

pub domain_name-ne-listen : (a b x : String) → domain_name_key a ≢ listen_key b x
unfolding domain_name_key listen_key
domain_name-ne-listen a b x = differ 9 _ _ (omega arith)

pub jwt-ne-client : (b : String) → jwt_sign_key ≢ client_key b
unfolding client_key
jwt-ne-client b = differ 9 _ _ (omega arith)

pub jwt-ne-tunnel : (b : String) → jwt_sign_key ≢ tunnel_key b
unfolding tunnel_key
jwt-ne-tunnel b = differ 9 _ _ (omega arith)

pub node-ne-client : (a b : String) → node_key a ≢ client_key b
unfolding node_key client_key
node-ne-client a b = differ 9 _ _ (omega arith)

pub node-ne-tunnel : (a b : String) → node_key a ≢ tunnel_key b
unfolding node_key tunnel_key
node-ne-tunnel a b = differ 9 _ _ (omega arith)

-- The prefix that lists one client's listens fits no other client's, if the names have no `=`.
pub listen_prefix :
    (a b addr : String)
    → Lacks 61 a
    → Lacks 61 b
    → has_prefix (listen_key a "") (listen_key b addr) ≡ true
    → a ≡ b
unfolding listen_key
listen_prefix a b addr h k e =
    let mark : Char = "=" in
    has_prefix_marked mark a b (join ">" addr) ">" h k (
      sym (has_prefix-join_cancel "/zhangyu/client/listen/" (join a "=>") (join b (join "=>" addr)))
      ∙ e)

-- It fits all keys of that client's own listens.
pub listen_key_prefix :
    (client addr : String) → has_prefix (listen_key client "") (listen_key client addr) ≡ true
unfolding listen_key
listen_key_prefix client addr =
    has_prefix-join_cancel "/zhangyu/client/listen/" (join client "=>")
      (join client (join "=>" addr))
    ∙ has_prefix-join_cancel client "=>" (join "=>" addr)
    ∙ has_prefix-join "=>" addr
