-- ===== src/Node/ListenAdd/Grounds.antt =====
-- app/node/node.go, `httpHandler_ListenAdd`: the grounds on which a request is refused, an address is chosen, or
-- neither.
use zhangyu.Base.{
  ℕ, String, ◌≡◌, ◌≢◌, refl, ap, ◌∙◌, ◌⊎◌, Bool, true, false, Option, none, some, List,
  Option-cases, Bool-cases, inl, inr, eq_iff, ne_of_eq_false, ◌==◌, ◌||◌, arith, if◌then◌else◌,
}
use zhangyu.Base.Strings.{has_suffix}
use zhangyu.Utils.Json.{JsonText}
use zhangyu.Etcd.Server.{Server}
use zhangyu.Etcd.Store.{get_tunnel}
use zhangyu.Etcd.Register.{generate_domain_name}
use zhangyu.Etcd.Listens.{Url, is_http, add_listen_with_tunnel}
use zhangyu.Rpc.Records.{Tunnel, ListenRequest}
use zhangyu.Node.ListenAdd.{
  Address, refused, address, nil_url, no_name, listen_host, check_tunnel, listen_refusal,
  http_address, plain_address, listen_address,
}

module _ (srv : Server) (codec : JsonText) (parse : String → Option Url) (domain : String)
    (draws : List ℕ) where
  open srv use {State}

  module _ (s : State) (req : ListenRequest) (client_id : String) where
    -- A request that names the calling client or none, and has the code of its target tunnel.
    pub record Authorized : Type 0 where
      pub tunnel : Tunnel
      pub found : get_tunnel srv codec s req.target_tunnel_id ≡ some tunnel
      pub code : tunnel.auth_code ≡ req.target_auth_code
      pub client : (req.listen_client_id ≡ "") ⊎ (req.listen_client_id ≡ client_id)

    -- A target address with a scheme of HTTP, or of none.
    abbrev pub HttpTarget : Bool → Type 0
    HttpTarget http =
        (req.target_addr ≢ "")
        × (url : Url) × (parse req.target_addr ≡ some url)
        × (is_http url.scheme ≡ http)

    -- A target that has to be listened for at an address that is given: none, or one of TCP or UDP.
    abbrev pub PlainTarget : Type 0
    PlainTarget =
        (req.target_addr ≡ "")
        ⊎ ((req.target_addr ≢ "")
            × (url : Url) × (parse req.target_addr ≡ some url)
            × (is_http url.scheme ≡ false)
            × (url.scheme == "tcp" || url.scheme == "udp" ≡ true))

    -- Why a request is refused.
    pub data Refusal : Type 0 where
      other_client : req.listen_client_id ≢ "" → req.listen_client_id ≢ client_id → Refusal
      no_target : req.target_tunnel_id ≡ "" → Refusal
      unknown_tunnel : get_tunnel srv codec s req.target_tunnel_id ≡ none → Refusal
      wrong_code :
          (tunnel : Tunnel)
          → get_tunnel srv codec s req.target_tunnel_id ≡ some tunnel
          → tunnel.auth_code ≢ req.target_auth_code
          → Refusal
      domain_taken :
          (host : String)
          → HttpTarget true
          → listen_host parse req.listen_addr ≡ some host
          → host ≢ ""
          → has_suffix host domain ≡ true
          → Refusal
      no_addr : PlainTarget → req.listen_addr ≡ "" → Refusal

    -- Which address is listened for, and from which store on.
    pub data Chosen : String → State → Type 0 where
      own_host :
          (host : String)
          → HttpTarget true
          → listen_host parse req.listen_addr ≡ some host
          → host ≢ ""
          → has_suffix host domain ≡ false
          → Chosen host s
      drawn :
          (name : String) (s' : State)
          → HttpTarget true
          → listen_host parse req.listen_addr ≡ some ""
          → generate_domain_name srv codec domain s draws ≡ some (name, s')
          → Chosen name s'
      given : PlainTarget → req.listen_addr ≢ "" → Chosen req.listen_addr s
      other_scheme :
          (url : Url)
          → parse req.target_addr ≡ some url
          → is_http url.scheme ≡ false
          → url.scheme == "tcp" || url.scheme == "udp" ≡ false
          → Chosen req.listen_addr s

    -- An address that is not empty and does not parse.
    abbrev pub NilUrl : Type 0
    NilUrl =
        (req.target_addr ≢ "")
        × ((parse req.target_addr ≡ none) ⊎ (listen_host parse req.listen_addr ≡ none))

    -- A name is to be drawn, and all those that were drawn are taken.
    abbrev pub Undrawn : Type 0
    Undrawn =
        HttpTarget true
        × (listen_host parse req.listen_addr ≡ some "")
        × (generate_domain_name srv codec domain s draws ≡ none)

    -- The check of the tunnel, for a client that may ask.
    check-cases :
        (req.listen_client_id ≡ "") ⊎ (req.listen_client_id ≡ client_id)
        → ((message : String) × (check_tunnel srv codec req
                (get_tunnel srv codec s req.target_tunnel_id)
              ≡ some message)
            × Refusal)
          ⊎ ((check_tunnel srv codec req (get_tunnel srv codec s req.target_tunnel_id) ≡ none)
              × Authorized)
    check-cases may = elim (Option-cases (get_tunnel srv codec s req.target_tunnel_id)) [
      | inl unknown ↦ rw unknown (inl (_, refl, unknown_tunnel unknown))
      | inr (tunnel, found) ↦ elim (Bool-cases (tunnel.auth_code == req.target_auth_code)) [
        | inl same ↦ inr (
          rw found (rw same refl),
          record {
            tunnel = tunnel;
            found = found;
            code = (eq_iff tunnel.auth_code req.target_auth_code).0 same;
            client = may;
          },
        )
        | inr differ ↦
            rw (found, differ)
              (inl (
                _,
                refl,
                wrong_code tunnel found
                    (ne_of_eq_false tunnel.auth_code req.target_auth_code differ),
              ))
      ]
    ]

    tunnel-cases :
        (req.listen_client_id ≡ "") ⊎ (req.listen_client_id ≡ client_id)
        → let check =
            (if req.target_tunnel_id == ""
              then some "TargetClientId不能为空"
              else check_tunnel srv codec req (get_tunnel srv codec s req.target_tunnel_id)) in
          ((message : String) × (check ≡ some message) × Refusal) ⊎ ((check ≡ none) × Authorized)
    tunnel-cases may = elim (Bool-cases (req.target_tunnel_id == "")) [
      | inl empty ↦ rw empty (inl (_, refl, no_target ((eq_iff req.target_tunnel_id "").0 empty)))
      | inr named ↦ rw named (check-cases may)
    ]

    pub refusal-cases :
        ((message : String) × (listen_refusal srv codec s req client_id ≡ some message) × Refusal)
        ⊎ ((listen_refusal srv codec s req client_id ≡ none) × Authorized)
    unfolding listen_refusal
    refusal-cases = elim (Bool-cases (req.listen_client_id == "")) [
      | inl empty ↦ rw empty (tunnel-cases (inl ((eq_iff req.listen_client_id "").0 empty)))
      | inr named ↦ elim (Bool-cases (req.listen_client_id == client_id)) [
        | inl same ↦
            rw (named, same) (tunnel-cases (inr ((eq_iff req.listen_client_id client_id).0 same)))
        | inr other ↦
            rw (named, other)
              (inl (
                _,
                refl,
                other_client (ne_of_eq_false req.listen_client_id "" named)
                    (ne_of_eq_false req.listen_client_id client_id other),
              ))
      ]
    ]

    -- What `listen_address` gives, with the grounds for it.
    pub data AddressIs : Address srv → Type 0 where
      is_refused : (message : String) → Refusal → AddressIs (refused message)
      is_address : (addr : String) (s' : State) → Chosen addr s' → AddressIs (address addr s')
      is_nil : NilUrl → AddressIs nil_url
      is_undrawn : Undrawn → AddressIs no_name

    plain-cases : PlainTarget → AddressIs (plain_address srv codec s req.listen_addr)
    plain-cases plain = elim (Bool-cases (req.listen_addr == "")) [
      | inl empty ↦ rw empty (is_refused _ (no_addr plain ((eq_iff req.listen_addr "").0 empty)))
      | inr some_addr ↦
          rw some_addr (is_address _ _ (given plain (ne_of_eq_false req.listen_addr "" some_addr)))
    ]

    drawn-cases :
        HttpTarget true
        → listen_host parse req.listen_addr ≡ some ""
        → AddressIs (http_address srv codec domain draws s "")
    drawn-cases http empty = elim (Option-cases (generate_domain_name srv codec domain s draws)) [
      | inl taken ↦ rw taken (is_undrawn (http, empty, taken))
      | inr ((name, s'), e) ↦ rw e (is_address name s' (drawn name s' http empty e))
    ]

    http-cases :
        (host : String)
        → HttpTarget true
        → listen_host parse req.listen_addr ≡ some host
        → AddressIs (http_address srv codec domain draws s host)
    http-cases host http e = elim (Bool-cases (host == "")) [
      | inl empty ↦ rw empty (drawn-cases http (e ∙ ap some ((eq_iff host "").0 empty)))
      | inr named ↦ elim (Bool-cases (has_suffix host domain)) [
        | inl taken ↦
            rw (named, taken)
              (is_refused _ (domain_taken host http e (ne_of_eq_false host "" named) taken))
        | inr free ↦
            rw (named, free)
              (is_address host s (own_host host http e (ne_of_eq_false host "" named) free))
      ]
    ]

    scheme-cases :
        (url : Url)
        → req.target_addr ≢ ""
        → parse req.target_addr ≡ some url
        → is_http url.scheme ≡ false
        → AddressIs (
            if url.scheme == "tcp" || url.scheme == "udp"
            then plain_address srv codec s req.listen_addr
            else address req.listen_addr s)
    scheme-cases url ne e other = elim (Bool-cases (url.scheme == "tcp" || url.scheme == "udp")) [
      | inl plain ↦ rw plain (plain-cases (inr (ne, url, e, other, plain)))
      | inr neither ↦ rw neither (is_address _ _ (other_scheme url e other neither))
    ]

    pub address-cases : AddressIs (listen_address srv codec parse domain draws s req)
    unfolding listen_address
    address-cases = elim (Bool-cases (req.target_addr == "")) [
      | inl empty ↦ rw empty (plain-cases (inl ((eq_iff req.target_addr "").0 empty)))
      | inr some_target ↦
          let ne = ne_of_eq_false req.target_addr "" some_target in
          elim (Option-cases (parse req.target_addr)) [
            | inl bad ↦ rw (some_target, bad) (is_nil (ne, inl bad))
            | inr (url, e) ↦ elim (Option-cases (listen_host parse req.listen_addr)) [
              | inl bad ↦ rw (some_target, e, bad) (is_nil (ne, inr bad))
              | inr (host, e') ↦ elim (Bool-cases (is_http url.scheme)) [
                | inl http ↦ rw (some_target, e, e', http) (http-cases host (ne, url, e, http) e')
                | inr other ↦ rw (some_target, e, e', other) (scheme-cases url ne e other)
              ]
            ]
          ]
    ]

    pub not_stored :
        (addr : String) (s' : State) (now : ℕ)
        → add_listen_with_tunnel srv codec parse s' req.target_tunnel_id client_id addr
            req.target_addr now
          ≡ none
        → NilUrl
    unfolding add_listen_with_tunnel
    not_stored addr s' now nil = elim (Bool-cases (req.target_addr == "")) [
      | inl empty ↦ absurd (let e = rw empty at nil in ground arith)
      | inr some_target ↦ elim (Option-cases (parse req.target_addr)) [
        | inl bad ↦ (ne_of_eq_false req.target_addr "" some_target, inl bad)
        | inr (url, e) ↦ absurd (let e' = rw (some_target, e) at nil in ground arith)
      ]
    ]
