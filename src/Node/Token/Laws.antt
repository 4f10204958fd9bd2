-- ===== src/Node/Token/Laws.antt =====
-- app/node/node.go, `httpHandler_Login` and `verifyToken`: theorems about tokens.
use zhangyu.Base.{ℕ, ◌≤◌, ◌+◌, String, ◌≡◌, ◌≢◌, refl, ◌∙◌, some, returns, eq_false, eq_refl}
use zhangyu.Utils.Json.{JsonText}
use zhangyu.Etcd.Server.{Server}
use zhangyu.Etcd.Store.{get_client_rec, get_jwt_sign_key}
use zhangyu.Etcd.Store.Laws.{get_jwt_sign_key-agrees}
use zhangyu.Rpc.Records.{ClientRec, LoginRequest}
use zhangyu.Node.Login.{Claim, client_claim, http_login, success_response}
use zhangyu.Node.Token.{Jwt, continues, judge, verify_token, claim_struct}

module _ (srv : Server) (codec : JsonText) (jwt : Jwt codec) where
  open srv use {State}

  verify-judged :
      (s : State) (token client_id drawn : String) (now : ℕ)
      → token ≢ ""
      → verify_token srv codec jwt s token client_id drawn now ≡ (
        judge srv codec jwt
            (jwt.valid_token token (get_jwt_sign_key srv codec s drawn).0 now)
            client_id,
        (get_jwt_sign_key srv codec s drawn).1,
      )
  unfolding verify_token
  verify-judged s token client_id drawn now ne = rw (eq_false token "" ne)

  -- A request with a token that a foreign key signed, and that has not expired, goes on as the client that its
  -- header names.
  pub verify-foreign :
      (s : State) (claim : Claim) (key client_id drawn : String) (now : ℕ)
      → now ≤ claim.expires_at
      → jwt.create_token claim key ≢ jwt.create_token claim (get_jwt_sign_key srv codec s drawn).0
      → verify_token srv codec jwt s (jwt.create_token claim key) client_id drawn now
        ≡ (returns (continues client_id), (get_jwt_sign_key srv codec s drawn).1)
  verify-foreign s claim key client_id drawn now early differ =
      verify-judged s (jwt.create_token claim key) client_id drawn now
        (jwt.create_token-ne_empty claim key)
      ∙ rw (jwt.valid_token-foreign claim key _ now early differ, judge)

  module _ (s : State) (req : LoginRequest) (rec : ClientRec) (drawn : String) (now : ℕ) where
    -- The signing key of the login, the store that it leaves, and its token.
    abbrev pub key_of : String
    key_of = (get_jwt_sign_key srv codec s drawn).0

    abbrev pub store_of : State
    store_of = (get_jwt_sign_key srv codec s drawn).1

    abbrev pub token_of : String
    token_of = jwt.create_token (client_claim srv codec req.client_id now) key_of

    logs_in :
        req.client_id ≢ ""
        → get_client_rec srv codec s req.client_id ≡ some rec
        → rec.token ≡ req.token
        → http_login srv codec jwt.create_token s (some req) drawn now
          ≡ (success_response token_of, store_of)
    unfolding http_login
    logs_in ne known same =
        rw (eq_false req.client_id "" ne, known, http_login, same, eq_refl req.token)

    -- The login of a client with the token of its record is answered with a token. Up to an hour
    -- later, on the store that the login left, `verifyToken` lets a request with that token go on
    -- as this client, whatever client its header names.
    pub login_verified :
        (caller later_drawn : String) (later : ℕ)
        → req.client_id ≢ ""
        → get_client_rec srv codec s req.client_id ≡ some rec
        → rec.token ≡ req.token
        → later ≤ now + 3600
        → (http_login srv codec jwt.create_token s (some req) drawn now
            ≡ (success_response token_of, store_of))
          × (verify_token srv codec jwt store_of token_of caller later_drawn later
              ≡ (returns (continues req.client_id), store_of))
    login_verified caller later_drawn later ne known same early =
        let (text, verdict, decoded) =
          jwt.valid_token-create_token (client_claim srv codec req.client_id now) key_of later
            early in
        let agreed = get_jwt_sign_key-agrees srv codec s store_of drawn later_drawn refl in
        (
          logs_in ne known same,
          verify-judged store_of token_of caller later_drawn later (jwt.create_token-ne_empty _ _)
              ∙ rw agreed (rw (verdict, judge, decoded)),
        )
