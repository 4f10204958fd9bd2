-- ===== src/Node/Token.antt =====
-- app/jwt.go, app/node/node.go: the token of a login over HTTP, and the check of the token of a request.
pub mod Laws
use zhangyu.Base.{
  ℕ, ◌≤◌, ◌+◌, String, ◌≡◌, ◌≢◌, Bool, true, false, Option, ◌&&◌, ◌==◌, nat_eq, Run, returns,
  panics, if◌then◌else◌, arith, eq_iff,
}
use zhangyu.Utils.Json.{
  JsonText, Fields, end, field, num, str, Struct, fill, set_string, set_number, get_json_value,
}
use zhangyu.Etcd.Server.{Server}
use zhangyu.Etcd.Store.{get_jwt_sign_key}
use zhangyu.Rpc.Records.Requests.{field_nonempty}
use zhangyu.Node.Login.{Claim}

abbrev pub no_claim : Claim
no_claim = record {
  login_type = 0;
  client_id = "";
  expires_at = 0;
  id = "";
  issuer = "";
  subject = "";
}

-- A claim as JSON, with the names of `jwt.StandardClaims`.
abbrev marshal_claim : Claim → Fields
marshal_claim c =
    let names =
      field_nonempty "jti" c.id
        (field_nonempty "iss" c.issuer (field_nonempty "sub" c.subject end)) in
    field "LoginType" (num c.login_type) (
      field "ClientId" (str c.client_id)
        (if nat_eq c.expires_at 0 then names else field "exp" (num c.expires_at) names))

abbrev unmarshal_claim : Fields → Claim → Claim × Bool
unmarshal_claim fs c =
    let login_type = fill set_number "LoginType" fs c.login_type in
    let client_id = fill set_string "ClientId" fs c.client_id in
    let expires_at = fill set_number "exp" fs c.expires_at in
    let id = fill set_string "jti" fs c.id in
    let issuer = fill set_string "iss" fs c.issuer in
    let subject = fill set_string "sub" fs c.subject in
    (
      record {
        login_type = login_type.0;
        client_id = client_id.0;
        expires_at = expires_at.0;
        id = id.0;
        issuer = issuer.0;
        subject = subject.0;
      },
      login_type.1 && client_id.1 && expires_at.1 && id.1 && issuer.1 && subject.1,
    )

pub claim_trip : (c : Claim) → unmarshal_claim (marshal_claim c) no_claim ≡ (c, true)
unfolding fill
claim_trip c = ground (arith, eq_iff c.id "", eq_iff c.issuer "", eq_iff c.subject "")

instance abbrev pub claim_struct : Struct Claim
claim_struct = record {
  zero_value = no_claim;
  marshal = marshal_claim;
  unmarshal = unmarshal_claim;
  unmarshal-marshal = claim_trip;
}

-- What `jwt.Parse` finds: no token at all, a valid one with the JSON of its claims, or one that is not
-- valid, with whether its error says that it has expired.
pub data Verdict : Type 0 where
  no_token : Verdict
  valid : String → Verdict
  invalid : Bool → Verdict

-- `golang-jwt`: `CreateToken` signs, and `ValidToken` parses with a key, at a time in seconds. A token that
-- was signed is valid under its key up to its expiry, with claims that decode to the ones signed.
pub record Jwt (codec : JsonText) : Type 0 where
  pub create_token : Claim → String → String
  pub valid_token : String → String → ℕ → Verdict
  pub create_token-ne_empty : (claim : Claim) (key : String) → create_token claim key ≢ ""
  pub valid_token-create_token :
      (claim : Claim) (key : String) (now : ℕ)
      → now ≤ claim.expires_at
      → (text : String) × (valid_token (create_token claim key) key now ≡ valid text)
        × (get_json_value codec no_claim text ≡ (claim, true))
  -- A token that another key signs otherwise is not valid under that key, and that is its only fault before its
  -- expiry.
  pub valid_token-foreign :
      (claim : Claim) (key other : String) (now : ℕ)
      → now ≤ claim.expires_at
      → create_token claim key ≢ create_token claim other
      → valid_token (create_token claim key) other now ≡ invalid false

-- What becomes of a request: an answer, or the next handler with its `Zhangyu-ClientId`.
pub data Verified : Type 0 where
  refuses : String → Verified
  continues : String → Verified

abbrev pub missing_token_message : String
missing_token_message = "身份认证失败,缺少JwtToken"

abbrev expired_token_message : String
expired_token_message = "身份认证失败,Token已失效"

module _ (srv : Server) (codec : JsonText) (jwt : Jwt codec) where
  -- The header after the claims of a valid token were read.
  abbrev claimed : Claim × Bool → String → String
  claimed (claim, true) client_id = claim.client_id
  claimed (claim, false) client_id = client_id

  -- By the verdict on the token; `token.Valid` of a nil pointer panics.
  abbrev pub judge : Verdict → String → Run Verified
  judge no_token client_id = panics
  judge (valid text) client_id =
      returns (continues (claimed (get_json_value codec no_claim text) client_id))
  judge (invalid true) client_id = returns (refuses expired_token_message)
  judge (invalid false) client_id = returns (continues client_id)

  -- `verifyToken`, with the two headers of the request.
  unfoldable pub verify_token : srv.State → String → String → String → ℕ → Run Verified × srv.State
  verify_token s token client_id drawn now =
      let key = get_jwt_sign_key srv codec s drawn in
      if token == ""
      then (returns (refuses missing_token_message), s)
      else (judge (jwt.valid_token token key.0 now) client_id, key.1)
