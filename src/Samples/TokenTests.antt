-- ===== src/Samples/TokenTests.antt =====
-- app/jwt.go, app/node/node.go: tokens at concrete inputs.
use Prim.Native.Char.{Char}
use zhangyu.Base.{
  nat_eq, ◌==◌, Bool-cases, inl, inr, ℕ, ◌≤◌, String, ◌≡◌, ◌≢◌, refl, ap, some, [], Bool, true,
  false, leb, ne_of_eq_false, returns, if◌then◌else◌, arith,
}
use zhangyu.Base.Strings.{code_at, text_length}
use zhangyu.Utils.Json.{get_json_string, get_json_value, get_json_value-get_json_string}
use zhangyu.Etcd.Keys.{client_key}
use zhangyu.Etcd.Server.{forever}
use zhangyu.Etcd.Store.{get_client_rec}
use zhangyu.Etcd.Store.Laws.{get_record-put}
use zhangyu.Rpc.Records.{ClientRec, LoginRequest}
use zhangyu.Rpc.Records.Clients.{client_rec_struct}
use zhangyu.Node.Login.{Claim, success_response, http_login}
use zhangyu.Node.Token.{
  Jwt, Verdict, valid, invalid, no_token, no_claim, continues, claim_struct, verify_token,
}
use zhangyu.Node.Token.Laws.{store_of, token_of, login_verified}
use zhangyu.Samples.Codec.{codec}
use zhangyu.Samples.Memory.{memory, Entries}

-- A token that is the text of its claim behind a letter, by which two kinds of keys differ.
abbrev letter : String → Char
letter key = if key == "other" then "u" else "t"

abbrev plain_token : Claim → String → String
plain_token claim key = String.◌∷◌ (letter key) (get_json_string codec claim)

abbrev same_letter : Char → String → Bool
same_letter c key = nat_eq (code_at 0 (String.◌∷◌ c "")) (code_at 0 (String.◌∷◌ (letter key) ""))

abbrev judged : String → Claim × Bool → ℕ → Verdict
judged text (claim, true) now = if leb now claim.expires_at then valid text else invalid true
judged text (claim, false) now = invalid false

abbrev plain_verdict : String → String → ℕ → Verdict
plain_verdict String.[] key now = no_token
plain_verdict (String.◌∷◌ c text) key now =
    if same_letter c key
    then judged text (get_json_value codec no_claim text) now
    else invalid false

same_kind : (key : String) → same_letter (letter key) key ≡ true
same_kind key = elim (Bool-cases (key == "other")) [ inl e ↦ rw e refl | inr e ↦ rw e refl ]

pub plain_valid :
    (claim : Claim) (key : String) (now : ℕ)
    → now ≤ claim.expires_at
    → plain_verdict (plain_token claim key) key now ≡ valid (get_json_string codec claim)
plain_valid claim key now early =
    rw (get_json_value-get_json_string codec claim, same_kind key) (ground arith)

pub plain_foreign :
    (claim : Claim) (key other : String) (now : ℕ)
    → plain_token claim key ≢ plain_token claim other
    → plain_verdict (plain_token claim key) other now ≡ invalid false
plain_foreign claim key other now differ = elim (Bool-cases (key == "other")) [
  | inl a ↦ elim (Bool-cases (other == "other")) [
    | inl b ↦ absurd (differ (rw (a, b) refl))
    | inr b ↦ rw (a, b) refl
  ]
  | inr a ↦ elim (Bool-cases (other == "other")) [
    | inl b ↦ rw (a, b) refl
    | inr b ↦ absurd (differ (rw (a, b) refl))
  ]
]

pub plain_ne_empty : (claim : Claim) (key : String) → plain_token claim key ≢ ""
plain_ne_empty claim key e = let size = ap text_length e in absurd (omega arith)

abbrev pub plain_jwt : Jwt codec
plain_jwt = record {
  create_token = plain_token;
  valid_token = plain_verdict;
  create_token-ne_empty = plain_ne_empty;
  valid_token-create_token = λ claim key now early. (
    get_json_string codec claim,
    plain_valid claim key now early,
    get_json_value-get_json_string codec claim,
  );
  valid_token-foreign =
      λ claim key other now early differ. plain_foreign claim key other now differ;
}

abbrev pub alice : ClientRec
alice = record {
  client_id = "alice";
  token = "t1";
  tunnel_id = "10000001";
  auth_code = "c1";
  create_time = 4;
}

abbrev pub alice_login : LoginRequest
alice_login = record { client_id = "alice"; token = "t1"; app_id = ""; secret = "" }

abbrev pub one_client : Entries
one_client = memory.put [] (client_key "alice") (get_json_string codec alice) forever

alice_known : get_client_rec memory codec one_client "alice" ≡ some alice
unfolding get_client_rec
alice_known = get_record-put memory codec [] (client_key "alice") alice forever

pub alice_named : alice_login.client_id ≢ ""
alice_named = ne_of_eq_false "alice" "" refl

login_verified_example :
    (http_login memory codec plain_token one_client (some alice_login) "k" 9 ≡ (
      success_response (token_of memory codec plain_jwt one_client alice_login alice "k" 9),
      store_of memory codec plain_jwt one_client alice_login alice "k" 9,
    ))
    × (verify_token memory codec plain_jwt
          (store_of memory codec plain_jwt one_client alice_login alice "k" 9)
          (token_of memory codec plain_jwt one_client alice_login alice "k" 9)
          "mallory"
          "k2"
          600
        ≡ (
          returns (continues "alice"),
          store_of memory codec plain_jwt one_client alice_login alice "k" 9,
        ))
login_verified_example =
    login_verified memory codec plain_jwt one_client alice_login alice "k" 9 "mallory" "k2" 600
      alice_named alice_known refl (omega arith)
