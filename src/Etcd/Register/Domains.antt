-- ===== src/Etcd/Register/Domains.antt =====
-- app/node/etcd/etcd.go: theorems about `GenerateDomainName`.
use zhangyu.Base.{
  ℕ, ◌≤◌, ◌<◌, ◌+◌, String, ◌≡◌, refl, none, some, List, [], ◌∷◌, ◌++◌, All, inl, inr, Bool-cases,
  ltb, arith,
}
use zhangyu.Base.Strings.{join, decimal}
use zhangyu.Utils.Json.{JsonText}
use zhangyu.Etcd.Server.{Server, seconds}
use zhangyu.Etcd.Keys.{domain_name_key}
use zhangyu.Etcd.Store.Laws.{lock-cases}
use zhangyu.Etcd.Register.{domain_name_of, generate_domain_name}

-- A name below a domain: a letter and a number of six digits.
pub record IsNumbered (domain name : String) : Type 0 where
  pub number : ℕ
  pub spelled : name ≡ join "c" (join (decimal number) (join "." domain))
  pub least : 100000 ≤ number
  pub most : number < 999999

domain_name_of-IsNumbered :
    (domain : String) (n : ℕ) → n < 999999 → IsNumbered domain (domain_name_of domain n)
unfolding domain_name_of
domain_name_of-IsNumbered domain n small = elim (Bool-cases (ltb n 100000)) [
  | inl short ↦ record {
    number = n + 100000;
    spelled = rw short refl;
    least = omega arith;
    most = ground arith;
  }
  | inr long ↦ record { number = n; spelled = rw long refl; least = ground arith; most = small }
]

module _ (srv : Server) (codec : JsonText) (domain : String) where
  open srv use {State, get, put}

  -- If one of the draws comes to a name whose key is free, `GenerateDomainName` returns a name
  -- below the node's domain, with a number of six digits, whose key was absent, and leaves the
  -- store that its lock gives: the key put with an empty value and a lease of five seconds. The
  -- draws are below 999999.
  pub generate_domain_name_free :
      (s : State) (before after : List ℕ) (n : ℕ)
      → All (λ d. d < 999999) before
      → n < 999999
      → get s (domain_name_key (domain_name_of domain n)) ≡ none
      → (name : String) × IsNumbered domain name
        × (get s (domain_name_key name) ≡ none)
        × (generate_domain_name srv codec domain s (before ++ n ∷ after)
            ≡ some (name, put s (domain_name_key name) "" (seconds 5)))
  unfolding generate_domain_name
  generate_domain_name_free s [] after n below small free =
      elim (lock-cases srv codec s (domain_name_key (domain_name_of domain n)) 5) [
        | inl (unused, had) ↦
            (domain_name_of domain n, domain_name_of-IsNumbered domain n small, unused, rw had refl)
        | inr (used, _) ↦ absurd (used free)
      ]
  generate_domain_name_free s (d ∷ before) after n below small free =
      elim (lock-cases srv codec s (domain_name_key (domain_name_of domain d)) 5) [
        | inl (unused, had) ↦ (
          domain_name_of domain d,
          domain_name_of-IsNumbered domain d below.0,
          unused,
          rw had refl,
        )
        | inr (used, had) ↦
            let (name, numbered, unused, e) =
              generate_domain_name_free s before after n below.1 small free in
            (name, numbered, unused, rw had e)
      ]
