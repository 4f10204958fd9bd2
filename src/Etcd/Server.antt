-- ===== src/Etcd/Server.antt =====
-- What the program uses of an etcd server, as an interface: single keys, keys under a prefix, and a
-- key's creation revision. Every call is taken to reach the server, and leases expire between the calls
-- that are followed here.
use mathlib.Core.List.{Mem}
use zhangyu.Base.{ℕ, String, ◌≡◌, ◌↔◌, true, Option, none, some, List, ◌==◌, if◌then◌else◌, All}
use zhangyu.Base.Strings.{has_prefix}

-- How long a value is kept: for good, for some seconds, or for as long as its writer lives.
pub data Lease : Type 0 where
  forever : Lease
  seconds : ℕ → Lease
  keep_alive : ℕ → Lease

pub record Server : Type 1 where
  pub State : Type 0
  -- `Get` of a key, `Get` with `WithPrefix`, `OpPut`, `Delete`, and `clientv3.CreateRevision`.
  pub get : State → String → Option String
  pub range : State → String → List (String × String)
  pub put : State → String → String → Lease → State
  pub delete : State → String → State
  pub create_revision : State → String → ℕ
  -- A value that was put is read back, and a key that was deleted is absent; no other key changes.
  pub get-put :
      (s : State) (k : String) (v : String) (l : Lease) (j : String)
      → get (put s k v l) j ≡ (if k == j then some v else get s j)
  pub get-delete :
      (s : State) (k : String) (j : String)
      → get (delete s k) j ≡ (if k == j then none else get s j)
  -- The keys under a prefix, with their values.
  pub range_sound :
      (s : State) (p : String)
      → All
          (λ (e : String × String). (get s e.0 ≡ some e.1) × (has_prefix p e.0 ≡ true))
          (range s p)
  pub range_complete :
      (s : State) (p k v : String)
      → get s k ≡ some v
      → has_prefix p k ≡ true
      → Mem (k, v) (range s p)
  -- The creation revision of a key is 0 exactly if the key is absent.
  pub create_revision-eq-zero_iff :
      (s : State) (k : String) → (create_revision s k ≡ 0) ↔ (get s k ≡ none)
