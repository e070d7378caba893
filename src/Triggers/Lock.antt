-- ===== src/Triggers/Lock.antt =====
-- What RunExecutor (src/saga_agents/triggers/executor.py) asks of Redis for its run locks.
-- Redis is not part of the repository: its commands are the fields of a record, with their
-- documented effect on what GET answers.
pub mod Memory
use saga_agents.Common.{ℕ, String, ◌≡◌, Bool, true, false, Option, none, some, if◌then◌else◌, ◌==◌}
use Prim.Native.Nat.{compare, Ordering}
use Prim.Native.String

-- The values of uuid4().hex that are stored under lock keys: the n-th call in this process, or one
-- of another process. Two calls never give one value.
pub data Token : Type 0 where
  ours theirs : ℕ → Token

abbrev number_eq : ℕ → ℕ → Bool
number_eq a b = elim (compare a b) [ Ordering.eq ↦ true | _ ↦ false ]

abbrev pub token_eq : Token → Token → Bool
token_eq (ours a) (ours b) = number_eq a b
token_eq (theirs a) (theirs b) = number_eq a b
token_eq _ _ = false

pub record LockService : Type 1 where
  pub Store : Type 0
  -- GET key
  pub peek : Store → String → Option Token
  -- SET key token NX, and whether the key was set
  pub set_nx : Store → String → Token → Store × Bool
  -- DEL key, also what the expiry of the key does
  pub del : Store → String → Store
  pub set_nx_free : (s : Store) (k : String) (t : Token) → peek s k ≡ none → (set_nx s k t).1 ≡ true
  pub set_nx_taken :
      (s : Store) (k : String) (t u : Token) → peek s k ≡ some u → (set_nx s k t).1 ≡ false
  pub peek-set_nx_free :
      (s : Store) (k : String) (t : Token) (j : String)
      → peek s k ≡ none
      → peek (set_nx s k t).0 j ≡ (if k == j then some t else peek s j)
  pub peek-set_nx_taken :
      (s : Store) (k : String) (t u : Token) (j : String)
      → peek s k ≡ some u
      → peek (set_nx s k t).0 j ≡ peek s j
  pub peek-del : (s : Store) (k j : String) → peek (del s k) j ≡ (if k == j then none else peek s j)

-- f"agent:lock:{agent_id}"
unfoldable pub lock_key : String → String
lock_key agent_id = String.◌++◌ "agent:lock:" agent_id

-- `redis.call('get', KEYS[1]) == ARGV[1]`
abbrev pub holds_token : Option Token → Token → Bool
holds_token none t = false
holds_token (some u) t = token_eq u t

module _ (redis : LockService) where
  open redis use {Store, peek, del}

  -- _LUA_COMPARE_AND_DELETE
  unfoldable pub compare_and_delete : Store → String → Token → Store
  compare_and_delete s k t = if holds_token (peek s k) t then del s k else s
