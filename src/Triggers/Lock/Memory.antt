-- ===== src/Triggers/Lock/Memory.antt =====
-- A Redis that keeps its locks in a function: the laws of the lock service can hold.
use saga_agents.Common.{
  String, ◌==◌, ◌≡◌, refl, Bool, true, false, Option, none, some, if◌then◌else◌,
}
use saga_agents.Triggers.Lock.{LockService, Token}

abbrev pub Locks : Type 0
Locks = String → Option Token

abbrev pub put : Locks → String → Token → Option Token → Locks × Bool
put s k t none = (λ j. if k == j then some t else s j, true)
put s k t (some u) = (s, false)

pub put-free :
    (s : Locks) (k : String) (t : Token) (o : Option Token) → o ≡ none → (put s k t o).1 ≡ true
put-free s k t none e = refl
put-free s k t (some u) e = cc

pub put-taken :
    (s : Locks) (k : String) (t u : Token) (o : Option Token) → o ≡ some u → (put s k t o).1 ≡ false
put-taken s k t u none e = cc
put-taken s k t u (some v) e = refl

pub put_free :
    (s : Locks) (k : String) (t : Token) (j : String) (o : Option Token)
    → o ≡ none
    → (put s k t o).0 j ≡ (if k == j then some t else s j)
put_free s k t j none e = refl
put_free s k t j (some u) e = cc

pub put_taken :
    (s : Locks) (k : String) (t u : Token) (j : String) (o : Option Token)
    → o ≡ some u
    → (put s k t o).0 j ≡ s j
put_taken s k t u j none e = cc
put_taken s k t u j (some v) e = refl

abbrev pub memory : LockService
memory = record {
  Store = Locks;
  peek = λ s k. s k;
  set_nx = λ s k t. put s k t (s k);
  del = λ s k j. if k == j then none else s j;
  set_nx_free = λ s k t e. put-free s k t (s k) e;
  set_nx_taken = λ s k t u e. put-taken s k t u (s k) e;
  peek-set_nx_free = λ s k t j e. put_free s k t j (s k) e;
  peek-set_nx_taken = λ s k t u j e. put_taken s k t u j (s k) e;
  peek-del = λ s k j. refl;
}

abbrev pub no_locks : Locks
no_locks k = none
