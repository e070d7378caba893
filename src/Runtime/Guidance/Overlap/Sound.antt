-- ===== src/Runtime/Guidance/Overlap/Sound.antt =====
-- What the calls of `get` return where they overlap.
use saga_agents.Common.{
  String, ℕ, ◌-◌, ◌<◌, ◌≡◌, ◌≢◌, ap, arith, refl, ◌⊎◌, inl, inr, List, [], ◌∷◌, Option, none, some,
  get_elem?, set, get_elem?-set_cases, get_elem?-concat_cases,
}
use saga_agents.Common.Dict.{Dict}
use saga_agents.Common.Json.{Json}
use saga_agents.Common.Result.{Result, returned, raised}
use saga_agents.Runtime.Guidance.{
  Fetched, fetched, fetch_error, other_error, fetch_cancelled, coerce_guidance, fresh, kept,
}
use saga_agents.Runtime.Guidance.Cache.{Holds, fresh-Holds}
use saga_agents.Runtime.Guidance.Overlap.{
  Waiting, fetching, answered, Call, Provider, CallEvent, begins, ends, begin, finish, finish_if,
  after,
}

module _ (show : Json → String) where
  -- The server's answer to call `j`, there at this time, was this guidance.
  abbrev pub Told : List CallEvent → ℕ → Dict String → ℕ → Type 0
  Told [] j guidance at = ⊥
  Told (begins now ∷ es) j guidance at = Told es j guidance at
  Told (ends i later answer ∷ es) j guidance at =
      ((i ≡ j)
        × (later ≡ at)
        × ((raw : Json) × (answer ≡ returned raw) × (coerce_guidance show raw ≡ fetched guidance)))
      ⊎ Told es j guidance at

  -- It is the answer to call `i` itself, or was less than the TTL old when the call began.
  abbrev pub Current : ℕ → List CallEvent → ℕ → ℕ → Dict String → Type 0
  Current ttl es i began guidance =
      (j : ℕ) × (at : ℕ) × Told es j guidance at × ((j ≡ i) ⊎ (began - at < ttl))

  record IsSound (ttl : ℕ) (es : List CallEvent) (s : Provider) : Type 0 where
    same_ttl : s.provider.ttl ≡ ttl
    cached :
        (guidance : Dict String) (at : ℕ)
        → Holds s.provider guidance at
        → (j : ℕ) × Told es j guidance at
    served :
        (i : ℕ) (c : Call) (guidance : Dict String)
        → get_elem? s.calls i ≡ some c
        → c.waiting ≡ answered (fetched guidance)
        → Current ttl es i c.began guidance

  module _ (ttl : ℕ) (es : List CallEvent) (s : Provider) (sound : IsSound ttl es s) where
    begin-IsSound :
        (now : ℕ) (o : Option (Dict String))
        → fresh now s.provider ≡ o
        → IsSound ttl (begins now ∷ es) (begin now s o)
    begin-IsSound now (some g) e = record {
      same_ttl = sound.same_ttl;
      cached = sound.cached;
      served = λ i c guidance at is. elim (get_elem?-concat_cases s.calls i _ c at) [
        | inl there ↦ sound.served i c guidance there is
        | inr new ↦
            let (t, holds, young) = fresh-Holds now s.provider g e in
            let (j, told) = sound.cached g t holds in
            let same : guidance ≡ g = cc in
            let began : c.began ≡ now = ap (λ x. x.began) new in
            (j, t, rw same told, inr (omega (arith, young, began, sound.same_ttl)))
      ];
    }
    begin-IsSound now none e = record {
      same_ttl = sound.same_ttl;
      cached = sound.cached;
      served = λ i c guidance at is. elim (get_elem?-concat_cases s.calls i _ c at) [
        | inl there ↦ sound.served i c guidance there is
        | inr new ↦ cc
      ];
    }

    later-Current :
        (i began k later : ℕ) (answer : Result Json) (guidance : Dict String)
        → Current ttl es i began guidance
        → Current ttl (ends k later answer ∷ es) i began guidance
    later-Current i began k later answer guidance (j, at, told, why) = (j, at, inr told, why)

    unchanged : (k later : ℕ) (answer : Result Json) → IsSound ttl (ends k later answer ∷ es) s
    unchanged k later answer = record {
      same_ttl = sound.same_ttl;
      cached = λ guidance at holds. let (j, told) = sound.cached guidance at holds in (j, inr told);
      served = λ i c guidance at is.
          later-Current i c.began k later answer guidance (sound.served i c guidance at is);
    }

    module _ (k later : ℕ) (c : Call) (at : get_elem? s.calls k ≡ some c) where
      -- The call has failed, and the cache is as it was.
      failed-IsSound :
          (answer : Result Json) (r : Fetched (Dict String))
          → ((g : Dict String) → r ≢ fetched g)
          → IsSound ttl
              (ends k later answer ∷ es)
              (record s { calls = set s.calls k (record c { waiting = answered r }) })
      failed-IsSound answer r fails = record {
        same_ttl = sound.same_ttl;
        cached = (unchanged k later answer).cached;
        served = λ i d guidance there is.
            elim (get_elem?-set_cases s.calls k i c (record c { waiting = answered r }) d at
              there) [
                | inl (here, new) ↦ absurd (fails guidance (cc))
                | inr (ne, old) ↦ (unchanged k later answer).served i d guidance old is
              ];
      }

      kept-IsSound :
          (raw : Json) (r : Fetched (Dict String))
          → coerce_guidance show raw ≡ r
          → IsSound ttl (ends k later (returned raw) ∷ es) (record {
            provider = (kept later s.provider r).0;
            calls = set s.calls k (record c { waiting = answered (kept later s.provider r).1 });
          })
      kept-IsSound raw (fetched g) e = record {
        same_ttl = sound.same_ttl;
        cached = λ guidance t holds.
            (k, inl (refl, cc (holds.stamped), (raw, refl, cc (e, holds.cached))));
        served = λ i d guidance there is.
            elim (get_elem?-set_cases s.calls k i c (record c { waiting = answered (fetched g) }) d
              at there) [
                | inl (here, new) ↦ (k, later, inl (refl, refl, (raw, refl, cc)), inl here)
                | inr (ne, old) ↦ (unchanged k later (returned raw)).served i d guidance old is
              ];
      }
      kept-IsSound raw (fetch_error x) e = failed-IsSound (returned raw) (fetch_error x) (λ g h. cc)
      kept-IsSound raw (other_error x) e = failed-IsSound (returned raw) (other_error x) (λ g h. cc)
      kept-IsSound raw fetch_cancelled e = failed-IsSound (returned raw) fetch_cancelled (λ g h. cc)

      finish-IsSound :
          (answer : Result Json) (w : Waiting)
          → IsSound ttl (ends k later answer ∷ es) (finish show k later answer c w s)
      finish-IsSound (returned raw) fetching = kept-IsSound raw (coerce_guidance show raw) refl
      finish-IsSound (raised e) fetching = failed-IsSound (raised e) (fetch_error _) (λ g h. cc)
      finish-IsSound answer (answered r) = unchanged k later answer

    finish_if-IsSound :
        (k later : ℕ) (answer : Result Json) (o : Option Call)
        → get_elem? s.calls k ≡ o
        → IsSound ttl (ends k later answer ∷ es) (finish_if show k later answer s o)
    finish_if-IsSound k later answer none e = unchanged k later answer
    finish_if-IsSound k later answer (some c) e = finish-IsSound k later c e answer c.waiting

  after-IsSound : (ttl : ℕ) (es : List CallEvent) → IsSound ttl es (after show ttl es)
  unfolding after
  after-IsSound ttl [] = record {
    same_ttl = refl;
    cached = λ guidance at holds. cc (holds.cached);
    served = λ i c guidance at is. cc;
  }
  after-IsSound ttl (begins now ∷ es) =
      begin-IsSound ttl es (after show ttl es) (after-IsSound ttl es) now _ refl
  after-IsSound ttl (ends k later answer ∷ es) =
      finish_if-IsSound ttl es (after show ttl es) (after-IsSound ttl es) k later answer _ refl

  -- However the calls of `get` overlap, and whatever the server answers and in whichever order: the
  -- guidance that a call returns is what the server's answer to this call gave, or its answer to a
  -- call that was there less than the TTL before this call began.
  pub after-Current :
      (ttl : ℕ) (es : List CallEvent) (i : ℕ) (c : Call) (guidance : Dict String)
      → get_elem? (after show ttl es).calls i ≡ some c
      → c.waiting ≡ answered (fetched guidance)
      → Current ttl es i c.began guidance
  after-Current ttl es = (after-IsSound ttl es).served
