-- ===== src/Runtime/Guidance/Cache.antt =====
-- The cache of the guidance: what `get` answers, and how old it is.
use Prim.Native.Nat.{◌-◌}
use saga_agents.Common.{
  ℕ, ◌≡◌, ◌<◌, ◌⊎◌, refl, sym, ◌∙◌, ap, arith, String, Option, none, some, inl, inr, ltb,
  if◌then◌else◌, Bool, true, false,
}
use saga_agents.Common.Dict.{Dict}
use saga_agents.Common.Json.{Json}
use saga_agents.Common.Result.{Result, returned, raised}
use saga_agents.Runtime.Guidance.{
  Fetched, fetched, fetch_error, other_error, fetch_cancelled, coerce_guidance, GuidanceProvider,
  served, fresh, kept, after_fetch, get_or_fetch, get,
}

-- The cache holds the guidance, read at that time.
pub record Holds (p : GuidanceProvider) (guidance : Dict String) (at : ℕ) : Type 0 where
  pub cached : p.cache ≡ some guidance
  pub stamped : p.fetched_at ≡ some at

if-eq-some :
    (b : Bool) (g guidance : Dict String)
    → (if b then some g else none) ≡ some guidance
    → (b ≡ true) × (some g ≡ some guidance)
if-eq-some true g guidance h = (refl, h)
if-eq-some false g guidance h = cc

served-some :
    (now ttl : ℕ) (cache : Option (Dict String)) (fetched_at : Option ℕ) (guidance : Dict String)
    → served now ttl cache fetched_at ≡ some guidance
    → (at : ℕ) × (cache ≡ some guidance) × (fetched_at ≡ some at) × (now - at < ttl)
served-some now ttl none at guidance h = cc
served-some now ttl (some g) none guidance h = cc
served-some now ttl (some g) (some at) guidance h =
    let (young, same) = if-eq-some (ltb (now - at) ttl) g guidance h in
    (at, same, refl, ground arith)

pub fresh-Holds :
    (now : ℕ) (p : GuidanceProvider) (guidance : Dict String)
    → fresh now p ≡ some guidance
    → (at : ℕ) × Holds p guidance at × (now - at < p.ttl)
unfolding fresh
fresh-Holds now p guidance h =
    let (at, cached, stamped, young) = served-some now p.ttl p.cache p.fetched_at guidance h in
    (at, record { cached = cached; stamped = stamped }, young)

fresh_if_young :
    (now at : ℕ) (p : GuidanceProvider) (guidance : Dict String)
    → Holds p guidance at
    → now - at < p.ttl
    → fresh now p ≡ some guidance
unfolding fresh
fresh_if_young now at p guidance h young =
    let yes : ltb (now - at) p.ttl ≡ true = ground arith in rw (h.cached, h.stamped) (rw yes)

module _ (show : Json → String) where
  -- The guidance is that of the call just made, or it was read less than the TTL ago.
  abbrev IsCurrent : ℕ → ℕ → Result Json → GuidanceProvider → Dict String → ℕ → Type 0
  IsCurrent now later answer p guidance at =
      ((at ≡ later)
        × ((raw : Json) × (answer ≡ returned raw) × (coerce_guidance show raw ≡ fetched guidance)))
      ⊎ (Holds p guidance at × (now - at < p.ttl))

  kept-fetched :
      (later : ℕ) (p p' : GuidanceProvider) (f : Fetched (Dict String)) (guidance : Dict String)
      → kept later p f ≡ (p', fetched guidance)
      → (f ≡ fetched guidance) × Holds p' guidance later × (p'.ttl ≡ p.ttl)
  kept-fetched later p p' (fetched g) guidance h =
      let same : g ≡ guidance = cc in
      let state : record p { cache = some g; fetched_at = some later } ≡ p' = ap (λ x. x.0) h in
      (
        ap fetched same,
        record {
          cached = sym (ap (λ x. x.cache) state) ∙ ap some same;
          stamped = sym (ap (λ x. x.fetched_at) state);
        },
        sym (ap (λ x. x.ttl) state),
      )
  kept-fetched later p p' (fetch_error e) guidance h = cc
  kept-fetched later p p' (other_error e) guidance h = cc
  kept-fetched later p p' fetch_cancelled guidance h = cc

  after_fetch-fetched :
      (later : ℕ) (p p' : GuidanceProvider) (answer : Result Json) (guidance : Dict String)
      → after_fetch show later p answer ≡ (p', fetched guidance)
      → ((raw : Json) × (answer ≡ returned raw) × (coerce_guidance show raw ≡ fetched guidance))
        × Holds p' guidance later
        × (p'.ttl ≡ p.ttl)
  after_fetch-fetched later p p' (returned raw) guidance h =
      let (e, held, same) = kept-fetched later p p' (coerce_guidance show raw) guidance h in
      ((raw, refl, e), held, same)
  after_fetch-fetched later p p' (raised e) guidance h = cc

  get_or_fetch-fetched :
      (now later : ℕ) (call : Unit {0} → Result Json) (p p' : GuidanceProvider)
      (o : Option (Dict String)) (guidance : Dict String)
      → fresh now p ≡ o
      → get_or_fetch show later call p o ≡ (p', fetched guidance)
      → (at : ℕ) × Holds p' guidance at
        × IsCurrent now later (call tt) p guidance at
        × (p'.ttl ≡ p.ttl)
  get_or_fetch-fetched now later call p p' none guidance e h =
      let (answered, held, same) = after_fetch-fetched later p p' (call tt) guidance h in
      (later, held, inl (refl, answered), same)
  get_or_fetch-fetched now later call p p' (some g) guidance e h =
      let same : g ≡ guidance = cc in
      let state : p ≡ p' = ap (λ x. x.0) h in
      let (at, held, young) = fresh-Holds now p guidance (e ∙ ap some same) in
      (at, rw (sym state) held, inr (held, young), rw state refl)

  -- The guidance that `get` returns is what the call just made gave, stamped with the second reading
  -- of the clock, or the cached one, read less than the TTL before the first reading; and the cache
  -- then holds it with that time.
  get-IsCurrent :
      (now later : ℕ) (call : Unit {0} → Result Json) (p p' : GuidanceProvider)
      (guidance : Dict String)
      → get show now later call p ≡ (p', fetched guidance)
      → (at : ℕ) × Holds p' guidance at
        × IsCurrent now later (call tt) p guidance at
        × (p'.ttl ≡ p.ttl)
  unfolding get
  get-IsCurrent now later call p p' guidance h =
      get_or_fetch-fetched now later call p p' (fresh now p) guidance refl h

  got :
      (now later : ℕ) (call : Unit {0} → Result Json) (p : GuidanceProvider)
      (guidance : Dict String)
      → fresh now p ≡ some guidance
      → get show now later call p ≡ (p, fetched guidance)
  unfolding get
  got now later call p guidance e = ap (get_or_fetch show later call p) e

  -- After a `get` that returned, another within the TTL of that reading returns the same guidance
  -- and changes nothing, whatever the server would answer.
  get_again :
      (now later now' later' : ℕ) (call call' : Unit {0} → Result Json) (p p' : GuidanceProvider)
      (guidance : Dict String)
      → get show now later call p ≡ (p', fetched guidance)
      → ((at : ℕ) → p'.fetched_at ≡ some at → now' - at < p.ttl)
      → get show now' later' call' p' ≡ (p', fetched guidance)
  get_again now later now' later' call call' p p' guidance h young =
      let (at, held, current, ttl) = get-IsCurrent now later call p p' guidance h in
      got now' later' call' p' guidance (
        fresh_if_young now' at p' guidance held
          (let less = young at held.stamped in omega (arith, ttl, less)))
