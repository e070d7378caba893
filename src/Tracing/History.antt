-- ===== src/Tracing/History.antt =====
-- What the calls of `configure_tracing` leave behind.
use saga_agents.Common.{
  String, ◌≡◌, ◌⊎◌, inl, inr, refl, ap, ◌∙◌, arith, Bool, true, false, List, [], ◌∷◌, ◌++◌, none,
  some, Bool-cases,
}
use saga_agents.Common.Dict.{lookup, insert, remove, lookup-insert, lookup-remove}
use saga_agents.Common.Result.{Result, returned, raised}
use saga_agents.Config.Models.{LangfuseSettings}
use saga_agents.Tracing.{
  Tracing, Backend, endpoint_key, headers_key, endpoint, headers, has_keys, key_pair, failed,
  after_instrument, after_configure, after_encode, configure_tracing, configure_all,
}

module _ {Logfire : Type 0} where
  -- Neither configured nor half configured.
  pub record IsClean (s : Tracing Logfire) : Type 0 where
    pub unconfigured : s.configured ≡ false
    pub no_endpoint : lookup endpoint_key s.environ ≡ none
    pub no_headers : lookup headers_key s.environ ≡ none

  module _ (backend : Backend Logfire) where
    open backend use {b64encode, configure, instrument}

    -- Configured: logfire, as it stood in `prior`, took the environment with the address and the keys
    -- of these settings, and then the instrumentation of Pydantic AI.
    pub record IsConfiguredBy (cfg : LangfuseSettings) (prior s : Tracing Logfire) : Type 0 where
      pub configured : s.configured ≡ true
      pub keys : has_keys cfg ≡ true
      pub address : lookup endpoint_key s.environ ≡ some (endpoint cfg)
      pub credentials : String
      pub encoded : b64encode (key_pair cfg) ≡ returned credentials
      pub authorization : lookup headers_key s.environ ≡ some (headers credentials)
      pub exporting : Logfire
      pub taken : configure s.environ prior.logfire ≡ (exporting, returned tt)
      pub instrumented : instrument exporting ≡ (s.logfire, returned tt)

    abbrev Ends : LangfuseSettings → Tracing Logfire → Tracing Logfire × Bool → Type 0
    Ends cfg prior (s, b) = (IsClean s × (b ≡ false)) ⊎ (IsConfiguredBy cfg prior s × (b ≡ true))

    -- A failure takes both variables away.
    failed-IsClean : (s : Tracing Logfire) → s.configured ≡ false → IsClean (failed s).0
    unfolding failed
    failed-IsClean s off = record {
      unconfigured = off;
      no_endpoint =
          lookup-remove headers_key endpoint_key (remove endpoint_key s.environ)
          ∙ lookup-remove endpoint_key endpoint_key s.environ;
      no_headers = lookup-remove headers_key headers_key (remove endpoint_key s.environ);
    }

    failed-Ends :
        (cfg : LangfuseSettings) (prior s : Tracing Logfire)
        → s.configured ≡ false
        → Ends cfg prior (failed s)
    unfolding failed
    failed-Ends cfg prior s off = inl (failed-IsClean s off, refl)

    module _ (cfg : LangfuseSettings) (keys : has_keys cfg ≡ true) (prior : Tracing Logfire) where
      module _ (credentials : String) (encoded : b64encode (key_pair cfg) ≡ returned credentials)
          (s : Tracing Logfire) (off : s.configured ≡ false)
          (address : lookup endpoint_key s.environ ≡ some (endpoint cfg))
          (authorization : lookup headers_key s.environ ≡ some (headers credentials)) where
        after_instrument-Ends :
            (r : Logfire × Result (Unit {0}))
            → configure s.environ prior.logfire ≡ (s.logfire, returned tt)
            → instrument s.logfire ≡ r
            → Ends cfg prior (after_instrument backend s r)
        after_instrument-Ends (logfire, returned done) taken instrumented = inr (
          record {
            configured = refl;
            keys = keys;
            address = address;
            credentials = credentials;
            encoded = encoded;
            authorization = authorization;
            exporting = s.logfire;
            taken = taken;
            instrumented = instrumented;
          },
          refl,
        )
        after_instrument-Ends (logfire, raised e) taken instrumented =
            failed-Ends cfg prior (record s { logfire = logfire }) off

      after_configure-Ends :
          (credentials : String) (encoded : b64encode (key_pair cfg) ≡ returned credentials)
          (s : Tracing Logfire) (off : s.configured ≡ false)
          (address : lookup endpoint_key s.environ ≡ some (endpoint cfg))
          (authorization : lookup headers_key s.environ ≡ some (headers credentials))
          (r : Logfire × Result (Unit {0}))
          → configure s.environ prior.logfire ≡ r
          → Ends cfg prior (after_configure backend s r)
      after_configure-Ends credentials encoded s off address authorization (logfire, returned done)
            taken =
          after_instrument-Ends credentials encoded (record s { logfire = logfire }) off address
            authorization (instrument logfire) taken refl
      after_configure-Ends credentials encoded s off address authorization (logfire, raised e)
            taken =
          failed-Ends cfg prior (record s { logfire = logfire }) off

      after_encode-Ends :
          (r : Result String)
          → prior.configured ≡ false
          → b64encode (key_pair cfg) ≡ r
          → Ends cfg prior (after_encode backend cfg prior r)
      after_encode-Ends (raised e) off encoded = failed-Ends cfg prior prior off
      after_encode-Ends (returned credentials) off encoded =
          let with_endpoint = insert endpoint_key (endpoint cfg) prior.environ in
          let environ = insert headers_key (headers credentials) with_endpoint in
          after_configure-Ends credentials encoded (record prior { environ = environ }) off
            (lookup-insert headers_key endpoint_key (headers credentials) with_endpoint
              ∙ lookup-insert endpoint_key endpoint_key (endpoint cfg) prior.environ)
            (lookup-insert headers_key headers_key (headers credentials) with_endpoint)
            (configure environ prior.logfire) refl

    configure_tracing-Ends :
        (cfg : LangfuseSettings) (s : Tracing Logfire)
        → IsClean s
        → Ends cfg s (configure_tracing backend cfg s)
    unfolding configure_tracing
    configure_tracing-Ends cfg s clean = elim (Bool-cases (has_keys cfg)) [
      | inl keys ↦
          simp (keys, clean.unconfigured)
            (after_encode-Ends cfg keys s (b64encode (key_pair cfg)) clean.unconfigured refl)
      | inr missing ↦ simp missing (inl (clean, refl))
    ]

    configured_once :
        (cfg : LangfuseSettings) (s : Tracing Logfire)
        → s.configured ≡ true
        → (configure_tracing backend cfg s).0 ≡ s
    unfolding configure_tracing
    configured_once cfg s on = ground arith

    configured_all :
        (cfgs : List LangfuseSettings) (s : Tracing Logfire)
        → s.configured ≡ true
        → configure_all backend cfgs s ≡ s
    unfolding configure_all
    configured_all [] s on = refl
    configured_all (cfg ∷ cfgs) s on =
        let same = configured_once cfg s on in
        ap (configure_all backend cfgs) same ∙ configured_all cfgs s on

    -- Calls from a clean state end clean; or one of them configured logfire: all calls before it left
    -- a clean state, `logfire.configure` took the environment with both variables set from its
    -- settings, `instrument_pydantic_ai` returned behind it, and no later call changed anything.
    pub configure_all-cases :
        (cfgs : List LangfuseSettings) (s : Tracing Logfire)
        → IsClean s
        → IsClean (configure_all backend cfgs s)
          ⊎ ((before after : List LangfuseSettings) × (cfg : LangfuseSettings) × (cfgs
                ≡ before ++ cfg ∷ after)
              × IsClean (configure_all backend before s)
              × (configure_all backend cfgs s
                  ≡ (configure_tracing backend cfg (configure_all backend before s)).0)
              × IsConfiguredBy cfg (configure_all backend before s) (configure_all backend cfgs s))
    unfolding configure_all
    configure_all-cases [] s clean = inl clean
    configure_all-cases (cfg ∷ cfgs) s clean = elim (configure_tracing-Ends cfg s clean) [
      | inr (by, result) ↦
          let rest = configured_all cfgs (configure_tracing backend cfg s).0 by.configured in
          inr ([], cfgs, cfg, refl, clean, rest, rw rest by)
      | inl (still, result) ↦
          elim (configure_all-cases cfgs (configure_tracing backend cfg s).0 still) [
            | inl ends ↦ inl ends
            | inr (before, after, by, split, is_clean, same, final) ↦
                inr (cfg ∷ before, after, by, ap (λ xs. cfg ∷ xs) split, is_clean, same, final)
          ]
    ]
