-- ===== src/Tracing/Tests.antt =====
-- Three calls: one without keys, one that logfire refuses, and one that it takes.
use saga_agents.Common.{ℕ, zero, suc, ◌≡◌, ◌⊎◌, refl, true, false, List, [], ◌∷◌, ◌++◌, String}
use saga_agents.Common.Dict.{lookup, insert, remove}
use saga_agents.Common.Result.{Result, returned, raised}
use saga_agents.Config.Models.{LangfuseSettings}
use saga_agents.Tracing.{
  Tracing, Backend, configure_tracing, configure_all, failed, endpoint, rstrip_slash,
}
use saga_agents.Tracing.History.{IsClean, IsConfiguredBy, configure_all-cases}

abbrev settings : String → String → LangfuseSettings
settings public_key host = record { public_key = public_key; secret_key = "sk"; host = host }

abbrev ready : ℕ → Result (Unit {0})
ready zero = raised "no exporter"
ready (suc n) = returned tt

-- A logfire that counts the calls, and refuses the first.
abbrev counting : Backend ℕ
counting = record {
  b64encode = λ text. returned text;
  configure = λ environ n. (suc n, ready n);
  instrument = λ n. (n, returned tt);
}

abbrev fresh : Tracing ℕ
fresh = record { environ = []; configured = false; logfire = 0 }

abbrev calls : List LangfuseSettings
calls = settings "" "h" ∷ settings "pk" "https://h//" ∷ settings "pk" "https://h//" ∷ []

configured_at_third : configure_all counting calls fresh ≡ record {
  environ =
      ("OTEL_EXPORTER_OTLP_ENDPOINT", "https://h/api/public/otel")
      ∷ ("OTEL_EXPORTER_OTLP_HEADERS", "Authorization=Basic pk:sk")
      ∷ [];
  configured = true;
  logfire = 2;
}
unfolding configure_all configure_tracing failed endpoint rstrip_slash insert remove
configured_at_third = refl

fresh-IsClean : IsClean fresh
unfolding lookup
fresh-IsClean = record { unconfigured = refl; no_endpoint = refl; no_headers = refl }

configure_all-cases_example :
    IsClean (configure_all counting calls fresh)
    ⊎ ((before after : List LangfuseSettings) × (cfg : LangfuseSettings) × (calls
          ≡ before ++ cfg ∷ after)
        × IsClean (configure_all counting before fresh)
        × (configure_all counting calls fresh
            ≡ (configure_tracing counting cfg (configure_all counting before fresh)).0)
        × IsConfiguredBy counting cfg
            (configure_all counting before fresh)
            (configure_all counting calls fresh))
configure_all-cases_example = configure_all-cases counting calls fresh fresh-IsClean
