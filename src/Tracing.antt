-- ===== src/Tracing.antt =====
-- src/saga_agents/tracing/langfuse.py. Base 64 and logfire are parameters: what `logfire.configure`
-- does with the environment that it reads, and `logfire.instrument_pydantic_ai`.
pub mod History
mod Tests
use Prim.Native.Char.{Char}
use Prim.Native.String
use saga_agents.Common.{
  String, ◌==◌, Bool, true, false, not, ◌&&◌, ◌||◌, List, [], ◌∷◌, if◌then◌else◌,
}
use saga_agents.Common.Dict.{Dict, insert, remove}
use saga_agents.Common.Result.{Result, returned, raised}
use saga_agents.Config.Models.{LangfuseSettings}

-- The environment of the process, `_configured`, and what logfire keeps.
pub record Tracing (Logfire : Type 0) : Type 0 where
  pub environ : Dict String
  pub configured : Bool
  pub logfire : Logfire

-- logfire and base 64, as the function calls them.
pub record Backend (Logfire : Type 0) : Type 0 where
  pub b64encode : String → Result String
  pub configure : Dict String → Logfire → Logfire × Result (Unit {0})
  pub instrument : Logfire → Logfire × Result (Unit {0})

abbrev pub endpoint_key : String
endpoint_key = "OTEL_EXPORTER_OTLP_ENDPOINT"

abbrev pub headers_key : String
headers_key = "OTEL_EXPORTER_OTLP_HEADERS"

-- `cfg.host.rstrip('/')`
unfoldable pub rstrip_slash : String → String
rstrip_slash String.[] = String.[]
rstrip_slash (String.◌∷◌ c s) =
    let rest = rstrip_slash s in if String.◌∷◌ c rest == "/" then "" else String.◌∷◌ c rest

unfoldable pub endpoint : LangfuseSettings → String
unfolding rstrip_slash
endpoint cfg = String.◌++◌ (rstrip_slash cfg.host) "/api/public/otel"

abbrev pub headers : String → String
headers credentials = String.◌++◌ "Authorization=Basic " credentials

-- `cfg.public_key and cfg.secret_key`
abbrev pub has_keys : LangfuseSettings → Bool
has_keys cfg = not (cfg.public_key == "") && not (cfg.secret_key == "")

abbrev pub key_pair : LangfuseSettings → String
key_pair cfg = String.◌++◌ cfg.public_key (String.◌++◌ ":" cfg.secret_key)

module _ {Logfire : Type 0} where
  -- The `except` branch.
  unfoldable pub failed : Tracing Logfire → Tracing Logfire × Bool
  failed s = (record s { environ = remove headers_key (remove endpoint_key s.environ) }, false)

  module _ (backend : Backend Logfire) where
    open backend use {b64encode, configure, instrument}

    abbrev pub after_instrument :
        Tracing Logfire → Logfire × Result (Unit {0}) → Tracing Logfire × Bool
    after_instrument s (logfire, returned done) =
        (record s { logfire = logfire; configured = true }, true)
    after_instrument s (logfire, raised e) = failed (record s { logfire = logfire })

    abbrev pub after_configure :
        Tracing Logfire → Logfire × Result (Unit {0}) → Tracing Logfire × Bool
    after_configure s (logfire, returned done) =
        after_instrument (record s { logfire = logfire }) (instrument logfire)
    after_configure s (logfire, raised e) = failed (record s { logfire = logfire })

    -- The `try` block, behind the encoding of the keys.
    abbrev pub after_encode :
        LangfuseSettings → Tracing Logfire → Result String → Tracing Logfire × Bool
    after_encode cfg s (raised e) = failed s
    after_encode cfg s (returned credentials) =
        let environ =
          insert headers_key (headers credentials) (insert endpoint_key (endpoint cfg) s.environ) in
        after_configure (record s { environ = environ }) (configure environ s.logfire)

    unfoldable pub configure_tracing : LangfuseSettings → Tracing Logfire → Tracing Logfire × Bool
    unfolding endpoint failed
    configure_tracing cfg s =
        if has_keys cfg
        then if s.configured then (s, true) else after_encode cfg s (b64encode (key_pair cfg))
        else (s, false)

    -- Calls with these settings, one after the other.
    unfoldable pub configure_all : List LangfuseSettings → Tracing Logfire → Tracing Logfire
    configure_all [] s = s
    configure_all (cfg ∷ cfgs) s = configure_all cfgs (configure_tracing cfg s).0
