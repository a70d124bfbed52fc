-- ===== src/Main.antt =====
-- The entry point, forwarder/app/main.py: where the server listens and what it is made from. The parsed
-- command line is an argument, and `files` gives the parsed file at a path, or `none` where there is no file.
pub mod Binding
use Prim.Native.Nat.{zero}
use jd_relay.Common.{
  ◌≡◌, refl, Bool, true, false, not, Option, none, some, Text, codes, is_truthy, if◌then◌else◌, inl,
  inr, Option-cases,
}
use jd_relay.Common.Int.{ℤ, pos}
use jd_relay.Common.Dict.{Dict, lookup}
use jd_relay.Common.Outcome.{Outcome, returned, raised, ◌>>=◌}
use jd_relay.Common.Json.{Value, str, int}
use jd_relay.Config.{ForwarderConfig, load_config}

pub record Args : Type 0 where
  pub config : Option Text
  pub host : Option Text
  pub port : Option ℤ

-- What uvicorn and the server get.
pub record Serving : Type 0 where
  pub host : Option Value
  pub port : Option Value
  pub ecdsa_priv_file : Option Value
  pub ecdsa_pub_file : Option Value
  pub config : ForwarderConfig

-- `args.host or config.host`
abbrev pub host_or : Option Text → Option Value → Option Value
host_or none configured = configured
host_or (some host) configured = if is_truthy host then some (str host) else configured

-- `args.port or config.port`
abbrev pub port_or : Option ℤ → Option Value → Option Value
port_or none configured = configured
port_or (some (pos zero)) configured = configured
port_or (some port) configured = some (int port)

abbrev pub read_file :
    (Text → Option (Dict (Dict Value))) → Option Text → Option (Dict (Dict Value))
read_file files none = none
read_file files (some path) = if is_truthy path then files path else none

unfoldable pub main :
    (Value → Outcome ℤ) → (Text → Option (Dict (Dict Value))) → Dict Text → Args → Outcome Serving
main to_int files env args = do
  config ← load_config to_int (read_file files args.config) env
  returned (record {
    host = host_or args.host (lookup (codes "host") config);
    port = port_or args.port (lookup (codes "port") config);
    ecdsa_priv_file = lookup (codes "ecdsa_private_key_file") config;
    ecdsa_pub_file = lookup (codes "ecdsa_public_key_file") config;
    config = config;
  })
