-- ===== src/Tests/Settings.antt =====
-- A configuration whose port comes from the environment.
use mathlib.Core.List.{Memᴰ}
use jd_relay.Common.{ℕ, ◌+◌, ◌-◌, ◌*◌, ◌≡◌, refl, [], ◌∷◌, some, Text, codes, text_eq}
use jd_relay.Common.Int.{ℤ, pos}
use jd_relay.Common.Dict.{Dict, lookup, insert}
use jd_relay.Common.Outcome.{Outcome, returned, raised, type_error}
use jd_relay.Common.Json.{Value, str, int}
use jd_relay.Config.{
  ForwarderConfig, default_config, file_config, load_config, as_int, apply_env, apply_entries,
  apply_entry, apply_approvers, convert, apply_toml, apply_server, apply_crypto, apply_dingtalk,
  apply_jenkins, apply_admin, set_from,
}
use jd_relay.Config.Precedence.{Decided, load_config_decides}

abbrev decimal : ℕ → Text → ℕ
decimal n [] = n
decimal n (c ∷ s) = decimal (n * 10 + (c - b'0')) s

abbrev to_int : Value → Outcome ℤ
to_int (int n) = returned n
to_int (str s) = returned (pos (decimal 0 s))
to_int _ = raised type_error

abbrev environment : Dict Text
environment = (codes "RELAY_PORT", codes "9000") ∷ []

abbrev file : Dict (Dict Value)
file = (codes "server", (codes "port", int (pos 8080)) ∷ []) ∷ []

abbrev config : ForwarderConfig
config = insert (codes "port") (int (pos 9000)) default_config

config_loaded : load_config to_int (some file) environment ≡ returned config
unfolding load_config file_config apply_env apply_entries apply_entry apply_approvers convert
    apply_toml apply_server apply_crypto apply_dingtalk apply_jenkins apply_admin set_from lookup
    insert text_eq
config_loaded = refl

load_config_decides_example :
    (base : ForwarderConfig) × (file_config to_int (some file) ≡ returned base)
    × Decided to_int
        (some (codes "9000"))
        as_int
        (lookup (codes "port") base)
        (lookup (codes "port") config)
unfolding lookup text_eq
load_config_decides_example =
    load_config_decides to_int environment (some file) (codes "RELAY_PORT") (codes "port") as_int
      config (Memᴰ.tail (Memᴰ.head refl)) config_loaded
