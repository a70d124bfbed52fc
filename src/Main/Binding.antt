-- ===== src/Main/Binding.antt =====
-- Which source decides where forwarder/app/main.py listens: the command line, the environment, or the file
-- and the defaults.
use Prim.Native.Nat.{zero, suc}
use mathlib.Core.List.{Memᴰ}
use mathlib.Core.Path.{subst}
use jd_relay.Common.{
  ◌≡◌, ◌≢◌, refl, ap, sym, ◌∙◌, ◌⊎◌, inl, inr, true, Option, none, some, Text, codes, is_truthy,
  Bool-cases,
}
use jd_relay.Common.Int.{ℤ, pos, negsuc}
use jd_relay.Common.Dict.{Dict, lookup}
use jd_relay.Common.Outcome.{Outcome, returned, raised, ◌>>=◌}
use jd_relay.Common.Json.{Value, str, int}
use jd_relay.Config.{ForwarderConfig, Kind, as_text, as_int, file_config, load_config}
use jd_relay.Config.Precedence.{Decided, load_config_decides}
use jd_relay.Main.{Args, Serving, host_or, port_or, read_file, main}

-- A host on the command line that counts as given.
abbrev pub IsHost : Option Text → Text → Type 0
IsHost given host = (given ≡ some host) × (is_truthy host ≡ true)

abbrev pub IsPort : Option ℤ → ℤ → Type 0
IsPort given port = (given ≡ some port) × (port ≢ pos zero)

host_or-cases :
    (given : Option Text) (configured : Option Value)
    → ((host : Text) × IsHost given host × (host_or given configured ≡ some (str host)))
      ⊎ (host_or given configured ≡ configured)
host_or-cases none configured = inr refl
host_or-cases (some host) configured = elim (Bool-cases (is_truthy host)) [
  | inl t ↦ inl (host, (refl, t), rw t refl)
  | inr f ↦ inr (rw f refl)
]

port_or-cases :
    (given : Option ℤ) (configured : Option Value)
    → ((port : ℤ) × IsPort given port × (port_or given configured ≡ some (int port)))
      ⊎ (port_or given configured ≡ configured)
port_or-cases none configured = inr refl
port_or-cases (some (pos zero)) configured = inr refl
port_or-cases (some (pos (suc n))) configured = inl (pos (suc n), (refl, λ h. cc), refl)
port_or-cases (some (negsuc n)) configured = inl (negsuc n, (refl, λ h. cc), refl)

module _ (to_int : Value → Outcome ℤ) (files : Text → Option (Dict (Dict Value))) (env : Dict Text)
    (args : Args) where
  -- What the environment, the file and the defaults make a setting.
  abbrev pub Configured : Text → Text → Kind → Option Value → Type 0
  Configured env_var attr typ value =
      (base : ForwarderConfig) × (file_config to_int (read_file files args.config) ≡ returned base)
      × Decided to_int (lookup env_var env) typ (lookup attr base) value

  -- What `main` makes of a configuration.
  abbrev serve : ForwarderConfig → Serving
  serve config = record {
    host = host_or args.host (lookup (codes "host") config);
    port = port_or args.port (lookup (codes "port") config);
    ecdsa_priv_file = lookup (codes "ecdsa_private_key_file") config;
    ecdsa_pub_file = lookup (codes "ecdsa_public_key_file") config;
    config = config;
  }

  serving :
      (loaded : Outcome ForwarderConfig) (s : Serving)
      → (loaded >>= λ c. returned (serve c)) ≡ returned s
      → (loaded ≡ returned s.config) × (serve s.config ≡ s)
  serving (raised e) s h = cc
  serving (returned c) s h =
      let same : serve c ≡ s = cc in
      let kept : c ≡ s.config = ap (λ x. x.config) same in
      (ap returned kept, ap serve (sym kept) ∙ same)

  -- What was chosen, of a setting that the command line gives or not.
  from :
      {A : Type 0} {P : A → Type 0} {shown : A → Value} (Q : Option Value → Type 0)
      {chosen configured value : Option Value}
      → ((a : A) × P a × (chosen ≡ some (shown a))) ⊎ (chosen ≡ configured)
      → value ≡ chosen
      → Q configured
      → ((a : A) × P a × (value ≡ some (shown a))) ⊎ Q value
  from Q (inl (a, p, e)) same q = inl (a, p, same ∙ e)
  from Q (inr e) same q = inr (subst Q (sym (same ∙ e)) q)

  -- A server that starts listens on the host and the port of the command line, where these are given and
  -- are neither empty nor 0, and otherwise on those of the environment, or else of the file and the
  -- defaults.
  pub main_listens :
      (s : Serving)
      → main to_int files env args ≡ returned s
      → (((host : Text) × IsHost args.host host × (s.host ≡ some (str host)))
          ⊎ Configured (codes "RELAY_HOST") (codes "host") as_text s.host)
        × (((port : ℤ) × IsPort args.port port × (s.port ≡ some (int port)))
            ⊎ Configured (codes "RELAY_PORT") (codes "port") as_int s.port)
  unfolding main
  main_listens s h =
      let (loaded, same) = serving (load_config to_int (read_file files args.config) env) s h in
      let file = read_file files args.config in
      let decide = load_config_decides to_int env file in
      (
        from (Configured (codes "RELAY_HOST") (codes "host") as_text)
            (host_or-cases args.host (lookup (codes "host") s.config)) (ap (λ x. x.host) (sym same))
            (decide (codes "RELAY_HOST") (codes "host") as_text s.config (Memᴰ.head refl) loaded),
        from (Configured (codes "RELAY_PORT") (codes "port") as_int)
            (port_or-cases args.port (lookup (codes "port") s.config)) (ap (λ x. x.port) (sym same))
            (decide (codes "RELAY_PORT") (codes "port") as_int s.config (Memᴰ.tail (Memᴰ.head refl))
              loaded),
      )
