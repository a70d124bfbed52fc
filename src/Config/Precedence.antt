-- ===== src/Config/Precedence.antt =====
-- Which source of forwarder/app/config.py decides a setting.
use mathlib.Core.List.{Memᴰ}
use jd_relay.Common.{
  text_eq_iff, ap, ◌≡◌, refl, ◌∙◌, inl, inr, Bool, true, false, not, ◌&&◌, List, [], ◌∷◌, Option,
  none, some, Text, codes, text_eq, text_eq_refl, arith, Bool-cases, is_truthy, if◌then◌else◌,
}
use jd_relay.Common.Int.{ℤ}
use jd_relay.Common.Dict.{Dict, lookup, insert, lookup-insert}
use jd_relay.Common.Outcome.{Outcome, returned, raised, ◌>>=◌}
use jd_relay.Common.Json.{Value}
use jd_relay.Config.{
  ForwarderConfig, Kind, env_map, apply_approvers, convert, apply_entry, apply_entries, apply_env,
  file_config, load_config,
}

-- Whether an attribute is set by one of the entries.
abbrev sets : Text → List (Text × Text × Kind) → Bool
sets attr [] = false
sets attr ((env_var, a, typ) ∷ entries) = if text_eq a attr then true else sets attr entries

-- No attribute is set twice, and none is that of the approvers.
abbrev is_clean : List (Text × Text × Kind) → Bool
is_clean [] = true
is_clean ((env_var, a, typ) ∷ entries) =
    not (sets a entries) && (not (text_eq (codes "dingtalk_approvers") a) && is_clean entries)

env_map-is_clean : is_clean env_map ≡ true
unfolding text_eq
env_map-is_clean = refl

approvers_aside :
    (names : Option Text) (config : ForwarderConfig) (attr : Text)
    → text_eq (codes "dingtalk_approvers") attr ≡ false
    → lookup attr (apply_approvers names config) ≡ lookup attr config
unfolding apply_approvers
approvers_aside none config attr h = refl
approvers_aside (some names) config attr h = elim (Bool-cases (is_truthy names)) [
  | inl t ↦ rw t (lookup-insert _ attr _ config ∙ rw h refl)
  | inr f ↦ rw f refl
]

-- What a variable of the environment makes of a setting that was `before`.
unfoldable pub Decided :
    (Value → Outcome ℤ) → Option Text → Kind → Option Value → Option Value → Type 0
Decided to_int none typ before after = after ≡ before
Decided to_int (some v) typ before after =
    (x : Value) × (convert to_int typ v ≡ returned x) × (after ≡ some x)

module _ (to_int : Value → Outcome ℤ) (env : Dict Text) where
  bind-returned {ℓ κ} :
      {A : Type ℓ} {B : Type κ} (o : Outcome A) (f : A → Outcome B) {b : B}
      → (o >>= f) ≡ returned b
      → (a : A) × (o ≡ returned a) × (f a ≡ returned b)
  bind-returned (returned a) f h = (a, refl, h)
  bind-returned (raised x) f h = cc

  entry-other :
      (value : Option Text) (a attr : Text) (typ : Kind) (config c : ForwarderConfig)
      → text_eq a attr ≡ false
      → apply_entry to_int value a typ config ≡ returned c
      → lookup attr c ≡ lookup attr config
  unfolding apply_entry
  entry-other none a attr typ config c n h = cc
  entry-other (some v) a attr typ config c n h =
      let (x, e, p) = bind-returned (convert to_int typ v) _ h in
      let same : insert a x config ≡ c = cc in
      rw (← same) (lookup-insert a attr x config ∙ rw n refl)

  entry-own :
      (value : Option Text) (attr : Text) (typ : Kind) (config c : ForwarderConfig)
      → apply_entry to_int value attr typ config ≡ returned c
      → Decided to_int value typ (lookup attr config) (lookup attr c)
  unfolding apply_entry Decided
  entry-own none attr typ config c h = cc
  entry-own (some v) attr typ config c h =
      let (x, e, p) = bind-returned (convert to_int typ v) _ h in
      let same : insert attr x config ≡ c = cc in
      (x, e, rw (← same) (lookup-insert attr attr x config ∙ rw (text_eq_refl attr) refl))

  entries-other :
      (entries : List (Text × Text × Kind)) (attr : Text) (config c : ForwarderConfig)
      → sets attr entries ≡ false
      → apply_entries to_int entries env config ≡ returned c
      → lookup attr c ≡ lookup attr config
  unfolding apply_entries
  entries-other [] attr config c n h = cc
  entries-other ((env_var, a, typ) ∷ entries) attr config c n h =
      let (d, e, p) = bind-returned (apply_entry to_int (lookup env_var env) a typ config) _ h in
      entries-other entries attr d c (ground arith) p
      ∙ entry-other (lookup env_var env) a attr typ config d (ground arith) e

  other-attr :
      (entries : List (Text × Text × Kind)) (env_var attr a : Text) (typ : Kind)
      → Memᴰ (env_var, attr, typ) entries
      → sets a entries ≡ false
      → text_eq a attr ≡ false
  other-attr [] env_var attr a typ x n = elim x [ ]
  other-attr ((v, b, t) ∷ entries) env_var attr a typ (Memᴰ.head e) n =
      let same : attr ≡ b = ap (λ x. x.1) e in
      ground (arith, text_eq_iff a attr, text_eq_iff attr a)
  other-attr ((v, b, t) ∷ entries) env_var attr a typ (Memᴰ.tail m) n =
      other-attr entries env_var attr a typ m (ground arith)

  entries_decide :
      (entries : List (Text × Text × Kind)) (env_var attr : Text) (typ : Kind)
      (config c : ForwarderConfig)
      → Memᴰ (env_var, attr, typ) entries
      → is_clean entries ≡ true
      → apply_entries to_int entries env config ≡ returned c
      → Decided to_int (lookup env_var env) typ (lookup attr config) (lookup attr c)
  unfolding apply_entries
  entries_decide [] env_var attr typ config c x clean h = elim x [ ]
  entries_decide ((v, a, t) ∷ entries) env_var attr typ config c (Memᴰ.head m) clean h =
      let (d, e, p) = bind-returned (apply_entry to_int (lookup v env) a t config) _ h in
      let same_var : env_var ≡ v = ap (λ x. x.0) m in
      let same_attr : attr ≡ a = ap (λ x. x.1) m in
      let same_typ : typ ≡ t = ap (λ x. x.2) m in
      let kept : lookup a c ≡ lookup a d = entries-other entries a d c (ground arith) p in
      rw (same_var, same_attr, same_typ, kept) (entry-own (lookup v env) a t config d e)
  entries_decide ((v, a, t) ∷ entries) env_var attr typ config c (Memᴰ.tail m) clean h =
      let (d, e, p) = bind-returned (apply_entry to_int (lookup v env) a t config) _ h in
      let kept : lookup attr d ≡ lookup attr config =
        entry-other (lookup v env) a attr t config d
          (other-attr entries env_var attr a typ m (ground arith)) e in
      rw (← kept) (entries_decide entries env_var attr typ d c m (ground arith) p)

  not_approvers :
      (entries : List (Text × Text × Kind)) (env_var attr : Text) (typ : Kind)
      → Memᴰ (env_var, attr, typ) entries
      → is_clean entries ≡ true
      → text_eq (codes "dingtalk_approvers") attr ≡ false
  not_approvers [] env_var attr typ x clean = elim x [ ]
  not_approvers ((v, a, t) ∷ entries) env_var attr typ (Memᴰ.head m) clean =
      let same : attr ≡ a = ap (λ x. x.1) m in rw same (ground arith)
  not_approvers ((v, a, t) ∷ entries) env_var attr typ (Memᴰ.tail m) clean =
      not_approvers entries env_var attr typ m (ground arith)

  -- In a configuration that was loaded, each setting of the environment's table, which has all but the
  -- list of approvers, is the value of its variable, converted, if that is set, and otherwise what the
  -- file and the defaults make it.
  pub load_config_decides :
      (file : Option (Dict (Dict Value))) (env_var attr : Text) (typ : Kind) (c : ForwarderConfig)
      → Memᴰ (env_var, attr, typ) env_map
      → load_config to_int file env ≡ returned c
      → (base : ForwarderConfig) × (file_config to_int file ≡ returned base)
        × Decided to_int (lookup env_var env) typ (lookup attr base) (lookup attr c)
  unfolding load_config apply_env
  load_config_decides file env_var attr typ c m h =
      let (base, e, p) = bind-returned (file_config to_int file) _ h in
      let (d, f, q) = bind-returned (apply_entries to_int env_map env base) _ p in
      let names = lookup (codes "RELAY_DINGTALK_APPROVERS") env in
      let same : apply_approvers names d ≡ c = cc in
      let aside = not_approvers env_map env_var attr typ m env_map-is_clean in
      let kept : lookup attr c ≡ lookup attr d = rw (← same) (approvers_aside names d attr aside) in
      (base, e, rw kept (entries_decide env_map env_var attr typ base d m env_map-is_clean f))
