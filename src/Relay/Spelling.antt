-- ===== src/Relay/Spelling.antt =====
-- What a decision and a build status ask for in forwarder/app/services/relay.py, stated apart from the
-- code: a build status is read in any case of letters.
use jd_relay.Common.{
  ℕ, ◌+◌, ◌-◌, ◌≡◌, if◌then◌else◌, refl, ◌⊎◌, inl, inr, true, false, ◌&&◌, [], ◌∷◌, none, some,
  Text, codes, text_eq, text_eq_iff, text_decided, leb, All, arith, Bool-cases,
}
use jd_relay.WorkOrder.{WorkOrderState, success, failed}
use jd_relay.Relay.Forms.{upper_char, upper, build_target}

-- The state that a decision asks for: one where it agrees, another for any other text.
abbrev pub Decides : WorkOrderState → WorkOrderState → Text → WorkOrderState → Type 0
Decides agreed other text t =
    ((text ≡ codes "agree") × (t ≡ agreed)) ⊎ ((¬ (text ≡ codes "agree")) × (t ≡ other))

pub decided :
    (agreed other : WorkOrderState) (text : Text)
    → Decides agreed other text (if text_eq text (codes "agree") then agreed else other)
decided agreed other text = elim (text_decided text (codes "agree")) [
  | inl (a, e) ↦ rw e (inl (a, refl))
  | inr (a, e) ↦ rw e (inr (a, refl))
]

-- The text is the word in capitals, each letter written large or small.
abbrev pub Spells : Text → Text → Type 0
Spells [] [] = Unit {0}
Spells [] (d ∷ word) = ⊥
Spells (c ∷ text) [] = ⊥
Spells (c ∷ text) (d ∷ word) = ((c ≡ d) ⊎ (c ≡ d + 32)) × Spells text word

-- The state that a build status asks for.
abbrev pub Reports : Text → WorkOrderState → Type 0
Reports status t =
    (Spells status (codes "SUCCESS") × (t ≡ success))
    ⊎ (Spells status (codes "FAILED") × (t ≡ failed))

abbrev IsCapital : ℕ → Type 0
IsCapital d = (leb b'A' d && leb d b'Z') ≡ true

upper-Spells : (text word : Text) → upper text ≡ word → All IsCapital word → Spells text word
unfolding upper upper_char
upper-Spells [] [] e h = tt
upper-Spells [] (d ∷ word) e h = cc
upper-Spells (c ∷ text) [] e h = cc
upper-Spells (c ∷ text) (d ∷ word) e (k, h) =
    (ground arith, upper-Spells text word (ground arith) h)

Spells-upper : (text word : Text) → Spells text word → All IsCapital word → upper text ≡ word
unfolding upper upper_char
Spells-upper [] [] s h = refl
Spells-upper [] (d ∷ word) s h = absurd s
Spells-upper (c ∷ text) [] s h = absurd s
Spells-upper (c ∷ text) (d ∷ word) (e, s) (k, h) =
    let first : (if leb b'a' c && leb c b'z' then c - 32 else c) ≡ d = ground arith in
    rw first (rw (Spells-upper text word s h) refl)

-- The spelling, with what `upper` makes of it.
Spells-cases :
    (status word : Text)
    → All IsCapital word
    → (Spells status word × (text_eq (upper status) word ≡ true))
      ⊎ ((¬ Spells status word) × (text_eq (upper status) word ≡ false))
Spells-cases status word h = elim (Bool-cases (text_eq (upper status) word)) [
  | inl e ↦ inl (upper-Spells status word ((text_eq_iff (upper status) word).0 e) h, e)
  | inr e ↦ inr (λ s. cc ((text_eq_iff (upper status) word).1 (Spells-upper status word s h)), e)
]

-- What is made of a build status, case by case.
pub build_target-cases :
    (status : Text)
    → ((t : WorkOrderState) × (build_target status ≡ some t) × Reports status t)
      ⊎ ((build_target status ≡ none)
          × (¬ Spells status (codes "SUCCESS"))
          × (¬ Spells status (codes "FAILED")))
build_target-cases status = elim (Spells-cases status (codes "SUCCESS") (ground arith)) [
  | inl (s, e) ↦ inl (success, rw e refl, inl (s, refl))
  | inr (s, e) ↦ elim (Spells-cases status (codes "FAILED") (ground arith)) [
    | inl (f, g) ↦ inl (failed, rw (e, g) refl, inr (f, refl))
    | inr (f, g) ↦ inr (rw (e, g) refl, s, f)
  ]
]
