-- ===== src/Crypto/ReplayGuard/Cache.antt =====
-- The nonce cache of the replay guard: what a purge keeps, and how large the cache grows.
use jd_relay.Common.{
  All, Bool-cases, leb→le, ltb, ℕ, suc, ◌+◌, ◌≤◌, ◌≡◌, refl, ◌⊎◌, inl, inr, ◌↔◌, Bool, true, false,
  Text, leb, length, none, some, [], ◌∷◌, arith,
}
use jd_relay.Common.Int.{ℤ, pos, ◌≤ℤ◌, sub_ℕ}
use jd_relay.Common.Dict.{Dict, lookup, insert, keep_if}
use jd_relay.Crypto.ReplayGuard.{
  ReplayGuard, window_ms, is_within_window, is_replay, record_nonce, purge_expired, cache_size,
  purge_if_large, check_and_record,
}

-- A timestamp is in the window exactly if it is at most the window's length away from the clock.
pub is_within_window_iff :
    (g : ReplayGuard) (now : ℕ) (timestamp : ℤ)
    → (is_within_window g now timestamp ≡ true)
      ↔ ((sub_ℕ now (window_ms g) ≤ℤ timestamp) × (timestamp ≤ℤ pos (now + window_ms g)))
unfolding is_within_window
is_within_window_iff g now timestamp = ground arith

module _ (keep : ℕ → Bool) where
  pub lookup-keep_if_kept :
      (d : Dict ℕ) (k : Text) {e : ℕ}
      → lookup k d ≡ some e
      → keep e ≡ true
      → lookup k (keep_if keep d) ≡ some e
  unfolding lookup keep_if
  lookup-keep_if_kept [] k h p = cc
  lookup-keep_if_kept ((j, v) ∷ d) k {e} h p = ground (arith, lookup-keep_if_kept d k {e = e})

  pub lookup-keep_if_keeps :
      (d : Dict ℕ) (k : Text) {e : ℕ} → lookup k (keep_if keep d) ≡ some e → keep e ≡ true
  unfolding lookup keep_if
  lookup-keep_if_keeps [] k h = cc
  lookup-keep_if_keeps ((j, v) ∷ d) k {e} h = ground (arith, lookup-keep_if_keeps d k {e = e})

  pub lookup-keep_if-none :
      (d : Dict ℕ) (k : Text) → lookup k d ≡ none → lookup k (keep_if keep d) ≡ none
  unfolding lookup keep_if
  lookup-keep_if-none [] k h = refl
  lookup-keep_if-none ((j, v) ∷ d) k h = ground (arith, lookup-keep_if-none d k)

  pub lookup-keep_if_dropped :
      (d : Dict ℕ) (k : Text) (e : ℕ)
      → lookup k d ≡ none
      → keep e ≡ false
      → lookup k (keep_if keep (insert k e d)) ≡ none
  unfolding lookup keep_if insert
  lookup-keep_if_dropped [] k e h p = ground arith
  lookup-keep_if_dropped ((j, v) ∷ d) k e h p = ground (arith, lookup-keep_if_dropped d k e)

  pub length-keep_if : (d : Dict ℕ) → length (keep_if keep d) ≤ length d
  unfolding keep_if
  length-keep_if [] = omega arith
  length-keep_if ((j, v) ∷ d) = ground (arith, length-keep_if d)

pub length-insert : (k : Text) (v : ℕ) (d : Dict ℕ) → length (insert k v d) ≤ suc (length d)
unfolding insert
length-insert k v [] = omega arith
length-insert k v ((j, w) ∷ d) = ground (arith, length-insert k v d)

-- A purge keeps an entry, with its expiry, exactly if the expiry has not passed, for a nonce that
-- the cache holds; a nonce that it does not hold stays unknown.
pub lookup-purge :
    (g : ReplayGuard) (now : ℕ) (nonce : Text)
    → ((e : ℕ)
        → lookup nonce g.nonces ≡ some e
        → now ≤ e
        → lookup nonce (purge_expired g now).nonces ≡ some e)
      × ((e : ℕ) → lookup nonce (purge_expired g now).nonces ≡ some e → now ≤ e)
      × (lookup nonce g.nonces ≡ none → lookup nonce (purge_expired g now).nonces ≡ none)
unfolding purge_expired
lookup-purge g now nonce = (
  λ e h p. lookup-keep_if_kept (λ x. leb now x) g.nonces nonce h (ground arith),
  λ e h. ground (arith, lookup-keep_if_keeps (λ x. leb now x) g.nonces nonce h),
  lookup-keep_if-none (λ x. leb now x) g.nonces nonce,
)

-- No entry of the cache has expired.
abbrev pub IsPurged : ℕ → ReplayGuard → Type 0
IsPurged now g = All (λ entry. now ≤ entry.1) g.nonces

All-keep_if :
    (now : ℕ) (d : Dict ℕ) → All (λ entry. now ≤ entry.1) (keep_if (λ expiry. leb now expiry) d)
unfolding keep_if
All-keep_if now [] = tt
All-keep_if now ((j, v) ∷ d) = elim (Bool-cases (leb now v)) [
  | inl h ↦ rw h (leb→le now v h, All-keep_if now d)
  | inr h ↦ rw h (All-keep_if now d)
]

module _ (g : ReplayGuard) (now : ℕ) where
  size-purge_if_large : cache_size (purge_if_large g now) ≤ cache_size g
  unfolding purge_if_large purge_expired cache_size
  size-purge_if_large = ground (arith, length-keep_if (λ x. leb now x) g.nonces)

  large-purge_if_large :
      (cache_size (purge_if_large g now) ≤ 10000) ⊎ IsPurged now (purge_if_large g now)
  unfolding purge_if_large purge_expired cache_size
  large-purge_if_large = elim (Bool-cases (ltb 10000 (cache_size g))) [
    | inl h ↦ rw h (inr (All-keep_if now g.nonces))
    | inr h ↦ rw h (inl (ground arith))
  ]

-- The two outcomes of a call.
pub check_and_record-cases :
    (g : ReplayGuard) (now now' now'' : ℕ) (timestamp : ℤ) (nonce : Text)
    → (check_and_record g now now' now'' timestamp nonce ≡ (g, false))
      ⊎ ((is_within_window g now timestamp ≡ true)
          × (is_replay g nonce ≡ false)
          × (check_and_record g now now' now'' timestamp nonce
              ≡ (purge_if_large (record_nonce g now' nonce) now'', true)))
unfolding check_and_record
check_and_record-cases g now now' now'' timestamp nonce = ground arith

-- A call adds at most one entry, and it rejects, or leaves at most 10,000 entries, or leaves none that
-- has expired by its last reading of the clock.
pub check_and_record_size :
    (g : ReplayGuard) (now now' now'' : ℕ) (timestamp : ℤ) (nonce : Text)
    → let (g', accepted) = check_and_record g now now' now'' timestamp nonce in
      (cache_size g' ≤ suc (cache_size g))
      × ((accepted ≡ false) ⊎ ((cache_size g' ≤ 10000) ⊎ IsPurged now'' g'))
check_and_record_size g now now' now'' timestamp nonce =
    elim (check_and_record-cases g now now' now'' timestamp nonce) [
      | inl p ↦ rw p (omega arith, inl refl)
      | inr (w, r, p) ↦ rw p (
        let added : cache_size (record_nonce g now' nonce) ≤ suc (cache_size g) =
              unfold record_nonce cache_size in length-insert nonce (now' + window_ms g) g.nonces in
            omega (arith, size-purge_if_large (record_nonce g now' nonce) now''),
        inr (large-purge_if_large (record_nonce g now' nonce) now''),
      )
    ]
