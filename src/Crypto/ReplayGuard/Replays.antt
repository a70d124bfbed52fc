-- ===== src/Crypto/ReplayGuard/Replays.antt =====
-- Which replays the guard of forwarder/app/crypto/replay_guard.py stops, over any later use of it.
use jd_relay.Common.{
  ℕ, ◌+◌, ◌≤◌, ◌<◌, ◌≡◌, refl, ◌⊎◌, inl, inr, true, false, Text, text_eq, text_eq_refl, ap, leb,
  ltb, leb→le, none, some, arith, Bool-cases,
}
use jd_relay.Common.Int.{ℤ, pos, pos_part, ◌≤ℤ◌}
use jd_relay.Common.Dict.{lookup, lookup-insert}
use jd_relay.Crypto.ReplayGuard.{
  ReplayGuard, window_ms, is_within_window, is_replay, record_nonce, purge_expired, purge_if_large,
  cache_size, check_and_record,
}
use jd_relay.Crypto.ReplayGuard.Cache.{
  lookup-purge, lookup-keep_if_dropped, check_and_record-cases, is_within_window_iff, length-insert,
}

-- A guard, and the latest reading of the clock that it made.
pub record Moment : Type 0 where
  pub now : ℕ
  pub guard : ReplayGuard

-- One call of a method that changes the guard, on a clock that does not run backwards.
pub data Step (m : Moment) : Moment → Type 0 where
  check :
      (timestamp : ℤ) (nonce : Text) (t t' t'' : ℕ)
      → m.now ≤ t
      → t ≤ t'
      → t' ≤ t''
      → Step m (record { now = t''; guard = (check_and_record m.guard t t' t'' timestamp nonce).0 })
  remember :
      (nonce : Text) (t : ℕ)
      → m.now ≤ t
      → Step m (record { now = t; guard = record_nonce m.guard t nonce })
  purge : (t : ℕ) → m.now ≤ t → Step m (record { now = t; guard = purge_expired m.guard t })

pub data Reach (m : Moment) : Moment → Type 0 where
  here : Reach m m
  next : {k l : Moment} → Reach m k → Step k l → Reach m l

-- The nonce is remembered long enough for the timestamp, or the timestamp is too old by now.
module _ (w last : ℕ) (nonce : Text) where
  abbrev IsKept : ReplayGuard → ℕ → Type 0
  IsKept g now = ((e : ℕ) × (lookup nonce g.nonces ≡ some e) × (last + w ≤ e)) ⊎ (last + w < now)

  pub record Holds (now : ℕ) (g : ReplayGuard) : Type 0 where
    pub window : window_ms g ≡ w
    pub since : last ≤ now
    pub kept : IsKept g now

  IsKept-record :
      (g : ReplayGuard) (now t : ℕ) (k : Text)
      → now ≤ t
      → Holds now g
      → IsKept (record_nonce g t k) t
  unfolding record_nonce
  IsKept-record g now t k p h = elim (h.kept) [
    | inl (e, l, b) ↦ elim (Bool-cases (text_eq k nonce)) [
      | inl x ↦ inl (t + window_ms g, rw lookup-insert (rw x), omega (arith, h.since, h.window))
      | inr x ↦ inl (e, rw lookup-insert (rw x l), b)
    ]
    | inr old ↦ inr (omega arith)
  ]

  Holds-record :
      (g : ReplayGuard) (now t : ℕ) (k : Text)
      → now ≤ t
      → Holds now g
      → Holds t (record_nonce g t k)
  Holds-record g now t k p h = record {
    window = unfold record_nonce in h.window;
    since = omega (arith, h.since);
    kept = IsKept-record g now t k p h;
  }

  IsKept-purge :
      (g : ReplayGuard) (now t : ℕ) → now ≤ t → Holds now g → IsKept (purge_expired g t) t
  IsKept-purge g now t p h = elim (h.kept) [
    | inl (e, l, b) ↦ elim (Bool-cases (leb t e)) [
      | inl x ↦ inl (e, (lookup-purge g t nonce).0 e l (leb→le t e x), b)
      | inr x ↦ inr (ground arith)
    ]
    | inr old ↦ inr (omega arith)
  ]

  Holds-purge : (g : ReplayGuard) (now t : ℕ) → now ≤ t → Holds now g → Holds t (purge_expired g t)
  Holds-purge g now t p h = record {
    window = unfold purge_expired in h.window;
    since = omega (arith, h.since);
    kept = IsKept-purge g now t p h;
  }

  Holds-later : (g : ReplayGuard) (now t : ℕ) → now ≤ t → Holds now g → Holds t g
  Holds-later g now t p h = record {
    window = h.window;
    since = omega (arith, h.since);
    kept = elim (h.kept) [ inl x ↦ inl x | inr old ↦ inr (omega arith) ];
  }

  Holds-purge_if_large :
      (g : ReplayGuard) (now t : ℕ) → now ≤ t → Holds now g → Holds t (purge_if_large g t)
  unfolding purge_if_large
  Holds-purge_if_large g now t p h = elim (Bool-cases (ltb 10000 (cache_size g))) [
    | inl x ↦ rw x (Holds-purge g now t p h)
    | inr x ↦ rw x (Holds-later g now t p h)
  ]

  Holds-check :
      (g : ReplayGuard) (now t t' t'' : ℕ) (timestamp : ℤ) (k : Text)
      → now ≤ t
      → t ≤ t'
      → t' ≤ t''
      → Holds now g
      → Holds t'' (check_and_record g t t' t'' timestamp k).0
  Holds-check g now t t' t'' timestamp k p q r h =
      elim (check_and_record-cases g t t' t'' timestamp k) [
        | inl e ↦ rw e (Holds-later g now t'' (omega arith) h)
        | inr (w, n, e) ↦ rw e (
            Holds-purge_if_large (record_nonce g t' k) t' t'' r
              (Holds-record g now t' k (omega arith) h))
      ]

  Holds-Reach : {m l : Moment} → Reach m l → Holds m.now m.guard → Holds l.now l.guard
  Holds-Reach here h = h
  Holds-Reach (next {k} {l} r (check timestamp n t t' t'' a b c)) h =
      Holds-check k.guard k.now t t' t'' timestamp n a b c (Holds-Reach r h)
  Holds-Reach (next {k} {l} r (remember n t a)) h =
      Holds-record k.guard k.now t n a (Holds-Reach r h)
  Holds-Reach (next {k} {l} r (purge t a)) h = Holds-purge k.guard k.now t a (Holds-Reach r h)

late_rejected :
    (g : ReplayGuard) (u u' u'' : ℕ) (timestamp : ℤ) (nonce : Text) (w b now : ℕ)
    → now ≤ u
    → pos_part timestamp ≤ b
    → Holds w b nonce now g
    → check_and_record g u u' u'' timestamp nonce ≡ (g, false)
late_rejected g u u' u'' timestamp nonce w b now p q h =
    elim (check_and_record-cases g u u' u'' timestamp nonce) [
      | inl e ↦ e
      | inr (i, n, e) ↦ elim (h.kept) [
        | inl (x, l, y) ↦ unfold is_replay in cc (n, l)
        | inr old ↦
            let in_window = (is_within_window_iff g u timestamp).0 i in
            absurd (ground (arith, h.window))
      ]
    ]

Holds-accepted :
    (g : ReplayGuard) (t t' t'' : ℕ) (timestamp : ℤ) (nonce : Text)
    → t' ≤ t''
    → pos_part timestamp ≤ t'
    → (check_and_record g t t' t'' timestamp nonce).1 ≡ true
    → Holds
        (window_ms g)
        (pos_part timestamp)
        nonce
        t''
        (check_and_record g t t' t'' timestamp nonce).0
Holds-accepted g t t' t'' timestamp nonce q past accepted =
    elim (check_and_record-cases g t t' t'' timestamp nonce) [
      | inl e ↦ absurd (cc (ap (λ x. x.1) e))
      | inr (i, n, e) ↦ rw e (
          Holds-purge_if_large (window_ms g) (pos_part timestamp) nonce (record_nonce g t' nonce) t'
            t'' q
            (record {
              window = unfold record_nonce in refl;
              since = past;
              kept = inl (
                t' + window_ms g,
                unfold record_nonce in simp (lookup-insert, text_eq_refl),
                omega arith,
              );
            }))
    ]

-- After a guard accepted a message whose timestamp was not ahead of the clock, every later check of
-- the same timestamp and nonce rejects it and leaves the guard alone, whatever calls came in
-- between and however often the cache was purged, on a clock that does not run backwards.
pub replay_rejected :
    (g : ReplayGuard) (t t' t'' : ℕ) (timestamp : ℤ) (nonce : Text)
    → t ≤ t'
    → t' ≤ t''
    → timestamp ≤ℤ pos t'
    → (check_and_record g t t' t'' timestamp nonce).1 ≡ true
    → {m : Moment}
    → Reach (record { now = t''; guard = (check_and_record g t t' t'' timestamp nonce).0 }) m
    → (u u' u'' : ℕ) → m.now ≤ u
    → check_and_record m.guard u u' u'' timestamp nonce ≡ (m.guard, false)
replay_rejected g t t' t'' timestamp nonce p q past accepted {m} r u u' u'' later =
    late_rejected m.guard u u' u'' timestamp nonce (window_ms g) (pos_part timestamp) m.now later
      (omega arith)
      (Holds-Reach (window_ms g) (pos_part timestamp) nonce r
        (Holds-accepted g t t' t'' timestamp nonce q (ground arith) accepted))

accepts :
    (g : ReplayGuard) (t timestamp : ℕ) (nonce : Text)
    → lookup nonce g.nonces ≡ none
    → t ≤ timestamp + window_ms g
    → timestamp ≤ t + window_ms g
    → check_and_record g t t t (pos timestamp) nonce
      ≡ (purge_if_large (record_nonce g t nonce) t, true)
unfolding check_and_record is_within_window is_replay
accepts g t timestamp nonce fresh a b = ground arith

-- A guard that accepted a message from ahead of its clock accepts it a second time, if the cache is
-- purged after the recorded nonce expired and the message comes again before its timestamp leaves the
-- window. The nonce was not in the cache at first, and the cache held fewer than 10000 nonces; the first
-- call reads one instant at all its readings of the clock, and the purge and the second call one later
-- instant.
pub replay_after_purge :
    (g : ReplayGuard) (t t' timestamp : ℕ) (nonce : Text)
    → lookup nonce g.nonces ≡ none
    → cache_size g < 10000
    → t + window_ms g < t'
    → t' ≤ timestamp + window_ms g
    → t ≤ timestamp
    → timestamp ≤ t + window_ms g
    → ((check_and_record g t t t (pos timestamp) nonce).1 ≡ true)
      × ((check_and_record
            (purge_expired (check_and_record g t t t (pos timestamp) nonce).0 t')
            t'
            t'
            t'
            (pos timestamp)
            nonce).1
          ≡ true)
replay_after_purge g t t' timestamp nonce fresh small a b c d =
    let forgotten : lookup nonce (purge_expired (record_nonce g t nonce) t').nonces ≡ none =
      unfold purge_expired record_nonce in
      lookup-keep_if_dropped (λ x. leb t' x) g.nonces nonce (t + window_ms g) fresh
        (ground arith) in
    let unpurged : purge_if_large (record_nonce g t nonce) t ≡ record_nonce g t nonce =
      unfold purge_if_large record_nonce cache_size in
      ground (arith, length-insert nonce (t + window_ms g) g.nonces) in
    rw (accepts g t timestamp nonce fresh (omega arith) d) (
      refl,
      rw unpurged (
          ap (λ x. x.1)
            (accepts (purge_expired (record_nonce g t nonce) t') t' timestamp nonce forgotten
              (unfold purge_expired record_nonce in b)
              (unfold purge_expired record_nonce in omega arith))),
    )
