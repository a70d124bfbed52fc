-- ===== src/Crypto/ReplayGuard.antt =====
-- The anti-replay guard, forwarder/app/crypto/replay_guard.py. A method takes the readings of
-- `now_ms()` that it makes, in order, as arguments; a timestamp is a signed integer, since it comes
-- from the peer.
pub mod Cache
pub mod Replays
use jd_relay.Common.{
  ℕ, ◌+◌, ◌*◌, Bool, true, false, ◌&&◌, not, Text, [], if◌then◌else◌, leb, ltb, length, is_some,
}
use jd_relay.Common.Int.{ℤ, pos, sub_ℕ, leb_ℤ}
use jd_relay.Common.Dict.{Dict, lookup, insert, keep_if}

pub record ReplayGuard : Type 0 where
  pub window_seconds : ℕ
  pub nonces : Dict ℕ  -- nonce → expiry timestamp (ms)

abbrev pub new_guard : ReplayGuard
new_guard = record { window_seconds = 300; nonces = [] }

abbrev pub window_ms : ReplayGuard → ℕ
window_ms g = g.window_seconds * 1000

unfoldable pub is_within_window : ReplayGuard → ℕ → ℤ → Bool
is_within_window g now timestamp =
    leb_ℤ (sub_ℕ now (window_ms g)) timestamp && leb_ℤ timestamp (pos (now + window_ms g))

unfoldable pub is_replay : ReplayGuard → Text → Bool
is_replay g nonce = is_some (lookup nonce g.nonces)

unfoldable pub record_nonce : ReplayGuard → ℕ → Text → ReplayGuard
record_nonce g now nonce = record g { nonces = insert nonce (now + window_ms g) g.nonces }

unfoldable pub purge_expired : ReplayGuard → ℕ → ReplayGuard
purge_expired g now = record g { nonces = keep_if (λ expiry. leb now expiry) g.nonces }

unfoldable pub cache_size : ReplayGuard → ℕ
cache_size g = length g.nonces

-- `if len(self._nonces) > 10000: self.purge_expired()`
unfoldable pub purge_if_large : ReplayGuard → ℕ → ReplayGuard
purge_if_large g now = if ltb 10000 (cache_size g) then purge_expired g now else g

-- The clock is read by the window check, by the recording and by the purge.
unfoldable pub check_and_record : ReplayGuard → ℕ → ℕ → ℕ → ℤ → Text → ReplayGuard × Bool
check_and_record g now now' now'' timestamp nonce =
    if not (is_within_window g now timestamp)
    then (g, false)
    else if is_replay g nonce
    then (g, false)
    else (purge_if_large (record_nonce g now' nonce) now'', true)
