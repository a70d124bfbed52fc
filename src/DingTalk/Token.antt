-- ===== src/DingTalk/Token.antt =====
-- How often forwarder/app/services/dingtalk.py fetches a token, and how old the token is that it gives.
use jd_relay.Common.{
  ℕ, ◌+◌, ◌*◌, ◌<◌, ◌≡◌, refl, true, List, [], ◌∷◌, map, Option, none, some, Text, All, arith,
  is_truthy,
}
use jd_relay.Common.Outcome.{Outcome, returned}
use jd_relay.DingTalk.{DingTalkService, Sdk, cached_token, lifetime, locked_token}

module _ {W : Type 0} (sdk : Sdk W) where
  -- Tasks that wait for the lock get it one after the other, each with its two readings of the clock.
  unfoldable pub serve_waiters :
      DingTalkService → List (ℕ × ℕ) → W → List (Outcome Text) × DingTalkService × W
  serve_waiters s [] w = ([], s, w)
  serve_waiters s ((now, now') ∷ rest) w =
      let r = locked_token sdk s now now' w in
      let others = serve_waiters r.1 rest r.2 in (r.0 ∷ others.0, others.1, others.2)

  cached_locked :
      (s : DingTalkService) (now now' : ℕ) (token : Text) (w : W)
      → cached_token s now ≡ some token
      → locked_token sdk s now now' w ≡ (returned token, s, w)
  unfolding locked_token
  cached_locked s now now' token w h = rw h refl

  fresh_cached :
      (s : DingTalkService) (now : ℕ) (token : Text)
      → s.access_token ≡ some token
      → is_truthy token ≡ true
      → now + 300000 < s.token_expires_at
      → cached_token s now ≡ some token
  unfolding cached_token
  fresh_cached s now token held named early = ground arith

  waiters_cached :
      (s : DingTalkService) (token : Text) (rest : List (ℕ × ℕ)) (w : W)
      → s.access_token ≡ some token
      → is_truthy token ≡ true
      → All (λ t. t.0 + 300000 < s.token_expires_at) rest
      → serve_waiters s rest w ≡ (map (λ t. returned token) rest, s, w)
  unfolding serve_waiters
  waiters_cached s token [] w held named early = refl
  waiters_cached s token ((now, now') ∷ rest) w held named early =
      rw (cached_locked s now now' token w (fresh_cached s now token held named (early.0)))
        (rw (waiters_cached s token rest w held named (early.1)) refl)

  -- However many tasks wait for the lock while no token is cached, one of them fetches: all get the
  -- token that the first one fetched, and the world is changed by that one call. The token is not
  -- empty, and the others take their turn more than five minutes before it expires.
  pub one_fetch :
      (s : DingTalkService) (now now' : ℕ) (rest : List (ℕ × ℕ)) (token : Text)
      (expire_in : Option ℕ) (w w' : W)
      → cached_token s now ≡ none
      → sdk.oauth s.app_key s.app_secret w ≡ (some (token, expire_in), w')
      → is_truthy token ≡ true
      → All (λ t. t.0 + 300000 < now' + lifetime expire_in * 1000) rest
      → serve_waiters s ((now, now') ∷ rest) w ≡ (
        map (λ t. returned token) ((now, now') ∷ rest),
        record s { access_token = some token; token_expires_at = now' + lifetime expire_in * 1000 },
        w',
      )
  unfolding serve_waiters locked_token
  one_fetch s now now' rest token expire_in w w' empty fetched named early = rw empty (
      rw fetched (
        rw
          (waiters_cached
            (record s {
              access_token = some token;
              token_expires_at = now' + lifetime expire_in * 1000;
            })
            token rest w' refl named early)
          refl))
