-- ===== src/Application/Cache/Serve/Passes.antt =====
-- How many requests of one address `manageQuota` of internal/application/service/cache.go lets
-- pass.
use Prim.Native.Nat.{min}
use paste_thek4n_ru.Prelude.{
  ℕ, zero, suc, ◌-◌, ◌≤◌, ◌<◌, ◌≡◌, inl, inr, Option, none, some, arith, Option-cases,
}
use paste_thek4n_ru.Prelude.Bytes.{Bytes}
use paste_thek4n_ru.Errors.{GoError, sentinel, quota_exhausted, is}
use paste_thek4n_ru.Exec.{ok, err, outcome}
use paste_thek4n_ru.Domain.Quota
use paste_thek4n_ru.Domain.Quota.{Quota, new_quota}
use paste_thek4n_ru.Domain.QuotaValue
use paste_thek4n_ru.Application.Repository.Contract.{IsQuotaStore}
use paste_thek4n_ru.Application.Cache.Serve.{CacheService, quota_or_new, spend, manage_quota}

module _ {W : Type 0} (s : CacheService W) where
  -- How many of `n` calls for one address pass.
  unfoldable pub count_passes : ℕ → Bytes → W → ℕ
  count_passes zero ip w = 0
  count_passes (suc n) ip w =
      outcome (manage_quota s ip w) (λ _ w'. suc (count_passes n ip w'))
        (λ e w'. count_passes n ip w')

  module _ (ip : Bytes) (store : IsQuotaStore s.quota_repository ip) where
    -- What is left of the quota of an address.
    abbrev pub left_of : Option ℕ → ℕ
    left_of none = s.quota_config.quota
    left_of (some v) = v

    abbrev pub left : W → ℕ
    left w = left_of (store.at w)

    -- A call passes exactly if more than one is left, and takes one.
    pub data Step (w : W) : Type 0 where
      passed :
          (w' : W) → manage_quota s ip w ≡ (ok tt, w') → 1 < left w → left w' ≡ left w - 1 → Step w
      refused :
          (e : GoError) (w' : W)
          → manage_quota s ip w ≡ (err e, w')
          → left w ≤ 1
          → left w' ≡ left w
          → Step w

    -- What follows the reading of a quota of which `v` is left, in the world `w1`.
    after_found :
        (w : W) (w1 : W) (v : ℕ)
        → (left w ≡ v)
        → (left w1 ≡ v)
        → manage_quota s ip w ≡ spend s ip (new_quota ip v) w1
        → Step w
    unfolding spend new_quota QuotaValue.sub QuotaValue.exhausted
    after_found w w1 zero lw lw1 e =
        refused (sentinel quota_exhausted) w1 e (omega (arith, lw)) (cc (lw, lw1))
    after_found w w1 (suc zero) lw lw1 e =
        refused (sentinel quota_exhausted) w1 e (omega (arith, lw)) (cc (lw, lw1))
    after_found w w1 (suc (suc n)) lw lw1 e =
        let q = Quota.sub (new_quota ip (suc (suc n))) in
        let (w2, h, a) = store.set_ok q w1 in
        passed w2 (ground (arith, h)) (omega (arith, lw)) (rw a (ground (arith, lw)))

    pub step : (w : W) → Step w
    unfolding manage_quota quota_or_new is
    step w = elim (Option-cases (store.at w)) [
      | inl missing ↦
          let (w1, h, a) = store.get_missing w missing in
          after_found w w1 s.quota_config.quota (rw missing) (rw a) (rw h)
      | inr (v, found) ↦
          let (w1, h, a) = store.get_found w v found in after_found w w1 v (rw found) (rw a) (rw h)
    ]

    -- Of `n` requests of one address, made before the period of its quota ends, as many pass as are
    -- left of its quota but one; the quota is that of the configuration if the address has none yet.
    -- The repository answers, and gives what was last set.
    pub count_passes-eq : (n : ℕ) (w : W) → count_passes n ip w ≡ min n (left w - 1)
    unfolding count_passes
    count_passes-eq zero w = omega arith
    count_passes-eq (suc n) w = elim (step w) [
      | passed w' h more one ↦ rw h (omega (arith, count_passes-eq n w', more, one))
      | refused e w' h few same ↦ rw h (omega (arith, count_passes-eq n w', few, same))
    ]
