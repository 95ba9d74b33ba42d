-- ===== src/Application/Cache/Serve/Succeeds.antt =====
-- What can stand against a request to `Serve` of internal/application/service/cache.go, and what
-- comes of one that nothing stands against.
use paste_thek4n_ru.Prelude.{ℕ, ◌-◌, ◌<◌, ◌≡◌, refl, ap, ◌∙◌, true, [], arith}
use paste_thek4n_ru.Prelude.Bytes.{Bytes, is_empty}
use paste_thek4n_ru.Exec.{ok}
use paste_thek4n_ru.Domain.Params.{CacheRequestParams}
use paste_thek4n_ru.Application.Repository.Contract.{IsQuotaStore}
use paste_thek4n_ru.Application.Cache.Validate.Accepts.{IsUnprivileged, validate-IsUnprivileged_iff}
use paste_thek4n_ru.Application.Cache.Serve.{
  CacheService, record_of, key_length, identify, generated_key, serve_unprivileged, serve_as, serve,
}
use paste_thek4n_ru.Application.Cache.Serve.Passes.{left_of, left, step, passed, refused}

module _ {W : Type 0} (s : CacheService W) (p : CacheRequestParams)
    (quotas : IsQuotaStore s.quota_repository p.source_ip) where
  -- How the repository of records answers the request that comes to `w`: it makes a key of the
  -- length that is asked for, after the clock was read, and then writes the record of the request
  -- under it. None of the three changes the quota.
  pub record RecordsAnswer (w : W) : Type 0 where
    pub key : Bytes
    pub made : W
    pub stored : W
    pub generates :
        s.record_repository.generate_unique_key
          (key_length s.validation_config p)
          s.validation_config.max_key_length
          (record_of s p w).1
        ≡ (ok key, made)
    pub sets : s.record_repository.set_by_key key (record_of s p w).0 made ≡ (ok tt, stored)
    pub quota_kept : quotas.at stored ≡ quotas.at w

  abbrev pub remaining : W → ℕ
  remaining w = left s p.source_ip quotas w

  serve_unprivileged_answers :
      (w : W) (answer : RecordsAnswer w)
      → 1 < remaining w
      → (v : W) × (serve_unprivileged s p w ≡ (ok answer.key, v)) × (remaining v ≡ remaining w - 1)
  unfolding serve_unprivileged generated_key
  serve_unprivileged_answers w answer more =
      let same : remaining answer.stored ≡ remaining w =
        ap (left_of s p.source_ip quotas) answer.quota_kept in
      elim (step s p.source_ip quotas answer.stored) [
        | passed w' m enough one ↦
            (w', rw (answer.generates, answer.sets, m) refl, one ∙ ap (λ n. n - 1) same)
        | refused e w' m few kept ↦ absurd (omega (arith, few, more, same))
      ]

  -- A request with no API key that lies within the limits for everybody is served with the key that
  -- the repository of records makes for it, and takes one of the quota of its address, of which more
  -- than one is left; where the repository of records makes the key and writes the record, and that
  -- of quotas answers and the period of the quota does not end meanwhile.
  pub serve_succeeds :
      (w : W) (answer : RecordsAnswer w)
      → p.apikey ≡ []
      → IsUnprivileged s.validation_config p
      → 1 < remaining w
      → (v : W) × (serve s p w ≡ (ok answer.key, v)) × (remaining v ≡ remaining w - 1)
  unfolding serve identify serve_as
  serve_succeeds w answer none fits more =
      let valid = (validate-IsUnprivileged_iff s.validation_config p).1 fits in
      let (v, h, taken) = serve_unprivileged_answers w answer more in
      let empty : is_empty p.apikey ≡ true = ap is_empty none in
      (v, rw (empty, valid, h) refl, taken)
