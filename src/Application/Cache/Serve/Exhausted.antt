-- ===== src/Application/Cache/Serve/Exhausted.antt =====
-- What a request that is refused for its quota leaves behind: internal/application/service/cache.go.
use paste_thek4n_ru.Prelude.{◌≡◌, ◌≢◌, refl, inl, inr, Bool, true, false, arith}
use paste_thek4n_ru.Prelude.Bytes.{Bytes}
use paste_thek4n_ru.Errors.{sentinel, quota_exhausted}
use paste_thek4n_ru.Exec.{Result, err, run-cases}
use paste_thek4n_ru.Domain.Params.{CacheRequestParams}
use paste_thek4n_ru.Application.Repository.Contract.{IsRecordStore}
use paste_thek4n_ru.Application.Cache.Validate.{
  validate_privileged_request_params, validate_unprivileged_request_params,
}
use paste_thek4n_ru.Application.Cache.Serve.{
  CacheService, record_of, log_apikey_usage, check_apikey, identify, generated_key, requested_key,
  get_record_key, serve_privileged, manage_quota, serve_unprivileged, serve_as, serve,
}
use paste_thek4n_ru.Application.Cache.Serve.Stored.{Apart, Wrote, identify-kept}
use paste_thek4n_ru.Application.Cache.Serve.Writes.{serve_unprivileged-Outcome, Wrote-later}

module _ {W : Type 0} (s : CacheService W) where
  abbrev exhausted : {A : Type 0} → W → Result A × W
  exhausted w = (err (sentinel quota_exhausted), w)

  validate_unprivileged-ne :
      (p : CacheRequestParams)
      → validate_unprivileged_request_params s.validation_config p ≢ err (sentinel quota_exhausted)
  unfolding validate_unprivileged_request_params
  validate_unprivileged-ne p e = ground arith

  validate_privileged-ne :
      (p : CacheRequestParams)
      → validate_privileged_request_params s.validation_config p ≢ err (sentinel quota_exhausted)
  unfolding validate_privileged_request_params
  validate_privileged-ne p e = ground arith

  get_record_key-ne :
      (p : CacheRequestParams) (w : W) {w' : W} → get_record_key s p w ≢ exhausted w'
  unfolding get_record_key generated_key requested_key
  get_record_key-ne p w e = ground arith

  serve_privileged-ne :
      (p : CacheRequestParams) (w : W) {w' : W} → serve_privileged s p w ≢ exhausted w'
  unfolding serve_privileged
  serve_privileged-ne p w {w'} e = ground (arith, get_record_key-ne p (record_of s p w).1 {w' = w'})

  identify-ne : (p : CacheRequestParams) (w : W) {w' : W} → identify s p w ≢ exhausted w'
  unfolding identify check_apikey
  identify-ne p w e = ground arith

  module _ (store : IsRecordStore s.clock s.record_repository) (apart : Apart s store) where
    serve_as-exhausted :
        (p : CacheRequestParams) (b : Bool) (id : Bytes) (w : W) {w' : W}
        → serve_as s p (b, id) w ≡ exhausted w'
        → (k : Bytes) × (v : W) × Wrote s store p w k v
          × (manage_quota s p.source_ip v ≡ exhausted w')
    unfolding serve_as
    serve_as-exhausted p true id w {w'} e = absurd (
        ground (
          arith,
          validate_privileged-ne p,
          serve_privileged-ne p (log_apikey_usage s id p w).1 {w' = w'},
        ))
    serve_as-exhausted p false id w {w'} e =
        let served : serve_unprivileged s p w ≡ exhausted w' =
          ground (arith, validate_unprivileged-ne p) in
        elim (rw served at (serve_unprivileged-Outcome s store apart p w)) [
          | inl run ↦ run
          | inr other ↦ absurd (other refl)
        ]

    -- A request that is refused because its quota is exhausted has written its record before: the
    -- write under a free key was made, and the quota was looked at only then. The store keeps its
    -- contract, and quotas, API keys and events live apart from the records.
    pub serve_exhausted :
        (p : CacheRequestParams) (w : W) {w' : W}
        → serve s p w ≡ (err (sentinel quota_exhausted), w')
        → (k : Bytes) × (v : W) × Wrote s store p w k v
          × (manage_quota s p.source_ip v ≡ (err (sentinel quota_exhausted), w'))
    unfolding serve
    serve_exhausted p w {w'} e = elim (run-cases (identify s p w)) [
      | inr (e', w1, h) ↦ absurd (ground (arith, identify-ne p w {w' = w'}))
      | inl (who, w1, h) ↦
          let (k, v, written, quota) = serve_as-exhausted p who.0 who.1 w1 (rw h at e) in
          (
            k,
            v,
            Wrote-later s store apart (rw h at (identify-kept s store apart p w)) written,
            quota,
          )
    ]
