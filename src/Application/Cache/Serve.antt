-- ===== src/Application/Cache/Serve.antt =====
-- internal/application/service/cache.go: `Serve` and the methods that it calls.
pub mod Authorized
pub mod Stored
pub mod Writes
pub mod Exhausted
pub mod Passes
pub mod Succeeds
use paste_thek4n_ru.Prelude.{
  ℕ, Bool, true, false, not, ltb, ◌==◌, if◌then◌else◌, Option, none, some, [],
}
use paste_thek4n_ru.Prelude.Int.{ltb_ℤ, is_zero}
use paste_thek4n_ru.Prelude.Bytes.{Bytes, is_empty}
use paste_thek4n_ru.Errors.{
  sentinel, wrapped, is, requested_key_exists, apikey_not_found, apikey_invalid, quota_exhausted,
  quota_not_found,
}
use paste_thek4n_ru.Exec.{
  Result, ok, err, Exec, Act, pure, lift, perform, wrap, fail_if, ◌>>=◌, ◌>>◌,
}
use paste_thek4n_ru.Config.{CacheValidationConfig, QuotaConfig}
use paste_thek4n_ru.Domain.Params.{CacheRequestParams}
use paste_thek4n_ru.Domain.Expiration.{Clock, new_expiration_date_from_ttl}
use paste_thek4n_ru.Domain.Record.{Record, new_record}
use paste_thek4n_ru.Domain.Quota
use paste_thek4n_ru.Domain.Quota.{Quota, new_quota}
use paste_thek4n_ru.Domain.Event.{
  UsageReason, persistkey, customkeylen, customkey, largebody, Publisher, new_apikey_used_event,
  notify_all,
}
use paste_thek4n_ru.Application.Repository.{RecordRepository, QuotaRepository}
use paste_thek4n_ru.Application.Validator.{IApiKeyService}
use paste_thek4n_ru.Application.Cache.Validate.{
  validate_privileged_request_params, validate_unprivileged_request_params,
}

-- The fields that the methods use; the clock and the `go` statement are the environment's.
pub record CacheService (W : Type 0) : Type 0 where
  pub record_repository : RecordRepository W
  pub quota_repository : QuotaRepository W
  pub apikey_service : IApiKeyService W
  pub event_publisher : Publisher W
  pub validation_config : CacheValidationConfig
  pub quota_config : QuotaConfig
  pub clock : Clock W
  pub go_statement : (W → W) → W → W

abbrev pub new_cache_service :
    {W : Type 0}
    → RecordRepository W
    → QuotaRepository W
    → IApiKeyService W
    → Publisher W
    → CacheValidationConfig
    → QuotaConfig
    → Clock W
    → ((W → W) → W → W)
    → CacheService W
new_cache_service record_repository quota_repository apikey_service event_publisher cfg quotacfg
      clock go_statement =
    record {
      record_repository = record_repository;
      quota_repository = quota_repository;
      apikey_service = apikey_service;
      event_publisher = event_publisher;
      validation_config = cfg;
      quota_config = quotacfg;
      clock = clock;
      go_statement = go_statement;
    }

-- The switch of `logAPIKeyUsage`; its default returns.
unfoldable pub usage_reason : CacheValidationConfig → CacheRequestParams → Option UsageReason
usage_reason cfg params =
    if is_zero params.ttl
    then some persistkey
    else if ltb params.requested_key_length cfg.unprivileged_min_key_length
    then some customkeylen
    else if not (is_empty params.requested_key)
    then some customkey
    else if ltb_ℤ cfg.unprivileged_max_body_size params.body_len
    then some largebody
    else none

-- The length to generate: the default for 0.
unfoldable pub key_length : CacheValidationConfig → CacheRequestParams → ℕ
key_length cfg params =
    if params.requested_key_length == 0 then cfg.default_key_length else params.requested_key_length

module _ {W : Type 0} (s : CacheService W) where
  -- The record that both `serve*` methods write.
  unfoldable pub record_of : CacheRequestParams → Act W Record
  record_of params w =
      let (expiration_date, w') = new_expiration_date_from_ttl s.clock params.ttl w in
      (
        new_record [] expiration_date params.disposable (params.disposable == 0) 0 params.body
            params.is_url,
        w',
      )

  publish : Option UsageReason → Bytes → Bytes → Act W (Unit {0})
  publish none apikey_id source_ip w = (tt, w)
  publish (some reason) apikey_id source_ip w = (
    tt,
    notify_all s.go_statement s.event_publisher (new_apikey_used_event apikey_id reason source_ip)
        w,
  )

  unfoldable pub log_apikey_usage : Bytes → CacheRequestParams → Act W (Unit {0})
  unfolding publish
  log_apikey_usage apikey_id params =
      publish (usage_reason s.validation_config params) apikey_id params.source_ip

  -- The identifier of a key that exists and is valid.
  unfoldable pub check_apikey : CacheRequestParams → Exec W (Bool × Bytes)
  check_apikey params = do
    found ← wrap "fail to check apikey existing" (s.apikey_service.exists params.apikey)
    fail_if (not found) (sentinel apikey_not_found)
    apikey_id ← wrap "fail to get apikey ID" (s.apikey_service.get_id params.apikey)
    valid ← wrap "fail to check apikey validity" (s.apikey_service.check_valid params.apikey)
    fail_if (not valid) (sentinel apikey_invalid)
    pure (valid, apikey_id)

  unfoldable pub generated_key : CacheRequestParams → Exec W Bytes
  generated_key params = wrap "fail to generate unique key" (
      s.record_repository.generate_unique_key (key_length s.validation_config params)
        s.validation_config.max_key_length)

  unfoldable pub requested_key : CacheRequestParams → Exec W Bytes
  requested_key params = do
    found ←
        wrap "fail to check requested key existing"
          (s.record_repository.exists params.requested_key)
    fail_if found (sentinel requested_key_exists)
    pure params.requested_key

  unfoldable pub get_record_key : CacheRequestParams → Exec W Bytes
  get_record_key params =
      if is_empty params.requested_key then generated_key params else requested_key params

  unfoldable pub serve_privileged : CacheRequestParams → Exec W Bytes
  serve_privileged params = do
    new ← perform (record_of params)
    key ← get_record_key params
    wrap "fail to set new record" (s.record_repository.set_by_key key new)
    pure key

  -- A quota that is not found starts anew; any other error is passed on.
  unfoldable pub quota_or_new : Bytes → Result Quota × W → Result Quota × W
  quota_or_new source_ip (ok q, w) = (ok q, w)
  quota_or_new source_ip (err e, w) =
      if is e quota_not_found
      then (ok (new_quota source_ip s.quota_config.quota), w)
      else (err (wrapped "fail to get quota" e), w)

  -- One is taken from the quota, which is written back unless that leaves nothing.
  unfoldable pub spend : Bytes → Quota → Exec W (Unit {0})
  spend source_ip found = do
    let left = Quota.sub found
    fail_if (Quota.exhausted left) (sentinel quota_exhausted)
    wrap "fail to write quota" (s.quota_repository.set_by_id source_ip left)

  unfoldable pub manage_quota : Bytes → Exec W (Unit {0})
  manage_quota source_ip = do
    found ← (λ w. quota_or_new source_ip (s.quota_repository.get_by_id source_ip w))
    spend source_ip found

  unfoldable pub serve_unprivileged : CacheRequestParams → Exec W Bytes
  serve_unprivileged params = do
    new ← perform (record_of params)
    key ← generated_key params
    wrap "fail to write record" (s.record_repository.set_by_key key new)
    manage_quota params.source_ip
    pure key

  -- What `Serve` does once it knows whether the request is privileged.
  unfoldable pub serve_as : CacheRequestParams → Bool × Bytes → Exec W Bytes
  serve_as params (true, apikey_id) = do
    lift (validate_privileged_request_params s.validation_config params)
    perform (log_apikey_usage apikey_id params)
    serve_privileged params
  serve_as params (false, apikey_id) = do
    lift (validate_unprivileged_request_params s.validation_config params)
    serve_unprivileged params

  -- The first step of `Serve`: whether the request is privileged, and the key's identifier.
  unfoldable pub identify : CacheRequestParams → Exec W (Bool × Bytes)
  identify params = if is_empty params.apikey then pure (false, []) else check_apikey params

  unfoldable pub serve : CacheRequestParams → Exec W Bytes
  serve params = do who ← identify params; serve_as params who
