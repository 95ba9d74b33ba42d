-- ===== src/Cmd/Factory.antt =====
-- cmd/paste/paste.go: `handlersFactory`, and `NewHandlers` of
-- internal/presentation/webhandlers/handlers.go.
pub mod RoundTrip
use paste_thek4n_ru.Prelude.{ℕ, Bool}
use paste_thek4n_ru.Prelude.Bytes.{Bytes}
use paste_thek4n_ru.Exec.{Exec}
use paste_thek4n_ru.Config.{
  CacheValidationConfig, QuotaConfig, default_caching_config, default_cache_validation_config,
}
use paste_thek4n_ru.Domain.Expiration.{Clock}
use paste_thek4n_ru.Domain.Event.{Publisher}
use paste_thek4n_ru.Application.Repository.{RecordRepository}
use paste_thek4n_ru.Application.Validator.{apikey_service}
use paste_thek4n_ru.Application.Cache.Serve.{CacheService, new_cache_service}
use paste_thek4n_ru.Infrastructure.Redis.{RedisClient}
use paste_thek4n_ru.Infrastructure.Gzip.{Gzip}
use paste_thek4n_ru.Infrastructure.RecordRepo.{
  RedisKeyRecord, RedisRecordRepository, record_repository,
}
use paste_thek4n_ru.Infrastructure.QuotaRepo.{RedisQuotaRecord, quota_repository}
use paste_thek4n_ru.Infrastructure.ApiKeyRepo.{RedisApiKeyRecord, Uuid, ro_repository}

-- The fields of `Handlers`; those of the get service are the clock and the repository.
pub record Handlers (W : Type 0) : Type 0 where
  pub config : CacheValidationConfig
  pub version : Bytes
  pub healthcheck_enabled : Bool
  pub clock : Clock W
  pub records : RecordRepository W
  pub cache_service : CacheService W

-- What the services use of the system: the clock, gzip, the random numbers, the contexts, the
-- `go` statement, and how many replies a scan may have.
pub record Environment (W : Type 0) : Type 0 where
  pub clock : Clock W
  pub gzip : Gzip
  pub rand_int : ℕ → Exec W ℕ
  pub ctx_done : W → Bool × W
  pub go_statement : (W → W) → W → W
  pub scan_fuel : ℕ

module _ {W : Type 0} (env : Environment W) where
  abbrev pub record_repository_of : RedisClient W RedisKeyRecord → RedisRecordRepository W
  record_repository_of client = record {
    client = client;
    config = default_caching_config;
    clock = env.clock;
    gzip = env.gzip;
    rand_int = env.rand_int;
    ctx_done = env.ctx_done;
  }

  -- `version` is the variable of the package.
  abbrev pub handlers_factory :
      Uuid
      → Bytes
      → RedisClient W RedisKeyRecord
      → RedisClient W RedisQuotaRecord
      → RedisClient W RedisApiKeyRecord
      → Bool
      → Publisher W
      → QuotaConfig
      → Handlers W
  handlers_factory uuid version records_client quota_client apikey_client healthcheck publisher
        quotas =
      let records = record_repository (record_repository_of records_client) in
      record {
        config = default_cache_validation_config;
        version = version;
        healthcheck_enabled = healthcheck;
        clock = env.clock;
        records = records;
        cache_service =
            new_cache_service records (quota_repository quota_client quotas)
              (apikey_service uuid.to_string (ro_repository uuid apikey_client env.scan_fuel))
              publisher default_cache_validation_config quotas env.clock env.go_statement;
      }
