-- ===== src/Cmd/Factory/RoundTrip.antt =====
-- Caching and reading through the services of `handlersFactory` of cmd/paste/paste.go.
use paste_thek4n_ru.Prelude.{String, List, [], ◌∷◌, ◌≡◌, Bool, arith}
use paste_thek4n_ru.Prelude.Bytes.{Bytes, codes}
use paste_thek4n_ru.Exec.{ok}
use paste_thek4n_ru.Exec.Kept.{Kept}
use paste_thek4n_ru.Config.{QuotaConfig}
use paste_thek4n_ru.Domain.Params.{CacheRequestParams}
use paste_thek4n_ru.Domain.Event.{Event, Publisher, notify_all}
use paste_thek4n_ru.Domain.Quota
use paste_thek4n_ru.Domain.Quota.{Quota}
use paste_thek4n_ru.Application.Get
use paste_thek4n_ru.Application.Get.{GetBodyAnswer}
use paste_thek4n_ru.Application.Repository.Contract.{IsRecordStore}
use paste_thek4n_ru.Application.Validator
use paste_thek4n_ru.Application.Validator.{check_valid, get_id}
use paste_thek4n_ru.Application.Cache.Serve.{serve}
use paste_thek4n_ru.Application.Cache.Serve.Stored.{Apart}
use paste_thek4n_ru.Application.RoundTrip.{get_body-serve}
use paste_thek4n_ru.Infrastructure.Redis.{RedisClient, ScriptArg, text, number, integer}
use paste_thek4n_ru.Infrastructure.Redis.Laws.{IsRedis}
use paste_thek4n_ru.Infrastructure.RecordRepo.{
  RedisKeyRecord, RedisRecordRepository, record_repository,
}
use paste_thek4n_ru.Infrastructure.RecordRepo.Read.{empty_record, Storable, Kept-view}
use paste_thek4n_ru.Infrastructure.RecordRepo.Store.{EnvironmentKept, redis_store}
use paste_thek4n_ru.Infrastructure.QuotaRepo
use paste_thek4n_ru.Infrastructure.QuotaRepo.{RedisQuotaRecord}
use paste_thek4n_ru.Infrastructure.ApiKeyRepo
use paste_thek4n_ru.Infrastructure.ApiKeyRepo.{RedisApiKeyRecord, Uuid}
use paste_thek4n_ru.Cmd.Factory.{Environment, Handlers, record_repository_of, handlers_factory}

module _ {W : Type 0} (env : Environment W) (records_client : RedisClient W RedisKeyRecord)
    (quota_client : RedisClient W RedisQuotaRecord)
    (apikey_client : RedisClient W RedisApiKeyRecord) (publisher : Publisher W)
    (quotas : QuotaConfig) (redis : IsRedis records_client empty_record) where
  abbrev repository : RedisRecordRepository W
  repository = record_repository_of env records_client

  -- The other two databases of Redis, and the handlers of events, leave the records alone.
  pub record Separate : Type 0 where
    pub quota_exists : (k : Bytes) (w : W) → Kept redis.hash w (quota_client.exists k w).1
    pub quota_hget : (k : Bytes) (w : W) → Kept redis.hash w (quota_client.hget_all_scan k w).1
    pub quota_eval :
        (script : String) (keys : List Bytes) (args : List ScriptArg) (w : W)
        → Kept redis.hash w (quota_client.eval script keys args w).1
    pub apikey_exists : (k : Bytes) (w : W) → Kept redis.hash w (apikey_client.exists k w).1
    pub apikey_hget : (k : Bytes) (w : W) → Kept redis.hash w (apikey_client.hget_all_scan k w).1
    pub events : (e : Event) (w : W) → Kept redis.hash w (notify_all env.go_statement publisher e w)

  module _ (separate : Separate) (uuid : Uuid) (version : Bytes) (healthcheck : Bool) where
    abbrev handlers : Handlers W
    handlers =
        handlers_factory env uuid version records_client quota_client apikey_client healthcheck
          publisher quotas

    quota_get-kept :
        (ip : Bytes) (w : W) → Kept redis.hash w (QuotaRepo.get_by_id quota_client quotas ip w).1
    unfolding QuotaRepo.get_by_id QuotaRepo.exists
    quota_get-kept ip w j =
        let w1 = (quota_client.exists ip w).1 in
        ground (arith, separate.quota_exists ip w j, separate.quota_hget ip w1 j)

    quota_set-kept :
        (ip : Bytes) (q : Quota) (w : W)
        → Kept redis.hash w (QuotaRepo.set_by_id quota_client quotas ip q w).1
    unfolding QuotaRepo.set_by_id
    quota_set-kept ip q w j =
        let args =
          text (codes "value")
          ∷ number (Quota.value q)
          ∷ integer (QuotaRepo.seconds quotas.quota_reset_period)
          ∷ [] in
        ground (arith, separate.quota_eval QuotaRepo.script (ip ∷ []) args w j)

    apikey_get-kept :
        (k : Bytes) (w : W) → Kept redis.hash w (ApiKeyRepo.get_by_id uuid apikey_client k w).1
    unfolding ApiKeyRepo.get_by_id ApiKeyRepo.new_apikey_id
    apikey_get-kept k w j = ground (arith, separate.apikey_hget k w j)

    key_exists-kept :
        (k : Bytes) (w : W) → Kept redis.hash w (handlers.cache_service.apikey_service.exists k w).1
    unfolding Validator.exists ApiKeyRepo.exists
    key_exists-kept k w j = ground (arith, separate.apikey_exists k w j)

    check_valid-kept :
        (k : Bytes) (w : W)
        → Kept redis.hash w (handlers.cache_service.apikey_service.check_valid k w).1
    unfolding check_valid
    check_valid-kept k w j = ground (arith, apikey_get-kept k w j)

    get_id-kept :
        (k : Bytes) (w : W) → Kept redis.hash w (handlers.cache_service.apikey_service.get_id k w).1
    unfolding get_id
    get_id-kept k w j = ground (arith, apikey_get-kept k w j)

    module _ (kept : EnvironmentKept (record_repository_of env records_client) redis) where
      abbrev store : IsRecordStore env.clock (record_repository repository)
      store = redis_store repository redis kept

      apart : Apart handlers.cache_service store
      unfolding redis_store
      apart = record {
        quota_get = λ ip w. Kept-view repository redis (quota_get-kept ip w);
        quota_set = λ ip q w. Kept-view repository redis (quota_set-kept ip q w);
        key_exists = λ k w. Kept-view repository redis (key_exists-kept k w);
        key_valid = λ k w. Kept-view repository redis (check_valid-kept k w);
        key_id = λ k w. Kept-view repository redis (get_id-kept k w);
        events = λ e w. Kept-view repository redis (separate.events e w);
      }

      -- The services that the server is made of give back what they have cached: a key that the
      -- cache service gives is answered later by the get service, where it answers, with the body that
      -- was cached, and as a link exactly if it was cached as one, whatever was done between the two, if
      -- the records were left as they were or lost. The body is not over the threshold of compression
      -- and does not begin like a gzip stream; Redis is as documented, the other databases and the
      -- events leave the records alone, and so do the clock, the random numbers and the contexts.
      pub handlers_factory-get_body :
          (p : CacheRequestParams) (w : W) {k : Bytes} {w1 v : W} {a : GetBodyAnswer} {w2 : W}
          → Storable (record_repository_of env records_client) p.body
          → serve
              (handlers_factory env uuid version records_client quota_client apikey_client
                healthcheck publisher quotas).cache_service
              p
              w
            ≡ (ok k, w1)
          → Kept redis.hash w1 v
          → Get.get_body env.clock
              (handlers_factory env uuid version records_client quota_client apikey_client
                healthcheck publisher quotas).records
              k
              v
            ≡ (ok a, w2)
          → a ≡ record { body = p.body; is_url = p.is_url }
      unfolding redis_store
      handlers_factory-get_body p w {k} storable served between got =
          get_body-serve handlers.cache_service store apart p w storable served
            (Kept-view repository redis between k) got
