-- ===== src/Examples/Requests.antt =====
-- Requests to the cache service.
use paste_thek4n_ru.Prelude.{inl, ◌≡◌, refl, ◌⊎◌, true, false, none, some, []}
use paste_thek4n_ru.Prelude.Int.{◌+ℤ◌}
use paste_thek4n_ru.Prelude.Bytes.{Bytes, codes, bytes_eq}
use paste_thek4n_ru.Errors.{sentinel, quota_exhausted, is}
use paste_thek4n_ru.Exec.{ok, err, outcome}
use paste_thek4n_ru.Exec.Kept.{Kept}
use paste_thek4n_ru.Config.{default_cache_validation_config}
use paste_thek4n_ru.Std.Runes.{all_runes_in}
use paste_thek4n_ru.Domain.Expiration.{new_expiration_date_from_ttl}
use paste_thek4n_ru.Domain.Record.{new_record}
use paste_thek4n_ru.Domain.Quota.{new_quota}
use paste_thek4n_ru.Domain.QuotaValue
use paste_thek4n_ru.Domain.Event.{
  notify_all, notify, notify_loop, handlers_of, new_apikey_used_event,
}
use paste_thek4n_ru.Domain.Record
use paste_thek4n_ru.Domain.Disposable
use paste_thek4n_ru.Domain.Expiration
use paste_thek4n_ru.Application.Get
use paste_thek4n_ru.Application.Get.{GetBodyAnswer}
use paste_thek4n_ru.Application.RoundTrip.{get_body-serve}
use paste_thek4n_ru.Application.Cache.Validate.{
  validate_privileged_request_params, validate_unprivileged_request_params,
}
use paste_thek4n_ru.Application.Cache.Validate.Accepts.{IsUnprivileged, IsPrivileged}
use paste_thek4n_ru.Application.Cache.Serve.{
  usage_reason, record_of, log_apikey_usage, check_apikey, identify, generated_key, requested_key,
  get_record_key, serve_privileged, quota_or_new, spend, manage_quota, serve_unprivileged, serve_as,
  serve,
}
use paste_thek4n_ru.Application.Cache.Serve.Stored.{new_content, Wrote}
use paste_thek4n_ru.Application.Cache.Serve.Authorized.{Vouched, serve_authorized}
use paste_thek4n_ru.Application.Cache.Serve.Writes.{serve_stores, serve_others}
use paste_thek4n_ru.Application.Cache.Serve.Exhausted.{serve_exhausted}
use paste_thek4n_ru.Examples.World.{World, put, empty_world, clock}
use paste_thek4n_ru.Examples.Memory.{memory, service, memory_store, apart, only_key}
use paste_thek4n_ru.Examples.Inputs.{address, hour_long, with_key}

abbrev after_key : World
after_key = (serve service with_key empty_world).1

key_served : serve service with_key empty_world ≡ (ok (codes "notes"), after_key)
unfolding serve identify check_apikey serve_as validate_privileged_request_params all_runes_in
    log_apikey_usage usage_reason serve_privileged record_of get_record_key requested_key
    new_expiration_date_from_ttl notify_all new_apikey_used_event notify notify_loop handlers_of
key_served = refl

serve_authorized_example :
    IsUnprivileged default_cache_validation_config with_key
    ⊎ (Vouched service (codes "secret") × IsPrivileged default_cache_validation_config with_key)
serve_authorized_example = serve_authorized service with_key empty_world key_served

abbrev after_hour : World
after_hour = (serve service hour_long empty_world).1

hour_served : serve service hour_long empty_world ≡ (ok only_key, after_hour)
unfolding serve identify serve_as validate_unprivileged_request_params serve_unprivileged record_of
    generated_key manage_quota quota_or_new spend new_expiration_date_from_ttl bytes_eq
    QuotaValue.exhausted QuotaValue.sub new_quota is
hour_served = refl

serve_stores_example :
    (v : World) × Wrote service memory_store hour_long empty_world only_key v
    × ((memory_store.view v only_key ≡ some (new_content hour_long))
        ⊎ (memory_store.view v only_key ≡ none))
    × Kept memory_store.view v after_hour
serve_stores_example = serve_stores service memory_store apart hour_long empty_world tt hour_served

serve_others_example :
    ((before : World) × Kept memory_store.view empty_world before
      × (memory_store.view before only_key ≡ none))
    × ((j : Bytes)
        → bytes_eq only_key j ≡ false
        → (memory_store.view after_hour j ≡ memory_store.view empty_world j)
          ⊎ (memory_store.view after_hour j ≡ none))
serve_others_example = serve_others service memory_store apart hour_long empty_world hour_served

-- One request is left of the quota, which is one too few.
abbrev last_of_quota : World
last_of_quota = record empty_world { quotas = put address (some 1) empty_world.quotas }

abbrev after_last : World
after_last = (serve service hour_long last_of_quota).1

quota_refused : serve service hour_long last_of_quota ≡ (err (sentinel quota_exhausted), after_last)
unfolding serve identify serve_as validate_unprivileged_request_params serve_unprivileged record_of
    generated_key manage_quota quota_or_new spend new_expiration_date_from_ttl bytes_eq
    QuotaValue.exhausted QuotaValue.sub new_quota is
quota_refused = refl

serve_exhausted_example :
    (k : Bytes) × (v : World) × Wrote service memory_store hour_long last_of_quota k v
    × (manage_quota service address v ≡ (err (sentinel quota_exhausted), after_last))
serve_exhausted_example =
    serve_exhausted service memory_store apart hour_long last_of_quota quota_refused

abbrev after_get : World
after_get = (Get.get_body clock memory only_key after_hour).1

-- What the request for the new key is answered with.
abbrev answer : GetBodyAnswer
answer =
    outcome (Get.get_body clock memory only_key after_hour) (λ a w. a)
      (λ e w. record { body = []; is_url = true })

hour_got : Get.get_body clock memory only_key after_hour ≡ (ok answer, after_get)
unfolding Get.get_body Get.get Record.get_body Expiration.expired Disposable.exhausted
    Disposable.sub new_record serve identify serve_as validate_unprivileged_request_params
    serve_unprivileged record_of generated_key manage_quota quota_or_new spend
    new_expiration_date_from_ttl bytes_eq QuotaValue.exhausted QuotaValue.sub new_quota is ◌+ℤ◌
hour_got = refl

get_body-serve_example : answer ≡ record { body = codes "hello"; is_url = false }
get_body-serve_example =
    get_body-serve service memory_store apart hour_long empty_world tt hour_served (inl refl)
      hour_got
