-- ===== src/Examples/Factory.antt =====
-- The services of cmd/paste/paste.go over three databases in memory.
use paste_thek4n_ru.Infrastructure.Redis.{ScriptArg}
use paste_thek4n_ru.Prelude.{
  arith, List, Option, none, some, ◌≡◌, refl, true, false, [], Bool-cases, inl, inr,
}
use paste_thek4n_ru.Prelude.Int.{◌+ℤ◌, ◌-ℤ◌}
use paste_thek4n_ru.Prelude.Bytes.{Bytes, codes, bytes_eq}
use paste_thek4n_ru.Errors.{is}
use paste_thek4n_ru.Exec.{ok, outcome}
use paste_thek4n_ru.Exec.Kept.{Kept}
use paste_thek4n_ru.Config.{default_quota_config}
use paste_thek4n_ru.Domain.Event.{
  Event, Publisher, is_asynchronous, new_publisher, notify_all, notify, notify_loop, handlers_of,
}
use paste_thek4n_ru.Infrastructure.Redis.Script
use paste_thek4n_ru.Infrastructure.Redis.Script.{Statement}
use paste_thek4n_ru.Std.Spaces.{split, trim_space}
use paste_thek4n_ru.Infrastructure.QuotaRepo
use paste_thek4n_ru.Infrastructure.QuotaRepo.{RedisQuotaRecord}
use paste_thek4n_ru.Cmd.Factory.{Environment, Handlers, record_repository_of, handlers_factory}
use paste_thek4n_ru.Cmd.Factory.RoundTrip.{Separate, handlers_factory-get_body}
use paste_thek4n_ru.Application.Get.{GetBodyAnswer}
use paste_thek4n_ru.Application.Get
use paste_thek4n_ru.Application.Cache.Validate.{validate_unprivileged_request_params}
use paste_thek4n_ru.Domain.Expiration.{new_expiration_date_from_ttl, until}
use paste_thek4n_ru.Domain.Record.{ttl, new_record}
use paste_thek4n_ru.Domain.QuotaValue
use paste_thek4n_ru.Domain.Disposable
use paste_thek4n_ru.Domain.Expiration
use paste_thek4n_ru.Domain.Record
use paste_thek4n_ru.Infrastructure.Gzip.{is_compressed}
use paste_thek4n_ru.Infrastructure.RecordRepo.Read.{Storable}
use paste_thek4n_ru.Domain.Quota.{new_quota}
use paste_thek4n_ru.Infrastructure.RecordRepo
use paste_thek4n_ru.Infrastructure.RecordRepo.{
  set_by_key, get_by_key, packed_body, plain_body, set_expire,
}
use paste_thek4n_ru.Infrastructure.KeyGen.{
  generate_key, generate_round, generate_rounds, generate_unique_key, next_length, next_countdown,
}
use paste_thek4n_ru.Application.Cache.Serve.{
  key_length, record_of, identify, generated_key, quota_or_new, spend, manage_quota,
  serve_unprivileged, serve_as, serve,
}
use paste_thek4n_ru.Examples.World.{
  World, empty_world, clock, gzip, client, client-IsRedis, environment_kept,
}
use paste_thek4n_ru.Examples.Quotas
use paste_thek4n_ru.Examples.ApiKeys
use paste_thek4n_ru.Examples.ApiKeys.{uuid}
use paste_thek4n_ru.Examples.Memory.{only_key}
use paste_thek4n_ru.Examples.Inputs.{hour_long}

abbrev pub environment : Environment World
environment = record {
  clock = clock;
  gzip = gzip;
  rand_int = λ n w. (ok 0, w);
  ctx_done = λ w. (false, w);
  go_statement = λ f w. f w;
  scan_fuel = 1;
}

abbrev pub publisher : Publisher World
publisher = new_publisher

abbrev pub handlers : Handlers World
handlers =
    handlers_factory environment uuid (codes "1") client Quotas.client ApiKeys.client false
      publisher default_quota_config

notify-kept :
    (e : Event) (w : World)
    → Kept client-IsRedis.hash w (notify_all environment.go_statement publisher e w)
unfolding notify_all notify notify_loop handlers_of
notify-kept e w j = elim (Bool-cases (is_asynchronous e)) [
  | inl later ↦ rw later (inl refl)
  | inr now ↦ rw now (inl refl)
]

ran-kept :
    (after : Option (Bytes → Option RedisQuotaRecord)) (w : World) (j : Bytes)
    → (Quotas.ran after w).1.hashes j ≡ w.hashes j
ran-kept none w j = refl
ran-kept (some hashes) w j = refl

run_script-kept :
    (statements : Option (List Statement)) (keys : List Bytes) (args : List ScriptArg) (w : World)
    (j : Bytes)
    → (Quotas.run_script statements keys args w).1.hashes j ≡ w.hashes j
run_script-kept none keys args w j = refl
run_script-kept (some statements) keys args w j = ran-kept _ w j

pub separate :
    Separate environment client Quotas.client ApiKeys.client publisher default_quota_config
      client-IsRedis
unfolding client-IsRedis
separate = record {
  quota_exists = λ k w j. inl refl;
  quota_hget = λ k w j. inl refl;
  quota_eval = λ script keys args w j. inl (run_script-kept (Script.parse script) keys args w j);
  apikey_exists = λ k w j. inl refl;
  apikey_hget = λ k w j. inl refl;
  events = notify-kept;
}

abbrev pub after_hour : World
after_hour = (serve handlers.cache_service hour_long empty_world).1

pub hour_served : serve handlers.cache_service hour_long empty_world ≡ (ok only_key, after_hour)
unfolding serve identify serve_as validate_unprivileged_request_params serve_unprivileged record_of
    generated_key manage_quota quota_or_new spend new_expiration_date_from_ttl bytes_eq
    QuotaValue.exhausted QuotaValue.sub new_quota is RecordRepo.generate_unique_key
    generate_unique_key generate_rounds generate_round generate_key next_length next_countdown
    RecordRepo.exists set_by_key packed_body set_expire QuotaRepo.get_by_id QuotaRepo.exists
    QuotaRepo.set_by_id until key_length new_record Script.parse Script.run Script.step split
    trim_space QuotaRepo.seconds
hour_served = refl

abbrev pub answer : GetBodyAnswer
answer =
    outcome (Get.get_body clock handlers.records only_key after_hour) (λ a w. a)
      (λ e w. record { body = []; is_url = true })

abbrev pub after_get : World
after_get = (Get.get_body clock handlers.records only_key after_hour).1

pub hour_got : Get.get_body clock handlers.records only_key after_hour ≡ (ok answer, after_get)
unfolding serve identify serve_as validate_unprivileged_request_params serve_unprivileged record_of
    generated_key manage_quota quota_or_new spend new_expiration_date_from_ttl bytes_eq
    QuotaValue.exhausted QuotaValue.sub new_quota is RecordRepo.generate_unique_key
    generate_unique_key generate_rounds generate_round generate_key next_length next_countdown
    RecordRepo.exists set_by_key packed_body set_expire QuotaRepo.get_by_id QuotaRepo.exists
    QuotaRepo.set_by_id until key_length new_record Script.parse Script.run Script.step split
    trim_space QuotaRepo.seconds Get.get_body Get.get Record.get_body Expiration.expired
    Disposable.exhausted Disposable.sub ◌+ℤ◌ ◌-ℤ◌ get_by_key plain_body is_compressed
hour_got = refl

pub storable : Storable (record_repository_of environment client) (codes "hello")
unfolding is_compressed
storable = record { short = omega arith; unmarked = refl }

handlers_factory-get_body_example : answer ≡ record { body = codes "hello"; is_url = false }
handlers_factory-get_body_example =
    handlers_factory-get_body environment client Quotas.client ApiKeys.client publisher
      default_quota_config client-IsRedis separate uuid (codes "1") false environment_kept hour_long
      empty_world storable hour_served (λ k. inl refl) hour_got
