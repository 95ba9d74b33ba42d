-- ===== src/Examples/Succeeds.antt =====
-- A request that the cache service of cmd/paste/paste.go serves, over three databases in memory.
use paste_thek4n_ru.Prelude.{◌≡◌, refl, arith}
use paste_thek4n_ru.Prelude.Bytes.{bytes_eq}
use paste_thek4n_ru.Exec.{ok}
use paste_thek4n_ru.Config.{default_cache_validation_config, default_quota_config}
use paste_thek4n_ru.Domain.Expiration.{new_expiration_date_from_ttl, until}
use paste_thek4n_ru.Domain.Record.{new_record}
use paste_thek4n_ru.Application.Repository.Contract.{IsQuotaStore}
use paste_thek4n_ru.Application.Cache.Validate.Accepts.{IsUnprivileged}
use paste_thek4n_ru.Application.Cache.Serve.{key_length, record_of, serve}
use paste_thek4n_ru.Application.Cache.Serve.Succeeds.{RecordsAnswer, remaining, serve_succeeds}
use paste_thek4n_ru.Infrastructure.RecordRepo
use paste_thek4n_ru.Infrastructure.RecordRepo.{set_by_key, packed_body, set_expire}
use paste_thek4n_ru.Infrastructure.KeyGen.{
  generate_key, generate_round, generate_rounds, generate_unique_key, next_length, next_countdown,
}
use paste_thek4n_ru.Infrastructure.QuotaRepo.{quota_repository}
use paste_thek4n_ru.Infrastructure.QuotaRepo.Store.{redis_quotas}
use paste_thek4n_ru.Examples.World.{World, empty_world}
use paste_thek4n_ru.Examples.Quotas
use paste_thek4n_ru.Examples.Factory.{handlers}
use paste_thek4n_ru.Examples.Memory.{only_key}
use paste_thek4n_ru.Examples.Inputs.{address, hour_long}

abbrev quotas : IsQuotaStore (quota_repository Quotas.client default_quota_config) address
quotas =
    redis_quotas Quotas.client default_quota_config (λ (w : World). w.quota_hashes)
      Quotas.client-IsAnswering Quotas.client-RunsScripts (omega arith) address

-- The repository of records over Redis makes the key and writes the record.
abbrev stored : World
stored =
    (handlers.records.set_by_key only_key (record_of handlers.cache_service hour_long empty_world).0
      empty_world).1

answers : RecordsAnswer handlers.cache_service hour_long quotas empty_world
unfolding redis_quotas bytes_eq key_length record_of new_record new_expiration_date_from_ttl until
    RecordRepo.generate_unique_key generate_unique_key generate_rounds generate_round generate_key
    next_length next_countdown RecordRepo.exists set_by_key packed_body set_expire
answers = record {
  key = only_key;
  made = empty_world;
  stored = stored;
  generates = refl;
  sets = refl;
  quota_kept = refl;
}

fits : IsUnprivileged default_cache_validation_config hour_long
fits = record {
  no_key = refl;
  small = omega arith;
  not_short = omega arith;
  not_long = omega arith;
  min_length = omega arith;
  max_length = omega arith;
}

serve_succeeds_example :
    (v : World) × (serve handlers.cache_service hour_long empty_world ≡ (ok only_key, v))
    × (remaining handlers.cache_service hour_long quotas v ≡ 49)
unfolding redis_quotas answers
serve_succeeds_example =
    serve_succeeds handlers.cache_service hour_long quotas empty_world answers refl fits
      (omega arith)
