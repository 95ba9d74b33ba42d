-- ===== src/Examples/Quotas.antt =====
-- Requests that the quota of an address lets pass, and the repository of quotas.
use paste_thek4n_ru.Prelude.{arith, ◌≡◌, refl, Option, none, some, List}
use paste_thek4n_ru.Prelude.Bytes.{Bytes, codes}
use paste_thek4n_ru.Exec.{Result, ok, err}
use paste_thek4n_ru.Errors.{plain}
use paste_thek4n_ru.Config.{default_quota_config}
use paste_thek4n_ru.Application.Repository.Contract.{IsQuotaStore}
use paste_thek4n_ru.Application.Cache.Serve.Passes.{count_passes, count_passes-eq}
use paste_thek4n_ru.Infrastructure.Redis.{RedisClient, ScriptArg}
use paste_thek4n_ru.Infrastructure.Redis.Script
use paste_thek4n_ru.Infrastructure.Redis.Script.{Statement, RunsScripts}
use paste_thek4n_ru.Infrastructure.Redis.Answers.{IsAnswering}
use paste_thek4n_ru.Infrastructure.QuotaRepo.{RedisQuotaRecord, quota_repository}
use paste_thek4n_ru.Infrastructure.QuotaRepo.Store.{
  no_quota, of_value, value_of, quota_repository-IsQuotaStore,
}
use paste_thek4n_ru.Examples.World.{World, Place, client_at, empty_world}
use paste_thek4n_ru.Examples.Memory.{service, quota_store}
use paste_thek4n_ru.Examples.Inputs.{address}

-- Of 60 requests with the default quota of 50, 49 pass.
count_passes-eq_example : count_passes service 60 address empty_world ≡ 49
unfolding quota_store
count_passes-eq_example = count_passes-eq service address (quota_store address) 60 empty_world

abbrev quotas_place : Place RedisQuotaRecord
quotas_place = record { get = λ w. w.quota_hashes; set = λ m w. record w { quota_hashes = m } }

-- A script is run statement by statement; one that is not known fails.
abbrev pub ran : Option (Bytes → Option RedisQuotaRecord) → World → Result (Unit {0}) × World
ran none w = (err (plain "ERR"), w)
ran (some hashes) w = (ok tt, record w { quota_hashes = hashes })

abbrev pub run_script :
    Option (List Statement) → List Bytes → List ScriptArg → World → Result (Unit {0}) × World
run_script none keys args w = (err (plain "ERR"), w)
run_script (some statements) keys args w =
    ran (Script.run (codes "value") of_value statements keys args w.quota_hashes) w

abbrev pub client : RedisClient World RedisQuotaRecord
client = record (client_at quotas_place no_quota) {
  eval = λ script keys args w. run_script (Script.parse script) keys args w;
}

pub client-IsAnswering : IsAnswering client no_quota (λ (w : World). w.quota_hashes)
client-IsAnswering = record { exists_eq = λ k w. (w, refl, refl); hget_eq = λ k w. (w, refl, refl) }

pub client-RunsScripts : RunsScripts (codes "value") of_value client (λ (w : World). w.quota_hashes)
client-RunsScripts = record {
  eval_eq = λ script keys args w statements hashes parsed done.
      (record w { quota_hashes = hashes }, rw (parsed, done) refl, refl);
}

quota_repository-IsQuotaStore_example :
    (store : IsQuotaStore (quota_repository client default_quota_config) address) × (store.at
      ≡ λ (w : World).
          value_of client default_quota_config (λ v. v.quota_hashes) (w.quota_hashes address))
quota_repository-IsQuotaStore_example =
    quota_repository-IsQuotaStore client default_quota_config (λ (w : World). w.quota_hashes)
      client-IsAnswering client-RunsScripts (omega arith) address
