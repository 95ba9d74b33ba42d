-- ===== src/Infrastructure/QuotaRepo.antt =====
-- internal/infrastructure/repository/quota.go
pub mod Store
use paste_thek4n_ru.Prelude.{ℕ, ◌/◌, ◌-◌, suc, String, Bool, not, ltb, ◌==◌, [], ◌∷◌, if◌then◌else◌}
use paste_thek4n_ru.Prelude.Int.{ℤ, pos, negsuc}
use paste_thek4n_ru.Prelude.Bytes.{Bytes, codes}
use paste_thek4n_ru.Errors.{sentinel, quota_not_found}
use paste_thek4n_ru.Exec.{Exec, pure, wrap, fail_if, ◌>>=◌, ◌>>◌}
use paste_thek4n_ru.Config.{QuotaConfig, second}
use paste_thek4n_ru.Domain.Quota
use paste_thek4n_ru.Domain.Quota.{Quota, new_quota}
use paste_thek4n_ru.Application.Repository.{QuotaRepository}
use paste_thek4n_ru.Infrastructure.Redis.{RedisClient, text, number, integer}

pub record RedisQuotaRecord : Type 0 where
  pub value : ℕ

-- int(d.Seconds()), which rounds towards zero
unfoldable pub seconds : ℤ → ℤ
seconds (pos n) = pos (n / second)
seconds (negsuc n) = if suc n / second == 0 then pos 0 else negsuc (suc n / second - 1)

-- The text of the script.
abbrev pub script : String
script =
    "\n\t   redis.call(\"HSET\", KEYS[1], ARGV[1], ARGV[2])\n\t   redis.call(\"EXPIRE\", KEYS[1], ARGV[3])\n\t   return 1\n   "

module _ {W : Type 0} (client : RedisClient W RedisQuotaRecord) (config : QuotaConfig) where
  unfoldable pub exists : Bytes → Exec W Bool
  exists key = do
    keys_number ← wrap "failure checking is quota exists" (client.exists key)
    pure (ltb 0 keys_number)

  unfoldable pub get_by_id : Bytes → Exec W Quota
  unfolding exists
  get_by_id id = do
    found ← exists id
    fail_if (not found) (sentinel quota_not_found)
    quota ← wrap "failure get quota for ip" (client.hget_all_scan id)
    pure (new_quota id quota.value)

  unfoldable pub set_by_id : Bytes → Quota → Exec W (Unit {0})
  set_by_id id q = wrap "fail to set new quota key" (
      client.eval script (id ∷ []) (
        text (codes "value")
        ∷ number (Quota.value q)
        ∷ integer (seconds config.quota_reset_period)
        ∷ []))

  abbrev pub quota_repository : QuotaRepository W
  quota_repository = record { get_by_id = get_by_id; set_by_id = set_by_id }
