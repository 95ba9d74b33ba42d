-- ===== src/Config.antt =====
-- internal/domain/config/config.go. The getters of an interface are the fields of a record.
use Prim.Native.Nat.{ℕ, ◌*◌}
use paste_thek4n_ru.Prelude.Int.{ℤ, pos}
use paste_thek4n_ru.Prelude.Bytes.{Bytes, codes}

-- Durations are in nanoseconds.
pub record CacheValidationConfig : Type 0 where
  pub unprivileged_max_body_size : ℤ
  pub privileged_max_body_size : ℤ
  pub min_ttl : ℤ
  pub default_ttl : ℤ
  pub unprivileged_max_ttl : ℤ
  pub privileged_max_ttl : ℤ
  pub max_key_length : ℕ
  pub default_key_length : ℕ
  pub unprivileged_min_key_length : ℕ
  pub privileged_min_key_length : ℕ
  pub allowed_key_chars : Bytes

pub record QuotaConfig : Type 0 where
  pub quota_reset_period : ℤ
  pub quota : ℕ

pub record CachingConfig : Type 0 where
  pub compress_threshold_bytes : ℕ
  pub max_body_size : ℤ
  pub attempts_to_increase_key_min_length : ℕ
  pub keys_charset : Bytes

abbrev pub one_mebibyte : ℕ
one_mebibyte = 1048576

abbrev pub hours_in_day : ℕ
hours_in_day = 24

abbrev pub days_in_month : ℕ
days_in_month = 30

abbrev pub hours_in_month : ℕ
hours_in_month = hours_in_day * days_in_month

abbrev pub months_in_year : ℕ
months_in_year = 12

-- time.Second and time.Hour
abbrev pub second : ℕ
second = 1000000000

abbrev pub hour : ℕ
hour = 3600 * second

abbrev pub charset : Bytes
charset = codes "abcdefghijklmnopqrstuvwxyzABCDEFGHIJKLMNOPQRSTUVWXYZ0123456789"

abbrev pub default_cache_validation_config : CacheValidationConfig
default_cache_validation_config = record {
  unprivileged_max_body_size = pos one_mebibyte;
  privileged_max_body_size = pos (100 * one_mebibyte);
  min_ttl = pos (second * 1);
  default_ttl = pos (hour * hours_in_month);
  unprivileged_max_ttl = pos (hour * hours_in_month);
  privileged_max_ttl = pos (hour * hours_in_month * months_in_year);
  max_key_length = 20;
  default_key_length = 14;
  unprivileged_min_key_length = 8;
  privileged_min_key_length = 3;
  allowed_key_chars = charset;
}

abbrev pub default_quota_config : QuotaConfig
default_quota_config = record { quota_reset_period = pos (hours_in_day * hour); quota = 50 }

abbrev pub default_caching_config : CachingConfig
default_caching_config = record {
  compress_threshold_bytes = 4096;
  max_body_size = pos (100 * one_mebibyte);
  attempts_to_increase_key_min_length = 20;
  keys_charset = charset;
}
