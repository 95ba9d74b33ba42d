-- ===== src/Domain/QuotaValue.antt =====
-- internal/domain/objectvalue/quota.go; the fields are uint32.
use paste_thek4n_ru.Prelude.{ℕ, ◌-◌, Bool, ltb, ◌==◌, if◌then◌else◌}

pub record QuotaValue : Type 0 where
  pub value : ℕ
  pub default : ℕ

abbrev pub new_quota_value : ℕ → QuotaValue
new_quota_value default_value = record { value = default_value; default = default_value }

unfoldable pub sub : QuotaValue → QuotaValue
sub q = if q.value == 0 then q else record q { value = q.value - 1 }

unfoldable pub exhausted : QuotaValue → Bool
exhausted q = ltb q.value 1

unfoldable pub refresh : QuotaValue → QuotaValue
refresh q = record q { value = q.default }
