-- ===== src/Domain/Quota.antt =====
-- internal/domain/aggregate/quota.go
use paste_thek4n_ru.Prelude.{ℕ, Bool}
use paste_thek4n_ru.Prelude.Bytes.{Bytes}
use paste_thek4n_ru.Domain.QuotaValue
use paste_thek4n_ru.Domain.QuotaValue.{QuotaValue, new_quota_value}

pub record Quota : Type 0 where
  pub source_ip : Bytes
  pub quota : QuotaValue

unfoldable pub new_quota : Bytes → ℕ → Quota
new_quota ip def = record { source_ip = ip; quota = new_quota_value def }

abbrev pub exhausted : Quota → Bool
exhausted q = QuotaValue.exhausted q.quota

abbrev pub refresh : Quota → Quota
refresh q = record q { quota = QuotaValue.refresh q.quota }

abbrev pub sub : Quota → Quota
sub q = record q { quota = QuotaValue.sub q.quota }

abbrev pub value : Quota → ℕ
value q = q.quota.value
