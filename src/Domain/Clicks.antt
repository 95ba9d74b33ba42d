-- ===== src/Domain/Clicks.antt =====
-- internal/domain/objectvalue/request.go: the counter of a record's reads.
use paste_thek4n_ru.Prelude.{ℕ, ◌+◌, ◌%◌, ◌^◌}

-- `value` is a uint32.
pub record ClicksCounter : Type 0 where
  pub value : ℕ

abbrev pub new_clicks_counter : ℕ → ClicksCounter
new_clicks_counter value = record { value = value }

-- `Value`
abbrev pub value : ClicksCounter → ℕ
value c = c.value

-- `c.value++` wraps.
unfoldable pub increase : ClicksCounter → ClicksCounter
increase c = record { value = (c.value + 1) % 2 ^ 32 }
