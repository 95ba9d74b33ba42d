-- ===== src/Domain/Record/Getters.antt =====
-- internal/domain/aggregate/record.go: the getters of a record.
use paste_thek4n_ru.Prelude.{ℕ, Bool}
use paste_thek4n_ru.Prelude.Bytes.{Bytes}
use paste_thek4n_ru.Domain.Expiration
use paste_thek4n_ru.Domain.Disposable
use paste_thek4n_ru.Domain.Clicks
use paste_thek4n_ru.Domain.Record.{Record}

abbrev pub clicks : Record → ℕ
clicks r = Clicks.value r.clicks

abbrev pub disposable_counter : Record → ℕ
disposable_counter r = Disposable.value r.disposable_counter

abbrev pub disposable_counter_eternal : Record → Bool
disposable_counter_eternal r = Disposable.eternal r.disposable_counter

abbrev pub expiration_date_eternal : Record → Bool
expiration_date_eternal r = Expiration.eternal r.expiration_date

abbrev pub r_get_body : Record → Bytes
r_get_body r = r.body

abbrev pub url : Record → Bool
url r = r.url
