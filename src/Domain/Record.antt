-- ===== src/Domain/Record.antt =====
-- internal/domain/aggregate/record.go
pub mod Reads
pub mod Getters
use paste_thek4n_ru.Prelude.{ℕ, Bool}
use paste_thek4n_ru.Prelude.Int.{ℤ}
use paste_thek4n_ru.Prelude.Bytes.{Bytes}
use paste_thek4n_ru.Errors.{sentinel, record_counter_exhausted, record_expired}
use paste_thek4n_ru.Exec.{Exec, Act, pure, perform, fail_if, ◌>>=◌, ◌>>◌}
use paste_thek4n_ru.Domain.Expiration
use paste_thek4n_ru.Domain.Expiration.{Clock, ExpirationDate}
use paste_thek4n_ru.Domain.Disposable
use paste_thek4n_ru.Domain.Disposable.{DisposableCounter, new_disposable_counter}
use paste_thek4n_ru.Domain.Clicks.{ClicksCounter, new_clicks_counter, increase}

pub record Record : Type 0 where
  pub key : Bytes
  pub expiration_date : ExpirationDate
  pub disposable_counter : DisposableCounter
  pub clicks : ClicksCounter
  pub body : Bytes
  pub url : Bool

unfoldable pub new_record : Bytes → ExpirationDate → ℕ → Bool → ℕ → Bytes → Bool → Record
new_record key expiration_date disposable_counter eternal clicks body url = record {
  key = key;
  expiration_date = expiration_date;
  disposable_counter = new_disposable_counter disposable_counter eternal;
  clicks = new_clicks_counter clicks;
  body = body;
  url = url;
}

abbrev pub counter_exhausted : Record → Bool
counter_exhausted r = Disposable.exhausted r.disposable_counter

abbrev pub decrease_disposable_counter : Record → Record
decrease_disposable_counter r = record r {
  disposable_counter = Disposable.sub r.disposable_counter;
}

abbrev pub increase_clicks_counter : Record → Record
increase_clicks_counter r = record r { clicks = increase r.clicks }

module _ {ℓ} {W : Type ℓ} (clock : Clock W) where
  abbrev pub expired : Record → Act W Bool
  expired r = Expiration.expired clock r.expiration_date

  -- `TTL`
  abbrev pub ttl : Record → Act W ℤ
  ttl r = Expiration.until clock r.expiration_date

  -- The body, and the record after the method changed it.
  unfoldable pub get_body : Record → Exec W (Bytes × Record)
  get_body r = do
    fail_if (counter_exhausted r) (sentinel record_counter_exhausted)
    gone ← perform (expired r)
    fail_if gone (sentinel record_expired)
    let r' = increase_clicks_counter (decrease_disposable_counter r)
    pure (r'.body, r')
