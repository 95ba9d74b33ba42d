-- ===== src/Application/Get.antt =====
-- internal/application/service/get.go
pub mod Disposable
pub mod Answering
pub mod Phases
pub mod Interleaved
use paste_thek4n_ru.Prelude.{ℕ, Bool}
use paste_thek4n_ru.Prelude.Bytes.{Bytes}
use paste_thek4n_ru.Exec.{Exec, pure, wrap, ◌>>=◌, ◌>>◌}
use paste_thek4n_ru.Domain.Expiration.{Clock}
use paste_thek4n_ru.Domain.Record
use paste_thek4n_ru.Domain.Record.Getters
use paste_thek4n_ru.Domain.Record.{Record}
use paste_thek4n_ru.Application.Repository.{RecordRepository}

pub record GetBodyAnswer : Type 0 where
  pub body : Bytes
  pub is_url : Bool

module _ {W : Type 0} (clock : Clock W) (records : RecordRepository W) where
  unfoldable pub get : Bytes → Exec W Record
  get key = wrap "fail to get record from repository" (records.get_by_key key)

  unfoldable pub get_body : Bytes → Exec W GetBodyAnswer
  get_body key = do
    record' ← get key
    read ← wrap "fail to read record body" (Record.get_body clock record')
    wrap "fail to write record" (records.set_by_key key read.1)
    pure (record { body = read.0; is_url = Getters.url read.1 })

  unfoldable pub get_clicks : Bytes → Exec W ℕ
  get_clicks key = do record' ← get key; pure (Getters.clicks record')
