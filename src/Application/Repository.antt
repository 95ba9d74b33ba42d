-- ===== src/Application/Repository.antt =====
-- internal/application/repository: the interfaces that the infrastructure implements. `W` is the
-- world; a Go interface is a record of its methods.
pub mod Contract
use paste_thek4n_ru.Prelude.{ℕ, Bool, List}
use paste_thek4n_ru.Prelude.Bytes.{Bytes}
use paste_thek4n_ru.Exec.{Exec}
use paste_thek4n_ru.Domain.Record.{Record}
use paste_thek4n_ru.Domain.Quota.{Quota}
use paste_thek4n_ru.Domain.ApiKey.{ApiKey}

pub record RecordRepository (W : Type 0) : Type 0 where
  pub get_by_key : Bytes → Exec W Record
  pub set_by_key : Bytes → Record → Exec W (Unit {0})
  pub exists : Bytes → Exec W Bool
  pub generate_unique_key : ℕ → ℕ → Exec W Bytes

pub record QuotaRepository (W : Type 0) : Type 0 where
  pub get_by_id : Bytes → Exec W Quota
  pub set_by_id : Bytes → Quota → Exec W (Unit {0})

pub record ApiKeyRoRepository (W ApiKeyId : Type 0) : Type 0 where
  pub get_by_id : Bytes → Exec W (ApiKey ApiKeyId)
  pub get_all : Exec W (List (ApiKey ApiKeyId))
  pub exists : Bytes → Exec W Bool

pub record ApiKeyWoRepository (W ApiKeyId : Type 0) : Type 0 where
  pub set_by_id : Bytes → ApiKey ApiKeyId → Exec W (Unit {0})
  pub remove_by_id : Bytes → Exec W (Unit {0})
