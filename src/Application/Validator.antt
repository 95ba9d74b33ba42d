-- ===== src/Application/Validator.antt =====
-- internal/application/service/apikeyValidator.go
use paste_thek4n_ru.Prelude.{Bool}
use paste_thek4n_ru.Prelude.Bytes.{Bytes}
use paste_thek4n_ru.Exec.{Exec, pure, wrap, ◌>>=◌}
use paste_thek4n_ru.Application.Repository.{ApiKeyRoRepository}

-- The interface that the cache service uses.
pub record IApiKeyService (W : Type 0) : Type 0 where
  pub exists : Bytes → Exec W Bool
  pub check_valid : Bytes → Exec W Bool
  pub get_id : Bytes → Exec W Bytes

-- `to_string` is the `String` method of an identifier.
module _ {W ApiKeyId : Type 0} (to_string : ApiKeyId → Bytes)
    (repository : ApiKeyRoRepository W ApiKeyId) where
  unfoldable pub exists : Bytes → Exec W Bool
  exists apikey = wrap "fail to get key" (repository.exists apikey)

  unfoldable pub check_valid : Bytes → Exec W Bool
  check_valid apikey = do key ← wrap "fail to get key" (repository.get_by_id apikey); pure key.valid

  unfoldable pub get_id : Bytes → Exec W Bytes
  get_id apikey = do
    key ← wrap "fail to get key" (repository.get_by_id apikey)
    pure (to_string key.public_id)

  abbrev pub apikey_service : IApiKeyService W
  apikey_service = record { exists = exists; check_valid = check_valid; get_id = get_id }
