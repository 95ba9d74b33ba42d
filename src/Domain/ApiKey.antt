-- ===== src/Domain/ApiKey.antt =====
-- internal/domain/aggregate/apikey.go
use paste_thek4n_ru.Prelude.{Bool, true, false}
use paste_thek4n_ru.Prelude.Bytes.{Bytes}

-- `ApiKeyId` is the type of google/uuid, a parameter.
pub record ApiKey (ApiKeyId : Type 0) : Type 0 where
  pub key : Bytes
  pub public_id : ApiKeyId
  pub valid : Bool

module _ {ApiKeyId : Type 0} where
  abbrev pub new_apikey : ApiKeyId → Bytes → Bool → ApiKey ApiKeyId
  new_apikey public_id key valid = record { key = key; public_id = public_id; valid = valid }

  unfoldable pub invalidate : ApiKey ApiKeyId → ApiKey ApiKeyId
  invalidate a = record a { valid = false }

  unfoldable pub reauthorize : ApiKey ApiKeyId → ApiKey ApiKeyId
  reauthorize a = record a { valid = true }
