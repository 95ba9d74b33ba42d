-- ===== src/Application/ApiKeys.antt =====
-- internal/application/service/apikeys.go
pub mod Revoked
pub mod Generated
use paste_thek4n_ru.Prelude.{ℕ, ◌+◌, ◌/◌, true, List, [], ◌∷◌, Option}
use paste_thek4n_ru.Prelude.{take}
use paste_thek4n_ru.Prelude.Bytes.{Bytes}
use paste_thek4n_ru.Exec.{Exec, pure, wrap, ◌>>=◌, ◌>>◌}
use paste_thek4n_ru.Domain.ApiKey.{ApiKey, new_apikey, invalidate, reauthorize}
use paste_thek4n_ru.Application.Repository.{ApiKeyRoRepository, ApiKeyWoRepository}
use paste_thek4n_ru.Std.Hex.{encode_to_string}

-- crypto/rand.Read into a slice of the given length, and uuid.NewRandom.
pub record RandomSource (W ApiKeyId : Type 0) : Type 0 where
  pub read : ℕ → Exec W Bytes
  pub new_random : Exec W ApiKeyId

module _ {W ApiKeyId : Type 0} (random : RandomSource W ApiKeyId)
    (ro : ApiKeyRoRepository W ApiKeyId) (wo : ApiKeyWoRepository W ApiKeyId) where
  unfoldable pub fetch_all : Exec W (List (ApiKey ApiKeyId))
  fetch_all = wrap "fail to get apikey" ro.get_all

  unfoldable pub invalidate_apikey : Bytes → Exec W (Unit {0})
  invalidate_apikey id = do
    apikey ← wrap "fail to get apikey" (ro.get_by_id id)
    wrap "fail to set apikey" (wo.set_by_id id (invalidate apikey))

  unfoldable pub reauthorize_apikey : Bytes → Exec W (Unit {0})
  reauthorize_apikey id = do
    apikey ← wrap "fail to get apikey" (ro.get_by_id id)
    wrap "fail to set apikey" (wo.set_by_id id (reauthorize apikey))

  unfoldable pub remove_apikey : Bytes → Exec W (Unit {0})
  remove_apikey id = wrap "fail to remove apikey" (wo.remove_by_id id)

  -- hexString[:n]
  unfoldable pub random_hex : ℕ → Exec W Bytes
  random_hex n = do
    bytes ← wrap "fail to gen random" (random.read ((n + 1) / 2))
    pure (take n (encode_to_string bytes))

  unfoldable pub generate_apikey : Exec W (ApiKey ApiKeyId)
  unfolding random_hex
  generate_apikey = do
    key ← wrap "fail to generate api key" (random_hex 32)
    id ← wrap "fail to generate api key id" random.new_random
    let apikey = new_apikey id key true
    wrap "fail to set api key" (wo.set_by_id key apikey)
    pure apikey
