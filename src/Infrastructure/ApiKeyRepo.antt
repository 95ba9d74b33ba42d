-- ===== src/Infrastructure/ApiKeyRepo.antt =====
-- internal/infrastructure/repository/apikey.go, and `NewAPIKeyID` of
-- internal/domain/objectvalue/apikey.go.
pub mod Store
pub mod Listing
use paste_thek4n_ru.Prelude.{ℕ, zero, suc, Bool, ltb, ◌==◌, List, [], ◌∷◌, ◌++◌, if◌then◌else◌}
use paste_thek4n_ru.Prelude.Bytes.{Bytes, codes}
use paste_thek4n_ru.Errors.{external}
use paste_thek4n_ru.Exec.{Result, Exec, pure, raise, lift, wrap, ◌>>=◌}
use paste_thek4n_ru.Domain.ApiKey.{ApiKey, new_apikey}
use paste_thek4n_ru.Application.Repository.{ApiKeyRoRepository, ApiKeyWoRepository}
use paste_thek4n_ru.Infrastructure.Redis.{RedisClient}

pub record RedisApiKeyRecord : Type 0 where
  pub id : Bytes
  pub valid : Bool

-- github.com/google/uuid
pub record Uuid : Type 1 where
  pub ApiKeyId : Type 0
  pub parse : Bytes → Result ApiKeyId
  pub to_string : ApiKeyId → Bytes

module _ (uuid : Uuid) {W : Type 0} (client : RedisClient W RedisApiKeyRecord) where
  open uuid use {ApiKeyId, parse, to_string}

  unfoldable pub new_apikey_id : Bytes → Exec W ApiKeyId
  new_apikey_id k = wrap "fail to parse key" (lift (parse k))

  unfoldable pub get_by_id : Bytes → Exec W (ApiKey ApiKeyId)
  unfolding new_apikey_id
  get_by_id key = do
    hash ← wrap "failure get record for key" (client.hget_all_scan key)
    rid ← wrap "fail to parse apikey record id for key" (new_apikey_id hash.id)
    pure (new_apikey rid key hash.valid)

  -- The loop over the keys of one reply.
  unfoldable pub fetch_keys : List Bytes → List (ApiKey ApiKeyId) → Exec W (List (ApiKey ApiKeyId))
  unfolding new_apikey_id
  fetch_keys [] apikeys = pure apikeys
  fetch_keys (key ∷ keys) apikeys = do
    hash ← wrap "fail to scan apikey record" (client.hget_all_scan key)
    rid ← wrap "fail to parse apikey record id for key" (new_apikey_id hash.id)
    fetch_keys keys (apikeys ++ new_apikey rid key hash.valid ∷ [])

  -- The loop over the cursor. The server says when it ends; the context's deadline ends it after
  -- some number of rounds, `fuel`.
  unfoldable pub scan_rounds : ℕ → ℕ → List (ApiKey ApiKeyId) → Exec W (List (ApiKey ApiKeyId))
  unfolding fetch_keys
  scan_rounds zero cursor apikeys = raise (external "context deadline exceeded")
  scan_rounds (suc fuel) cursor apikeys = do
    page ← wrap "fail to scan for apikeys" (client.scan cursor (codes "*") 100)
    all ← fetch_keys page.0 apikeys
    let rest = scan_rounds fuel page.1 all
    if page.1 == 0 then pure all else rest

  unfoldable pub get_all : ℕ → Exec W (List (ApiKey ApiKeyId))
  unfolding scan_rounds
  get_all fuel = scan_rounds fuel 0 []

  unfoldable pub exists : Bytes → Exec W Bool
  exists key = do
    keys_number ← wrap "failure checking is key exists" (client.exists key)
    pure (ltb 0 keys_number)

  unfoldable pub set_by_id : Bytes → ApiKey ApiKeyId → Exec W (Unit {0})
  set_by_id key apikey =
      wrap "failure set apikey for key"
        (client.hset key (record { id = to_string apikey.public_id; valid = apikey.valid }))

  unfoldable pub remove_by_id : Bytes → Exec W (Unit {0})
  remove_by_id key = wrap "failure remove apikey by key" (client.del key)

  abbrev pub ro_repository : ℕ → ApiKeyRoRepository W ApiKeyId
  ro_repository fuel = record { get_by_id = get_by_id; get_all = get_all fuel; exists = exists }

  abbrev pub wo_repository : ApiKeyWoRepository W ApiKeyId
  wo_repository = record { set_by_id = set_by_id; remove_by_id = remove_by_id }
