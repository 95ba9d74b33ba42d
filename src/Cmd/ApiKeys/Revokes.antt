-- ===== src/Cmd/ApiKeys/Revokes.antt =====
-- `apikeys revoke` of cmd/paste/apikey.go, and the server beside it.
use paste_thek4n_ru.Prelude.{ℕ, ◌≡◌, ◌≢◌, List, [], ◌∷◌, ap, get_or}
use paste_thek4n_ru.Prelude.Bytes.{Bytes, codes, bytes_eq}
use paste_thek4n_ru.Exec.{Exec, ok}
use paste_thek4n_ru.Domain.Params.{CacheRequestParams}
use paste_thek4n_ru.Application.Repository.Contract.{IsApiKeyStore}
use paste_thek4n_ru.Application.ApiKeys.{RandomSource, invalidate_apikey}
use paste_thek4n_ru.Application.ApiKeys.Revoked.{over, serve-revoked}
use paste_thek4n_ru.Application.Cache.Serve.{CacheService, serve}
use paste_thek4n_ru.Infrastructure.Redis.{RedisClient}
use paste_thek4n_ru.Infrastructure.ApiKeyRepo.{
  RedisApiKeyRecord, Uuid, ro_repository, wo_repository,
}
use paste_thek4n_ru.Cmd.Console.{Console}
use paste_thek4n_ru.Cmd.Clients.{RedisOptions}
use paste_thek4n_ru.Cmd.ApiKeys.{
  ApiKeysOptions, apikeys_switch, new_redis_client_apikeys, run_parsed, apikeys_command,
}
use paste_thek4n_ru.Cmd.ApiKeys.Exits.{id_command_zero}

module _ (uuid : Uuid) {W : Type 0} (console : Console W) (program : Bytes)
    (random : RandomSource W uuid.ApiKeyId)
    (parse_args : List Bytes → Exec W (ApiKeysOptions × List Bytes))
    (new_client : RedisOptions → RedisClient W RedisApiKeyRecord) (fuel : ℕ)
    (opts : ApiKeysOptions) where
  abbrev client : RedisClient W RedisApiKeyRecord
  client = new_redis_client_apikeys uuid console program random parse_args new_client fuel opts

  revoke-invalidate_apikey :
      (id : Bytes) (rest args : List Bytes) (w : W) {v w' : W}
      → parse_args args w ≡ (ok (opts, codes "revoke" ∷ id ∷ rest), v)
      → apikeys_command uuid console program random parse_args new_client fuel args w ≡ (0, w')
      → invalidate_apikey random (ro_repository uuid client fuel) (wo_repository uuid client) id v
        ≡ (ok tt, w')
  unfolding apikeys_command run_parsed apikeys_switch bytes_eq
  revoke-invalidate_apikey id rest args w {v} {w'} parsed e =
      let (id', rest', same, h) =
        id_command_zero uuid.to_string console program random (ro_repository uuid client fuel)
          (wo_repository uuid client)
          (invalidate_apikey random (ro_repository uuid client fuel) (wo_repository uuid client))
          (codes "Fail to invalidate apikey: ") (10 ∷ []) (id ∷ rest) v (rw parsed at e) in
      let first : id ≡ id' = ap (λ (xs : List Bytes). get_or xs 0 []) same in rw first h

  -- When `apikeys revoke KEY` exits with the code 0, the cache service over the same database
  -- serves no request that gives this key. The store of that database gives what was last set.
  pub revoke-serve :
      (store : IsApiKeyStore (ro_repository uuid client fuel) (wo_repository uuid client))
      (s : CacheService W) (p : CacheRequestParams) (rest args : List Bytes) (w : W) {v w' : W}
      {k : Bytes} {w2 : W}
      → p.apikey ≢ []
      → parse_args args w ≡ (ok (opts, codes "revoke" ∷ p.apikey ∷ rest), v)
      → apikeys_command uuid console program random parse_args new_client fuel args w ≡ (0, w')
      → serve
          (over
            (ro_repository uuid client fuel)
            (wo_repository uuid client)
            store
            random
            uuid.to_string
            s)
          p
          w'
        ≢ (ok k, w2)
  revoke-serve store s p rest args w {v} given parsed e =
      serve-revoked (ro_repository uuid client fuel) (wo_repository uuid client) store random
        uuid.to_string s p v given (revoke-invalidate_apikey p.apikey rest args w parsed e)
