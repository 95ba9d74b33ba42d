-- ===== src/Cmd/ApiKeys/Exits.antt =====
-- The exit codes of `apikeysCommand` of cmd/paste/apikey.go.
use paste_thek4n_ru.Prelude.{ℕ, ◌≡◌, refl, inl, inr, List, [], ◌∷◌, arith, Bool-cases}
use paste_thek4n_ru.Prelude.Bytes.{Bytes, codes, bytes_eq, bytes_eq_iff}
use paste_thek4n_ru.Exec.{Exec, ok, run-cases}
use paste_thek4n_ru.Domain.ApiKey.{ApiKey}
use paste_thek4n_ru.Application.Repository.{ApiKeyRoRepository, ApiKeyWoRepository}
use paste_thek4n_ru.Application.ApiKeys.{
  RandomSource, fetch_all, generate_apikey, invalidate_apikey, reauthorize_apikey, remove_apikey,
}
use paste_thek4n_ru.Cmd.Console.{Console}
use paste_thek4n_ru.Infrastructure.Redis.{RedisClient}
use paste_thek4n_ru.Infrastructure.ApiKeyRepo.{
  RedisApiKeyRecord, Uuid, ro_repository, wo_repository,
}
use paste_thek4n_ru.Cmd.Clients.{RedisOptions}
use paste_thek4n_ru.Cmd.ApiKeys.{
  ApiKeysOptions, list_command, gen_command, id_command, apikeys_switch, new_redis_client_apikeys,
  run_parsed, apikeys_command,
}

module _ {W ApiKeyId : Type 0} (to_string : ApiKeyId → Bytes) (console : Console W)
    (program : Bytes) (random : RandomSource W ApiKeyId) (ro : ApiKeyRoRepository W ApiKeyId)
    (wo : ApiKeyWoRepository W ApiKeyId) where
  -- The arguments name an operation of the service, and it returns no error.
  pub data IsDone (command : Bytes) (args : List Bytes) (w w' : W) : Type 0 where
    listed :
        (keys : List (ApiKey ApiKeyId)) (v : W)
        → command ≡ codes "list"
        → fetch_all random ro wo w ≡ (ok keys, v)
        → IsDone command args w w'
    generated :
        (key : ApiKey ApiKeyId) (v : W)
        → command ≡ codes "gen"
        → generate_apikey random ro wo w ≡ (ok key, v)
        → IsDone command args w w'
    revoked :
        (id : Bytes) (rest : List Bytes)
        → command ≡ codes "revoke"
        → args ≡ id ∷ rest
        → invalidate_apikey random ro wo id w ≡ (ok tt, w')
        → IsDone command args w w'
    reauthorized :
        (id : Bytes) (rest : List Bytes)
        → command ≡ codes "reauthorize"
        → args ≡ id ∷ rest
        → reauthorize_apikey random ro wo id w ≡ (ok tt, w')
        → IsDone command args w w'
    removed :
        (id : Bytes) (rest : List Bytes)
        → command ≡ codes "rm"
        → args ≡ id ∷ rest
        → remove_apikey random ro wo id w ≡ (ok tt, w')
        → IsDone command args w w'

  pub id_command_zero :
      (operation : Bytes → Exec W (Unit {0})) (failure end : Bytes) (args : List Bytes) (w : W)
      {w' : W}
      → id_command to_string console program random ro wo operation failure end args w ≡ (0, w')
      → (id : Bytes) × (rest : List Bytes) × (args ≡ id ∷ rest) × (operation id w ≡ (ok tt, w'))
  unfolding id_command
  id_command_zero operation failure end [] w e = absurd (ground arith)
  id_command_zero operation failure end (id ∷ rest) w e = elim (run-cases (operation id w)) [
    | inl (done, v, h) ↦ (id, rest, refl, ground arith)
    | inr (e', v, h) ↦ absurd (ground arith)
  ]

  list_command_zero :
      (w : W) {w' : W}
      → list_command to_string console program random ro wo w ≡ (0, w')
      → (keys : List (ApiKey ApiKeyId)) × (v : W) × (fetch_all random ro wo w ≡ (ok keys, v))
  unfolding list_command
  list_command_zero w e = elim (run-cases (fetch_all random ro wo w)) [
    | inl (keys, v, h) ↦ (keys, v, h)
    | inr (e', v, h) ↦ absurd (ground arith)
  ]

  gen_command_zero :
      (w : W) {w' : W}
      → gen_command to_string console program random ro wo w ≡ (0, w')
      → (key : ApiKey ApiKeyId) × (v : W) × (generate_apikey random ro wo w ≡ (ok key, v))
  unfolding gen_command
  gen_command_zero w e = elim (run-cases (generate_apikey random ro wo w)) [
    | inl (key, v, h) ↦ (key, v, h)
    | inr (e', v, h) ↦ absurd (ground arith)
  ]

  apikeys_switch-IsDone :
      (command : Bytes) (args : List Bytes) (w : W) {w' : W}
      → apikeys_switch to_string console program random ro wo command args w ≡ (0, w')
      → IsDone command args w w'
  unfolding apikeys_switch
  apikeys_switch-IsDone command args w e = elim (Bool-cases (bytes_eq command (codes "list"))) [
    | inl is ↦
        let (keys, v, h) = list_command_zero w (rw is at e) in
        listed keys v ((bytes_eq_iff command (codes "list")).0 is) h
    | inr no1 ↦ elim (Bool-cases (bytes_eq command (codes "gen"))) [
      | inl is ↦
          let (key, v, h) = gen_command_zero w (rw (no1, is) at e) in
          generated key v ((bytes_eq_iff command (codes "gen")).0 is) h
      | inr no2 ↦ elim (Bool-cases (bytes_eq command (codes "revoke"))) [
        | inl is ↦
            let (id, rest, a, h) =
              id_command_zero (invalidate_apikey random ro wo) (codes "Fail to invalidate apikey: ")
                (10 ∷ []) args w (rw (no1, no2, is) at e) in
            revoked id rest ((bytes_eq_iff command (codes "revoke")).0 is) a h
        | inr no3 ↦ elim (Bool-cases (bytes_eq command (codes "reauthorize"))) [
          | inl is ↦
              let (id, rest, a, h) =
                id_command_zero (reauthorize_apikey random ro wo)
                  (codes "Fail to reauthorize apikey: ") (10 ∷ []) args w
                  (rw (no1, no2, no3, is) at e) in
              reauthorized id rest ((bytes_eq_iff command (codes "reauthorize")).0 is) a h
          | inr no4 ↦ elim (Bool-cases (bytes_eq command (codes "rm"))) [
            | inl is ↦
                let (id, rest, a, h) =
                  id_command_zero (remove_apikey random ro wo) (codes "Fail to remove apikey: ") []
                    args w (rw (no1, no2, no3, no4, is) at e) in
                removed id rest ((bytes_eq_iff command (codes "rm")).0 is) a h
            | inr no5 ↦ (let bad = rw (no1, no2, no3, no4, no5) at e in absurd (ground arith))
          ]
        ]
      ]
    ]
  ]

module _ (uuid : Uuid) {W : Type 0} (console : Console W) (program : Bytes)
    (random : RandomSource W uuid.ApiKeyId)
    (parse_args : List Bytes → Exec W (ApiKeysOptions × List Bytes))
    (new_client : RedisOptions → RedisClient W RedisApiKeyRecord) (fuel : ℕ) where
  -- The command that the arguments name was done, over the database that the options name.
  pub record Succeeds (args : List Bytes) (w w' : W) : Type 0 where
    opts : ApiKeysOptions
    command : Bytes
    rest : List Bytes
    parsed_world : W
    parsed : parse_args args w ≡ (ok (opts, command ∷ rest), parsed_world)
    done :
        let client =
          new_redis_client_apikeys uuid console program random parse_args new_client fuel opts in
        IsDone uuid.to_string console program random
          (ro_repository uuid client fuel)
          (wo_repository uuid client)
          command
          rest
          parsed_world
          w'

  run_parsed-IsDone :
      (opts : ApiKeysOptions) (args : List Bytes) (w : W) {w' : W}
      → run_parsed uuid console program random parse_args new_client fuel opts args w ≡ (0, w')
      → (command : Bytes) × (rest : List Bytes) × (args ≡ command ∷ rest)
        × (let client =
              new_redis_client_apikeys uuid console program random parse_args new_client fuel
                opts in
            IsDone uuid.to_string console program random
              (ro_repository uuid client fuel)
              (wo_repository uuid client)
              command
              rest
              w
              w')
  unfolding run_parsed
  run_parsed-IsDone opts [] w e = absurd (ground arith)
  run_parsed-IsDone opts (command ∷ rest) w e = (
    command,
    rest,
    refl,
    apikeys_switch-IsDone uuid.to_string console program random _ _ command rest w e,
  )

  -- The exit code 0 of `apikeys` says that the arguments name one of its commands, and that the
  -- operation of the service that belongs to it returned no error over the database of the options.
  -- A command that changes a key leaves the world as that operation left it.
  pub apikeys_command-Succeeds :
      (args : List Bytes) (w : W) {w' : W}
      → apikeys_command uuid console program random parse_args new_client fuel args w ≡ (0, w')
      → Succeeds args w w'
  unfolding apikeys_command
  apikeys_command-Succeeds args w {w'} e = elim (run-cases (parse_args args w)) [
    | inr (e', v, h) ↦ absurd (ground arith)
    | inl ((opts, given), v, h) ↦
        let (command, rest, shape, done) = run_parsed-IsDone opts given v (rw h at e) in
        record {
          opts = opts;
          command = command;
          rest = rest;
          parsed_world = v;
          parsed = rw (← shape) h;
          done = done;
        }
  ]
