-- ===== src/Cmd/ApiKeys.antt =====
-- cmd/paste/apikey.go: the command `apikeys`. `W` is the world, in which the console stands too; a
-- command is a function to its exit code and the world that it leaves.
pub mod Exits
pub mod Revokes
use paste_thek4n_ru.Prelude.{ℕ, suc, Bool, true, false, List, [], ◌∷◌, ◌++◌, if◌then◌else◌}
use paste_thek4n_ru.Prelude.Bytes.{Bytes, codes, bytes_eq}
use paste_thek4n_ru.Prelude.Int.{ℤ}
use paste_thek4n_ru.Exec.{Exec, outcome}
use paste_thek4n_ru.Std.Itoa.{itoa}
use paste_thek4n_ru.Domain.ApiKey.{ApiKey}
use paste_thek4n_ru.Application.Repository.{ApiKeyRoRepository, ApiKeyWoRepository}
use paste_thek4n_ru.Application.ApiKeys.{
  RandomSource, fetch_all, generate_apikey, invalidate_apikey, reauthorize_apikey, remove_apikey,
}
use paste_thek4n_ru.Cmd.Console.{Console, Exit}
use paste_thek4n_ru.Infrastructure.Redis.{RedisClient}
use paste_thek4n_ru.Infrastructure.ApiKeyRepo.{
  RedisApiKeyRecord, Uuid, ro_repository, wo_repository,
}
use paste_thek4n_ru.Cmd.Columns.{column_t}
use paste_thek4n_ru.Cmd.Clients.{RedisOptions, redis_options}

pub record ApiKeysOptions : Type 0 where
  pub db_port : ℤ
  pub db_host : Bytes

-- "№\tKey\tId\tStatus\n"
abbrev pub apikeys_list_header : Bytes
apikeys_list_header =
    (0xE2 ∷ 0x84 ∷ 0x96 ∷ 9 ∷ [])
    ++ codes "Key"
    ++ (9 ∷ codes "Id")
    ++ (9 ∷ codes "Status")
    ++ (10 ∷ [])

-- "✅valid" and "❌invalid"
abbrev pub status_text : Bool → Bytes
status_text true = 0xE2 ∷ 0x9C ∷ 0x85 ∷ codes "valid"
status_text false = 0xE2 ∷ 0x9D ∷ 0x8C ∷ codes "invalid"

abbrev join_lines : List Bytes → Bytes
join_lines [] = []
join_lines (line ∷ []) = line
join_lines (line ∷ rest) = line ++ (10 ∷ join_lines rest)

abbrev usage_message : Bytes → Bytes
usage_message program = join_lines (
    (codes "usage: " ++ program ++ codes " apikeys <command> [args]")
    ∷ []
    ∷ codes "Commands:"
    ∷ codes "\tlist          List apikeys"
    ∷ codes "\tgen           Generate new apikey"
    ∷ codes "\trevoke        Revoke apikey"
    ∷ codes "\treauthorize   Reauthorize revoked apikey"
    ∷ codes "\trm            Reauthorize revoked apikey"
    ∷ [])

-- `to_string` is the text of an id, and `program` os.Args[0].
module _ {W ApiKeyId : Type 0} (to_string : ApiKeyId → Bytes) (console : Console W)
    (program : Bytes) where
  unfoldable pub format_apikey_string : ApiKey ApiKeyId → Bytes
  format_apikey_string apikey =
      apikey.key ++ (9 ∷ to_string apikey.public_id) ++ (9 ∷ status_text apikey.valid)

  -- The loop, from the item of index `n` on, with what `res` has so far.
  print_apikeys_from : ℕ → Bytes → List (ApiKey ApiKeyId) → Bytes
  print_apikeys_from n res [] = res
  print_apikeys_from n res (apikey ∷ apikeys) =
      print_apikeys_from (suc n)
        (res ++ (10 ∷ itoa (suc n)) ++ (32 ∷ format_apikey_string apikey) ++ (10 ∷ [])) apikeys

  unfoldable pub print_apikeys : List (ApiKey ApiKeyId) → Bytes
  unfolding print_apikeys_from
  print_apikeys apikeys = print_apikeys_from 0 [] apikeys

  unfoldable pub print_usage : W → W
  print_usage = console.stderr (usage_message program)

  module _ (random : RandomSource W ApiKeyId) (ro : ApiKeyRoRepository W ApiKeyId)
      (wo : ApiKeyWoRepository W ApiKeyId) where
    unfoldable pub list_command : Exit W
    list_command w =
        outcome (fetch_all random ro wo w)
          (λ apikeys w'.
            (0, console.stdout (column_t (apikeys_list_header ++ (10 ∷ print_apikeys apikeys))) w'))
          (λ e w'. (
            2,
            console.stderr (codes "Fail to generate apikey: " ++ console.error_text e ++ (10 ∷ []))
                w',
          ))

    unfoldable pub gen_command : Exit W
    gen_command w =
        outcome (generate_apikey random ro wo w)
          (λ apikey w'. (
            0,
            console.stdout
                (column_t (
                  codes "Key"
                  ++ (9 ∷ codes "Id")
                  ++ (9 ∷ codes "Status")
                  ++ (10 ∷ format_apikey_string apikey)))
                w',
          ))
          (λ e w'. (2, console.stderr (codes "Fail to generate apikey" ++ (10 ∷ [])) w'))

    -- A command on the key of the first argument; `failure` is what is said before the error, and
    -- `end` after it.
    unfoldable pub id_command : (Bytes → Exec W (Unit {0})) → Bytes → Bytes → List Bytes → Exit W
    id_command operation failure end [] w =
        (2, console.stderr (codes "Parse params error: apikey id not provided" ++ (10 ∷ [])) w)
    id_command operation failure end (id ∷ rest) w =
        outcome (operation id w) (λ done w'. (0, w'))
          (λ e w'. (2, console.stderr (failure ++ console.error_text e ++ end) w'))

    -- The switch on the command.
    unfoldable pub apikeys_switch : Bytes → List Bytes → Exit W
    unfolding list_command gen_command id_command print_usage
    apikeys_switch command args =
        if bytes_eq command (codes "list")
        then list_command
        else if bytes_eq command (codes "gen")
        then gen_command
        else if bytes_eq command (codes "revoke")
        then id_command (invalidate_apikey random ro wo) (codes "Fail to invalidate apikey: ")
            (10 ∷ []) args
        else if bytes_eq command (codes "reauthorize")
        then id_command (reauthorize_apikey random ro wo) (codes "Fail to reauthorize apikey: ")
            (10 ∷ []) args
        else if bytes_eq command (codes "rm")
        then id_command (remove_apikey random ro wo) (codes "Fail to remove apikey: ") [] args
        else (λ w. (1, print_usage w))

-- `parse_args` is `flags.NewParser(&opts, flags.Default).ParseArgs`, `new_client` is
-- `redis.NewClient`, and `fuel` bounds the replies of one scan.
module _ (uuid : Uuid) {W : Type 0} (console : Console W) (program : Bytes)
    (random : RandomSource W uuid.ApiKeyId)
    (parse_args : List Bytes → Exec W (ApiKeysOptions × List Bytes))
    (new_client : RedisOptions → RedisClient W RedisApiKeyRecord) (fuel : ℕ) where
  abbrev pub new_redis_client_apikeys : ApiKeysOptions → RedisClient W RedisApiKeyRecord
  new_redis_client_apikeys opts = new_client (redis_options opts.db_host opts.db_port 2)

  unfoldable pub run_parsed : ApiKeysOptions → List Bytes → Exit W
  unfolding apikeys_switch print_usage
  run_parsed opts [] w = (1, print_usage uuid.to_string console program w)
  run_parsed opts (command ∷ args) w =
      let client = new_redis_client_apikeys opts in
      apikeys_switch uuid.to_string console program random (ro_repository uuid client fuel)
        (wo_repository uuid client) command args w

  unfoldable pub apikeys_command : List Bytes → Exit W
  unfolding run_parsed
  apikeys_command args w =
      outcome (parse_args args w) (λ parsed w'. run_parsed parsed.0 parsed.1 w')
        (λ e w'. (
          2,
          console.stderr (codes "Parse params error: " ++ console.error_text e ++ (10 ∷ [])) w',
        ))
