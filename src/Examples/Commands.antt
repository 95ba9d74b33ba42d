-- ===== src/Examples/Commands.antt =====
-- The commands of cmd/paste over the memory of the examples.
use paste_thek4n_ru.Prelude.{◌≡◌, ◌≢◌, ◌↔◌, refl, true, List, [], ◌∷◌}
use paste_thek4n_ru.Prelude.Int.{pos}
use paste_thek4n_ru.Prelude.Bytes.{Bytes, codes, bytes_eq}
use paste_thek4n_ru.Exec.{Exec, ok}
use paste_thek4n_ru.Domain.ApiKey.{invalidate}
use paste_thek4n_ru.Application.ApiKeys.{invalidate_apikey}
use paste_thek4n_ru.Application.ApiKeys.Revoked.{over}
use paste_thek4n_ru.Application.Cache.Serve.{serve}
use paste_thek4n_ru.Infrastructure.Redis.{RedisClient}
use paste_thek4n_ru.Infrastructure.ApiKeyRepo.{
  RedisApiKeyRecord, new_apikey_id, get_by_id, set_by_id, ro_repository, wo_repository,
}
use paste_thek4n_ru.Cmd.Console.{Console}
use paste_thek4n_ru.Cmd.Clients.{RedisOptions}
use paste_thek4n_ru.Cmd.ApiKeys.{ApiKeysOptions, apikeys_switch, apikeys_command}
use paste_thek4n_ru.Cmd.ApiKeys.Exits.{Succeeds, apikeys_command-Succeeds}
use paste_thek4n_ru.Cmd.ApiKeys.Revokes.{revoke-serve}
use paste_thek4n_ru.Cmd.Ping.{
  PingOptions, HealthcheckResponse, Response, get_request, simple_healthcheck,
  simple_healthcheck_200, decode_health, json_healthcheck, close_and_exit, ping_url, ping_parsed,
  ping_command,
}
use paste_thek4n_ru.Cmd.Ping.Healthy.{IsHealthy, ping_command-IsHealthy}
use paste_thek4n_ru.Examples.World.{World}
use paste_thek4n_ru.Examples.Memory.{service}
use paste_thek4n_ru.Examples.Inputs.{with_key}
use paste_thek4n_ru.Examples.ApiKeys.{uuid, client, random, store, secret, issued, given}

-- What is printed is not kept.
abbrev pub console : Console World
console = record { stdout = λ s w. w; stderr = λ s w. w; error_text = λ e. [] }

abbrev program : Bytes
program = codes "paste"

abbrev default_options : ApiKeysOptions
default_options = record { db_port = pos 6379; db_host = codes "localhost" }

-- No option is given.
abbrev parse_args : List Bytes → Exec World (ApiKeysOptions × List Bytes)
parse_args args w = (ok (default_options, args), w)

abbrev new_client : RedisOptions → RedisClient World RedisApiKeyRecord
new_client opts = client

abbrev revoke_secret : List Bytes
revoke_secret = codes "revoke" ∷ secret ∷ []

abbrev revoked : World
revoked =
    (invalidate_apikey random (ro_repository uuid client 1) (wo_repository uuid client) secret
      issued).1

revoking :
    apikeys_command uuid console program random parse_args new_client 1 revoke_secret issued
    ≡ (0, revoked)
unfolding apikeys_command apikeys_switch invalidate_apikey invalidate get_by_id new_apikey_id
    set_by_id bytes_eq
revoking = refl

apikeys_command-Succeeds_example :
    Succeeds uuid console program random parse_args new_client 1 revoke_secret issued revoked
apikeys_command-Succeeds_example =
    apikeys_command-Succeeds uuid console program random parse_args new_client 1 revoke_secret
      issued revoking

revoke-serve_example :
    serve
      (over
        (ro_repository uuid client 1)
        (wo_repository uuid client)
        store
        random
        uuid.to_string
        service)
      with_key
      revoked
    ≢ (ok (codes "notes"), revoked)
revoke-serve_example =
    revoke-serve uuid console program random parse_args new_client 1 default_options store service
      with_key [] revoke_secret issued given refl revoking

abbrev healthy : HealthcheckResponse
healthy = record { version = codes "1"; availability = true; msg = codes "ok" }

abbrev answer : Response World
answer = record { status_code = 200; decode = λ w. (ok healthy, w); close = λ w. (ok tt, w) }

-- Every URL answers.
abbrev http_get : Bytes → Exec World (Response World)
http_get url w = (ok answer, w)

abbrev ping_options : PingOptions
ping_options = record { method = codes "json" }

abbrev parse_ping : List Bytes → Exec World (PingOptions × List Bytes)
parse_ping args w = (ok (ping_options, args), w)

abbrev ping_args : List Bytes
ping_args = codes "http://localhost/health/" ∷ []

ping_command-IsHealthy_example :
    (ping_command console http_get parse_ping ping_args issued ≡ (0, issued))
    ↔ IsHealthy console http_get (codes "http://localhost/health/") issued issued
ping_command-IsHealthy_example =
    ping_command-IsHealthy console http_get parse_ping ping_args (codes "http://localhost/health/")
      [] issued refl

pinged : ping_command console http_get parse_ping ping_args issued ≡ (0, issued)
unfolding ping_command ping_parsed ping_url close_and_exit json_healthcheck simple_healthcheck_200
    simple_healthcheck get_request decode_health bytes_eq
pinged = refl
