-- ===== src/Examples/ApiKeys.antt =====
-- API keys in memory, and their invalidation.
use paste_thek4n_ru.Prelude.{
  List, ℕ, zero, suc, ◌<◌, All, length, subst, arith, replicate, length-replicate, ◌∷◌, Bool, ◌≡◌,
  ◌≢◌, refl, sym, ap, ◌∙◌, true, false, some, [],
}
use paste_thek4n_ru.Prelude.Bytes.{Bytes, codes, bytes_eq}
use paste_thek4n_ru.Errors.{plain}
use paste_thek4n_ru.Exec.{Result, ok, err, outcome}
use paste_thek4n_ru.Std.Hex.{encode_to_string}
use paste_thek4n_ru.Domain.ApiKey.{ApiKey, invalidate, reauthorize}
use paste_thek4n_ru.Application.Repository.Contract.{IsApiKeyStore}
use paste_thek4n_ru.Infrastructure.Redis.{RedisClient}
use paste_thek4n_ru.Infrastructure.Redis.Answers.{IsLasting}
use paste_thek4n_ru.Infrastructure.ApiKeyRepo.{
  RedisApiKeyRecord, Uuid, new_apikey_id, get_by_id, set_by_id, get_all, ro_repository,
  wo_repository,
}
use paste_thek4n_ru.Infrastructure.ApiKeyRepo.Store.{
  no_apikey, IsUuid, apikey_repository-IsApiKeyStore,
}
use paste_thek4n_ru.Application.Repository.{ApiKeyRoRepository, ApiKeyWoRepository}
use paste_thek4n_ru.Infrastructure.ApiKeyRepo.Listing.{
  Scanned, last, more, one_more, none_left, get_all-Scanned,
}
use paste_thek4n_ru.Application.Validator.{check_valid}
use paste_thek4n_ru.Application.ApiKeys.Generated.{IsRandom, IsIssued, generate_apikey-IsIssued}
use paste_thek4n_ru.Application.ApiKeys.{
  RandomSource, generate_apikey, invalidate_apikey, reauthorize_apikey,
}
use paste_thek4n_ru.Application.ApiKeys.Revoked.{over, serve-revoked}
use paste_thek4n_ru.Application.Cache.Serve.{serve}
use paste_thek4n_ru.Examples.World.{
  World, Place, client_at, put, put-same, same_world, same_value, empty_world,
}
use paste_thek4n_ru.Examples.Memory.{service}
use paste_thek4n_ru.Examples.Inputs.{with_key}

abbrev apikeys_place : Place RedisApiKeyRecord
apikeys_place = record { get = λ w. w.apikeys; set = λ m w. record w { apikeys = m } }

abbrev pub client : RedisClient World RedisApiKeyRecord
client = client_at apikeys_place no_apikey

-- Identifiers are numbers, whose text is one byte long.
abbrev parse : Bytes → Result ℕ
parse (n ∷ []) = ok n
parse _ = err (plain "invalid UUID length")

abbrev pub uuid : Uuid
uuid = record { ApiKeyId = ℕ; parse = parse; to_string = λ n. n ∷ [] }

uuid-IsUuid : IsUuid uuid
uuid-IsUuid = record { no_empty = λ r h. cc h; parse-to_string = λ r. refl }

client-IsLasting : IsLasting client no_apikey (λ (w : World). w.apikeys)
client-IsLasting = record {
  exists_lasts = λ k w. refl;
  hget_lasts = λ k w. refl;
  hget_ok = λ k w e. sym (same_value e);
  hset_ok =
      λ k f w e. ap (λ (x : World). x.apikeys k) (same_world e) ∙ put-same k (some f) w.apikeys;
}

abbrev ro : ApiKeyRoRepository World ℕ
ro = ro_repository uuid client 1

abbrev wo : ApiKeyWoRepository World ℕ
wo = wo_repository uuid client

apikey_repository-IsApiKeyStore_example :
    IsApiKeyStore (ro_repository uuid client 1) (wo_repository uuid client)
apikey_repository-IsApiKeyStore_example =
    apikey_repository-IsApiKeyStore uuid uuid-IsUuid client (λ (w : World). w.apikeys)
      client-IsLasting 1

pub store : IsApiKeyStore ro wo
store =
    apikey_repository-IsApiKeyStore uuid uuid-IsUuid client (λ (w : World). w.apikeys)
      client-IsLasting 1

abbrev pub random : RandomSource World ℕ
random = record { read = λ n w. (ok (replicate n 0), w); new_random = λ w. (ok 7, w) }

zeros-All : (n : ℕ) → All (λ b. b < 256) (replicate n 0)
zeros-All zero = tt
zeros-All (suc n) = (omega arith, zeros-All n)

random-IsRandom : IsRandom ro wo random
random-IsRandom = record {
  filled = λ n w e.
      subst (λ bs. (length bs ≡ n) × All (λ b. b < 256) bs) (same_value e)
        (length-replicate n 0, zeros-All n);
}

abbrev new_key : ApiKey ℕ
new_key = record { key = replicate 32 48; public_id = 7; valid = true }

abbrev after_new : World
after_new = (generate_apikey random ro wo empty_world).1

generated : generate_apikey random ro wo empty_world ≡ (ok new_key, after_new)
unfolding generate_apikey encode_to_string set_by_id
generated = refl

generate_apikey-IsIssued_example : IsIssued ro wo random store after_new new_key
generate_apikey-IsIssued_example =
    generate_apikey-IsIssued ro wo random store random-IsRandom empty_world generated

abbrev pub secret : Bytes
secret = codes "secret"

abbrev valid_key : RedisApiKeyRecord
valid_key = record { id = 7 ∷ []; valid = true }

abbrev pub issued : World
issued = record empty_world { apikeys = put secret (some valid_key) empty_world.apikeys }

abbrev revoked : World
revoked = (invalidate_apikey random ro wo secret issued).1

abbrev restored : World
restored = (reauthorize_apikey random ro wo secret revoked).1

revoking : invalidate_apikey random ro wo secret issued ≡ (ok tt, revoked)
unfolding invalidate_apikey invalidate get_by_id new_apikey_id set_by_id bytes_eq
revoking = refl

restoring : reauthorize_apikey random ro wo secret revoked ≡ (ok tt, restored)
unfolding reauthorize_apikey reauthorize invalidate_apikey invalidate get_by_id new_apikey_id
    set_by_id bytes_eq
restoring = refl

-- What the two checks say.
abbrev said : Bool
said = outcome (check_valid uuid.to_string ro secret revoked) (λ b w. b) (λ e w. true)

abbrev said_again : Bool
said_again = outcome (check_valid uuid.to_string ro secret restored) (λ b w. b) (λ e w. false)

checked : check_valid uuid.to_string ro secret revoked ≡ (ok said, revoked)
unfolding check_valid invalidate_apikey invalidate get_by_id new_apikey_id set_by_id bytes_eq
checked = refl

checked_again : check_valid uuid.to_string ro secret restored ≡ (ok said_again, restored)
unfolding check_valid reauthorize_apikey reauthorize invalidate_apikey invalidate get_by_id
    new_apikey_id set_by_id bytes_eq
checked_again = refl

pub given : secret ≢ []
given h = cc h

serve-revoked_example :
    serve (over ro wo store random uuid.to_string service) with_key revoked
    ≢ (ok (codes "notes"), revoked)
serve-revoked_example =
    serve-revoked ro wo store random uuid.to_string service with_key issued given revoking

-- A scan of two replies: the key, and nothing.
abbrev pages : ℕ → List Bytes × ℕ
pages zero = (secret ∷ [], 1)
pages (suc _) = ([], 0)

abbrev paged : RedisClient World RedisApiKeyRecord
paged = record client { scan = λ cursor match' count w. (ok (pages cursor), w) }

abbrev secret_key : ApiKey ℕ
secret_key = record { key = secret; public_id = 7; valid = true }

found_secret : get_by_id uuid paged secret issued ≡ (ok secret_key, issued)
unfolding get_by_id new_apikey_id bytes_eq
found_secret = refl

two_replies : Scanned uuid paged 2 0 issued (secret_key ∷ []) issued
two_replies = more refl (one_more found_secret none_left) (last refl none_left)

get_all-Scanned_example : get_all uuid paged 5 issued ≡ (ok (secret_key ∷ []), issued)
get_all-Scanned_example = get_all-Scanned uuid paged 5 two_replies (omega arith)
