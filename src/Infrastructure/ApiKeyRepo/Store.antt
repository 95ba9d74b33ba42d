-- ===== src/Infrastructure/ApiKeyRepo/Store.antt =====
-- The repositories of internal/infrastructure/repository/apikey.go keep the contract of a store of
-- API keys.
use paste_thek4n_ru.Prelude.{
  ℕ, ◌≡◌, refl, sym, ap, ◌∙◌, Bool, false, Option, none, some, [], arith, inl, inr,
}
use paste_thek4n_ru.Prelude.Bytes.{Bytes}
use paste_thek4n_ru.Exec.{Result, ok, err, run-cases, Result-cases}
use paste_thek4n_ru.Domain.ApiKey.{ApiKey, new_apikey}
use paste_thek4n_ru.Application.Repository.Contract.{IsApiKeyStore}
use paste_thek4n_ru.Infrastructure.Redis.{RedisClient}
use paste_thek4n_ru.Infrastructure.Redis.Answers.{IsLasting, scanned}
use paste_thek4n_ru.Infrastructure.ApiKeyRepo.{
  RedisApiKeyRecord, Uuid, new_apikey_id, get_by_id, exists, set_by_id, ro_repository,
  wo_repository,
}

abbrev pub no_apikey : RedisApiKeyRecord
no_apikey = record { id = []; valid = false }

-- The text of an identifier reads back as it, and the empty text is none.
pub record IsUuid (uuid : Uuid) : Type 0 where
  pub no_empty : (r : uuid.ApiKeyId) → uuid.parse [] ≡ ok r → ⊥
  pub parse-to_string : (r : uuid.ApiKeyId) → uuid.parse (uuid.to_string r) ≡ ok r

module _ (uuid : Uuid) (law : IsUuid uuid) {W : Type 0} (client : RedisClient W RedisApiKeyRecord)
    (hash : W → Bytes → Option RedisApiKeyRecord) (lasts : IsLasting client no_apikey hash) where
  abbrev parsed : Bytes → Bool → Result uuid.ApiKeyId → Option (ApiKey uuid.ApiKeyId)
  parsed key valid (ok rid) = some (new_apikey rid key valid)
  parsed key valid (err e) = none

  -- The API key that a hash stands for.
  abbrev decoded : Bytes → Option RedisApiKeyRecord → Option (ApiKey uuid.ApiKeyId)
  decoded key none = none
  decoded key (some f) = parsed key f.valid (uuid.parse f.id)

  abbrev view : W → Bytes → Option (ApiKey uuid.ApiKeyId)
  view w key = decoded key (hash w key)

  decoded_scan :
      (id : Bytes) (x : Option RedisApiKeyRecord) (f : RedisApiKeyRecord) {rid : uuid.ApiKeyId}
      → f ≡ scanned no_apikey x
      → uuid.parse f.id ≡ ok rid
      → decoded id x ≡ some (new_apikey rid id f.valid)
  decoded_scan id none f {rid} h e =
      absurd (law.no_empty rid (ap (λ (g : RedisApiKeyRecord). uuid.parse g.id) (sym h) ∙ e))
  decoded_scan id (some g) f h e =
      ap (λ (y : RedisApiKeyRecord). decoded id (some y)) (sym h) ∙ rw e refl

  get_ok :
      (id : Bytes) (w : W) {k : ApiKey uuid.ApiKeyId} {w' : W}
      → get_by_id uuid client id w ≡ (ok k, w')
      → (view w id ≡ some k) × (k.key ≡ id)
  unfolding get_by_id new_apikey_id
  get_ok id w {k} {w'} e = elim (run-cases (client.hget_all_scan id w)) [
    | inr (e', w1, h) ↦ absurd (ground arith)
    | inl (f, w1, h) ↦ elim (Result-cases (uuid.parse f.id)) [
      | inr (e', bad) ↦ absurd (ground arith)
      | inl (rid, good) ↦
          let same : new_apikey rid id f.valid ≡ k = ground arith in
          (
            decoded_scan id (hash w id) f (lasts.hget_ok id w h) good ∙ ap some same,
            ap (λ (x : ApiKey uuid.ApiKeyId). x.key) (sym same),
          )
    ]
  ]

  viewed : (j : Bytes) {v w : W} → hash v ≡ hash w → view v j ≡ view w j
  viewed j same = ap (λ (m : Bytes → Option RedisApiKeyRecord). decoded j (m j)) same

  get_kept : (id j : Bytes) (w : W) → view (get_by_id uuid client id w).1 j ≡ view w j
  unfolding get_by_id new_apikey_id
  get_kept id j w = elim (run-cases (client.hget_all_scan id w)) [
    | inr (e', w1, h) ↦ rw h (viewed j (rw h at (lasts.hget_lasts id w)))
    | inl (f, w1, h) ↦ elim (Result-cases (uuid.parse f.id)) [
      | inr (e', bad) ↦ rw (h, bad) (viewed j (rw h at (lasts.hget_lasts id w)))
      | inl (rid, good) ↦ rw (h, good) (viewed j (rw h at (lasts.hget_lasts id w)))
    ]
  ]

  exists_kept : (id j : Bytes) (w : W) → view (exists uuid client id w).1 j ≡ view w j
  unfolding exists
  exists_kept id j w = elim (run-cases (client.exists id w)) [
    | inr (e', w1, h) ↦ rw h (viewed j (rw h at (lasts.exists_lasts id w)))
    | inl (n, w1, h) ↦ rw h (viewed j (rw h at (lasts.exists_lasts id w)))
  ]

  set_ok :
      (id : Bytes) (k : ApiKey uuid.ApiKeyId) (w : W) {w' : W}
      → k.key ≡ id
      → set_by_id uuid client id k w ≡ (ok tt, w')
      → view w' id ≡ some k
  unfolding set_by_id
  set_ok id k w {w'} same e =
      let f : RedisApiKeyRecord = record { id = uuid.to_string k.public_id; valid = k.valid } in
      let written : client.hset id f w ≡ (ok tt, w') = ground arith in
      rw (lasts.hset_ok id f w written, law.parse-to_string k.public_id)
        (ap (λ (key : Bytes). some (new_apikey k.public_id key k.valid)) (sym same))

  -- Over Redis, where an API key has no timeout, the repositories are a store of API keys: a key
  -- that is read is the one that was last set, reading and looking change none, and a key that is
  -- not there is never read as one.
  pub apikey_repository-IsApiKeyStore :
      (fuel : ℕ) → IsApiKeyStore (ro_repository uuid client fuel) (wo_repository uuid client)
  apikey_repository-IsApiKeyStore fuel = record {
    view = view;
    get_ok = get_ok;
    get_kept = get_kept;
    exists_kept = exists_kept;
    set_ok = set_ok;
  }
