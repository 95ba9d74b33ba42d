-- ===== src/Infrastructure/ApiKeyRepo/Listing.antt =====
-- `GetAll` of internal/infrastructure/repository/apikey.go.
use mathlib.Core.List.{append-nil, append_assoc}
use paste_thek4n_ru.Prelude.{
  ℕ, zero, suc, ◌≤◌, ◌≡◌, refl, ◌∙◌, ap, List, [], ◌∷◌, ◌++◌, ◌==◌, false, arith, inl, inr,
}
use paste_thek4n_ru.Prelude.Bytes.{Bytes, codes}
use paste_thek4n_ru.Exec.{ok, run-cases}
use paste_thek4n_ru.Domain.ApiKey.{ApiKey, new_apikey}
use paste_thek4n_ru.Infrastructure.Redis.{RedisClient}
use paste_thek4n_ru.Infrastructure.ApiKeyRepo.{
  RedisApiKeyRecord, Uuid, new_apikey_id, get_by_id, fetch_keys, scan_rounds, get_all,
}

module _ (uuid : Uuid) {W : Type 0} (client : RedisClient W RedisApiKeyRecord) where
  open uuid use {ApiKeyId}

  -- What `GetByID` gives for each of some keys, one after the other.
  pub data Fetched : List Bytes → W → List (ApiKey ApiKeyId) → W → Type 0 where
    none_left : {w : W} → Fetched [] w [] w
    one_more :
        {key : Bytes} {keys : List Bytes} {w v w' : W} {k : ApiKey ApiKeyId}
        {ks : List (ApiKey ApiKeyId)}
        → get_by_id uuid client key w ≡ (ok k, v)
        → Fetched keys v ks w'
        → Fetched (key ∷ keys) w (k ∷ ks) w'

  -- A scan from a cursor that comes to its end with the given number of replies, and the API keys
  -- of their keys.
  pub data Scanned : ℕ → ℕ → W → List (ApiKey ApiKeyId) → W → Type 0 where
    last :
        {cursor : ℕ} {keys : List Bytes} {w v w' : W} {ks : List (ApiKey ApiKeyId)}
        → client.scan cursor (codes "*") 100 w ≡ (ok (keys, 0), v)
        → Fetched keys v ks w'
        → Scanned 1 cursor w ks w'
    more :
        {n cursor next : ℕ} {keys : List Bytes} {w v u w' : W} {ks rest : List (ApiKey ApiKeyId)}
        → client.scan cursor (codes "*") 100 w ≡ (ok (keys, suc next), v)
        → Fetched keys v ks u
        → Scanned n (suc next) u rest w'
        → Scanned (suc n) cursor w (ks ++ rest) w'

  fetch_keys-step :
      (key : Bytes) (keys : List Bytes) (sofar : List (ApiKey ApiKeyId)) (w : W) {v : W}
      {k : ApiKey ApiKeyId}
      → get_by_id uuid client key w ≡ (ok k, v)
      → fetch_keys uuid client (key ∷ keys) sofar w
        ≡ fetch_keys uuid client keys (sofar ++ k ∷ []) v
  unfolding fetch_keys get_by_id
  fetch_keys-step key keys sofar w {v} {k} e = elim (run-cases (client.hget_all_scan key w)) [
    | inr (e', v', h) ↦ absurd (ground arith)
    | inl (hash, v', h) ↦ elim (run-cases (new_apikey_id uuid client hash.id v')) [
      | inr (e', v2, h2) ↦ absurd (ground arith)
      | inl (rid, v2, h2) ↦
          let same : new_apikey rid key hash.valid ≡ k = ground arith in
          let there : v2 ≡ v = ground arith in rw (h, h2, same, there) refl
    ]
  ]

  fetch_keys-Fetched :
      (keys : List Bytes) (sofar : List (ApiKey ApiKeyId)) {w w' : W} {ks : List (ApiKey ApiKeyId)}
      → Fetched keys w ks w'
      → fetch_keys uuid client keys sofar w ≡ (ok (sofar ++ ks), w')
  unfolding fetch_keys
  fetch_keys-Fetched _ sofar none_left = rw (append-nil {A = ApiKey ApiKeyId} sofar) refl
  fetch_keys-Fetched _ sofar (one_more {key} {keys} {w} {v} {w'} {k} {ks} e rest) =
      fetch_keys-step key keys sofar w e
      ∙ fetch_keys-Fetched keys (sofar ++ k ∷ []) rest
      ∙ ap (λ (xs : List (ApiKey ApiKeyId)). (ok xs, w')) (append_assoc sofar (k ∷ []) ks)

  scan_rounds-Scanned :
      (fuel : ℕ) (cursor : ℕ) (sofar : List (ApiKey ApiKeyId)) {n : ℕ} {w w' : W}
      {ks : List (ApiKey ApiKeyId)}
      → Scanned n cursor w ks w'
      → n ≤ fuel
      → scan_rounds uuid client fuel cursor sofar w ≡ (ok (sofar ++ ks), w')
  unfolding scan_rounds
  scan_rounds-Scanned zero cursor sofar (last e f) h = absurd (omega arith)
  scan_rounds-Scanned zero cursor sofar (more e f s) h = absurd (omega arith)
  scan_rounds-Scanned (suc fuel) cursor sofar (last e f) h =
      rw (e, fetch_keys-Fetched _ sofar f) refl
  scan_rounds-Scanned (suc fuel) cursor sofar
        (more {next = next} {w' = w'} {ks = ks} {rest = rest} e f s) h =
      let goes_on : (suc next == 0) ≡ false = ground arith in
      rw (e, fetch_keys-Fetched _ sofar f, goes_on)
        (scan_rounds-Scanned fuel _ (sofar ++ ks) s (omega arith)
          ∙ ap (λ (xs : List (ApiKey ApiKeyId)). (ok xs, w')) (append_assoc sofar ks rest))

  -- `GetAll` gives, in the order of the replies, what `GetByID` gives for each key of each reply of
  -- a scan that comes to its end, if the rounds that it may make are no fewer than the replies.
  pub get_all-Scanned :
      (fuel : ℕ) {n : ℕ} {w w' : W} {ks : List (ApiKey ApiKeyId)}
      → Scanned n 0 w ks w'
      → n ≤ fuel
      → get_all uuid client fuel w ≡ (ok ks, w')
  unfolding get_all
  get_all-Scanned fuel s h = scan_rounds-Scanned fuel 0 [] s h
