-- ===== src/Application/ApiKeys/Generated.antt =====
-- The API keys that `GenerateAPIKey` of internal/application/service/apikeys.go makes.
use paste_thek4n_ru.Prelude.{
  ℕ, ◌+◌, ◌/◌, ◌<◌, ◌≡◌, refl, subst, inl, inr, true, some, arith, length, All, All-take, take,
  length-take_le,
}
use paste_thek4n_ru.Prelude.Bytes.{Bytes}
use paste_thek4n_ru.Exec.{ok, run-cases}
use paste_thek4n_ru.Std.Hex.{
  encode_to_string, length-encode_to_string, is_hex_digit, encode_to_string-All,
}
use paste_thek4n_ru.Domain.ApiKey.{ApiKey, new_apikey}
use paste_thek4n_ru.Application.Repository.{ApiKeyRoRepository, ApiKeyWoRepository}
use paste_thek4n_ru.Application.Repository.Contract.{IsApiKeyStore}
use paste_thek4n_ru.Application.ApiKeys.{RandomSource, random_hex, generate_apikey}

module _ {W ApiKeyId : Type 0} (ro : ApiKeyRoRepository W ApiKeyId)
    (wo : ApiKeyWoRepository W ApiKeyId) (random : RandomSource W ApiKeyId) where
  -- crypto/rand fills the slice that it is given with bytes.
  pub record IsRandom : Type 0 where
    pub filled :
        (n : ℕ) (w : W) {bs : Bytes} {w' : W}
        → random.read n w ≡ (ok bs, w')
        → (length bs ≡ n) × All (λ b. b < 256) bs

  abbrev IsHex : ℕ → Bytes → Type 0
  IsHex n s = (length s ≡ n) × All (λ c. is_hex_digit c ≡ true) s

  random_hex-IsHex :
      IsRandom
      → (n : ℕ) (w : W) {s : Bytes} {w' : W} → random_hex random ro wo n w ≡ (ok s, w')
      → IsHex n s
  unfolding random_hex
  random_hex-IsHex law n w {s} e = elim (run-cases (random.read ((n + 1) / 2) w)) [
    | inr (e', w1, h) ↦ absurd (ground arith)
    | inl (bs, w1, h) ↦
        let (size, bytes) = law.filled ((n + 1) / 2) w h in
        let same : take n (encode_to_string bs) ≡ s = ground arith in
        subst (IsHex n) same (
          length-take_le n (encode_to_string bs) (omega (arith, length-encode_to_string bs, size)),
          All-take (λ c. is_hex_digit c ≡ true) n (encode_to_string bs)
              (encode_to_string-All bs bytes),
        )
  ]

  module _ (store : IsApiKeyStore ro wo) where
    -- An API key that is valid and held under itself, and has 32 hexadecimal digits.
    pub record IsIssued (w : W) (k : ApiKey ApiKeyId) : Type 0 where
      pub size : length k.key ≡ 32
      pub digits : All (λ c. is_hex_digit c ≡ true) k.key
      pub held : store.view w k.key ≡ some k
      pub valid : k.valid ≡ true

    -- A new API key has 32 hexadecimal digits, is held under itself, and is valid. The random source
    -- gives bytes, as many as were asked for, and the store gives what was last set.
    pub generate_apikey-IsIssued :
        IsRandom
        → (w : W) {k : ApiKey ApiKeyId} {w1 : W} → generate_apikey random ro wo w ≡ (ok k, w1)
        → IsIssued w1 k
    unfolding generate_apikey
    generate_apikey-IsIssued law w {k} {w1} e = elim (run-cases (random_hex random ro wo 32 w)) [
      | inr (e', w2, h) ↦ absurd (ground arith)
      | inl (key, w2, h) ↦ elim (run-cases (random.new_random w2)) [
        | inr (e', w3, h3) ↦ absurd (ground arith)
        | inl (id, w3, h3) ↦
            let new = new_apikey id key true in
            let written : wo.set_by_id key new w3 ≡ (ok tt, w1) = ground arith in
            let (size, digits) = random_hex-IsHex law 32 w h in
            subst (IsIssued w1) (let same : new ≡ k = ground arith in same) (record {
              size = size;
              digits = digits;
              held = store.set_ok key new w3 refl written;
              valid = refl;
            })
      ]
    ]
