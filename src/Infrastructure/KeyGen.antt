-- ===== src/Infrastructure/KeyGen.antt =====
-- internal/infrastructure/repository/record.go: `generateKey` and `GenerateUniqueKey`.
pub mod Keys
pub mod Loop
pub mod Kept
use paste_thek4n_ru.Prelude.{
  ℕ, zero, suc, ◌+◌, ◌%◌, Bool, true, false, Option, none, some, List, [], ◌∷◌, ltb, length, get_or,
  if◌then◌else◌,
}
use paste_thek4n_ru.Prelude.Bytes.{Bytes}
use paste_thek4n_ru.Errors.{plain}
use paste_thek4n_ru.Exec.{
  Result, ok, err, Exec, Act, outcome, pure, perform, wrap, fail_if, ◌>>=◌, ◌>>◌,
}

-- The environment of the generator: crypto/rand's `Int(rand.Reader, max)`, whether the context is
-- done, and the repository's `Exists`.
pub record KeySource (W : Type 0) : Type 0 where
  pub rand_int : ℕ → Exec W ℕ
  pub ctx_done : Act W Bool
  pub exists : Bytes → Exec W Bool

-- How a round of the loop ends: with a key that is free, or with the variables of the next round.
pub data Round : Type 0 where
  finished : Bytes → Round
  again : ℕ → ℕ → Round

-- Once the countdown has ended, keys grow by one and it starts again. Both variables are uint8.
unfoldable pub next_length : ℕ → ℕ → ℕ
next_length min_length countdown = if ltb countdown 1 then (min_length + 1) % 256 else min_length

unfoldable pub next_countdown : ℕ → ℕ → ℕ
next_countdown attempts countdown = if ltb countdown 1 then attempts else countdown

module _ {W : Type 0} (source : KeySource W) where
  unfoldable pub generate_key : ℕ → Bytes → Exec W Bytes
  generate_key zero charset = pure []
  generate_key (suc length') charset = do
    n ← wrap "failure generate random number" (source.rand_int (length charset))
    rest ← generate_key length' charset
    pure (get_or charset n 0 ∷ rest)

  module _ (charset : Bytes) (attempts : ℕ) (max_length : ℕ) where
    -- One round of the loop, with the variables at its start.
    unfoldable pub generate_round : ℕ → ℕ → Exec W Round
    generate_round min_length countdown = do
      done ← perform source.ctx_done
      fail_if done (plain "timeout")
      key ← wrap "fail generate key" (generate_key min_length charset)
      taken ← wrap "fail to check is key exists" (source.exists key)
      let left = (countdown + 255) % 256
      fail_if (ltb max_length (next_length min_length left)) (plain "max key length reached")
      pure (
          if taken
          then again (next_length min_length left) (next_countdown attempts left)
          else finished key)

    -- The loop; `none` means that the fuel ran out.
    unfoldable pub generate_rounds : ℕ → ℕ → ℕ → W → Option (Result Bytes × W)
    generate_rounds zero min_length countdown w = none
    generate_rounds (suc fuel) min_length countdown w =
        outcome (generate_round min_length countdown w)
          (λ round w'. elim round [
            | finished key ↦ some (ok key, w')
            | again m c ↦ generate_rounds fuel m c w'
          ])
          (λ e w'. some (err e, w'))

    -- More rounds than the loop makes for a `max_length` below 255. A loop that went on would end
    -- by the context's timeout.
    abbrev pub max_rounds : ℕ
    max_rounds = 65536

    unfoldable pub generate_unique_key : ℕ → Exec W Bytes
    generate_unique_key min_length w = elim (generate_rounds max_rounds min_length attempts w) [
      | some r ↦ r
      | none ↦ (err (plain "timeout"), w)
    ]
