-- ===== src/Infrastructure/KeyGen/Keys.antt =====
-- The keys that `generateKey` of internal/infrastructure/repository/record.go makes.
use paste_thek4n_ru.Prelude.{
  inl, inr, ℕ, zero, suc, ◌<◌, ◌≡◌, true, [], ◌∷◌, arith, length, All, get_or,
}
use paste_thek4n_ru.Prelude.Bytes.{Bytes, elem}
use paste_thek4n_ru.Exec.{ok, run-cases}
use paste_thek4n_ru.Infrastructure.KeyGen.{KeySource, generate_key}

elem-get_or : (s : Bytes) (i : ℕ) → i < length s → elem (get_or s i 0) s ≡ true
unfolding elem
elem-get_or [] i h = elim h [ ]
elem-get_or (b ∷ s) zero h = ground arith
elem-get_or (b ∷ s) (suc i) h = ground (arith, elem-get_or s i)

-- Whether every byte of a key stands in a charset.
abbrev pub IsOver : Bytes → Bytes → Type 0
IsOver charset key = All (λ b. elem b charset ≡ true) key

module _ {W : Type 0} (source : KeySource W) (charset : Bytes) where
  -- rand.Int(rand.Reader, n) is below n.
  pub record RandInRange : Type 0 where
    pub below : (n : ℕ) (w : W) {v : ℕ} {w' : W} → source.rand_int n w ≡ (ok v, w') → v < n

  -- A key has the length that was asked for, and only bytes of the charset.
  pub generate_key-ok :
      RandInRange
      → (n : ℕ) (w : W) {key : Bytes} {w' : W} → generate_key source n charset w ≡ (ok key, w')
      → (length key ≡ n) × IsOver charset key
  unfolding generate_key
  generate_key-ok rand zero w e = ground arith
  generate_key-ok rand (suc n) w e = elim (run-cases (source.rand_int (length charset) w)) [
    | inr (e', w1, h1) ↦ absurd (ground arith)
    | inl (i, w1, h1) ↦ elim (run-cases (generate_key source n charset w1)) [
      | inr (e', w2, h2) ↦ absurd (ground arith)
      | inl (rest, w2, h2) ↦
          let ih = generate_key-ok rand n w1 h2 in
          ground (arith, elem-get_or charset i (rand.below (length charset) w h1), ih)
    ]
  ]
