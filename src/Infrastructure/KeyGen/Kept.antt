-- ===== src/Infrastructure/KeyGen/Kept.antt =====
-- Making a key changes no record: `GenerateUniqueKey` of
-- internal/infrastructure/repository/record.go.
use paste_thek4n_ru.Prelude.{
  ℕ, zero, suc, ◌≡◌, refl, subst, inl, inr, Option, some, arith, length, Option-cases,
}
use paste_thek4n_ru.Prelude.Bytes.{Bytes}
use paste_thek4n_ru.Exec.{Result, ok, err, run-cases}
use paste_thek4n_ru.Exec.Kept.{Kept, Kept-trans}
use paste_thek4n_ru.Infrastructure.KeyGen.{
  KeySource, finished, again, generate_key, generate_round, generate_rounds, generate_unique_key,
}

module _ {W V : Type 0} (view : W → Bytes → Option V) (source : KeySource W) where
  pub record SourceKept : Type 0 where
    pub rand_int : (n : ℕ) (w : W) → Kept view w (source.rand_int n w).1
    pub ctx_done : (w : W) → Kept view w (source.ctx_done w).1
    pub exists : (k : Bytes) (w : W) → Kept view w (source.exists k w).1

  module _ (kept : SourceKept) (charset : Bytes) where
    generate_key-kept : (n : ℕ) (w : W) → Kept view w (generate_key source n charset w).1
    unfolding generate_key
    generate_key-kept zero w j = inl refl
    generate_key-kept (suc n) w j =
        let w1 = (source.rand_int (length charset) w).1 in
        ground (arith, kept.rand_int (length charset) w j, generate_key-kept n w1 j)

    module _ (attempts : ℕ) (max_length : ℕ) where
      generate_round-kept :
          (m c : ℕ) (w : W)
          → Kept view w (generate_round source charset attempts max_length m c w).1
      unfolding generate_round
      generate_round-kept m c w j =
          let w1 = (source.ctx_done w).1 in
          let made = generate_key source m charset w1 in
          elim (run-cases made) [
            | inl (key, w2, h) ↦
                ground (arith, kept.ctx_done w j, generate_key-kept m w1 j, kept.exists key w2 j, h)
            | inr (e, w2, h) ↦ ground (arith, kept.ctx_done w j, generate_key-kept m w1 j, h)
          ]

      Kept-ended :
          {w w1 w' : W} (y : Result Bytes) {r : Result Bytes}
          → Kept view w w1
          → ◌≡◌ {A = Option (Result Bytes × W)} (some (y, w1)) (some (r, w'))
          → Kept view w w'
      Kept-ended {w} {w1} {w'} y k e = let same : w1 ≡ w' = cc in subst (Kept view w) same k

      generate_rounds-kept :
          (fuel m c : ℕ) (w : W) {r : Result Bytes} {w' : W}
          → generate_rounds source charset attempts max_length fuel m c w ≡ some (r, w')
          → Kept view w w'
      unfolding generate_rounds
      generate_rounds-kept zero m c w e = cc
      generate_rounds-kept (suc fuel) m c w {r} {w'} e =
          elim (run-cases (generate_round source charset attempts max_length m c w)) [
            | inr (e', w1, h) ↦
                Kept-ended (err e') (rw h at (generate_round-kept m c w))
                  (rw (h, generate_rounds) at e)
            | inl (finished key, w1, h) ↦
                Kept-ended (ok key) (rw h at (generate_round-kept m c w))
                  (rw (h, generate_rounds) at e)
            | inl (again m' c', w1, h) ↦
                Kept-trans view (rw h at (generate_round-kept m c w))
                  (generate_rounds-kept fuel m' c' w1 (rw (h, generate_rounds) at e))
          ]

      pub generate_unique_key-kept :
          (m : ℕ) (w : W)
          → Kept view w (generate_unique_key source charset attempts max_length m w).1
      unfolding generate_unique_key
      generate_unique_key-kept m w =
          elim (Option-cases
            (generate_rounds source charset attempts max_length 65536 m attempts w)) [
              | inl h ↦ rw (h, generate_unique_key) (λ j. inl refl)
              | inr ((r, w'), h) ↦
                  rw (h, generate_unique_key) (generate_rounds-kept 65536 m attempts w h)
            ]
