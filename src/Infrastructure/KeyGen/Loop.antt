-- ===== src/Infrastructure/KeyGen/Loop.antt =====
-- The loop of `GenerateUniqueKey` of internal/infrastructure/repository/record.go: it ends, and the
-- key that it gives is free.
use paste_thek4n_ru.Prelude.{
  ℕ, zero, suc, ◌+◌, ◌-◌, ◌*◌, ◌%◌, ◌≤◌, ◌<◌, ◌≡◌, ap, subst, inl, inr, false, some, arith, dec_lt,
  Option-cases, ◌∙◌, length,
}
use paste_thek4n_ru.Prelude.Bytes.{Bytes}
use paste_thek4n_ru.Exec.{Result, ok, err, run-cases}
use paste_thek4n_ru.Infrastructure.KeyGen.{
  KeySource, finished, again, generate_key, next_length, next_countdown, generate_round,
  generate_rounds, generate_unique_key,
}
use paste_thek4n_ru.Infrastructure.KeyGen.Keys.{IsOver, RandInRange, generate_key-ok}

left_of_countdown : (c : ℕ) → 0 < c → c < 256 → (c + 255) % 256 ≡ c - 1
left_of_countdown c h k = omega arith

-- One length more is `attempts` rounds less.
mul_step :
    (max_length m a : ℕ)
    → m + 1 ≤ max_length
    → (max_length - m) * a ≡ (max_length - (m + 1)) * a + a
mul_step max_length m a h =
    let e : max_length - m ≡ suc (max_length - (m + 1)) = omega arith in rw e (omega arith)

module _ {W : Type 0} (source : KeySource W) (charset : Bytes) (attempts : ℕ) (max_length : ℕ) where
  -- A round that goes on has kept within the maximal length.
  round-again :
      (m c : ℕ) (w : W) {m' c' : ℕ} {w' : W}
      → generate_round source charset attempts max_length m c w ≡ (ok (again m' c'), w')
      → (m' ≡ next_length m ((c + 255) % 256))
        × (c' ≡ next_countdown attempts ((c + 255) % 256))
        × (next_length m ((c + 255) % 256) ≤ max_length)
  unfolding generate_round
  round-again m c w e = ground arith

  -- A round that ends with a key has just found it free.
  round-finished :
      (m c : ℕ) (w : W) {key : Bytes} {w' : W}
      → generate_round source charset attempts max_length m c w ≡ (ok (finished key), w')
      → (w1 : W) × (w2 : W) × (generate_key source m charset w1 ≡ (ok key, w2))
        × (source.exists key w2 ≡ (ok false, w'))
  unfolding generate_round
  round-finished m c w e =
      let w1 = (source.ctx_done w).1 in
      (w1, (generate_key source m charset w1).1, ground arith, ground arith)

  next_length_grows :
      (m c : ℕ) → max_length < 255 → m ≤ max_length → m ≤ next_length m ((c + 255) % 256)
  unfolding next_length
  next_length_grows m c h k = ground arith

  -- What the rounds that are left come to falls by one in each.
  next_measure :
      (m c : ℕ)
      → 0 < c
      → c ≤ attempts
      → attempts < 256
      → max_length < 255
      → m ≤ max_length
      → next_length m ((c + 255) % 256) ≤ max_length
      → (0 < next_countdown attempts ((c + 255) % 256))
        × (next_countdown attempts ((c + 255) % 256) ≤ attempts)
        × ((max_length - next_length m ((c + 255) % 256)) * attempts
              + next_countdown attempts ((c + 255) % 256)
            < (max_length - m) * attempts + c)
  unfolding next_length next_countdown
  next_measure m c h0 h1 h2 h3 h4 h5 = elim (dec_lt 1 c) [
    | yes more ↦ rw (left_of_countdown c h0 (omega arith)) (ground arith)
    | no last ↦
        let e : c ≡ 1 = omega arith in
        ground (arith, mul_step max_length m attempts, left_of_countdown c h0 (omega arith))
  ]

  -- The loop ends within its measure.
  generate_rounds-some :
      (fuel m c : ℕ) (w : W)
      → 0 < c
      → c ≤ attempts
      → attempts < 256
      → max_length < 255
      → m ≤ max_length
      → (max_length - m) * attempts + c ≤ fuel
      → (r : Result Bytes × W) × (generate_rounds source charset attempts max_length fuel m c w
          ≡ some r)
  unfolding generate_rounds
  generate_rounds-some zero m c w h0 h1 h2 h3 h4 h = absurd (omega arith)
  generate_rounds-some (suc fuel) m c w h0 h1 h2 h3 h4 h =
      elim (run-cases (generate_round source charset attempts max_length m c w)) [
        | inr (e', w1, h5) ↦ ((err e', w1), rw (h5, generate_rounds))
        | inl (finished key, w1, h5) ↦ ((ok key, w1), rw (h5, generate_rounds))
        | inl (again m' c', w1, h5) ↦
            let (em, ec, le) = round-again m c w h5 in
            let (pos', le', less) = next_measure m c h0 h1 h2 h3 h4 le in
            rw (h5, generate_rounds)
              (generate_rounds-some fuel m' c' w1 (omega arith) (omega arith) h2 h3 (omega arith)
                (rw (em, ec) (omega arith)))
      ]

  -- A key that the loop gives was free when it was last looked for, after which nothing was done.
  generate_rounds-exists :
      (fuel m c : ℕ) (w : W) {key : Bytes} {w' : W}
      → generate_rounds source charset attempts max_length fuel m c w ≡ some (ok key, w')
      → (w1 : W) × (source.exists key w1 ≡ (ok false, w'))
  unfolding generate_rounds
  generate_rounds-exists zero m c w e = cc
  generate_rounds-exists (suc fuel) m c w e =
      elim (run-cases (generate_round source charset attempts max_length m c w)) [
        | inr (e', w1, h) ↦ cc (rw (h, generate_rounds) at e)
        | inl (finished key', w1, h) ↦
            let e' = rw (h, generate_rounds) at e in
            let (w2, w3, made, free) = round-finished m c w h in (w3, cc (e', free))
        | inl (again m' c', w1, h) ↦
            generate_rounds-exists fuel m' c' w1 (rw (h, generate_rounds) at e)
      ]

  -- It lies within the lengths and is written over the charset.
  generate_rounds-length :
      RandInRange source charset
      → (fuel m c : ℕ) (w : W) {key : Bytes} {w' : W} → max_length < 255
      → m ≤ max_length
      → generate_rounds source charset attempts max_length fuel m c w ≡ some (ok key, w')
      → (m ≤ length key) × (length key ≤ max_length) × IsOver charset key
  unfolding generate_rounds
  generate_rounds-length rand zero m c w h3 h4 e = cc
  generate_rounds-length rand (suc fuel) m c w {key} h3 h4 e =
      elim (run-cases (generate_round source charset attempts max_length m c w)) [
        | inr (e', w1, h5) ↦ cc (rw (h5, generate_rounds) at e)
        | inl (finished key', w1, h5) ↦
            let e' = rw (h5, generate_rounds) at e in
            let (w2, w3, made, free) = round-finished m c w h5 in
            let (len, over) = generate_key-ok source charset rand m w2 made in
            let same : key' ≡ key = cc (e') in
            let size = ap (λ (k : Bytes). length k) same in
            (omega (arith, len, size), omega (arith, len, size), subst (IsOver charset) same over)
        | inl (again m' c', w1, h5) ↦
            let (em, ec, le) = round-again m c w h5 in
            let (low, high, over) =
              generate_rounds-length rand fuel m' c' w1 h3 (omega (arith, em))
                (rw (h5, generate_rounds) at e) in
            (omega (arith, em, next_length_grows m c h3 h4), high, over)
      ]

  -- `GenerateUniqueKey` runs to an end of its loop, with a key or an error: the fuel is enough for
  -- every configuration whose keys stay below 255 bytes and whose countdown is a uint8 above 0, and
  -- for every length up to the maximal one.
  pub generate_unique_key-total :
      (m : ℕ) (w : W)
      → 0 < attempts
      → attempts < 256
      → max_length < 255
      → m ≤ max_length
      → (r : Result Bytes × W) × (generate_rounds source charset attempts max_length 65536 m
            attempts w
          ≡ some r)
        × (generate_unique_key source charset attempts max_length m w ≡ r)
  unfolding generate_unique_key
  generate_unique_key-total m w h0 h1 h2 h3 =
      let (r, e) =
        generate_rounds-some 65536 m attempts w h0 (omega arith) h1 h2 h3 (fuel_enough m h1 h2) in
      (r, e, rw (e, generate_unique_key))
    where
      fuel_enough :
          (k : ℕ)
          → attempts < 256
          → max_length < 255
          → (max_length - k) * attempts + attempts ≤ 65536
      fuel_enough k p q = grind arith

  -- The run of the loop behind a key that `GenerateUniqueKey` gives.
  rounds_of :
      (m : ℕ) (w : W) {key : Bytes} {w' : W}
      → generate_unique_key source charset attempts max_length m w ≡ (ok key, w')
      → generate_rounds source charset attempts max_length 65536 m attempts w ≡ some (ok key, w')
  unfolding generate_unique_key
  rounds_of m w e =
      elim (Option-cases (generate_rounds source charset attempts max_length 65536 m attempts w)) [
        | inl h ↦ cc (rw (h, generate_unique_key) at e)
        | inr (r, h) ↦ h ∙ ap some (rw (h, generate_unique_key) at e)
      ]

  pub generate_unique_key-exists :
      (m : ℕ) (w : W) {key : Bytes} {w' : W}
      → generate_unique_key source charset attempts max_length m w ≡ (ok key, w')
      → (w1 : W) × (source.exists key w1 ≡ (ok false, w'))
  generate_unique_key-exists m w e = generate_rounds-exists 65536 m attempts w (rounds_of m w e)

  -- A key that `GenerateUniqueKey` gives lies between the two lengths, is written over the charset,
  -- and was found free in the last thing that was done. Random numbers are taken to be below their
  -- bound, the maximal length to be below 255 and the minimal one to be at most that.
  pub generate_unique_key-free :
      RandInRange source charset
      → (m : ℕ) (w : W) {key : Bytes} {w' : W} → max_length < 255
      → m ≤ max_length
      → generate_unique_key source charset attempts max_length m w ≡ (ok key, w')
      → (m ≤ length key)
        × (length key ≤ max_length)
        × IsOver charset key
        × ((w1 : W) × (source.exists key w1 ≡ (ok false, w')))
  generate_unique_key-free rand m w h3 h4 e =
      let (low, high, over) =
        generate_rounds-length rand 65536 m attempts w h3 h4 (rounds_of m w e) in
      (low, high, over, generate_unique_key-exists m w e)
