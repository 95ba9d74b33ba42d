-- ===== src/Std/Runes/Ascii.antt =====
-- Bytes below 0x80 are runes by themselves, whatever stands beside them.
use paste_thek4n_ru.Prelude.{
  ℕ, zero, suc, ◌-◌, ◌≤◌, ◌<◌, ◌≡◌, refl, ap, false, List, [], ◌∷◌, ◌++◌, arith, length,
}
use paste_thek4n_ru.Prelude.Bytes.{Bytes}
use paste_thek4n_ru.Std.Runes.{
  rune_error, between, second_ok, decode_two, decode_three, decode_four, decode_rune, runes_from,
}

no_second : (b a : ℕ) → a < 128 → second_ok b a ≡ false
no_second b a h = ground arith

no_next : (a : ℕ) → a < 128 → between 0x80 0xBF a ≡ false
no_next a h = ground arith

module _ (a : ℕ) (t : Bytes) (h : a < 128) where
  two-ascii : (b : ℕ) (s : Bytes) → decode_two b (s ++ a ∷ t) ≡ decode_two b s
  unfolding decode_two
  two-ascii b [] = rw (no_second b a h)
  two-ascii b (c ∷ s) = refl

  three-stop : (b : ℕ) (s : Bytes) → decode_three b (a ∷ s) ≡ (rune_error, 1)
  unfolding decode_three
  three-stop b [] = refl
  three-stop b (d ∷ s) = rw (no_second b a h)

  three-ascii : (b : ℕ) (s : Bytes) → decode_three b (s ++ a ∷ t) ≡ decode_three b s
  unfolding decode_three
  three-ascii b [] = three-stop b t
  three-ascii b (c ∷ []) = ground (arith, no_next a h)
  three-ascii b (c ∷ d ∷ s) = refl

  four-stop : (b : ℕ) (s : Bytes) → decode_four b (a ∷ s) ≡ (rune_error, 1)
  unfolding decode_four
  four-stop b [] = refl
  four-stop b (d ∷ []) = refl
  four-stop b (d ∷ e ∷ s) = rw (no_second b a h)

  four-stop_next : (b c : ℕ) (s : Bytes) → decode_four b (c ∷ a ∷ s) ≡ (rune_error, 1)
  unfolding decode_four
  four-stop_next b c [] = refl
  four-stop_next b c (e ∷ s) = ground (arith, no_next a h)

  four-ascii : (b : ℕ) (s : Bytes) → decode_four b (s ++ a ∷ t) ≡ decode_four b s
  unfolding decode_four
  four-ascii b [] = four-stop b t
  four-ascii b (c ∷ []) = four-stop_next b c t
  four-ascii b (c ∷ d ∷ []) = ground (arith, no_next a h)
  four-ascii b (c ∷ d ∷ e ∷ s) = refl

  -- How a byte is read depends on nothing from an ASCII byte on.
  pub decode_rune-ascii : (b : ℕ) (s : Bytes) → decode_rune b (s ++ a ∷ t) ≡ decode_rune b s
  unfolding decode_rune
  decode_rune-ascii b s = rw (two-ascii b s, three-ascii b s, four-ascii b s)

decode_rune_alone : (a : ℕ) (t : Bytes) → a < 128 → decode_rune a t ≡ (a, 1)
unfolding decode_rune
decode_rune_alone a t h = ground arith

width-le : (b : ℕ) (s : Bytes) → (decode_rune b s).1 ≤ suc (length s)
unfolding decode_rune decode_two decode_three decode_four
width-le b [] = ground arith
width-le b (c ∷ []) = ground arith
width-le b (c ∷ d ∷ []) = ground arith
width-le b (c ∷ d ∷ e ∷ s) = ground arith

-- The runes before an ASCII byte are as if the text ended there.
pub runes_from-ascii :
    (skip : ℕ) (s : Bytes) (a : ℕ) (t : Bytes)
    → a < 128
    → skip ≤ length s
    → runes_from skip (s ++ a ∷ t) ≡ runes_from skip s ++ a ∷ runes_from 0 t
unfolding runes_from
runes_from-ascii zero [] a t h k = rw (decode_rune_alone a t h)
runes_from-ascii (suc skip) [] a t h k = absurd (omega arith)
runes_from-ascii (suc skip) (b ∷ s) a t h k = runes_from-ascii skip s a t h (omega arith)
runes_from-ascii zero (b ∷ s) a t h k = rw (decode_rune-ascii a t h b s) (
    ap (λ (l : List ℕ). (decode_rune b s).0 ∷ l)
      (runes_from-ascii ((decode_rune b s).1 - 1) s a t h (omega (arith, width-le b s))))

-- There are at most as many runes as bytes.
pub length-runes_from : (skip : ℕ) (s : Bytes) → length (runes_from skip s) ≤ length s
unfolding runes_from
length-runes_from skip [] = omega arith
length-runes_from (suc skip) (b ∷ s) = omega (arith, length-runes_from skip s)
length-runes_from zero (b ∷ s) = omega (arith, length-runes_from ((decode_rune b s).1 - 1) s)
