-- ===== src/Std/Spaces/Count.antt =====
-- How many runes a text has that ends in spaces.
use mathlib.Core.List.{append-nil}
use paste_thek4n_ru.Prelude.{
  ℕ, zero, suc, ◌+◌, ◌<◌, ◌≤◌, ◌≡◌, refl, [], ◌∷◌, ◌++◌, arith, length, length-append, replicate,
}
use paste_thek4n_ru.Prelude.Bytes.{Bytes}
use paste_thek4n_ru.Std.Runes.{runes, runes_from}
use paste_thek4n_ru.Std.Runes.Ascii.{runes_from-ascii, length-runes_from}
use paste_thek4n_ru.Std.Spaces.{rune_count}

pub rune_count-le : (s : Bytes) → rune_count s ≤ length s
unfolding rune_count runes
rune_count-le s = length-runes_from 0 s

-- An ASCII byte is one rune, wherever it stands.
pub rune_count-ascii :
    (s : Bytes) (a : ℕ) (t : Bytes)
    → a < 128
    → rune_count (s ++ a ∷ t) ≡ rune_count s + suc (rune_count t)
unfolding rune_count runes
rune_count-ascii s a t h =
    rw (runes_from-ascii 0 s a t h (omega arith))
      (length-append {0} (runes_from 0 s) (a ∷ runes_from 0 t))

pub rune_count-nil : rune_count [] ≡ 0
unfolding rune_count runes
rune_count-nil = refl

spaces_before : (n : ℕ) (t : Bytes) → rune_count (replicate n 32 ++ t) ≡ n + rune_count t
spaces_before zero t = omega arith
spaces_before (suc n) t = omega (
  arith,
  rune_count-ascii [] 32 (replicate n 32 ++ t) (omega arith),
  spaces_before n t,
  rune_count-nil,
)

-- Spaces add their number, and nothing else changes.
pub rune_count-spaces :
    (s : Bytes) (n : ℕ) (t : Bytes)
    → rune_count (s ++ (replicate (suc n) 32 ++ t)) ≡ rune_count s + suc n + rune_count t
rune_count-spaces s n t =
    omega (arith, rune_count-ascii s 32 (replicate n 32 ++ t) (omega arith), spaces_before n t)

pub rune_count-pad : (s : Bytes) (n : ℕ) → rune_count (s ++ replicate n 32) ≡ rune_count s + n
rune_count-pad s zero = rw (append-nil s) (omega arith)
rune_count-pad s (suc n) = omega (
  arith,
  rune_count-ascii s 32 (replicate n 32) (omega arith),
  rw (append-nil {A = ℕ} (replicate n 32)) at (spaces_before n []),
  rune_count-nil,
)
