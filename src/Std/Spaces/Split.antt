-- ===== src/Std/Spaces/Split.antt =====
-- strings.Split: the first part.
use paste_thek4n_ru.Prelude.{ℕ, ◌≡◌, refl, false, [], ◌∷◌, ◌++◌, arith}
use mathlib.Core.List.{append-nil, append_assoc}
use paste_thek4n_ru.Prelude.Bytes.{Bytes, elem}
use paste_thek4n_ru.Std.Spaces.{split, split_from}

split_from-append :
    (sep : ℕ) (part s t : Bytes)
    → elem sep s ≡ false
    → split_from sep part (s ++ (sep ∷ t)) ≡ (part ++ s) ∷ split sep t
unfolding split split_from elem
split_from-append sep part [] t h = rw (append-nil {A = ℕ} part) (ground arith)
split_from-append sep part (b ∷ s) t h =
    let ih = split_from-append sep (part ++ b ∷ []) s t in
    let e = append_assoc part (b ∷ []) s in ground (arith, ih, e)

pub split-append :
    (sep : ℕ) (s t : Bytes) → elem sep s ≡ false → split sep (s ++ (sep ∷ t)) ≡ s ∷ split sep t
unfolding split
split-append sep s t h = split_from-append sep [] s t h

split_from_none :
    (sep : ℕ) (part s : Bytes) → elem sep s ≡ false → split_from sep part s ≡ (part ++ s) ∷ []
unfolding split_from elem
split_from_none sep part [] h = rw (append-nil {A = ℕ} part) refl
split_from_none sep part (b ∷ s) h =
    let ih = split_from_none sep (part ++ b ∷ []) s in
    let e = append_assoc part (b ∷ []) s in ground (arith, ih, e)

pub split_none : (sep : ℕ) (s : Bytes) → elem sep s ≡ false → split sep s ≡ s ∷ []
unfolding split
split_none sep s h = split_from_none sep [] s h
