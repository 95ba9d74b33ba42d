-- ===== src/Std/Atoi.antt =====
-- strconv: `Atoi`, for a 64-bit `int`.
use paste_thek4n_ru.Prelude.{
  ℕ, ◌+◌, ◌-◌, ◌*◌, ◌^◌, ◌&&◌, [], ◌∷◌, Option, none, some, ltb, leb, ◌==◌, if◌then◌else◌,
}
use paste_thek4n_ru.Prelude.Int.{ℤ, pos, sub_ℕ}
use paste_thek4n_ru.Prelude.Bytes.{Bytes}

-- The value of a run of digits, after `n` was read.
digits_from : ℕ → Bytes → Option ℕ
digits_from n [] = some n
digits_from n (b ∷ bs) =
    let rest = digits_from (n * 10 + (b - 48)) bs in if leb 48 b && leb b 57 then rest else none

digits : Bytes → Option ℕ
digits [] = none
digits (b ∷ bs) = digits_from 0 (b ∷ bs)

positive : Option ℕ → Option ℤ
positive none = none
positive (some n) = if ltb n (2 ^ 63) then some (pos n) else none

negative : Option ℕ → Option ℤ
negative none = none
negative (some n) = if leb n (2 ^ 63) then some (sub_ℕ 0 n) else none

unfoldable pub atoi : Bytes → Option ℤ
unfolding digits_from digits positive negative
atoi [] = none
atoi (b ∷ bs) =
    if b == 43
    then positive (digits bs)
    else if b == 45
    then negative (digits bs)
    else positive (digits (b ∷ bs))
