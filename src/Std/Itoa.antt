-- ===== src/Std/Itoa.antt =====
-- strconv: `Itoa` of a number below 10 ^ 20.
use paste_thek4n_ru.Prelude.{ℕ, zero, suc, ◌+◌, ◌/◌, ◌%◌, [], ◌∷◌, ltb, if◌then◌else◌}
use paste_thek4n_ru.Prelude.Bytes.{Bytes}

-- The digits of `n` before `after`, at most as many as the first argument says.
digits : ℕ → ℕ → Bytes → Bytes
digits zero n after = after
digits (suc more) n after =
    let rest = digits more (n / 10) ((48 + n % 10) ∷ after) in
    if ltb n 10 then (48 + n) ∷ after else rest

unfoldable pub itoa : ℕ → Bytes
unfolding digits
itoa n = digits 20 n []
