-- ===== src/Std/Runes.antt =====
-- `for _, char := range s` and `strings.ContainsRune`: a string is read as UTF-8, and a byte that
-- begins no valid sequence is read as U+FFFD.
pub mod Ascii
use paste_thek4n_ru.Prelude.{
  ℕ, zero, suc, ◌+◌, ◌-◌, ◌*◌, Bool, true, false, ◌&&◌, List, [], ◌∷◌, ltb, leb, ◌==◌,
  if◌then◌else◌,
}
use paste_thek4n_ru.Prelude.Bytes.{Bytes, elem}

abbrev pub rune_error : ℕ
rune_error = 0xFFFD

abbrev pub between : ℕ → ℕ → ℕ → Bool
between lo hi b = leb lo b && leb b hi

-- The range of a second byte, by the first: it leaves out overlong forms, surrogates and what
-- lies above U+10FFFF.
abbrev pub second_ok : ℕ → ℕ → Bool
second_ok b c =
    if b == 0xE0
    then between 0xA0 0xBF c
    else if b == 0xED
    then between 0x80 0x9F c
    else if b == 0xF0
    then between 0x90 0xBF c
    else if b == 0xF4
    then between 0x80 0x8F c
    else between 0x80 0xBF c

pub decode_two : ℕ → Bytes → ℕ × ℕ
decode_two b [] = (rune_error, 1)
decode_two b (c ∷ _) = if second_ok b c then ((b - 0xC0) * 64 + (c - 0x80), 2) else (rune_error, 1)

pub decode_three : ℕ → Bytes → ℕ × ℕ
decode_three b (c ∷ d ∷ _) =
    if second_ok b c && between 0x80 0xBF d
    then ((b - 0xE0) * 4096 + (c - 0x80) * 64 + (d - 0x80), 3)
    else (rune_error, 1)
decode_three b _ = (rune_error, 1)

pub decode_four : ℕ → Bytes → ℕ × ℕ
decode_four b (c ∷ d ∷ e ∷ _) =
    if second_ok b c && (between 0x80 0xBF d && between 0x80 0xBF e)
    then ((b - 0xF0) * 262144 + (c - 0x80) * 4096 + (d - 0x80) * 64 + (e - 0x80), 4)
    else (rune_error, 1)
decode_four b _ = (rune_error, 1)

-- The rune that begins with byte `b` before `rest`, and its width.
unfoldable pub decode_rune : ℕ → Bytes → ℕ × ℕ
unfolding decode_two decode_three decode_four
decode_rune b rest =
    if ltb b 0x80
    then (b, 1)
    else if between 0xC2 0xDF b
    then decode_two b rest
    else if between 0xE0 0xEF b
    then decode_three b rest
    else if between 0xF0 0xF4 b
    then decode_four b rest
    else (rune_error, 1)

-- `skip` bytes belong to the rune before.
pub runes_from : ℕ → Bytes → List ℕ
runes_from skip [] = []
runes_from (suc skip) (b ∷ rest) = runes_from skip rest
runes_from zero (b ∷ rest) =
    let (rune, width) = decode_rune b rest in rune ∷ runes_from (width - 1) rest

unfoldable pub runes : Bytes → List ℕ
unfolding runes_from decode_rune decode_two decode_three decode_four
runes s = runes_from 0 s

-- strings.ContainsRune(s, r)
unfoldable pub contains_rune : Bytes → ℕ → Bool
unfolding runes elem
contains_rune s r = elem r (runes s)

-- The loop over `requestedKey`: whether each rune of `key` stands in `chars`.
every_rune_in : Bytes → List ℕ → Bool
every_rune_in chars [] = true
every_rune_in chars (r ∷ rs) =
    let rest = every_rune_in chars rs in if contains_rune chars r then rest else false

unfoldable pub all_runes_in : Bytes → Bytes → Bool
unfolding every_rune_in contains_rune
all_runes_in chars key = every_rune_in chars (runes key)
