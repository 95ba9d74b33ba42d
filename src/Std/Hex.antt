-- ===== src/Std/Hex.antt =====
-- encoding/hex: `EncodeToString`, two lower-case digits for each byte.
use paste_thek4n_ru.Prelude.{
  ℕ, ◌+◌, ◌*◌, ◌/◌, ◌%◌, ◌<◌, ◌≡◌, refl, Bool, true, ◌&&◌, ◌||◌, [], ◌∷◌, arith, ltb, leb, length,
  All, if◌then◌else◌,
}
use paste_thek4n_ru.Prelude.Bytes.{Bytes}

hex_digit : ℕ → ℕ
hex_digit d = if ltb d 10 then 48 + d else 87 + d

unfoldable pub encode_to_string : Bytes → Bytes
unfolding hex_digit
encode_to_string [] = []
encode_to_string (b ∷ bs) = hex_digit (b / 16) ∷ hex_digit (b % 16) ∷ encode_to_string bs

pub length-encode_to_string : (bs : Bytes) → length (encode_to_string bs) ≡ 2 * length bs
unfolding encode_to_string
length-encode_to_string [] = refl
length-encode_to_string (b ∷ bs) = omega (arith, length-encode_to_string bs)

-- A digit or a letter from `a` to `f`.
abbrev pub is_hex_digit : ℕ → Bool
is_hex_digit c = (leb 48 c && leb c 57) || (leb 97 c && leb c 102)

hex_digit-is_hex_digit : (d : ℕ) → d < 16 → is_hex_digit (hex_digit d) ≡ true
unfolding hex_digit
hex_digit-is_hex_digit d h = ground arith

-- Of bytes, the text has only hexadecimal digits.
pub encode_to_string-All :
    (bs : Bytes) → All (λ b. b < 256) bs → All (λ c. is_hex_digit c ≡ true) (encode_to_string bs)
unfolding encode_to_string
encode_to_string-All [] h = tt
encode_to_string-All (b ∷ bs) (h, hs) = (
  hex_digit-is_hex_digit (b / 16) (omega arith),
  (hex_digit-is_hex_digit (b % 16) (omega arith), encode_to_string-All bs hs),
)
