-- ===== src/Std/Spaces.antt =====
-- strings: `Fields`, `TrimSpace` and `Split`, and `utf8.RuneCountInString`.
pub mod Count
pub mod Split
use paste_thek4n_ru.Prelude.{
  ℕ, zero, suc, ◌-◌, Bool, true, false, ◌&&◌, ◌||◌, List, [], ◌∷◌, ◌++◌, ◌==◌, leb, length, take,
  if◌then◌else◌,
}
use paste_thek4n_ru.Prelude.Bytes.{Bytes, is_empty}
use paste_thek4n_ru.Std.Runes.{decode_rune, runes}

-- unicode.IsSpace
unfoldable pub is_space : ℕ → Bool
is_space r =
    (leb 9 r && leb r 13)
    || (r == 32)
    || (r == 0x85)
    || (r == 0xA0)
    || (r == 0x1680)
    || (leb 0x2000 r && leb r 0x200a)
    || (r == 0x2028)
    || (r == 0x2029)
    || (r == 0x202f)
    || (r == 0x205f)
    || (r == 0x3000)

-- A rune and the bytes that it was read from.
abbrev pub Chunk : Type 0
Chunk = ℕ × Bytes

-- `skip` bytes belong to the chunk before.
chunks_from : ℕ → Bytes → List Chunk
chunks_from skip [] = []
chunks_from (suc skip) (b ∷ rest) = chunks_from skip rest
chunks_from zero (b ∷ rest) =
    let (rune, width) = decode_rune b rest in
    (rune, take width (b ∷ rest)) ∷ chunks_from (width - 1) rest

chunks : Bytes → List Chunk
unfolding chunks_from decode_rune
chunks s = chunks_from 0 s

join_chunks : List Chunk → Bytes
join_chunks [] = []
join_chunks ((r, bs) ∷ cs) = bs ++ join_chunks cs

trim_left : List Chunk → List Chunk
trim_left [] = []
trim_left ((r, bs) ∷ cs) = let rest = trim_left cs in if is_space r then rest else (r, bs) ∷ cs

keep_unless : Bool → Chunk → List Chunk → List Chunk
keep_unless true c [] = []
keep_unless _ c rest = c ∷ rest

trim_right : List Chunk → List Chunk
trim_right [] = []
trim_right ((r, bs) ∷ cs) = keep_unless (is_space r) (r, bs) (trim_right cs)

unfoldable pub trim_space : Bytes → Bytes
unfolding chunks trim_left trim_right keep_unless join_chunks is_space
trim_space s = join_chunks (trim_right (trim_left (chunks s)))

-- A field that has come to its end, before those that follow.
abbrev end_field : Bytes → List Bytes → List Bytes
end_field field rest = if is_empty field then rest else field ∷ rest

-- `field` is what has been read of the field that goes on.
fields_from : List Chunk → Bytes → List Bytes
fields_from [] field = end_field field []
fields_from ((r, bs) ∷ cs) field =
    let ended = end_field field (fields_from cs []) in
    let longer = fields_from cs (field ++ bs) in if is_space r then ended else longer

unfoldable pub fields : Bytes → List Bytes
unfolding chunks fields_from is_space
fields s = fields_from (chunks s) []

-- strings.Split(s, sep) for a separator of one byte; `part` is what has been read of a part.
split_from : ℕ → Bytes → Bytes → List Bytes
split_from sep part [] = part ∷ []
split_from sep part (b ∷ s) =
    let ended = part ∷ split_from sep [] s in
    let longer = split_from sep (part ++ b ∷ []) s in if b == sep then ended else longer

unfoldable pub split : ℕ → Bytes → List Bytes
unfolding split_from
split sep s = split_from sep [] s

unfoldable pub rune_count : Bytes → ℕ
unfolding runes
rune_count s = length (runes s)
