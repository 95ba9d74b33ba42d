-- ===== src/Cmd/Columns.antt =====
-- cmd/paste/apikey.go: `columnT`, which lays a table out.
pub mod Aligned
use paste_thek4n_ru.Prelude.{
  ℕ, zero, suc, ◌+◌, ◌-◌, Bool, true, false, List, [], ◌∷◌, ◌++◌, map, ◌==◌, ltb, length, get_or,
  replicate, if◌then◌else◌,
}
use paste_thek4n_ru.Prelude.Bytes.{Bytes, is_empty}
use paste_thek4n_ru.Std.Spaces.{trim_space, split, fields, rune_count}

abbrev pub Row : Type 0
Row = List Bytes

-- The rows of the lines that have fields.
unfoldable pub rows_of : List Bytes → List Row
rows_of [] = []
rows_of (line ∷ lines) =
    let row = fields line in
    let rest = rows_of lines in if ltb 0 (length row) then row ∷ rest else rest

abbrev pub larger : ℕ → ℕ → ℕ
larger a b = if ltb b a then a else b

unfoldable pub max_cols : List Row → ℕ
max_cols [] = 0
max_cols (row ∷ rows) = larger (length row) (max_cols rows)

-- The bytes of the widest field of column `j`, of those rows that have one.
unfoldable pub col_width : ℕ → List Row → ℕ
col_width j [] = 0
col_width j (row ∷ rows) =
    let rest = col_width j rows in
    if ltb j (length row) then larger (length (get_or row j [])) rest else rest

-- The widths of `n` columns from column `j` on.
unfoldable pub col_widths : ℕ → ℕ → List Row → List ℕ
col_widths zero j rows = []
col_widths (suc n) j rows = col_width j rows ∷ col_widths n (suc j) rows

-- "%-*s": spaces up to a width in runes.
unfoldable pub pad : ℕ → Bytes → Bytes
pad width field = field ++ replicate (width - rune_count field) 32

abbrev pub gap : ℕ → Bytes
gap zero = []
gap (suc j) = 32 ∷ 32 ∷ []

-- The fields of a row from column `j` on.
unfoldable pub print_fields : List ℕ → ℕ → Row → Bytes
unfolding pad
print_fields widths j [] = []
print_fields widths j (field ∷ row) =
    gap j ++ (pad (get_or widths j 0) field ++ print_fields widths (suc j) row)

unfoldable pub print_rows : List ℕ → List Row → Bytes
print_rows widths [] = []
print_rows widths (row ∷ []) = print_fields widths 0 row
print_rows widths (row ∷ next ∷ rows) =
    print_fields widths 0 row ++ (10 ∷ print_rows widths (next ∷ rows))

unfoldable pub table_of : List Row → Bytes
table_of rows =
    if max_cols rows == 0 then [] else print_rows (col_widths (max_cols rows) 0 rows) rows

unfoldable pub column_t : Bytes → Bytes
column_t input = if is_empty input then [] else table_of (rows_of (split 10 (trim_space input)))
