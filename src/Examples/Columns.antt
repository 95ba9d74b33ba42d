-- ===== src/Examples/Columns.antt =====
-- Tables that `columnT` lays out.
use paste_thek4n_ru.Prelude.{◌≡◌, refl, List, [], ◌∷◌, ◌++◌}
use paste_thek4n_ru.Prelude.Bytes.{codes}
use paste_thek4n_ru.Std.Runes.{decode_rune}
use paste_thek4n_ru.Std.Spaces.{rune_count, trim_space, fields, split}
use paste_thek4n_ru.Cmd.Columns.{
  Row, max_cols, col_width, col_widths, pad, print_fields, rows_of, print_rows, table_of, column_t,
}
use paste_thek4n_ru.Cmd.Columns.Aligned.{first, later, columns_width, column_start}

abbrev header : Row
header = codes "Key" ∷ codes "Status" ∷ []

abbrev valid_row : Row
valid_row = codes "1234567" ∷ codes "valid" ∷ []

abbrev rows : List Row
rows = header ∷ valid_row ∷ []

column_t_test :
    column_t (codes " Key Status" ++ (10 ∷ 10 ∷ codes "1234567 valid"))
    ≡ codes "Key      Status" ++ (10 ∷ codes "1234567  valid ")
unfolding column_t trim_space split fields rows_of max_cols col_width col_widths print_fields pad
    rune_count print_rows table_of decode_rune
column_t_test = refl

column_start_example :
    (print_fields
        (col_widths (max_cols rows) 0 rows)
        0
        ((codes "1234567" ∷ []) ++ (codes "valid" ∷ []))
      ≡ print_fields (col_widths (max_cols rows) 0 rows) 0 (codes "1234567" ∷ [])
        ++ print_fields (col_widths (max_cols rows) 0 rows) 1 (codes "valid" ∷ []))
    × (rune_count (print_fields (col_widths (max_cols rows) 0 rows) 0 (codes "1234567" ∷ []))
        ≡ columns_width (col_widths (max_cols rows) 0 rows) 0 1)
column_start_example = column_start rows (codes "1234567" ∷ []) (codes "valid" ∷ []) (later first)
