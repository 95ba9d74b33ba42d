-- ===== src/Cmd/Columns/Aligned.antt =====
-- The places of the columns that `columnT` of cmd/paste/apikey.go prints.
use mathlib.Core.List.{append-nil, append_assoc}
use paste_thek4n_ru.Prelude.{
  ap, sym, subst, ◌∙◌, ℕ, zero, suc, ◌+◌, ◌-◌, ◌≤◌, ◌<◌, ◌≡◌, refl, List, [], ◌∷◌, ◌++◌, arith,
  length, get_or,
}
use paste_thek4n_ru.Prelude.Bytes.{Bytes}
use paste_thek4n_ru.Std.Spaces.{rune_count}
use paste_thek4n_ru.Std.Spaces.Count.{
  rune_count-le, rune_count-nil, rune_count-ascii, rune_count-pad,
}
use paste_thek4n_ru.Cmd.Columns.{Row, gap, max_cols, col_width, col_widths, pad, print_fields}

-- A row of a table.
pub data In (row : Row) : List Row → Type 0 where
  first : {rows : List Row} → In row (row ∷ rows)
  later : {other : Row} {rows : List Row} → In row rows → In row (other ∷ rows)

length-le-max_cols : {row : Row} (rows : List Row) → In row rows → length row ≤ max_cols rows
unfolding max_cols
length-le-max_cols [] i = elim i [ ]
length-le-max_cols (row ∷ rows) first = ground arith
length-le-max_cols (other ∷ rows) (later i) = ground (arith, length-le-max_cols rows i)

-- A field is no longer than its column is wide.
field-le-col_width :
    (j : ℕ) {row : Row} (rows : List Row)
    → In row rows
    → j < length row
    → length (get_or row j []) ≤ col_width j rows
unfolding col_width
field-le-col_width j [] i h = elim i [ ]
field-le-col_width j (row ∷ rows) first h = ground arith
field-le-col_width j (other ∷ rows) (later i) h = ground (arith, field-le-col_width j rows i)

get_or-col_widths :
    (n j i : ℕ) (rows : List Row)
    → i < n
    → get_or (col_widths n j rows) i 0 ≡ col_width (j + i) rows
unfolding col_widths
get_or-col_widths zero j i rows h = absurd (omega arith)
get_or-col_widths (suc n) j zero rows h =
    let e : j ≡ j + 0 = omega arith in ap (λ k. col_width k rows) e
get_or-col_widths (suc n) j (suc i) rows h =
    let e : suc j + i ≡ j + suc i = omega arith in
    get_or-col_widths n (suc j) i rows (omega arith) ∙ ap (λ k. col_width k rows) e

cell_assoc : (a b c d : Bytes) → a ++ (b ++ (c ++ d)) ≡ (a ++ (b ++ c)) ++ d
cell_assoc a b c d = rw (append_assoc, append_assoc) refl

module _ (widths : List ℕ) where
  -- The fields from column `j` on are no wider than their columns.
  abbrev Fits : ℕ → Row → Type 0
  Fits j [] = Unit {0}
  Fits j (field ∷ row) = (rune_count field ≤ get_or widths j 0) × Fits (suc j) row

  Fits-of :
      (j : ℕ) (row : Row)
      → ((i : ℕ) → i < length row → rune_count (get_or row i []) ≤ get_or widths (j + i) 0)
      → Fits j row
  Fits-of j [] h = tt
  Fits-of j (field ∷ row) h =
      let e : j + 0 ≡ j = omega arith in
      (
        subst (λ k. rune_count field ≤ get_or widths k 0) e (h 0 (omega arith)),
        Fits-of (suc j) row (λ i lt.
            let e' : j + suc i ≡ suc j + i = omega arith in
            subst (λ k. rune_count (get_or row i []) ≤ get_or widths k 0) e'
              (h (suc i) (omega arith))),
      )

  Fits-append : (j : ℕ) (xs ys : Row) → Fits j (xs ++ ys) → Fits j xs
  Fits-append j [] ys h = tt
  Fits-append j (x ∷ xs) ys (h, hs) = (h, Fits-append (suc j) xs ys hs)

  -- How many runes `n` columns take, from column `j` on, with the two spaces before each but the
  -- first of all.
  unfoldable pub columns_width : ℕ → ℕ → ℕ
  columns_width j zero = 0
  columns_width j (suc n) = length (gap j) + get_or widths j 0 + columns_width (suc j) n

  rune_count-pad_le :
      (width : ℕ) (field : Bytes) → rune_count field ≤ width → rune_count (pad width field) ≡ width
  unfolding pad
  rune_count-pad_le width field h = omega (arith, rune_count-pad field (width - rune_count field))

  -- What follows a text in a later column begins with a space, if there is anything.
  rune_count_later :
      (s : Bytes) (j : ℕ) (row : Row)
      → Fits (suc j) row
      → rune_count (s ++ print_fields widths (suc j) row)
        ≡ rune_count s + columns_width (suc j) (length row)
  unfolding print_fields columns_width
  rune_count_later s j [] h = rw (append-nil {A = ℕ} s) (omega arith)
  rune_count_later s j (field ∷ row) (h, hs) =
      let cell = pad (get_or widths (suc j) 0) field in
      let rest = cell ++ print_fields widths (suc (suc j)) row in
      omega (
        arith,
        rune_count-ascii s 32 (32 ∷ rest) (omega arith),
        rune_count-ascii [] 32 rest (omega arith),
        rune_count-nil,
        rune_count-pad_le (get_or widths (suc j) 0) field h,
        rune_count_later cell (suc j) row hs,
      )

  rune_count-print_fields :
      (row : Row)
      → Fits 0 row
      → rune_count (print_fields widths 0 row) ≡ columns_width 0 (length row)
  unfolding print_fields columns_width
  rune_count-print_fields [] h = rune_count-nil
  rune_count-print_fields (field ∷ row) (h, hs) =
      let cell = pad (get_or widths 0 0) field in
      omega (arith, rune_count-pad_le (get_or widths 0 0) field h, rune_count_later cell 0 row hs)

  print_fields-append :
      (j : ℕ) (xs ys : Row)
      → print_fields widths j (xs ++ ys)
        ≡ print_fields widths j xs ++ print_fields widths (j + length xs) ys
  unfolding print_fields
  print_fields-append j [] ys =
      let e : j ≡ j + 0 = omega arith in ap (λ k. print_fields widths k ys) e
  print_fields-append j (x ∷ xs) ys =
      let e : suc j + length xs ≡ j + suc (length xs) = omega arith in
      let cell = pad (get_or widths j 0) x in
      ap (λ (s : Bytes). gap j ++ (cell ++ s)) (print_fields-append (suc j) xs ys)
      ∙ ap (λ k. gap j ++ (cell ++ (print_fields widths (suc j) xs ++ print_fields widths k ys))) e
      ∙ cell_assoc (gap j) cell (print_fields widths (suc j) xs)
          (print_fields widths (j + suc (length xs)) ys)

field-Fits :
    {row : Row} (rows : List Row)
    → In row rows
    → (k : ℕ) → k < length row
    → rune_count (get_or row k []) ≤ get_or (col_widths (max_cols rows) 0 rows) (0 + k) 0
field-Fits {row = row} rows i k lt =
    let e : k ≡ 0 + k = omega arith in
    let width =
      get_or-col_widths (max_cols rows) 0 k rows (omega (arith, length-le-max_cols rows i)) in
    let width' =
      subst (λ j. get_or (col_widths (max_cols rows) 0 rows) j 0 ≡ col_width j rows) e
        (width ∙ ap (λ j. col_width j rows) (sym e)) in
    omega (
      arith,
      rune_count-le (get_or row k []),
      field-le-col_width k rows i lt,
      width',
      ap (λ j. col_width j rows) e,
    )

-- The column after the fields `before` begins at the same place in every row of a table that has
-- it: those fields are printed first, and take as many characters as their columns are wide,
-- whatever bytes they hold.
pub column_start :
    (rows : List Row) (before after : Row)
    → In (before ++ after) rows
    → (print_fields (col_widths (max_cols rows) 0 rows) 0 (before ++ after)
        ≡ print_fields (col_widths (max_cols rows) 0 rows) 0 before
          ++ print_fields (col_widths (max_cols rows) 0 rows) (length before) after)
      × (rune_count (print_fields (col_widths (max_cols rows) 0 rows) 0 before)
          ≡ columns_width (col_widths (max_cols rows) 0 rows) 0 (length before))
column_start rows before after i =
    let widths = col_widths (max_cols rows) 0 rows in
    let fits = Fits-of widths 0 (before ++ after) (λ k lt. field-Fits rows i k lt) in
    let e : 0 + length before ≡ length before = omega arith in
    (
      subst
          (λ k.
            print_fields widths 0 (before ++ after)
            ≡ print_fields widths 0 before ++ print_fields widths k after)
          e (print_fields-append widths 0 before after),
      rune_count-print_fields widths before (Fits-append widths 0 before after fits),
    )
