-- ===== src/Clients/Rows.antt =====
-- The rows can be read back from what `processQueryOutput` of src/cMysqlDatabase.cpp writes.
use pquery.Prelude.{
  ℕ, suc, ◌+◌, true, false, List, [], ◌∷◌, ◌++◌, ◌≡◌, ◌≢◌, refl, sym, ap, ◌∙◌, inl, inr, Option,
  none, some, arith, ◌==◌, ltb, if◌then◌else◌, Bytes, codes, map, All, Bool-cases, append-nil,
  append_assoc, equal, equal_iff, get_lines, get_lines_from, All-append, get_lines_from-append,
}
use pquery.Clients.MysqlOutput.{
  Row, ResultSet, Output, cell_text, cells_text, rows_text, process_query_output,
}
use pquery.Clients.MysqlFreed.{readable, all_text, process_query_output_lem}

-- The parts of a line that tabs separate.
unfoldable pub split_tabs : Bytes → Bytes → List Bytes
split_tabs part [] = part ∷ []
split_tabs part (c ∷ line) =
    let ended = part ∷ split_tabs [] line in
    let more = split_tabs (part ++ c ∷ []) line in if c == b'\t' then ended else more

unfoldable pub read_cell : Bytes → Option Bytes
unfolding equal
read_cell text =
    if equal text (codes "NULL")
    then none
    else if equal text (codes "EMPTY")
    then some []
    else some text

unfoldable pub read_row : Bytes → Row
unfolding split_tabs read_cell
read_row line = map read_cell (split_tabs [] line)

unfoldable pub read_rows : Bytes → List Row
unfolding read_row get_lines
read_rows text = map read_row (get_lines text)

-- A character that separates no cells and no rows.
abbrev pub Inside : ℕ → Type 0
Inside c = ((c == b'\t') ≡ false) × ((c == b'\n') ≡ false)

-- A value that can be told from the others.
abbrev pub IsPlain : Option Bytes → Type 0
IsPlain none = Unit
IsPlain (some value) = (value ≢ codes "NULL") × (value ≢ codes "EMPTY") × All Inside value

abbrev pub IsPlainRow : Row → Type 0
IsPlainRow row = (row ≢ []) × All IsPlain row

not_equal : (s other : Bytes) → s ≢ other → equal s other ≡ false
not_equal s other h = elim (Bool-cases (equal s other)) [
  | inl e ↦ absurd (h ((equal_iff s other).0 e))
  | inr e ↦ e
]

read_cell-cell_text : (cell : Option Bytes) → IsPlain cell → read_cell (cell_text cell) ≡ cell
unfolding read_cell cell_text
read_cell-cell_text none h = refl
read_cell-cell_text (some []) h = refl
read_cell-cell_text (some (c ∷ value)) (n, e, _) =
    rw (not_equal (c ∷ value) (codes "NULL") n, not_equal (c ∷ value) (codes "EMPTY") e) refl

cell_text-Inside : (cell : Option Bytes) → IsPlain cell → All Inside (cell_text cell)
unfolding cell_text
cell_text-Inside none h = ((refl, refl), ((refl, refl), ((refl, refl), ((refl, refl), tt))))
cell_text-Inside (some []) h =
    ((refl, refl), ((refl, refl), ((refl, refl), ((refl, refl), ((refl, refl), tt)))))
cell_text-Inside (some (c ∷ value)) h = h.2

split_tabs-append :
    (part text rest : Bytes)
    → All Inside text
    → split_tabs part (text ++ rest) ≡ split_tabs (part ++ text) rest
unfolding split_tabs
split_tabs-append part [] rest h = rw (append-nil part) refl
split_tabs-append part (c ∷ text) rest h = rw (h.0.0) (
    split_tabs-append (part ++ c ∷ []) text rest h.1
    ∙ ap (λ p. split_tabs p rest) (append_assoc part (c ∷ []) text))

cells_text_behind :
    (i : ℕ) (cell : Option Bytes) (row : Row)
    → cells_text (suc i) (cell ∷ row) ≡ b'\t' ∷ (cell_text cell ++ cells_text (suc (suc i)) row)
unfolding cells_text
cells_text_behind i cell row =
    let behind : ltb 0 (suc i) ≡ true = ground arith in
    let next : suc i + 1 ≡ suc (suc i) = omega arith in rw (behind, next) refl

-- The cells behind the first one of a row.
split_tabs-cells_text :
    (part : Bytes) (i : ℕ) (row : Row)
    → All IsPlain row
    → split_tabs part (cells_text (suc i) row) ≡ part ∷ map cell_text row
unfolding split_tabs
split_tabs-cells_text part i [] h = unfold cells_text in refl
split_tabs-cells_text part i (cell ∷ row) h =
    ap (split_tabs part) (cells_text_behind i cell row)
    ∙ ap (◌∷◌ part) (
        split_tabs-append [] (cell_text cell) (cells_text (suc (suc i)) row)
          (cell_text-Inside cell h.0)
        ∙ split_tabs-cells_text (cell_text cell) (suc i) row h.1)

map_read-cell_text : (row : Row) → All IsPlain row → map read_cell (map cell_text row) ≡ row
map_read-cell_text [] h = refl
map_read-cell_text (cell ∷ row) h =
    rw (read_cell-cell_text cell h.0, map_read-cell_text row h.1) refl

-- A row is read back from its line.
read_row-cells_text : (row : Row) → IsPlainRow row → read_row (cells_text 0 row) ≡ row
unfolding read_row cells_text
read_row-cells_text [] h = absurd (h.0 refl)
read_row-cells_text (cell ∷ row) h =
    ap (map read_cell) (
      split_tabs-append [] (cell_text cell) (cells_text 1 row) (cell_text-Inside cell h.1.0)
      ∙ split_tabs-cells_text (cell_text cell) 0 row h.1.1)
    ∙ map_read-cell_text (cell ∷ row) h.1

abbrev InLine : ℕ → Type 0
InLine c = (c == b'\n') ≡ false

cell_text-InLine : (text : Bytes) → All Inside text → All InLine text
cell_text-InLine [] h = tt
cell_text-InLine (c ∷ text) h = (h.0.1, cell_text-InLine text h.1)

cells_text-InLine : (i : ℕ) (row : Row) → All IsPlain row → All InLine (cells_text i row)
unfolding cells_text
cells_text-InLine i [] h = tt
cells_text-InLine i (cell ∷ row) h =
    let rest = cells_text-InLine (i + 1) row h.1 in
    let text = All-append InLine _ _ (cell_text-InLine _ (cell_text-Inside cell h.0)) rest in
    elim (Bool-cases (ltb 0 i)) [ inl e ↦ rw e (refl, text) | inr e ↦ rw e text ]

-- All rows are read back.
read_rows-rows_text : (rows : List Row) → All IsPlainRow rows → read_rows (rows_text rows) ≡ rows
unfolding read_rows rows_text
read_rows-rows_text [] h = unfold get_lines_from in refl
read_rows-rows_text (row ∷ rows) h =
    ap (map read_row)
      (get_lines_from-append [] (cells_text 0 row) (rows_text rows) (cells_text-InLine 0 row h.0.1))
    ∙ ap (λ r. r ∷ read_rows (rows_text rows)) (read_row-cells_text row h.0)
    ∙ ap (◌∷◌ row) (read_rows-rows_text rows h.1)

abbrev pub joined : List (List Row) → List Row
joined [] = []
joined (rows ∷ others) = rows ++ joined others

rows_text-append :
    (rows others : List Row) → rows_text (rows ++ others) ≡ rows_text rows ++ rows_text others
unfolding rows_text
rows_text-append [] others = refl
rows_text-append (row ∷ rows) others =
    ap (λ t. cells_text 0 row ++ b'\n' ∷ t) (rows_text-append rows others)
    ∙ sym (append_assoc (cells_text 0 row) (b'\n' ∷ rows_text rows) (rows_text others))

all_text-joined : (lists : List (List Row)) → all_text lists ≡ rows_text (joined lists)
all_text-joined [] = unfold rows_text in refl
all_text-joined (rows ∷ others) =
    ap (λ t. rows_text rows ++ t) (all_text-joined others)
    ∙ sym (rows_text-append rows (joined others))

-- The rows in front of the first result that cannot be stored can be read back from what
-- processQueryOutput of the MySQL client writes, where each has a column and no value has a tab or
-- a newline or is the text NULL or EMPTY.
pub read_rows-process_query_output :
    (results : List ResultSet) (o : Output)
    → All IsPlainRow (joined (readable results))
    → read_rows (process_query_output results o).query_result ≡ joined (readable results)
read_rows-process_query_output results o h =
    ap read_rows ((process_query_output_lem results o).0 ∙ all_text-joined (readable results))
    ∙ read_rows-rows_text (joined (readable results)) h
