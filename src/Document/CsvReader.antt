-- ===== src/Document/CsvReader.antt =====
-- A reader of values between commas, quoted as RFC 4180 has it, with records that end at a line feed
-- and no carriage return removed, as encoding/csv writes them. It is written without the writer:
-- what the export wrote is read back as it was.
use Prim.Native.Char.{Char}
use Prim.Native.String.{String, [], ◌∷◌}
use mathlib.Core.List.{List, [], ◌∷◌}
use docflow_web.Base.{◌≡◌, refl, ap, ◌∙◌, false, if◌then◌else◌, arith, Bool-cases, inl, inr}
use docflow_web.Document.Csv.{
  comma, line_feed, is_comma, is_quote, is_line_feed, is_special, has_special, needs_quotes, escape,
  append, field, write_row, write_rows,
}

-- At the start of a field, within a plain field, within quotes, behind a quote within quotes.
pub data Mode : Type 0 where
  fresh plain inside closed : Mode

-- The rest of the current field, the fields behind it in its row, and the rows behind that.
pub record Parsed : Type 0 where
  pub value : String
  pub row : List String
  pub rows : List (List String)

-- The rows of a text from its first field on; a text that has ended has no more rows.
abbrev rows_from : String → Parsed → List (List String)
rows_from [] p = []
rows_from (c ∷ s) p = (p.value ∷ p.row) ∷ p.rows

abbrev push : Char → Parsed → Parsed
push c p = record p { value = c ∷ p.value }

abbrev end_field : Parsed → Parsed
end_field p = record { value = []; row = p.value ∷ p.row; rows = p.rows }

abbrev end_row : String → Parsed → Parsed
end_row s p = record { value = []; row = []; rows = rows_from s p }

-- A character outside quotes that is no opening quote.
abbrev outside : Char → String → Parsed → Parsed → Parsed
outside c s begun more =
    if is_comma c then end_field begun else if is_line_feed c then end_row s begun else push c more

pub read : Mode → String → Parsed
read m [] = record { value = []; row = []; rows = [] }
read fresh (c ∷ s) =
    let begun = read fresh s in
    let more = read plain s in
    let quoted = read inside s in if is_quote c then quoted else outside c s begun more
read plain (c ∷ s) = let begun = read fresh s in let more = read plain s in outside c s begun more
read inside (c ∷ s) =
    let more = read inside s in
    let ended = read closed s in if is_quote c then ended else push c more
read closed (c ∷ s) =
    let begun = read fresh s in
    let more = read plain s in
    let again = read inside s in if is_quote c then push c again else outside c s begun more

unfoldable pub parse : String → List (List String)
unfolding read
parse s = rows_from s (read fresh s)

abbrev prepend : String → Parsed → Parsed
prepend s p = record p { value = append s p.value }

append-nil : (s : String) → append s [] ≡ s
append-nil [] = refl
append-nil (c ∷ s) = ap (λ (t : String). c ∷ t) (append-nil s)

read-escape : (s rest : String) → read inside (escape s rest) ≡ prepend s (read closed rest)
unfolding read
read-escape [] rest = refl
read-escape (c ∷ s) rest = elim (Bool-cases (is_quote c)) [
  | inl e ↦ rw e (rw e (ap (push c) (read-escape s rest)))
  | inr e ↦ rw e (rw e (ap (push c) (read-escape s rest)))
]

-- What a character that asks for no quotes is not.
ordinary :
    (c : Char)
    → is_special c ≡ false
    → (is_comma c ≡ false) × (is_quote c ≡ false) × (is_line_feed c ≡ false)
ordinary c h = (ground arith, ground arith, ground arith)

split_special :
    (c : Char) (s : String)
    → has_special (c ∷ s) ≡ false
    → (is_special c ≡ false) × (has_special s ≡ false)
split_special c s h = (ground arith, ground arith)

read-plain :
    (s rest : String)
    → has_special s ≡ false
    → read plain (append s rest) ≡ prepend s (read plain rest)
unfolding read
read-plain [] rest h = refl
read-plain (c ∷ s) rest h =
    let (own, others) = split_special c s h in
    let (no_comma, no_quote, no_feed) = ordinary c own in
    rw (no_comma, no_feed) (ap (push c) (read-plain s rest others))

read-fresh :
    (c : Char) (s rest : String)
    → has_special (c ∷ s) ≡ false
    → read fresh (append (c ∷ s) rest) ≡ prepend (c ∷ s) (read plain rest)
unfolding read
read-fresh c s rest h =
    let (own, others) = split_special c s h in
    let (no_comma, no_quote, no_feed) = ordinary c own in
    rw (no_comma, no_quote, no_feed) (ap (push c) (read-plain s rest others))

-- The reader goes on alike behind a field, whichever way the field was written.
record Ends (rest : String) : Type 0 where
  of_plain : read plain rest ≡ read fresh rest
  of_closed : read closed rest ≡ read fresh rest

comma-Ends : (s : String) → Ends (comma ∷ s)
unfolding read
comma-Ends s = record { of_plain = refl; of_closed = refl }

line_feed-Ends : (s : String) → Ends (line_feed ∷ s)
unfolding read
line_feed-Ends s = record { of_plain = refl; of_closed = refl }

unquoted : (s : String) → needs_quotes s ≡ false → has_special s ≡ false
unfolding needs_quotes
unquoted s h = ground arith

read-field : (s rest : String) → Ends rest → read fresh (field s rest) ≡ prepend s (read fresh rest)
unfolding field read
read-field s rest ends = elim (Bool-cases (needs_quotes s)) [
  | inl e ↦ rw e (read-escape s rest ∙ ap (prepend s) ends.of_closed)
  | inr e ↦ rw e (bare s (unquoted s e))
]
  where
    bare :
        (t : String)
        → has_special t ≡ false
        → read fresh (append t rest) ≡ prepend t (read fresh rest)
    bare [] h = refl
    bare (c ∷ t) h = read-fresh c t rest h ∙ ap (prepend (c ∷ t)) ends.of_plain

-- What the reader makes of a row that was written: its first field, the others, and the rest.
read-row :
    (s : String) (row : List String) (rest : String)
    → read fresh (write_row (s ∷ row) rest)
      ≡ record { value = s; row = row; rows = rows_from rest (read fresh rest) }
unfolding write_row read
read-row s [] rest =
    read-field s (line_feed ∷ rest) (line_feed-Ends rest)
    ∙ ap (λ v. record { value = v; row = []; rows = rows_from rest (read fresh rest) })
        (append-nil s)
read-row s (t ∷ row) rest =
    read-field s (comma ∷ write_row (t ∷ row) rest) (comma-Ends _)
    ∙ ap (λ p. prepend s (end_field p)) (read-row t row rest)
    ∙ ap (λ v. record { value = v; row = t ∷ row; rows = rows_from rest (read fresh rest) })
        (append-nil s)

-- Every row of the file has at least one field; here the first one is apart.
abbrev pub file_of : List (String × List String) → List (List String)
file_of [] = []
file_of ((s, row) ∷ rows) = (s ∷ row) ∷ file_of rows

-- A text that begins with a field and a character behind it has a row.
has_row :
    (s : String) (c : Char) (rest : String) (p : Parsed)
    → rows_from (field s (c ∷ rest)) p ≡ (p.value ∷ p.row) ∷ p.rows
unfolding field
has_row s c rest p = elim (Bool-cases (needs_quotes s)) [
  | inl e ↦ rw e refl
  | inr e ↦ rw e (bare s)
]
  where
    bare : (t : String) → rows_from (append t (c ∷ rest)) p ≡ (p.value ∷ p.row) ∷ p.rows
    bare [] = refl
    bare (d ∷ t) = refl

has_row-write_row :
    (s : String) (row : List String) (rest : String) (p : Parsed)
    → rows_from (write_row (s ∷ row) rest) p ≡ (p.value ∷ p.row) ∷ p.rows
unfolding write_row
has_row-write_row s [] rest p = has_row s line_feed rest p
has_row-write_row s (t ∷ row) rest p = has_row s comma (write_row (t ∷ row) rest) p

-- What the writer wrote, whatever commas, quotes, spaces and line feeds the fields hold, is read
-- back as the same rows of the same fields.
pub parse-write_rows :
    (rows : List (String × List String)) → parse (write_rows (file_of rows)) ≡ file_of rows
unfolding parse write_rows
parse-write_rows [] = refl
parse-write_rows ((s, row) ∷ rows) =
    let rest = write_rows (file_of rows) in
    has_row-write_row s row rest (read fresh (write_row (s ∷ row) rest))
    ∙ ap (λ (p : Parsed). (p.value ∷ p.row) ∷ p.rows) (read-row s row rest)
    ∙ ap (λ rs. (s ∷ row) ∷ rs) (parse-write_rows rows)
