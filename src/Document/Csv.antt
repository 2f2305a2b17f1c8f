-- ===== src/Document/Csv.antt =====
-- The text that `ExportDocumentsCSV` of document_service.go writes: rows of fields as the writer of
-- Go's encoding/csv lays them out, with commas and line feeds.
use Prim.Native.Char.{Char, code}
use Prim.Native.String.{String, [], ◌∷◌}
use docflow_web.Base.{Bool, false, ◌||◌, ◌==◌, if◌then◌else◌, nat_eq}
use docflow_web.Base.Text.{is_space}
use mathlib.Core.List.{List, [], ◌∷◌}

abbrev pub comma : Char
comma = ","

abbrev pub quote : Char
quote = "\""

abbrev pub line_feed : Char
line_feed = "\n"

abbrev pub is_comma : Char → Bool
is_comma c = nat_eq (code c) b','

abbrev pub is_quote : Char → Bool
is_quote c = nat_eq (code c) b'"'

abbrev pub is_line_feed : Char → Bool
is_line_feed c = nat_eq (code c) b'\n'

abbrev pub is_special : Char → Bool
is_special c = is_line_feed c || nat_eq (code c) b'\r' || is_quote c || is_comma c

abbrev pub has_special : String → Bool
has_special [] = false
has_special (c ∷ s) = is_special c || has_special s

abbrev pub leads_space : String → Bool
leads_space [] = false
leads_space (c ∷ s) = is_space (code c)

-- `fieldNeedsQuotes`
unfoldable pub needs_quotes : String → Bool
needs_quotes s = s == "\\." || has_special s || leads_space s

-- The inside of a quoted field, its closing quote, and `rest`: a quote is doubled.
abbrev pub escape : String → String → String
escape [] rest = quote ∷ rest
escape (c ∷ s) rest = let more = escape s rest in if is_quote c then c ∷ c ∷ more else c ∷ more

abbrev pub append : String → String → String
append [] rest = rest
append (c ∷ s) rest = c ∷ append s rest

-- One field, and what follows it.
unfoldable pub field : String → String → String
unfolding needs_quotes
field s rest = if needs_quotes s then quote ∷ escape s rest else append s rest

-- One row, ended by a line feed, and what follows it.
unfoldable pub write_row : List String → String → String
unfolding field
write_row [] rest = line_feed ∷ rest
write_row (s ∷ []) rest = field s (line_feed ∷ rest)
write_row (s ∷ t ∷ row) rest = field s (comma ∷ write_row (t ∷ row) rest)

-- The text of the file.
unfoldable pub write_rows : List (List String) → String
unfolding write_row
write_rows [] = []
write_rows (row ∷ rows) = write_row row (write_rows rows)
