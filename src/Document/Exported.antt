-- ===== src/Document/Exported.antt =====
-- What an export is of, column by column, in words of its own.
use docflow_web.Base.{
  ℕ, String, ◌≡◌, refl, ap, ◌∙◌, suc, Bool, true, false, ◌&&◌, ◌||◌, ◌==◌, Option, none, some, List,
  [], ◌∷◌, ◌++◌, map, all, length, take, if◌then◌else◌, leb, arith,
}
use docflow_web.Base.Exec.{ok, bind_runs, wrap_runs, pure_runs, Result}
use docflow_web.Base.Statements.{statement_runs}
use docflow_web.Base.Table.{select, count_where}
use docflow_web.Base.Paging.{window}
use docflow_web.Document.Domain.{Document, AdvancedFilter, DocumentError}
use docflow_web.Document.Repository
use docflow_web.Document.Repository.{
  DocumentWorld, conditions, text_condition, time_condition, at_least, at_most, option_is,
}
use docflow_web.Document.Service.{DocumentEnv, or_empty}
use docflow_web.Document.Csv.{write_rows}
use docflow_web.Document.CsvReader.{parse, file_of, parse-write_rows}
use docflow_web.Document.Export.{
  csv_header, header_after_id, csv_row, fields_after_id, deadline_text, format_bool,
  export_documents_csv,
}

-- The field of a row under the heading of this name.
unfoldable pub cell : String → List String → List String → Option String
cell name [] row = none
cell name (h ∷ hs) [] = none
cell name (h ∷ hs) (v ∷ row) = if h == name then some v else cell name hs row

-- A column that may be empty.
abbrev pub Shows {ℓ} : {A : Type ℓ} → (A → String) → Option A → Option String → Type 0
Shows text none c = c ≡ some ""
Shows text (some a) c = c ≡ some (text a)

-- What a row says of a document, under these headings.
pub record IsRowOf (rfc3339 : ℕ → String) (header row : List String) (t : Document) : Type 0 where
  pub id : cell "id" header row ≡ some t.id
  pub title : cell "title" header row ≡ some t.title
  pub description : cell "description" header row ≡ some t.description
  pub doc_type : cell "type" header row ≡ some t.doc_type
  pub status : cell "status" header row ≡ some t.status
  pub creator : cell "creator_id" header row ≡ some t.creator_id
  pub responsible : Shows (λ r. r) t.responsible_id (cell "responsible_id" header row)
  pub deadline : Shows rfc3339 t.deadline (cell "deadline" header row)
  pub overdue : cell "is_overdue" header row ≡ some (if t.is_overdue then "true" else "false")
  pub created : cell "created_at" header row ≡ some (rfc3339 t.created_at)
  pub updated : cell "updated_at" header row ≡ some (rfc3339 t.updated_at)

-- One row for each document, in the same order.
abbrev pub AreRowsOf : (ℕ → String) → List String → List (List String) → List Document → Type 0
AreRowsOf rfc3339 header [] [] = Unit
AreRowsOf rfc3339 header (r ∷ rs) [] = ⊥
AreRowsOf rfc3339 header [] (t ∷ ts) = ⊥
AreRowsOf rfc3339 header (r ∷ rs) (t ∷ ts) =
    IsRowOf rfc3339 header r t × AreRowsOf rfc3339 header rs ts

-- Whether a document is what a filter asks for: each text of the filter is empty or the document's,
-- and the deadline, if one is asked for, is there and within the bounds.
abbrev pub asks_nothing_or : String → String → Bool
asks_nothing_or asked s = asked == "" || s == asked

abbrev pub asks_nothing_or_has : String → Option String → Bool
asks_nothing_or_has asked none = asked == ""
asks_nothing_or_has asked (some s) = asked == "" || s == asked

abbrev pub not_before : Option ℕ → Option ℕ → Bool
not_before none d = true
not_before (some a) none = false
not_before (some a) (some d) = leb a d

abbrev pub not_after : Option ℕ → Option ℕ → Bool
not_after none d = true
not_after (some a) none = false
not_after (some a) (some d) = leb d a

abbrev pub is_wanted : AdvancedFilter → Document → Bool
is_wanted f t =
    asks_nothing_or f.status t.status
    && (asks_nothing_or f.doc_type t.doc_type
        && (asks_nothing_or_has f.responsible_id t.responsible_id
            && (asks_nothing_or f.creator_id t.creator_id
                && (not_before f.deadline_from t.deadline && not_after f.deadline_to t.deadline))))

-- The conditions of a list, one part after the other.
abbrev meets : List (Document → Bool) → Document → Bool
meets ps t = all (λ p. p t) ps

meets-append :
    (ps qs : List (Document → Bool)) (t : Document) {b c : Bool}
    → meets ps t ≡ b
    → meets qs t ≡ c
    → meets (ps ++ qs) t ≡ (b && c)
meets-append [] qs t h k = ground (arith, h, k)
meets-append (p ∷ ps) qs t {b} {c} h k =
    let rest = meets-append ps qs t refl k in ground (arith, h, k, rest)

meets-text :
    (s : String) (p : Document → Bool) (t : Document)
    → meets (text_condition s p) t ≡ (s == "" || p t)
meets-text s p t = ground arith

option_asked :
    (s : String) (o : Option String) → (s == "" || option_is s o) ≡ asks_nothing_or_has s o
option_asked s none = ground arith
option_asked s (some x) = refl

meets-option :
    (s : String) (t : Document)
    → meets (text_condition s (λ x. option_is s x.responsible_id)) t
      ≡ asks_nothing_or_has s t.responsible_id
meets-option s t =
    meets-text s (λ x. option_is s x.responsible_id) t ∙ option_asked s t.responsible_id

meets-from :
    (a : Option ℕ) (t : Document) → meets (time_condition at_least a) t ≡ not_before a t.deadline
meets-from none t = refl
meets-from (some a) t = bound t.deadline
  where
    bound : (d : Option ℕ) → (at_least a d && true) ≡ not_before (some a) d
    bound none = refl
    bound (some d) = ground arith

meets-to :
    (a : Option ℕ) (t : Document) → meets (time_condition at_most a) t ≡ not_after a t.deadline
meets-to none t = refl
meets-to (some a) t = bound t.deadline
  where
    bound : (d : Option ℕ) → (at_most a d && true) ≡ not_after (some a) d
    bound none = refl
    bound (some d) = ground arith

conditions-is_wanted : (f : AdvancedFilter) (t : Document) → meets (conditions f) t ≡ is_wanted f t
unfolding conditions
conditions-is_wanted f t = meets-append (text_condition f.status _) _ t (meets-text f.status _ t) (
    meets-append (text_condition f.doc_type _) _ t (meets-text f.doc_type _ t) (
      meets-append (text_condition f.responsible_id _) _ t (meets-option f.responsible_id t) (
        meets-append (text_condition f.creator_id _) _ t (meets-text f.creator_id _ t) (
          meets-append (time_condition at_least f.deadline_from) _ t (meets-from f.deadline_from t)
            (meets-to f.deadline_to t)))))

select-same :
    (p q : Document → Bool)
    → ((t : Document) → p t ≡ q t)
    → (ts : List Document) → select p ts ≡ select q ts
unfolding select
select-same p q same [] = refl
select-same p q same (t ∷ ts) = rw (same t, select-same p q same ts) refl

module _ (env : DocumentEnv) (rfc3339 : ℕ → String) where
  open env use {pg}

  -- The documents that an export of a filter is of.
  abbrev pub exported : AdvancedFilter → DocumentWorld → List Document
  exported f w = take 10000 (env.newest_first (suc w.calls) (select (is_wanted f) w.db.documents))

  rows_apart :
      (ts : List Document)
      → map (csv_row env rfc3339) ts ≡ file_of (map (λ t. (t.id, fields_after_id env rfc3339 t)) ts)
  rows_apart [] = refl
  rows_apart (t ∷ ts) = ap (λ rs. csv_row env rfc3339 t ∷ rs) (rows_apart ts)

  reads_back :
      (ts : List Document)
      → parse (write_rows (csv_header ∷ map (csv_row env rfc3339) ts))
        ≡ csv_header ∷ map (csv_row env rfc3339) ts
  reads_back ts = rw (rows_apart ts) (
      parse-write_rows
        (("id", header_after_id) ∷ map (λ t. (t.id, fields_after_id env rfc3339 t)) ts))

  filter-runs :
      (f : AdvancedFilter) (w : DocumentWorld)
      → ((n : ℕ) → pg.fault n ≡ none)
      → Repository.filter pg env.newest_first f (record { page = 1; page_size = 10000 }) w ≡ (
        ok (exported f w, count_where (λ t. all (λ p. p t) (conditions f)) w.db.documents),
        record w { calls = suc (suc w.calls) },
      )
  unfolding Repository.filter window
  filter-runs f w up =
      let counted = record w { calls = suc w.calls } in
      let listed = record w { calls = suc (suc w.calls) } in
      let same =
        select-same (λ t. all (λ p. p t) (conditions f)) (is_wanted f) (conditions-is_wanted f)
          w.db.documents in
      bind_runs _ _ w counted (wrap_runs _ _ w counted (statement_runs pg _ w (up w.calls)))
      ∙ bind_runs _ _ counted listed
          (wrap_runs _ _ counted listed (statement_runs pg _ counted (up (suc w.calls))))
      ∙ pure_runs _ listed
      ∙ ap
          (λ ts. (
            ok (
              take 10000 (env.newest_first (suc w.calls) ts),
              count_where (λ t. all (λ p. p t) (conditions f)) w.db.documents,
            ),
            listed,
          ))
          same

  csv_row-IsRowOf : (t : Document) → IsRowOf rfc3339 csv_header (csv_row env rfc3339 t) t
  unfolding cell
  csv_row-IsRowOf t = record {
    id = refl;
    title = refl;
    description = refl;
    doc_type = refl;
    status = refl;
    creator = refl;
    responsible = shown t.responsible_id;
    deadline = timed t.deadline;
    overdue = flagged t.is_overdue;
    created = refl;
    updated = refl;
  }
    where
      shown : (r : Option String) → Shows (λ x. x) r (some (or_empty r))
      shown none = refl
      shown (some x) = refl

      timed : (d : Option ℕ) → Shows rfc3339 d (some (deadline_text env rfc3339 d))
      timed none = refl
      timed (some x) = refl

      flagged : (b : Bool) → some (format_bool b) ≡ some (if b then "true" else "false")
      flagged true = refl
      flagged false = refl

  csv_rows-AreRowsOf :
      (ts : List Document) → AreRowsOf rfc3339 csv_header (map (csv_row env rfc3339) ts) ts
  csv_rows-AreRowsOf [] = tt
  csv_rows-AreRowsOf (t ∷ ts) = (csv_row-IsRowOf t, csv_rows-AreRowsOf ts)

  -- Where no statement fails, an export answers with a text and a number. A reader of values
  -- between commas, with records that end at line feeds, reads the text as headings and rows: one
  -- row for each of the first 10000 documents that the filter asks for, in the order of the query,
  -- with each column's value under its name. The number is that of those documents.
  pub export_documents_csv-reads :
      (f : AdvancedFilter) (w : DocumentWorld)
      → ((n : ℕ) → pg.fault n ≡ none)
      → (text : String) × (header : List String) × (rows : List (List String))
        × ((export_documents_csv env rfc3339 f w).0 ≡ ok (text, length (exported f w)))
        × (parse text ≡ header ∷ rows)
        × AreRowsOf rfc3339 header rows (exported f w)
  unfolding export_documents_csv
  export_documents_csv-reads f w up =
      let ts = exported f w in
      let listed = record w { calls = suc (suc w.calls) } in
      (
        write_rows (csv_header ∷ map (csv_row env rfc3339) ts),
        csv_header,
        map (csv_row env rfc3339) ts,
        ap (λ (p : Result DocumentError (String × ℕ) × DocumentWorld). p.0)
            (bind_runs _ _ w listed (wrap_runs _ _ w listed (filter-runs f w up))
              ∙ pure_runs _ listed),
        reads_back ts,
        csv_rows-AreRowsOf ts,
      )
