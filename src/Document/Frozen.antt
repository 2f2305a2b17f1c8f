-- ===== src/Document/Frozen.antt =====
-- What the abstract life of a document, and so the service, leaves alone: a finished task is frozen, and
-- a started task is kept and grows old along the diagram only.
use docflow_web.Base.{
  ℕ, String, ◌≡◌, ◌≢◌, refl, sym, ap, ◌∙◌, true, false, ◌==◌, none, some, List, ◌∷◌, map, arith,
  eq_iff, ne_of_eq_false, Bool-cases, inl, inr, elem,
}
use docflow_web.Base.Table.{
  select, is_key, Unique, find-cons, find-delete_where, find_key, elem-select, find-update_miss,
  same_row,
}
use docflow_web.Document.Domain.{Document, status_draft, status_archived}
use docflow_web.Document.Repository.{
  DocumentWorld, document_key, find_document, with_status, with_responsible, with_fields,
  with_archive, with_overdue, is_late,
}
use docflow_web.Document.Service.{DocumentEnv}
use docflow_web.Document.Lifecycle.{
  DocumentStep, created, edited, assigned, moved, filed, removed, expired, DocumentSteps, here,
  next,
}
use docflow_web.Document.Refinement.{Request, serve, serve-DocumentSteps}
use docflow_web.Document.Invariants.{IsWellFormed, Edge-alive, steps-IsWellFormed}

late_archived : (now : ℕ) (t : Document) → t.status ≡ status_archived → is_late now t ≡ false
late_archived now t d = ground (arith, eq_iff t.status status_archived)

module _ (ts : List Document) (id : String) {row : Document}
    (h : find_document id ts ≡ some row) where
  -- An update of a row in another status than `row`'s does not reach `row`.
  pub missed :
      (k : String) (old : Document)
      → find_document k ts ≡ some old
      → old.status ≢ row.status
      → is_key document_key k row ≡ false
  missed k old e other = elim (Bool-cases (is_key document_key k row)) [
    | inl m ↦ absurd (other (ap (λ (t : Document). t.status) (same_row document_key k id ts e h m)))
    | inr m ↦ m
  ]

  pub own_key : (k : String) → (k == id) ≡ true → is_key document_key k row ≡ true
  own_key k m = rw (find_key document_key id ts h, (eq_iff k id).0 m) ((eq_iff id id).1 refl)

  pub ids_late :
      (now : ℕ)
      → Unique document_key ts
      → elem row.id (map document_key (select (is_late now) ts)) ≡ is_late now row
  ids_late now u =
      rw (find_key document_key id ts h) (elem-select document_key (is_late now) id ts u h)

  pub find-created :
      (new : Document) → find_document new.id ts ≡ none → find_document id (new ∷ ts) ≡ some row
  find-created new e = rw (find-cons document_key id new ts) (ground (arith, eq_iff new.id id))

pub step-frozen :
    {ts us : List Document}
    → DocumentStep ts us
    → IsWellFormed ts
    → (id : String) {row : Document} → find_document id ts ≡ some row
    → row.status ≡ status_archived
    → find_document id us ≡ some row
step-frozen {ts} (created new e n) wf id h d = find-created ts id h new e
step-frozen {ts} (edited old new now e alive keep) wf id h d =
    find-update_miss document_key _ (with_fields new now) (λ r. refl) id ts h
      (missed ts id h new.id old e (λ q. alive (q ∙ d)))
step-frozen {ts} (assigned k who old now e alive) wf id h d =
    find-update_miss document_key _ (with_responsible who now) (λ r. refl) id ts h
      (missed ts id h k old e (λ q. alive (q ∙ d)))
step-frozen {ts} (moved k to old now e edge open_end) wf id h d =
    find-update_miss document_key _ (with_status to now) (λ r. refl) id ts h
      (missed ts id h k old e (λ q. Edge-alive edge (q ∙ d)))
step-frozen {ts} (filed k old now e edge) wf id h d =
    find-update_miss document_key _ (with_archive now) (λ r. refl) id ts h
      (missed ts id h k old e (λ q. Edge-alive edge (q ∙ d)))
step-frozen {ts} (removed k old e is_open) wf id {row} h d =
    rw (find-delete_where document_key k id ts) (elim (Bool-cases (k == id)) [
      | inl m ↦
          let one : old ≡ row = same_row document_key k id ts e h (own_key ts id h k m) in
          absurd (
            ne_of_eq_false status_draft status_archived refl
              (sym is_open ∙ ap (λ (t : Document). t.status) one ∙ d))
      | inr m ↦ rw m h
    ])
step-frozen {ts} (expired seen now) wf id {row} h d =
    find-update_miss document_key _ (with_overdue now) (λ r. refl) id ts h
      (ids_late ts id h seen wf.unique ∙ late_archived seen row d)

steps-frozen :
    {ts us : List Document}
    → DocumentSteps ts us
    → IsWellFormed ts
    → (id : String) {row : Document} → find_document id ts ≡ some row
    → row.status ≡ status_archived
    → find_document id us ≡ some row
steps-frozen here wf id h d = h
steps-frozen (next q s) wf id h d =
    step-frozen s (steps-IsWellFormed q wf) id (steps-frozen q wf id h d) d

-- From a well-formed table, a document that is archived is found with the very same fields after any
-- requests and any failures: it is not edited, assigned, moved, archived again, expired or deleted.
pub serve_documents-frozen :
    (env : DocumentEnv) (w : DocumentWorld) (rs : List Request) (id : String) {row : Document}
    → IsWellFormed w.db.documents
    → find_document id w.db.documents ≡ some row
    → row.status ≡ status_archived
    → find_document id (serve env w rs).db.documents ≡ some row
serve_documents-frozen env w rs id wf h d = steps-frozen (serve-DocumentSteps env w rs) wf id h d
