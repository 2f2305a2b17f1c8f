-- ===== src/Document/Invariants.antt =====
-- What the abstract life of a document guarantees, and so the service: the table stays well formed, a
-- finished task is frozen, a started task is kept.
use docflow_web.Base.{
  ℕ, String, ◌≡◌, ◌≢◌, refl, Bool, true, false, some, List, All, ◌==◌, ◌∙◌, sym, arith, eq_iff,
  elem, map, ne_of_eq_false,
}
use mathlib.Core.Path.{subst}
use docflow_web.Base.Rows.{All-both, All-found, All-update_where_from}
use docflow_web.Base.Table.{
  update_where, select, same_row, elem-select, is_key, Unique, find-All, Unique-update_where,
  Unique-delete_where, All-update_where, All-delete_where,
}
use docflow_web.Document.Domain.{
  Document, status_valid, type_valid, status_overdue, status_draft, status_assigned,
  status_in_progress, status_archived,
}
use docflow_web.Document.Repository.{
  DocumentWorld, document_key, find_document, with_status, with_responsible, with_fields,
  with_archive, with_overdue, is_late,
}
use docflow_web.Document.Service.{DocumentEnv}
use docflow_web.Document.Lifecycle.{
  Edge, assign, start, finish, miss_assigned, miss, resume, file, IsNew, IsSound, DocumentStep,
  created, edited, assigned, moved, filed, removed, expired, DocumentSteps, here, next,
}
use docflow_web.Document.Refinement.{Request, serve, serve-DocumentSteps}

pub record IsWellFormed (ts : List Document) : Type 0 where
  pub unique : Unique document_key ts
  pub sound : All IsSound ts

new-IsSound : (t : Document) → IsNew t → IsSound t
unfolding status_valid
new-IsSound t n = record {
  known = rw n.is_draft refl;
  titled = n.titled;
  typed = n.typed;
  filed = rw (n.unfiled, n.is_draft) refl;
}

pub Edge-status_valid : {from to : String} → Edge from to → status_valid to ≡ true
unfolding status_valid
Edge-status_valid (assign _ q) = rw q refl
Edge-status_valid (start _ q) = rw q refl
Edge-status_valid (miss_assigned _ q) = rw q refl
Edge-status_valid (finish _ q) = rw q refl
Edge-status_valid (miss _ q) = rw q refl
Edge-status_valid (resume _ q) = rw q refl
Edge-status_valid (file _ _ q) = rw q refl

-- No edge leads out of `archived`.
pub Edge-alive : {from to : String} → Edge from to → from ≢ status_archived
Edge-alive (assign p _) q = ne_of_eq_false status_draft status_archived refl (sym p ∙ q)
Edge-alive (start p _) q = ne_of_eq_false status_assigned status_archived refl (sym p ∙ q)
Edge-alive (miss_assigned p _) q = ne_of_eq_false status_assigned status_archived refl (sym p ∙ q)
Edge-alive (finish p _) q = ne_of_eq_false status_in_progress status_archived refl (sym p ∙ q)
Edge-alive (miss p _) q = ne_of_eq_false status_in_progress status_archived refl (sym p ∙ q)
Edge-alive (resume p _) q = ne_of_eq_false status_overdue status_archived refl (sym p ∙ q)
Edge-alive {from} (file _ n _) q = ne_of_eq_false from status_archived n q

eq_false_of_ne : (a b : String) → a ≢ b → (a == b) ≡ false
eq_false_of_ne a b n = ground (arith, eq_iff a b)

-- A document that is sound and not archived stays sound in another status but `archived`.
restatus-IsSound :
    (to : String) (b : Bool) (now : ℕ) (t : Document)
    → status_valid to ≡ true
    → to ≢ status_archived
    → t.status ≢ status_archived
    → IsSound t
    → IsSound (record t { status = to; is_overdue = b; updated_at = now })
restatus-IsSound to b now t v open_end alive h = record {
  known = v;
  titled = h.titled;
  typed = h.typed;
  filed =
      h.filed
      ∙ eq_false_of_ne t.status status_archived alive
      ∙ sym (eq_false_of_ne to status_archived open_end);
}

late_alive : (now : ℕ) (t : Document) → is_late now t ≡ true → t.status ≢ status_archived
late_alive now t l e = ground (arith, eq_iff t.status status_archived)

module _ {ts : List Document} (h : IsWellFormed ts) where
  -- Each row, with the fact that its id finds it.
  abbrev Own : Document → Type 0
  Own r = IsSound r × (find_document r.id ts ≡ some r)

  rows : All Own ts
  rows =
      All-both IsSound (λ r. find_document r.id ts ≡ some r) ts h.sound
        (All-found document_key ts h.unique)

  same_row_of :
      (id : String) (old r : Document)
      → find_document id ts ≡ some old
      → Own r
      → is_key document_key id r ≡ true
      → old ≡ r
  same_row_of id old r e own m = same_row document_key id r.id ts e own.1 m

  edited-IsWellFormed :
      (old new : Document) (now : ℕ)
      → find_document new.id ts ≡ some old
      → (IsSound old → (new.title ≢ "") × (type_valid new.doc_type ≡ true))
      → IsWellFormed (update_where (is_key document_key new.id) (with_fields new now) ts)
  edited-IsWellFormed old new now e keep =
      let (titled, typed) = keep (find-All document_key IsSound new.id ts h.sound e) in
      record {
        unique = Unique-update_where document_key _ (with_fields new now) (λ r. refl) ts h.unique;
        sound =
            All-update_where IsSound _ (with_fields new now)
              (λ r _ s. record { known = s.known; titled = titled; typed = typed; filed = s.filed })
              ts h.sound;
      }

  moved-IsWellFormed :
      (id to : String) (old : Document) (now : ℕ)
      → find_document id ts ≡ some old
      → Edge old.status to
      → to ≢ status_archived
      → IsWellFormed (update_where (is_key document_key id) (with_status to now) ts)
  moved-IsWellFormed id to old now e edge open_end = record {
    unique = Unique-update_where document_key _ (with_status to now) (λ r. refl) ts h.unique;
    sound =
        All-update_where_from _ (with_status to now)
          (λ r m own.
            let one = same_row_of id old r e own m in
            restatus-IsSound to r.is_overdue now r (Edge-status_valid edge) open_end
              (subst (λ (t : Document). t.status ≢ status_archived) one (Edge-alive edge)) own.0)
          (λ r own. own.0) ts rows;
  }

  filed-IsWellFormed :
      (id : String) (now : ℕ)
      → IsWellFormed (update_where (is_key document_key id) (with_archive now) ts)
  unfolding status_valid
  filed-IsWellFormed id now = record {
    unique = Unique-update_where document_key _ (with_archive now) (λ r. refl) ts h.unique;
    sound =
        All-update_where IsSound _ (with_archive now)
          (λ r _ s. record { known = refl; titled = s.titled; typed = s.typed; filed = refl }) ts
          h.sound;
  }

  expired-IsWellFormed :
      (seen now : ℕ)
      → IsWellFormed (
          update_where
            (λ t. elem t.id (map document_key (select (is_late seen) ts)))
            (with_overdue now)
            ts)
  unfolding status_valid
  expired-IsWellFormed seen now = record {
    unique = Unique-update_where document_key _ (with_overdue now) (λ r. refl) ts h.unique;
    sound =
        All-update_where_from _ (with_overdue now)
          (λ r m own.
            let late = sym (elem-select document_key (is_late seen) r.id ts h.unique own.1) ∙ m in
            restatus-IsSound status_overdue true now r refl
              (ne_of_eq_false status_overdue status_archived refl) (late_alive seen r late) own.0)
          (λ r own. own.0) ts rows;
  }

pub step-IsWellFormed :
    {ts us : List Document} → DocumentStep ts us → IsWellFormed ts → IsWellFormed us
step-IsWellFormed (created row e n) h = record {
  unique = (e, h.unique);
  sound = (new-IsSound row n, h.sound);
}
step-IsWellFormed (edited old new now e alive keep) h = edited-IsWellFormed h old new now e keep
step-IsWellFormed {ts} (assigned id who old now e alive) h = record {
  unique = Unique-update_where document_key _ (with_responsible who now) (λ r. refl) ts h.unique;
  sound =
      All-update_where IsSound _ (with_responsible who now)
        (λ r _ s. record { known = s.known; titled = s.titled; typed = s.typed; filed = s.filed })
        ts h.sound;
}
step-IsWellFormed (moved id to old now e edge open_end) h =
    moved-IsWellFormed h id to old now e edge open_end
step-IsWellFormed (filed id old now e edge) h = filed-IsWellFormed h id now
step-IsWellFormed {ts} (removed id old e o) h = record {
  unique = Unique-delete_where document_key id ts h.unique;
  sound = All-delete_where IsSound _ ts h.sound;
}
step-IsWellFormed (expired seen now) h = expired-IsWellFormed h seen now

pub steps-IsWellFormed :
    {ts us : List Document} → DocumentSteps ts us → IsWellFormed ts → IsWellFormed us
steps-IsWellFormed here h = h
steps-IsWellFormed (next q s) h = step-IsWellFormed s (steps-IsWellFormed q h)

-- From a well-formed table, after any requests and any failures, ids are unique, every status and
-- type is one of the declared ones, no title is empty, and a document has a time of archiving if
-- and only if its status is `archived`.
pub serve_documents-IsWellFormed :
    (env : DocumentEnv) (w : DocumentWorld) (rs : List Request)
    → IsWellFormed w.db.documents
    → IsWellFormed (serve env w rs).db.documents
serve_documents-IsWellFormed env w rs h = steps-IsWellFormed (serve-DocumentSteps env w rs) h
