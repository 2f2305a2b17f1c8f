-- ===== src/Document/Kept.antt =====
-- A document that is no draft is never lost: whatever is requested, it stays in the table with its
-- creator, its file and its time of creation, and its status follows the diagram.
use docflow_web.Base.{
  ℕ, String, ◌≡◌, ◌≢◌, refl, sym, ap, ◌∙◌, Bool, true, ◌==◌, none, some, List, arith, eq_iff,
  ne_of_eq_false, Bool-cases, inl, inr, ◌⊎◌, if◌then◌else◌,
}
use mathlib.Core.Path.{subst}
use docflow_web.Base.Table.{
  update_where, is_key, find-delete_where, find-All, find-update_miss, find-update_hit, same_row,
}
use docflow_web.Document.Domain.{
  Document, status_valid, status_draft, status_assigned, status_completed, status_in_progress,
  status_archived, status_overdue,
}
use docflow_web.Document.Repository.{
  DocumentWorld, document_key, find_document, with_status, with_responsible, with_fields,
  with_archive, with_overdue, is_late,
}
use docflow_web.Document.Service.{DocumentEnv}
use docflow_web.Document.Lifecycle.{
  Edge, assign, start, finish, miss_assigned, miss, resume, file, IsSound, DocumentStep, created,
  edited, assigned, moved, filed, removed, expired, DocumentSteps, here, next,
}
use docflow_web.Document.Refinement.{Request, serve, serve-DocumentSteps}
use docflow_web.Document.Invariants.{IsWellFormed, steps-IsWellFormed}
use docflow_web.Document.Frozen.{ids_late, own_key, find-created}

-- A path of the diagram.
pub data Route (from : String) : String → Type 0 where
  stop : Route from from
  along : {via to : String} → Route from via → Edge via to → Route from to

pub Route-trans : {a b c : String} → Route a b → Route b c → Route a c
Route-trans p stop = p
Route-trans p (along q e) = along (Route-trans p q) e

pub record Ages (old new : Document) : Type 0 where
  pub creator : new.creator_id ≡ old.creator_id
  pub file : new.file_url ≡ old.file_url
  pub since : new.created_at ≡ old.created_at
  pub route : Route old.status new.status

abbrev pub Survives : String → Document → List Document → Type 0
Survives id old ts = (new : Document) × (find_document id ts ≡ some new) × Ages old new

Ages-refl : (t : Document) → Ages t t
Ages-refl t = record { creator = refl; file = refl; since = refl; route = stop }

Ages-trans : {a b c : Document} → Ages a b → Ages b c → Ages a c
Ages-trans p q = record {
  creator = q.creator ∙ p.creator;
  file = q.file ∙ p.file;
  since = q.since ∙ p.since;
  route = Route-trans p.route q.route;
}

-- No edge leads back to `draft`.
Edge-started : {from to : String} → Edge from to → to ≢ status_draft
Edge-started (assign _ q) e = ne_of_eq_false status_assigned status_draft refl (sym q ∙ e)
Edge-started (start _ q) e = ne_of_eq_false status_in_progress status_draft refl (sym q ∙ e)
Edge-started (miss_assigned _ q) e = ne_of_eq_false status_overdue status_draft refl (sym q ∙ e)
Edge-started (finish _ q) e = ne_of_eq_false status_completed status_draft refl (sym q ∙ e)
Edge-started (miss _ q) e = ne_of_eq_false status_overdue status_draft refl (sym q ∙ e)
Edge-started (resume _ q) e = ne_of_eq_false status_in_progress status_draft refl (sym q ∙ e)
Edge-started (file _ _ q) e = ne_of_eq_false status_archived status_draft refl (sym q ∙ e)

Route-started : {from to : String} → Route from to → from ≢ status_draft → to ≢ status_draft
Route-started stop h = h
Route-started (along p e) h = Edge-started e

-- A sound document that is late and no draft is assigned or in progress.
late_cases :
    (now : ℕ) (t : Document)
    → status_valid t.status ≡ true
    → is_late now t ≡ true
    → t.status ≢ status_draft
    → (t.status ≡ status_assigned) ⊎ (t.status ≡ status_in_progress)
unfolding status_valid
late_cases now t v l o = grind (
  arith,
  eq_iff t.status status_draft,
  eq_iff t.status status_assigned,
  eq_iff t.status status_in_progress,
  eq_iff t.status status_completed,
  eq_iff t.status status_archived,
  eq_iff t.status status_overdue,
)

late-Edge :
    (now : ℕ) (t : Document)
    → status_valid t.status ≡ true
    → is_late now t ≡ true
    → t.status ≢ status_draft
    → Edge t.status status_overdue
late-Edge now t v l o = elim (late_cases now t v l o) [
  | inl e ↦ miss_assigned e refl
  | inr e ↦ miss e refl
]

module _ (ts : List Document) (id : String) (row : Document)
    (h : find_document id ts ≡ some row) where
  -- An update that keeps ids: the row is found as it was, or as the update leaves it.
  Survives-update :
      (p : Document → Bool) (f : Document → Document)
      → ((r : Document) → document_key (f r) ≡ document_key r)
      → (p row ≡ true → Ages row (f row))
      → Survives id row (update_where p f ts)
  Survives-update p f same grows = elim (Bool-cases (p row)) [
    | inl m ↦ (f row, find-update_hit document_key p f same id ts h m, grows m)
    | inr m ↦ (row, find-update_miss document_key p f same id ts h m, Ages-refl row)
  ]

  same_status :
      (k : String) (old : Document)
      → find_document k ts ≡ some old
      → is_key document_key k row ≡ true
      → old.status ≡ row.status
  same_status k old e m = ap (λ (t : Document). t.status) (same_row document_key k id ts e h m)

  survives_delete :
      (k : String) (old : Document)
      → find_document k ts ≡ some old
      → old.status ≡ status_draft
      → row.status ≢ status_draft
      → (if k == id then none else find_document id ts) ≡ some row
  survives_delete k old e is_open started = elim (Bool-cases (k == id)) [
    | inl m ↦ absurd (started (sym (same_status k old e (own_key ts id h k m)) ∙ is_open))
    | inr m ↦ rw m h
  ]

step-Survives :
    {ts us : List Document}
    → DocumentStep ts us
    → IsWellFormed ts
    → (id : String) (row : Document) → find_document id ts ≡ some row
    → row.status ≢ status_draft
    → Survives id row us
step-Survives {ts} (created new e n) wf id row h started =
    (row, find-created ts id h new e, Ages-refl row)
step-Survives {ts} (edited old new now e alive keep) wf id row h started =
    Survives-update ts id row h _ (with_fields new now) (λ r. refl)
      (λ m. record { creator = refl; file = refl; since = refl; route = stop })
step-Survives {ts} (assigned k who old now e alive) wf id row h started =
    Survives-update ts id row h _ (with_responsible who now) (λ r. refl)
      (λ m. record { creator = refl; file = refl; since = refl; route = stop })
step-Survives {ts} (moved k to old now e edge open_end) wf id row h started =
    Survives-update ts id row h _ (with_status to now) (λ r. refl)
      λ m. record {
        creator = refl;
        file = refl;
        since = refl;
        route = along stop (subst (λ s. Edge s to) (same_status ts id row h k old e m) edge);
      }
step-Survives {ts} (filed k old now e edge) wf id row h started =
    Survives-update ts id row h _ (with_archive now) (λ r. refl)
      λ m. record {
        creator = refl;
        file = refl;
        since = refl;
        route =
            along stop
              (subst (λ s. Edge s status_archived) (same_status ts id row h k old e m) edge);
      }
step-Survives {ts} (removed k old e is_open) wf id row h started = (
  row,
  rw (find-delete_where document_key k id ts) (survives_delete ts id row h k old e is_open started),
  Ages-refl row,
)
step-Survives {ts} (expired seen now) wf id row h started =
    Survives-update ts id row h _ (with_overdue now) (λ r. refl)
      λ m. record {
        creator = refl;
        file = refl;
        since = refl;
        route = along stop (
            late-Edge seen row (find-All document_key IsSound id ts wf.sound h).known
              (sym (ids_late ts id h seen wf.unique) ∙ m) started);
      }

steps-Survives :
    {ts us : List Document}
    → DocumentSteps ts us
    → IsWellFormed ts
    → (id : String) (row : Document) → find_document id ts ≡ some row
    → row.status ≢ status_draft
    → Survives id row us
steps-Survives here wf id row h started = (row, h, Ages-refl row)
steps-Survives (next q s) wf id row h started =
    let (mid, found, older) = steps-Survives q wf id row h started in
    let (new, found', newer) =
      step-Survives s (steps-IsWellFormed q wf) id mid found (Route-started older.route started) in
    (new, found', Ages-trans older newer)

-- From a well-formed table, a document that has left `draft` is still found after any requests and
-- any failures; its creator, file and creation time are the same, and its status is one that a path
-- of the diagram leads to from the status that it had.
pub serve_documents-Survives :
    (env : DocumentEnv) (w : DocumentWorld) (rs : List Request) (id : String) (row : Document)
    → IsWellFormed w.db.documents
    → find_document id w.db.documents ≡ some row
    → row.status ≢ status_draft
    → Survives id row (serve env w rs).db.documents
serve_documents-Survives env w rs id row wf h started =
    steps-Survives (serve-DocumentSteps env w rs) wf id row h started
