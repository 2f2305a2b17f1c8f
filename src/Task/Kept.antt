-- ===== src/Task/Kept.antt =====
-- A started task is never lost: whatever is requested, it stays in the table with its creator, its
-- document and its time of creation, and its status follows the diagram.
use docflow_web.Base.{
  ℕ, String, ◌≡◌, ◌≢◌, refl, sym, ap, ◌∙◌, Bool, true, ◌==◌, none, some, List, arith, eq_iff,
  ne_of_eq_false, Bool-cases, inl, inr, if◌then◌else◌,
}
use mathlib.Core.Path.{subst}
use docflow_web.Base.Table.{
  update_where, is_key, find-delete_where, find-All, find-update_miss, find-update_hit, same_row,
}
use docflow_web.Task.Domain.{
  Task, status_valid, status_open, status_in_progress, status_done, status_overdue,
}
use docflow_web.Task.Repository.{
  TaskWorld, task_key, find_task, with_status, with_assignee, with_fields, is_late,
}
use docflow_web.Task.Service.{TaskEnv}
use docflow_web.Task.Lifecycle.{
  Edge, start, finish, miss_open, miss, resume, finish_late, IsSound, TaskStep, created, edited,
  assigned, moved, removed, expired, TaskSteps, here, next,
}
use docflow_web.Task.Refinement.{Request, serve, serve-TaskSteps}
use docflow_web.Task.Invariants.{IsWellFormed, steps-IsWellFormed}
use docflow_web.Task.Frozen.{ids_late, own_key, find-created}

-- A path of the diagram.
pub data Route (from : String) : String → Type 0 where
  stop : Route from from
  along : {via to : String} → Route from via → Edge via to → Route from to

pub Route-trans : {a b c : String} → Route a b → Route b c → Route a c
Route-trans p stop = p
Route-trans p (along q e) = along (Route-trans p q) e

pub record Ages (old new : Task) : Type 0 where
  pub creator : new.creator_id ≡ old.creator_id
  pub document : new.document_id ≡ old.document_id
  pub since : new.created_at ≡ old.created_at
  pub route : Route old.status new.status

abbrev pub Survives : String → Task → List Task → Type 0
Survives id old ts = (new : Task) × (find_task id ts ≡ some new) × Ages old new

Ages-refl : (t : Task) → Ages t t
Ages-refl t = record { creator = refl; document = refl; since = refl; route = stop }

Ages-trans : {a b c : Task} → Ages a b → Ages b c → Ages a c
Ages-trans p q = record {
  creator = q.creator ∙ p.creator;
  document = q.document ∙ p.document;
  since = q.since ∙ p.since;
  route = Route-trans p.route q.route;
}

-- No edge leads back to `open`.
Edge-started : {from to : String} → Edge from to → to ≢ status_open
Edge-started (start _ q) e = ne_of_eq_false status_in_progress status_open refl (sym q ∙ e)
Edge-started (finish _ q) e = ne_of_eq_false status_done status_open refl (sym q ∙ e)
Edge-started (miss_open _ q) e = ne_of_eq_false status_overdue status_open refl (sym q ∙ e)
Edge-started (miss _ q) e = ne_of_eq_false status_overdue status_open refl (sym q ∙ e)
Edge-started (resume _ q) e = ne_of_eq_false status_in_progress status_open refl (sym q ∙ e)
Edge-started (finish_late _ q) e = ne_of_eq_false status_done status_open refl (sym q ∙ e)

Route-started : {from to : String} → Route from to → from ≢ status_open → to ≢ status_open
Route-started stop h = h
Route-started (along p e) h = Edge-started e

-- A sound task that is late and not open is in progress.
late_in_progress :
    (now : ℕ) (t : Task)
    → status_valid t.status ≡ true
    → is_late now t ≡ true
    → t.status ≢ status_open
    → t.status ≡ status_in_progress
unfolding status_valid
late_in_progress now t v l o = ground (
  arith,
  eq_iff t.status status_open,
  eq_iff t.status status_in_progress,
  eq_iff t.status status_done,
  eq_iff t.status status_overdue,
)

module _ (ts : List Task) (id : String) (row : Task) (h : find_task id ts ≡ some row) where
  -- An update that keeps ids: the row is found as it was, or as the update leaves it.
  Survives-update :
      (p : Task → Bool) (f : Task → Task)
      → ((r : Task) → task_key (f r) ≡ task_key r)
      → (p row ≡ true → Ages row (f row))
      → Survives id row (update_where p f ts)
  Survives-update p f same grows = elim (Bool-cases (p row)) [
    | inl m ↦ (f row, find-update_hit task_key p f same id ts h m, grows m)
    | inr m ↦ (row, find-update_miss task_key p f same id ts h m, Ages-refl row)
  ]

  same_status :
      (k : String) (old : Task)
      → find_task k ts ≡ some old
      → is_key task_key k row ≡ true
      → old.status ≡ row.status
  same_status k old e m = ap (λ (t : Task). t.status) (same_row task_key k id ts e h m)

  survives_delete :
      (k : String) (old : Task)
      → find_task k ts ≡ some old
      → old.status ≡ status_open
      → row.status ≢ status_open
      → (if k == id then none else find_task id ts) ≡ some row
  survives_delete k old e is_open started = elim (Bool-cases (k == id)) [
    | inl m ↦ absurd (started (sym (same_status k old e (own_key ts id h k m)) ∙ is_open))
    | inr m ↦ rw m h
  ]

step-Survives :
    {ts us : List Task}
    → TaskStep ts us
    → IsWellFormed ts
    → (id : String) (row : Task) → find_task id ts ≡ some row
    → row.status ≢ status_open
    → Survives id row us
step-Survives {ts} (created new e n) wf id row h started =
    (row, find-created ts id h new e, Ages-refl row)
step-Survives {ts} (edited old new now e alive keep) wf id row h started =
    Survives-update ts id row h _ (with_fields new now) (λ r. refl)
      (λ m. record { creator = refl; document = refl; since = refl; route = stop })
step-Survives {ts} (assigned k who old now e alive) wf id row h started =
    Survives-update ts id row h _ (with_assignee who now) (λ r. refl)
      (λ m. record { creator = refl; document = refl; since = refl; route = stop })
step-Survives {ts} (moved k to old now e edge) wf id row h started =
    Survives-update ts id row h _ (with_status to now) (λ r. refl)
      λ m. record {
        creator = refl;
        document = refl;
        since = refl;
        route = along stop (subst (λ s. Edge s to) (same_status ts id row h k old e m) edge);
      }
step-Survives {ts} (removed k old e is_open) wf id row h started = (
  row,
  rw (find-delete_where task_key k id ts) (survives_delete ts id row h k old e is_open started),
  Ages-refl row,
)
step-Survives {ts} (expired seen now) wf id row h started =
    Survives-update ts id row h _ (with_status status_overdue now) (λ r. refl)
      λ m. record {
        creator = refl;
        document = refl;
        since = refl;
        route = along stop (
            miss
              (late_in_progress seen row (find-All task_key IsSound id ts wf.sound h).known
                (sym (ids_late ts id h seen wf.unique) ∙ m) started)
              refl);
      }

steps-Survives :
    {ts us : List Task}
    → TaskSteps ts us
    → IsWellFormed ts
    → (id : String) (row : Task) → find_task id ts ≡ some row
    → row.status ≢ status_open
    → Survives id row us
steps-Survives here wf id row h started = (row, h, Ages-refl row)
steps-Survives (next q s) wf id row h started =
    let (mid, found, older) = steps-Survives q wf id row h started in
    let (new, found', newer) =
      step-Survives s (steps-IsWellFormed q wf) id mid found (Route-started older.route started) in
    (new, found', Ages-trans older newer)

-- From a well-formed table, a task that has left `open` is still found after any requests and any
-- failures; its creator, document and creation time are the same, and its status is one that a
-- path of the diagram leads to from the status that it had.
pub serve-Survives :
    (env : TaskEnv) (w : TaskWorld) (rs : List Request) (id : String) (row : Task)
    → IsWellFormed w.db.tasks
    → find_task id w.db.tasks ≡ some row
    → row.status ≢ status_open
    → Survives id row (serve env w rs).db.tasks
serve-Survives env w rs id row wf h started =
    steps-Survives (serve-TaskSteps env w rs) wf id row h started
