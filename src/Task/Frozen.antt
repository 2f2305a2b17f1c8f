-- ===== src/Task/Frozen.antt =====
-- What the abstract life of a task, and so the service, leaves alone: a finished task is frozen, and
-- a started task is kept and grows old along the diagram only.
use docflow_web.Base.{
  ℕ, String, ◌≡◌, ◌≢◌, refl, sym, ap, ◌∙◌, true, false, ◌==◌, none, some, List, ◌∷◌, map, arith,
  eq_iff, ne_of_eq_false, Bool-cases, inl, inr, elem,
}
use docflow_web.Base.Table.{
  select, is_key, Unique, find-cons, find-delete_where, find_key, elem-select, find-update_miss,
  same_row,
}
use docflow_web.Task.Domain.{Task, status_open, status_in_progress, status_done, status_overdue}
use docflow_web.Task.Repository.{
  TaskWorld, task_key, find_task, with_status, with_assignee, with_fields, is_late,
}
use docflow_web.Task.Service.{TaskEnv}
use docflow_web.Task.Lifecycle.{
  Edge, start, finish, miss_open, miss, resume, finish_late, TaskStep, created, edited, assigned,
  moved, removed, expired, TaskSteps, here, next,
}
use docflow_web.Task.Refinement.{Request, serve, serve-TaskSteps}
use docflow_web.Task.Invariants.{IsWellFormed, steps-IsWellFormed}

Edge-alive : {from to : String} → Edge from to → from ≢ status_done
Edge-alive (start p _) q = ne_of_eq_false status_open status_done refl (sym p ∙ q)
Edge-alive (finish p _) q = ne_of_eq_false status_in_progress status_done refl (sym p ∙ q)
Edge-alive (miss_open p _) q = ne_of_eq_false status_open status_done refl (sym p ∙ q)
Edge-alive (miss p _) q = ne_of_eq_false status_in_progress status_done refl (sym p ∙ q)
Edge-alive (resume p _) q = ne_of_eq_false status_overdue status_done refl (sym p ∙ q)
Edge-alive (finish_late p _) q = ne_of_eq_false status_overdue status_done refl (sym p ∙ q)

late_done : (now : ℕ) (t : Task) → t.status ≡ status_done → is_late now t ≡ false
late_done now t d = ground (arith, eq_iff t.status status_done)

module _ (ts : List Task) (id : String) {row : Task} (h : find_task id ts ≡ some row) where
  -- An update of a row in another status than `row`'s does not reach `row`.
  pub missed :
      (k : String) (old : Task)
      → find_task k ts ≡ some old
      → old.status ≢ row.status
      → is_key task_key k row ≡ false
  missed k old e other = elim (Bool-cases (is_key task_key k row)) [
    | inl m ↦ absurd (other (ap (λ (t : Task). t.status) (same_row task_key k id ts e h m)))
    | inr m ↦ m
  ]

  pub own_key : (k : String) → (k == id) ≡ true → is_key task_key k row ≡ true
  own_key k m = rw (find_key task_key id ts h, (eq_iff k id).0 m) ((eq_iff id id).1 refl)

  pub ids_late :
      (now : ℕ)
      → Unique task_key ts
      → elem row.id (map task_key (select (is_late now) ts)) ≡ is_late now row
  ids_late now u = rw (find_key task_key id ts h) (elem-select task_key (is_late now) id ts u h)

  pub find-created : (new : Task) → find_task new.id ts ≡ none → find_task id (new ∷ ts) ≡ some row
  find-created new e = rw (find-cons task_key id new ts) (ground (arith, eq_iff new.id id))

pub step-frozen :
    {ts us : List Task}
    → TaskStep ts us
    → IsWellFormed ts
    → (id : String) {row : Task} → find_task id ts ≡ some row
    → row.status ≡ status_done
    → find_task id us ≡ some row
step-frozen {ts} (created new e n) wf id h d = find-created ts id h new e
step-frozen {ts} (edited old new now e alive keep) wf id h d =
    find-update_miss task_key _ (with_fields new now) (λ r. refl) id ts h
      (missed ts id h new.id old e (λ q. alive (q ∙ d)))
step-frozen {ts} (assigned k who old now e alive) wf id h d =
    find-update_miss task_key _ (with_assignee who now) (λ r. refl) id ts h
      (missed ts id h k old e (λ q. alive (q ∙ d)))
step-frozen {ts} (moved k to old now e edge) wf id h d =
    find-update_miss task_key _ (with_status to now) (λ r. refl) id ts h
      (missed ts id h k old e (λ q. Edge-alive edge (q ∙ d)))
step-frozen {ts} (removed k old e is_open) wf id {row} h d =
    rw (find-delete_where task_key k id ts) (elim (Bool-cases (k == id)) [
      | inl m ↦
          let one : old ≡ row = same_row task_key k id ts e h (own_key ts id h k m) in
          absurd (
            ne_of_eq_false status_open status_done refl
              (sym is_open ∙ ap (λ (t : Task). t.status) one ∙ d))
      | inr m ↦ rw m h
    ])
step-frozen {ts} (expired seen now) wf id {row} h d =
    find-update_miss task_key _ (with_status status_overdue now) (λ r. refl) id ts h
      (ids_late ts id h seen wf.unique ∙ late_done seen row d)

steps-frozen :
    {ts us : List Task}
    → TaskSteps ts us
    → IsWellFormed ts
    → (id : String) {row : Task} → find_task id ts ≡ some row
    → row.status ≡ status_done
    → find_task id us ≡ some row
steps-frozen here wf id h d = h
steps-frozen (next q s) wf id h d =
    step-frozen s (steps-IsWellFormed q wf) id (steps-frozen q wf id h d) d

-- From a well-formed table, a task that is done is found with the very same fields after any
-- requests and any failures: it is not edited, assigned, moved, expired or deleted.
pub serve-frozen :
    (env : TaskEnv) (w : TaskWorld) (rs : List Request) (id : String) {row : Task}
    → IsWellFormed w.db.tasks
    → find_task id w.db.tasks ≡ some row
    → row.status ≡ status_done
    → find_task id (serve env w rs).db.tasks ≡ some row
serve-frozen env w rs id wf h d = steps-frozen (serve-TaskSteps env w rs) wf id h d
