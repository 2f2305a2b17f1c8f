-- ===== src/Task/Lifecycle.antt =====
-- The life of a task, stated without the code: the diagram of statuses, and the changes that one
-- operation may make to the table of tasks.
use docflow_web.Base.{
  ℕ, String, ◌≡◌, ◌≢◌, refl, true, none, some, List, ◌∷◌, map, elem, arith, eq_iff,
}
use docflow_web.Base.Table.{select, update_where, delete_where, is_key}
use docflow_web.Base.Moves.{Preorder}
use docflow_web.Task.Domain.{
  Task, status_open, status_in_progress, status_done, status_overdue, can_transition,
  priority_valid, status_valid,
}
use docflow_web.Task.Repository.{
  TaskDb, task_key, find_task, with_status, with_assignee, with_fields, is_late,
}

pub data Edge (from to : String) : Type 0 where
  start : from ≡ status_open → to ≡ status_in_progress → Edge from to
  finish : from ≡ status_in_progress → to ≡ status_done → Edge from to
  miss_open : from ≡ status_open → to ≡ status_overdue → Edge from to
  miss : from ≡ status_in_progress → to ≡ status_overdue → Edge from to
  resume : from ≡ status_overdue → to ≡ status_in_progress → Edge from to
  finish_late : from ≡ status_overdue → to ≡ status_done → Edge from to

pub Edge_of_can_transition : (from to : String) → can_transition from to ≡ true → Edge from to
unfolding can_transition
Edge_of_can_transition from to h = grind (
  arith,
  eq_iff status_open from,
  eq_iff status_in_progress from,
  eq_iff status_done from,
  eq_iff status_overdue from,
  eq_iff status_in_progress to,
  eq_iff status_overdue to,
  eq_iff status_done to,
  start,
  finish,
  miss_open,
  miss,
  resume,
  finish_late,
)

pub can_transition_of_Edge : (from to : String) → Edge from to → can_transition from to ≡ true
unfolding can_transition
can_transition_of_Edge from to (start p q) = rw (p, q) refl
can_transition_of_Edge from to (finish p q) = rw (p, q) refl
can_transition_of_Edge from to (miss_open p q) = rw (p, q) refl
can_transition_of_Edge from to (miss p q) = rw (p, q) refl
can_transition_of_Edge from to (resume p q) = rw (p, q) refl
can_transition_of_Edge from to (finish_late p q) = rw (p, q) refl

-- What `CreateTask` stores: an open task with a title and a valid priority, assigned to nobody.
pub record IsNew (t : Task) : Type 0 where
  pub open_status : t.status ≡ status_open
  pub titled : t.title ≢ ""
  pub ranked : priority_valid t.priority ≡ true
  pub unassigned : t.assignee_id ≡ none

-- What every stored task has.
pub record IsSound (t : Task) : Type 0 where
  pub known : status_valid t.status ≡ true
  pub titled : t.title ≢ ""
  pub ranked : priority_valid t.priority ≡ true

-- One change of the table.
pub data TaskStep : List Task → List Task → Type 0 where
  created :
      {ts : List Task} (row : Task)
      → find_task row.id ts ≡ none
      → IsNew row
      → TaskStep ts (row ∷ ts)
  edited :
      {ts : List Task} (old new : Task) (now : ℕ)
      → find_task new.id ts ≡ some old
      → old.status ≢ status_done
      → (IsSound old → (new.title ≢ "") × (priority_valid new.priority ≡ true))
      → TaskStep ts (update_where (is_key task_key new.id) (with_fields new now) ts)
  assigned :
      {ts : List Task} (id who : String) (old : Task) (now : ℕ)
      → find_task id ts ≡ some old
      → old.status ≢ status_done
      → TaskStep ts (update_where (is_key task_key id) (with_assignee who now) ts)
  moved :
      {ts : List Task} (id to : String) (old : Task) (now : ℕ)
      → find_task id ts ≡ some old
      → Edge old.status to
      → TaskStep ts (update_where (is_key task_key id) (with_status to now) ts)
  removed :
      {ts : List Task} (id : String) (old : Task)
      → find_task id ts ≡ some old
      → old.status ≡ status_open
      → TaskStep ts (delete_where (is_key task_key id) ts)
  expired :
      {ts : List Task} (seen now : ℕ)
      → TaskStep ts (
          update_where
            (λ t. elem t.id (map task_key (select (is_late seen) ts)))
            (with_status status_overdue now)
            ts)

pub data TaskSteps (ts : List Task) : List Task → Type 0 where
  here : TaskSteps ts ts
  next : {us vs : List Task} → TaskSteps ts us → TaskStep us vs → TaskSteps ts vs

pub steps_trans : {ts us vs : List Task} → TaskSteps ts us → TaskSteps us vs → TaskSteps ts vs
steps_trans p here = p
steps_trans p (next q s) = next (steps_trans p q) s

pub one_step : {ts us : List Task} → TaskStep ts us → TaskSteps ts us
one_step s = next here s

abbrev pub task_moves : Preorder TaskDb
task_moves = record {
  rel = λ d e. TaskSteps d.tasks e.tasks;
  stay = λ d. here;
  trans = λ d e f. steps_trans;
}
