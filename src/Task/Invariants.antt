-- ===== src/Task/Invariants.antt =====
-- What the abstract life of a task guarantees, and so the service: the table stays well formed, a
-- finished task is frozen, a started task is kept.
use docflow_web.Base.{ℕ, String, ◌≡◌, ◌≢◌, refl, true, some, List, All}
use docflow_web.Base.Table.{
  update_where, is_key, Unique, find-All, Unique-update_where, Unique-delete_where,
  All-update_where, All-delete_where,
}
use docflow_web.Task.Domain.{Task, status_valid, priority_valid, status_overdue}
use docflow_web.Task.Repository.{
  TaskWorld, task_key, find_task, with_status, with_assignee, with_fields,
}
use docflow_web.Task.Service.{TaskEnv}
use docflow_web.Task.Lifecycle.{
  Edge, start, finish, miss_open, miss, resume, finish_late, IsNew, IsSound, TaskStep, created,
  edited, assigned, moved, removed, expired, TaskSteps, here, next,
}
use docflow_web.Task.Refinement.{Request, serve, serve-TaskSteps}

pub record IsWellFormed (ts : List Task) : Type 0 where
  pub unique : Unique task_key ts
  pub sound : All IsSound ts

new-IsSound : (t : Task) → IsNew t → IsSound t
unfolding status_valid
new-IsSound t n = record { known = rw n.open_status refl; titled = n.titled; ranked = n.ranked }

pub Edge-status_valid : {from to : String} → Edge from to → status_valid to ≡ true
unfolding status_valid
Edge-status_valid (start _ q) = rw q refl
Edge-status_valid (finish _ q) = rw q refl
Edge-status_valid (miss_open _ q) = rw q refl
Edge-status_valid (miss _ q) = rw q refl
Edge-status_valid (resume _ q) = rw q refl
Edge-status_valid (finish_late _ q) = rw q refl

with_status-IsSound :
    (to : String) (now : ℕ) (t : Task)
    → status_valid to ≡ true
    → IsSound t
    → IsSound (with_status to now t)
with_status-IsSound to now t v h = record { known = v; titled = h.titled; ranked = h.ranked }

module _ {ts : List Task} where
  edited-IsWellFormed :
      (old new : Task) (now : ℕ)
      → find_task new.id ts ≡ some old
      → (IsSound old → (new.title ≢ "") × (priority_valid new.priority ≡ true))
      → IsWellFormed ts
      → IsWellFormed (update_where (is_key task_key new.id) (with_fields new now) ts)
  edited-IsWellFormed old new now e keep h =
      let (titled, ranked) = keep (find-All task_key IsSound new.id ts h.sound e) in
      record {
        unique = Unique-update_where task_key _ (with_fields new now) (λ r. refl) ts h.unique;
        sound =
            All-update_where IsSound _ (with_fields new now)
              (λ r _ s. record { known = s.known; titled = titled; ranked = ranked }) ts h.sound;
      }

pub step-IsWellFormed : {ts us : List Task} → TaskStep ts us → IsWellFormed ts → IsWellFormed us
step-IsWellFormed (created row e n) h = record {
  unique = (e, h.unique);
  sound = (new-IsSound row n, h.sound);
}
step-IsWellFormed (edited old new now e alive keep) h = edited-IsWellFormed old new now e keep h
step-IsWellFormed {ts} (assigned id who old now e alive) h = record {
  unique = Unique-update_where task_key _ (with_assignee who now) (λ r. refl) ts h.unique;
  sound =
      All-update_where IsSound _ (with_assignee who now)
        (λ r _ s. record { known = s.known; titled = s.titled; ranked = s.ranked }) ts h.sound;
}
step-IsWellFormed {ts} (moved id to old now e edge) h = record {
  unique = Unique-update_where task_key _ (with_status to now) (λ r. refl) ts h.unique;
  sound =
      All-update_where IsSound _ (with_status to now)
        (λ r _. with_status-IsSound to now r (Edge-status_valid edge)) ts h.sound;
}
step-IsWellFormed {ts} (removed id old e o) h = record {
  unique = Unique-delete_where task_key id ts h.unique;
  sound = All-delete_where IsSound _ ts h.sound;
}
step-IsWellFormed {ts} (expired seen now) h = record {
  unique = Unique-update_where task_key _ (with_status status_overdue now) (λ r. refl) ts h.unique;
  sound =
      All-update_where IsSound _ (with_status status_overdue now)
        (λ r _. with_status-IsSound status_overdue now r (unfold status_valid in refl)) ts h.sound;
}

pub steps-IsWellFormed : {ts us : List Task} → TaskSteps ts us → IsWellFormed ts → IsWellFormed us
steps-IsWellFormed here h = h
steps-IsWellFormed (next q s) h = step-IsWellFormed s (steps-IsWellFormed q h)

-- From a well-formed table, after any requests and any failures, ids are unique, every status and
-- priority is one of the declared ones, and no title is empty.
pub serve-IsWellFormed :
    (env : TaskEnv) (w : TaskWorld) (rs : List Request)
    → IsWellFormed w.db.tasks
    → IsWellFormed (serve env w rs).db.tasks
serve-IsWellFormed env w rs h = steps-IsWellFormed (serve-TaskSteps env w rs) h
