-- ===== src/Task/Validation.antt =====
-- What `Validate` of the two inputs of task.go establishes, and `UpdateTask` on a valid input.
use docflow_web.Base.{
  String, ◌≡◌, ◌≢◌, refl, sym, Bool, true, false, not, Option, none, some, List, arith, eq_iff,
}
use mathlib.Core.Path.{subst}
use docflow_web.Base.Exec.{ok}
use docflow_web.Base.Table.{find_key}
use docflow_web.Base.Text.{trim_space}
use docflow_web.Task.Domain.{
  Task, CreateTaskInput, validate_create, UpdateTaskInput, validate_update, priority_valid,
  bad_title, bad_priority, trim_option,
}
use docflow_web.Task.Repository.{task_key, find_task}
use docflow_web.Task.Service
use docflow_web.Task.Service.{TaskEnv, new_task}
use docflow_web.Task.Lifecycle.{IsNew, IsSound}

-- A new task that `Validate` let through is what the abstract life admits.
pub validate_create-IsNew : (i j : CreateTaskInput) → validate_create i ≡ ok j → IsNew (new_task j)
unfolding validate_create
validate_create-IsNew i j h = record {
  open_status = refl;
  titled = λ e. ground (arith, eq_iff (trim_space i.title) "");
  ranked = ground arith;
  unassigned = refl;
}

-- What `Validate` has established of an edit that it let through.
validate_update_fields :
    (i j : UpdateTaskInput)
    → validate_update i ≡ ok j
    → (bad_title i.title ≡ false)
      × (bad_priority i.priority ≡ false)
      × (j.title ≡ trim_option i.title)
      × (j.priority ≡ i.priority)
unfolding validate_update
validate_update_fields i j h = (ground arith, ground arith, ground arith, ground arith)

title_kept :
    (o : Option String) (old : String)
    → bad_title o ≡ false
    → old ≢ ""
    → Service.or_else (trim_option o) old ≢ ""
title_kept none old h e = e
title_kept (some t) old h e = λ q. ground (arith, eq_iff (trim_space t) "")

priority_kept :
    (o : Option String) (old : String)
    → bad_priority o ≡ false
    → priority_valid old ≡ true
    → priority_valid (Service.or_else o old) ≡ true
priority_kept none old h e = e
priority_kept (some p) old h e = ground arith

-- Such an edit keeps a task sound.
pub apply_update-IsSound :
    (i j : UpdateTaskInput) (t : Task)
    → validate_update i ≡ ok j
    → IsSound t
    → ((Service.apply_update j t).title ≢ "")
      × (priority_valid (Service.apply_update j t).priority ≡ true)
unfolding Service.apply_update
apply_update-IsSound i j t h sound =
    let (titled, ranked, same_title, same_priority) = validate_update_fields i j h in
    (
      rw same_title (title_kept i.title t.title titled sound.titled),
      rw same_priority (priority_kept i.priority t.priority ranked sound.ranked),
    )

pub not-false : (b : Bool) → not b ≡ false → b ≡ true
not-false b h = ground arith

-- The row that was found by its id is found by its own id.
pub same_key :
    (id : String) (ts : List Task) {t : Task}
    → find_task id ts ≡ some t
    → find_task t.id ts ≡ some t
same_key id ts {t} e = subst (λ k. find_task k ts ≡ some t) (sym (find_key task_key id ts e)) e
