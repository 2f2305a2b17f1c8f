-- ===== src/Task/Tests.antt =====
-- A small task service with two tasks, and runs of the theorems on it.
use docflow_web.Base.{
  ℕ, String, ◌≡◌, ◌≢◌, refl, true, false, Option, none, some, List, [], ◌∷◌, arith, zero, suc, take,
  All, ◌*◌, ne_of_eq_false, ◌↔◌, map,
}
use docflow_web.Base.Exec.{program, ok, err, external, wrapped}
use docflow_web.Base.Postgres.{Postgres, statement}
use docflow_web.Base.Paging.{pos}
use docflow_web.Base.Table.{select, find, update_where}
use docflow_web.Task.Domain.{
  Task, invalid_transition, AdvancedFilter, can_transition, status_valid, priority_valid,
}
use docflow_web.Task.Repository.{TaskDb, TaskWorld, find_task, is_late}
use docflow_web.Task.Repository
use docflow_web.Task.Service
use docflow_web.Task.Service.{TaskEnv}
use docflow_web.Task.Lifecycle.{Edge, start, IsSound, TaskSteps}
use docflow_web.Task.Refinement.{Request, respond, serve, serve-TaskSteps}
use docflow_web.Task.Invariants.{IsWellFormed, serve-IsWellFormed}
use docflow_web.Task.Frozen.{serve-frozen}
use docflow_web.Task.Kept.{Survives, serve-Survives}
use docflow_web.Task.Refusals.{refusal, respond-refused}
use docflow_web.Task.Audit.{StatusChange, change_task_status-ok}
use docflow_web.Task.Progress.{
  change_task_status-returns, change_task_status_unlogged, moved_tables,
}
use docflow_web.Task.Overdue.{mark_tasks_overdue-ok}
use docflow_web.Task.Listing.{
  where_clause, Matches, where_clause-Matches, fetch_pages, of_document, fetch_pages-take,
}

abbrev names : ℕ → String
names _ = "n"

abbrev fine : ℕ → Option String
fine _ = none

abbrev third_lost : ℕ → Option String
third_lost (suc (suc zero)) = some "connection reset"
third_lost _ = none

abbrev server : (ℕ → Option String) → Postgres
server fault = record { fault = fault; now = λ n. 100; new_id = names }

abbrev env_of : (ℕ → Option String) → TaskEnv
env_of fault = record {
  pg = server fault;
  has_notification = true;
  has_calendar = false;
  newest_first = λ n ts. ts;
  latest_first = λ hs. hs;
  map_order = λ ks. ks;
  quote = λ s. s;
}

abbrev env : TaskEnv
env = env_of fine

abbrev fresh : Task
fresh = record {
  id = "a";
  title = "Read";
  description = "";
  document_id = "d";
  assignee_id = some "bo";
  creator_id = "al";
  status = "open";
  priority = "low";
  deadline = some 7;
  created_at = 1;
  updated_at = 1;
}

abbrev finished : Task
finished = record fresh { id = "b"; status = "done" }

abbrev begun : Task
begun = record fresh { id = "c"; status = "in_progress" }

abbrev world : TaskWorld
world = record {
  calls = 0;
  db = record { tasks = fresh ∷ finished ∷ begun ∷ []; history = [] };
  out = record { notifications = []; events = [] };
}

abbrev requests : List Request
requests =
    Request.change_status "a" "in_progress" "al"
    ∷ Request.delete "b" "al"
    ∷ Request.mark_overdue
    ∷ []

IsSound-by :
    (t : Task)
    → status_valid t.status ≡ true
    → priority_valid t.priority ≡ true
    → t.title ≢ ""
    → IsSound t
IsSound-by t k r n = record { known = k; titled = n; ranked = r }

is_named : fresh.title ≢ ""
is_named = ne_of_eq_false "Read" "" refl

well_formed : IsWellFormed world.db.tasks
unfolding find_task find status_valid priority_valid
well_formed = record {
  unique = (refl, (refl, (refl, tt)));
  sound = (
    IsSound-by fresh refl refl is_named,
    (IsSound-by finished refl refl is_named, (IsSound-by begun refl refl is_named, tt)),
  );
}

serve-TaskSteps_example : TaskSteps world.db.tasks (serve env world requests).db.tasks
serve-TaskSteps_example = serve-TaskSteps env world requests

serve-IsWellFormed_example : IsWellFormed (serve env world requests).db.tasks
serve-IsWellFormed_example = serve-IsWellFormed env world requests well_formed

abbrev FoundAt : String → Task → Type 0
FoundAt id t = find_task id world.db.tasks ≡ some t

finds_fresh : FoundAt "a" fresh
unfolding find_task find
finds_fresh = refl

finds_finished : FoundAt "b" finished
unfolding find_task find
finds_finished = refl

finds_begun : FoundAt "c" begun
unfolding find_task find
finds_begun = refl

serve-frozen_example : find_task "b" (serve env world requests).db.tasks ≡ some finished
serve-frozen_example = serve-frozen env world requests "b" well_formed finds_finished refl

serve-Survives_example : Survives "c" begun (serve env world requests).db.tasks
serve-Survives_example =
    serve-Survives env world requests "c" begun well_formed finds_begun
      (ne_of_eq_false "in_progress" "open" refl)

-- A finished task may not be started again.
refused : refusal env (Request.change_status "b" "in_progress" "al") world ≡ some invalid_transition
unfolding Service.change_task_status Repository.get_by_id status_valid can_transition statement
    program find_task find
refused = refl

respond-refused_example :
    (respond env (Request.change_status "b" "in_progress" "al") world).db ≡ world.db
respond-refused_example =
    respond-refused env (Request.change_status "b" "in_progress" "al") world invalid_transition
      refused

edge : Edge fresh.status "in_progress"
edge = start refl refl

change_task_status-returns_example :
    (Service.change_task_status env "a" "in_progress" "al" world).0
    ≡ ok (record fresh { status = "in_progress" })
change_task_status-returns_example =
    change_task_status-returns env "a" "in_progress" "al" world (ne_of_eq_false "a" "" refl)
      (ne_of_eq_false "al" "" refl) finds_fresh edge refl refl refl

change_task_status-ok_example :
    StatusChange env world
      (Service.change_task_status env "a" "in_progress" "al" world).1
      "a"
      "in_progress"
      "al"
      (record fresh { status = "in_progress" })
change_task_status-ok_example =
    change_task_status-ok env "a" "in_progress" "al" world change_task_status-returns_example

change_task_status_unlogged_example :
    Service.change_task_status (env_of third_lost) "a" "in_progress" "al" world ≡ (
      err (
          wrapped "record history"
            (wrapped "create task history entry" (external "connection reset"))),
      record world { calls = 3; db = moved_tables (env_of third_lost) "a" "in_progress" world },
    )
change_task_status_unlogged_example =
    change_task_status_unlogged (env_of third_lost) "a" "in_progress" "al" world
      (ne_of_eq_false "a" "" refl) (ne_of_eq_false "al" "" refl) finds_fresh edge refl refl refl

marks : (Service.mark_tasks_overdue env world).0 ≡ ok ("a" ∷ "c" ∷ [])
unfolding Service.mark_tasks_overdue Repository.find_overdue Repository.mark_overdue_by_ids
    Service.report_all Repository.create_entry statement program find_task find update_where select
marks = refl

mark_tasks_overdue-ok_example :
    ("a" ∷ "c" ∷ [] ≡ map (λ (t : Task). t.id) (select (is_late 100) world.db.tasks))
    × All (λ t. is_late 100 t ≡ false) (Service.mark_tasks_overdue env world).1.db.tasks
mark_tasks_overdue-ok_example = mark_tasks_overdue-ok env world marks

abbrev late_filter : AdvancedFilter
late_filter = record {
  status = "";
  priority = "low";
  assignee_id = "bo";
  document_id = "";
  deadline_from = none;
  deadline_to = some 50;
  page = pos 1;
  page_size = pos 20;
}

where_clause-Matches_example : (where_clause late_filter fresh ≡ true) ↔ Matches late_filter fresh
where_clause-Matches_example = where_clause-Matches late_filter fresh

fetch_pages-take_example :
    (fetch_pages env "d" 2 2 world).0 ≡ ok (take (2 * 2) (of_document env "d" 0 world.db.tasks))
fetch_pages-take_example =
    fetch_pages-take env "d" (λ n. refl) refl (λ n k. refl) 2 2 world (omega arith) (omega arith)
