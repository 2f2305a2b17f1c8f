-- ===== src/Task/Refinement.antt =====
-- Every operation of the service, on every schedule of failures, moves the table of tasks by the
-- steps of the abstract life of a task.
use docflow_web.Base.{String, List, [], ◌∷◌}
use docflow_web.Task.Domain.{AdvancedFilter, CreateTaskInput, UpdateTaskInput, ListFilter}
use docflow_web.Task.Repository.{TaskWorld}
use docflow_web.Task.Service
use docflow_web.Task.Service.{TaskEnv, new_task}
use docflow_web.Task.Lifecycle.{TaskSteps, here, steps_trans}
use docflow_web.Task.Operations.{
  Lives-create_task, Lives-get_task, Lives-update_task, Lives-delete_task, Lives-by_document,
  Lives-by_assignee, Lives-assign_task, Lives-change_task_status, Lives-get_task_history,
  Lives-filter_tasks, Lives-mark_tasks_overdue, Lives-get_task_stats,
}

-- The requests that the service answers, one for each method of `TaskService`.
pub data Request : Type 0 where
  create : CreateTaskInput → Request
  get : String → Request
  update : UpdateTaskInput → Request
  delete : String → String → Request
  by_document : String → ListFilter → Request
  by_assignee : String → ListFilter → Request
  assign : String → String → String → Request
  change_status : String → String → String → Request
  history : String → Request
  search_tasks : AdvancedFilter → Request
  mark_overdue : Request
  get_stats : Request

module _ (env : TaskEnv) where
  abbrev pub respond : Request → TaskWorld → TaskWorld
  respond (create i) w = (Service.create_task env i w).1
  respond (get id) w = (Service.get_task env id w).1
  respond (update i) w = (Service.update_task env i w).1
  respond (delete id actor) w = (Service.delete_task env id actor w).1
  respond (by_document id f) w = (Service.list_tasks_by_document env id f w).1
  respond (by_assignee id f) w = (Service.list_tasks_by_assignee env id f w).1
  respond (assign id who actor) w = (Service.assign_task env id who actor w).1
  respond (change_status id to actor) w = (Service.change_task_status env id to actor w).1
  respond (history id) w = (Service.get_task_history env id w).1
  respond (search_tasks f) w = (Service.filter_tasks env f w).1
  respond mark_overdue w = (Service.mark_tasks_overdue env w).1
  respond get_stats w = (Service.get_task_stats env w).1

  abbrev pub serve : TaskWorld → List Request → TaskWorld
  serve w [] = w
  serve w (r ∷ rs) = serve (respond r w) rs

  pub respond-TaskSteps :
      (r : Request) (w : TaskWorld) → TaskSteps w.db.tasks (respond r w).db.tasks
  respond-TaskSteps (create i) w = (Lives-create_task env i w).at
  respond-TaskSteps (get id) w = (Lives-get_task env id w).at
  respond-TaskSteps (update i) w = (Lives-update_task env i w).at
  respond-TaskSteps (delete id actor) w = (Lives-delete_task env id actor w).at
  respond-TaskSteps (by_document id f) w = (Lives-by_document env id f w).at
  respond-TaskSteps (by_assignee id f) w = (Lives-by_assignee env id f w).at
  respond-TaskSteps (assign id who actor) w = (Lives-assign_task env id who actor w).at
  respond-TaskSteps (change_status id to actor) w = (Lives-change_task_status env id to actor w).at
  respond-TaskSteps (history id) w = (Lives-get_task_history env id w).at
  respond-TaskSteps (search_tasks f) w = (Lives-filter_tasks env f w).at
  respond-TaskSteps mark_overdue w = (Lives-mark_tasks_overdue env w).at
  respond-TaskSteps get_stats w = (Lives-get_task_stats env w).at

  -- Any sequence of requests, each answered or refused, whatever statements fail on the way, takes
  -- the table of tasks along steps of the abstract life of a task: open tasks are created and
  -- removed, tasks that are not done are edited and assigned, statuses follow the diagram, and late
  -- tasks become overdue.
  pub serve-TaskSteps :
      (w : TaskWorld) (rs : List Request) → TaskSteps w.db.tasks (serve w rs).db.tasks
  serve-TaskSteps w [] = here
  serve-TaskSteps w (r ∷ rs) =
      steps_trans (respond-TaskSteps r w) (serve-TaskSteps (respond r w) rs)
