-- ===== src/Task/Service.antt =====
-- services/task-service/internal/service/task_service.go.
use Prim.Native.String
use docflow_web.Base.{
  ℕ, String, Bool, ◌||◌, not, Option, none, some, List, [], ◌∷◌, ◌++◌, ◌==◌, if◌then◌else◌, map,
}
use docflow_web.Base.Exec.{Result, ok, pure, wrap, ignore, fail_if, ◌>>=◌, ◌>>◌}
use docflow_web.Base.Postgres.{Postgres}
use docflow_web.Base.Paging.{normalize}
use docflow_web.Task.Domain.{
  TaskError, invalid_input, invalid_transition, forbidden, Task, HistoryEntry, CreateTaskInput,
  validate_create, UpdateTaskInput, validate_update, ListFilter, AdvancedFilter, TaskStats,
  status_open, status_done, status_overdue, status_valid, can_transition,
}
use docflow_web.Task.Repository
use docflow_web.Task.Repository.{TaskWorld, App, NotificationInput, EventInput}

-- What the service is built from. A client that is nil is `false`. `map_order` is the order in
-- which Go happens to range over a map's keys, `quote` is the verb %q.
pub record TaskEnv : Type 0 where
  pub pg : Postgres
  pub has_notification : Bool
  pub has_calendar : Bool
  pub newest_first : ℕ → List Task → List Task
  pub latest_first : List HistoryEntry → List HistoryEntry
  pub map_order : List String → List String
  pub quote : String → String

infixr 65 ◌<>◌
abbrev pub ◌<>◌ : String → String → String
a <> b = String.◌++◌ a b

abbrev pub entry : String → String → String → String → String → HistoryEntry
entry task_id changed_by field old new = record {
  id = "";
  task_id = task_id;
  changed_by = changed_by;
  field = field;
  old_value = old;
  new_value = new;
  changed_at = 0;
}

abbrev pub lift : {A : Type 0} → Result TaskError A → App A
lift r w = (r, w)

-- The keys of `recipients`: the creator, and the assignee unless nil, empty or the same.
abbrev pub second : String → Option String → List String
second creator none = []
second creator (some who) = if who == "" || who == creator then [] else who ∷ []

unfoldable pub recipients : Task → List String
recipients t = t.creator_id ∷ second t.creator_id t.assignee_id

abbrev pub or_empty : Option String → String
or_empty none = ""
or_empty (some s) = s

abbrev pub or_else {ℓ} : {A : Type ℓ} → Option A → A → A
or_else none a = a
or_else (some b) a = b

abbrev pub or_keep {ℓ} : {A : Type ℓ} → Option A → Option A → Option A
or_keep none old = old
or_keep (some a) old = some a

-- The fields that `UpdateTask` overwrites.
unfoldable pub apply_update : UpdateTaskInput → Task → Task
apply_update i t = record t {
  title = or_else i.title t.title;
  description = or_else i.description t.description;
  priority = or_else i.priority t.priority;
  deadline = or_keep i.deadline t.deadline;
}

abbrev pub new_task : CreateTaskInput → Task
new_task i = record {
  id = "";
  title = i.title;
  description = i.description;
  document_id = i.document_id;
  assignee_id = none;
  creator_id = i.creator_id;
  status = status_open;
  priority = i.priority;
  deadline = i.deadline;
  created_at = 0;
  updated_at = 0;
}

abbrev pub system_actor : String
system_actor = "00000000-0000-0000-0000-000000000000"

module _ (env : TaskEnv) where
  open env use {pg}

  abbrev pub record_history : HistoryEntry → App HistoryEntry
  record_history e = wrap "record history" (Repository.create_entry pg e)

  abbrev pub notify : NotificationInput → App (Unit {0})
  notify n w =
      (ok tt, record w { out = record (w.out) { notifications = n ∷ w.out.notifications } })

  abbrev pub notification : Task → String → String → String → String → NotificationInput
  notification t user category title body = record {
    user_id = user;
    task_id = t.id;
    notif_category = category;
    title = title;
    body = body;
    ref_id = t.id;
    ref_type = "task";
  }

  -- `if s.notification != nil && task.AssigneeID != nil`
  abbrev pub notify_assignee : Task → Option String → String → String → String → App (Unit {0})
  notify_assignee t none category title body = pure tt
  notify_assignee t (some who) category title body =
      if env.has_notification then notify (notification t who category title body) else pure tt

  abbrev pub event : Task → String → ℕ → String → EventInput
  event t event_type at user = record {
    user_id = user;
    title = "Deadline: " <> t.title;
    description = t.description;
    event_type = event_type;
    start_time = at;
    end_time = at;
    ref_id = t.id;
    ref_type = "task";
  }

  abbrev pub post_events : List EventInput → App (Unit {0})
  post_events es w = (ok tt, record w { out = record (w.out) { events = es ++ w.out.events } })

  -- `createCalendarEvent`
  abbrev pub events_at : Task → String → Option ℕ → App (Unit {0})
  events_at t event_type none = pure tt
  events_at t event_type (some at) =
      if env.has_calendar
      then post_events (map (event t event_type at) (env.map_order (recipients t)))
      else pure tt

  unfoldable pub create_calendar_event : Task → String → App (Unit {0})
  create_calendar_event t event_type = events_at t event_type t.deadline

  abbrev pub when_some {ℓ} : {A : Type ℓ} → Option A → App (Unit {0}) → App (Unit {0})
  when_some none m = pure tt
  when_some (some _) m = m

  unfoldable pub create_task : CreateTaskInput → App Task
  create_task raw = do
    input ← lift (validate_create raw)
    task ← wrap "create task" (Repository.create pg (new_task input))
    record_history (entry task.id input.creator_id "status" "" task.status) >>= λ _. pure tt
    when_some task.deadline (create_calendar_event task "task")
    pure task

  unfoldable pub get_task : String → App Task
  get_task id = do fail_if (id == "") invalid_input; Repository.get_by_id pg id

  unfoldable pub update_task : UpdateTaskInput → App Task
  update_task raw = do
    input ← lift (validate_update raw)
    task ← Repository.get_by_id pg input.id
    fail_if (task.status == status_done) forbidden
    saved ← wrap "update task" (Repository.update pg (apply_update input task))
    record_history (entry task.id input.actor_id "task" "" "fields updated") >>= λ _. pure tt
    when_some input.deadline (create_calendar_event saved "task")
    pure saved

  unfoldable pub delete_task : String → String → App (Unit {0})
  delete_task id actor_id = do
    fail_if (id == "" || actor_id == "") invalid_input
    task ← Repository.get_by_id pg id
    fail_if (not (task.status == status_open)) forbidden
    Repository.delete pg id

  unfoldable pub list_tasks_by_document : String → ListFilter → App (List Task × ℕ)
  list_tasks_by_document document_id f = do
    fail_if (document_id == "") invalid_input
    Repository.list_by_document pg env.newest_first document_id (normalize f.page f.page_size)

  unfoldable pub list_tasks_by_assignee : String → ListFilter → App (List Task × ℕ)
  list_tasks_by_assignee assignee_id f = do
    fail_if (assignee_id == "") invalid_input
    Repository.list_by_assignee pg env.newest_first assignee_id (normalize f.page f.page_size)

  unfoldable pub assign_task : String → String → String → App Task
  assign_task id assignee_id actor_id = do
    fail_if (id == "" || assignee_id == "" || actor_id == "") invalid_input
    task ← Repository.get_by_id pg id
    fail_if (task.status == status_done) forbidden
    wrap "assign task" (Repository.set_assignee pg id assignee_id)
    let assigned = record task { assignee_id = some assignee_id }
    record_history (entry id actor_id "assignee_id" (or_empty task.assignee_id) assignee_id)
        >>= λ _. pure tt
    notify_assignee assigned (some assignee_id) "task_assigned" "Task assigned to you"
        ("You were assigned to task " <> env.quote task.title)
    pure assigned

  unfoldable pub change_task_status : String → String → String → App Task
  change_task_status id new_status actor_id = do
    fail_if (id == "" || actor_id == "") invalid_input
    fail_if (not (status_valid new_status)) invalid_input
    task ← Repository.get_by_id pg id
    fail_if (not (can_transition task.status new_status)) invalid_transition
    wrap "change task status" (Repository.update_status pg id new_status)
    let changed = record task { status = new_status }
    record_history (entry id actor_id "status" task.status new_status) >>= λ _. pure tt
    notify_assignee changed changed.assignee_id "task_status_changed" "Task status changed" (
        "Task "
        <> env.quote task.title
        <> " status changed from "
        <> task.status
        <> " to "
        <> new_status)
    pure changed

  unfoldable pub get_task_history : String → App (List HistoryEntry)
  get_task_history task_id = do
    fail_if (task_id == "") invalid_input
    Repository.list_history pg env.latest_first task_id

  unfoldable pub filter_tasks : AdvancedFilter → App (List Task × ℕ)
  filter_tasks f = Repository.filter pg env.newest_first f (normalize f.page f.page_size)

  -- One round of the loop that follows the update in `MarkTasksOverdue`.
  abbrev pub report_overdue : Task → App (Unit {0})
  report_overdue t = do
    ignore (Repository.create_entry pg (entry t.id system_actor "status" t.status status_overdue))
    notify_assignee t t.assignee_id "task_overdue" "Task is overdue"
        ("Task " <> env.quote t.title <> " has passed its deadline")

  unfoldable pub report_all : List Task → App (Unit {0})
  report_all [] = pure tt
  report_all (t ∷ ts) = report_overdue t >> report_all ts

  abbrev pub mark_found : List Task → App (List String)
  mark_found [] = pure []
  mark_found (t ∷ ts) = do
    let ids = map (λ (u : Task). u.id) (t ∷ ts)
    wrap "mark tasks overdue" (Repository.mark_overdue_by_ids pg ids)
    report_all (t ∷ ts)
    pure ids

  unfoldable pub mark_tasks_overdue : App (List String)
  mark_tasks_overdue = do
    tasks ← wrap "find overdue tasks" (Repository.find_overdue pg)
    mark_found tasks

  unfoldable pub get_task_stats : App TaskStats
  get_task_stats = Repository.stats pg
