-- ===== src/Task/Repository.antt =====
-- services/task-service/internal/repository, over the tables of postgres/004_task_init.sql: the
-- statements of task_repository.go and history_repository.go.
use docflow_web.Base.{
  ℕ, String, Bool, false, ◌||◌, ◌&&◌, not, Option, none, some, List, [], ◌∷◌, ◌++◌, ◌==◌, elem,
  if◌then◌else◌, ltb, leb, all, length,
}
use docflow_web.Base.Exec.{Exec, Result, ok, err, sentinel, external, pure, wrap, label, ◌>>=◌}
use docflow_web.Base.Postgres.{Postgres, World, statement}
use docflow_web.Base.Table.{select, update_where, delete_where, count_where, find, is_key}
use docflow_web.Base.Paging.{Window, window}
use docflow_web.Task.Domain.{
  TaskError, task_not_found, Task, HistoryEntry, AdvancedFilter, TaskStats, status_open,
  status_in_progress, status_done, status_overdue,
}

pub record TaskDb : Type 0 where
  pub tasks : List Task
  pub history : List HistoryEntry

-- What the service asks of the notification service, and of the calendar service.
pub record NotificationInput : Type 0 where
  pub user_id : String
  pub task_id : String
  pub notif_category : String
  pub title : String
  pub body : String
  pub ref_id : String
  pub ref_type : String

pub record EventInput : Type 0 where
  pub user_id : String
  pub title : String
  pub description : String
  pub event_type : String
  pub start_time : ℕ
  pub end_time : ℕ
  pub ref_id : String
  pub ref_type : String

pub record Outbox : Type 0 where
  pub notifications : List NotificationInput
  pub events : List EventInput

abbrev pub TaskWorld : Type 0
TaskWorld = World TaskDb Outbox

abbrev pub App : Type 0 → Type 0
App A = Exec TaskError TaskWorld A

abbrev pub task_key : Task → String
task_key t = t.id

abbrev pub find_task : String → List Task → Option Task
find_task = find task_key

-- `t` with the new status, as `SET status = $1, updated_at = NOW()` leaves it.
abbrev pub with_status : String → ℕ → Task → Task
with_status s now t = record t { status = s; updated_at = now }

abbrev pub with_assignee : String → ℕ → Task → Task
with_assignee who now t = record t { assignee_id = some who; updated_at = now }

abbrev pub with_fields : Task → ℕ → Task → Task
with_fields new now t = record t {
  title = new.title;
  description = new.description;
  priority = new.priority;
  deadline = new.deadline;
  updated_at = now;
}

-- `deadline IS NOT NULL AND deadline < NOW() AND status NOT IN ('done', 'overdue')`
abbrev pub past : ℕ → Option ℕ → Bool
past now none = false
past now (some d) = ltb d now

abbrev pub is_late : ℕ → Task → Bool
is_late now t = past now t.deadline && not (t.status == status_done || t.status == status_overdue)

abbrev pub insert_row : Task → Option Task → TaskDb → Result TaskError Task × TaskDb
insert_row row none d = (ok row, record d { tasks = row ∷ d.tasks })
insert_row row (some _) d = (err (external "duplicate key"), d)

-- The foreign key of `task_history` refuses a task that is not there.
abbrev pub insert_entry :
    HistoryEntry → Option Task → TaskDb → Result TaskError HistoryEntry × TaskDb
insert_entry e none d = (err (external "foreign key violation"), d)
insert_entry e (some _) d = (ok e, record d { history = e ∷ d.history })

-- An UPDATE or DELETE of one task: the error when no row is affected.
abbrev pub affect : {A : Type 0} → Option Task → A → TaskDb → TaskDb → Result TaskError A × TaskDb
affect none a d d' = (err (sentinel task_not_found), d)
affect (some _) a d d' = (ok a, d')

abbrev pub found : Option Task → Result TaskError Task
found none = err (sentinel task_not_found)
found (some t) = ok t

-- `assignee_id = $1` is not true of NULL, and so with the bounds on `deadline`.
abbrev pub option_is : String → Option String → Bool
option_is s none = false
option_is s (some t) = t == s

abbrev pub at_least : ℕ → Option ℕ → Bool
at_least a none = false
at_least a (some d) = leb a d

abbrev pub at_most : ℕ → Option ℕ → Bool
at_most a none = false
at_most a (some d) = leb d a

abbrev pub text_condition : String → (Task → Bool) → List (Task → Bool)
text_condition s p = if s == "" then [] else p ∷ []

abbrev pub time_condition : (ℕ → Option ℕ → Bool) → Option ℕ → List (Task → Bool)
time_condition test none = []
time_condition test (some a) = (λ t. test a t.deadline) ∷ []

-- The conditions that `Filter` joins with AND; an empty field of the filter adds none.
unfoldable pub conditions : AdvancedFilter → List (Task → Bool)
conditions f =
    text_condition f.status (λ t. t.status == f.status)
    ++ (text_condition f.priority (λ t. t.priority == f.priority)
        ++ (text_condition f.assignee_id (λ t. option_is f.assignee_id t.assignee_id)
            ++ (text_condition f.document_id (λ t. t.document_id == f.document_id)
                ++ (time_condition at_least f.deadline_from
                    ++ time_condition at_most f.deadline_to))))

module _ (pg : Postgres) where
  -- `Create`; the primary key refuses an id that is taken.
  unfoldable pub create : Task → App Task
  create t = wrap "create task" (
      statement pg λ n d.
        let row = record t { id = pg.new_id n; created_at = pg.now n; updated_at = pg.now n } in
        insert_row row (find_task row.id d.tasks) d)

  unfoldable pub get_by_id : String → App Task
  get_by_id id = label "get task by id" (statement pg λ n d. (found (find_task id d.tasks), d))

  -- `Update` returns the task with the `updated_at` that the statement wrote.
  unfoldable pub update : Task → App Task
  update t = label "update task" (
      statement pg λ n d.
        affect (find_task t.id d.tasks) (record t { updated_at = pg.now n }) d
          (record d {
            tasks = update_where (is_key task_key t.id) (with_fields t (pg.now n)) d.tasks;
          }))

  -- `Delete`; the foreign key of `task_history` deletes on cascade.
  unfoldable pub delete : String → App (Unit {0})
  delete id = label "delete task" (
      statement pg λ n d. affect (find_task id d.tasks) tt d (record {
        tasks = delete_where (is_key task_key id) d.tasks;
        history = delete_where (λ h. h.task_id == id) d.history;
      }))

  unfoldable pub set_assignee : String → String → App (Unit {0})
  set_assignee id who = label "set assignee" (
      statement pg λ n d. affect (find_task id d.tasks) tt d (record d {
        tasks = update_where (is_key task_key id) (with_assignee who (pg.now n)) d.tasks;
      }))

  unfoldable pub update_status : String → String → App (Unit {0})
  update_status id status = label "update task status" (
      statement pg λ n d. affect (find_task id d.tasks) tt d (record d {
        tasks = update_where (is_key task_key id) (with_status status (pg.now n)) d.tasks;
      }))

  unfoldable pub find_overdue : App (List Task)
  find_overdue =
      label "find overdue tasks" (statement pg λ n d. (ok (select (is_late (pg.now n)) d.tasks), d))

  abbrev pub mark_all : List String → App (Unit {0})
  mark_all ids = wrap "mark tasks overdue" (
      statement pg λ n d. (
        ok tt,
        record d {
          tasks = update_where (λ t. elem t.id ids) (with_status status_overdue (pg.now n)) d.tasks;
        },
      ))

  unfoldable pub mark_overdue_by_ids : List String → App (Unit {0})
  mark_overdue_by_ids [] = pure tt
  mark_overdue_by_ids (id ∷ ids) = mark_all (id ∷ ids)

  unfoldable pub stats : App TaskStats
  stats = label "get task stats" (
      statement pg λ n d. (
        ok (record {
          total = length d.tasks;
          open_count = count_where (λ t. t.status == status_open) d.tasks;
          in_progress = count_where (λ t. t.status == status_in_progress) d.tasks;
          done = count_where (λ t. t.status == status_done) d.tasks;
          overdue = count_where (λ t. t.status == status_overdue) d.tasks;
        }),
        d,
      ))

  -- `historyRepository.Create`
  unfoldable pub create_entry : HistoryEntry → App HistoryEntry
  create_entry e = wrap "create task history entry" (
      statement pg λ n d.
        insert_entry (record e { id = pg.new_id n; changed_at = pg.now n })
          (find_task e.task_id d.tasks) d)

  -- The two statements of a list query: the count, then one page in the order asked for. The order
  -- breaks no ties, so each statement, by its number, has an order of its own.
  abbrev pub list_where :
      String → String → (ℕ → List Task → List Task) → (Task → Bool) → Window → App (List Task × ℕ)
  list_where count_msg list_msg newest_first p w = do
    total ← wrap count_msg (statement pg (λ n d. (ok (count_where p d.tasks), d)))
    rows ←
        wrap list_msg (statement pg (λ n d. (ok (window w (newest_first n (select p d.tasks))), d)))
    pure (rows, total)

  unfoldable pub list_by_document :
      (ℕ → List Task → List Task) → String → Window → App (List Task × ℕ)
  list_by_document newest_first document_id =
      list_where "count tasks by document" "list tasks by document" newest_first
        (λ t. t.document_id == document_id)

  unfoldable pub list_by_assignee :
      (ℕ → List Task → List Task) → String → Window → App (List Task × ℕ)
  list_by_assignee newest_first who =
      list_where "count tasks by assignee" "list tasks by assignee" newest_first
        (λ t. option_is who t.assignee_id)

  -- `Filter`
  unfoldable pub filter :
      (ℕ → List Task → List Task) → AdvancedFilter → Window → App (List Task × ℕ)
  unfolding conditions
  filter newest_first f =
      list_where "count filtered tasks" "filter tasks" newest_first
        (λ t. all (λ p. p t) (conditions f))

  unfoldable pub list_history :
      (List HistoryEntry → List HistoryEntry) → String → App (List HistoryEntry)
  list_history latest_first task_id =
      wrap "list task history"
        (statement pg λ n d. (ok (latest_first (select (λ h. h.task_id == task_id) d.history)), d))
