-- ===== src/Task/Refusals.antt =====
-- A request of the task service that is refused with an error of the domain has changed no table.
use docflow_web.Base.{ℕ, String, ◌≡◌, refl, Bool, Option, none, some, List, [], ◌∷◌}
use docflow_web.Base.Exec.{◌>>=◌, pure, cause_of}
use docflow_web.Base.Paging.{Window}
use docflow_web.Base.Refusals.{
  Plain, Clean, Quiet, Clean-of_Quiet, Clean-of_Plain, Plain-pure, Plain-wrap, Clean-wrap,
  Clean-label, Quiet-pure, Quiet-wrap, Quiet-label, Plain-if, Plain-ignore, Plain-bind, Clean-bind,
  Clean-write, Quiet-bind, Clean-fail_if,
}
use docflow_web.Base.Statements.{Quiet-statement, Plain-statement, Clean-statement}
use docflow_web.Task.Domain.{TaskError, Task, HistoryEntry, CreateTaskInput, UpdateTaskInput}
use docflow_web.Task.Repository
use docflow_web.Task.Repository.{
  TaskDb, TaskWorld, App, find_task, affect, insert_row, insert_entry,
}
use docflow_web.Task.Service
use docflow_web.Task.Service.{TaskEnv}
use docflow_web.Task.Refinement.{
  Request, create, get, update, delete, by_document, by_assignee, assign, change_status, history,
  search_tasks, mark_overdue, get_stats, respond,
}

affect-same :
    {A : Type 0} (o : Option Task) (a : A) (d d' : TaskDb) (s : TaskError)
    → cause_of (affect o a d d').0 ≡ some s
    → (affect o a d d').1 ≡ d
affect-same none a d d' s e = refl
affect-same (some _) a d d' s e = cc

insert_row-plain :
    (row : Task) (o : Option Task) (d : TaskDb) → cause_of (insert_row row o d).0 ≡ none
insert_row-plain row none d = refl
insert_row-plain row (some _) d = refl

insert_entry-plain :
    (e : HistoryEntry) (o : Option Task) (d : TaskDb) → cause_of (insert_entry e o d).0 ≡ none
insert_entry-plain e none d = refl
insert_entry-plain e (some _) d = refl

module _ (env : TaskEnv) where
  open env use {pg}

  -- The error of the domain that a request is refused with.
  abbrev pub refusal : Request → TaskWorld → Option TaskError
  refusal (create i) w = cause_of (Service.create_task env i w).0
  refusal (get id) w = cause_of (Service.get_task env id w).0
  refusal (update i) w = cause_of (Service.update_task env i w).0
  refusal (delete id actor) w = cause_of (Service.delete_task env id actor w).0
  refusal (by_document id f) w = cause_of (Service.list_tasks_by_document env id f w).0
  refusal (by_assignee id f) w = cause_of (Service.list_tasks_by_assignee env id f w).0
  refusal (assign id who actor) w = cause_of (Service.assign_task env id who actor w).0
  refusal (change_status id to actor) w = cause_of (Service.change_task_status env id to actor w).0
  refusal (history id) w = cause_of (Service.get_task_history env id w).0
  refusal (search_tasks f) w = cause_of (Service.filter_tasks env f w).0
  refusal mark_overdue w = cause_of (Service.mark_tasks_overdue env w).0
  refusal get_stats w = cause_of (Service.get_task_stats env w).0

  Quiet-get : (id : String) (w : TaskWorld) → Quiet (Repository.get_by_id pg id) w
  unfolding Repository.get_by_id
  Quiet-get id w = Quiet-label _ _ w (Quiet-statement pg _ w refl)

  Plain-history : (e : HistoryEntry) (w : TaskWorld) → Plain (Service.record_history env e) w
  unfolding Repository.create_entry
  Plain-history e w =
      Plain-wrap _ _ w (Plain-wrap _ _ w (Plain-statement pg _ w (insert_entry-plain _ _ w.db)))

  Plain-notify :
      (t : Task) (to : Option String) (category title body : String) (w : TaskWorld)
      → Plain (Service.notify_assignee env t to category title body) w
  Plain-notify t none category title body w = Plain-pure tt w
  Plain-notify t (some who) category title body w =
      Plain-if env.has_notification _ _ w (record { at = refl }) (Plain-pure tt w)

  Plain-calendar :
      (t : Task) (event_type : String) (w : TaskWorld)
      → Plain (Service.create_calendar_event env t event_type) w
  unfolding Service.create_calendar_event
  Plain-calendar t event_type w = go t.deadline
    where
      go : (at : Option ℕ) → Plain (Service.events_at env t event_type at) w
      go none = Plain-pure tt w
      go (some at) = Plain-if env.has_calendar _ _ w (record { at = refl }) (Plain-pure tt w)

  Plain-when_some :
      {A : Type 0} (o : Option A) (m : App (Unit {0})) (w : TaskWorld)
      → Plain m w
      → Plain (Service.when_some env o m) w
  Plain-when_some none m w h = Plain-pure tt w
  Plain-when_some (some _) m w h = h

  -- What follows the write of a task: history, calendar, answer.
  Plain-tail :
      {A : Type 0} (e : HistoryEntry) (o : Option A) (t : Task) (answer : Task) (w : TaskWorld)
      → Plain
          (Service.record_history env e >>= (λ _. pure tt) >>= λ (_ : Unit {0}).
            Service.when_some env o (Service.create_calendar_event env t "task") >>= λ _.
            pure answer)
          w
  Plain-tail e o t answer w =
      Plain-bind _ _ w (Plain-bind _ _ w (Plain-history e w) (λ _ _. Plain-pure tt _)) λ _ _.
        Plain-bind _ _ _ (Plain-when_some o _ _ (Plain-calendar t "task" _))
          λ _ _. Plain-pure answer _

  Plain-report :
      (e : HistoryEntry) (t answer : Task) (to : Option String) (category title body : String)
      (w : TaskWorld)
      → Plain
          (Service.record_history env e >>= (λ _. pure tt) >>= λ (_ : Unit {0}).
            Service.notify_assignee env t to category title body >>= λ _. pure answer)
          w
  Plain-report e t answer to category title body w =
      Plain-bind _ _ w (Plain-bind _ _ w (Plain-history e w) (λ _ _. Plain-pure tt _))
        λ _ _. Plain-bind _ _ _ (Plain-notify t to category title body _) λ _ _. Plain-pure answer _

  Clean-create_task : (i : CreateTaskInput) (w : TaskWorld) → Clean (Service.create_task env i) w
  unfolding Service.create_task Repository.create
  Clean-create_task i w =
      Clean-bind _ _ w (record { at = refl })
        λ j valid.
          Clean-write _ _ w
            (Clean-of_Plain _ w (
              Plain-wrap _ _ w
                (Plain-wrap _ _ w (Plain-statement pg _ w (insert_row-plain _ _ w.db)))))
            λ t _. Plain-tail _ t.deadline t t _

  Clean-update_task : (i : UpdateTaskInput) (w : TaskWorld) → Clean (Service.update_task env i) w
  unfolding Service.update_task Repository.update
  Clean-update_task i w =
      Clean-bind _ _ w (record { at = refl })
        λ j valid. Clean-bind _ _ w (Quiet-get j.id w) λ t found. Clean-fail_if _ _ _ _ λ alive.
          Clean-write _ _ _
            (Clean-wrap _ _ _ (Clean-label _ _ _ (Clean-statement pg _ _ (affect-same _ _ _ _))))
            λ saved _. Plain-tail _ j.deadline saved saved _

  Clean-delete_task :
      (id actor : String) (w : TaskWorld) → Clean (Service.delete_task env id actor) w
  unfolding Service.delete_task Repository.delete
  Clean-delete_task id actor w = Clean-fail_if _ _ _ w λ _.
      Clean-bind _ _ w (Quiet-get id w) λ t found.
        Clean-fail_if _ _ _ _
          λ is_open. Clean-label _ _ _ (Clean-statement pg _ _ (affect-same _ _ _ _))

  Clean-assign_task :
      (id who actor : String) (w : TaskWorld) → Clean (Service.assign_task env id who actor) w
  unfolding Service.assign_task Repository.set_assignee
  Clean-assign_task id who actor w = Clean-fail_if _ _ _ w λ _.
      Clean-bind _ _ w (Quiet-get id w) λ t found. Clean-fail_if _ _ _ _ λ alive.
        Clean-write _ _ _
          (Clean-wrap _ _ _ (Clean-label _ _ _ (Clean-statement pg _ _ (affect-same _ _ _ _))))
          λ _ _. Plain-report _ (record t { assignee_id = some who }) _ (some who) _ _ _ _

  Clean-change_task_status :
      (id to actor : String) (w : TaskWorld) → Clean (Service.change_task_status env id to actor) w
  unfolding Service.change_task_status Repository.update_status
  Clean-change_task_status id to actor w = Clean-fail_if _ _ _ w λ _. Clean-fail_if _ _ _ w λ _.
      Clean-bind _ _ w (Quiet-get id w) λ t found. Clean-fail_if _ _ _ _ λ allowed.
        Clean-write _ _ _
          (Clean-wrap _ _ _ (Clean-label _ _ _ (Clean-statement pg _ _ (affect-same _ _ _ _))))
          λ _ _. Plain-report _ (record t { status = to }) _ t.assignee_id _ _ _ _

  Quiet-list :
      (count_msg list_msg : String) (p : Task → Bool) (f : Window) (w : TaskWorld)
      → Quiet (Repository.list_where pg count_msg list_msg env.newest_first p f) w
  Quiet-list count_msg list_msg p f w =
      Quiet-bind _ _ w (Quiet-wrap _ _ w (Quiet-statement pg _ w refl)) λ total.
        Quiet-bind _ _ _ (Quiet-wrap _ _ _ (Quiet-statement pg _ _ refl)) λ rows. Quiet-pure _ _

  Plain-report_all : (ts : List Task) (w : TaskWorld) → Plain (Service.report_all env ts) w
  unfolding Service.report_all
  Plain-report_all [] w = Plain-pure tt w
  Plain-report_all (t ∷ ts) w =
      Plain-bind _ _ w
        (Plain-bind _ _ w (record { at = Plain-ignore _ w })
          λ _ _. Plain-notify t t.assignee_id _ _ _ _)
        λ _ _. Plain-report_all ts _

  Plain-mark_found : (ts : List Task) (w : TaskWorld) → Plain (Service.mark_found env ts) w
  unfolding Repository.mark_overdue_by_ids
  Plain-mark_found [] w = Plain-pure [] w
  Plain-mark_found (t ∷ ts) w =
      Plain-bind _ _ w (Plain-wrap _ _ w (Plain-wrap _ _ w (Plain-statement pg _ w refl)))
        λ _ _. Plain-bind _ _ _ (Plain-report_all (t ∷ ts) _) λ _ _. Plain-pure _ _

  Clean-mark_tasks_overdue : (w : TaskWorld) → Clean (Service.mark_tasks_overdue env) w
  unfolding Service.mark_tasks_overdue Repository.find_overdue
  Clean-mark_tasks_overdue w =
      Clean-bind _ _ w (Quiet-wrap _ _ w (Quiet-label _ _ w (Quiet-statement pg _ w refl)))
        λ ts _. Clean-of_Plain _ _ (Plain-mark_found ts _)

  -- A request that is refused with an error of the domain (not found, invalid input, invalid
  -- transition, forbidden), at whatever point, leaves the tables as they were.
  pub respond-refused :
      (r : Request) (w : TaskWorld) (s : TaskError)
      → refusal r w ≡ some s
      → (respond env r w).db ≡ w.db
  unfolding Service.get_task Service.list_tasks_by_document Service.list_tasks_by_assignee
      Service.get_task_history Service.filter_tasks Service.get_task_stats
      Repository.list_by_document Repository.list_by_assignee Repository.list_history
      Repository.filter Repository.stats
  respond-refused (create i) w s e = (Clean-create_task i w).at s e
  respond-refused (get id) w s e =
      (Clean-fail_if _ _ _ w (λ _. Clean-of_Quiet _ w (Quiet-get id w))).at s e
  respond-refused (update i) w s e = (Clean-update_task i w).at s e
  respond-refused (delete id actor) w s e = (Clean-delete_task id actor w).at s e
  respond-refused (by_document id f) w s e =
      (Clean-fail_if _ _ _ w (λ _. Clean-of_Quiet _ w (Quiet-list _ _ _ _ w))).at s e
  respond-refused (by_assignee id f) w s e =
      (Clean-fail_if _ _ _ w (λ _. Clean-of_Quiet _ w (Quiet-list _ _ _ _ w))).at s e
  respond-refused (assign id who actor) w s e = (Clean-assign_task id who actor w).at s e
  respond-refused (change_status id to actor) w s e =
      (Clean-change_task_status id to actor w).at s e
  respond-refused (history id) w s e =
      (Clean-fail_if _ _ _ w
          (λ _. Clean-of_Quiet _ w (Quiet-wrap _ _ w (Quiet-statement pg _ w refl)))).at
        s e
  respond-refused (search_tasks f) w s e = (Quiet-list _ _ _ _ w).at
  respond-refused mark_overdue w s e = (Clean-mark_tasks_overdue w).at s e
  respond-refused get_stats w s e = (Quiet-label _ _ w (Quiet-statement pg _ w refl)).at
