-- ===== src/Task/Operations.antt =====
-- Each method of task_service.go moves the table of tasks along the abstract steps.
use docflow_web.Base.{
  ℕ, String, ◌≡◌, refl, Bool, Option, none, some, List, [], ◌∷◌, eq_of_not, ne_of_eq_false,
}
use docflow_web.Base.Exec.{◌>>=◌, pure, ok_of_wrap, wrap_state}
use docflow_web.Base.Table.{select}
use docflow_web.Base.Paging.{Window}
use docflow_web.Base.Moves.{
  Moves-wrap, Moves-label, Moves-pure, Moves-bind, Moves-fail_if, Moves-ignore, Moves-if,
}
use docflow_web.Base.Statements.{Moves-query}
use docflow_web.Task.Domain.{
  Task, HistoryEntry, AdvancedFilter, CreateTaskInput, UpdateTaskInput, ListFilter,
}
use docflow_web.Task.Repository
use docflow_web.Task.Repository.{TaskWorld, App, task_key, find_task, is_late}
use docflow_web.Task.Service
use docflow_web.Task.Service.{TaskEnv, new_task}
use docflow_web.Task.Lifecycle.{Edge_of_can_transition, here}
use docflow_web.Task.Effects.{
  Lives, Lives-get_by_id, get_by_id-found, Lives-create_entry, Lives-create, Lives-update,
  Lives-set_assignee, Lives-update_status, Lives-delete, Lives-find_overdue, find_overdue-found,
  Lives-mark_overdue,
}
use docflow_web.Task.Validation.{validate_create-IsNew, apply_update-IsSound, not-false, same_key}

module _ (env : TaskEnv) where
  open env use {pg}

  Lives-notify_assignee :
      (t : Task) (to : Option String) (category title body : String) (w : TaskWorld)
      → Lives (Service.notify_assignee env t to category title body) w
  unfolding pure
  Lives-notify_assignee t none category title body w = record { at = here }
  Lives-notify_assignee t (some who) category title body w =
      Moves-if _ env.has_notification _ _ w (record { at = here }) (record { at = here })

  Lives-create_calendar_event :
      (t : Task) (event_type : String) (w : TaskWorld)
      → Lives (Service.create_calendar_event env t event_type) w
  unfolding Service.create_calendar_event
  Lives-create_calendar_event t event_type w = go t.deadline
    where
      go : (at : Option ℕ) → Lives (Service.events_at env t event_type at) w
      go none = Moves-pure _ tt w
      go (some at) = Moves-if _ env.has_calendar _ _ w (record { at = here }) (Moves-pure _ tt w)

  Lives-when_some :
      {A : Type 0} (o : Option A) (m : App (Unit {0})) (w : TaskWorld)
      → Lives m w
      → Lives (Service.when_some env o m) w
  Lives-when_some none m w h = Moves-pure _ tt w
  Lives-when_some (some _) m w h = h

  -- `record history` and what follows it.
  Lives-record_history :
      {A : Type 0} (e : HistoryEntry) (k : HistoryEntry → App A) (w : TaskWorld)
      → ((a : HistoryEntry) (v : TaskWorld) → Lives (k a) v)
      → Lives (Service.record_history env e >>= k) w
  Lives-record_history e k w h =
      Moves-bind _ _ _ w (Moves-wrap _ _ _ w (Lives-create_entry pg e w)) (λ a _. h a _)

  Lives-list :
      (count_msg list_msg : String) (newest_first : ℕ → List Task → List Task) (p : Task → Bool)
      (f : Window) (w : TaskWorld)
      → Lives (Repository.list_where pg count_msg list_msg newest_first p f) w
  Lives-list count_msg list_msg newest_first p f w =
      Moves-bind _ _ _ w (Moves-wrap _ _ _ w (Moves-query _ pg _ w (λ n d. refl))) λ total _.
        Moves-bind _ _ _ _ (Moves-wrap _ _ _ _ (Moves-query _ pg _ _ (λ n d. refl)))
          λ rows _. Moves-pure _ _ _

  pub Lives-create_task :
      (i : CreateTaskInput) (w : TaskWorld) → Lives (Service.create_task env i) w
  unfolding Service.create_task
  Lives-create_task i w =
      Moves-bind _ _ _ w (record { at = here })
        λ j valid.
          Moves-bind _ _ _ w
            (Moves-wrap _ _ _ w (Lives-create pg (new_task j) w (validate_create-IsNew i j valid)))
            λ t _. Moves-bind _ _ _ _ (Lives-record_history _ _ _ (λ a v. Moves-pure _ tt v)) λ _ _.
              Moves-bind _ _ _ _
                (Lives-when_some t.deadline _ _ (Lives-create_calendar_event t "task" _))
                λ _ _. Moves-pure _ t _

  pub Lives-update_task :
      (i : UpdateTaskInput) (w : TaskWorld) → Lives (Service.update_task env i) w
  unfolding Service.update_task Service.apply_update
  Lives-update_task i w =
      Moves-bind _ _ _ w (record { at = here })
        λ j valid. Moves-bind _ _ _ w (Lives-get_by_id pg j.id w) λ t found.
          Moves-fail_if _ _ _ _ _ λ alive.
            Moves-bind _ _ _ _
              (Moves-wrap _ _ _ _ (
                Lives-update pg (Service.apply_update j t) _
                  (same_key _ _ (get_by_id-found pg j.id w found)) (ne_of_eq_false _ _ alive)
                  (apply_update-IsSound i j t valid)))
              λ saved _.
                Moves-bind _ _ _ _ (Lives-record_history _ _ _ (λ a v. Moves-pure _ tt v)) λ _ _.
                  Moves-bind _ _ _ _
                    (Lives-when_some j.deadline _ _ (Lives-create_calendar_event saved "task" _))
                    λ _ _. Moves-pure _ saved _

  pub Lives-delete_task :
      (id actor : String) (w : TaskWorld) → Lives (Service.delete_task env id actor) w
  unfolding Service.delete_task
  Lives-delete_task id actor w = Moves-fail_if _ _ _ _ w λ _.
      Moves-bind _ _ _ w (Lives-get_by_id pg id w) λ t found.
        Moves-fail_if _ _ _ _ _
          λ is_open. Lives-delete pg id _ (get_by_id-found pg id w found) (eq_of_not _ _ is_open)

  pub Lives-assign_task :
      (id who actor : String) (w : TaskWorld) → Lives (Service.assign_task env id who actor) w
  unfolding Service.assign_task
  Lives-assign_task id who actor w = Moves-fail_if _ _ _ _ w λ _.
      Moves-bind _ _ _ w (Lives-get_by_id pg id w) λ t found. Moves-fail_if _ _ _ _ _ λ alive.
        Moves-bind _ _ _ _
          (Moves-wrap _ _ _ _ (
            Lives-set_assignee pg id who _ (get_by_id-found pg id w found)
              (ne_of_eq_false _ _ alive)))
          λ _ _. Moves-bind _ _ _ _ (Lives-record_history _ _ _ (λ a v. Moves-pure _ tt v)) λ _ _.
            Moves-bind _ _ _ _
              (Lives-notify_assignee (record t { assignee_id = some who }) (some who) _ _ _ _)
              λ _ _. Moves-pure _ _ _

  pub Lives-change_task_status :
      (id to actor : String) (w : TaskWorld) → Lives (Service.change_task_status env id to actor) w
  unfolding Service.change_task_status
  Lives-change_task_status id to actor w = Moves-fail_if _ _ _ _ w λ _. Moves-fail_if _ _ _ _ w λ _.
      Moves-bind _ _ _ w (Lives-get_by_id pg id w) λ t found. Moves-fail_if _ _ _ _ _ λ allowed.
        Moves-bind _ _ _ _
          (Moves-wrap _ _ _ _ (
            Lives-update_status pg id to _ (get_by_id-found pg id w found)
              (Edge_of_can_transition t.status to (not-false _ allowed))))
          λ _ _. Moves-bind _ _ _ _ (Lives-record_history _ _ _ (λ a v. Moves-pure _ tt v)) λ _ _.
            Moves-bind _ _ _ _
              (Lives-notify_assignee (record t { status = to }) t.assignee_id _ _ _ _)
              λ _ _. Moves-pure _ _ _

  Lives-report_all : (ts : List Task) (w : TaskWorld) → Lives (Service.report_all env ts) w
  unfolding Service.report_all
  Lives-report_all [] w = Moves-pure _ tt w
  Lives-report_all (t ∷ ts) w =
      Moves-bind _ _ _ w
        (Moves-bind _ _ _ w (Moves-ignore _ _ w (Lives-create_entry pg _ w))
          λ _ _. Lives-notify_assignee t t.assignee_id _ _ _ _)
        λ _ _. Lives-report_all ts _

  Lives-mark_found :
      (ts : List Task) (now : ℕ) (w : TaskWorld)
      → ts ≡ select (is_late now) w.db.tasks
      → Lives (Service.mark_found env ts) w
  Lives-mark_found [] now w e = Moves-pure _ [] w
  Lives-mark_found (t ∷ ts) now w e =
      Moves-bind _ _ _ w (Moves-wrap _ _ _ w (Lives-mark_overdue pg (t ∷ ts) now w e))
        λ _ _. Moves-bind _ _ _ _ (Lives-report_all (t ∷ ts) _) λ _ _. Moves-pure _ _ _

  pub Lives-mark_tasks_overdue : (w : TaskWorld) → Lives (Service.mark_tasks_overdue env) w
  unfolding Service.mark_tasks_overdue
  Lives-mark_tasks_overdue w =
      Moves-bind _ _ _ w (Moves-wrap _ _ _ w (Lives-find_overdue pg w)) λ ts found.
        Lives-mark_found ts (pg.now w.calls) _
          (rw wrap_state (find_overdue-found pg w (ok_of_wrap _ _ w found)))

  pub Lives-get_task : (id : String) (w : TaskWorld) → Lives (Service.get_task env id) w
  unfolding Service.get_task
  Lives-get_task id w = Moves-fail_if _ _ _ _ w λ _. Lives-get_by_id pg id w

  pub Lives-by_document :
      (id : String) (f : ListFilter) (w : TaskWorld)
      → Lives (Service.list_tasks_by_document env id f) w
  unfolding Service.list_tasks_by_document Repository.list_by_document
  Lives-by_document id f w = Moves-fail_if _ _ _ _ w λ _. Lives-list _ _ env.newest_first _ _ w

  pub Lives-by_assignee :
      (id : String) (f : ListFilter) (w : TaskWorld)
      → Lives (Service.list_tasks_by_assignee env id f) w
  unfolding Service.list_tasks_by_assignee Repository.list_by_assignee
  Lives-by_assignee id f w = Moves-fail_if _ _ _ _ w λ _. Lives-list _ _ env.newest_first _ _ w

  pub Lives-filter_tasks :
      (f : AdvancedFilter) (w : TaskWorld) → Lives (Service.filter_tasks env f) w
  unfolding Service.filter_tasks Repository.filter
  Lives-filter_tasks f w = Lives-list _ _ env.newest_first _ _ w

  pub Lives-get_task_history :
      (id : String) (w : TaskWorld) → Lives (Service.get_task_history env id) w
  unfolding Service.get_task_history Repository.list_history
  Lives-get_task_history id w =
      Moves-fail_if _ _ _ _ w λ _. Moves-wrap _ _ _ w (Moves-query _ pg _ w (λ n d. refl))

  pub Lives-get_task_stats : (w : TaskWorld) → Lives (Service.get_task_stats env) w
  unfolding Service.get_task_stats Repository.stats
  Lives-get_task_stats w = Moves-label _ _ _ w (Moves-query _ pg _ w (λ n d. refl))
