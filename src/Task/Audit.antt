-- ===== src/Task/Audit.antt =====
-- Every change of status and every assignment that the service reports as done is in the table and
-- in the history, with the actor, the value before and the value after.
use docflow_web.Base.{ℕ, String, ◌≡◌, ◌≢◌, sym, ap, ◌∙◌, Option, some, ◌∷◌, ne_of_eq_false}
use mathlib.Core.Path.{subst₂}
use docflow_web.Base.Exec.{ok, ok_of_wrap, wrap_state, returned, passed, ◌>>=◌, pure, wrap}
use docflow_web.Base.Table.{update_where, is_key}
use docflow_web.Task.Domain.{Task, HistoryEntry, status_done}
use docflow_web.Task.Repository
use docflow_web.Task.Repository.{
  TaskDb, TaskWorld, App, task_key, find_task, with_status, with_assignee,
}
use docflow_web.Task.Service
use docflow_web.Task.Service.{TaskEnv, entry, or_empty}
use docflow_web.Task.Lifecycle.{Edge, Edge_of_can_transition}
use docflow_web.Task.Validation.{not-false}
use docflow_web.Task.Outcomes.{
  get_by_id-ok, update_status-ok, set_assignee-ok, create_entry-ok, notify_assignee-db,
}

-- One row was changed by `f`, and one entry was added to the history.
pub record Logged (before after : TaskDb) (id : String) (f : Task → Task) (e : HistoryEntry)
    : Type 0 where
  pub entry_id : String
  pub at : ℕ
  pub tasks : after.tasks ≡ update_where (is_key task_key id) f before.tasks
  pub history : after.history ≡ record e { id = entry_id; changed_at = at } ∷ before.history

module _ (env : TaskEnv) where
  open env use {pg}

  -- What `AssignTask` and `ChangeTaskStatus` do behind the write.
  abbrev logging : HistoryEntry → App (Unit {0})
  logging e = Service.record_history env e >>= λ _. pure tt

  abbrev telling : Task → Task → Option String → String → String → String → App Task
  telling t answer to category title body =
      Service.notify_assignee env t to category title body >>= λ _. pure answer

  logging-ok :
      (e : HistoryEntry) (w : TaskWorld)
      → (logging e w).0 ≡ ok tt
      → (logging e w).1.db ≡ record (w.db) {
        history = record e { id = pg.new_id w.calls; changed_at = pg.now w.calls } ∷ w.db.history;
      }
  unfolding pure
  logging-ok e w h =
      let r = returned (λ _. pure tt) (Service.record_history env e) w h in
      let (made, stored) = create_entry-ok pg e w (ok_of_wrap _ _ w r.first) in
      ap (λ (v : TaskWorld). v.db) r.state
      ∙ ap (λ (v : TaskWorld). v.db) (wrap_state _ _ w)
      ∙ stored
      ∙ ap (λ a. record (w.db) { history = a ∷ w.db.history }) made

  telling-ok :
      (t answer : Task) (to : Option String) (category title body : String) (w : TaskWorld)
      {b : Task}
      → (telling t answer to category title body w).0 ≡ ok b
      → (b ≡ answer) × ((telling t answer to category title body w).1.db ≡ w.db)
  unfolding pure
  telling-ok t answer to category title body w h =
      let r =
        returned (λ _. pure answer) (Service.notify_assignee env t to category title body) w h in
      (
        cc r.second,
        ap (λ (v : TaskWorld). v.db) r.state ∙ notify_assignee-db env t to category title body w,
      )

  -- The write, the entry and the notification, one after the other.
  reported :
      (write : App (Unit {0})) (f : Task → Task) (id : String) (e : HistoryEntry) (t answer : Task)
      (to : Option String) (category title body : String) (v : TaskWorld) {b : Task}
      → ((write v).0 ≡ ok tt
          → (write v).1.db
            ≡ record (v.db) { tasks = update_where (is_key task_key id) f v.db.tasks })
      → ((write >>= λ _. logging e >>= λ _. telling t answer to category title body) v).0 ≡ ok b
      → (b ≡ answer)
        × Logged v.db
            ((write >>= λ _. logging e >>= λ _. telling t answer to category title body) v).1.db
            id
            f
            e
  reported write f id e t answer to category title body v written h =
      let r =
        returned (λ _. logging e >>= λ _. telling t answer to category title body) write v h in
      let s =
        returned (λ _. telling t answer to category title body) (logging e) (write v).1 r.second in
      let (same, told) =
        telling-ok t answer to category title body (logging e (write v).1).1 s.second in
      let wrote = written r.first in
      let new = record e {
        id = pg.new_id (write v).1.calls;
        changed_at = pg.now (write v).1.calls;
      } in
      let all =
        ap (λ (u : TaskWorld). u.db) r.state
        ∙ ap (λ (u : TaskWorld). u.db) s.state
        ∙ told
        ∙ logging-ok e (write v).1 s.first in
      (
        same,
        record {
          entry_id = pg.new_id (write v).1.calls;
          at = pg.now (write v).1.calls;
          tasks = ap (λ (d : TaskDb). d.tasks) all ∙ ap (λ (d : TaskDb). d.tasks) wrote;
          history = ap (λ (d : TaskDb). d.history) all ∙ ap (λ (d : TaskDb). new ∷ d.history) wrote;
        },
      )

  -- `Logged` between tables that are equal to others.
  Logged-from :
      {a a' b b' : TaskDb} {id : String} {f : Task → Task} {e : HistoryEntry}
      → a ≡ a'
      → b ≡ b'
      → Logged a b id f e
      → Logged a' b' id f e
  Logged-from {id} {f} {e} p q l = subst₂ (λ x y. Logged x y id f e) p q l

  pub record StatusChange (w v : TaskWorld) (id to actor : String) (t : Task) : Type 0 where
    pub row : Task
    pub found : find_task id w.db.tasks ≡ some row
    pub allowed : Edge row.status to
    pub answer : t ≡ record row { status = to }
    pub at : ℕ
    pub logged : Logged w.db v.db id (with_status to at) (entry id actor "status" row.status to)

  -- If `ChangeTaskStatus` answers with a task, the row was found and the diagram allows the move;
  -- the row now has the new status, the answer is that row but for `updated_at`, and the history
  -- has gained one entry with the actor, the old status and the new one.
  pub change_task_status-ok :
      (id to actor : String) (w : TaskWorld) {t : Task}
      → (Service.change_task_status env id to actor w).0 ≡ ok t
      → StatusChange w (Service.change_task_status env id to actor w).1 id to actor t
  unfolding Service.change_task_status
  change_task_status-ok id to actor w h =
      let (_, h1, s1) = passed _ _ _ w h in
      let (_, h2, s2) = passed _ _ _ w h1 in
      let got = returned _ (Repository.get_by_id pg id) w h2 in
      let (found, same) = get_by_id-ok pg id w got.first in
      let (allowed, h3, s3) = passed _ _ _ _ got.second in
      let start = (Repository.get_by_id pg id w).1 in
      let (answer, logged) =
        reported (wrap "change task status" (Repository.update_status pg id to))
          (with_status to (pg.now start.calls)) id _ (record (got.value) { status = to }) _
          got.value.assignee_id _ _ _ start
          (λ done.
            ap (λ (u : TaskWorld). u.db) (wrap_state _ _ start)
            ∙ update_status-ok pg id to start (ok_of_wrap _ _ start done))
          h3 in
      record {
        row = got.value;
        found = found;
        allowed = Edge_of_can_transition _ to (not-false _ allowed);
        answer = answer;
        at = pg.now start.calls;
        logged =
            Logged-from same (sym (ap (λ (u : TaskWorld). u.db) (s1 ∙ s2 ∙ got.state ∙ s3))) logged;
      }

  pub record Assignment (w v : TaskWorld) (id who actor : String) (t : Task) : Type 0 where
    pub row : Task
    pub found : find_task id w.db.tasks ≡ some row
    pub alive : row.status ≢ status_done
    pub answer : t ≡ record row { assignee_id = some who }
    pub at : ℕ
    pub logged :
        Logged w.db v.db id
          (with_assignee who at)
          (entry id actor "assignee_id" (or_empty row.assignee_id) who)

  -- If `AssignTask` answers with a task, the row was found and was not done; the row now has the
  -- new assignee, the answer is that row but for `updated_at`, and the history has gained one entry
  -- with the actor, the old assignee (or the empty text) and the new one.
  pub assign_task-ok :
      (id who actor : String) (w : TaskWorld) {t : Task}
      → (Service.assign_task env id who actor w).0 ≡ ok t
      → Assignment w (Service.assign_task env id who actor w).1 id who actor t
  unfolding Service.assign_task
  assign_task-ok id who actor w h =
      let (_, h1, s1) = passed _ _ _ w h in
      let got = returned _ (Repository.get_by_id pg id) w h1 in
      let (found, same) = get_by_id-ok pg id w got.first in
      let (alive, h3, s3) = passed _ _ _ _ got.second in
      let start = (Repository.get_by_id pg id w).1 in
      let (answer, logged) =
        reported (wrap "assign task" (Repository.set_assignee pg id who))
          (with_assignee who (pg.now start.calls)) id _
          (record (got.value) { assignee_id = some who }) _ (some who) _ _ _ start
          (λ done.
            ap (λ (u : TaskWorld). u.db) (wrap_state _ _ start)
            ∙ set_assignee-ok pg id who start (ok_of_wrap _ _ start done))
          h3 in
      record {
        row = got.value;
        found = found;
        alive = ne_of_eq_false _ _ alive;
        answer = answer;
        at = pg.now start.calls;
        logged = Logged-from same (sym (ap (λ (u : TaskWorld). u.db) (s1 ∙ got.state ∙ s3))) logged;
      }
