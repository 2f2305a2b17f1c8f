-- ===== src/Task/Outcomes.antt =====
-- What the tables hold after each repository operation that returned.
use docflow_web.Base.{String, ◌≡◌, Option, some, ◌∷◌, arith}
use docflow_web.Base.Exec.{program, ok}
use docflow_web.Base.Postgres.{Postgres, statement}
use docflow_web.Base.Table.{update_where, is_key}
use docflow_web.Task.Domain.{Task, HistoryEntry}
use docflow_web.Task.Repository
use docflow_web.Task.Repository.{
  TaskWorld, task_key, find_task, with_status, with_assignee, with_fields,
}
use docflow_web.Task.Service
use docflow_web.Task.Service.{TaskEnv}

module _ (pg : Postgres) where
  pub get_by_id-ok :
      (id : String) (w : TaskWorld) {t : Task}
      → (Repository.get_by_id pg id w).0 ≡ ok t
      → (find_task id w.db.tasks ≡ some t) × ((Repository.get_by_id pg id w).1.db ≡ w.db)
  unfolding Repository.get_by_id program statement
  get_by_id-ok id w h = (ground arith, ground arith)

  pub update_status-ok :
      (id to : String) (w : TaskWorld)
      → (Repository.update_status pg id to w).0 ≡ ok tt
      → (Repository.update_status pg id to w).1.db ≡ record (w.db) {
        tasks = update_where (is_key task_key id) (with_status to (pg.now w.calls)) w.db.tasks;
      }
  unfolding Repository.update_status program statement
  update_status-ok id to w h = ground arith

  pub set_assignee-ok :
      (id who : String) (w : TaskWorld)
      → (Repository.set_assignee pg id who w).0 ≡ ok tt
      → (Repository.set_assignee pg id who w).1.db ≡ record (w.db) {
        tasks = update_where (is_key task_key id) (with_assignee who (pg.now w.calls)) w.db.tasks;
      }
  unfolding Repository.set_assignee program statement
  set_assignee-ok id who w h = ground arith

  pub create_entry-ok :
      (e : HistoryEntry) (w : TaskWorld) {a : HistoryEntry}
      → (Repository.create_entry pg e w).0 ≡ ok a
      → (a ≡ record e { id = pg.new_id w.calls; changed_at = pg.now w.calls })
        × ((Repository.create_entry pg e w).1.db ≡ record (w.db) { history = a ∷ w.db.history })
  unfolding Repository.create_entry program statement
  create_entry-ok e w h = (ground arith, ground arith)

module _ (env : TaskEnv) where
  pub notify_assignee-db :
      (t : Task) (to : Option String) (category title body : String) (w : TaskWorld)
      → (Service.notify_assignee env t to category title body w).1.db ≡ w.db
  unfolding program
  notify_assignee-db t to category title body w = ground arith
