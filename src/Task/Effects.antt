-- ===== src/Task/Effects.antt =====
-- What each repository operation of the task service does to the table of tasks, and what the row
-- that `GetByID` returns says of the table.
use docflow_web.Base.{
  String, ◌≡◌, ◌≢◌, refl, ℕ, Option, none, some, List, [], ◌∷◌, map, elem, sym, arith, true,
}
use mathlib.Core.Path.{subst}
use docflow_web.Base.Exec.{program, ok}
use docflow_web.Base.Postgres.{Postgres, statement}
use docflow_web.Base.Table.{select, update_where}
use docflow_web.Base.Moves.{Moves, Moves-wrap, Moves-label, Moves-pure}
use docflow_web.Base.Statements.{on_db, Moves-statement, Moves-query}
use docflow_web.Task.Domain.{
  Task, HistoryEntry, status_done, status_open, status_overdue, priority_valid,
}
use docflow_web.Task.Repository
use docflow_web.Task.Repository.{
  TaskDb, Outbox, TaskWorld, App, task_key, find_task, is_late, insert_row, insert_entry,
  with_status,
}
use docflow_web.Task.Lifecycle.{
  Edge, IsNew, IsSound, TaskSteps, here, created, edited, assigned, moved, removed, expired,
  one_step, task_moves,
}

-- The program moves the table of tasks by the abstract steps.
abbrev pub Lives : {A : Type 0} → App A → TaskWorld → Type 0
Lives m w = Moves (on_db {O = Outbox} task_moves) m w

insert_entry-here :
    (e : HistoryEntry) (o : Option Task) (d : TaskDb)
    → TaskSteps d.tasks (insert_entry e o d).1.tasks
insert_entry-here e none d = here
insert_entry-here e (some _) d = here

insert_row-steps :
    (row : Task) (o : Option Task) (d : TaskDb)
    → find_task row.id d.tasks ≡ o
    → IsNew row
    → TaskSteps d.tasks (insert_row row o d).1.tasks
insert_row-steps row none d e fresh = one_step (created row e fresh)
insert_row-steps row (some _) d e fresh = here

module _ (pg : Postgres) where
  pub Lives-get_by_id : (id : String) (w : TaskWorld) → Lives (Repository.get_by_id pg id) w
  unfolding Repository.get_by_id
  Lives-get_by_id id w = Moves-label _ _ _ w (Moves-query _ pg _ w (λ n d. refl))

  -- The row is the one that the table still holds, and the tables are as before.
  pub get_by_id-found :
      (id : String) (w : TaskWorld) {t : Task}
      → (Repository.get_by_id pg id w).0 ≡ ok t
      → find_task id (Repository.get_by_id pg id w).1.db.tasks ≡ some t
  unfolding Repository.get_by_id program statement
  get_by_id-found id w h = ground arith

  pub Lives-create_entry :
      (e : HistoryEntry) (w : TaskWorld) → Lives (Repository.create_entry pg e) w
  unfolding Repository.create_entry
  Lives-create_entry e w =
      Moves-wrap _ _ _ w (Moves-statement _ pg _ w (insert_entry-here _ _ w.db))

  pub Lives-create : (t : Task) (w : TaskWorld) → IsNew t → Lives (Repository.create pg t) w
  unfolding Repository.create
  Lives-create t w fresh = Moves-wrap _ _ _ w (
      Moves-statement _ pg _ w (
        insert_row-steps _ _ w.db refl (record {
          open_status = fresh.open_status;
          titled = fresh.titled;
          ranked = fresh.ranked;
          unassigned = fresh.unassigned;
        })))

  pub Lives-update :
      (t : Task) (w : TaskWorld) {old : Task}
      → find_task t.id w.db.tasks ≡ some old
      → old.status ≢ status_done
      → (IsSound old → (t.title ≢ "") × (priority_valid t.priority ≡ true))
      → Lives (Repository.update pg t) w
  unfolding Repository.update
  Lives-update t w {old} e alive sound =
      Moves-label _ _ _ w
        (Moves-statement _ pg _ w (rw e (one_step (edited old t (pg.now w.calls) e alive sound))))

  pub Lives-set_assignee :
      (id who : String) (w : TaskWorld) {old : Task}
      → find_task id w.db.tasks ≡ some old
      → old.status ≢ status_done
      → Lives (Repository.set_assignee pg id who) w
  unfolding Repository.set_assignee
  Lives-set_assignee id who w {old} e alive =
      Moves-label _ _ _ w
        (Moves-statement _ pg _ w (rw e (one_step (assigned id who old (pg.now w.calls) e alive))))

  pub Lives-update_status :
      (id to : String) (w : TaskWorld) {old : Task}
      → find_task id w.db.tasks ≡ some old
      → Edge old.status to
      → Lives (Repository.update_status pg id to) w
  unfolding Repository.update_status
  Lives-update_status id to w {old} e edge =
      Moves-label _ _ _ w
        (Moves-statement _ pg _ w (rw e (one_step (moved id to old (pg.now w.calls) e edge))))

  pub Lives-delete :
      (id : String) (w : TaskWorld) {old : Task}
      → find_task id w.db.tasks ≡ some old
      → old.status ≡ status_open
      → Lives (Repository.delete pg id) w
  unfolding Repository.delete
  Lives-delete id w {old} e alive =
      Moves-label _ _ _ w (Moves-statement _ pg _ w (rw e (one_step (removed id old e alive))))

  -- The table after a read is the table before it.
  pub get_by_id-same : (id : String) (w : TaskWorld) → (Repository.get_by_id pg id w).1.db ≡ w.db
  unfolding Repository.get_by_id program statement
  get_by_id-same id w = ground arith

  pub Lives-find_overdue : (w : TaskWorld) → Lives (Repository.find_overdue pg) w
  unfolding Repository.find_overdue
  Lives-find_overdue w = Moves-label _ _ _ w (Moves-query _ pg _ w (λ n d. refl))

  -- The rows found are the late ones of the table that the query leaves.
  pub find_overdue-found :
      (w : TaskWorld) {ts : List Task}
      → (Repository.find_overdue pg w).0 ≡ ok ts
      → ts ≡ select (is_late (pg.now w.calls)) (Repository.find_overdue pg w).1.db.tasks
  unfolding Repository.find_overdue program statement
  find_overdue-found w h = ground arith

  pub Lives-mark_overdue :
      (ts : List Task) (now : ℕ) (w : TaskWorld)
      → ts ≡ select (is_late now) w.db.tasks
      → Lives (Repository.mark_overdue_by_ids pg (map task_key ts)) w
  unfolding Repository.mark_overdue_by_ids
  Lives-mark_overdue [] now w e = Moves-pure _ tt w
  Lives-mark_overdue (t ∷ ts) now w e = Moves-wrap _ _ _ w (
      Moves-statement _ pg _ w (
        subst
          (λ late. TaskSteps w.db.tasks (
            update_where (λ u. elem u.id (map task_key late))
              (with_status status_overdue (pg.now w.calls)) w.db.tasks))
          (sym e) (one_step (expired now (pg.now w.calls)))))

  pub find_overdue-same : (w : TaskWorld) → (Repository.find_overdue pg w).1.db.tasks ≡ w.db.tasks
  unfolding Repository.find_overdue program statement
  find_overdue-same w = ground arith
