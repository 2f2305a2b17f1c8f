-- ===== src/Task/Progress.antt =====
-- Where no statement fails, the service answers: what it takes for a change of status to succeed,
-- and what a status change leaves behind when the database fails between its two writes.
use docflow_web.Base.{
  String, ◌≡◌, ◌≢◌, refl, ap, ◌∙◌, suc, Bool, true, false, not, ◌||◌, ◌==◌, Option, none, some, ◌∷◌,
  arith, eq_iff, if◌then◌else◌,
}
use docflow_web.Base.Exec.{
  program, ok, err, external, wrapped, Result, ◌>>=◌, pure, passes, bind_runs, bind_fails,
  wrap_runs, wrap_fails, pure_runs,
}
use docflow_web.Base.Postgres.{Postgres, statement}
use docflow_web.Base.Table.{update_where, is_key, find-update_where}
use docflow_web.Task.Domain.{Task, HistoryEntry, TaskError, status_valid, can_transition}
use docflow_web.Task.Repository
use docflow_web.Task.Repository.{TaskDb, TaskWorld, task_key, find_task, with_status}
use docflow_web.Task.Service
use docflow_web.Task.Service.{TaskEnv, entry, ◌<>◌}
use docflow_web.Task.Lifecycle.{Edge, can_transition_of_Edge}
use docflow_web.Task.Invariants.{Edge-status_valid}

module _ (pg : Postgres) where
  get_by_id-runs :
      (id : String) (w : TaskWorld) {t : Task}
      → pg.fault w.calls ≡ none
      → find_task id w.db.tasks ≡ some t
      → Repository.get_by_id pg id w ≡ (ok t, record w { calls = suc w.calls })
  unfolding Repository.get_by_id program statement
  get_by_id-runs id w f e = ground arith

  update_status-runs :
      (id to : String) (w : TaskWorld) {t : Task}
      → pg.fault w.calls ≡ none
      → find_task id w.db.tasks ≡ some t
      → Repository.update_status pg id to w ≡ (
        ok tt,
        record w {
          calls = suc w.calls;
          db = record (w.db) {
            tasks = update_where (is_key task_key id) (with_status to (pg.now w.calls)) w.db.tasks;
          };
        },
      )
  unfolding Repository.update_status program statement
  update_status-runs id to w f e = ground arith

  create_entry-runs :
      (e : HistoryEntry) (w : TaskWorld) {t : Task}
      → pg.fault w.calls ≡ none
      → find_task e.task_id w.db.tasks ≡ some t
      → Repository.create_entry pg e w ≡ (
        ok (record e { id = pg.new_id w.calls; changed_at = pg.now w.calls }),
        record w {
          calls = suc w.calls;
          db = record (w.db) {
            history =
                record e { id = pg.new_id w.calls; changed_at = pg.now w.calls } ∷ w.db.history;
          };
        },
      )
  unfolding Repository.create_entry program statement
  create_entry-runs e w f h = ground arith

  create_entry-fails :
      (e : HistoryEntry) (w : TaskWorld) {text : String}
      → pg.fault w.calls ≡ some text
      → Repository.create_entry pg e w ≡ (
        err (wrapped "create task history entry" (external text)),
        record w { calls = suc w.calls },
      )
  unfolding Repository.create_entry program statement
  create_entry-fails e w f = ground arith

module _ (env : TaskEnv) where
  open env use {pg}

  -- The last two steps never fail.
  telling-value :
      (t answer : Task) (to : Option String) (category title body : String) (w : TaskWorld)
      → ((Service.notify_assignee env t to category title body >>= λ _. pure answer) w).0
        ≡ ok answer
  unfolding program
  telling-value t answer none category title body w = refl
  telling-value t answer (some who) category title body w = go env.has_notification
    where
      go :
          (b : Bool)
          → (((if b
                  then Service.notify env (Service.notification env t who category title body)
                  else pure tt)
                >>= λ _. pure answer)
              w).0
            ≡ ok answer
      go true = refl
      go false = refl

  -- The tables after the UPDATE of a status change that starts at `w`.
  abbrev pub moved_tables : String → String → TaskWorld → TaskDb
  moved_tables id to w = record (w.db) {
    tasks = update_where (is_key task_key id) (with_status to (pg.now (suc w.calls))) w.db.tasks;
  }

  module _ (id to actor : String) (w : TaskWorld) {row : Task} (has_id : id ≢ "")
      (has_actor : actor ≢ "") (found : find_task id w.db.tasks ≡ some row)
      (edge : Edge row.status to) (read : pg.fault w.calls ≡ none)
      (written : pg.fault (suc w.calls) ≡ none) where
    guards :
        ((id == "" || actor == "") ≡ false)
        × (not (status_valid to) ≡ false)
        × (not (can_transition row.status to) ≡ false)
    guards = (
      ground (arith, eq_iff id "", eq_iff actor ""),
      rw (Edge-status_valid edge) refl,
      rw (can_transition_of_Edge row.status to edge) refl,
    )

    abbrev after_read : TaskWorld
    after_read = record w { calls = suc w.calls }

    abbrev after_write : TaskWorld
    after_write = record w { calls = suc (suc w.calls); db = moved_tables id to w }

    abbrev changed : Task
    changed = record row { status = to }

    abbrev audit : HistoryEntry
    audit = entry id actor "status" row.status to

    -- The row is there for the foreign key of the history.
    still_there :
        find_task id (moved_tables id to w).tasks
        ≡ some (if is_key task_key id row then with_status to (pg.now (suc w.calls)) row else row)
    still_there =
        rw
          (
            find-update_where task_key (is_key task_key id) (with_status to (pg.now (suc w.calls)))
                (λ r. refl) id w.db.tasks,
            found,
          )
          refl

    -- Up to the write of the history.
    reaches :
        Service.change_task_status env id to actor w
        ≡ ((Service.record_history env audit >>= λ _. pure tt) >>= λ (_ : Unit {0}).
              Service.notify_assignee env changed row.assignee_id "task_status_changed"
                "Task status changed"
                ("Task "
                  <> env.quote row.title
                  <> " status changed from "
                  <> row.status
                  <> " to "
                  <> to)
              >>= λ _. pure changed)
            after_write
    unfolding Service.change_task_status
    reaches =
        let (g1, g2, g3) = guards in
        passes _ _ _ w g1
        ∙ passes _ _ _ w g2
        ∙ bind_runs _ _ w after_read (get_by_id-runs pg id w read found)
        ∙ passes _ _ _ after_read g3
        ∙ bind_runs _ _ after_read after_write (
            wrap_runs _ _ after_read after_write
              (update_status-runs pg id to after_read written found))

    -- With an id, an actor, a row and an edge of the diagram, if its three statements do not fail,
    -- `ChangeTaskStatus` answers with the row in its new status.
    pub change_task_status-returns :
        pg.fault (suc (suc w.calls)) ≡ none
        → (Service.change_task_status env id to actor w).0 ≡ ok (record row { status = to })
    change_task_status-returns logged =
        let entered = record audit {
          id = pg.new_id after_write.calls;
          changed_at = pg.now after_write.calls;
        } in
        let done = record after_write {
          calls = suc after_write.calls;
          db = record (after_write.db) { history = entered ∷ w.db.history };
        } in
        ap (λ (p : Result TaskError Task × TaskWorld). p.0)
          (reaches
            ∙ bind_runs _ _ after_write done (
                bind_runs _ _ after_write done (
                  wrap_runs _ _ after_write done
                    (create_entry-runs pg audit after_write logged still_there))
                ∙ pure_runs tt done))
        ∙ telling-value changed changed row.assignee_id _ _ _ done

    -- If the two first statements succeed and the INSERT into the history fails, the caller gets
    -- an error of the database, the row keeps its new status, and the history has no entry for it.
    pub change_task_status_unlogged :
        {text : String}
        → pg.fault (suc (suc w.calls)) ≡ some text
        → Service.change_task_status env id to actor w ≡ (
          err (wrapped "record history" (wrapped "create task history entry" (external text))),
          record w { calls = suc (suc (suc w.calls)); db = moved_tables id to w },
        )
    change_task_status_unlogged fails =
        reaches
        ∙ bind_fails _ _ after_write _ (
            bind_fails _ _ after_write _
              (wrap_fails _ _ after_write _ (create_entry-fails pg audit after_write fails)))
