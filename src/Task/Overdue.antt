-- ===== src/Task/Overdue.antt =====
-- What a run of `MarkTasksOverdue` that returned has achieved.
use docflow_web.Base.{
  ℕ, String, ◌≡◌, refl, sym, ap, ◌∙◌, false, Option, none, some, List, [], ◌∷◌, map, arith, elem,
  All,
}
use mathlib.Core.Path.{subst}
use docflow_web.Base.Exec.{program, ok, ok_of_wrap, wrap_state, returned, pure, wrap}
use docflow_web.Base.Postgres.{statement}
use docflow_web.Base.Moves.{Preorder, Moves, Moves-wrap, Moves-pure, Moves-bind, Moves-ignore}
use docflow_web.Base.Statements.{on_db, Moves-statement}
use docflow_web.Base.Table.{select, update_where, All-update_where_if, unselected}
use docflow_web.Task.Domain.{Task, HistoryEntry, status_overdue}
use docflow_web.Task.Repository
use docflow_web.Task.Repository.{
  TaskDb, Outbox, App, insert_entry, TaskWorld, task_key, with_status, is_late, past,
}
use docflow_web.Task.Service
use docflow_web.Task.Service.{TaskEnv}
use docflow_web.Task.Effects.{find_overdue-found, find_overdue-same}
use docflow_web.Task.Outcomes.{notify_assignee-db}

overdue_not_late :
    (seen now : ℕ) (t : Task) → is_late seen (with_status status_overdue now t) ≡ false
overdue_not_late seen now t = ground arith

-- The program leaves the table of tasks as it is.
abbrev same_tasks : Preorder TaskDb
same_tasks = record { rel = λ d e. e.tasks ≡ d.tasks; stay = λ d. refl; trans = λ d e f p q. q ∙ p }

abbrev Keeps : {A : Type 0} → App A → TaskWorld → Type 0
Keeps m w = Moves (on_db {O = Outbox} same_tasks) m w

insert_entry-tasks :
    (e : HistoryEntry) (o : Option Task) (d : TaskDb) → (insert_entry e o d).1.tasks ≡ d.tasks
insert_entry-tasks e none d = refl
insert_entry-tasks e (some _) d = refl

-- A task whose id is not among those found was not late.
outside :
    (late : List Task) (seen : ℕ) (ts : List Task)
    → late ≡ select (is_late seen) ts
    → All (λ t. elem t.id (map task_key late) ≡ false → is_late seen t ≡ false) ts
outside late seen ts e = unselected task_key (is_late seen) (map task_key late) ts (λ k m. rw e m)

All-given :
    (P : Task → Type 0) (ts : List Task) → All (λ t. elem t.id [] ≡ false → P t) ts → All P ts
All-given P [] h = tt
All-given P (t ∷ ts) (h, hs) = (h refl, All-given P ts hs)

module _ (env : TaskEnv) where
  open env use {pg}

  Keeps-report_all : (ts : List Task) (w : TaskWorld) → Keeps (Service.report_all env ts) w
  unfolding Service.report_all Repository.create_entry
  Keeps-report_all [] w = Moves-pure _ tt w
  Keeps-report_all (t ∷ ts) w =
      Moves-bind _ _ _ w
        (Moves-bind _ _ _ w
          (Moves-ignore _ _ w
            (Moves-wrap _ _ _ w (Moves-statement _ pg _ w (insert_entry-tasks _ _ w.db))))
          λ _ _. record {
            at = ap (λ (d : TaskDb). d.tasks) (notify_assignee-db env t t.assignee_id _ _ _ _);
          })
        λ _ _. Keeps-report_all ts _

  mark_overdue-ok :
      (t : Task) (ts : List Task) (w : TaskWorld)
      → let ids = map task_key (t ∷ ts) in
        (Repository.mark_overdue_by_ids pg ids w).0 ≡ ok tt
        → (Repository.mark_overdue_by_ids pg ids w).1.db.tasks
          ≡ update_where
              (λ u. elem u.id ids)
              (with_status status_overdue (pg.now w.calls))
              w.db.tasks
  unfolding Repository.mark_overdue_by_ids program statement
  mark_overdue-ok t ts w h = ground arith

  mark_found-ok :
      (ts : List Task) (seen : ℕ) (w : TaskWorld) {ids : List String}
      → ts ≡ select (is_late seen) w.db.tasks
      → (Service.mark_found env ts w).0 ≡ ok ids
      → (ids ≡ map task_key ts)
        × All (λ t. is_late seen t ≡ false) (Service.mark_found env ts w).1.db.tasks
  unfolding pure
  mark_found-ok [] seen w e h = (cc h, All-given _ w.db.tasks (outside [] seen w.db.tasks e))
  mark_found-ok (t ∷ ts) seen w e h =
      let r =
        returned _
          (wrap "mark tasks overdue" (Repository.mark_overdue_by_ids pg (map task_key (t ∷ ts)))) w
          h in
      let s = returned _ (Service.report_all env (t ∷ ts)) _ r.second in
      let table =
        ap (λ (v : TaskWorld). v.db.tasks) r.state
        ∙ ap (λ (v : TaskWorld). v.db.tasks) s.state
        ∙ (Keeps-report_all (t ∷ ts) _).at
        ∙ ap (λ (v : TaskWorld). v.db.tasks) (wrap_state _ _ w)
        ∙ mark_overdue-ok t ts w (ok_of_wrap _ _ w r.first) in
      (
        cc s.second,
        subst (All (λ u. is_late seen u ≡ false)) (sym table) (
            All-update_where_if _ (λ u. elem u.id (map task_key (t ∷ ts)))
              (with_status status_overdue (pg.now w.calls)) (overdue_not_late seen (pg.now w.calls))
              w.db.tasks (outside (t ∷ ts) seen w.db.tasks e)),
      )

  -- The ids in the answer are those of the tasks that were late when the scan began; afterwards no
  -- task is late by that clock.
  pub mark_tasks_overdue-ok :
      (w : TaskWorld) {ids : List String}
      → (Service.mark_tasks_overdue env w).0 ≡ ok ids
      → (ids ≡ map task_key (select (is_late (pg.now w.calls)) w.db.tasks))
        × All
            (λ t. is_late (pg.now w.calls) t ≡ false)
            (Service.mark_tasks_overdue env w).1.db.tasks
  unfolding Service.mark_tasks_overdue
  mark_tasks_overdue-ok w h =
      let r =
        returned (Service.mark_found env) (wrap "find overdue tasks" (Repository.find_overdue pg)) w
          h in
      let same : (wrap "find overdue tasks" (Repository.find_overdue pg) w).1.db.tasks
          ≡ w.db.tasks =
        ap (λ (v : TaskWorld). v.db.tasks) (wrap_state _ _ w) ∙ find_overdue-same pg w in
      let late : r.value ≡ select (is_late (pg.now w.calls)) w.db.tasks =
        find_overdue-found pg w (ok_of_wrap _ _ w r.first)
        ∙ ap (select (is_late (pg.now w.calls))) (find_overdue-same pg w) in
      let (named, clear) =
        mark_found-ok r.value (pg.now w.calls) _
          (late ∙ ap (select (is_late (pg.now w.calls))) (sym same)) r.second in
      (
        named ∙ ap (map task_key) late,
        subst (All (λ u. is_late (pg.now w.calls) u ≡ false))
            (sym (ap (λ (v : TaskWorld). v.db.tasks) r.state)) clear,
      )
