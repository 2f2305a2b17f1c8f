-- ===== src/Task/Listing.antt =====
-- The list and filter requests of the task service.
use docflow_web.Base.{
  ℕ, String, ◌≡◌, ◌↔◌, ◌⊎◌, ◌≤◌, ◌*◌, ◌+◌, suc, zero, refl, ap, ◌∙◌, Bool, true, false, ◌&&◌, ◌==◌,
  Option, none, some, List, [], ◌∷◌, ◌++◌, arith, eq_iff, take, all,
}
use docflow_web.Base.Exec.{ok, pure, ◌>>=◌, passes, bind_runs, wrap_runs, pure_runs}
use docflow_web.Base.Statements.{statement_runs}
use docflow_web.Base.Paging.{
  pos, Window, InBounds, normalize_of_InBounds, window, pages, pages-window,
}
use docflow_web.Base.Table.{select, count_where}
use docflow_web.Task.Domain.{Task, AdvancedFilter, ListFilter}
use docflow_web.Task.Repository
use docflow_web.Task.Repository.{
  TaskDb, TaskWorld, App, App, conditions, at_least, at_most, option_is,
}
use docflow_web.Task.Service
use docflow_web.Task.Service.{TaskEnv}

-- What a filter asks of one text, and of the deadline.
abbrev Asks : String → String → Type 0
Asks wanted given = (wanted ≡ "") ⊎ (given ≡ wanted)

abbrev AsksSome : String → Option String → Type 0
AsksSome wanted given = (wanted ≡ "") ⊎ (given ≡ some wanted)

abbrev From : Option ℕ → Option ℕ → Type 0
From none d = Unit
From (some a) none = ⊥
From (some a) (some d) = a ≤ d

abbrev Until : Option ℕ → Option ℕ → Type 0
Until none d = Unit
Until (some a) none = ⊥
Until (some a) (some d) = d ≤ a

pub record Matches (f : AdvancedFilter) (t : Task) : Type 0 where
  pub status : Asks f.status t.status
  pub priority : Asks f.priority t.priority
  pub assignee : AsksSome f.assignee_id t.assignee_id
  pub document : Asks f.document_id t.document_id
  pub from : From f.deadline_from t.deadline
  pub until : Until f.deadline_to t.deadline

-- The WHERE clause that `Filter` builds.
abbrev pub where_clause : AdvancedFilter → Task → Bool
where_clause f t = all (λ p. p t) (conditions f)

all_append :
    {A : Type 0} (p : A → Bool) (xs ys : List A) → all p (xs ++ ys) ≡ (all p xs && all p ys)
all_append p [] ys = refl
all_append p (x ∷ xs) ys = ground (arith, all_append p xs ys)

module _ (t : Task) where
  abbrev test : List (Task → Bool) → Bool
  test = all (λ q. q t)

  text-Asks :
      (s given : String) (p : Task → Bool)
      → p t ≡ (given == s)
      → (test (Repository.text_condition s p) ≡ true) ↔ Asks s given
  text-Asks s given p e = grind (arith, e, eq_iff s "", eq_iff given s)

  some-Asks :
      (s : String) (given : Option String) (p : Task → Bool)
      → p t ≡ option_is s given
      → (test (Repository.text_condition s p) ≡ true) ↔ AsksSome s given
  some-Asks s none p e = grind (arith, e, eq_iff s "")
  some-Asks s (some g) p e = grind (arith, e, eq_iff s "", eq_iff g s)

  deadline-From :
      (o d : Option ℕ)
      → t.deadline ≡ d
      → (test (Repository.time_condition at_least o) ≡ true) ↔ From o d
  deadline-From none d e = ground arith
  deadline-From (some a) none e = ground arith
  deadline-From (some a) (some d) e = ground arith

  deadline-Until :
      (o d : Option ℕ)
      → t.deadline ≡ d
      → (test (Repository.time_condition at_most o) ≡ true) ↔ Until o d
  deadline-Until none d e = ground arith
  deadline-Until (some a) none e = ground arith
  deadline-Until (some a) (some d) e = ground arith

and_iff : {P Q : Type 0} (a b : Bool) → (a ≡ true) ↔ P → (b ≡ true) ↔ Q → (a && b ≡ true) ↔ (P × Q)
and_iff true true p q = (λ _. (p.0 refl, q.0 refl), λ _. refl)
and_iff true false p q = (λ h. cc, λ (x, y). q.1 y)
and_iff false b p q = (λ h. cc, λ (x, y). p.1 x)

module _ (f : AdvancedFilter) (t : Task) where
  clauses : where_clause f t ≡ (
      test t (Repository.text_condition f.status (λ u. u.status == f.status))
      && (test t (Repository.text_condition f.priority (λ u. u.priority == f.priority))
          && (test t (
                Repository.text_condition f.assignee_id
                  (λ u. option_is f.assignee_id u.assignee_id))
              && (test t
                    (Repository.text_condition f.document_id (λ u. u.document_id == f.document_id))
                  && (test t (Repository.time_condition at_least f.deadline_from)
                      && test t (Repository.time_condition at_most f.deadline_to))))))
  unfolding conditions
  clauses = rw (all_append, all_append, all_append, all_append, all_append) refl

  -- The WHERE clause that `Filter` builds is true of exactly the tasks that match each part of the
  -- filter that was given: equal status, priority, assignee and document, and a deadline within
  -- the bounds; a task with no deadline or no assignee does not match a filter that asks for one.
  pub where_clause-Matches : (where_clause f t ≡ true) ↔ Matches f t
  where_clause-Matches =
      let s = text-Asks t f.status t.status (λ u. u.status == f.status) refl in
      let p = text-Asks t f.priority t.priority (λ u. u.priority == f.priority) refl in
      let a =
        some-Asks t f.assignee_id t.assignee_id (λ u. option_is f.assignee_id u.assignee_id) refl in
      let d = text-Asks t f.document_id t.document_id (λ u. u.document_id == f.document_id) refl in
      let l = deadline-From t f.deadline_from t.deadline refl in
      let u = deadline-Until t f.deadline_to t.deadline refl in
      let m = and_iff _ _ s (and_iff _ _ p (and_iff _ _ a (and_iff _ _ d (and_iff _ _ l u)))) in
      rw clauses (
        λ h.
            let (hs, (hp, (ha, (hd, (hl, hu))))) = m.0 h in
            record {
              status = hs;
              priority = hp;
              assignee = ha;
              document = hd;
              from = hl;
              until = hu;
            },
        λ h. m.1 (h.status, (h.priority, (h.assignee, (h.document, (h.from, h.until))))),
      )

-- The requests of a client that lists a document's tasks, page after page.
module _ (env : TaskEnv) (document_id : String) where
  abbrev asked : ℕ → ℕ → ListFilter
  asked page size = record { page = pos page; page_size = pos size }

  abbrev pub fetch_pages : ℕ → ℕ → App (List Task)
  fetch_pages size zero = pure []
  fetch_pages size (suc k) = do
    front ← fetch_pages size k
    page ← Service.list_tasks_by_document env document_id (asked (suc k) size)
    pure (front ++ page.0)

  abbrev pub of_document : ℕ → List Task → List Task
  of_document n ts = env.newest_first n (select (λ t. t.document_id == document_id) ts)

  page_runs :
      ((n : ℕ) → env.pg.fault n ≡ none)
      → (document_id == "") ≡ false
      → (v : Window) (w : TaskWorld) → InBounds v
      → Service.list_tasks_by_document env document_id
          (record { page = pos v.page; page_size = pos v.page_size })
          w
        ≡ (
          ok (
            window v (of_document (suc w.calls) w.db.tasks),
            count_where (λ t. t.document_id == document_id) w.db.tasks,
          ),
          record w { calls = suc (suc w.calls) },
        )
  unfolding Service.list_tasks_by_document Repository.list_by_document
  page_runs up named v w h =
      let counted = record w { calls = suc w.calls } in
      let listed = record w { calls = suc (suc w.calls) } in
      passes _ _ _ w named
      ∙ bind_runs _ _ w counted (wrap_runs _ _ w counted (statement_runs env.pg _ w (up w.calls)))
      ∙ bind_runs _ _ counted listed (
          wrap_runs _ _ counted listed (
            statement_runs env.pg _ counted (up (suc w.calls))
            ∙ rw (normalize_of_InBounds v h) refl))
      ∙ pure_runs _ listed

  module _ (up : (n : ℕ) → env.pg.fault n ≡ none) (named : (document_id == "") ≡ false)
      (steady : (n k : ℕ) → env.newest_first n ≡ env.newest_first k) where
    steady_rows : (n : ℕ) (ts : List Task) → of_document n ts ≡ of_document 0 ts
    steady_rows n ts =
        ap (λ (f : List Task → List Task). f (select (λ t. t.document_id == document_id) ts))
          (steady n 0)

    pages_run :
        (size k : ℕ) (w : TaskWorld)
        → 1 ≤ size
        → size ≤ 100
        → fetch_pages size k w ≡ (
          ok (pages (λ v. window v (of_document 0 w.db.tasks)) size k),
          record w { calls = w.calls + k * 2 },
        )
    pages_run size zero w lo hi =
        let same : w.calls + 0 ≡ w.calls = omega arith in pure_runs [] w ∙ rw same refl
    pages_run size (suc k) w lo hi =
        let v : Window = record { page = suc k; page_size = size } in
        let h : InBounds v = record { page_pos = omega arith; size_pos = lo; size_capped = hi } in
        let behind = record w { calls = w.calls + k * 2 } in
        let now = record w { calls = suc (suc (w.calls + k * 2)) } in
        bind_runs _ _ w behind (pages_run size k w lo hi)
        ∙ bind_runs _ _ behind now (
            page_runs up named v behind h
            ∙ ap
                (λ rows. (
                  ok (window v rows, count_where (λ t. t.document_id == document_id) w.db.tasks),
                  now,
                ))
                (steady_rows (suc behind.calls) w.db.tasks))
        ∙ pure_runs _ now
        ∙ ap
            (λ n. (
              ok (pages (λ u. window u (of_document 0 w.db.tasks)) size (suc k)),
              record w { calls = n },
            ))
            (omega arith)

    -- Where the server does not fail, orders rows alike in every statement (ORDER BY alone breaks no
    -- ties between tasks created at one time) and the document has an id, a client that asks for the
    -- pages 1 to k of a size from 1 to 100 gets the first k * size rows of the document's tasks in
    -- that order, however many requests that takes.
    pub fetch_pages-take :
        (size k : ℕ) (w : TaskWorld)
        → 1 ≤ size
        → size ≤ 100
        → (fetch_pages size k w).0 ≡ ok (take (k * size) (of_document 0 w.db.tasks))
    fetch_pages-take size k w lo hi =
        rw (pages_run size k w lo hi) (ap ok (pages-window size k (of_document 0 w.db.tasks)))
