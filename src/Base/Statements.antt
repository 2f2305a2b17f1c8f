-- ===== src/Base/Statements.antt =====
-- One statement moves the tables as its body does, or not at all.
use Prim.Native.Nat.{ℕ, suc}
use mathlib.Core.Path.{◌≡◌, refl}
use mathlib.Core.Logic.{inl, inr}
use docflow_web.Base.Tests.{Option-cases}
use Prim.Native.String.{String}
use native.Mathlib.Omega.{arith}
use docflow_web.Base.Exec.{Result, ok, label, cause_of}
use docflow_web.Base.Postgres.{Postgres, World, statement}
use docflow_web.Base.Refusals.{Quiet, Plain, Clean}
use mathlib.Core.Option.{none, some}
use docflow_web.Base.Moves.{Preorder, Moves}

-- A relation on the tables, as one on worlds.
abbrev pub on_db : {D O : Type 0} → Preorder D → Preorder (World D O)
on_db P = record {
  rel = λ w v. P.rel w.db v.db;
  stay = λ w. P.stay w.db;
  trans = λ u v w. P.trans u.db v.db w.db;
}

module _ {S D O A : Type 0} (P : Preorder D) where
  pub Moves-statement :
      (pg : Postgres) (body : ℕ → D → Result S A × D) (w : World D O)
      → P.rel w.db (body w.calls w.db).1
      → Moves (on_db P) (statement pg body) w
  unfolding statement
  Moves-statement pg body w h = elim (Option-cases (pg.fault w.calls)) [
    | inl e ↦ record { at = rw (e, statement) h }
    | inr (_, e) ↦ record { at = rw (e, statement) (P.stay w.db) }
  ]

  -- A statement that only reads.
  pub Moves-query :
      (pg : Postgres) (body : ℕ → D → Result S A × D) (w : World D O)
      → ((n : ℕ) (d : D) → (body n d).1 ≡ d)
      → Moves (on_db P) (statement pg body) w
  Moves-query pg body w same = Moves-statement pg body w (rw same (P.stay w.db))

module _ {S D O A : Type 0} (pg : Postgres) (body : ℕ → D → Result S A × D) (w : World D O) where
  pub Quiet-statement : (body w.calls w.db).1 ≡ w.db → Quiet (statement pg body) w
  unfolding statement
  Quiet-statement h = elim (Option-cases (pg.fault w.calls)) [
    | inl e ↦ record { at = rw (e, statement) h }
    | inr (_, e) ↦ record { at = rw (e, statement) refl }
  ]

  pub Plain-statement : cause_of (body w.calls w.db).0 ≡ none → Plain (statement pg body) w
  unfolding statement
  Plain-statement h = elim (Option-cases (pg.fault w.calls)) [
    | inl e ↦ record { at = rw (e, statement) h }
    | inr (_, e) ↦ record { at = rw (e, statement) refl }
  ]

  pub Clean-statement :
      ((s : S) → cause_of (body w.calls w.db).0 ≡ some s → (body w.calls w.db).1 ≡ w.db)
      → Clean (statement pg body) w
  unfolding statement
  Clean-statement h = elim (Option-cases (pg.fault w.calls)) [
    | inl e ↦ record { at = λ s. rw (e, statement) (h s) }
    | inr (_, e) ↦ record { at = λ s. rw (e, statement) (λ _. refl) }
  ]

  -- Where the server does not fail, a statement runs.
  pub statement_runs :
      pg.fault w.calls ≡ none
      → statement pg body w ≡ (
        (body w.calls w.db).0,
        record { calls = suc w.calls; db = (body w.calls w.db).1; out = w.out },
      )
  unfolding statement
  statement_runs e = rw (e, statement) refl

-- A query under a message that returned: its answer is that of its body, and the tables are as they
-- were.
pub query_ok :
    {S D O A : Type 0} (pg : Postgres) (msg : String) (q : ℕ → D → Result S A) (w : World D O)
    {a : A}
    → (label msg (statement pg (λ n d. (q n d, d))) w).0 ≡ ok a
    → (q w.calls w.db ≡ ok a) × ((label msg (statement pg (λ n d. (q n d, d))) w).1.db ≡ w.db)
unfolding label statement
query_ok pg msg q w h = ground arith
