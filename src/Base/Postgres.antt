-- ===== src/Base/Postgres.antt =====
-- How a repository talks to its database. The server is not part of the repository: what its
-- statements rely on is a record of functions of the statement's number. A statement either fails
-- as a whole, with some text and no effect, or does what it says. The schedule of failures is
-- arbitrary, so it stands for lost connections, timeouts, cancelled contexts and rows that a column
-- type refuses alike.
use Prim.Native.Nat.{ℕ, suc}
use Prim.Native.String.{String}
use mathlib.Core.Option.{Option, none, some}
use docflow_web.Base.Exec.{Result, err, external, Exec}

pub record Postgres : Type 0 where
  pub fault : ℕ → Option String
  pub now : ℕ → ℕ
  pub new_id : ℕ → String

-- The database, the number of statements sent so far, and what was handed to other services.
pub record World (D O : Type 0) : Type 0 where
  pub calls : ℕ
  pub db : D
  pub out : O

module _ {S D O A : Type 0} where
  abbrev finish : ℕ → O → Result S A × D → Result S A × World D O
  finish n out rd = (rd.0, record { calls = suc n; db = rd.1; out = out })

  -- One statement: its body is given the statement's number and the tables.
  unfoldable pub statement : Postgres → (ℕ → D → Result S A × D) → Exec S (World D O) A
  statement pg body w = elim (pg.fault w.calls) [
    | none ↦ finish w.calls w.out (body w.calls w.db)
    | some text ↦ (err (external text), record w { calls = suc w.calls })
  ]
