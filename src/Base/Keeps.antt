-- ===== src/Base/Keeps.antt =====
-- Programs that keep a property of the tables, whether they return or fail, one rule for each way
-- to build one; and those that return, then, a value with a property.
use Prim.Native.Nat.{ℕ}
use mathlib.Core.Path.{◌≡◌, refl}
use mathlib.Core.Logic.{inl, inr}
use mathlib.Core.Bool.{Bool, true, false}
use native.Mathlib.Omega.{arith}
use docflow_web.Base.Tests.{if◌then◌else◌, Option-cases}
use docflow_web.Base.Exec.{
  program, Result, ok, err, GoError, Exec, pure, raise, ignore, ◌>>=◌, fail_if, continue,
}
use docflow_web.Base.Postgres.{Postgres, World, statement}

module _ {S D O A : Type 0} where
  pub record Keeps (I : D → Type 0) (m : Exec S (World D O) A) : Type 0 where
    pub at : (w : World D O) → I w.db → I (m w).1.db

  pub record Gives (I : D → Type 0) (Q : A → Type 0) (m : Exec S (World D O) A) : Type 0 where
    pub keeps : (w : World D O) → I w.db → I (m w).1.db
    pub gives : (w : World D O) → I w.db → (a : A) → (m w).0 ≡ ok a → Q a

module _ {S D O A : Type 0} (I : D → Type 0) where
  pub Keeps-pure : (a : A) → Keeps {S = S} {O = O} I (pure a)
  unfolding pure
  Keeps-pure a = record { at = λ w h. h }

  pub Keeps-raise : (e : GoError S) → Keeps {O = O} {A = A} I (raise e)
  unfolding raise
  Keeps-raise e = record { at = λ w h. h }

  pub Keeps-ignore : (m : Exec S (World D O) A) → Keeps I m → Keeps I (ignore m)
  unfolding ignore
  Keeps-ignore m k = record { at = k.at }

  pub Keeps-if :
      (b : Bool) (m n : Exec S (World D O) A) → Keeps I m → Keeps I n → Keeps I (if b then m else n)
  Keeps-if true m n km kn = km
  Keeps-if false m n km kn = kn

  pub Keeps-statement :
      (pg : Postgres) (body : ℕ → D → Result S A × D)
      → ((n : ℕ) (d : D) → I d → I (body n d).1)
      → Keeps {O = O} I (statement pg body)
  unfolding statement
  Keeps-statement pg body k = record {
    at = λ w h. elim (Option-cases (pg.fault w.calls)) [
      | inl e ↦ rw (e, statement) (k w.calls w.db h)
      | inr (_, e) ↦ rw (e, statement) h
    ];
  }

  pub Keeps-query :
      (pg : Postgres) (q : ℕ → D → Result S A) → Keeps {O = O} I (statement pg (λ n d. (q n d, d)))
  Keeps-query pg q = Keeps-statement pg (λ n d. (q n d, d)) λ n d h. h

  pub Gives-statement :
      (Q : A → Type 0) (pg : Postgres) (body : ℕ → D → Result S A × D)
      → ((n : ℕ) (d : D) → I d → I (body n d).1 × ((a : A) → (body n d).0 ≡ ok a → Q a))
      → Gives {O = O} I Q (statement pg body)
  unfolding statement
  Gives-statement Q pg body k = record {
    keeps = (Keeps-statement pg body (λ n d h. (k n d h).0)).at;
    gives = λ w h a. elim (Option-cases (pg.fault w.calls)) [
      | inl e ↦ rw (e, statement) ((k w.calls w.db h).1 a)
      | inr (_, e) ↦ rw (e, statement) (λ t. absurd (ground (arith, t)))
    ];
  }

  pub Keeps-of_Gives : (Q : A → Type 0) (m : Exec S (World D O) A) → Gives I Q m → Keeps I m
  Keeps-of_Gives Q m g = record { at = g.keeps }

module _ {S D O A B : Type 0} (I : D → Type 0) where
  after :
      (f : A → Exec S (World D O) B) (r : Result S A) (v : World D O)
      → I v.db
      → ((a : A) → r ≡ ok a → Keeps I (f a))
      → I (continue r f v).1.db
  after f (ok a) v h k = (k a refl).at v h
  after f (err e) v h k = h

  pub Keeps-bind :
      (m : Exec S (World D O) A) (f : A → Exec S (World D O) B)
      → Keeps I m
      → ((a : A) → Keeps I (f a))
      → Keeps I (m >>= f)
  unfolding ◌>>=◌
  Keeps-bind m f km kf = record { at = λ w h. after f (m w).0 (m w).1 (km.at w h) (λ a _. kf a) }

  pub Keeps-bind_Gives :
      (Q : A → Type 0) (m : Exec S (World D O) A) (f : A → Exec S (World D O) B)
      → Gives I Q m
      → ((a : A) → Q a → Keeps I (f a))
      → Keeps I (m >>= f)
  unfolding ◌>>=◌
  Keeps-bind_Gives Q m f gm kf = record {
    at = λ w h. after f (m w).0 (m w).1 (gm.keeps w h) (λ a e. kf a (gm.gives w h a e));
  }

  gives_after :
      (Q : B → Type 0) (f : A → Exec S (World D O) B) (r : Result S A) (v : World D O)
      → I v.db
      → ((a : A) → Gives I Q (f a))
      → (b : B) → (continue r f v).0 ≡ ok b
      → Q b
  gives_after Q f (ok a) v h k b e = (k a).gives v h b e
  gives_after Q f (err x) v h k b e = absurd (ground (arith, e))

  pub Gives-bind :
      (Q : B → Type 0) (m : Exec S (World D O) A) (f : A → Exec S (World D O) B)
      → Keeps I m
      → ((a : A) → Gives I Q (f a))
      → Gives I Q (m >>= f)
  unfolding ◌>>=◌
  Gives-bind Q m f km kf = record {
    keeps = (Keeps-bind m f km (λ a. record { at = (kf a).keeps })).at;
    gives = λ w h. gives_after Q f (m w).0 (m w).1 (km.at w h) kf;
  }

module _ {S D O : Type 0} (I : D → Type 0) where
  -- A guard
  pub Keeps-fail_if : (b : Bool) (s : S) → Keeps {O = O} I (fail_if b s)
  unfolding program
  Keeps-fail_if true s = record { at = λ w h. h }
  Keeps-fail_if false s = record { at = λ w h. h }

pub ruleset keeps_rules =
    (Keeps-pure, Keeps-raise, Keeps-ignore, Keeps-if, Keeps-query, Keeps-bind, Keeps-fail_if)
