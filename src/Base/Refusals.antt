-- ===== src/Base/Refusals.antt =====
-- Programs that leave the tables alone whenever they answer with a sentinel of the domain, one rule
-- for each way to build one. Behind the first write only errors of the database may come.
use Prim.Native.String.{String}
use mathlib.Core.Path.{◌≡◌, refl, ◌∙◌}
use mathlib.Core.Bool.{Bool, true, false}
use mathlib.Core.Option.{none, some}
use docflow_web.Base.Tests.{if◌then◌else◌}
use docflow_web.Base.Exec.{
  Result, ok, err, external, Exec, pure, wrap, label, ignore, ◌>>=◌, fail_if, cause_of, continue,
  wrap_result, label_result,
}
use docflow_web.Base.Postgres.{World}

cause_of-wrap :
    {S A : Type 0} (msg : String) (r : Result S A) → cause_of (wrap_result msg r) ≡ cause_of r
cause_of-wrap msg (ok a) = refl
cause_of-wrap msg (err e) = refl

cause_of-label :
    {S A : Type 0} (msg : String) (r : Result S A) → cause_of (label_result msg r) ≡ cause_of r
cause_of-label msg (ok a) = refl
cause_of-label msg (err (external t)) = refl
cause_of-label msg (err e) = refl

module _ {S D O A : Type 0} where
  -- The answer is no sentinel.
  pub record Plain (m : Exec S (World D O) A) (w : World D O) : Type 0 where
    pub at : cause_of (m w).0 ≡ none

  pub record Clean (m : Exec S (World D O) A) (w : World D O) : Type 0 where
    pub at : (s : S) → cause_of (m w).0 ≡ some s → (m w).1.db ≡ w.db

  pub record Quiet (m : Exec S (World D O) A) (w : World D O) : Type 0 where
    pub at : (m w).1.db ≡ w.db

  pub Clean-of_Quiet : (m : Exec S (World D O) A) (w : World D O) → Quiet m w → Clean m w
  Clean-of_Quiet m w q = record { at = λ s e. q.at }

  pub Clean-of_Plain : (m : Exec S (World D O) A) (w : World D O) → Plain m w → Clean m w
  Clean-of_Plain m w p = record { at = λ s e. cc p.at }

  pub Plain-pure : (a : A) (w : World D O) → Plain (pure a) w
  unfolding pure
  Plain-pure a w = record { at = refl }

  pub Quiet-pure : (a : A) (w : World D O) → Quiet (pure a) w
  unfolding pure
  Quiet-pure a w = record { at = refl }

  pub Plain-wrap :
      (msg : String) (m : Exec S (World D O) A) (w : World D O) → Plain m w → Plain (wrap msg m) w
  unfolding wrap
  Plain-wrap msg m w p = record { at = cause_of-wrap msg (m w).0 ∙ p.at }

  pub Plain-label :
      (msg : String) (m : Exec S (World D O) A) (w : World D O) → Plain m w → Plain (label msg m) w
  unfolding label
  Plain-label msg m w p = record { at = cause_of-label msg (m w).0 ∙ p.at }

  pub Clean-wrap :
      (msg : String) (m : Exec S (World D O) A) (w : World D O) → Clean m w → Clean (wrap msg m) w
  unfolding wrap
  Clean-wrap msg m w c = record { at = λ s e. c.at s (rw (cause_of-wrap msg (m w).0) at e) }

  pub Clean-label :
      (msg : String) (m : Exec S (World D O) A) (w : World D O) → Clean m w → Clean (label msg m) w
  unfolding label
  Clean-label msg m w c = record { at = λ s e. c.at s (rw (cause_of-label msg (m w).0) at e) }

  pub Quiet-wrap :
      (msg : String) (m : Exec S (World D O) A) (w : World D O) → Quiet m w → Quiet (wrap msg m) w
  unfolding wrap
  Quiet-wrap msg m w q = record { at = q.at }

  pub Quiet-label :
      (msg : String) (m : Exec S (World D O) A) (w : World D O) → Quiet m w → Quiet (label msg m) w
  unfolding label
  Quiet-label msg m w q = record { at = q.at }

  pub Plain-if :
      (b : Bool) (m n : Exec S (World D O) A) (w : World D O)
      → Plain m w
      → Plain n w
      → Plain (if b then m else n) w
  Plain-if true m n w p q = p
  Plain-if false m n w p q = q

  pub Plain-ignore : (m : Exec S (World D O) A) (w : World D O) → cause_of (ignore m w).0 ≡ none
  unfolding ignore
  Plain-ignore m w = refl

module _ {S D O A B : Type 0} where
  Plain-after :
      (f : A → Exec S (World D O) B) (r : Result S A) (v : World D O)
      → cause_of r ≡ none
      → ((a : A) → r ≡ ok a → Plain (f a) v)
      → cause_of (continue r f v).0 ≡ none
  Plain-after f (ok a) v p k = (k a refl).at
  Plain-after f (err e) v p k = p

  pub Plain-bind :
      (m : Exec S (World D O) A) (f : A → Exec S (World D O) B) (w : World D O)
      → Plain m w
      → ((a : A) → (m w).0 ≡ ok a → Plain (f a) (m w).1)
      → Plain (m >>= f) w
  unfolding ◌>>=◌
  Plain-bind m f w p k = record { at = Plain-after f (m w).0 (m w).1 p.at k }

  Clean-after :
      (f : A → Exec S (World D O) B) (r : Result S A) (v : World D O) (d : D)
      → v.db ≡ d
      → ((a : A) → r ≡ ok a → Clean (f a) v)
      → (s : S) → cause_of (continue r f v).0 ≡ some s
      → (continue r f v).1.db ≡ d
  Clean-after f (ok a) v d same k s e = (k a refl).at s e ∙ same
  Clean-after f (err x) v d same k s e = same

  -- A first part that only reads.
  pub Clean-bind :
      (m : Exec S (World D O) A) (f : A → Exec S (World D O) B) (w : World D O)
      → Quiet m w
      → ((a : A) → (m w).0 ≡ ok a → Clean (f a) (m w).1)
      → Clean (m >>= f) w
  unfolding ◌>>=◌
  Clean-bind m f w q k = record { at = Clean-after f (m w).0 (m w).1 w.db q.at k }

  clean_write_after :
      (f : A → Exec S (World D O) B) (r : Result S A) (v : World D O) (d : D)
      → ((s : S) → cause_of r ≡ some s → v.db ≡ d)
      → ((a : A) → r ≡ ok a → Plain (f a) v)
      → (s : S) → cause_of (continue r f v).0 ≡ some s
      → (continue r f v).1.db ≡ d
  clean_write_after f (ok a) v d c k s e = cc ((k a refl).at)
  clean_write_after f (err x) v d c k s e = c s e

  -- The write, and what follows it.
  pub Clean-write :
      (m : Exec S (World D O) A) (f : A → Exec S (World D O) B) (w : World D O)
      → Clean m w
      → ((a : A) → (m w).0 ≡ ok a → Plain (f a) (m w).1)
      → Clean (m >>= f) w
  unfolding ◌>>=◌
  Clean-write m f w c k = record { at = clean_write_after f (m w).0 (m w).1 w.db c.at k }

  pub Quiet-after :
      (f : A → Exec S (World D O) B) (r : Result S A) (v : World D O) (d : D)
      → v.db ≡ d
      → ((a : A) → Quiet (f a) v)
      → (continue r f v).1.db ≡ d
  Quiet-after f (ok a) v d same k = (k a).at ∙ same
  Quiet-after f (err x) v d same k = same

  pub Quiet-bind :
      (m : Exec S (World D O) A) (f : A → Exec S (World D O) B) (w : World D O)
      → Quiet m w
      → ((a : A) → Quiet (f a) (m w).1)
      → Quiet (m >>= f) w
  unfolding ◌>>=◌
  Quiet-bind m f w q k = record { at = Quiet-after f (m w).0 (m w).1 w.db q.at k }

module _ {S D O A : Type 0} where
  pub Clean-fail_if :
      (b : Bool) (s : S) (f : Unit {0} → Exec S (World D O) A) (w : World D O)
      → (b ≡ false → Clean (f tt) w)
      → Clean (fail_if b s >>= f) w
  unfolding fail_if ◌>>=◌
  Clean-fail_if true s f w k = record { at = λ t e. refl }
  Clean-fail_if false s f w k = record { at = (k refl).at }
