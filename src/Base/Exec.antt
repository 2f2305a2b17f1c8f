-- ===== src/Base/Exec.antt =====
-- Go functions that read and write shared state and return an `error`. What was written before an
-- error stays written: no service opens a transaction. An error is a sentinel of the service's
-- domain, an error of a library with its text, or either of them wrapped by `fmt.Errorf`'s %w.
use Prim.Native.String.{String}
use mathlib.Core.Path.{◌≡◌, refl}
use mathlib.Core.Bool.{Bool, true, false}
use mathlib.Core.Option.{Option, none, some}

pub data GoError (S : Type 0) : Type 0 where
  sentinel : S → GoError S
  external : String → GoError S
  wrapped : String → GoError S → GoError S

pub data Result (S A : Type 0) : Type 0 where
  ok : A → Result S A
  err : GoError S → Result S A

-- The sentinel that `errors.Is` finds in a chain of wrapped errors.
abbrev pub cause : {S : Type 0} → GoError S → Option S
cause (sentinel s) = some s
cause (external _) = none
cause (wrapped _ e) = cause e

abbrev pub Exec : Type 0 → Type 0 → Type 0 → Type 0
Exec S W A = W → Result S A × W

abbrev pub wrap_result : {S A : Type 0} → String → Result S A → Result S A
wrap_result msg (ok a) = ok a
wrap_result msg (err e) = err (wrapped msg e)

-- Only an error of a library is given the message; a sentinel is returned as it is.
abbrev pub label_result : {S A : Type 0} → String → Result S A → Result S A
label_result msg (err (external text)) = err (wrapped msg (external text))
label_result msg r = r

module _ {S W A : Type 0} where
  unfoldable pub pure : A → Exec S W A
  pure a w = (ok a, w)

  unfoldable pub raise : GoError S → Exec S W A
  raise e w = (err e, w)

  -- `fmt.Errorf(msg + ": %w", err)` on the error path.
  unfoldable pub wrap : String → Exec S W A → Exec S W A
  wrap msg m w = (wrap_result msg (m w).0, (m w).1)

  unfoldable pub label : String → Exec S W A → Exec S W A
  label msg m w = (label_result msg (m w).0, (m w).1)

  -- `_ = f(...)`: the error is dropped and the effects stay.
  unfoldable pub ignore : Exec S W A → Exec S W (Unit {0})
  ignore m w = (ok tt, (m w).1)

module _ {S W A B : Type 0} where
  abbrev pub continue : Result S A → (A → Exec S W B) → Exec S W B
  continue (ok a) f w = f a w
  continue (err e) f w = (err e, w)

  infixl 5 ◌>>=◌
  unfoldable pub ◌>>=◌ : Exec S W A → (A → Exec S W B) → Exec S W B
  ◌>>=◌ m f w = continue (m w).0 f (m w).1

infixl 5 ◌>>◌
abbrev pub ◌>>◌ : {S W B : Type 0} → Exec S W (Unit {0}) → Exec S W B → Exec S W B
m >> k = m >>= λ _. k

-- An early return with an error where the test holds.
unfoldable pub fail_if : {S W : Type 0} → Bool → S → Exec S W (Unit {0})
unfolding pure raise
fail_if true s = raise (sentinel s)
fail_if false s = pure tt

-- To compute with programs: `unfolding program` opens the operations of this file.
unfoldable pub program : Unit {0}
unfolding pure raise wrap label ignore ◌>>=◌ fail_if
program = tt

result_of_wrap :
    {S A : Type 0} (msg : String) (r : Result S A) {a : A} → wrap_result msg r ≡ ok a → r ≡ ok a
result_of_wrap msg (ok b) h = h
result_of_wrap msg (err e) h = cc

module _ {S W A : Type 0} where
  -- A program that returned under a message returned without it.
  pub ok_of_wrap :
      (msg : String) (m : Exec S W A) (w : W) {a : A} → (wrap msg m w).0 ≡ ok a → (m w).0 ≡ ok a
  unfolding wrap
  ok_of_wrap msg m w h = result_of_wrap msg (m w).0 h

  pub wrap_state : (msg : String) (m : Exec S W A) (w : W) → (wrap msg m w).1 ≡ (m w).1
  unfolding wrap
  wrap_state msg m w = refl

-- The sentinel behind a result, if it is an error that has one.
abbrev pub cause_of : {S A : Type 0} → Result S A → Option S
cause_of (ok a) = none
cause_of (err e) = cause e

-- A chain of two steps that returned: the first returned, and the second ran where it left off.
pub record Returned {S W A B : Type 0} (m : Exec S W A) (f : A → Exec S W B) (w : W) (b : B)
    : Type 0 where
  pub value : A
  pub first : (m w).0 ≡ ok value
  pub second : (f value (m w).1).0 ≡ ok b
  pub state : ((m >>= f) w).1 ≡ (f value (m w).1).1

module _ {S W A B : Type 0} (f : A → Exec S W B) {b : B} where
  returned_after :
      (r : Result S A) (u : W)
      → (continue r f u).0 ≡ ok b
      → (a : A) × (r ≡ ok a) × ((f a u).0 ≡ ok b) × ((continue r f u).1 ≡ (f a u).1)
  returned_after (ok a) u h = (a, refl, h, refl)
  returned_after (err e) u h = cc

  pub returned : (m : Exec S W A) (w : W) → ((m >>= f) w).0 ≡ ok b → Returned m f w b
  unfolding ◌>>=◌
  returned m w h =
      let (a, first, second, state) = returned_after (m w).0 (m w).1 h in
      record { value = a; first = first; second = second; state = state }

module _ {S W A : Type 0} where
  -- A guard that let the program through.
  pub passed :
      (t : Bool) (s : S) (f : Unit {0} → Exec S W A) (w : W) {a : A}
      → ((fail_if t s >>= f) w).0 ≡ ok a
      → (t ≡ false) × ((f tt w).0 ≡ ok a) × (((fail_if t s >>= f) w).1 ≡ (f tt w).1)
  unfolding fail_if ◌>>=◌
  passed true s f w h = cc
  passed false s f w h = (refl, h, refl)

-- Running a program step by step.
module _ {S W A : Type 0} where
  pub pure_runs : (a : A) (w : W) → pure {S = S} a w ≡ (ok a, w)
  unfolding pure
  pure_runs a w = refl

  pub wrap_runs :
      (msg : String) (m : Exec S W A) (w u : W) {a : A} → m w ≡ (ok a, u) → wrap msg m w ≡ (ok a, u)
  unfolding wrap
  wrap_runs msg m w u e = rw e refl

  pub wrap_fails :
      (msg : String) (m : Exec S W A) (w u : W) {e : GoError S}
      → m w ≡ (err e, u)
      → wrap msg m w ≡ (err (wrapped msg e), u)
  unfolding wrap
  wrap_fails msg m w u e = rw e refl

  pub passes :
      (t : Bool) (s : S) (f : Unit {0} → Exec S W A) (w : W)
      → t ≡ false
      → (fail_if t s >>= f) w ≡ f tt w
  unfolding fail_if ◌>>=◌
  passes true s f w h = cc
  passes false s f w h = refl

module _ {S W A B : Type 0} (m : Exec S W A) (f : A → Exec S W B) (w u : W) where
  pub bind_runs : {a : A} → m w ≡ (ok a, u) → (m >>= f) w ≡ f a u
  unfolding ◌>>=◌
  bind_runs e = rw e refl

  pub bind_fails : {e : GoError S} → m w ≡ (err e, u) → (m >>= f) w ≡ (err e, u)
  unfolding ◌>>=◌
  bind_fails e = rw e refl
