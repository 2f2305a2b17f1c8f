-- ===== src/Base/Moves.antt =====
-- What a program does to the state, as a reflexive and transitive relation between the state before
-- and the state after, whether it returns or fails: one rule for each way to build a program.
use mathlib.Core.Path.{◌≡◌, refl}
use mathlib.Core.Bool.{Bool, true, false}
use Prim.Native.String.{String}
use docflow_web.Base.Tests.{if◌then◌else◌}
use docflow_web.Base.Exec.{Result, ok, err, Exec, pure, wrap, label, ignore, ◌>>=◌, fail_if}

pub record Preorder (W : Type 0) : Type 1 where
  pub rel : W → W → Type 0
  pub stay : (w : W) → rel w w
  pub trans : (u v w : W) → rel u v → rel v w → rel u w

module _ {S W : Type 0} (P : Preorder W) where
  pub record Moves {A : Type 0} (m : Exec S W A) (w : W) : Type 0 where
    pub at : P.rel w (m w).1

  module _ {A : Type 0} where
    pub Moves-pure : (a : A) (w : W) → Moves (pure a) w
    unfolding pure
    Moves-pure a w = record { at = P.stay w }

    pub Moves-wrap : (msg : String) (m : Exec S W A) (w : W) → Moves m w → Moves (wrap msg m) w
    unfolding wrap
    Moves-wrap msg m w h = record { at = h.at }

    pub Moves-label : (msg : String) (m : Exec S W A) (w : W) → Moves m w → Moves (label msg m) w
    unfolding label
    Moves-label msg m w h = record { at = h.at }

    pub Moves-ignore : (m : Exec S W A) (w : W) → Moves m w → Moves (ignore m) w
    unfolding ignore
    Moves-ignore m w h = record { at = h.at }

    pub Moves-if :
        (b : Bool) (m n : Exec S W A) (w : W) → Moves m w → Moves n w → Moves (if b then m else n) w
    Moves-if true m n w hm hn = hm
    Moves-if false m n w hm hn = hn

  module _ {A B : Type 0} where
    after :
        (f : A → Exec S W B) (r : Result S A) (u v : W)
        → P.rel u v
        → ((a : A) → r ≡ ok a → Moves (f a) v)
        → P.rel u (◌>>=◌ (λ (_ : W). (r, v)) f u).1
    unfolding ◌>>=◌
    after f (ok a) u v h k = P.trans u v _ h (k a refl).at
    after f (err e) u v h k = h

    pub Moves-bind :
        (m : Exec S W A) (f : A → Exec S W B) (w : W)
        → Moves m w
        → ((a : A) → (m w).0 ≡ ok a → Moves (f a) (m w).1)
        → Moves (m >>= f) w
    unfolding ◌>>=◌
    Moves-bind m f w h k = record { at = after f (m w).0 w (m w).1 h.at k }

  module _ {A : Type 0} where
    -- What stands behind a guard runs in the state before it, and may use that the test failed.
    pub Moves-fail_if :
        (b : Bool) (s : S) (f : Unit {0} → Exec S W A) (w : W)
        → (b ≡ false → Moves (f tt) w)
        → Moves (fail_if b s >>= f) w
    unfolding fail_if ◌>>=◌
    Moves-fail_if true s f w k = record { at = P.stay w }
    Moves-fail_if false s f w k = record { at = (k refl).at }
