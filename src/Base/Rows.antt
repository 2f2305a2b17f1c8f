-- ===== src/Base/Rows.antt =====
-- Facts about every row of a table whose key is unique.
use Prim.Native.String.{String}
use mathlib.Core.Path.{◌≡◌, refl, sym, ap, ◌∙◌}
use mathlib.Core.Logic.{inl, inr}
use mathlib.Core.Bool.{Bool, true}
use mathlib.Core.Option.{none, some}
use mathlib.Core.List.{List, [], ◌∷◌}
use text.Mathlib.Text.{◌==◌}
use text.Mathlib.TextEquality.{eq_iff}
use docflow_web.Base.Tests.{All, Bool-cases}
use docflow_web.Base.Table.{update_where, find, find-cons, Unique}

module _ {ℓ κ μ} {R : Type ℓ} where
  pub All-imp :
      {P : R → Type κ} {Q : R → Type μ} (rs : List R) → ((r : R) → P r → Q r) → All P rs → All Q rs
  All-imp [] f h = tt
  All-imp (r ∷ rs) f (h, hs) = (f r h, All-imp rs f hs)

  pub All-both :
      (P : R → Type κ) (Q : R → Type μ) (rs : List R)
      → All P rs
      → All Q rs
      → All (λ r. P r × Q r) rs
  All-both P Q [] p q = tt
  All-both P Q (r ∷ rs) (p, ps) (q, qs) = ((p, q), All-both P Q rs ps qs)

  -- What an UPDATE makes of a property, on the rows that it changes and on the others.
  pub All-update_where_from :
      {P : R → Type κ} {Q : R → Type μ} (p : R → Bool) (f : R → R)
      → ((r : R) → p r ≡ true → P r → Q (f r))
      → ((r : R) → P r → Q r)
      → (rs : List R) → All P rs
      → All Q (update_where p f rs)
  unfolding update_where
  All-update_where_from p f new old [] h = tt
  All-update_where_from p f new old (r ∷ rs) (h, hs) = elim (Bool-cases (p r)) [
    | inl e ↦ rw e (new r e h, All-update_where_from p f new old rs hs)
    | inr e ↦ rw e (old r h, All-update_where_from p f new old rs hs)
  ]

module _ {ℓ} {R : Type ℓ} (key : R → String) where
  behind :
      (r x : R) (rs : List R)
      → find key (key r) rs ≡ none
      → find key (key x) rs ≡ some x
      → find key (key x) (r ∷ rs) ≡ some x
  behind r x rs gone h = rw (find-cons key (key x) r rs) (elim (Bool-cases (key r == key x)) [
    | inl e ↦
        let same : key r ≡ key x = (eq_iff (key r) (key x)).0 e in
        let both : none ≡ some x = sym gone ∙ ap (λ k. find key k rs) same ∙ h in cc
    | inr e ↦ rw e h
  ])

  -- Where the key is unique, each row is the one that its key finds.
  pub All-found : (rs : List R) → Unique key rs → All (λ r. find key (key r) rs ≡ some r) rs
  All-found [] u = tt
  All-found (r ∷ rs) (gone, u) = (
    rw (find-cons key (key r) r rs, (eq_iff (key r) (key r)).1 refl) refl,
    All-imp rs (λ x h. behind r x rs gone h) (All-found rs u),
  )
