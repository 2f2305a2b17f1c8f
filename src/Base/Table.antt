-- ===== src/Base/Table.antt =====
-- A table of the database as the list of its rows, with the statements that the repositories send.
-- A table has no order of its own: a query that needs one says ORDER BY.
use Prim.Native.Nat.{ℕ}
use Prim.Native.String.{String}
use mathlib.Core.Path.{◌≡◌, refl, subst, ap, sym, ◌∙◌}
use mathlib.Core.Bool.{Bool, true, false}
use mathlib.Core.Option
use mathlib.Core.Option.{Option, none, some}
use mathlib.Core.List.{List, [], ◌∷◌, map}
use mathlib.Core.Logic.{inl, inr}
use native.Mathlib.Omega.{arith}
use text.Mathlib.Text.{◌==◌}
use text.Mathlib.TextEquality.{eq_iff}
use docflow_web.Base.Tests.{if◌then◌else◌, length, Bool-cases, All, elem}

module _ {ℓ} {R : Type ℓ} where
  -- SELECT ... WHERE p
  unfoldable pub select : (R → Bool) → List R → List R
  select p [] = []
  select p (r ∷ rs) = let rest = select p rs in if p r then r ∷ rest else rest

  -- UPDATE ... SET f WHERE p
  unfoldable pub update_where : (R → Bool) → (R → R) → List R → List R
  update_where p f [] = []
  update_where p f (r ∷ rs) = (if p r then f r else r) ∷ update_where p f rs

  -- DELETE ... WHERE p
  unfoldable pub delete_where : (R → Bool) → List R → List R
  delete_where p [] = []
  delete_where p (r ∷ rs) = let rest = delete_where p rs in if p r then rest else r ∷ rest

  -- SELECT COUNT(*) ... WHERE p
  unfoldable pub count_where : (R → Bool) → List R → ℕ
  unfolding select
  count_where p rs = length (select p rs)

  pub All-update_where :
      (P : R → Type ℓ) (p : R → Bool) (f : R → R)
      → ((r : R) → p r ≡ true → P r → P (f r))
      → (rs : List R) → All P rs
      → All P (update_where p f rs)
  unfolding update_where
  All-update_where P p f keep [] h = tt
  All-update_where P p f keep (r ∷ rs) (h, hs) = elim (Bool-cases (p r)) [
    | inl e ↦ rw e (keep r e h, All-update_where P p f keep rs hs)
    | inr e ↦ rw e (h, All-update_where P p f keep rs hs)
  ]

  -- An update that establishes a property of every row that had not got it.
  pub All-update_where_if :
      (P : R → Type ℓ) (p : R → Bool) (f : R → R)
      → ((r : R) → P (f r))
      → (rs : List R) → All (λ r. p r ≡ false → P r) rs
      → All P (update_where p f rs)
  unfolding update_where
  All-update_where_if P p f gives [] h = tt
  All-update_where_if P p f gives (r ∷ rs) (h, hs) = elim (Bool-cases (p r)) [
    | inl e ↦ rw e (gives r, All-update_where_if P p f gives rs hs)
    | inr e ↦ rw e (h e, All-update_where_if P p f gives rs hs)
  ]

  pub All-delete_where :
      (P : R → Type ℓ) (p : R → Bool) (rs : List R) → All P rs → All P (delete_where p rs)
  unfolding delete_where
  All-delete_where P p [] h = tt
  All-delete_where P p (r ∷ rs) (h, hs) = elim (Bool-cases (p r)) [
    | inl e ↦ rw e (All-delete_where P p rs hs)
    | inr e ↦ rw e (h, All-delete_where P p rs hs)
  ]

  pub All-select : (p : R → Bool) (rs : List R) → All (λ r. p r ≡ true) (select p rs)
  unfolding select
  All-select p [] = tt
  All-select p (r ∷ rs) = elim (Bool-cases (p r)) [
    | inl e ↦ rw e (e, All-select p rs)
    | inr e ↦ rw e (All-select p rs)
  ]

module _ {ℓ} {R : Type ℓ} (key : R → String) where
  -- WHERE id = k
  abbrev pub is_key : String → R → Bool
  is_key k r = key r == k

  -- The row that SELECT ... WHERE id = k returns.
  unfoldable pub find : String → List R → Option R
  find k [] = none
  find k (r ∷ rs) = if key r == k then some r else find k rs

  pub find-update_where :
      (p : R → Bool) (f : R → R)
      → ((r : R) → key (f r) ≡ key r)
      → (k : String) (rs : List R)
      → find k (update_where p f rs) ≡ Option.map (λ r. if p r then f r else r) (find k rs)
  unfolding find update_where
  find-update_where p f same k [] = refl
  find-update_where p f same k (r ∷ rs) = elim (Bool-cases (p r)) [
    | inl e ↦ rw (e, same r) (ground (arith, e, find-update_where p f same k rs))
    | inr e ↦ rw e (ground (arith, e, find-update_where p f same k rs))
  ]

  pub find-delete_where :
      (j k : String) (rs : List R)
      → find k (delete_where (is_key j) rs) ≡ (if j == k then none else find k rs)
  unfolding find delete_where
  find-delete_where j k [] = ground arith
  find-delete_where j k (r ∷ rs) =
      ground (arith, find-delete_where j k rs, eq_iff (key r) j, eq_iff (key r) k, eq_iff j k)

  pub find_key : (k : String) (rs : List R) {r : R} → find k rs ≡ some r → key r ≡ k
  unfolding find
  find_key k [] h = cc
  find_key k (r ∷ rs) {r = s} h = elim (Bool-cases (key r == k)) [
    | inl t ↦ ap key (ground arith) ∙ (eq_iff (key r) k).0 t
    | inr t ↦ find_key k rs (ground arith)
  ]

  -- A property of all rows holds of the row that is found.
  pub find-All :
      (P : R → Type ℓ) (k : String) (rs : List R) {r : R} → All P rs → find k rs ≡ some r → P r
  unfolding find
  find-All P k [] h e = cc
  find-All P k (r ∷ rs) {r = s} (h, hs) e = elim (Bool-cases (key r == k)) [
    | inl t ↦ subst P (ground arith) h
    | inr t ↦ find-All P k rs hs (ground arith)
  ]

  pub find-cons :
      (k : String) (r : R) (rs : List R)
      → find k (r ∷ rs) ≡ (if key r == k then some r else find k rs)
  unfolding find
  find-cons k r rs = refl

  -- What a PRIMARY KEY demands.
  abbrev pub Unique : List R → Type ℓ
  Unique [] = Unit
  Unique (r ∷ rs) = (find (key r) rs ≡ none) × Unique rs

  map-eq-none : (f : R → R) (o : Option R) → o ≡ none → Option.map f o ≡ none
  map-eq-none f o e = rw e refl

  pub Unique-update_where :
      (p : R → Bool) (f : R → R)
      → ((r : R) → key (f r) ≡ key r)
      → (rs : List R) → Unique rs
      → Unique (update_where p f rs)
  unfolding update_where
  Unique-update_where p f same [] h = tt
  Unique-update_where p f same (r ∷ rs) (h, hs) = (
    rw (find-update_where p f same _ rs) (map-eq-none _ _ (kept (p r))),
    Unique-update_where p f same rs hs,
  )
    where
      kept : (b : Bool) → find (key (if b then f r else r)) rs ≡ none
      kept true = rw (same r) h
      kept false = h

  pub Unique-delete_where :
      (j : String) (rs : List R) → Unique rs → Unique (delete_where (is_key j) rs)
  unfolding delete_where
  Unique-delete_where j [] h = tt
  Unique-delete_where j (r ∷ rs) (h, hs) = elim (Bool-cases (key r == j)) [
    | inl e ↦ rw e (Unique-delete_where j rs hs)
    | inr e ↦ rw e (rw (find-delete_where j (key r) rs) (ground arith), Unique-delete_where j rs hs)
  ]

  elem-select-none :
      (p : R → Bool) (k : String) (rs : List R)
      → find k rs ≡ none
      → elem k (map key (select p rs)) ≡ false
  unfolding find select
  elem-select-none p k [] h = refl
  elem-select-none p k (r ∷ rs) h = ground (arith, elem-select-none p k rs)

  -- Among the ids of the rows that `p` selects is that of a row exactly when `p` holds of it.
  pub elem-select :
      (p : R → Bool) (k : String) (rs : List R) {r : R}
      → Unique rs
      → find k rs ≡ some r
      → elem k (map key (select p rs)) ≡ p r
  unfolding find select
  elem-select p k [] u h = cc
  elem-select p k (x ∷ xs) {r} (ux, u) h = elim (Bool-cases (key x == k)) [
    | inl e ↦
        let gone : find k xs ≡ none = subst (λ j. find j xs ≡ none) ((eq_iff _ _).0 e) ux in
        let same : x ≡ r = ground arith in
        subst (λ y. elem k (map key (select p (x ∷ xs))) ≡ p y) same
          (ground (arith, e, elem-select-none p k xs gone))
    | inr e ↦ ground (arith, e, elem-select p k xs {r = r} u (ground arith))
  ]

  module _ (p : R → Bool) (f : R → R) (same : (r : R) → key (f r) ≡ key r) where
    pub find-update_miss :
        (k : String) (rs : List R) {r : R}
        → find k rs ≡ some r
        → p r ≡ false
        → find k (update_where p f rs) ≡ some r
    find-update_miss k rs e m = rw (find-update_where p f same k rs, e, m) refl

    pub find-update_hit :
        (k : String) (rs : List R) {r : R}
        → find k rs ≡ some r
        → p r ≡ true
        → find k (update_where p f rs) ≡ some (f r)
    find-update_hit k rs e m = rw (find-update_where p f same k rs, e, m) refl

  -- Two rows that are found, the first by the second's own id, are one row.
  pub same_row :
      (k id : String) (rs : List R) {r s : R}
      → find k rs ≡ some s
      → find id rs ≡ some r
      → is_key k r ≡ true
      → s ≡ r
  same_row k id rs {r} {s} e h m =
      let own : key r ≡ id = find_key id rs h in
      let here : key r ≡ k = (eq_iff _ _).0 m in
      let both : some s ≡ some r = sym e ∙ ap (λ j. find j rs) (sym here ∙ own) ∙ h in cc

  elem-cons : (k j : String) (ks : List String) → elem k ks ≡ true → elem k (j ∷ ks) ≡ true
  elem-cons k j ks h = ground arith

  differ : {P : Type 0} → false ≡ true → P
  differ e = cc e

  -- A row whose id is not among those of the selected rows was not selected.
  pub unselected :
      (p : R → Bool) (ids : List String) (rs : List R)
      → ((k : String) → elem k (map key (select p rs)) ≡ true → elem k ids ≡ true)
      → All (λ r. elem (key r) ids ≡ false → p r ≡ false) rs
  unfolding select
  unselected p ids [] h = tt
  unselected p ids (r ∷ rs) h = elim (Bool-cases (p r)) [
    | inl e ↦ (
      λ out. differ (sym out ∙ h (key r) (rw e (ground (arith, eq_iff (key r) (key r))))),
      unselected p ids rs λ k m. h k (rw e (elem-cons k (key r) _ m)),
    )
    | inr e ↦ (λ _. e, unselected p ids rs λ k m. h k (rw e m))
  ]
