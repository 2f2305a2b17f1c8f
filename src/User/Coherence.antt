-- ===== src/User/Coherence.antt =====
-- What it takes for the cached users to be those of the table: the keys that end in an id.
use Prim.Native.Char.{code}
use docflow_web.Base.{
  ℕ, String, ◌≡◌, ◌≢◌, refl, ap, Bool, true, false, ◌==◌, some, List, [], ◌∷◌, arith, eq_iff,
  if◌then◌else◌, Bool-cases, Option-cases, inl, inr, All,
}
use mathlib.Core.Path.{subst}
use docflow_web.Base.Table.{
  select, update_where, find, find-update_where, find_key, find-All, Unique,
}
use docflow_web.Base.Rows.{All-found}
use docflow_web.User.Domain.{User}
use docflow_web.User.Repository.{
  UserDb, Row, row_key, email_of, find_id, find_email, is_user, on_user, with_deleted, id_key,
  email_key,
}
use docflow_web.User.Repository

id_key-injective : (a b : String) → id_key a ≡ id_key b → a ≡ b
id_key-injective a b e = cc

-- The letter behind the common beginning of the keys.
letter : String → ℕ
letter (String.◌∷◌ _ (String.◌∷◌ _ (String.◌∷◌ _ (String.◌∷◌ _ (String.◌∷◌ _ (String.◌∷◌ c s)))))) =
    code c
letter s = 0

keys_apart : (a b : String) → email_key a ≢ id_key b
unfolding letter
keys_apart a b e = let same : ◌≡◌ {A = ℕ} 101 105 = ap letter e in absurd (omega (arith, same))

pub keys_differ : (a b : String) → (email_key a == id_key b) ≡ false
keys_differ a b = ground (arith, eq_iff (email_key a) (id_key b), keys_apart a b)

pub id_key-eq : (a b : String) → (id_key a == id_key b) ≡ (a == b)
id_key-eq a b = ground (arith, eq_iff (id_key a) (id_key b), eq_iff a b, id_key-injective a b)

pub find_id-update :
    (id k : String) (f : User → User) (rows : List Row)
    → ((u : User) → (f u).id ≡ u.id)
    → find_id k (update_where (is_user id) (on_user f) rows)
      ≡ (if id == k then Repository.mapped f (find_id k rows) else find_id k rows)
find_id-update id k f rows same = elim (Option-cases (find row_key k rows)) [
  | inl e ↦
      rw (find-update_where row_key (is_user id) (on_user f) (λ r. same r.user) k rows, e)
        (ground arith)
  | inr (r, e) ↦
      let own = find_key row_key k rows e in
      rw (find-update_where row_key (is_user id) (on_user f) (λ r. same r.user) k rows, e)
        (ground (arith, own, eq_iff r.user.id id, eq_iff id k))
]

-- Another user is found as before.
pub find_id-delete :
    (id k : String) (now : ℕ) (rows : List Row)
    → (id == k) ≡ false
    → find_id k (update_where (is_user id) (with_deleted now) rows) ≡ find_id k rows
find_id-delete id k now rows other = elim (Option-cases (find row_key k rows)) [
  | inl e ↦
      rw (find-update_where row_key (is_user id) (with_deleted now) (λ r. refl) k rows, e)
        (ground arith)
  | inr (r, e) ↦
      let own = find_key row_key k rows e in
      rw (find-update_where row_key (is_user id) (with_deleted now) (λ r. refl) k rows, e)
        (ground (arith, own, other, eq_iff r.user.id id, eq_iff id k))
]

pub find_id-own : (k : String) (rows : List Row) {u : User} → find_id k rows ≡ some u → u.id ≡ k
find_id-own k rows {u} h = elim (Option-cases (find row_key k rows)) [
  | inl e ↦ absurd (ground (arith, e, h))
  | inr (r, e) ↦ let own = find_key row_key k rows e in ground (arith, e, h, own)
]

All-select_where {ℓ κ} :
    {A : Type ℓ} (P : A → Type κ) (p : A → Bool) (rs : List A)
    → All P rs
    → All (λ r. P r × (p r ≡ true)) (select p rs)
unfolding select
All-select_where P p [] h = tt
All-select_where P p (r ∷ rs) (h, hs) = elim (Bool-cases (p r)) [
  | inl e ↦ rw e ((h, e), All-select_where P p rs hs)
  | inr e ↦ rw e (All-select_where P p rs hs)
]

live_found :
    (r : Row) (rows : List Row)
    → find row_key (row_key r) rows ≡ some r
    → Repository.is_live r ≡ true
    → find_id r.user.id rows ≡ some r.user
live_found r rows e l = rw e (rw l refl)

-- What a query by address finds is what one by its id finds.
pub find_id-of_email :
    (email : String) (rows : List Row) {u : User}
    → Unique row_key rows
    → find_email email rows ≡ some u
    → find_id u.id rows ≡ some u
find_id-of_email email rows {u} unique h =
    elim (Option-cases (find email_of email (select Repository.is_live rows))) [
      | inl e ↦ absurd (ground (arith, e, h))
      | inr (r, e) ↦
          let (here, l) =
            find-All email_of
              (λ (r : Row).
                (find row_key (row_key r) rows ≡ some r) × (Repository.is_live r ≡ true))
              email (select Repository.is_live rows)
              (All-select_where _ Repository.is_live rows (All-found row_key rows unique)) e in
          let same : r.user ≡ u = ground (arith, e, h) in
          subst (λ (v : User). find_id v.id rows ≡ some v) same (live_found r rows here l)
    ]
