-- ===== src/User/Members.antt =====
-- No statement of the repository but that of `CreateWithID` makes a new user.
use docflow_web.Base.{ℕ, String, ◌≡◌, refl, Bool, true, false, Option, none, some, List, [], ◌∷◌}
use docflow_web.Base.Exec.{Result, ok, err, GoError, raise}
use docflow_web.Base.Redis.{Cache}
use docflow_web.Base.Paging.{Window}
use docflow_web.Base.Table.{update_where, find, find-update_where}
use docflow_web.Base.Moves.{
  Preorder, Moves, Moves-wrap, Moves-label, Moves-pure, Moves-bind, Moves-fail_if, Moves-ignore,
  Moves-if,
}
use docflow_web.Base.Statements.{on_db, Moves-statement, Moves-query}
use docflow_web.User.Domain.{UserError, User, CreateInput, UpdateInput}
use docflow_web.User.Repository
use docflow_web.User.Repository.{
  UserDb, UserWorld, UserEnv, App, Row, row_key, is_user, on_user, affect, recover, recovered,
  with_deleted, with_verified, with_ban, with_fields,
}
use docflow_web.Base.Text.{trim_space}

-- An id that no row has, no row has afterwards.
abbrev pub closed : Preorder UserDb
closed = record {
  rel = λ d e. (id : String) → find row_key id d.rows ≡ none → find row_key id e.rows ≡ none;
  stay = λ d id h. h;
  trans = λ c d e p q id h. q id (p id h);
}

abbrev pub Holds : {A : Type 0} → App A → UserWorld → Type 0
Holds m w = Moves (on_db closed) m w

Holds-raise : {A : Type 0} (e : GoError UserError) (w : UserWorld) → Holds (raise {A = A} e) w
unfolding raise
Holds-raise e w = record { at = λ id h. h }

affect-closed :
    {A : Type 0} (o : Option User) (f : User → A) (d : UserDb) (rows : List Row)
    → closed.rel d (record d { rows = rows })
    → closed.rel d (affect o f d (record d { rows = rows })).1
affect-closed none f d rows h id e = e
affect-closed (some u) f d rows h id e = h id e

Holds-recovered :
    {A : Type 0} (r : Result UserError A) (k : App A) (w : UserWorld)
    → Holds k w
    → Holds (recovered r k) w
Holds-recovered (ok a) k w h = Moves-pure _ a w
Holds-recovered (err e) k w h = h

Holds-recover :
    {A : Type 0} (m k : App A) (w : UserWorld)
    → Holds m w
    → ((v : UserWorld) → Holds k v)
    → Holds (recover m k) w
unfolding recover
Holds-recover m k w hm hk = record {
  at = λ id e. (Holds-recovered (m w).0 k (m w).1 (hk _)).at id (hm.at id e);
}

module _ (env : UserEnv) where
  open env use {pg, has_cache, unicode}

  pub Holds-command : (f : ℕ → Cache → Cache) (w : UserWorld) → Holds (Repository.command env f) w
  unfolding Repository.command
  Holds-command f w =
      Moves-if _ has_cache _ _ w (Moves-ignore _ _ w (Moves-statement closed pg _ w λ id e. e))
        (Moves-pure _ tt w)

  pub Holds-from_cache : (key : String) (w : UserWorld) → Holds (Repository.from_cache env key) w
  unfolding Repository.from_cache
  Holds-from_cache key w = go has_cache
    where
      go :
          (b : Bool)
          → Moves (on_db closed) (Repository.from_cache (record env { has_cache = b }) key) w
      go true = record { at = (Moves-query {A = Option String} closed pg _ w (λ n d. refl)).at }
      go false = record { at = λ id e. e }

  pub Holds-to_cache : (u : User) (w : UserWorld) → Holds (Repository.to_cache env u) w
  unfolding Repository.to_cache
  Holds-to_cache u w = Moves-bind _ _ _ w (Holds-command _ w) λ _ _. Holds-command _ _

  pub Holds-or_query :
      (query : App User) (o : Option User) (w : UserWorld)
      → Holds query w
      → Holds (Repository.or_query env query o) w
  Holds-or_query query (some u) w h = Moves-pure _ u w
  Holds-or_query query none w h =
      Moves-bind _ _ _ w h λ u _. Moves-bind _ _ _ _ (Holds-to_cache u _) λ _ _. Moves-pure _ u _

  pub Holds-get_by_id : (id : String) (w : UserWorld) → Holds (Repository.get_by_id env id) w
  unfolding Repository.get_by_id
  Holds-get_by_id id w = Moves-fail_if _ _ _ _ w λ _.
      Moves-bind _ _ _ w (Holds-from_cache _ w) λ hit _.
        Holds-or_query _ hit _ (Moves-label _ _ _ _ (Moves-query closed pg _ _ λ n d. refl))

  pub Holds-get_by_email :
      (email : String) (w : UserWorld) → Holds (Repository.get_by_email env email) w
  unfolding Repository.get_by_email
  Holds-get_by_email email w = Moves-fail_if _ _ _ _ w λ _.
      Moves-bind _ _ _ w (Holds-from_cache _ w) λ hit _.
        Holds-or_query _ hit _ (Moves-label _ _ _ _ (Moves-query closed pg _ _ λ n d. refl))

  pub Holds-from_caches :
      (ids : List String) (w : UserWorld) → Holds (Repository.from_caches env ids) w
  unfolding Repository.from_caches
  Holds-from_caches [] w = Moves-pure _ _ w
  Holds-from_caches (id ∷ ids) w = Moves-if _ _ _ _ w (Holds-from_caches ids w) (
      Moves-bind _ _ _ w (Holds-from_cache _ w)
        λ hit _. Moves-bind _ _ _ _ (Holds-from_caches ids _) λ r _. Moves-pure _ _ _)

  pub Holds-to_caches : (us : List User) (w : UserWorld) → Holds (Repository.to_caches env us) w
  unfolding Repository.to_caches
  Holds-to_caches [] w = Moves-pure _ tt w
  Holds-to_caches (u ∷ us) w = Moves-bind _ _ _ w (Holds-to_cache u w) λ _ _. Holds-to_caches us _

  pub Holds-get_batch : (ids : List String) (w : UserWorld) → Holds (Repository.get_batch env ids) w
  unfolding Repository.get_batch
  Holds-get_batch [] w = Moves-pure _ [] w
  Holds-get_batch (id ∷ ids) w =
      Moves-bind _ _ _ w (Holds-from_caches (id ∷ ids) w) λ r _. missing r.0 r.1 _
    where
      missing :
          (us : List User) (ks : List String) (v : UserWorld)
          → Holds (Repository.query_missing env us ks) v
      missing us [] v = Moves-pure _ us v
      missing us (k ∷ ks) v =
          Moves-bind _ _ _ v (Moves-wrap _ _ _ v (Moves-query closed pg _ v λ n d. refl))
            λ found _. Moves-bind _ _ _ _ (Holds-to_caches found _) λ _ _. Moves-pure _ _ _

  unchanged :
      (k : String) (p : Row → Bool) (g : Row → Row) (rows : List Row)
      → ((r : Row) → row_key (g r) ≡ row_key r)
      → find row_key k rows ≡ none
      → find row_key k (update_where p g rows) ≡ none
  unchanged k p g rows keep e = rw (find-update_where row_key p g keep k rows, e) refl

  change-closed :
      {A : Type 0} (o : Option String) (f : ℕ → User → User) (answer : User → A) (n : ℕ)
      (d : UserDb)
      → ((n : ℕ) (u : User) → (f n u).id ≡ u.id)
      → closed.rel d (Repository.change env o f answer n d).1
  change-closed none f answer n d same = λ id e. e
  change-closed (some own) f answer n d same =
      affect-closed (Repository.find_id own d.rows) (λ u. answer (f (pg.now n) u)) d _
        λ k e. unchanged k (is_user own) (on_user (f (pg.now n))) d.rows (λ r. same _ r.user) e

  mark_deleted-closed :
      (o : Option String) (n : ℕ) (d : UserDb) → closed.rel d (Repository.mark_deleted env o n d).1
  mark_deleted-closed none n d = λ id e. e
  mark_deleted-closed (some own) n d =
      affect-closed (Repository.find_id own d.rows) (λ u. u.email) d _
        λ k e. unchanged k (is_user own) (with_deleted (pg.now n)) d.rows (λ r. refl) e

  pub Holds-change :
      {A : Type 0} (msg id : String) (f : ℕ → User → User) (answer : User → A) (w : UserWorld)
      → ((n : ℕ) (u : User) → (f n u).id ≡ u.id)
      → Moves (on_db closed) (Repository.label_change env msg id f answer) w
  Holds-change msg id f answer w same =
      Moves-label _ _ _ w (
        Moves-statement closed pg _ w (change-closed (env.uuid_text id) f answer w.calls w.db same))

  pub Holds-create : (i : CreateInput) (w : UserWorld) → Holds (Repository.create env i) w
  unfolding Repository.create
  Holds-create i w =
      Moves-bind _ _ _ w (record { at = λ id e. e })
        λ j _. record {
          at = λ id e.
              (drawn j _ _).at id
                ((Moves-label _ _ _ w (Moves-query {A = User} closed pg _ w λ n d. refl)).at id e);
        }
    where
      drawn :
          (j : CreateInput) (r : Result UserError User) (v : UserWorld)
          → Holds (Repository.after_drawn env j r) v
      drawn j (ok u) v =
          Moves-bind _ _ _ v (Moves-ignore _ _ v (Moves-statement closed pg _ v λ id e. e))
            λ _ _. Moves-bind _ _ _ _ (Holds-to_cache u _) λ _ _. Moves-pure _ u _
      drawn j (err e) v = Holds-recover _ _ v (Holds-get_by_email _ v) λ x. Holds-raise e x

  pub Holds-update :
      (id : String) (i : UpdateInput) (w : UserWorld) → Holds (Repository.update env id i) w
  unfolding Repository.update Repository.invalidate_cache
  Holds-update id i w = Moves-fail_if _ _ _ _ w λ _.
      Moves-bind _ _ _ w (record { at = λ id e. e })
        λ j _. Moves-bind _ _ _ w (Holds-get_by_id _ w) λ current _.
          Moves-bind _ _ _ _
            (Holds-change "query user" _ (with_fields j current) (λ u. u) _ λ n u. refl)
            λ u _.
              Moves-bind _ _ _ _ (Holds-command _ _)
                λ _ _. Moves-bind _ _ _ _ (Holds-to_cache u _) λ _ _. Moves-pure _ u _

  pub Holds-verify_email : (id : String) (w : UserWorld) → Holds (Repository.verify_email env id) w
  unfolding Repository.verify_email Repository.invalidate_cache_by_id
  Holds-verify_email id w =
      Moves-bind _ _ _ w (Holds-change _ _ with_verified (λ u. tt) w λ n u. refl)
        λ _ _. Holds-command _ _

  pub Holds-ban :
      (id admin reason : String) (w : UserWorld) → Holds (Repository.ban env id admin reason) w
  unfolding Repository.ban Repository.invalidate_cache_by_id
  Holds-ban id admin reason w =
      Moves-bind _ _ _ w (Holds-change _ _ (with_ban (trim_space reason)) (λ u. tt) w λ n u. refl)
        λ _ _. Holds-command _ _

  pub Holds-delete : (id : String) (w : UserWorld) → Holds (Repository.delete env id) w
  unfolding Repository.delete Repository.invalidate_cache
  Holds-delete id w =
      Moves-bind _ _ _ w
        (Moves-label _ _ _ w (
          Moves-statement closed pg _ w
            (mark_deleted-closed (env.uuid_text (trim_space id)) w.calls w.db)))
        λ _ _. Holds-command _ _

  pub Holds-list :
      (v : Window) (role : String) (w : UserWorld) → Holds (Repository.list env v role) w
  unfolding Repository.list
  Holds-list v role w =
      Moves-bind _ _ _ w (Moves-wrap _ _ _ w (Moves-query closed pg _ w λ n d. refl)) λ total _.
        Moves-bind _ _ _ _ (Moves-wrap _ _ _ _ (Moves-query closed pg _ _ λ n d. refl))
          λ us _. Moves-pure _ _ _
