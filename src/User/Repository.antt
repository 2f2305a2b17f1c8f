-- ===== src/User/Repository.antt =====
-- services/user-service/internal/repository/user_repository.go, over the tables of
-- postgres/002_user_init.sql and a Redis database. The two servers are one record of functions: the
-- calls of both are numbered together, and each may fail.
use docflow_web.Base.{
  ℕ, String, ◌+◌, Bool, true, false, ◌&&◌, ◌||◌, not, ◌==◌, Option, none, some, List, [], ◌∷◌, ◌++◌,
  map, if◌then◌else◌, elem,
}
use docflow_web.Base.Text.{trim_space, append}
use docflow_web.Base.Unicode.{Unicode, to_lower}
use docflow_web.Base.Exec.{
  Exec, Result, ok, err, GoError, sentinel, external, cause, label, wrap, ignore, pure, fail_if,
  raise, ◌>>=◌, ◌>>◌,
}
use docflow_web.Base.Paging.{Window, window}
use docflow_web.Base.Postgres.{Postgres, World, statement}
use docflow_web.Base.Table.{select, update_where, count_where, find}
use docflow_web.Base.Redis.{Cache, get, del, set}
use docflow_web.User.Domain.{
  UserError, user_not_found, invalid_input, User, CreateInput, UpdateInput, UserStats, role_valid,
  normalize_email, validate_create, validate_update,
}

-- A row of `users`, with the column that no query returns.
pub record Row : Type 0 where
  pub user : User
  pub deleted_at : Option ℕ

pub record StatsRow : Type 0 where
  pub user_id : String
  pub total_docs : ℕ
  pub completed_docs : ℕ
  pub overdue_docs : ℕ
  pub total_tasks : ℕ

pub record UserDb : Type 0 where
  pub rows : List Row
  pub stats : List StatsRow
  pub cache : Cache

abbrev pub UserWorld : Type 0
UserWorld = World UserDb (Unit {0})

abbrev pub App : Type 0 → Type 0
App A = Exec UserError UserWorld A

abbrev pub row_key : Row → String
row_key r = r.user.id

abbrev pub email_of : Row → String
email_of r = r.user.email

abbrev pub is_none {ℓ} : {A : Type ℓ} → Option A → Bool
is_none none = true
is_none (some _) = false

-- `deleted_at IS NULL`
abbrev pub is_live : Row → Bool
is_live r = is_none r.deleted_at

abbrev pub user_of : Option Row → Option User
user_of none = none
user_of (some r) = some r.user

abbrev pub mapped : (User → User) → Option User → Option User
mapped f none = none
mapped f (some u) = some (f u)

abbrev pub live_where : Option Row → Option Row
live_where none = none
live_where (some r) = if is_live r then some r else none

-- `WHERE id = $1 AND deleted_at IS NULL`, for an id as PostgreSQL writes it; it is the primary key.
abbrev pub find_id : String → List Row → Option User
find_id id rows = user_of (live_where (find row_key id rows))

-- `WHERE email = $1 AND deleted_at IS NULL`
abbrev pub find_email : String → List Row → Option User
find_email email rows = user_of (find email_of email (select is_live rows))

abbrev pub is_user : String → Row → Bool
is_user id r = r.user.id == id && is_live r

abbrev pub on_user : (User → User) → Row → Row
on_user f r = record r { user = f r.user }

abbrev pub with_verified : ℕ → User → User
with_verified now u = record u { is_verified = true; updated_at = now }

abbrev pub with_ban : String → ℕ → User → User
with_ban reason now u = record u {
  is_banned = true;
  is_active = false;
  ban_reason = reason;
  updated_at = now;
}

abbrev pub or_old : String → String → String
or_old new old = if new == "" then old else new

-- The fields that `Update` sends, from the user that it read.
abbrev pub with_fields : UpdateInput → User → ℕ → User → User
with_fields i current now u = record u {
  first_name = or_old i.first_name current.first_name;
  last_name = or_old i.last_name current.last_name;
  phone = or_old i.phone current.phone;
  department = or_old i.department current.department;
  avatar_url = or_old i.avatar_url current.avatar_url;
  role = or_old i.role current.role;
  updated_at = now;
}

abbrev pub with_deleted : ℕ → Row → Row
with_deleted now r = record r { user = record (r.user) { updated_at = now }; deleted_at = some now }

-- The unique indexes of `users`: that of the primary key, and the one on the addresses of the users
-- that are not deleted.
pub record UniqueIndex : Type 0 where
  pub column : String
  pub is_partial : Bool

abbrev pub unique_indexes : List UniqueIndex
unique_indexes =
    record { column = "id"; is_partial = false }
    ∷ record { column = "email"; is_partial = true }
    ∷ []

-- `ON CONFLICT (column)` with no condition of its own: the server looks for a unique index on the
-- column that has none either.
abbrev pub infers : String → List UniqueIndex → Bool
infers column [] = false
infers column (i ∷ is) =
    let rest = infers column is in (i.column == column && not i.is_partial) || rest

abbrev pub no_constraint : String
no_constraint = "there is no unique or exclusion constraint matching the ON CONFLICT specification"

-- A row that is there already: `DO NOTHING` returns no row where its index is the one named.
abbrev pub clash : String → String → Result UserError User
clash target column =
    if target == column
    then err (sentinel user_not_found)
    else err (external "duplicate key value violates unique constraint")

-- `INSERT INTO users ... ON CONFLICT (target) DO NOTHING RETURNING ...`
abbrev pub insert_row : String → User → UserDb → Result UserError User × UserDb
insert_row target u d =
    if not (infers target unique_indexes)
    then (err (external no_constraint), d)
    else if not (role_valid u.role)
    then (err (external "new row violates check constraint"), d)
    else if not (is_none (find row_key u.id d.rows))
    then (clash target "id", d)
    else if not (is_none (find_email u.email d.rows))
    then (clash target "email", d)
    else (ok u, record d { rows = record { user = u; deleted_at = none } ∷ d.rows })

-- A parameter for a column of type uuid that is no uuid.
abbrev pub bad_uuid : String
bad_uuid = "invalid input syntax for type uuid"

-- An UPDATE of one user: what it returns, or the error when there is no such row.
abbrev pub affect :
    {A : Type 0} → Option User → (User → A) → UserDb → UserDb → Result UserError A × UserDb
affect none f d d' = (err (sentinel user_not_found), d)
affect (some u) f d d' = (ok (f u), d')

abbrev pub found : Option User → Result UserError User
found none = err (sentinel user_not_found)
found (some u) = ok u

-- The query by an id that PostgreSQL reads so.
abbrev pub read_by : Option String → List Row → Result UserError User
read_by none rows = err (external bad_uuid)
read_by (some id) rows = found (find_id id rows)

abbrev pub both : Option String → Option (List String) → Option (List String)
both (some id) (some ids) = some (id ∷ ids)
both none ids = none
both (some id) none = none

-- Ids for a parameter of type uuid[]
abbrev pub read_all : (String → Option String) → List String → Option (List String)
read_all uuid_text [] = some []
read_all uuid_text (id ∷ ids) = both (uuid_text id) (read_all uuid_text ids)

-- `m`, or `k` where it fails.
abbrev pub recovered : {A : Type 0} → Result UserError A → App A → App A
recovered (ok a) k = pure a
recovered (err e) k = k

unfoldable pub recover : {A : Type 0} → App A → App A → App A
recover m k w = recovered (m w).0 k (m w).1

abbrev pub sum_of : (StatsRow → ℕ) → List StatsRow → ℕ
sum_of f [] = 0
sum_of f (r ∷ rs) = f r + sum_of f rs

-- What the repository is built from. `ttl` is positive: `New` sees to it. `uuid_text` is how
-- PostgreSQL reads a text as a uuid and writes it again; a text has many forms of one uuid. `newest_first` is the
-- order of the query, `any_order` that of a query which asks for none.
pub record UserEnv : Type 0 where
  pub pg : Postgres
  pub has_cache : Bool
  pub ttl : ℕ
  pub uuid_text : String → Option String
  pub unicode : Unicode
  pub encode : User → String
  pub decode : String → Option User
  pub newest_first : List User → List User
  pub any_order : List User → List User

abbrev pub id_key : String → String
id_key id = append "user:id:" id

abbrev pub email_key : String → String
email_key email = append "user:email:" email

abbrev pub email_is : String → User → Bool
email_is email u = u.email == email

module _ (env : UserEnv) where
  open env use {pg, has_cache, ttl, unicode}

  -- A command that changes the cache, and whose error is ignored; without a cache nothing is done.
  unfoldable pub command : (ℕ → Cache → Cache) → App (Unit {0})
  command f =
      if has_cache
      then ignore (statement {A = Unit {0}} pg (λ n d. (ok tt, record d { cache = f n d.cache })))
      else pure tt

  abbrev pub decoded : Result UserError (Option String) → Option User
  decoded (ok (some raw)) = env.decode raw
  decoded (ok none) = none
  decoded (err e) = none

  -- `fromCache`; `none` is any error.
  unfoldable pub from_cache : String → App (Option User)
  from_cache key w =
      let out = statement {S = UserError} pg (λ n d. (ok (get (pg.now n) key d.cache), d)) w in
      if has_cache then (ok (decoded out.0), out.1) else (ok none, w)

  -- `toCache`
  unfoldable pub to_cache : User → App (Unit {0})
  to_cache u = do
    command λ n m. set (pg.now n) ttl (id_key u.id) (env.encode u) m
    command λ n m. set (pg.now n) ttl (email_key (normalize_email unicode u.email)) (env.encode u) m

  unfoldable pub invalidate_cache : String → String → App (Unit {0})
  invalidate_cache id email =
      command
        λ n m. del (id_key (trim_space id)) (del (email_key (normalize_email unicode email)) m)

  unfoldable pub invalidate_cache_by_id : String → App (Unit {0})
  invalidate_cache_by_id id = command λ n m. del (id_key (trim_space id)) m

  -- What the cache has, or else what the query finds, which is then cached.
  abbrev pub or_query : App User → Option User → App User
  or_query query (some u) = pure u
  or_query query none = do u ← query; to_cache u; pure u

  abbrev pub query_id : String → App User
  query_id id = label "query user" (statement pg λ n d. (read_by (env.uuid_text id) d.rows, d))

  abbrev pub query_email : String → App User
  query_email email = label "query user" (statement pg λ n d. (found (find_email email d.rows), d))

  -- `GetByID`
  unfoldable pub get_by_id : String → App User
  get_by_id raw = do
    let id = trim_space raw
    fail_if (id == "") invalid_input
    hit ← from_cache (id_key id)
    or_query (query_id id) hit

  -- `GetByEmail`
  unfoldable pub get_by_email : String → App User
  get_by_email raw = do
    let email = normalize_email unicode raw
    fail_if (email == "") invalid_input
    hit ← from_cache (email_key email)
    or_query (query_email email) hit

  abbrev pub has_role : String → User → Bool
  has_role role u = if role == "" then true else u.role == role

  abbrev pub users_where : (User → Bool) → List Row → List User
  users_where p rows = select p (map (λ r. r.user) (select is_live rows))

  -- `List`
  unfoldable pub list : Window → String → App (List User × ℕ)
  list w raw = do
    let role = trim_space (to_lower unicode raw)
    total ← wrap "count users" (
        statement pg
          λ n d. (ok (count_where (has_role role) (map (λ r. r.user) (select is_live d.rows))), d))
    users ← wrap "list users" (
        statement pg
          λ n d. (ok (window w (env.newest_first (users_where (has_role role) d.rows))), d))
    pure (users, total)

  abbrev pub sorted_in : Option User → String → List User × List String → List User × List String
  sorted_in (some u) id (us, missing) = (u ∷ us, missing)
  sorted_in none id (us, missing) = (us, id ∷ missing)

  -- The first loop of `GetBatch`: the users that are cached, and the ids that are not.
  unfoldable pub from_caches : List String → App (List User × List String)
  from_caches [] = pure ([], [])
  from_caches (raw ∷ ids) =
      let rest = from_caches ids in
      let id = trim_space raw in
      if id == ""
      then rest
      else from_cache (id_key id) >>= λ hit. rest >>= λ r. pure (sorted_in hit id r)

  unfoldable pub to_caches : List User → App (Unit {0})
  to_caches [] = pure tt
  to_caches (u ∷ us) = to_cache u >> to_caches us

  abbrev pub users_among : Option (List String) → List Row → Result UserError (List User)
  users_among none rows = err (external bad_uuid)
  users_among (some ids) rows = ok (env.any_order (users_where (λ u. elem u.id ids) rows))

  abbrev pub query_missing : List User → List String → App (List User)
  query_missing us [] = pure us
  query_missing us (id ∷ ids) = do
    found ←
        wrap "get users batch"
          (statement pg λ n d. (users_among (read_all env.uuid_text (id ∷ ids)) d.rows, d))
    to_caches found
    pure (us ++ found)

  -- `GetBatch`
  unfoldable pub get_batch : List String → App (List User)
  get_batch [] = pure []
  get_batch (id ∷ ids) = do (us, missing) ← from_caches (id ∷ ids); query_missing us missing

  -- `CheckExists`: the server takes the '' of COALESCE for a uuid, and refuses the statement.
  unfoldable pub check_exists : String → App (Bool × String)
  check_exists raw = do
    fail_if (normalize_email unicode raw == "") invalid_input
    wrap "check user exists"
        (statement pg λ n d. (err (external "invalid input syntax for type uuid"), d))

  abbrev pub new_user : String → CreateInput → ℕ → User
  new_user id i now = record {
    id = id;
    email = i.email;
    first_name = i.first_name;
    last_name = i.last_name;
    phone = i.phone;
    department = i.department;
    avatar_url = i.avatar_url;
    role = i.role;
    is_active = true;
    is_verified = false;
    is_banned = false;
    ban_reason = "";
    created_at = now;
    updated_at = now;
  }

  -- `INSERT INTO user_stats ... ON CONFLICT DO NOTHING`, whose error is ignored
  abbrev pub add_stats : String → List StatsRow → List StatsRow
  add_stats id rows =
      if is_none (find (λ (s : StatsRow). s.user_id) id rows)
      then record {
        user_id = id;
        total_docs = 0;
        completed_docs = 0;
        overdue_docs = 0;
        total_tasks = 0;
      }
        ∷ rows
      else rows

  abbrev pub insert_stats : String → App (Unit {0})
  insert_stats id =
      ignore (statement {A = Unit {0}} pg λ n d. (ok tt, record d { stats = add_stats id d.stats }))

  abbrev pub kept : User → App User
  kept u = do insert_stats u.id; to_cache u; pure u

  abbrev pub existing_by_email : String → GoError UserError → App User
  existing_by_email email e = recover (get_by_email email) (raise e)

  -- What follows a failed INSERT with an id, by the sentinel of its error.
  abbrev pub existing : String → String → GoError UserError → Option UserError → App User
  existing id email e (some user_not_found) = raise e
  existing id email e o = recover (get_by_id id) (existing_by_email email e)

  abbrev pub after_fixed : String → CreateInput → Result UserError User → App User
  after_fixed id i (ok u) = kept u
  after_fixed id i (err e) = existing id i.email e (cause e)

  abbrev pub insert_with_id :
      Option String → CreateInput → ℕ → UserDb → Result UserError User × UserDb
  insert_with_id none i n d = (err (external bad_uuid), d)
  insert_with_id (some id) i n d = insert_row "id" (new_user id i (pg.now n)) d

  abbrev pub insert_fixed : String → CreateInput → App User
  insert_fixed id i w =
      let out = label "query user" (statement pg (insert_with_id (env.uuid_text id) i)) w in
      after_fixed id i out.0 out.1

  abbrev pub after_drawn : CreateInput → Result UserError User → App User
  after_drawn i (ok u) = kept u
  after_drawn i (err e) = existing_by_email i.email e

  -- The INSERT without an id, which the database draws.
  abbrev pub insert_drawn : CreateInput → App User
  insert_drawn i w =
      let out =
        label "query user"
          (statement pg λ n d. insert_row "email" (new_user (pg.new_id n) i (pg.now n)) d) w in
      after_drawn i out.0 out.1

  abbrev pub lift : {A : Type 0} → Result UserError A → App A
  lift r w = (r, w)

  -- `Create`
  unfoldable pub create : CreateInput → App User
  create raw = do input ← lift (validate_create unicode raw); insert_drawn input

  -- `CreateWithID`
  unfoldable pub create_with_id : String → CreateInput → App User
  create_with_id raw_id raw = do
    input ← lift (validate_create unicode raw)
    let id = trim_space raw_id
    fail_if (id == "") invalid_input
    insert_fixed id input

  -- An UPDATE of one live user.
  abbrev pub change :
      {A : Type 0}
      → Option String
      → (ℕ → User → User)
      → (User → A)
      → ℕ
      → UserDb
      → Result UserError A × UserDb
  change none f answer n d = (err (external bad_uuid), d)
  change (some id) f answer n d =
      affect (find_id id d.rows) (λ u. answer (f (pg.now n) u)) d
        (record d { rows = update_where (is_user id) (on_user (f (pg.now n))) d.rows })

  abbrev pub label_change : {A : Type 0} → String → String → (ℕ → User → User) → (User → A) → App A
  label_change msg id f answer = label msg (statement pg (change (env.uuid_text id) f answer))

  -- `Update`
  unfoldable pub update : String → UpdateInput → App User
  update raw_id raw = do
    let id = trim_space raw_id
    fail_if (id == "") invalid_input
    input ← lift (validate_update raw)
    current ← get_by_id id
    u ← label_change "query user" id (with_fields input current) (λ u. u)
    invalidate_cache u.id u.email
    to_cache u
    pure u

  -- `VerifyEmail`
  unfoldable pub verify_email : String → App (Unit {0})
  verify_email id = do
    label_change "verify email" (trim_space id) with_verified (λ u. tt)
    invalidate_cache_by_id id

  -- `Ban`; the admin's id is not used.
  unfoldable pub ban : String → String → String → App (Unit {0})
  ban id admin_id reason = do
    label_change "ban user" (trim_space id) (with_ban (trim_space reason)) (λ u. tt)
    invalidate_cache_by_id id

  abbrev pub mark_deleted : Option String → ℕ → UserDb → Result UserError String × UserDb
  mark_deleted none n d = (err (external bad_uuid), d)
  mark_deleted (some id) n d =
      affect (find_id id d.rows) (λ u. u.email) d
        (record d { rows = update_where (is_user id) (with_deleted (pg.now n)) d.rows })

  -- `Delete`
  unfoldable pub delete : String → App (Unit {0})
  delete id = do
    email ← label "delete user" (statement pg (mark_deleted (env.uuid_text (trim_space id))))
    invalidate_cache id email

  -- The rows of `user_stats` that the join takes.
  abbrev pub joined : UserDb → List StatsRow
  joined d = select (λ s. not (is_none (find_id s.user_id d.rows))) d.stats

  -- `GetStats`
  unfoldable pub get_stats : App UserStats
  get_stats = wrap "get user stats" (
      statement pg λ n d.
        let users = map (λ (r : Row). r.user) (select is_live d.rows) in
        let count : (User → Bool) → ℕ = λ p. count_where p users in
        (
          ok (record {
            total = count (λ u. true);
            active = count (λ u. u.is_active);
            banned = count (λ u. u.is_banned);
            employees = count (λ u. u.role == "employee");
            managers = count (λ u. u.role == "manager");
            admins = count (λ u. u.role == "admin");
            total_docs = sum_of (λ s. s.total_docs) (joined d);
            completed_docs = sum_of (λ s. s.completed_docs) (joined d);
            overdue_docs = sum_of (λ s. s.overdue_docs) (joined d);
            total_tasks = sum_of (λ s. s.total_tasks) (joined d);
          }),
          d,
        ))
