-- ===== src/Auth/Repository.antt =====
-- services/auth-service/internal/repository/auth_repository.go, over the tables of
-- postgres/001_auth_init.sql and a Redis database. The two servers are one record of functions: the
-- calls of both are numbered together, and each may fail.
use docflow_web.Base.{
  ℕ, String, ◌-◌, Bool, true, false, ◌&&◌, not, ◌==◌, Option, none, some, List, ◌∷◌, if◌then◌else◌,
  length, ltb,
}
use Prim.Native.String
use Prim.Native.Nat.{◌%◌}
use docflow_web.Base.Paging.{ℤ, pos, negsuc}
use docflow_web.Base.Text.{trim_space}
use docflow_web.Base.Unicode.{Unicode, to_lower, contains}
use docflow_web.Base.Exec.{
  Exec, Result, ok, err, sentinel, external, wrapped, label, wrap, pure, fail_if, raise, ◌>>=◌,
  ◌>>◌,
}
use docflow_web.Base.Postgres.{Postgres, World, statement}
use docflow_web.Base.Table.{select, update_where, find, is_key}
use docflow_web.Base.Redis.{Cache, get, del, set}
use docflow_web.Auth.Domain.{
  AuthError, user_not_found, email_taken, unauthorized, token_not_found, is_role, AuthUser,
  RefreshToken,
}

pub record AuthDb : Type 0 where
  pub users : List AuthUser
  pub tokens : List RefreshToken
  pub cache : Cache

-- What is sent to the notification service and to the user service.
pub data Mail : Type 0 where
  verification : String → String → String → String → Mail
  password_reset : String → String → String → Mail

pub data UserCall : Type 0 where
  creation : String → String → String → UserCall
  verified : String → UserCall

pub record Outbox : Type 0 where
  pub mails : List Mail
  pub user_calls : List UserCall

abbrev pub AuthWorld : Type 0
AuthWorld = World AuthDb Outbox

abbrev pub App : Type 0 → Type 0
App A = Exec AuthError AuthWorld A

abbrev pub user_key : AuthUser → String
user_key r = r.id

abbrev pub email_of : AuthUser → String
email_of r = r.email

abbrev pub hash_of : RefreshToken → String
hash_of r = r.token_hash

infixr 65 ◌<>◌
abbrev pub ◌<>◌ : String → String → String
a <> b = String.◌++◌ a b

abbrev pub is_none {ℓ} : {A : Type ℓ} → Option A → Bool
is_none none = true
is_none (some _) = false

-- `revoked_at IS NULL`
abbrev pub is_open : RefreshToken → Bool
is_open t = is_none t.revoked_at

-- The rows of `RevokeAllRefreshTokens`
abbrev pub is_open_of : String → RefreshToken → Bool
is_open_of user_id t = t.user_id == trim_space user_id && is_open t

abbrev pub session_key : String → String
session_key user_id = "auth:session:" <> user_id

abbrev pub with_revoked : ℕ → RefreshToken → RefreshToken
with_revoked now t = record t { revoked_at = some now }

abbrev pub with_verified : ℕ → AuthUser → AuthUser
with_verified now r = record r { is_verified = true; updated_at = now }

abbrev pub with_password : String → ℕ → AuthUser → AuthUser
with_password hash now r = record r { password_hash = hash; updated_at = now }

abbrev pub with_active : Bool → ℕ → AuthUser → AuthUser
with_active active now r = record r { is_active = active; updated_at = now }

-- The constraints of `auth_users`.
abbrev pub insert_user : AuthUser → AuthDb → Result AuthError String × AuthDb
insert_user row d =
    if not (is_role row.role)
    then (err (external "new row violates check constraint"), d)
    else if is_none (find user_key row.id d.users) && is_none (find email_of row.email d.users)
    then (ok row.id, record d { users = row ∷ d.users })
    else (err (external "duplicate key value violates unique constraint"), d)

-- Those of `refresh_tokens`.
abbrev pub insert_token : RefreshToken → AuthDb → Result AuthError (Unit {0}) × AuthDb
insert_token row d =
    if is_none (find user_key row.user_id d.users)
    then (err (external "violates foreign key constraint"), d)
    else if is_none (find hash_of row.token_hash d.tokens)
    then (ok tt, record d { tokens = row ∷ d.tokens })
    else (err (external "duplicate key value violates unique constraint"), d)

-- The error when no row is affected.
abbrev pub affect : {R : Type 0} → Option R → AuthDb → AuthDb → Result AuthError (Unit {0}) × AuthDb
affect none d d' = (err (sentinel user_not_found), d)
affect (some _) d d' = (ok tt, d')

abbrev pub found : {R : Type 0} → AuthError → Option R → Result AuthError R
found e none = err (sentinel e)
found e (some r) = ok r

-- The conversion `int32(n)`
abbrev pub to_int32 : ℕ → ℤ
to_int32 n = let r = n % 4294967296 in if ltb r 2147483648 then pos r else negsuc (4294967295 - r)

module _ (pg : Postgres) (u : Unicode) (digest : String → String) where
  abbrev pub normalize_email : String → String
  normalize_email email = to_lower u (trim_space email)

  -- `CreateUser` of the answer: `isUniqueViolation` looks into the text.
  abbrev pub create_answer : Result AuthError String → Result AuthError String
  create_answer (ok id) = ok id
  create_answer (err (external text)) =
      if contains "unique" (to_lower u text)
      then err (sentinel email_taken)
      else err (wrapped "create user" (external text))
  create_answer (err e) = err (wrapped "create user" e)

  abbrev pub new_user : ℕ → String → String → String → AuthUser
  new_user n email password_hash role = record {
    id = pg.new_id n;
    email = normalize_email email;
    password_hash = password_hash;
    role = role;
    is_active = true;
    is_verified = false;
    created_at = pg.now n;
    updated_at = pg.now n;
  }

  -- `CreateUser`
  unfoldable pub create_user : String → String → String → App String
  create_user email password_hash role w =
      let out = statement pg (λ n d. insert_user (new_user n email password_hash role) d) w in
      (create_answer out.0, out.1)

  unfoldable pub get_user_by_email : String → App AuthUser
  get_user_by_email email = label "get user by email" (
      statement pg λ n d. (found user_not_found (find email_of (normalize_email email) d.users), d))

  unfoldable pub get_user_by_id : String → App AuthUser
  get_user_by_id id =
      label "get user by id"
        (statement pg λ n d. (found user_not_found (find user_key (trim_space id) d.users), d))

  -- An UPDATE of one user.
  abbrev pub update_user : String → String → (ℕ → AuthUser → AuthUser) → App (Unit {0})
  update_user msg id f = label msg (
      statement pg λ n d. affect (find user_key (trim_space id) d.users) d (record d {
        users = update_where (is_key user_key (trim_space id)) (f (pg.now n)) d.users;
      }))

  unfoldable pub mark_verified : String → App (Unit {0})
  mark_verified id = update_user "mark verified" id with_verified

  unfoldable pub update_password : String → String → App (Unit {0})
  update_password id hash = update_user "update password" id (with_password hash)

  unfoldable pub set_active : String → Bool → App (Unit {0})
  set_active id active = update_user "set active" id (with_active active)

  abbrev pub new_token : ℕ → String → String → ℕ → RefreshToken
  new_token n user_id token expires_at = record {
    id = pg.new_id n;
    user_id = trim_space user_id;
    token_hash = digest token;
    expires_at = expires_at;
    revoked_at = none;
    created_at = pg.now n;
  }

  -- `CreateRefreshToken`
  unfoldable pub create_refresh_token : String → String → ℕ → App (Unit {0})
  create_refresh_token user_id token expires_at =
      wrap "create refresh token"
        (statement pg λ n d. insert_token (new_token n user_id token expires_at) d)

  -- `FindRefreshToken`, but for the `true` that it returns
  unfoldable pub find_refresh_token : String → App (String × ℕ)
  find_refresh_token token = do
    row ←
        label "find refresh token"
          (statement pg λ n d. (found token_not_found (find hash_of (digest token) d.tokens), d))
    fail_if (not (is_open row)) unauthorized
    pure (row.user_id, row.expires_at)

  unfoldable pub revoke_refresh_token : String → App (Unit {0})
  revoke_refresh_token token = wrap "revoke refresh token" (
      statement pg λ n d. (
        ok tt,
        record d {
          tokens =
              update_where (λ t. t.token_hash == digest token && is_open t)
                (with_revoked (pg.now n)) d.tokens;
        },
      ))

  unfoldable pub revoke_all_refresh_tokens : String → App ℤ
  revoke_all_refresh_tokens user_id = wrap "revoke all refresh tokens" (
      statement pg λ n d. (
        ok (to_int32 (length (select (is_open_of user_id) d.tokens))),
        record d { tokens = update_where (is_open_of user_id) (with_revoked (pg.now n)) d.tokens },
      ))

  module _ (has_cache : Bool) where
    -- A command that changes the cache; without one nothing is done.
    abbrev pub command : (ℕ → Cache → Cache) → App (Unit {0})
    command f =
        if has_cache
        then statement pg (λ n d. (ok tt, record d { cache = f n d.cache }))
        else pure tt

    -- A `Get`, with the message that its error is given.
    abbrev pub lookup_key : String → String → App String
    lookup_key msg key =
        if has_cache
        then label msg (statement pg λ n d. (found token_not_found (get (pg.now n) key d.cache), d))
        else raise (sentinel token_not_found)

    -- `storeTempToken`: `until` is `time.Until(expiresAt)`
    abbrev pub store_temp_token : String → String → ℕ → App (Unit {0})
    store_temp_token key value until = command λ n m. set (pg.now n) until key value m

    abbrev pub get_temp_token : String → App String
    get_temp_token key = lookup_key "get temp token" key

    abbrev pub delete_temp_token : String → App (Unit {0})
    delete_temp_token key = command λ n m. del key m

    unfoldable pub store_verification_token : String → String → ℕ → App (Unit {0})
    store_verification_token user_id token until =
        store_temp_token ("verify:" <> token) user_id until

    unfoldable pub get_verification_token : String → App String
    get_verification_token token = get_temp_token ("verify:" <> token)

    unfoldable pub delete_verification_token : String → App (Unit {0})
    delete_verification_token token = delete_temp_token ("verify:" <> token)

    unfoldable pub store_password_reset_token : String → String → ℕ → App (Unit {0})
    store_password_reset_token user_id token until =
        store_temp_token ("reset:" <> token) user_id until

    unfoldable pub get_password_reset_token : String → App String
    get_password_reset_token token = get_temp_token ("reset:" <> token)

    unfoldable pub delete_password_reset_token : String → App (Unit {0})
    delete_password_reset_token token = delete_temp_token ("reset:" <> token)

    unfoldable pub store_session : String → String → ℕ → App (Unit {0})
    store_session user_id json ttl = command λ n m. set (pg.now n) ttl (session_key user_id) json m

    unfoldable pub get_session : String → App String
    get_session user_id = lookup_key "get session" (session_key user_id)

    unfoldable pub delete_session : String → App (Unit {0})
    delete_session user_id = command λ n m. del (session_key user_id) m
