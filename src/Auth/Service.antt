-- ===== src/Auth/Service.antt =====
-- services/auth-service/internal/service/auth_service.go.
use docflow_web.Base.{
  ℕ, String, ◌+◌, ◌/◌, Bool, not, ◌||◌, ◌==◌, ◌⊎◌, inl, inr, Option, none, some, ◌∷◌, if◌then◌else◌,
  ltb,
}
use docflow_web.Base.Unicode.{Unicode}
use docflow_web.Base.Paging.{ℤ}
use docflow_web.Base.Exec.{
  Result, ok, err, GoError, sentinel, external, wrapped, pure, raise, ignore, fail_if, cause, ◌>>=◌,
  ◌>>◌,
}
use docflow_web.Base.Postgres.{Postgres}
use docflow_web.Auth.Domain.{
  AuthError, user_not_found, invalid_input, unauthorized, token_expired, token_invalid,
  token_not_found, user_inactive, AuthUser, RegisterInput, validate_register, LoginInput,
  validate_login, password_valid,
}
use docflow_web.Auth.Repository
use docflow_web.Auth.Repository.{
  AuthWorld, App, Mail, verification, password_reset, UserCall, creation, verified,
}

pub record Claims : Type 0 where
  pub user_id : String
  pub email : String
  pub role : String
  pub expires_at : ℕ
  pub issued_at : ℕ
  pub id : String

pub record TokenPair : Type 0 where
  pub access_token : String
  pub refresh_token : String
  pub expires_in : ℕ
  pub user_id : String
  pub email : String
  pub role : String

pub record TokenClaims : Type 0 where
  pub user_id : String
  pub email : String
  pub role : String

pub record SessionInfo : Type 0 where
  pub user_id : String
  pub email : String
  pub role : String
  pub created_at : ℕ
  pub expires_at : ℕ

-- `jwt.ParseWithClaims` with a key for HMAC methods only.
pub data Parsed : Type 0 where
  valid : Claims → Parsed
  expired malformed : Parsed

-- What the service is built from. A client that is nil is `false`. Durations and times are in
-- nanoseconds; `clock` is `time.Now()` after so many calls of the servers, `uuid` the text of
-- `uuid.New()` for a token and `jti` that for the ID of the claims. Behind them stand sha256 in
-- hex, bcrypt, JWT with the configured secret and `encoding/json` on a session.
pub record AuthEnv : Type 0 where
  pub pg : Postgres
  pub has_cache : Bool
  pub has_notification : Bool
  pub has_users : Bool
  pub clock : ℕ → ℕ
  pub uuid : ℕ → String
  pub jti : ℕ → String
  pub access_ttl : ℕ
  pub refresh_ttl : ℕ
  pub verification_ttl : ℕ
  pub reset_ttl : ℕ
  pub unicode : Unicode
  pub digest : String → String
  pub generate : ℕ → String → String ⊎ String
  pub compare : String → String → Bool
  pub sign : Claims → String ⊎ String
  pub parse : ℕ → String → Parsed
  pub encode : SessionInfo → String
  pub decode : String → Option SessionInfo

abbrev pub lift : {A : Type 0} → Result AuthError A → App A
lift r w = (r, w)

-- `if errors.Is(err, s) { return t }`, where the function gives `t` at `s`
abbrev pub chosen : (AuthError → Option AuthError) → Option AuthError → Option AuthError
chosen f none = none
chosen f (some s) = f s

abbrev pub replaced : {A : Type 0} → GoError AuthError → Option AuthError → Result AuthError A
replaced e none = err e
replaced e (some s) = err (sentinel s)

abbrev pub translate :
    {A : Type 0} → (AuthError → Option AuthError) → Result AuthError A → Result AuthError A
translate f (ok a) = ok a
translate f (err e) = replaced e (chosen f (cause e))

unfoldable pub translated : {A : Type 0} → (AuthError → Option AuthError) → App A → App A
translated f m w = (translate f (m w).0, (m w).1)

abbrev pub hide_missing_user : AuthError → Option AuthError
hide_missing_user user_not_found = some unauthorized
hide_missing_user e = none

abbrev pub hide_missing_token : AuthError → Option AuthError
hide_missing_token token_not_found = some token_invalid
hide_missing_token e = none

-- A call of a library: its error has a text.
abbrev pub called : {A : Type 0} → String → String ⊎ A → App A
called msg (inl text) = raise (wrapped msg (external text))
called msg (inr a) = pure a

module _ (env : AuthEnv) where
  open env use {pg, unicode, digest, has_cache}

  -- `time.Now()`
  abbrev pub read_clock : App ℕ
  read_clock w = (ok (env.clock w.calls), w)

  abbrev pub new_uuid : App String
  new_uuid w = (ok (env.uuid w.calls), w)

  abbrev pub new_jti : App String
  new_jti w = (ok (env.jti w.calls), w)

  abbrev pub hash_password : String → App String
  hash_password password w = called "hash password" (env.generate w.calls password) w

  abbrev pub send_mail : Mail → App (Unit {0})
  send_mail m w =
      if env.has_notification
      then (ok tt, record w { out = record (w.out) { mails = m ∷ w.out.mails } })
      else (ok tt, w)

  abbrev pub call_users : UserCall → App (Unit {0})
  call_users c w =
      if env.has_users
      then (ok tt, record w { out = record (w.out) { user_calls = c ∷ w.out.user_calls } })
      else (ok tt, w)

  unfoldable pub register : RegisterInput → App String
  register raw = do
    m ← lift (validate_register unicode raw)
    hash ← hash_password m.password
    user_id ← Repository.create_user pg unicode digest m.email hash m.role
    token ← new_uuid
    ignore (
        Repository.store_verification_token pg unicode digest has_cache user_id token
          env.verification_ttl)
    send_mail (verification user_id m.email m.name token)
    call_users (creation m.email m.name m.role)
    pure user_id

  abbrev pub claims : AuthUser → ℕ → ℕ → String → Claims
  claims user expires_at issued_at id = record {
    user_id = user.id;
    email = user.email;
    role = user.role;
    expires_at = expires_at;
    issued_at = issued_at;
    id = id;
  }

  -- `issueTokenPair`
  unfoldable pub issue_token_pair : AuthUser → App TokenPair
  issue_token_pair user = do
    now ← read_clock
    jti ← new_jti
    access ← called "sign access token" (env.sign (claims user (now + env.access_ttl) now jti))
    refresh ← new_uuid
    Repository.create_refresh_token pg unicode digest user.id refresh (now + env.refresh_ttl)
    pure (record {
      access_token = access;
      refresh_token = refresh;
      expires_in = env.access_ttl / 1000000000;
      user_id = user.id;
      email = user.email;
      role = user.role;
    })

  abbrev pub session : AuthUser → ℕ → ℕ → SessionInfo
  session user created_at now = record {
    user_id = user.id;
    email = user.email;
    role = user.role;
    created_at = created_at;
    expires_at = now + env.access_ttl;
  }

  unfoldable pub login : LoginInput → App TokenPair
  login raw = do
    m ← lift (validate_login unicode raw)
    user ← translated hide_missing_user (Repository.get_user_by_email pg unicode digest m.email)
    fail_if (not user.is_active) user_inactive
    fail_if (not (env.compare user.password_hash m.password)) unauthorized
    pair ← issue_token_pair user
    now ← read_clock
    ignore (
        Repository.store_session pg unicode digest has_cache user.id
          (env.encode (session user now now)) env.access_ttl)
    pure pair

  -- The end of `RefreshToken`, behind the revocation.
  abbrev pub reissue : String → App TokenPair
  reissue user_id = do
    user ← Repository.get_user_by_id pg unicode digest user_id
    fail_if (not user.is_active) user_inactive
    issue_token_pair user

  unfoldable pub refresh_token : String → App TokenPair
  refresh_token token = do
    fail_if (token == "") token_invalid
    (user_id, expires_at) ← Repository.find_refresh_token pg unicode digest token
    now ← read_clock
    fail_if (ltb expires_at now) token_expired
    Repository.revoke_refresh_token pg unicode digest token
    reissue user_id

  abbrev pub drop_session : String → App (Unit {0})
  drop_session user_id = ignore (Repository.delete_session pg unicode digest has_cache user_id)

  unfoldable pub logout : String → String → App (Unit {0})
  logout user_id token = do
    fail_if (token == "") token_invalid
    Repository.revoke_refresh_token pg unicode digest token
    if user_id == "" then pure tt else drop_session user_id

  abbrev pub checked : Parsed → Result AuthError TokenClaims
  checked (valid c) = ok (record { user_id = c.user_id; email = c.email; role = c.role })
  checked expired = err (sentinel token_expired)
  checked malformed = err (sentinel token_invalid)

  unfoldable pub validate_token : String → App TokenClaims
  validate_token token w = (checked (env.parse (env.clock w.calls) token), w)

  unfoldable pub verify_email : String → App (Unit {0})
  verify_email token = do
    fail_if (token == "") invalid_input
    user_id ←
        translated hide_missing_token
          (Repository.get_verification_token pg unicode digest has_cache token)
    Repository.mark_verified pg unicode digest user_id
    ignore (Repository.delete_verification_token pg unicode digest has_cache token)
    call_users (verified user_id)

  -- What `ForgotPassword` does for a user that is there.
  abbrev pub send_reset : AuthUser → App (Unit {0})
  send_reset user = do
    token ← new_uuid
    Repository.store_password_reset_token pg unicode digest has_cache user.id token env.reset_ttl
    send_mail (password_reset user.id user.email token)

  abbrev pub forgiven : GoError AuthError → Option AuthError → App (Unit {0})
  forgiven e (some user_not_found) = pure tt
  forgiven e o = raise e

  abbrev pub forgot_found : Result AuthError AuthUser → App (Unit {0})
  forgot_found (ok user) = send_reset user
  forgot_found (err e) = forgiven e (cause e)

  abbrev pub forgot_known : String → App (Unit {0})
  forgot_known email w =
      let out = Repository.get_user_by_email pg unicode digest email w in forgot_found out.0 out.1

  unfoldable pub forgot_password : String → App (Unit {0})
  forgot_password email = fail_if (email == "") invalid_input >> forgot_known email

  -- The new password is hashed as it was typed: only its check trims it.
  abbrev pub replace_password : String → String → App (Unit {0})
  replace_password user_id password = do
    hash ← hash_password password
    Repository.update_password pg unicode digest user_id hash

  abbrev pub end_sessions : String → App (Unit {0})
  end_sessions user_id =
      ignore (Repository.revoke_all_refresh_tokens pg unicode digest user_id)
      >> drop_session user_id

  unfoldable pub reset_password : String → String → App (Unit {0})
  reset_password token password = do
    fail_if (token == "" || password == "") invalid_input
    fail_if (not (password_valid unicode password)) invalid_input
    user_id ←
        translated hide_missing_token
          (Repository.get_password_reset_token pg unicode digest has_cache token)
    replace_password user_id password
    ignore (Repository.delete_password_reset_token pg unicode digest has_cache token)
    end_sessions user_id

  unfoldable pub change_password : String → String → String → App (Unit {0})
  change_password user_id old new = do
    fail_if (user_id == "" || old == "" || new == "") invalid_input
    fail_if (not (password_valid unicode new)) invalid_input
    user ← Repository.get_user_by_id pg unicode digest user_id
    fail_if (not (env.compare user.password_hash old)) unauthorized
    replace_password user_id new
    end_sessions user_id

  -- The session of the answer, unless the cache has one that can be read.
  abbrev pub session_of_user : String → App SessionInfo
  session_of_user user_id = do
    user ← Repository.get_user_by_id pg unicode digest user_id
    now ← read_clock
    pure (session user user.created_at now)

  abbrev pub session_or : Option SessionInfo → String → App SessionInfo
  session_or (some s) user_id = pure s
  session_or none user_id = session_of_user user_id

  abbrev pub decoded : Result AuthError String → Option SessionInfo
  decoded (ok raw) = env.decode raw
  decoded (err e) = none

  abbrev pub cached_session : String → App SessionInfo
  cached_session user_id w =
      let out = Repository.get_session pg unicode digest has_cache user_id w in
      session_or (decoded out.0) user_id out.1

  unfoldable pub get_session : String → App SessionInfo
  get_session user_id = fail_if (user_id == "") invalid_input >> cached_session user_id

  unfoldable pub revoke_all_sessions : String → App ℤ
  revoke_all_sessions user_id = do
    fail_if (user_id == "") invalid_input
    count ← Repository.revoke_all_refresh_tokens pg unicode digest user_id
    drop_session user_id
    pure count
