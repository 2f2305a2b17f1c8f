-- ===== src/Auth/Login.antt =====
-- Who is signed in, and what the answers of the service give away.
use docflow_web.Base.{ℕ, suc, String, ◌≡◌, sym, Bool, true, false, not, ◌==◌, none, some, arith}
use mathlib.Core.Path.{subst}
use docflow_web.Base.Exec.{program, ok, returned, passed, pure}
use docflow_web.Base.Postgres.{statement}
use docflow_web.Base.Table.{find}
use docflow_web.Auth.Domain.{AuthUser, LoginInput, normal_login, validate_login}
use docflow_web.Auth.Repository
use docflow_web.Auth.Repository.{AuthDb, AuthWorld, App, email_of, normalize_email}
use docflow_web.Auth.Service
use docflow_web.Auth.Service.{AuthEnv, TokenPair, translate, translated, replaced}

of_not : (b : Bool) → not b ≡ false → b ≡ true
of_not b h = ground arith

module _ (env : AuthEnv) where
  open env use {pg, unicode, digest}

  -- The user that a pair is for.
  pub record IsFor (i : LoginInput) (pair : TokenPair) (w : AuthWorld) : Type 0 where
    pub user : AuthUser
    pub known :
        find email_of (normalize_email pg unicode digest (normal_login unicode i).email) w.db.users
        ≡ some user
    pub active : user.is_active ≡ true
    pub right : env.compare user.password_hash (normal_login unicode i).password ≡ true
    pub id : pair.user_id ≡ user.id
    pub role : pair.role ≡ user.role

  checked :
      (i : LoginInput) {m : LoginInput}
      → validate_login unicode i ≡ ok m
      → normal_login unicode i ≡ m
  unfolding validate_login
  checked i e = ground arith

  found_user :
      (email : String) (w : AuthWorld) {user : AuthUser}
      → (translated Service.hide_missing_user
          (Repository.get_user_by_email pg unicode digest email)
          w).0
        ≡ ok user
      → find email_of (normalize_email pg unicode digest email) w.db.users ≡ some user
  unfolding translated Repository.get_user_by_email program statement
  found_user email w e = ground arith

  issued_for :
      (user : AuthUser) (w : AuthWorld) {pair : TokenPair}
      → (Service.issue_token_pair env user w).0 ≡ ok pair
      → (pair.user_id ≡ user.id) × (pair.role ≡ user.role)
  unfolding Service.issue_token_pair pure
  issued_for user w e =
      let now = returned _ _ w e in
      let jti = returned _ _ _ now.second in
      let access = returned _ _ _ jti.second in
      let fresh = returned _ _ _ access.second in
      let stored = returned _ _ _ fresh.second in let answer = stored.second in (cc, cc)

  -- A sign-in that is answered with a pair was made with the address and the password of a user who
  -- is active, both in the normal form of the check; the pair is for that user and role.
  pub login-IsFor :
      (i : LoginInput) (w : AuthWorld) {pair : TokenPair}
      → (Service.login env i w).0 ≡ ok pair
      → IsFor i pair w
  unfolding Service.login pure
  login-IsFor i w {pair} e =
      let input = returned _ _ w e in
      let same = checked i input.first in
      let user = returned _ _ w input.second in
      let (active, h, _) = passed _ _ _ _ user.second in
      let (right, k, _) = passed _ _ _ _ h in
      let issued = returned _ _ _ k in
      let now = returned _ _ _ issued.second in
      let kept = returned _ _ _ now.second in
      let answer : issued.value ≡ pair = cc (kept.second) in
      let (id, role) = issued_for user.value _ issued.first in
      record {
        user = user.value;
        known =
            subst
              (λ (m : LoginInput).
                find email_of (normalize_email pg unicode digest m.email) w.db.users
                ≡ some user.value)
              (sym same) (found_user input.value.email w user.first);
        active = of_not _ active;
        right =
            subst (λ (m : LoginInput). env.compare user.value.password_hash m.password ≡ true)
              (sym same) (of_not _ right);
        id = subst (λ (p : TokenPair). p.user_id ≡ user.value.id) answer id;
        role = subst (λ (p : TokenPair). p.role ≡ user.value.role) answer role;
      }

  -- Where no call of a server fails, `ForgotPassword` answers every address that is not empty in
  -- the same way, whether or not there is such a user; and where there is none, nothing is stored
  -- and nothing is sent.
  pub forgot_password-silent :
      (email : String) (w : AuthWorld)
      → ((n : ℕ) → pg.fault n ≡ none)
      → (email == "") ≡ false
      → ((Service.forgot_password env email w).0 ≡ ok tt)
        × (find email_of (normalize_email pg unicode digest email) w.db.users ≡ none
            → ((Service.forgot_password env email w).1.db ≡ w.db)
              × ((Service.forgot_password env email w).1.out ≡ w.out))
  unfolding Service.forgot_password program statement Repository.get_user_by_email
      Repository.store_password_reset_token
  forgot_password-silent email w up given = (
    ground (arith, up w.calls, up (suc w.calls)),
    λ missing. (ground (arith, up w.calls), ground (arith, up w.calls)),
  )
