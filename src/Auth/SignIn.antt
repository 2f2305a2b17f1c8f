-- ===== src/Auth/SignIn.antt =====
-- Who has registered can sign in.
use docflow_web.Base.{
  ℕ, suc, ◌+◌, ◌/◌, String, ◌≡◌, refl, sym, ap, ◌∙◌, true, none, some, List, ◌∷◌, arith, eq_iff,
  inr,
}
use mathlib.Core.Path.{subst}
use docflow_web.Base.Text.{trim_space}
use docflow_web.Base.Unicode.{Unicode}
use docflow_web.Base.Exec.{program, Result, ok, ignore, ◌>>=◌, bind_runs, passes, pure, pure_runs}
use docflow_web.Base.Postgres.{Postgres, statement}
use docflow_web.Base.Table.{find, find-cons}
use docflow_web.Auth.Domain.{
  AuthError, AuthUser, RefreshToken, RegisterInput, LoginInput, validate_register, validate_login,
  is_role, user_inactive, unauthorized,
}
use docflow_web.Auth.Repository
use docflow_web.Auth.Repository.{
  AuthDb, AuthWorld, App, user_key, email_of, hash_of, new_user, new_token, normalize_email,
}
use docflow_web.Auth.Redeem.{IsOpen}
use docflow_web.Auth.Service
use docflow_web.Auth.Service.{AuthEnv, TokenPair, Claims, translated}

abbrev pub as_login : RegisterInput → LoginInput
as_login i = record { email = i.email; password = i.password }

lift-runs :
    {A : Type 0} (r : Result AuthError A) (w : AuthWorld) {a : A}
    → r ≡ ok a
    → Service.lift r w ≡ (ok a, w)
lift-runs r w e = rw e refl

validated :
    (u : Unicode) (i : RegisterInput) {m : RegisterInput}
    → validate_register u i ≡ ok m
    → (validate_login u (as_login i) ≡ ok (as_login m)) × (is_role m.role ≡ true)
unfolding validate_register validate_login
validated u i e = ground arith

module _ (pg : Postgres) (u : Unicode) (digest : String → String) where
  create_user-runs :
      (email hash role : String) (w : AuthWorld)
      → pg.fault w.calls ≡ none
      → is_role role ≡ true
      → find user_key (pg.new_id w.calls) w.db.users ≡ none
      → find email_of (normalize_email pg u digest email) w.db.users ≡ none
      → Repository.create_user pg u digest email hash role w ≡ (
        ok (pg.new_id w.calls),
        record w {
          calls = suc w.calls;
          db = record (w.db) { users = new_user pg u digest w.calls email hash role ∷ w.db.users };
        },
      )
  unfolding Repository.create_user statement
  create_user-runs email hash role w up known fresh free =
      rw (up, statement, known, fresh, free) refl

  get_user_by_email-runs :
      (email : String) (w : AuthWorld) {user : AuthUser}
      → pg.fault w.calls ≡ none
      → find email_of (normalize_email pg u digest email) w.db.users ≡ some user
      → translated Service.hide_missing_user (Repository.get_user_by_email pg u digest email) w
        ≡ (ok user, record w { calls = suc w.calls })
  unfolding Repository.get_user_by_email program statement translated
  get_user_by_email-runs email w up known = ground arith

  create_refresh_token-runs :
      (user_id token : String) (at : ℕ) (w : AuthWorld) {user : AuthUser}
      → pg.fault w.calls ≡ none
      → find user_key (trim_space user_id) w.db.users ≡ some user
      → find hash_of (digest token) w.db.tokens ≡ none
      → Repository.create_refresh_token pg u digest user_id token at w ≡ (
        ok tt,
        record w {
          calls = suc w.calls;
          db = record (w.db) {
            tokens = new_token pg u digest w.calls user_id token at ∷ w.db.tokens;
          };
        },
      )
  unfolding Repository.create_refresh_token program statement
  create_refresh_token-runs user_id token at w up known fresh = ground arith

module _ (env : AuthEnv) (up : (n : ℕ) → env.pg.fault n ≡ none) where
  open env use {pg, unicode, digest, has_cache}

  -- The end of `Register` never fails, and leaves the users and the tokens alone.
  telling :
      (id token : String) (m : RegisterInput) (w : AuthWorld)
      → let out =
          (ignore (
                Repository.store_verification_token pg unicode digest has_cache id token
                  env.verification_ttl)
              >>= λ _.
                  Service.send_mail env (Repository.verification id m.email m.name token) >>= λ _.
                  Service.call_users env (Repository.creation m.email m.name m.role) >>= λ _.
                  pure id)
            w in
        (out.0 ≡ ok id) × (out.1.db.users ≡ w.db.users) × (out.1.db.tokens ≡ w.db.tokens)
  unfolding program statement Repository.store_verification_token
  telling id token m w = (ground arith, ground (arith, up w.calls), ground (arith, up w.calls))

  -- That of `Login` does not fail either.
  keeping :
      (user : AuthUser) (pair : TokenPair) (w : AuthWorld)
      → let out =
          (Service.read_clock env >>= λ now.
          ignore (
            Repository.store_session pg unicode digest has_cache user.id
              (env.encode (Service.session env user now now))
              env.access_ttl)
          >>= λ _. pure pair)
            w in
        (out.0 ≡ ok pair) × (out.1.db.tokens ≡ w.db.tokens)
  unfolding program statement Repository.store_session
  keeping user pair w = (ground arith, ground (arith, up w.calls))

  module _ (jwt : Claims → String) (signs : (c : Claims) → env.sign c ≡ inr (jwt c)) where
    -- The pair that a user is given at this point.
    abbrev pub issued : AuthUser → AuthWorld → TokenPair
    issued user w =
        let now = env.clock w.calls in
        record {
          access_token = jwt (Service.claims env user (now + env.access_ttl) now (env.jti w.calls));
          refresh_token = env.uuid w.calls;
          expires_in = env.access_ttl / 1000000000;
          user_id = user.id;
          email = user.email;
          role = user.role;
        }

    issue_token_pair-runs :
        (user : AuthUser) (w : AuthWorld) {owner : AuthUser}
        → find user_key (trim_space user.id) w.db.users ≡ some owner
        → find hash_of (digest (env.uuid w.calls)) w.db.tokens ≡ none
        → Service.issue_token_pair env user w ≡ (
          ok (issued user w),
          record w {
            calls = suc w.calls;
            db = record (w.db) {
              tokens =
                  new_token pg unicode digest w.calls user.id
                    (env.uuid w.calls)
                    (env.clock w.calls + env.refresh_ttl)
                  ∷ w.db.tokens;
            };
          },
        )
    unfolding Service.issue_token_pair
    issue_token_pair-runs user w known fresh =
        bind_runs _ _ w w refl
        ∙ bind_runs _ _ w w refl
        ∙ bind_runs _ _ w w (rw (signs _) (pure_runs _ w))
        ∙ bind_runs _ _ w w refl
        ∙ bind_runs _ _ w _ (
            create_refresh_token-runs pg unicode digest user.id (env.uuid w.calls)
              (env.clock w.calls + env.refresh_ttl) w (up w.calls) known fresh)
        ∙ pure_runs _ _

    login-runs :
        (i : LoginInput) {m : LoginInput} (w : AuthWorld) {user owner : AuthUser}
        → validate_login unicode i ≡ ok m
        → find email_of (normalize_email pg unicode digest m.email) w.db.users ≡ some user
        → user.is_active ≡ true
        → env.compare user.password_hash m.password ≡ true
        → find user_key (trim_space user.id) w.db.users ≡ some owner
        → find hash_of (digest (env.uuid (suc w.calls))) w.db.tokens ≡ none
        → let out = Service.login env i w in
          let pair = issued user (record w { calls = suc w.calls }) in
          (out.0 ≡ ok pair) × IsOpen (digest pair.refresh_token) out.1.db.tokens
    unfolding Service.login
    login-runs i {m} w {user} valid known active right owned fresh =
        let w1 : AuthWorld = record w { calls = suc w.calls } in
        let pair = issued user w1 in
        let row =
          new_token pg unicode digest w1.calls user.id (env.uuid w1.calls)
            (env.clock w1.calls + env.refresh_ttl) in
        let w2 : AuthWorld = record w1 {
          calls = suc w1.calls;
          db = record (w1.db) { tokens = row ∷ w1.db.tokens };
        } in
        let ran =
          bind_runs _ _ w w (lift-runs _ w valid)
          ∙ bind_runs _ _ w w1
              (get_user_by_email-runs pg unicode digest m.email w (up w.calls) known)
          ∙ passes _ user_inactive _ w1 (rw active refl)
          ∙ passes _ unauthorized _ w1 (rw right refl)
          ∙ bind_runs _ _ w1 w2 (issue_token_pair-runs user w1 owned fresh) in
        let (done, same) = keeping user pair w2 in
        (
          ap (λ (o : Result AuthError TokenPair × AuthWorld). o.0) ran ∙ done,
          record {
            row = row;
            known =
                subst (λ ts. find hash_of (digest pair.refresh_token) ts ≡ some row)
                  (sym
                    (ap (λ (o : Result AuthError TokenPair × AuthWorld). o.1.db.tokens) ran ∙ same))
                  (here row w1.db.tokens);
            opened = refl;
          },
        )
      where
        here :
            (row : RefreshToken) (ts : List RefreshToken)
            → find hash_of row.token_hash (row ∷ ts) ≡ some row
        here row ts =
            rw (find-cons hash_of row.token_hash row ts, (eq_iff row.token_hash _).1 refl) refl

    register-runs :
        (i : RegisterInput) {m : RegisterInput} (w : AuthWorld) (hash : String)
        → ((n : ℕ) → env.generate n m.password ≡ inr hash)
        → validate_register unicode i ≡ ok m
        → find user_key (pg.new_id w.calls) w.db.users ≡ none
        → find email_of (normalize_email pg unicode digest m.email) w.db.users ≡ none
        → let out = Service.register env i w in
          (out.0 ≡ ok (pg.new_id w.calls))
          × (out.1.db.users ≡ new_user pg unicode digest w.calls m.email hash m.role ∷ w.db.users)
          × (out.1.db.tokens ≡ w.db.tokens)
    unfolding Service.register
    register-runs i {m} w hash gen valid fresh free =
        let (_, known) = validated unicode i valid in
        let w1 : AuthWorld = record w {
          calls = suc w.calls;
          db = record (w.db) {
            users = new_user pg unicode digest w.calls m.email hash m.role ∷ w.db.users;
          };
        } in
        let ran =
          bind_runs _ _ w w (lift-runs _ w valid)
          ∙ bind_runs _ _ w w (rw (gen w.calls) (pure_runs hash w))
          ∙ bind_runs _ _ w w1 (
              create_user-runs pg unicode digest m.email hash m.role w (up w.calls) known fresh
                free)
          ∙ bind_runs _ _ w1 w1 refl in
        let (done, users, tokens) = telling (pg.new_id w.calls) (env.uuid w1.calls) m w1 in
        (
          ap (λ (o : Result AuthError String × AuthWorld). o.0) ran ∙ done,
          ap (λ (o : Result AuthError String × AuthWorld). o.1.db.users) ran ∙ users,
          ap (λ (o : Result AuthError String × AuthWorld). o.1.db.tokens) ran ∙ tokens,
        )

    -- Where no call of a server fails: who registers with valid details, an address that is free and
    -- a password that bcrypt can hash is given the new id, and a sign-in with the same address and
    -- password is then answered with a pair for that id, the registered role and a refresh token
    -- that is known and open. The ids and tokens that are drawn have to be new, and the id without
    -- spaces round it.
    pub register-login :
        (i : RegisterInput) {m : RegisterInput} (w : AuthWorld) (hash : String)
        → ((n : ℕ) → env.generate n m.password ≡ inr hash)
        → env.compare hash m.password ≡ true
        → validate_register unicode i ≡ ok m
        → find user_key (pg.new_id w.calls) w.db.users ≡ none
        → trim_space (pg.new_id w.calls) ≡ pg.new_id w.calls
        → find email_of (normalize_email pg unicode digest m.email) w.db.users ≡ none
        → ((n : ℕ) → find hash_of (digest (env.uuid n)) w.db.tokens ≡ none)
        → let joined = Service.register env i w in
          let out = Service.login env (as_login i) joined.1 in
          (joined.0 ≡ ok (pg.new_id w.calls))
          × (pair : TokenPair) × (out.0 ≡ ok pair)
          × (pair.user_id ≡ pg.new_id w.calls)
          × (pair.role ≡ m.role)
          × IsOpen (digest pair.refresh_token) out.1.db.tokens
    register-login i {m} w hash gen right valid fresh trimmed free unused =
        let (done, users, tokens) = register-runs i w hash gen valid fresh free in
        let w' = (Service.register env i w).1 in
        let user = new_user pg unicode digest w.calls m.email hash m.role in
        let (valid', _) = validated unicode i valid in
        let (answer, open_row) =
          login-runs (as_login i) w' {user = user} {owner = user} valid'
            (subst (λ rs. find email_of user.email rs ≡ some user) (sym users)
              (first email_of user w.db.users))
            refl right
            (subst (λ rs. find user_key (trim_space user.id) rs ≡ some user) (sym users)
              (subst (λ k. find user_key k (user ∷ w.db.users) ≡ some user) (sym trimmed)
                (first user_key user w.db.users)))
            (subst (λ ts. find hash_of (digest (env.uuid (suc w'.calls))) ts ≡ none) (sym tokens)
              (unused (suc w'.calls))) in
        (done, issued user (record w' { calls = suc w'.calls }), answer, refl, refl, open_row)
      where
        first :
            (key : AuthUser → String) (r : AuthUser) (rs : List AuthUser)
            → find key (key r) (r ∷ rs) ≡ some r
        first key r rs = rw (find-cons key (key r) r rs, (eq_iff (key r) _).1 refl) refl
