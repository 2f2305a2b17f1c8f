-- ===== src/Auth/Passwords.antt =====
-- What a changed password puts an end to.
use docflow_web.Base.{suc, String, ◌≡◌, Bool, false, none, some, List, arith, All}
use docflow_web.Base.Text.{trim_space}
use docflow_web.Base.Unicode.{Unicode}
use docflow_web.Base.Redis.{del}
use docflow_web.Base.Exec.{program, ok}
use docflow_web.Base.Postgres.{Postgres, statement}
use docflow_web.Base.Table.{update_where, find, is_key}
use docflow_web.Auth.Domain.{AuthUser, RefreshToken}
use docflow_web.Auth.Repository
use docflow_web.Auth.Repository.{
  AuthDb, AuthWorld, App, user_key, is_open, is_open_of, with_revoked, session_key,
}
use docflow_web.Auth.Service

-- No token of this user is open.
abbrev pub Ended : String → List RefreshToken → Type 0
Ended user_id tokens = All (λ t. t.user_id ≡ user_id → is_open t ≡ false) tokens

keep {ℓ} :
    (p : RefreshToken → Bool) (P : RefreshToken → Type ℓ)
    → ((r : RefreshToken) → p r ≡ false → P r)
    → (rs : List RefreshToken) → All (λ r. p r ≡ false → P r) rs
keep p P h List.[] = tt
keep p P h (List.◌∷◌ r rs) = (h r, keep p P h rs)

module _ (pg : Postgres) (u : Unicode) (digest : String → String) where
  pub get_user_by_id-runs :
      (id : String) (w : AuthWorld) {user : AuthUser}
      → pg.fault w.calls ≡ none
      → find user_key (trim_space id) w.db.users ≡ some user
      → Repository.get_user_by_id pg u digest id w ≡ (ok user, record w { calls = suc w.calls })
  unfolding Repository.get_user_by_id program statement
  get_user_by_id-runs id w up known = ground arith

  -- The world after an UPDATE of one user.
  abbrev pub rewritten : String → (AuthUser → AuthUser) → AuthWorld → AuthWorld
  rewritten id f w = record w {
    calls = suc w.calls;
    db = record (w.db) { users = update_where (is_key user_key id) f w.db.users };
  }

  -- The world after `RevokeAllRefreshTokens`.
  abbrev pub revoked : String → AuthWorld → AuthWorld
  revoked id w = record w {
    calls = suc w.calls;
    db = record (w.db) {
      tokens = update_where (is_open_of id) (with_revoked (pg.now w.calls)) w.db.tokens;
    };
  }

  -- The world after `DeleteSession`.
  abbrev pub signed_out : String → AuthWorld → AuthWorld
  signed_out id w = record w {
    calls = suc w.calls;
    db = record (w.db) { cache = del (session_key id) w.db.cache };
  }
