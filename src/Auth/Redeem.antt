-- ===== src/Auth/Redeem.antt =====
-- A refresh token buys at most one pair.
use docflow_web.Base.{
  ℕ, String, ◌≡◌, ◌≢◌, refl, sym, ap, ◌∙◌, Bool, true, false, not, Option, some, List, arith,
  eq_iff, inl, inr, Option-cases,
}
use mathlib.Core.Path.{subst}
use docflow_web.Base.Exec.{program, ok, pure, label, returned, passed}
use docflow_web.Base.Postgres.{Postgres, statement}
use docflow_web.Base.Unicode.{Unicode}
use docflow_web.Base.Table.{find, find-update_hit, find_key}
use docflow_web.Auth.Domain.{AuthError, RefreshToken, token_not_found}
use docflow_web.Auth.Repository
use docflow_web.Auth.Repository.{AuthDb, AuthWorld, App, hash_of, is_open, with_revoked}
use docflow_web.Auth.Service
use docflow_web.Auth.Service.{AuthEnv, TokenPair}
use docflow_web.Auth.Tokens.{IsSpent}
use docflow_web.Auth.Spent.{Request, serve, serve-IsSpent, Holds-reissue}

-- The row that a query by this hash finds, still open.
pub record IsOpen (h : String) (tokens : List RefreshToken) : Type 0 where
  pub row : RefreshToken
  pub known : find hash_of h tokens ≡ some row
  pub opened : is_open row ≡ true

module _ (pg : Postgres) where
  -- A query that returned found its row, and changed nothing.
  pub query-ok :
      {R : Type 0} (msg : String) (e : AuthError) (q : ℕ → AuthDb → Option R) (w : AuthWorld)
      {r : R}
      → (label msg (statement pg (λ n d. (Repository.found e (q n d), d))) w).0 ≡ ok r
      → (q w.calls w.db ≡ some r)
        × ((label msg (statement pg (λ n d. (Repository.found e (q n d), d))) w).1.db ≡ w.db)
  unfolding label statement
  query-ok msg e q w h = ground arith

of_not : (b : Bool) → not b ≡ false → b ≡ true
of_not b h = ground arith

module _ (pg : Postgres) (u : Unicode) (digest : String → String) where
  pub find_refresh_token-ok :
      (t : String) (w : AuthWorld) {r : String × ℕ}
      → (Repository.find_refresh_token pg u digest t w).0 ≡ ok r
      → IsOpen (digest t) w.db.tokens
        × ((Repository.find_refresh_token pg u digest t w).1.db ≡ w.db)
  unfolding Repository.find_refresh_token pure
  find_refresh_token-ok t w e =
      let r = returned _ _ w e in
      let (known, same) = query-ok pg "find refresh token" token_not_found _ w r.first in
      let (opened, _, still) = passed _ _ _ _ r.second in
      (
        record { row = r.value; known = known; opened = of_not _ opened },
        ap (λ (v : AuthWorld). v.db) (r.state ∙ still) ∙ same,
      )

  pub revoke_refresh_token-ok :
      (t : String) (w : AuthWorld) {x : Unit {0}}
      → (Repository.revoke_refresh_token pg u digest t w).0 ≡ ok x
      → IsOpen (digest t) w.db.tokens
      → IsSpent (digest t) (Repository.revoke_refresh_token pg u digest t w).1.db.tokens
  unfolding Repository.revoke_refresh_token program statement
  revoke_refresh_token-ok t w e s = elim (Option-cases (pg.fault w.calls)) [
    | inl up ↦
        rw (up, statement)
          (record {
            row = with_revoked (pg.now w.calls) s.row;
            known =
                find-update_hit hash_of _ (with_revoked (pg.now w.calls)) (λ r. refl) _ _ s.known
                  (rw (s.opened, find_key hash_of (digest t) _ s.known)
                    (ground (arith, eq_iff (digest t) (digest t))));
            revoked = refl;
          })
    | inr (_, down) ↦ absurd (ground (arith, e, down))
  ]

module _ (env : AuthEnv) where
  open env use {pg, unicode, digest}

  -- Behind the revocation the token is spent.
  refresh_token-IsSpent :
      (t : String) (w : AuthWorld) {pair : TokenPair}
      → (Service.refresh_token env t w).0 ≡ ok pair
      → IsSpent (digest t) (Service.refresh_token env t w).1.db.tokens
  unfolding Service.refresh_token
  refresh_token-IsSpent t w e =
      let (_, h, s0) = passed _ _ _ _ e in
      let r = returned _ _ w h in
      let (open_row, same) = find_refresh_token-ok pg unicode digest t w r.first in
      let v = (Repository.find_refresh_token pg unicode digest t w).1 in
      let c = returned _ _ v r.second in
      let (_, k, s1) = passed _ _ _ _ c.second in
      let q = returned _ _ v k in
      let revoked =
        revoke_refresh_token-ok pg unicode digest t v q.first
          (subst (λ (d : AuthDb). IsOpen (digest t) d.tokens) (sym same) open_row) in
      subst (λ (z : AuthWorld). IsSpent (digest t) z.db.tokens)
        (sym (s0 ∙ r.state ∙ c.state ∙ s1 ∙ q.state))
        ((Holds-reissue env (digest t) r.value.0 _).at revoked)

  spent-refused :
      (t : String) (w : AuthWorld) {pair : TokenPair}
      → IsSpent (digest t) w.db.tokens
      → (Service.refresh_token env t w).0 ≢ ok pair
  unfolding Service.refresh_token
  spent-refused t w s e =
      let (_, h, s0) = passed _ _ _ _ e in
      let r = returned _ _ w h in
      let (open_row, same) = find_refresh_token-ok pg unicode digest t w r.first in
      let one : some s.row ≡ some open_row.row = sym s.known ∙ open_row.known in
      cc (s.revoked, open_row.opened)

  -- Once `RefreshToken` has answered with a pair, no later call with the same token does, whatever
  -- requests come in between and whichever calls of the servers fail.
  pub refresh_token-once :
      (t : String) (w : AuthWorld) (rs : List Request) {pair : TokenPair}
      → (Service.refresh_token env t w).0 ≡ ok pair
      → (again : TokenPair)
      → (Service.refresh_token env t (serve env (Service.refresh_token env t w).1 rs)).0 ≢ ok again
  refresh_token-once t w rs e again =
      spent-refused t (serve env (Service.refresh_token env t w).1 rs) (
        serve-IsSpent env (digest t) (Service.refresh_token env t w).1 rs
          (refresh_token-IsSpent t w e))
