-- ===== src/User/Stale.antt =====
-- What is cached under an address outlives a ban.
use docflow_web.Base.{
  ℕ, suc, String, ◌≡◌, refl, sym, ap, ◌∙◌, true, false, ◌==◌, none, some, arith, eq_iff,
}
use mathlib.Core.Path.{subst}
use docflow_web.Base.Text.{trim_space}
use docflow_web.Base.Exec.{Result, ok, program, bind_runs, passes, pure_runs}
use docflow_web.Base.Redis.{get, del, get-del}
use docflow_web.Base.Postgres.{statement}
use docflow_web.User.Domain.{UserError, User, normalize_email, invalid_input}
use docflow_web.User.Repository
use docflow_web.User.Repository.{
  UserDb, UserWorld, UserEnv, Row, find_id, id_key, email_key, with_ban,
}
use docflow_web.User.Coherence.{find_id-update, keys_differ}
use docflow_web.User.Changes.{changed, label_change-runs}
use docflow_web.User.Service

apart : (a b : String) → (id_key b == email_key a) ≡ false
apart a b =
    ground
      (arith, keys_differ a b, eq_iff (id_key b) (email_key a), eq_iff (email_key a) (id_key b))

module _ (env : UserEnv) (decodes : (u v : User) → env.decode (env.encode u) ≡ some v → v ≡ u)
    (up : (n : ℕ) → env.pg.fault n ≡ none) (cached : env.has_cache ≡ true) where
  open env use {pg, has_cache, unicode}

  abbrev after_drop : String → UserWorld → UserWorld
  after_drop id v = record v {
    calls = suc v.calls;
    db = record (v.db) { cache = del (id_key (trim_space id)) v.db.cache };
  }

  invalidate-runs :
      (id : String) (v : UserWorld)
      → Repository.invalidate_cache_by_id env id v ≡ (ok tt, after_drop id v)
  unfolding Repository.invalidate_cache_by_id Repository.command program statement
  invalidate-runs id v = rw (cached, up v.calls, statement) refl

  from_cache-hits :
      (key raw : String) (u : User) (w : UserWorld)
      → get (pg.now w.calls) key w.db.cache ≡ some raw
      → env.decode raw ≡ some u
      → Repository.from_cache env key w ≡ (ok (some u), record w { calls = suc w.calls })
  unfolding Repository.from_cache statement
  from_cache-hits key raw u w hit read = rw (cached, up w.calls, statement, hit, read) refl

  -- With a cache, where no call of a server fails and a user that is read back from its encoding is
  -- the one that was encoded: a ban of a user who is there, by any form of the id, succeeds and is
  -- in the table; but whatever is cached under an address, and not yet expired, is still what
  -- `GetUserByEmail` answers.
  pub ban_user-stale :
      (id admin reason email raw : String) (w : UserWorld) {key : String} {row u : User}
      → env.uuid_text (trim_space id) ≡ some key
      → find_id key w.db.rows ≡ some row
      → (normalize_email unicode email == "") ≡ false
      → get (pg.now (suc (suc w.calls))) (email_key (normalize_email unicode email)) w.db.cache
        ≡ some raw
      → env.decode raw ≡ some u
      → let out = Service.ban_user env id admin reason w in
        (out.0 ≡ ok tt)
        × (find_id key out.1.db.rows ≡ some (with_ban (trim_space reason) (pg.now w.calls) row))
        × ((Service.get_user_by_email env email out.1).0 ≡ ok u)
  unfolding Service.ban_user Service.get_user_by_email Repository.ban Repository.get_by_email
  ban_user-stale id admin reason email raw w {key} {row} {u} reads here named hit read =
      let f = with_ban (trim_space reason) in
      let v = changed env decodes up cached key f w in
      let w2 = after_drop id v in
      let ran =
        bind_runs _ (λ _. Repository.invalidate_cache_by_id env id) w v
          (label_change-runs env decodes up cached "ban user" (trim_space id) f (λ u. tt) w reads
            here)
        ∙ invalidate-runs id v in
      let email' = normalize_email unicode email in
      let w3 : UserWorld = record w2 { calls = suc w2.calls } in
      let kept : get (pg.now w2.calls) (email_key email') w2.db.cache ≡ some raw =
        get-del (pg.now w2.calls) (id_key (trim_space id)) (email_key email') w.db.cache
        ∙ rw (apart email' (trim_space id)) hit in
      let answered =
        passes _ invalid_input _ w2 named
        ∙ bind_runs _ (Repository.or_query env (Repository.query_email env email')) w2 w3
            (from_cache-hits (email_key email') raw u w2 kept read)
        ∙ pure_runs u w3 in
      (
        ap (λ (o : Result UserError (Unit {0}) × UserWorld). o.0) ran,
        subst
            (λ (o : Result UserError (Unit {0}) × UserWorld).
              find_id key o.1.db.rows ≡ some (f (pg.now w.calls) row))
            (sym ran)
            (find_id-update key key (f (pg.now w.calls)) w.db.rows (λ x. refl)
              ∙ rw ((eq_iff key _).1 refl, here) refl),
        subst
            (λ (o : Result UserError (Unit {0}) × UserWorld).
              (Service.get_user_by_email env email o.1).0 ≡ ok u)
            (sym ran) (ap (λ (o : Result UserError User × UserWorld). o.0) answered),
      )
