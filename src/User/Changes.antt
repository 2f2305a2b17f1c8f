-- ===== src/User/Changes.antt =====
-- The operations that change a user and then drop or refresh what is cached, and those over many
-- users, keep the cache sound.
use docflow_web.Base.{
  ℕ, suc, String, ◌≡◌, refl, sym, ap, ◌∙◌, true, none, some, List, arith, eq_iff, Option-cases, inl,
  inr,
}
use mathlib.Core.Path.{subst}
use docflow_web.Base.Text.{trim_space}
use docflow_web.Base.Exec.{
  Result, ok, err, sentinel, external, wrapped, pure, label, ◌>>=◌, program, bind_runs, bind_fails,
}
use docflow_web.Base.Redis.{Cache, del}
use docflow_web.Base.Postgres.{statement}
use docflow_web.Base.Table.{update_where, Unique, Unique-update_where}
use docflow_web.Base.Moves.{Moves, Moves-pure, Moves-bind, Moves-fail_if}
use docflow_web.User.Domain.{UserError, user_not_found, User, UpdateInput, normalize_email}
use docflow_web.User.Repository
use docflow_web.User.Repository.{
  UserDb, UserWorld, UserEnv, App, Row, row_key, find_id, is_user, on_user, id_key, email_key,
  with_verified, with_ban, with_deleted, with_fields,
}
use docflow_web.User.Coherence.{find_id-update, find_id-delete, find_id-own}
use docflow_web.User.Sound.{
  Coherent, CoherentBut, IsSound, sound, CoherentBut-del, Coherent-del_id, Keeps, Keeps-to_cache,
  Keeps-get_by_id, command_db,
}

-- PostgreSQL refuses this id, trimmed, or writes it in the same way.
abbrev pub IsCanonical : UserEnv → String → Type 0
IsCanonical env id = (k : String) → env.uuid_text (trim_space id) ≡ some k → k ≡ trim_space id

-- PostgreSQL writes uuids without spaces around them.
abbrev pub Trims : UserEnv → Type 0
Trims env = (id k : String) → env.uuid_text id ≡ some k → trim_space k ≡ k

other_users :
    (env : UserEnv) (id : String) (f : User → User) (rows : List Row) (m : Cache)
    → ((u : User) → (f u).id ≡ u.id)
    → Coherent env rows m
    → CoherentBut env id (update_where (is_user id) (on_user f) rows) m
other_users env but f rows m same c now id raw u other hit read =
    find_id-update but id f rows same ∙ rw other (c now id raw u hit read)

module _ (env : UserEnv) (decodes : (u v : User) → env.decode (env.encode u) ≡ some v → v ≡ u)
    (up : (n : ℕ) → env.pg.fault n ≡ none) (cached : env.has_cache ≡ true) where
  open env use {pg, has_cache, unicode}

  -- The world after the UPDATE of a user.
  abbrev pub changed : String → (ℕ → User → User) → UserWorld → UserWorld
  changed id f w = record w {
    calls = suc w.calls;
    db = record (w.db) {
      rows = update_where (is_user id) (on_user (f (pg.now w.calls))) w.db.rows;
    };
  }

  module _ {A : Type 0} (msg id : String) (f : ℕ → User → User) (answer : User → A)
      (w : UserWorld) where
    pub label_change-runs :
        {k : String} {u : User}
        → env.uuid_text id ≡ some k
        → find_id k w.db.rows ≡ some u
        → Repository.label_change env msg id f answer w
          ≡ (ok (answer (f (pg.now w.calls) u)), changed k f w)
    unfolding label statement
    label_change-runs {u} r e = rw (up w.calls, statement, r) (rw e refl)

    label_change-refused :
        env.uuid_text id ≡ none
        → Repository.label_change env msg id f answer w
          ≡ (err (wrapped msg (external Repository.bad_uuid)), record w { calls = suc w.calls })
    unfolding label statement
    label_change-refused r = rw (up w.calls, statement, r) refl

    label_change-misses :
        {k : String}
        → env.uuid_text id ≡ some k
        → find_id k w.db.rows ≡ none
        → Repository.label_change env msg id f answer w
          ≡ (err (sentinel user_not_found), record w { calls = suc w.calls })
    unfolding label statement
    label_change-misses r e = rw (up w.calls, statement, r) (rw e refl)

    -- The UPDATE, and what follows it.
    Keeps-change :
        {B : Type 0} (k : A → App B)
        → ((own : String) (u : User)
            → env.uuid_text id ≡ some own
            → find_id own w.db.rows ≡ some u
            → IsSound env w.db
            → IsSound env (k (answer (f (pg.now w.calls) u)) (changed own f w)).1.db)
        → Moves (sound env) (Repository.label_change env msg id f answer >>= k) w
    Keeps-change k rest = elim (Option-cases (env.uuid_text id)) [
      | inl r ↦ record {
        at = λ s.
            subst (λ (o : Result UserError _ × UserWorld). IsSound env o.1.db)
              (sym (bind_fails _ k w _ (label_change-refused r))) s;
      }
      | inr (own, r) ↦ elim (Option-cases (find_id own w.db.rows)) [
        | inl e ↦ record {
          at = λ s.
              subst (λ (o : Result UserError _ × UserWorld). IsSound env o.1.db)
                (sym (bind_fails _ k w _ (label_change-misses r e))) s;
        }
        | inr (u, e) ↦ record {
          at = λ s.
              subst (λ (o : Result UserError _ × UserWorld). IsSound env o.1.db)
                (sym (bind_runs _ k w _ (label_change-runs r e))) (rest own u r e s);
        }
      ]
    ]

  -- A command on the cache behind a change of the rows.
  IsSound-command :
      (f : ℕ → Cache → Cache) (w : UserWorld)
      → Unique row_key w.db.rows
      → Coherent env w.db.rows (f w.calls w.db.cache)
      → IsSound env (Repository.command env f w).1.db
  IsSound-command f w unique c =
      subst (λ d. IsSound env d) (sym (command_db env decodes up f w))
        (rw cached (record { unique = unique; coherent = c }))

  dropped :
      (id own : String) (f : ℕ → User → User) (w : UserWorld)
      → ((n : ℕ) (u : User) → (f n u).id ≡ u.id)
      → own ≡ trim_space id
      → IsSound env w.db
      → IsSound env (Repository.invalidate_cache_by_id env id (changed own f w)).1.db
  unfolding Repository.invalidate_cache_by_id
  dropped id own f w same plain s =
      IsSound-command _ (changed own f w)
        (Unique-update_where row_key _ _ (λ r. same _ r.user) w.db.rows s.unique)
        (subst (λ k. Coherent env (changed own f w).db.rows (del (id_key k) w.db.cache)) plain
          (Coherent-del_id env _ _ own
            (other_users env own _ w.db.rows w.db.cache (same _) s.coherent)))

  pub Keeps-verify_email :
      (id : String) (w : UserWorld)
      → IsCanonical env id
      → Keeps env decodes up (Repository.verify_email env id) w
  unfolding Repository.verify_email
  Keeps-verify_email id w plain =
      Keeps-change _ _ with_verified _ w _
        λ own u r e s. dropped id own with_verified w (λ n v. refl) (plain own r) s

  pub Keeps-ban :
      (id admin reason : String) (w : UserWorld)
      → IsCanonical env id
      → Keeps env decodes up (Repository.ban env id admin reason) w
  unfolding Repository.ban
  Keeps-ban id admin reason w plain =
      Keeps-change _ _ (with_ban (trim_space reason)) _ w _
        λ own u r e s. dropped id own (with_ban (trim_space reason)) w (λ n v. refl) (plain own r) s

  command_ok : (f : ℕ → Cache → Cache) (w : UserWorld) → (Repository.command env f w).0 ≡ ok tt
  unfolding Repository.command program
  command_ok f w = ground arith

  -- The user that an UPDATE returned takes the place of what was cached.
  refreshed :
      (u : User) (v : UserWorld)
      → trim_space u.id ≡ u.id
      → find_id u.id v.db.rows ≡ some u
      → Unique row_key v.db.rows
      → CoherentBut env u.id v.db.rows v.db.cache
      → IsSound env
          ((Repository.invalidate_cache env u.id u.email >>= λ _.
              Repository.to_cache env u >>= λ _. pure u)
            v).1.db
  unfolding Repository.invalidate_cache
  refreshed u v trimmed here unique c =
      let f : ℕ → Cache → Cache = λ n m.
        del (id_key (trim_space u.id)) (del (email_key (normalize_email unicode u.email)) m) in
      let v' = (Repository.command env f v).1 in
      let dropped_both : Coherent env v.db.rows (f v.calls v.db.cache) =
        subst
          (λ k.
            Coherent env v.db.rows
              (del (id_key k) (del (email_key (normalize_email unicode u.email)) v.db.cache)))
          (sym trimmed)
          (Coherent-del_id env v.db.rows _ u.id (
            CoherentBut-del env v.db.rows v.db.cache u.id
              (email_key (normalize_email unicode u.email)) c)) in
      let clean = IsSound-command f v unique dropped_both in
      let still : find_id u.id v'.db.rows ≡ some u =
        subst (λ (d : UserDb). find_id u.id d.rows ≡ some u) (sym (command_db env decodes up f v))
          here in
      let ran = bind_runs (Repository.command env f) _ v v' (λ i. (command_ok f v i, v')) in
      subst (λ (o : Result UserError User × UserWorld). IsSound env o.1.db) (sym ran)
        ((Moves-bind (sound env) _ (λ _. pure u) v' (Keeps-to_cache env decodes up u v' still)
            λ _ _. Moves-pure (sound env) u _).at
          clean)

  pub Keeps-update :
      (trims : Trims env) (id : String) (i : UpdateInput) (w : UserWorld)
      → Keeps env decodes up (Repository.update env id i) w
  unfolding Repository.update
  Keeps-update trims raw i w = Moves-fail_if (sound env) _ _ _ w λ _.
      Moves-bind (sound env) _ _ w (record { at = λ s. s })
        λ j _. Moves-bind (sound env) _ _ w (Keeps-get_by_id env decodes up _ w) λ current _.
          Keeps-change "query user" (trim_space raw) (with_fields j current) (λ u. u) _ _
            λ own u r e s. saved own (trims (trim_space raw) own r) j current u _ e s
    where
      saved :
          (k : String) (bare : trim_space k ≡ k) (j : UpdateInput) (current u : User)
          (v : UserWorld)
          → find_id k v.db.rows ≡ some u
          → IsSound env v.db
          → let u' = with_fields j current (pg.now v.calls) u in
            IsSound env
              ((Repository.invalidate_cache env u'.id u'.email >>= λ _.
                  Repository.to_cache env u' >>= λ _. pure u')
                (changed k (with_fields j current) v)).1.db
      saved k bare j current u v e s =
          let f = with_fields j current in
          let own : u.id ≡ k = find_id-own _ v.db.rows e in
          let u' = f (pg.now v.calls) u in
          let rows = update_where (is_user k) (on_user (f (pg.now v.calls))) v.db.rows in
          refreshed u' (changed k f v) (ap trim_space own ∙ bare ∙ sym own)
            (subst (λ i. find_id i rows ≡ some u') (sym own)
              (find_id-update k k (f (pg.now v.calls)) v.db.rows (λ x. refl)
                ∙ rw ((eq_iff k _).1 refl, e) refl))
            (Unique-update_where row_key _ _ (λ r. refl) v.db.rows s.unique)
            (subst (λ i. CoherentBut env i rows v.db.cache) (sym own)
              (other_users env k (f (pg.now v.calls)) v.db.rows v.db.cache (λ x. refl) s.coherent))

  -- The world after a user was marked as deleted.
  abbrev removed : String → UserWorld → UserWorld
  removed id w = record w {
    calls = suc w.calls;
    db = record (w.db) {
      rows = update_where (is_user id) (with_deleted (pg.now w.calls)) w.db.rows;
    };
  }

  pub Keeps-delete :
      (id : String) (w : UserWorld)
      → IsCanonical env id
      → Keeps env decodes up (Repository.delete env id) w
  unfolding Repository.delete Repository.invalidate_cache label statement
  Keeps-delete id w plain = elim (Option-cases (env.uuid_text (trim_space id))) [
    | inl r ↦ record {
      at = λ s.
          subst (λ (o : Result UserError (Unit {0}) × UserWorld). IsSound env o.1.db)
            (sym (
              bind_fails _ (λ email. Repository.invalidate_cache env id email) w
                (record w { calls = suc w.calls })
                {e = wrapped "delete user" (external Repository.bad_uuid)}
                (rw (up w.calls, statement, r) refl)))
            s;
    }
    | inr (own, r) ↦ elim (Option-cases (find_id own w.db.rows)) [
      | inl e ↦ record {
        at = λ s.
            subst (λ (o : Result UserError (Unit {0}) × UserWorld). IsSound env o.1.db)
              (sym (
                bind_fails _ (λ email. Repository.invalidate_cache env id email) w
                  (record w { calls = suc w.calls }) {e = sentinel user_not_found}
                  (rw (up w.calls, statement, r) (rw e refl))))
              s;
      }
      | inr (u, e) ↦ record {
        at = λ s.
            subst (λ (o : Result UserError (Unit {0}) × UserWorld). IsSound env o.1.db)
              (sym (
                bind_runs _ (λ email. Repository.invalidate_cache env id email) w (removed own w)
                  {a = u.email} (rw (up w.calls, statement, r) (rw e refl))))
              (IsSound-command _ (removed own w)
                (Unique-update_where row_key _ _ (λ r. refl) w.db.rows s.unique)
                (subst
                  (λ k.
                    Coherent env (removed own w).db.rows (
                      del (id_key k)
                        (del (email_key (normalize_email unicode u.email)) w.db.cache)))
                  (plain own r)
                  (Coherent-del_id env _ _ own (
                    CoherentBut-del env _ _ own _ λ now k raw v other hit read.
                      find_id-delete own k (pg.now w.calls) w.db.rows other
                      ∙ s.coherent now k raw v hit read))));
      }
    ]
  ]
