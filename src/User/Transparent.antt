-- ===== src/User/Transparent.antt =====
-- What `GetUser` answers is in the table, whatever was asked before.
use docflow_web.Base.{
  ℕ, suc, String, ◌≡◌, refl, sym, ap, ◌∙◌, Bool, true, false, ◌==◌, Option, none, some, List, [],
  ◌∷◌, ◌++◌, arith, Bool-cases, Option-cases, inl, inr, All, map, elem,
}
use mathlib.Core.Path.{subst}
use docflow_web.Base.Text.{trim_space}
use docflow_web.Base.Exec.{
  Result, ok, err, GoError, external, wrapped, pure, raise, label, ◌>>=◌, program, bind_runs,
  bind_fails, sentinel, passes, wrap, wrap_result,
}
use docflow_web.Base.Redis.{get}
use docflow_web.Base.Postgres.{statement}
use docflow_web.Base.Rows.{All-found}
use docflow_web.Base.Paging.{Window, normalize}
use docflow_web.Base.Table.{find, select}
use docflow_web.Base.Moves.{Moves-pure, Moves-bind, Moves-if}
use docflow_web.User.Domain.{UserError, User, CreateInput, invalid_input, user_not_found}
use docflow_web.User.Repository
use docflow_web.User.Repository.{
  UserDb, UserWorld, UserEnv, App, Row, row_key, find_id, id_key, recover, recovered, read_all,
}
use docflow_web.User.Sound.{
  IsSound, sound, Keeps, Keeps-still, Keeps-to_cache, Keeps-get_by_id, Keeps-get_by_email,
  from_cache_db,
}
use docflow_web.User.Changes.{
  IsCanonical, Trims, Keeps-update, Keeps-verify_email, Keeps-ban, Keeps-delete,
}
use docflow_web.User.Requests.{Request, respond, serve}
use docflow_web.User.Service

module _ (env : UserEnv) (decodes : (u v : User) → env.decode (env.encode u) ≡ some v → v ≡ u)
    (up : (n : ℕ) → env.pg.fault n ≡ none) (cached : env.has_cache ≡ true)
    (orders : (P : User → Type 0) (us : List User) → All P us → All P (env.any_order us))
    (trims : Trims env) where
  open env use {pg, has_cache, unicode}

  abbrev Keep : {A : Type 0} → App A → UserWorld → Type 0
  Keep m w = Keeps env decodes up m w

  Keep-from_caches : (ids : List String) (w : UserWorld) → Keep (Repository.from_caches env ids) w
  unfolding Repository.from_caches
  Keep-from_caches [] w = Moves-pure (sound env) _ w
  Keep-from_caches (id ∷ ids) w = Moves-if (sound env) _ _ _ w (Keep-from_caches ids w) (
      Moves-bind (sound env) _ _ w
        (Keeps-still env decodes up _ w (from_cache_db env decodes up _ w))
        λ hit _.
          Moves-bind (sound env) _ _ _ (Keep-from_caches ids _) λ r _. Moves-pure (sound env) _ _)

  to_cache_rows : (u : User) (w : UserWorld) → (Repository.to_cache env u w).1.db.rows ≡ w.db.rows
  unfolding Repository.to_cache Repository.command program statement
  to_cache_rows u w = ground (arith, up w.calls, up (suc w.calls))

  -- Users whom the table holds.
  abbrev Held : List Row → List User → Type 0
  Held rows us = All (λ u. find_id u.id rows ≡ some u) us

  Keep-to_caches :
      (us : List User) (w : UserWorld) → Held w.db.rows us → Keep (Repository.to_caches env us) w
  unfolding Repository.to_caches
  Keep-to_caches [] w h = Moves-pure (sound env) tt w
  Keep-to_caches (u ∷ us) w (here, h) =
      Moves-bind (sound env) _ _ w (Keeps-to_cache env decodes up u w here)
        λ _ _. Keep-to_caches us _ (subst (λ rows. Held rows us) (sym (to_cache_rows u w)) h)

  Held-select :
      (rows all : List Row)
      → All (λ r. find row_key (row_key r) all ≡ some r) rows
      → Held all (map (λ r. r.user) (select Repository.is_live rows))
  unfolding select
  Held-select [] all h = tt
  Held-select (r ∷ rows) all (here, h) = elim (Bool-cases (Repository.is_live r)) [
    | inl e ↦ rw e (rw here (rw e refl), Held-select rows all h)
    | inr e ↦ rw e (Held-select rows all h)
  ]

  All-select_of :
      (P : User → Type 0) (p : User → Bool) (us : List User) → All P us → All P (select p us)
  unfolding select
  All-select_of P p [] h = tt
  All-select_of P p (u ∷ us) (h, hs) = elim (Bool-cases (p u)) [
    | inl e ↦ rw e (h, All-select_of P p us hs)
    | inr e ↦ rw e (All-select_of P p us hs)
  ]

  batch_runs :
      (us : List User) (ids : List String) (ks : Option (List String)) (w : UserWorld)
      → read_all env.uuid_text ids ≡ ks
      → wrap {S = UserError} "get users batch"
          (statement pg λ n d. (Repository.users_among env (read_all env.uuid_text ids) d.rows, d))
          w
        ≡ (
          wrap_result "get users batch" (Repository.users_among env ks w.db.rows),
          record w { calls = suc w.calls },
        )
  unfolding wrap statement
  batch_runs us ids none w e = rw (up w.calls, statement, e) refl
  batch_runs us ids (some ks) w e = rw (up w.calls, statement, e) refl

  Keep-query_missing :
      (us : List User) (ids : List String) (w : UserWorld)
      → Keep (Repository.query_missing env us ids) w
  Keep-query_missing us [] w = Moves-pure (sound env) us w
  Keep-query_missing us (id ∷ ids) w = elim (Option-cases (read_all env.uuid_text (id ∷ ids))) [
    | inl e ↦ record {
      at = λ s.
          subst (λ (o : Result UserError (List User) × UserWorld). IsSound env o.1.db)
            (sym (bind_fails _ _ w _ (batch_runs us (id ∷ ids) none w e))) s;
    }
    | inr (ks, e) ↦ record {
      at = λ s.
          let found = env.any_order (Repository.users_where env (λ u. elem u.id ks) w.db.rows) in
          let w1 : UserWorld = record w { calls = suc w.calls } in
          let held : Held w.db.rows found = orders _ _ (
            All-select_of _ _ _
              (Held-select w.db.rows w.db.rows (All-found row_key w.db.rows s.unique))) in
          subst (λ (o : Result UserError (List User) × UserWorld). IsSound env o.1.db)
            (sym (
              bind_runs _ (λ found. Repository.to_caches env found >>= λ _. pure (us ++ found)) w w1
                (batch_runs us (id ∷ ids) (some ks) w e)))
            ((Moves-bind (sound env) _ _ w1 (Keep-to_caches found w1 held)
                λ _ _. Moves-pure (sound env) _ _).at
              s);
    }
  ]

  Keep-get_batch : (ids : List String) (w : UserWorld) → Keep (Repository.get_batch env ids) w
  unfolding Repository.get_batch
  Keep-get_batch [] w = Moves-pure (sound env) [] w
  Keep-get_batch (id ∷ ids) w =
      Moves-bind (sound env) _ _ w (Keep-from_caches (id ∷ ids) w)
        λ r _. Keep-query_missing r.0 r.1 _

  Keep-raise : {A : Type 0} (e : GoError UserError) (w : UserWorld) → Keep (raise {A = A} e) w
  unfolding raise
  Keep-raise e w = record { at = λ s. s }

  Keep-existing_by_email :
      (email : String) (e : GoError UserError) (w : UserWorld)
      → Keep (Repository.existing_by_email env email e) w
  unfolding recover
  Keep-existing_by_email email e w = record {
    at = λ s.
        (go (Repository.get_by_email env email w).0 (Repository.get_by_email env email w).1).at
          ((Keeps-get_by_email env decodes up email w).at s);
  }
    where
      go : (r : Result UserError User) (v : UserWorld) → Keep (recovered r (raise e)) v
      go (ok u) v = Moves-pure (sound env) u v
      go (err x) v = Keep-raise e v

  insert_drawn-runs :
      (i : CreateInput) (w : UserWorld)
      → Repository.insert_drawn env i w
        ≡ Repository.existing_by_email env i.email
            (wrapped "query user" (external Repository.no_constraint))
            (record w { calls = suc w.calls })
  unfolding label statement
  insert_drawn-runs i w = rw (up w.calls, statement) refl

  Keep-create : (i : CreateInput) (w : UserWorld) → Keep (Repository.create env i) w
  unfolding Repository.create
  Keep-create i w =
      Moves-bind (sound env) _ _ w (record { at = λ s. s })
        λ j _. record {
          at = λ s.
              subst (λ (o : Result UserError User × UserWorld). IsSound env o.1.db)
                (sym (insert_drawn-runs j w)) ((Keep-existing_by_email j.email _ _).at s);
        }

  list_db :
      (v : Window) (role : String) (w : UserWorld) → (Repository.list env v role w).1.db ≡ w.db
  unfolding Repository.list program statement
  list_db v role w = ground (arith, up w.calls, up (suc w.calls))

  check_db : (email : String) (w : UserWorld) → (Repository.check_exists env email w).1.db ≡ w.db
  unfolding Repository.check_exists program statement
  check_db email w = ground (arith, up w.calls)

  stats_db : (w : UserWorld) → (Repository.get_stats env w).1.db ≡ w.db
  unfolding Repository.get_stats program statement
  stats_db w = rw (up w.calls, statement) refl

  -- A request that drops a cached user by an id as it was sent: the id is in the form in which
  -- PostgreSQL writes it.
  abbrev pub NamesPlainly : Request → Type 0
  NamesPlainly (Request.delete_user id) = IsCanonical env id
  NamesPlainly (Request.verify_user_email id) = IsCanonical env id
  NamesPlainly (Request.ban_user id admin reason) = IsCanonical env id
  NamesPlainly (Request.get_user id) = Unit
  NamesPlainly (Request.get_user_by_email email) = Unit
  NamesPlainly (Request.update_user id i) = Unit
  NamesPlainly (Request.list_users page size role) = Unit
  NamesPlainly (Request.create_user i) = Unit
  NamesPlainly (Request.get_users_batch ids) = Unit
  NamesPlainly (Request.check_user_exists email) = Unit
  NamesPlainly Request.get_user_stats = Unit

  respond-IsSound :
      (r : Request) (w : UserWorld)
      → NamesPlainly r
      → IsSound env w.db
      → IsSound env (respond env r w).db
  unfolding Service.get_user Service.get_user_by_email Service.update_user Service.delete_user
      Service.list_users Service.create_user Service.get_users_batch Service.check_user_exists
      Service.verify_user_email Service.ban_user Service.get_user_stats
  respond-IsSound (Request.get_user id) w plain s = (Keeps-get_by_id env decodes up id w).at s
  respond-IsSound (Request.get_user_by_email email) w plain s =
      (Keeps-get_by_email env decodes up email w).at s
  respond-IsSound (Request.update_user id i) w plain s =
      (Moves-bind (sound env) _ _ w (record { at = λ s. s })
          λ j _. Keeps-update env decodes up cached trims id j w).at
        s
  respond-IsSound (Request.delete_user id) w plain s =
      (Keeps-delete env decodes up cached id w plain).at s
  respond-IsSound (Request.list_users page size role) w plain s =
      subst (λ d. IsSound env d) (sym (list_db (normalize page size) (trim_space role) w)) s
  respond-IsSound (Request.create_user i) w plain s =
      (Moves-bind (sound env) _ _ w (record { at = λ s. s }) λ j _. Keep-create j w).at s
  respond-IsSound (Request.get_users_batch ids) w plain s = (Keep-get_batch ids w).at s
  respond-IsSound (Request.check_user_exists email) w plain s =
      subst (λ d. IsSound env d) (sym (check_db email w)) s
  respond-IsSound (Request.verify_user_email id) w plain s =
      (Keeps-verify_email env decodes up cached id w plain).at s
  respond-IsSound (Request.ban_user id admin reason) w plain s =
      (Keeps-ban env decodes up cached id admin reason w plain).at s
  respond-IsSound Request.get_user_stats w plain s = subst (λ d. IsSound env d) (sym (stats_db w)) s

  pub serve-IsSound :
      (w : UserWorld) (rs : List Request)
      → All NamesPlainly rs
      → IsSound env w.db
      → IsSound env (serve env w rs).db
  serve-IsSound w [] plain s = s
  serve-IsSound w (r ∷ rs) (here, plain) s =
      serve-IsSound (respond env r w) rs plain (respond-IsSound r w here s)

  pub hit_of : (key : String) (w : UserWorld) → Option User
  hit_of key w = Repository.decoded env (ok (get (pg.now w.calls) key w.db.cache))

  pub from_cache-runs :
      (key : String) (w : UserWorld)
      → Repository.from_cache env key w ≡ (ok (hit_of key w), record w { calls = suc w.calls })
  unfolding Repository.from_cache statement hit_of
  from_cache-runs key w = rw (cached, up w.calls, statement) refl

  stored : (u : User) (w : UserWorld) → ((Repository.to_cache env u >>= λ _. pure u) w).0 ≡ ok u
  unfolding Repository.to_cache Repository.command program
  stored u w = ground arith

  module _ (id : String) (w : UserWorld) (reads : env.uuid_text id ≡ some id) where
    query_id-finds :
        {u : User}
        → find_id id w.db.rows ≡ some u
        → Repository.query_id env id w ≡ (ok u, record w { calls = suc w.calls })
    unfolding label statement
    query_id-finds e = rw (up w.calls, statement, reads) (rw e refl)

    query_id-misses :
        find_id id w.db.rows ≡ none
        → Repository.query_id env id w
          ≡ (err (sentinel user_not_found), record w { calls = suc w.calls })
    unfolding label statement
    query_id-misses e = rw (up w.calls, statement, reads) (rw e refl)

    -- The answer from the cache or from the table.
    answered :
        (o : Option User)
        → ((u : User) → o ≡ some u → find_id id w.db.rows ≡ some u)
        → (Repository.or_query env (Repository.query_id env id) o w).0
          ≡ Repository.found (find_id id w.db.rows)
    unfolding pure
    answered (some u) right = rw (right u refl) refl
    answered none right = elim (Option-cases (find_id id w.db.rows)) [
      | inl e ↦
          ap (λ (x : Result UserError User × UserWorld). x.0)
            (bind_fails _ (λ u. Repository.to_cache env u >>= λ _. pure u) w _ (query_id-misses e))
          ∙ rw e refl
      | inr (u, e) ↦
          ap (λ (x : Result UserError User × UserWorld). x.0)
            (bind_runs _ (λ u. Repository.to_cache env u >>= λ _. pure u) w _ (query_id-finds e))
          ∙ stored u _
          ∙ rw e refl
    ]

  hit_held :
      (id : String) (w : UserWorld) (u : User)
      → IsSound env w.db
      → hit_of (id_key id) w ≡ some u
      → find_id id w.db.rows ≡ some u
  unfolding hit_of
  hit_held id w u s e = elim (Option-cases (get (pg.now w.calls) (id_key id) w.db.cache)) [
    | inl miss ↦ absurd (ground (arith, e, miss))
    | inr (raw, hit) ↦ s.coherent (pg.now w.calls) id raw u hit (ground (arith, e, hit))
  ]

  get_by_id-exact :
      (raw : String) (w : UserWorld)
      → IsSound env w.db
      → env.uuid_text (trim_space raw) ≡ some (trim_space raw)
      → (trim_space raw == "") ≡ false
      → (Repository.get_by_id env raw w).0 ≡ Repository.found (find_id (trim_space raw) w.db.rows)
  unfolding Repository.get_by_id
  get_by_id-exact raw w s reads named =
      let id = trim_space raw in
      let w1 : UserWorld = record w { calls = suc w.calls } in
      ap (λ (x : Result UserError User × UserWorld). x.0)
        (passes _ invalid_input _ w named ∙ bind_runs _ _ w w1 (from_cache-runs (id_key id) w))
      ∙ answered id w1 reads (hit_of (id_key id) w) (λ u e. hit_held id w u s e)

  -- There is a cache, no call of a server fails, a user that is read back from its encoding is the
  -- one that was encoded, a query that asks for no order returns no user but those that it found,
  -- and PostgreSQL writes uuids without spaces around them. At the start ids are unique, and what is
  -- cached under the key of an id is the user of the table. `DeleteUser`, `VerifyUserEmail` and
  -- `BanUser` are asked about ids in the form in which PostgreSQL writes them, or about what is no
  -- id. Then after any requests, `GetUser` with an id in that form answers with the row of the table
  -- that has it and is not deleted, or that there is none, whatever is cached.
  pub get_user-exact :
      (w : UserWorld) (rs : List Request) (id : String)
      → IsSound env w.db
      → All NamesPlainly rs
      → env.uuid_text (trim_space id) ≡ some (trim_space id)
      → (trim_space id == "") ≡ false
      → (Service.get_user env id (serve env w rs)).0
        ≡ Repository.found (find_id (trim_space id) (serve env w rs).db.rows)
  unfolding Service.get_user
  get_user-exact w rs id s plain reads named =
      get_by_id-exact id (serve env w rs) (serve-IsSound w rs plain s) reads named
