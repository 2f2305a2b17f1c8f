-- ===== src/User/Sound.antt =====
-- Where no call of a server fails, the users that are cached under their ids are those of the table,
-- after every operation.
use docflow_web.Base.{
  ℕ, String, ◌≡◌, sym, ap, ◌∙◌, Bool, true, false, ◌==◌, Option, none, some, List, arith, eq_iff,
  if◌then◌else◌, Bool-cases, inl, inr,
}
use mathlib.Core.Path.{subst}
use docflow_web.Base.Exec.{Result, ok, label, program}
use docflow_web.Base.Redis.{Cache, get, del, set, get-del, get-set}
use docflow_web.Base.Postgres.{statement}
use docflow_web.Base.Table.{Unique}
use docflow_web.Base.Moves.{Preorder, Moves, Moves-pure, Moves-bind, Moves-fail_if}
use docflow_web.Base.Statements.{query_ok}
use docflow_web.Base.Text.{trim_space}
use docflow_web.User.Domain.{UserError, User}
use docflow_web.User.Repository
use docflow_web.User.Repository.{
  UserDb, UserWorld, UserEnv, App, Row, row_key, find_id, find_email, id_key, email_key, recover,
  recovered,
}
use docflow_web.User.Coherence.{id_key-eq, keys_differ, find_id-of_email, find_id-own}

module _ (env : UserEnv) where
  -- What is cached under the key of an id is the user of the table.
  abbrev pub Coherent : List Row → Cache → Type 0
  Coherent rows m =
      (now : ℕ) (id raw : String) (u : User)
      → get now (id_key id) m ≡ some raw
      → env.decode raw ≡ some u
      → find_id id rows ≡ some u

  -- The same, but for one id.
  abbrev pub CoherentBut : String → List Row → Cache → Type 0
  CoherentBut but rows m =
      (now : ℕ) (id raw : String) (u : User)
      → (but == id) ≡ false
      → get now (id_key id) m ≡ some raw
      → env.decode raw ≡ some u
      → find_id id rows ≡ some u

  pub record IsSound (d : UserDb) : Type 0 where
    pub unique : Unique row_key d.rows
    pub coherent : Coherent d.rows d.cache

  abbrev pub sound : Preorder UserWorld
  sound = record {
    rel = λ w v. IsSound w.db → IsSound v.db;
    stay = λ w s. s;
    trans = λ u v w p q s. q (p s);
  }

  module _ (rows : List Row) (m : Cache) where
    Coherent-del : (k : String) → Coherent rows m → Coherent rows (del k m)
    Coherent-del k c now id raw u hit =
        c now id raw u (ground (arith, hit, get-del now k (id_key id) m))

    pub CoherentBut-del : (id k : String) → CoherentBut id rows m → CoherentBut id rows (del k m)
    CoherentBut-del but k c now id raw u other hit =
        c now id raw u other (ground (arith, hit, get-del now k (id_key id) m))

    pub Coherent-del_id : (id : String) → CoherentBut id rows m → Coherent rows (del (id_key id) m)
    Coherent-del_id k c now id raw u hit = elim (Bool-cases (k == id)) [
      | inl e ↦ absurd (ground (arith, hit, get-del now (id_key k) (id_key id) m, id_key-eq k id))
      | inr e ↦
          c now id raw u e
            (ground (arith, hit, get-del now (id_key k) (id_key id) m, id_key-eq k id))
    ]

    Coherent-set_email :
        (at ttl : ℕ) (email v : String)
        → Coherent rows m
        → Coherent rows (set at ttl (email_key email) v m)
    Coherent-set_email at ttl email v c now id raw u hit = c now id raw u (
        ground
          (arith, hit, get-set at now ttl (email_key email) (id_key id) v m, keys_differ email id))

    module _ (decodes : (u v : User) → env.decode (env.encode u) ≡ some v → v ≡ u) where
      Coherent-set_id :
          (at ttl : ℕ) (u : User)
          → find_id u.id rows ≡ some u
          → Coherent rows m
          → Coherent rows (set at ttl (id_key u.id) (env.encode u) m)
      Coherent-set_id at ttl u here c now id raw v hit read = elim (Bool-cases (u.id == id)) [
        | inl e ↦
            let law = get-set at now ttl (id_key u.id) (id_key id) (env.encode u) m in
            let same : env.encode u ≡ raw = ground (arith, hit, law, id_key-eq u.id id, e) in
            let one : v ≡ u = decodes u v (ap env.decode same ∙ read) in
            subst (λ k. find_id k rows ≡ some v) ((eq_iff u.id id).0 e)
              (here ∙ ap (λ (x : User). some x) (sym one))
        | inr e ↦
            c now id raw v
              (ground (
                arith,
                hit,
                get-set at now ttl (id_key u.id) (id_key id) (env.encode u) m,
                id_key-eq u.id id,
                e,
              ))
              read
      ]

  module _ (decodes : (u v : User) → env.decode (env.encode u) ≡ some v → v ≡ u)
      (up : (n : ℕ) → env.pg.fault n ≡ none) where
    open env use {pg, has_cache, ttl, unicode}

    -- What a command on the cache does.
    pub command_db :
        (f : ℕ → Cache → Cache) (w : UserWorld)
        → (Repository.command env f w).1.db
          ≡ record (w.db) { cache = if has_cache then f w.calls w.db.cache else w.db.cache }
    unfolding Repository.command program statement
    command_db f w = ground (arith, up w.calls)

    abbrev pub Keeps : {A : Type 0} → App A → UserWorld → Type 0
    Keeps m w = Moves sound m w

    pub with_cache :
        (w : UserWorld) (m : Cache)
        → (Coherent w.db.rows w.db.cache → Coherent w.db.rows m)
        → IsSound w.db
        → IsSound (record (w.db) { cache = m })
    with_cache w m k s = record { unique = s.unique; coherent = k s.coherent }

    pub Keeps-command :
        (f : ℕ → Cache → Cache) (w : UserWorld)
        → (Coherent w.db.rows w.db.cache → Coherent w.db.rows (f w.calls w.db.cache))
        → Keeps (Repository.command env f) w
    Keeps-command f w k = record {
      at = λ s. subst (λ d. IsSound d) (sym (command_db f w)) (go has_cache s);
    }
      where
        go :
            (b : Bool)
            → IsSound w.db
            → IsSound (record (w.db) { cache = if b then f w.calls w.db.cache else w.db.cache })
        go true s = with_cache w (f w.calls w.db.cache) k s
        go false s = s

    pub Keeps-still : {A : Type 0} (m : App A) (w : UserWorld) → (m w).1.db ≡ w.db → Keeps m w
    Keeps-still m w e = record { at = λ s. subst (λ d. IsSound d) (sym e) s }

    pub Keeps-to_cache :
        (u : User) (w : UserWorld)
        → find_id u.id w.db.rows ≡ some u
        → Keeps (Repository.to_cache env u) w
    unfolding Repository.to_cache
    Keeps-to_cache u w here =
        Moves-bind sound _ _ w
          (Keeps-command _ w (Coherent-set_id w.db.rows w.db.cache decodes _ ttl u here))
          λ _ _. Keeps-command _ _ (Coherent-set_email _ _ _ ttl _ _)

    pub from_cache_db :
        (key : String) (w : UserWorld) → (Repository.from_cache env key w).1.db ≡ w.db
    unfolding Repository.from_cache statement
    from_cache_db key w = ground (arith, up w.calls)

    -- A query that found a user whom the table holds under the same id.
    pub Keeps-or_query :
        (query : App User) (o : Option User) (w : UserWorld)
        → ((query w).1.db ≡ w.db)
        → ((u : User) → (query w).0 ≡ ok u → IsSound w.db → find_id u.id w.db.rows ≡ some u)
        → Keeps (Repository.or_query env query o) w
    Keeps-or_query query (some u) w same finds = Moves-pure sound u w
    Keeps-or_query query none w same finds = record {
      at = λ s.
          (Moves-bind sound _ _ w (Keeps-still query w same) λ u e.
              Moves-bind sound _ _ _
                (Keeps-to_cache u _
                  (subst (λ (d : UserDb). find_id u.id d.rows ≡ some u) (sym same) (finds u e s)))
                λ _ _. Moves-pure sound u _).at
            s;
    }

    pub query_db :
        (q : ℕ → UserDb → Result UserError User) (w : UserWorld)
        → (label "query user" (statement pg (λ n d. (q n d, d))) w).1.db ≡ w.db
    unfolding label statement
    query_db q w = ground (arith, up w.calls)

    pub of_found : (o : Option User) (u : User) → Repository.found o ≡ ok u → o ≡ some u
    of_found none u e = cc
    of_found (some v) u e = cc

    of_read :
        (o : Option String) (rows : List Row) (u : User)
        → Repository.read_by o rows ≡ ok u
        → find_id u.id rows ≡ some u
    of_read none rows u e = absurd (ground (arith, e))
    of_read (some k) rows u e =
        let here = of_found _ u e in
        subst (λ i. find_id i rows ≡ some u) (sym (find_id-own k rows here)) here

    pub Keeps-get_by_id : (id : String) (w : UserWorld) → Keeps (Repository.get_by_id env id) w
    unfolding Repository.get_by_id
    Keeps-get_by_id id w = Moves-fail_if sound _ _ _ w λ _.
        Moves-bind sound _ _ w (Keeps-still _ w (from_cache_db _ w)) λ hit _.
          Keeps-or_query _ hit _ (query_db _ _)
            λ u e s. of_read (env.uuid_text (trim_space id)) _ u (query_ok pg "query user" _ _ e).0

    pub Keeps-get_by_email :
        (email : String) (w : UserWorld) → Keeps (Repository.get_by_email env email) w
    unfolding Repository.get_by_email
    Keeps-get_by_email email w = Moves-fail_if sound _ _ _ w λ _.
        Moves-bind sound _ _ w (Keeps-still _ w (from_cache_db _ w)) λ hit _.
          Keeps-or_query _ hit _ (query_db _ _) λ u e s.
            let here = of_found _ u (query_ok pg "query user" _ _ e).0 in
            find_id-of_email _ _ s.unique here
