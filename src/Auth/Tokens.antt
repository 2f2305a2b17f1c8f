-- ===== src/Auth/Tokens.antt =====
-- What becomes of a refresh token: once it is revoked, no request makes it usable again.
use docflow_web.Base.{
  ℕ, String, ◌≡◌, refl, sym, ◌∙◌, Bool, true, false, ◌==◌, Option, none, some, List, ◌∷◌, arith,
  eq_iff, Bool-cases, inl, inr, ◌&&◌,
}
use docflow_web.Base.Unicode.{Unicode}
use docflow_web.Base.Redis.{Cache}
use mathlib.Core.Path.{subst}
use docflow_web.Base.Exec.{raise}
use docflow_web.Base.Postgres.{Postgres}
use docflow_web.Base.Table.{update_where, find, find-cons, find-update_where, is_key}
use docflow_web.Base.Moves.{
  Preorder, Moves, Moves-wrap, Moves-label, Moves-pure, Moves-bind, Moves-fail_if, Moves-if,
}
use docflow_web.Base.Statements.{on_db, Moves-statement}
use docflow_web.Auth.Domain.{AuthError, AuthUser, RefreshToken}
use docflow_web.Auth.Repository
use docflow_web.Auth.Repository.{
  AuthDb, AuthWorld, App, user_key, email_of, hash_of, is_open, is_none, insert_user, insert_token,
  affect, create_answer, with_revoked, with_verified, with_password,
}
use docflow_web.Auth.Service.{translated}
use docflow_web.Base.Text.{trim_space}

-- The token with this hash is known, and revoked.
pub record IsSpent (h : String) (tokens : List RefreshToken) : Type 0 where
  pub row : RefreshToken
  pub known : find hash_of h tokens ≡ some row
  pub revoked : is_open row ≡ false

abbrev pub spent : String → Preorder AuthDb
spent h = record {
  rel = λ d e. IsSpent h d.tokens → IsSpent h e.tokens;
  stay = λ d s. s;
  trans = λ c d e p q s. q (p s);
}

module _ (h : String) (d : AuthDb) where
  abbrev Keeps : AuthDb → Type 0
  Keeps e = IsSpent h d.tokens → IsSpent h e.tokens

  -- What changes nothing about the tokens.
  insert_user-Keeps : (row : AuthUser) → Keeps (insert_user row d).1
  insert_user-Keeps row s = ground arith

  -- A hash that is new is not that of the spent token.
  behind :
      (row : RefreshToken)
      → is_none (find hash_of row.token_hash d.tokens) ≡ true
      → (s : IsSpent h d.tokens) → find hash_of h (row ∷ d.tokens) ≡ some s.row
  behind row n s = rw (find-cons hash_of h row d.tokens) (elim (Bool-cases (row.token_hash == h)) [
    | inl e ↦
        let taken : is_none (find hash_of row.token_hash d.tokens) ≡ false =
          rw ((eq_iff row.token_hash h).0 e, s.known) refl in
        differ (sym n ∙ taken)
    | inr e ↦ rw e s.known
  ])
    where
      differ : {P : Type 0} → true ≡ false → P
      differ q = cc

  insert_token-Keeps : (row : RefreshToken) → Keeps (insert_token row d).1
  insert_token-Keeps row s = elim (Bool-cases (is_none (find user_key row.user_id d.users))) [
    | inl e ↦ rw e s
    | inr e ↦ rw e (elim (Bool-cases (is_none (find hash_of row.token_hash d.tokens))) [
      | inl n ↦ rw n (record { row = s.row; known = behind row n s; revoked = s.revoked })
      | inr n ↦ rw n s
    ])
  ]

  revoke-Keeps :
      (p : RefreshToken → Bool) (now : ℕ)
      → Keeps
          (record d { tokens = update_where (λ t. p t && is_open t) (with_revoked now) d.tokens })
  revoke-Keeps p now s = record {
    row = s.row;
    known =
        rw (find-update_where hash_of _ (with_revoked now) (λ r. refl) h d.tokens, s.known)
          (ground (arith, s.revoked));
    revoked = s.revoked;
  }

module _ (h : String) where
  abbrev pub Holds : {A : Type 0} → App A → AuthWorld → Type 0
  Holds m w = Moves (on_db (spent h)) m w

  pub Holds-still : {A : Type 0} (m : App A) (w : AuthWorld) → (m w).1.db ≡ w.db → Holds m w
  Holds-still m w e = record { at = λ s. subst (λ d. IsSpent h d.tokens) (sym e) s }

  pub Holds-translated :
      {A : Type 0} (f : AuthError → Option AuthError) (m : App A) (w : AuthWorld)
      → Holds m w
      → Holds (translated f m) w
  unfolding translated
  Holds-translated f m w k = record { at = k.at }

  module _ (pg : Postgres) (u : Unicode) (digest : String → String) where
    pub Holds-create_user :
        (email hash role : String) (w : AuthWorld)
        → Holds (Repository.create_user pg u digest email hash role) w
    unfolding Repository.create_user
    Holds-create_user email hash role w = record {
      at =
          (Moves-statement (spent h) pg _ w (
            insert_user-Keeps h w.db (Repository.new_user pg u digest w.calls email hash role))).at;
    }

    pub Holds-get_user_by_email :
        (email : String) (w : AuthWorld) → Holds (Repository.get_user_by_email pg u digest email) w
    unfolding Repository.get_user_by_email
    Holds-get_user_by_email email w = Moves-label _ _ _ w (Moves-statement (spent h) pg _ w λ s. s)

    pub Holds-get_user_by_id :
        (id : String) (w : AuthWorld) → Holds (Repository.get_user_by_id pg u digest id) w
    unfolding Repository.get_user_by_id
    Holds-get_user_by_id id w = Moves-label _ _ _ w (Moves-statement (spent h) pg _ w λ s. s)

    affect-Keeps :
        (o : Option AuthUser) (d : AuthDb) (users : List AuthUser)
        → IsSpent h d.tokens
        → IsSpent h (affect o d (record d { users = users })).1.tokens
    affect-Keeps none d users s = s
    affect-Keeps (some r) d users s = s

    Holds-update_user :
        (msg id : String) (f : ℕ → AuthUser → AuthUser) (w : AuthWorld)
        → Holds (Repository.update_user pg u digest msg id f) w
    Holds-update_user msg id f w = Moves-label _ _ _ w (
        Moves-statement (spent h) pg _ w (
          affect-Keeps (find user_key (trim_space id) w.db.users) w.db
            (update_where (is_key user_key (trim_space id)) (f (pg.now w.calls)) w.db.users)))

    pub Holds-mark_verified :
        (id : String) (w : AuthWorld) → Holds (Repository.mark_verified pg u digest id) w
    unfolding Repository.mark_verified
    Holds-mark_verified id w = Holds-update_user _ _ with_verified w

    pub Holds-update_password :
        (id hash : String) (w : AuthWorld)
        → Holds (Repository.update_password pg u digest id hash) w
    unfolding Repository.update_password
    Holds-update_password id hash w = Holds-update_user _ _ (with_password hash) w

    pub Holds-create_refresh_token :
        (user_id token : String) (at : ℕ) (w : AuthWorld)
        → Holds (Repository.create_refresh_token pg u digest user_id token at) w
    unfolding Repository.create_refresh_token
    Holds-create_refresh_token user_id token at w =
        Moves-wrap _ _ _ w (Moves-statement (spent h) pg _ w (insert_token-Keeps h w.db _))

    pub Holds-find_refresh_token :
        (token : String) (w : AuthWorld) → Holds (Repository.find_refresh_token pg u digest token) w
    unfolding Repository.find_refresh_token
    Holds-find_refresh_token token w =
        Moves-bind _ _ _ w (Moves-label _ _ _ w (Moves-statement (spent h) pg _ w λ s. s))
          λ r _. Moves-fail_if _ _ _ _ _ λ _. Moves-pure _ _ _

    pub Holds-revoke_refresh_token :
        (token : String) (w : AuthWorld)
        → Holds (Repository.revoke_refresh_token pg u digest token) w
    unfolding Repository.revoke_refresh_token
    Holds-revoke_refresh_token token w =
        Moves-wrap _ _ _ w (Moves-statement (spent h) pg _ w (revoke-Keeps h w.db _ _))

    pub Holds-revoke_all_refresh_tokens :
        (user_id : String) (w : AuthWorld)
        → Holds (Repository.revoke_all_refresh_tokens pg u digest user_id) w
    unfolding Repository.revoke_all_refresh_tokens
    Holds-revoke_all_refresh_tokens user_id w =
        Moves-wrap _ _ _ w (Moves-statement (spent h) pg _ w (revoke-Keeps h w.db _ _))

    module _ (has_cache : Bool) where
      pub Holds-command :
          (f : ℕ → Cache → Cache) (w : AuthWorld)
          → Holds (Repository.command pg u digest has_cache f) w
      Holds-command f w =
          Moves-if _ _ _ _ w (Moves-statement (spent h) pg _ w λ s. s) (Moves-pure _ _ w)

      pub Holds-lookup_key :
          (msg key : String) (w : AuthWorld)
          → Holds (Repository.lookup_key pg u digest has_cache msg key) w
      unfolding raise
      Holds-lookup_key msg key w = go has_cache
        where
          go : (b : Bool) → Holds (Repository.lookup_key pg u digest b msg key) w
          go true = Moves-label _ _ _ w (Moves-statement (spent h) pg _ w λ s. s)
          go false = record { at = λ s. s }
