-- ===== src/Auth/Spent.antt =====
-- A refresh token buys at most one pair, whatever the requests in between.
use docflow_web.Base.{String, Option, none, some, List, [], ◌∷◌, arith, ◌⊎◌, inl, inr}
use docflow_web.Base.Exec.{program, Result, ok, err, cause}
use docflow_web.Base.Moves.{Moves-pure, Moves-bind, Moves-fail_if, Moves-ignore, Moves-if}
use docflow_web.Auth.Domain.{AuthError, AuthUser, RegisterInput, LoginInput, user_not_found}
use docflow_web.Auth.Repository
use docflow_web.Auth.Repository.{AuthDb, AuthWorld, App, hash_of, is_open}
use docflow_web.Auth.Service
use docflow_web.Auth.Service.{AuthEnv}
use docflow_web.Auth.Tokens

-- What may be asked of the service, and changes something.
pub data Request : Type 0 where
  register : RegisterInput → Request
  login : LoginInput → Request
  refresh : String → Request
  logout : String → String → Request
  verify_email : String → Request
  forgot_password : String → Request
  reset_password : String → String → Request
  change_password : String → String → String → Request
  get_session : String → Request
  revoke_all_sessions : String → Request

module _ (env : AuthEnv) where
  open env use {pg, unicode, digest, has_cache}

  abbrev pub respond : Request → AuthWorld → AuthWorld
  respond (register i) w = (Service.register env i w).1
  respond (login i) w = (Service.login env i w).1
  respond (refresh t) w = (Service.refresh_token env t w).1
  respond (logout id t) w = (Service.logout env id t w).1
  respond (verify_email t) w = (Service.verify_email env t w).1
  respond (forgot_password email) w = (Service.forgot_password env email w).1
  respond (reset_password t p) w = (Service.reset_password env t p w).1
  respond (change_password id p q) w = (Service.change_password env id p q w).1
  respond (get_session id) w = (Service.get_session env id w).1
  respond (revoke_all_sessions id) w = (Service.revoke_all_sessions env id w).1

  abbrev pub serve : AuthWorld → List Request → AuthWorld
  serve w [] = w
  serve w (r ∷ rs) = serve (respond r w) rs

  module _ (h : String) where
    abbrev pub Holds : {A : Type 0} → App A → AuthWorld → Type 0
    Holds m w = Tokens.Holds h m w

    Holds-called :
        {A : Type 0} (msg : String) (r : String ⊎ A) (w : AuthWorld)
        → Holds (Service.called msg r) w
    unfolding program
    Holds-called msg (inl text) w = record { at = λ s. s }
    Holds-called msg (inr a) w = record { at = λ s. s }

    Holds-hash_password : (p : String) (w : AuthWorld) → Holds (Service.hash_password env p) w
    Holds-hash_password p w = record {
      at = (Holds-called "hash password" (env.generate w.calls p) w).at;
    }

    Holds-send_mail : (m : Repository.Mail) (w : AuthWorld) → Holds (Service.send_mail env m) w
    Holds-send_mail m w = record { at = ground arith }

    Holds-call_users :
        (c : Repository.UserCall) (w : AuthWorld) → Holds (Service.call_users env c) w
    Holds-call_users c w = record { at = ground arith }

    Holds-drop_session : (id : String) (w : AuthWorld) → Holds (Service.drop_session env id) w
    unfolding Repository.delete_session
    Holds-drop_session id w =
        Moves-ignore _ _ w (Tokens.Holds-command h pg unicode digest has_cache _ w)

    Holds-register : (i : RegisterInput) (w : AuthWorld) → Holds (Service.register env i) w
    unfolding Service.register Repository.store_verification_token
    Holds-register i w =
        Moves-bind _ _ _ w (record { at = λ s. s })
          λ m _. Moves-bind _ _ _ w (Holds-hash_password _ w) λ hash _.
            Moves-bind _ _ _ _ (Tokens.Holds-create_user h pg unicode digest _ _ _ _) λ id _.
              Moves-bind _ _ _ _ (record { at = λ s. s })
                λ token _.
                  Moves-bind _ _ _ _
                    (Moves-ignore _ _ _ (Tokens.Holds-command h pg unicode digest has_cache _ _))
                    λ _ _.
                      Moves-bind _ _ _ _ (Holds-send_mail _ _)
                        λ _ _. Moves-bind _ _ _ _ (Holds-call_users _ _) λ _ _. Moves-pure _ _ _

    Holds-issue_token_pair :
        (user : AuthUser) (w : AuthWorld) → Holds (Service.issue_token_pair env user) w
    unfolding Service.issue_token_pair
    Holds-issue_token_pair user w =
        Moves-bind _ _ _ w (record { at = λ s. s })
          λ now _.
            Moves-bind _ _ _ _ (record { at = λ s. s })
              λ jti _. Moves-bind _ _ _ _ (Holds-called _ _ _) λ access _.
                Moves-bind _ _ _ _ (record { at = λ s. s })
                  λ token _.
                    Moves-bind _ _ _ _
                      (Tokens.Holds-create_refresh_token h pg unicode digest _ _ _ _)
                      λ _ _. Moves-pure _ _ _

    Holds-login : (i : LoginInput) (w : AuthWorld) → Holds (Service.login env i) w
    unfolding Service.login Repository.store_session
    Holds-login i w =
        Moves-bind _ _ _ w (record { at = λ s. s })
          λ m _.
            Moves-bind _ _ _ w
              (Tokens.Holds-translated h _ _ w
                (Tokens.Holds-get_user_by_email h pg unicode digest _ w))
              λ user _. Moves-fail_if _ _ _ _ _ λ _. Moves-fail_if _ _ _ _ _ λ _.
                Moves-bind _ _ _ _ (Holds-issue_token_pair user _) λ pair _.
                  Moves-bind _ _ _ _ (record { at = λ s. s })
                    λ now _.
                      Moves-bind _ _ _ _
                        (Moves-ignore _ _ _
                          (Tokens.Holds-command h pg unicode digest has_cache _ _))
                        λ _ _. Moves-pure _ _ _

    pub Holds-reissue : (id : String) (w : AuthWorld) → Holds (Service.reissue env id) w
    Holds-reissue id w =
        Moves-bind _ _ _ w (Tokens.Holds-get_user_by_id h pg unicode digest _ _)
          λ user _. Moves-fail_if _ _ _ _ _ λ _. Holds-issue_token_pair user _

    Holds-refresh_token : (t : String) (w : AuthWorld) → Holds (Service.refresh_token env t) w
    unfolding Service.refresh_token
    Holds-refresh_token t w = Moves-fail_if _ _ _ _ w λ _.
        Moves-bind _ _ _ w (Tokens.Holds-find_refresh_token h pg unicode digest t w) λ r _.
          Moves-bind _ _ _ _ (record { at = λ s. s })
            λ now _. Moves-fail_if _ _ _ _ _ λ _.
              Moves-bind _ _ _ _ (Tokens.Holds-revoke_refresh_token h pg unicode digest t _)
                λ _ _. Holds-reissue _ _

    Holds-logout : (id t : String) (w : AuthWorld) → Holds (Service.logout env id t) w
    unfolding Service.logout
    Holds-logout id t w = Moves-fail_if _ _ _ _ w λ _.
        Moves-bind _ _ _ w (Tokens.Holds-revoke_refresh_token h pg unicode digest t w)
          λ _ _. Moves-if _ _ _ _ _ (Moves-pure _ _ _) (Holds-drop_session _ _)

    Holds-verify_email : (t : String) (w : AuthWorld) → Holds (Service.verify_email env t) w
    unfolding Service.verify_email Repository.get_verification_token
        Repository.delete_verification_token
    Holds-verify_email t w = Moves-fail_if _ _ _ _ w λ _.
        Moves-bind _ _ _ w
          (Tokens.Holds-translated h _ _ w
            (Tokens.Holds-lookup_key h pg unicode digest has_cache _ _ w))
          λ id _. Moves-bind _ _ _ _ (Tokens.Holds-mark_verified h pg unicode digest _ _) λ _ _.
            Moves-bind _ _ _ _
              (Moves-ignore _ _ _ (Tokens.Holds-command h pg unicode digest has_cache _ _))
              λ _ _. Holds-call_users _ _

    Holds-send_reset : (user : AuthUser) (w : AuthWorld) → Holds (Service.send_reset env user) w
    unfolding Repository.store_password_reset_token
    Holds-send_reset user w =
        Moves-bind _ _ _ w (record { at = λ s. s })
          λ token _.
            Moves-bind _ _ _ _ (Tokens.Holds-command h pg unicode digest has_cache _ _)
              λ _ _. Holds-send_mail _ _

    Holds-forgot_found :
        (r : Result AuthError AuthUser) (w : AuthWorld) → Holds (Service.forgot_found env r) w
    unfolding program
    Holds-forgot_found (ok user) w = Holds-send_reset user w
    Holds-forgot_found (err e) w = go (cause e)
      where
        go : (o : Option AuthError) → Holds (Service.forgiven env e o) w
        go none = record { at = λ s. s }
        go (some user_not_found) = record { at = λ s. s }
        go (some x) = record { at = λ s. s }

    Holds-forgot_password :
        (email : String) (w : AuthWorld) → Holds (Service.forgot_password env email) w
    unfolding Service.forgot_password
    Holds-forgot_password email w = Moves-fail_if _ _ _ _ w λ _. record {
      at = λ s.
          (Holds-forgot_found (Repository.get_user_by_email pg unicode digest email w).0
              (Repository.get_user_by_email pg unicode digest email w).1).at
            ((Tokens.Holds-get_user_by_email h pg unicode digest email w).at s);
    }

    Holds-replace_password :
        (id p : String) (w : AuthWorld) → Holds (Service.replace_password env id p) w
    Holds-replace_password id p w =
        Moves-bind _ _ _ w (Holds-hash_password p w)
          λ hash _. Tokens.Holds-update_password h pg unicode digest _ _ _

    Holds-end_sessions : (id : String) (w : AuthWorld) → Holds (Service.end_sessions env id) w
    Holds-end_sessions id w =
        Moves-bind _ _ _ w
          (Moves-ignore _ _ w (Tokens.Holds-revoke_all_refresh_tokens h pg unicode digest id w))
          λ _ _. Holds-drop_session id _

    Holds-reset_password : (t p : String) (w : AuthWorld) → Holds (Service.reset_password env t p) w
    unfolding Service.reset_password Repository.get_password_reset_token
        Repository.delete_password_reset_token
    Holds-reset_password t p w = Moves-fail_if _ _ _ _ w λ _. Moves-fail_if _ _ _ _ w λ _.
        Moves-bind _ _ _ w
          (Tokens.Holds-translated h _ _ w
            (Tokens.Holds-lookup_key h pg unicode digest has_cache _ _ w))
          λ id _. Moves-bind _ _ _ _ (Holds-replace_password _ _ _) λ _ _.
            Moves-bind _ _ _ _
              (Moves-ignore _ _ _ (Tokens.Holds-command h pg unicode digest has_cache _ _))
              λ _ _. Holds-end_sessions _ _

    Holds-change_password :
        (id p q : String) (w : AuthWorld) → Holds (Service.change_password env id p q) w
    unfolding Service.change_password
    Holds-change_password id p q w = Moves-fail_if _ _ _ _ w λ _. Moves-fail_if _ _ _ _ w λ _.
        Moves-bind _ _ _ w (Tokens.Holds-get_user_by_id h pg unicode digest _ w) λ user _.
          Moves-fail_if _ _ _ _ _
            λ _. Moves-bind _ _ _ _ (Holds-replace_password _ _ _) λ _ _. Holds-end_sessions _ _

    Holds-session_or :
        (o : Option Service.SessionInfo) (id : String) (w : AuthWorld)
        → Holds (Service.session_or env o id) w
    Holds-session_or (some s) id w = Moves-pure _ s w
    Holds-session_or none id w =
        Moves-bind _ _ _ w (Tokens.Holds-get_user_by_id h pg unicode digest _ w)
          λ user _. Moves-bind _ _ _ _ (record { at = λ s. s }) λ now _. Moves-pure _ _ _

    Holds-get_session : (id : String) (w : AuthWorld) → Holds (Service.get_session env id) w
    unfolding Service.get_session Repository.get_session
    Holds-get_session id w = Moves-fail_if _ _ _ _ w λ _. record {
      at = λ s.
          (Holds-session_or _ _ _).at
            ((Tokens.Holds-lookup_key h pg unicode digest has_cache "get session" _ w).at s);
    }

    Holds-revoke_all_sessions :
        (id : String) (w : AuthWorld) → Holds (Service.revoke_all_sessions env id) w
    unfolding Service.revoke_all_sessions
    Holds-revoke_all_sessions id w = Moves-fail_if _ _ _ _ w λ _.
        Moves-bind _ _ _ w (Tokens.Holds-revoke_all_refresh_tokens h pg unicode digest id w)
          λ n _. Moves-bind _ _ _ _ (Holds-drop_session _ _) λ _ _. Moves-pure _ _ _

    respond-IsSpent :
        (r : Request) (w : AuthWorld)
        → Tokens.IsSpent h w.db.tokens
        → Tokens.IsSpent h (respond r w).db.tokens
    respond-IsSpent (register i) w = (Holds-register i w).at
    respond-IsSpent (login i) w = (Holds-login i w).at
    respond-IsSpent (refresh t) w = (Holds-refresh_token t w).at
    respond-IsSpent (logout id t) w = (Holds-logout id t w).at
    respond-IsSpent (verify_email t) w = (Holds-verify_email t w).at
    respond-IsSpent (forgot_password email) w = (Holds-forgot_password email w).at
    respond-IsSpent (reset_password t p) w = (Holds-reset_password t p w).at
    respond-IsSpent (change_password id p q) w = (Holds-change_password id p q w).at
    respond-IsSpent (get_session id) w = (Holds-get_session id w).at
    respond-IsSpent (revoke_all_sessions id) w = (Holds-revoke_all_sessions id w).at

    pub serve-IsSpent :
        (w : AuthWorld) (rs : List Request)
        → Tokens.IsSpent h w.db.tokens
        → Tokens.IsSpent h (serve w rs).db.tokens
    serve-IsSpent w [] s = s
    serve-IsSpent w (r ∷ rs) s = serve-IsSpent (respond r w) rs (respond-IsSpent r w s)
