-- ===== src/User/Requests.antt =====
-- No request makes a new user.
use docflow_web.Base.{String, ◌≡◌, refl, none, List, [], ◌∷◌}
use docflow_web.Base.Paging.{ℤ}
use docflow_web.Base.Table.{find}
use docflow_web.Base.Moves.{Moves-wrap, Moves-bind, Moves-fail_if}
use docflow_web.Base.Statements.{Moves-query}
use docflow_web.User.Domain.{CreateInput, UpdateInput}
use docflow_web.User.Repository
use docflow_web.User.Repository.{
  UserDb, UserWorld, UserEnv, App, Row, row_key, is_user, on_user, affect, recover, recovered,
  with_deleted, with_verified, with_ban, with_fields,
}
use docflow_web.User.Service
use docflow_web.User.Members.{
  closed, Holds-get_by_id, Holds-get_by_email, Holds-get_batch, Holds-create, Holds-update,
  Holds-verify_email, Holds-ban, Holds-delete, Holds-list,
}

-- What may be asked of the service. Nothing calls `CreateUserWithID`.
pub data Request : Type 0 where
  get_user : String → Request
  get_user_by_email : String → Request
  update_user : String → UpdateInput → Request
  delete_user : String → Request
  list_users : ℤ → ℤ → String → Request
  create_user : CreateInput → Request
  get_users_batch : List String → Request
  check_user_exists : String → Request
  verify_user_email : String → Request
  ban_user : String → String → String → Request
  get_user_stats : Request

module _ (env : UserEnv) where
  open env use {pg}

  abbrev pub respond : Request → UserWorld → UserWorld
  respond (get_user id) w = (Service.get_user env id w).1
  respond (get_user_by_email email) w = (Service.get_user_by_email env email w).1
  respond (update_user id i) w = (Service.update_user env id i w).1
  respond (delete_user id) w = (Service.delete_user env id w).1
  respond (list_users page size role) w = (Service.list_users env page size role w).1
  respond (create_user i) w = (Service.create_user env i w).1
  respond (get_users_batch ids) w = (Service.get_users_batch env ids w).1
  respond (check_user_exists email) w = (Service.check_user_exists env email w).1
  respond (verify_user_email id) w = (Service.verify_user_email env id w).1
  respond (ban_user id admin reason) w = (Service.ban_user env id admin reason w).1
  respond get_user_stats w = (Service.get_user_stats env w).1

  abbrev pub serve : UserWorld → List Request → UserWorld
  serve w [] = w
  serve w (r ∷ rs) = serve (respond r w) rs

  respond-closed : (r : Request) (w : UserWorld) → closed.rel w.db (respond r w).db
  unfolding Service.get_user Service.get_user_by_email Service.update_user Service.delete_user
      Service.list_users Service.create_user Service.get_users_batch Service.check_user_exists
      Service.verify_user_email Service.ban_user Service.get_user_stats Repository.check_exists
      Repository.get_stats
  respond-closed (get_user id) w = (Holds-get_by_id env id w).at
  respond-closed (get_user_by_email email) w = (Holds-get_by_email env email w).at
  respond-closed (update_user id i) w =
      (Moves-bind _ _ _ w (record { at = λ id e. e }) λ j _. Holds-update env id j w).at
  respond-closed (delete_user id) w = (Holds-delete env id w).at
  respond-closed (list_users page size role) w = (Holds-list env _ _ w).at
  respond-closed (create_user i) w =
      (Moves-bind _ _ _ w (record { at = λ id e. e }) λ j _. Holds-create env j w).at
  respond-closed (get_users_batch ids) w = (Holds-get_batch env ids w).at
  respond-closed (check_user_exists email) w =
      (Moves-fail_if _ _ _ _ w λ _. Moves-wrap _ _ _ w (Moves-query closed pg _ w λ n d. refl)).at
  respond-closed (verify_user_email id) w = (Holds-verify_email env id w).at
  respond-closed (ban_user id admin reason) w = (Holds-ban env id admin reason w).at
  respond-closed get_user_stats w = (Moves-wrap _ _ _ w (Moves-query closed pg _ w λ n d. refl)).at

  -- Whatever requests come, and whichever calls of the servers fail, no row of the table of users
  -- has an id that no row had before: `CreateUser` creates nobody.
  pub serve_users-no_one_new :
      (w : UserWorld) (rs : List Request) (id : String)
      → find row_key id w.db.rows ≡ none
      → find row_key id (serve w rs).db.rows ≡ none
  serve_users-no_one_new w [] id h = h
  serve_users-no_one_new w (r ∷ rs) id h =
      serve_users-no_one_new (respond r w) rs id (respond-closed r w id h)
