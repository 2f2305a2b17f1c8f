-- ===== src/User/Service.antt =====
-- services/user-service/internal/service/user_service.go, and `mapError` of its gRPC server.
use docflow_web.Base.{String, Bool, Option, none, some, List, ℕ}
use docflow_web.Base.Text.{trim_space}
use docflow_web.Base.Paging.{ℤ, normalize}
use docflow_web.Base.Status.{
  Code, not_found, invalid_argument, permission_denied, internal, already_exists,
}
use docflow_web.Base.Exec.{◌>>=◌}
use docflow_web.User.Domain.{
  UserError, user_not_found, email_taken, user_banned, invalid_input, User, CreateInput,
  UpdateInput, UserStats, validate_create, validate_update,
}
use docflow_web.User.Repository
use docflow_web.User.Repository.{UserEnv, App, lift}

module _ (env : UserEnv) where
  unfoldable pub get_user : String → App User
  get_user id = Repository.get_by_id env id

  unfoldable pub get_user_by_email : String → App User
  get_user_by_email email = Repository.get_by_email env email

  unfoldable pub update_user : String → UpdateInput → App User
  update_user id raw = do input ← lift env (validate_update raw); Repository.update env id input

  unfoldable pub delete_user : String → App (Unit {0})
  delete_user id = Repository.delete env id

  unfoldable pub list_users : ℤ → ℤ → String → App (List User × ℕ)
  list_users page page_size role = Repository.list env (normalize page page_size) (trim_space role)

  unfoldable pub create_user : CreateInput → App User
  create_user raw = do
    input ← lift env (validate_create env.unicode raw)
    Repository.create env input

  unfoldable pub create_user_with_id : String → CreateInput → App User
  create_user_with_id id raw = do
    input ← lift env (validate_create env.unicode raw)
    Repository.create_with_id env id input

  unfoldable pub get_users_batch : List String → App (List User)
  get_users_batch ids = Repository.get_batch env ids

  unfoldable pub check_user_exists : String → App (Bool × String)
  check_user_exists email = Repository.check_exists env email

  unfoldable pub verify_user_email : String → App (Unit {0})
  verify_user_email id = Repository.verify_email env id

  unfoldable pub ban_user : String → String → String → App (Unit {0})
  ban_user id admin_id reason = Repository.ban env id admin_id reason

  unfoldable pub get_user_stats : App UserStats
  get_user_stats = Repository.get_stats env

-- The `switch` over `errors.Is`, by the sentinel that the chain holds.
unfoldable pub code_for : Option UserError → Code
code_for (some user_not_found) = not_found
code_for (some email_taken) = already_exists
code_for (some invalid_input) = invalid_argument
code_for (some user_banned) = permission_denied
code_for none = internal
