-- ===== src/Auth/Errors.antt =====
-- `mapError` of services/auth-service/internal/transport/grpc/server.go.
use docflow_web.Base.{Option, none, some}
use docflow_web.Base.Status.{
  Code, not_found, invalid_argument, permission_denied, internal, already_exists, unauthenticated,
}
use docflow_web.Auth.Domain.{
  AuthError, user_not_found, email_taken, invalid_input, unauthorized, token_expired, token_invalid,
  token_not_found, user_banned, user_inactive,
}

-- The `switch` over `errors.Is`, by the sentinel that the chain holds.
unfoldable pub code_for : Option AuthError → Code
code_for (some user_not_found) = not_found
code_for (some email_taken) = already_exists
code_for (some invalid_input) = invalid_argument
code_for (some unauthorized) = unauthenticated
code_for (some token_expired) = unauthenticated
code_for (some token_invalid) = unauthenticated
code_for (some token_not_found) = not_found
code_for (some user_banned) = permission_denied
code_for (some user_inactive) = permission_denied
code_for none = internal
