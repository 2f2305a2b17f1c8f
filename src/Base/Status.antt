-- ===== src/Base/Status.antt =====
-- google.golang.org/grpc/codes: the codes that the services answer with.
pub data Code : Type 0 where
  not_found invalid_argument failed_precondition permission_denied internal already_exists : Code
  unauthenticated : Code
