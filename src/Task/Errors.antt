-- ===== src/Task/Errors.antt =====
-- services/task-service/pkg/errors/grpc.go: the gRPC status of an error, and what a caller may
-- conclude from its code.
use docflow_web.Base.{String, ◌≡◌, ◌≢◌, refl, Option, none, some, arith}
use docflow_web.Base.Status.{
  Code, not_found, invalid_argument, failed_precondition, permission_denied, internal,
}
use docflow_web.Base.Exec.{GoError, sentinel, external, wrapped, cause}
use docflow_web.Task.Domain.{
  TaskError, task_not_found, invalid_input, invalid_transition, forbidden,
}
use docflow_web.Task.Repository.{TaskWorld}
use docflow_web.Task.Service.{TaskEnv, ◌<>◌}
use docflow_web.Task.Refinement.{Request, respond}
use docflow_web.Task.Refusals.{refusal, respond-refused}

-- The texts given to `errors.New`.
abbrev pub sentinel_text : TaskError → String
sentinel_text task_not_found = "task not found"
sentinel_text invalid_input = "invalid input"
sentinel_text invalid_transition = "invalid status transition"
sentinel_text forbidden = "forbidden"

-- `err.Error()`
abbrev pub error_text : GoError TaskError → String
error_text (sentinel s) = sentinel_text s
error_text (external text) = text
error_text (wrapped msg e) = msg <> (": " <> error_text e)

-- The `switch` over `errors.Is`, by the sentinel that the chain holds.
abbrev pub code_for : Option TaskError → Code
code_for (some task_not_found) = not_found
code_for (some invalid_input) = invalid_argument
code_for (some invalid_transition) = failed_precondition
code_for (some forbidden) = permission_denied
code_for none = internal

-- `ToGRPCError`; `nil` is `none`.
unfoldable pub to_grpc_error : Option (GoError TaskError) → Option (Code × String)
to_grpc_error none = none
to_grpc_error (some e) = some (code_for (cause e), error_text e)

sentinel_of_code : (o : Option TaskError) → code_for o ≢ internal → (s : TaskError) × (o ≡ some s)
sentinel_of_code none h = absurd (h refl)
sentinel_of_code (some s) h = (s, refl)

-- A request whose gRPC status is not `Internal` (and not success) has changed no table.
pub client_error_clean :
    (env : TaskEnv) (r : Request) (w : TaskWorld)
    → code_for (refusal env r w) ≢ internal
    → (respond env r w).db ≡ w.db
client_error_clean env r w h =
    let (s, e) = sentinel_of_code (refusal env r w) h in respond-refused env r w s e

-- Wrapping an error, however often, keeps its code; only the text grows.
pub to_grpc_error-wrapped :
    (msg text : String) (e : GoError TaskError) (c : Code)
    → to_grpc_error (some e) ≡ some (c, text)
    → to_grpc_error (some (wrapped msg e)) ≡ some (c, msg <> (": " <> text))
unfolding to_grpc_error
to_grpc_error-wrapped msg text e c h = ground arith
