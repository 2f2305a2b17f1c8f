-- ===== src/Document/Errors.antt =====
-- services/document-service/pkg/errors/grpc.go: the gRPC status of an error, and what a caller may
-- conclude from its code.
use docflow_web.Base.{String, ◌≡◌, ◌≢◌, refl, Option, none, some}
use docflow_web.Base.Status.{
  Code, not_found, invalid_argument, failed_precondition, permission_denied, internal,
}
use docflow_web.Base.Exec.{GoError, sentinel, external, wrapped, cause}
use docflow_web.Document.Domain.{
  DocumentError, document_not_found, invalid_input, invalid_transition, forbidden,
}
use docflow_web.Document.Repository.{DocumentWorld}
use docflow_web.Document.Service.{DocumentEnv, ◌<>◌}
use docflow_web.Document.Refinement.{Request, respond}
use docflow_web.Document.Refusals.{refusal, respond_documents-refused}

-- The texts given to `errors.New`.
abbrev pub sentinel_text : DocumentError → String
sentinel_text document_not_found = "document not found"
sentinel_text invalid_input = "invalid input"
sentinel_text invalid_transition = "invalid status transition"
sentinel_text forbidden = "forbidden"

-- `err.Error()`
abbrev pub error_text : GoError DocumentError → String
error_text (sentinel s) = sentinel_text s
error_text (external text) = text
error_text (wrapped msg e) = msg <> (": " <> error_text e)

-- The `switch` over `errors.Is`, by the sentinel that the chain holds.
abbrev pub code_for : Option DocumentError → Code
code_for (some document_not_found) = not_found
code_for (some invalid_input) = invalid_argument
code_for (some invalid_transition) = failed_precondition
code_for (some forbidden) = permission_denied
code_for none = internal

-- `ToGRPCError`; `nil` is `none`.
unfoldable pub to_grpc_error : Option (GoError DocumentError) → Option (Code × String)
to_grpc_error none = none
to_grpc_error (some e) = some (code_for (cause e), error_text e)

sentinel_of_code :
    (o : Option DocumentError) → code_for o ≢ internal → (s : DocumentError) × (o ≡ some s)
sentinel_of_code none h = absurd (h refl)
sentinel_of_code (some s) h = (s, refl)

-- A request whose gRPC status is not `Internal` (and not success) has changed no table.
pub client_error_leaves_documents :
    (env : DocumentEnv) (r : Request) (w : DocumentWorld)
    → code_for (refusal env r w) ≢ internal
    → (respond env r w).db ≡ w.db
client_error_leaves_documents env r w h =
    let (s, e) = sentinel_of_code (refusal env r w) h in respond_documents-refused env r w s e
