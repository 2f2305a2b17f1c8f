-- ===== src/Gateway/Tests.antt =====
-- Runs of the theorems on the middleware.
use docflow_web.Base.{
  ℕ, suc, String, Bool, true, false, ◌≡◌, ◌↔◌, ◌≤◌, refl, Option, some, List, [], ◌∷◌, arith, All,
  length,
}
use docflow_web.Base.Paging.{pos}
use docflow_web.Gateway.RateLimit.{
  Reached, Arrival, admitted, verdicts, set_after, verdicts-admitted, set_after-bounded,
}
use docflow_web.Base.Redis.{get}
use docflow_web.Gateway.Access.{
  Identity, Validation, valid, granted, check, Entitled, check-Entitled,
}
use docflow_web.Gateway.Idempotency.{Request, Response, Meeting, handle, handle_all}
use docflow_web.Gateway.Replay.{handle-runs_once}

-- The third addition fails, and the fourth count.
abbrev meets : Bool → Bool → Reached
meets card add = record { expired = false; trim = true; card = card; add = add }

abbrev arrivals : List Arrival
arrivals =
    (100, meets true true)
    ∷ (100, meets true true)
    ∷ (100, meets true false)
    ∷ (101, meets false true)
    ∷ (170, meets true true)
    ∷ []

verdicts-admitted_example : All (λ v. v ≡ admitted) (verdicts (pos 100) arrivals [])
verdicts-admitted_example =
    verdicts-admitted 100 arrivals (omega arith)
      (omega arith, (omega arith, (omega arith, (omega arith, (omega arith, tt)))))
      (refl, (refl, (refl, (refl, (refl, tt)))))

-- The removal of the second fails.
abbrev counted : List Arrival
counted =
    (100, meets true true)
    ∷ (170, record { expired = false; trim = false; card = true; add = true })
    ∷ (171, meets true true)
    ∷ []

set_after-bounded_example : length (set_after (pos 2) counted []) ≤ 2
set_after-bounded_example = set_after-bounded 2 counted (refl, (refl, (refl, tt)))

abbrev manager : Identity
manager = record { user_id = "u"; email = "u@example.org"; role = "manager" }

abbrev knows : String → Validation
knows token = valid manager

check-Entitled_example :
    (check knows ("admin" ∷ "manager" ∷ []) "Bearer abc" ≡ granted manager)
    ↔ Entitled knows ("admin" ∷ "manager" ∷ []) "Bearer abc" manager
check-Entitled_example = check-Entitled knows ("admin" ∷ "manager" ∷ []) "Bearer abc" manager

-- A handler that counts its runs.
abbrev counting : ℕ → Response × ℕ
counting n = ((201, "{}"), suc n)

abbrev post : String → Request ℕ
post key = record { method = "POST"; key = key; handler = counting }

abbrev sent : String → Option String
sent body = some body

-- All commands reach Redis, or only the GET does.
abbrev at_second : ℕ → Bool → Meeting
at_second t reached = record {
  begun = t;
  ended = t;
  got = true;
  marked = reached;
  saved = reached;
  unmarked = reached;
}

handle-runs_once_example :
    let out = handle sent "no key" (post "k") (at_second 5 true) [] 0 in
    let later = handle_all sent "no key" ((post "j", at_second 6 false) ∷ []) out.1 out.2 in
    (out.0 ≡ (201, "{}"))
    × (out.2 ≡ 1)
    × (handle sent "no key" (post "k") (at_second 80000 false) later.0 later.1
        ≡ ((200, "{}"), later.0, later.1))
unfolding get
handle-runs_once_example =
    handle-runs_once sent "no key" (post "k") (post "k") (at_second 5 true) (at_second 80000 false)
      ((post "j", at_second 6 false) ∷ []) [] 0 refl refl refl refl refl refl
      (record { apart = refl; early = λ e. refl; reaches = λ e. refl }, tt) refl refl refl refl
