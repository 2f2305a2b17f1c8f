-- ===== src/Gateway/Idempotency.antt =====
-- services/api-gateway/internal/middleware/idempotency.go, over a Redis database. Times are in
-- seconds. `recode` is `json.Unmarshal` into an object followed by the encoding of `c.JSON`: none
-- where the text is no JSON object. The handlers behind the middleware are functions of a state of
-- their own; a request is handled from its first command to its last before the next one begins.
use Prim.Native.String.{String}
use docflow_web.Base.Text.{append}
use docflow_web.Base.Redis.{Cache, get, del, set}
use docflow_web.Base.{
  ℕ, Bool, ◌||◌, ◌&&◌, not, ◌==◌, Option, none, some, List, [], ◌∷◌, if◌then◌else◌, leb, ltb,
}

abbrev pub cache_key : String → String
cache_key key = append "idempotency:" key

abbrev pub marker : String → String
marker key = append (cache_key key) ":processing"

-- A status and a body.
abbrev pub Response : Type 0
Response = ℕ × String

module _ (S : Type 0) where
  pub record Request : Type 0 where
    pub method : String
    pub key : String
    pub handler : S → Response × S

-- What one request meets: when it begins and when its handler has answered, and which commands
-- reach Redis. The code reads the error of GET alone, as that of a key that is not there.
pub record Meeting : Type 0 where
  pub begun : ℕ
  pub ended : ℕ
  pub got : Bool
  pub marked : Bool
  pub saved : Bool
  pub unmarked : Bool

abbrev pub is_guarded : String → Bool
is_guarded method = method == "POST" || method == "PATCH" || method == "PUT"

abbrev pub is_success : ℕ → Bool
is_success status = leb 200 status && ltb status 300

-- What is cached for the key, if it can be sent.
abbrev pub usable : (String → Option String) → Option String → Option String
usable recode none = none
usable recode (some body) = recode body

-- The entry of a key: the response is kept for 24 hours.
abbrev pub response_ttl : ℕ
response_ttl = 86400

abbrev pub looked_up : Meeting → String → Cache → Option String
looked_up v key m = if v.got then get v.begun key m else none

module _ {S : Type 0} (recode : String → Option String) (key_error : String) where
  abbrev pub save : Request S → Meeting → Response → Cache → Cache
  save q v (status, body) m =
      if is_success status && v.saved then set v.ended response_ttl (cache_key q.key) body m else m

  -- The handler, between the two writes of the marker.
  abbrev pub run : Request S → Meeting → Cache → S → Response × Cache × S
  run q v m s =
      let (response, s') = q.handler s in
      let noted = if v.marked then set v.begun 30 (marker q.key) "1" m else m in
      let kept = save q v response noted in
      (response, if v.unmarked then del (marker q.key) kept else kept, s')

  abbrev pub replay_or_run : Option String → Request S → Meeting → Cache → S → Response × Cache × S
  replay_or_run (some text) q v m s = ((200, text), m, s)
  replay_or_run none q v m s = run q v m s

  -- `IdempotencyMiddleware`
  unfoldable pub handle : Request S → Meeting → Cache → S → Response × Cache × S
  handle q v m s =
      let passed = q.handler s in
      if not (is_guarded q.method)
      then (passed.0, m, passed.1)
      else if q.key == ""
      then ((400, key_error), m, s)
      else replay_or_run (usable recode (looked_up v (cache_key q.key) m)) q v m s

  abbrev pub handle_all : List (Request S × Meeting) → Cache → S → Cache × S
  handle_all [] m s = (m, s)
  handle_all ((q, v) ∷ qs) m s = let (r, m', s') = handle q v m s in handle_all qs m' s'
