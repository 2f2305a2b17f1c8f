-- ===== src/Gateway/Access.antt =====
-- services/api-gateway/internal/middleware/jwt.go: who a request is from, and whether a route is
-- open to that role. The auth service is not part of the gateway: its answer on a token is a
-- function.
use Prim.Native.Char.{Char, code}
use Prim.Native.String.{String, [], ◌∷◌}
use docflow_web.Base.{
  ◌≡◌, ◌≢◌, ◌⊎◌, ◌↔◌, refl, sym, ap, ◌∙◌, Bool, true, false, ◌||◌, not, ◌==◌, Option, none, some,
  List, [], ◌∷◌, if◌then◌else◌, nat_eq, arith, eq_iff, elem, Bool-cases, inl, inr, ne_of_eq_false,
}
use mathlib.Core.Path.{subst}

-- What the middleware stores in the request's context.
pub record Identity : Type 0 where
  pub user_id : String
  pub email : String
  pub role : String

-- `authClient.ValidateToken`: an error, a token that is not valid, or whose token it is.
pub data Validation : Type 0 where
  failed invalid : Validation
  valid : Identity → Validation

-- The answers 401 and 403, by their code in the body, or the way to the next handler.
pub data Access : Type 0 where
  missing_header bad_header token_expired token_invalid no_role insufficient : Access
  granted : Identity → Access

abbrev before : Char → Option (String × String) → Option (String × String)
before c none = none
before c (some (a, b)) = some (c ∷ a, b)

-- The two parts of `strings.SplitN(s, " ", 2)`, where there are two.
unfoldable pub split_first : String → Option (String × String)
split_first [] = none
split_first (c ∷ s) =
    let parts = split_first s in if nat_eq (code c) b' ' then some ([], s) else before c parts

abbrev pub identified : Validation → Access
identified failed = token_expired
identified invalid = token_invalid
identified (valid id) = granted id

abbrev pub with_parts : (String → Validation) → Option (String × String) → Access
with_parts validate none = bad_header
with_parts validate (some (scheme, token)) =
    if not (scheme == "Bearer") then bad_header else identified (validate token)

-- `JWTMiddleware`
unfoldable pub authenticate : (String → Validation) → String → Access
authenticate validate header =
    if header == "" then missing_header else with_parts validate (split_first header)

-- The loop over `requiredRoles`.
abbrev pub is_allowed : List String → String → Bool
is_allowed [] role = false
is_allowed (r ∷ rs) role = (role == r || role == "admin") || is_allowed rs role

-- `RBACMiddleware`
unfoldable pub authorize : List String → Identity → Access
authorize roles id =
    if id.role == ""
    then no_role
    else if not (is_allowed roles id.role)
    then insufficient
    else granted id

abbrev pub then_authorize : List String → Access → Access
then_authorize roles (granted id) = authorize roles id
then_authorize roles refusal = refusal

-- A route behind both.
abbrev pub check : (String → Validation) → List String → String → Access
check validate roles header = then_authorize roles (authenticate validate header)

-- The role is one of those required, or it is `admin` and the route requires some role.
abbrev pub Suits : List String → String → Type 0
Suits roles role = (elem role roles ≡ true) ⊎ ((role ≡ "admin") × (roles ≢ []))

-- The header names a token after `Bearer`, the auth service knows it as `id`'s, and `id` has a role
-- that suits the route.
pub record Entitled (validate : String → Validation) (roles : List String) (header : String)
    (id : Identity) : Type 0 where
  pub token : String
  pub bearer : split_first header ≡ some ("Bearer", token)
  pub known : validate token ≡ valid id
  pub has_role : id.role ≢ ""
  pub suits : Suits roles id.role

eq_false_of_ne : (a b : String) → a ≢ b → (a == b) ≡ false
eq_false_of_ne a b n = ground (arith, eq_iff a b)

-- Who is no admin is allowed where the role is listed.
is_allowed-elem :
    (roles : List String) (role : String)
    → (role == "admin") ≡ false
    → is_allowed roles role ≡ elem role roles
is_allowed-elem [] role h = refl
is_allowed-elem (r ∷ rs) role h =
    ground (arith, is_allowed-elem rs role h, eq_iff role r, eq_iff r role)

is_allowed_listed :
    (roles : List String) (role : String) → elem role roles ≡ true → is_allowed roles role ≡ true
is_allowed_listed [] role h = h
is_allowed_listed (r ∷ rs) role h =
    grind (arith, is_allowed_listed rs role, eq_iff role r, eq_iff r role)

is_allowed_of :
    (roles : List String) (role : String) → Suits roles role → is_allowed roles role ≡ true
is_allowed_of roles role (inl m) = is_allowed_listed roles role m
is_allowed_of [] role (inr (e, some_role)) = absurd (some_role refl)
is_allowed_of (r ∷ rs) role (inr (e, some_role)) = ground (arith, e, eq_iff role "admin")

cons-nonempty : (r : String) (rs : List String) → let roles : List String = r ∷ rs in roles ≢ []
cons-nonempty r rs e = cc

allowed-Suits :
    (roles : List String) (role : String) → is_allowed roles role ≡ true → Suits roles role
allowed-Suits [] role h = inl h
allowed-Suits (r ∷ rs) role h = elim (Bool-cases (role == "admin")) [
  | inl e ↦ inr ((eq_iff role "admin").0 e, cons-nonempty r rs)
  | inr e ↦ inl (sym (is_allowed-elem (r ∷ rs) role e) ∙ h)
]

-- What the role check lets through.
module _ (roles : List String) (id : Identity) where
  passed_on :
      (a b : Bool) (who : Identity)
      → (if a then no_role else if not b then insufficient else granted id) ≡ granted who
      → (a ≡ false) × (b ≡ true) × (id ≡ who)
  passed_on true b who h = cc
  passed_on false true who h = (refl, refl, ground arith)
  passed_on false false who h = cc

  authorize-granted :
      (who : Identity)
      → authorize roles id ≡ granted who
      → (id ≡ who) × (id.role ≢ "") × Suits roles id.role
  unfolding authorize
  authorize-granted who h =
      let (named, allowed, same) = passed_on (id.role == "") (is_allowed roles id.role) who h in
      (same, ne_of_eq_false id.role "" named, allowed-Suits roles id.role allowed)

  granted_by : id.role ≢ "" → Suits roles id.role → authorize roles id ≡ granted id
  unfolding authorize
  granted_by named suits =
      rw (eq_false_of_ne id.role "" named, is_allowed_of roles id.role suits) refl

no_parts : {P : Type 0} {parts : String × String} → split_first "" ≡ some parts → P
unfolding split_first
no_parts h = cc

module _ (validate : String → Validation) (roles : List String) where
  of_identified :
      (v : Validation) (who : Identity)
      → then_authorize roles (identified v) ≡ granted who
      → (v ≡ valid who) × (who.role ≢ "") × Suits roles who.role
  of_identified failed who h = cc
  of_identified invalid who h = cc
  of_identified (valid id) who h =
      let (same, named, suits) = authorize-granted roles id who h in
      subst (λ (w : Identity). (valid id ≡ valid w) × (w.role ≢ "") × Suits roles w.role) same
        (refl, named, suits)

  of_parts :
      (parts : Option (String × String)) (header : String) (who : Identity)
      → split_first header ≡ parts
      → then_authorize roles (with_parts validate parts) ≡ granted who
      → Entitled validate roles header who
  of_parts none header who e h = cc
  of_parts (some (scheme, token)) header who e h = elim (Bool-cases (scheme == "Bearer")) [
    | inl b ↦
        let (known, named, suits) = of_identified (validate token) who (rw b at h) in
        record {
          token = token;
          bearer = e ∙ ap (λ s. some (s, token)) ((eq_iff scheme "Bearer").0 b);
          known = known;
          has_role = named;
          suits = suits;
        }
    | inr b ↦ differ (rw b at h)
  ]
    where
      differ : bad_header ≡ granted who → Entitled validate roles header who
      differ e = cc

  -- A request gets through both checks as `who` exactly when its header carries a token of `who`
  -- after `Bearer`, and `who` has a role that the route requires, or is an admin on a route that
  -- requires some role.
  pub check-Entitled :
      (header : String) (who : Identity)
      → (check validate roles header ≡ granted who) ↔ Entitled validate roles header who
  unfolding authenticate
  check-Entitled header who = (
    λ h. elim (Bool-cases (header == "")) [
      | inl e ↦ unnamed (rw e at h)
      | inr e ↦ of_parts (split_first header) header who refl (rw e at h)
    ],
    λ t. elim (Bool-cases (header == "")) [
      | inl e ↦ empty_header ((eq_iff header "").0 e) t.bearer
      | inr e ↦ rw (e, t.bearer, t.known) (granted_by roles who t.has_role t.suits)
    ],
  )
    where
      unnamed : missing_header ≡ granted who → Entitled validate roles header who
      unnamed e = cc

      empty_header :
          {P : Type 0} {parts : String × String} → header ≡ "" → split_first header ≡ some parts → P
      empty_header {P} {parts} e h = no_parts (subst (λ t. split_first t ≡ some parts) e h)
