-- ===== src/User/Tests.antt =====
-- A small user service, and runs of the theorems on it.
use docflow_web.Base.{
  String, ◌≡◌, refl, true, false, ◌==◌, Option, none, some, List, [], ◌∷◌, if◌then◌else◌, ◌||◌,
  arith, Bool, Bool-cases, inl, inr, eq_iff, ne_of_eq_false, sym, ap, ◌∙◌,
}
use mathlib.Core.Logic.{ite, if_pos, if_neg}
use native.Mathlib.Decide.{ℕ_discrete}
use mathlib.Core.Path.{subst}
use docflow_web.Base.Text.{trim_space}
use docflow_web.Base.Unicode.{Unicode}
use docflow_web.Base.Redis.{get}
use docflow_web.Base.Exec.{ok}
use docflow_web.Base.Table.{find}
use docflow_web.User.Domain.{User, CreateInput, normalize_email}
use docflow_web.User.Repository
use docflow_web.User.Repository.{UserEnv, UserWorld, Row, row_key, find_id, email_key, with_ban}
use docflow_web.User.Requests.{Request, serve, serve_users-no_one_new}
use docflow_web.User.Sound.{IsSound}
use docflow_web.User.Changes.{IsCanonical, Trims}
use docflow_web.User.Transparent.{get_user-exact}
use docflow_web.User.Stale.{ban_user-stale}
use docflow_web.User.Service

abbrev ann : User
ann = record {
  id = "a";
  email = "ann@x";
  first_name = "Ann";
  last_name = "Ash";
  phone = "";
  department = "";
  avatar_url = "";
  role = "manager";
  is_active = true;
  is_verified = false;
  is_banned = false;
  ban_reason = "";
  created_at = 1;
  updated_at = 1;
}

String-discrete : Discrete String
String-discrete s t = elim (Bool-cases (s == t)) [
  | inl e ↦ yes ((eq_iff s t).0 e)
  | inr e ↦ no (λ p. ne_of_eq_false s t e p)
]

User-discrete : Discrete User
User-discrete = hlevel (ℕ_discrete, String-discrete)

-- Only this user has a text that is read back.
encode : User → String
encode u = ite (User-discrete u ann) "ann" ""

abbrev decode : String → Option User
decode s = if s == "ann" then some ann else none

decodes : (u v : User) → decode (encode u) ≡ some v → v ≡ u
unfolding encode
decodes u v h = elim (User-discrete u ann) [
  | yes p ↦
      let read : some ann ≡ some v =
        sym (ap decode (if_pos (User-discrete u ann) p "ann" "")) ∙ h in
      let one : ann ≡ v = cc read in sym one ∙ sym p
  | no p ↦
      let read : none ≡ some v = sym (ap decode (if_neg (User-discrete u ann) p "ann" "")) ∙ h in
      cc read
]

abbrev ascii : Unicode
ascii = record {
  lower = λ c. c;
  is_upper = λ c. false;
  is_lower = λ c. true;
  is_digit = λ c. false;
  is_punct = λ c. false;
  is_symbol = λ c. false;
}

-- The one text of a uuid, which may stand in spaces or in another case.
abbrev uuid_text : String → Option String
uuid_text s = if s == "a" || s == "A" then some "a" else none

abbrev env : UserEnv
env = record {
  pg = record { fault = λ _. none; now = λ n. 100; new_id = λ _. "n" };
  has_cache = true;
  ttl = 300;
  uuid_text = uuid_text;
  unicode = ascii;
  encode = encode;
  decode = decode;
  newest_first = λ us. us;
  any_order = λ us. us;
}

abbrev world : UserWorld
world = record {
  calls = 0;
  db = record { rows = record { user = ann; deleted_at = none } ∷ []; stats = []; cache = [] };
  out = tt;
}

abbrev eve : CreateInput
eve = record {
  email = "eve@x";
  name = "Eve";
  first_name = "";
  last_name = "";
  phone = "";
  department = "";
  avatar_url = "";
  role = "";
}

abbrev requests : List Request
requests =
    Request.get_user "a"
    ∷ Request.create_user eve
    ∷ Request.verify_user_email "a"
    ∷ Request.get_user_by_email "ann@x"
    ∷ []

nobody : find row_key "n" world.db.rows ≡ none
unfolding find
nobody = refl

serve_users-no_one_new_example : find row_key "n" (serve env world requests).db.rows ≡ none
serve_users-no_one_new_example = serve_users-no_one_new env world requests "n" nobody

start : IsSound env world.db
unfolding find get
start = record { unique = (refl, tt); coherent = λ now id raw u hit read. cc hit }

named : (trim_space " a" == "") ≡ false
unfolding trim_space
named = refl

trim_a : trim_space "a" ≡ "a"
unfolding trim_space
trim_a = refl

trims_from : (b : Bool) (k : String) → (if b then some "a" else none) ≡ some k → trim_space k ≡ k
trims_from true k reads = let one : "a" ≡ k = cc reads in subst (λ s. trim_space s ≡ s) one trim_a
trims_from false k reads = absurd (ground (arith, reads))

trims : Trims env
trims id k reads = trims_from (id == "a" || id == "A") k reads

plain : IsCanonical env "a"
unfolding trim_space
plain k reads = cc reads

reads_a : env.uuid_text (trim_space " a") ≡ some (trim_space " a")
unfolding trim_space
reads_a = refl

get_user-exact_example :
    (Service.get_user env " a" (serve env world requests)).0
    ≡ Repository.found (find_id (trim_space " a") (serve env world requests).db.rows)
get_user-exact_example =
    get_user-exact env decodes (λ n. refl) refl (λ P us h. h) trims world requests " a" start
      (tt, (tt, (plain, (tt, tt)))) reads_a named

abbrev seen : UserWorld
seen = record world {
  db = record (world.db) {
    cache = ("user:email:ann@x", record { value = "ann"; expires = some 400 }) ∷ [];
  };
}

other_form : env.uuid_text (trim_space " A") ≡ some "a"
unfolding trim_space
other_form = refl

knows : find_id "a" seen.db.rows ≡ some ann
unfolding find
knows = refl

addressed : (normalize_email ascii "ann@x" == "") ≡ false
unfolding trim_space
addressed = refl

hit : get 100 (email_key (normalize_email ascii "ann@x")) seen.db.cache ≡ some "ann"
unfolding get trim_space
hit = refl

ban_user-stale_example :
    let out = Service.ban_user env " A" "b" "spam" seen in
    (out.0 ≡ ok tt)
    × (find_id "a" out.1.db.rows ≡ some (with_ban (trim_space "spam") 100 ann))
    × ((Service.get_user_by_email env "ann@x" out.1).0 ≡ ok ann)
ban_user-stale_example =
    ban_user-stale env decodes (λ n. refl) refl " A" "b" "spam" "ann@x" "ann" seen other_form knows
      addressed hit refl
