-- ===== src/Auth/Tests.antt =====
-- A small auth service with one user, and runs of the theorems on it.
use Prim.Native.Char.{Char, code}
use docflow_web.Base.{
  ℕ, String, ◌≡◌, ◌≢◌, refl, Bool, true, false, ◌==◌, ◌&&◌, inr, none, [], ◌∷◌, leb,
}
use docflow_web.Base.Text.{trim_space}
use docflow_web.Base.Unicode.{Unicode}
use docflow_web.Base.Exec.{program, ok}
use docflow_web.Base.Postgres.{Postgres, statement}
use docflow_web.Base.Table.{find, update_where}
use docflow_web.Auth.Domain.{
  AuthUser, RefreshToken, RegisterInput, LoginInput, validate_register, validate_login,
}
use docflow_web.Auth.Repository
use docflow_web.Auth.Repository.{AuthWorld, user_key, email_of, hash_of, normalize_email}
use docflow_web.Auth.Service
use docflow_web.Auth.Service.{AuthEnv, TokenPair, Claims, malformed}
use docflow_web.Auth.Spent.{Request, serve}
use docflow_web.Auth.Redeem.{IsOpen, refresh_token-once}
use docflow_web.Auth.SignIn.{as_login, register-login}
use docflow_web.Auth.Login.{IsFor, login-IsFor, forgot_password-silent}

abbrev within : ℕ → ℕ → Char → Bool
within a b c = leb a (code c) && leb (code c) b

abbrev ascii : Unicode
ascii = record {
  lower = λ c. c;
  is_upper = within 65 90;
  is_lower = within 97 122;
  is_digit = within 48 57;
  is_punct = within 33 47;
  is_symbol = λ c. false;
}

abbrev server : Postgres
server = record { fault = λ _. none; now = λ n. 100; new_id = λ _. "n" }

abbrev draw : ℕ → String
draw n = "u"

abbrev env : AuthEnv
env = record {
  pg = server;
  has_cache = true;
  has_notification = true;
  has_users = true;
  clock = λ _. 100;
  uuid = draw;
  jti = λ _. "j";
  access_ttl = 900;
  refresh_ttl = 5000;
  verification_ttl = 600;
  reset_ttl = 300;
  unicode = ascii;
  digest = λ t. t;
  generate = λ _ p. inr p;
  compare = λ h p. h == p;
  sign = λ c. inr "jwt";
  parse = λ _ _. malformed;
  encode = λ s. s.user_id;
  decode = λ _. none;
}

abbrev ann : AuthUser
ann = record {
  id = "a";
  email = "ann@x";
  password_hash = "Abcdef1!";
  role = "manager";
  is_active = true;
  is_verified = true;
  created_at = 1;
  updated_at = 1;
}

abbrev held : RefreshToken
held = record {
  id = "t";
  user_id = "a";
  token_hash = "r";
  expires_at = 900;
  revoked_at = none;
  created_at = 1;
}

abbrev world : AuthWorld
world = record {
  calls = 0;
  db = record { users = ann ∷ []; tokens = held ∷ []; cache = [] };
  out = record { mails = []; user_calls = [] };
}

abbrev pair : TokenPair
pair = record {
  access_token = "jwt";
  refresh_token = "u";
  expires_in = 0;
  user_id = "a";
  email = "ann@x";
  role = "manager";
}

redeemed : (Service.refresh_token env "r" world).0 ≡ ok pair
unfolding Service.refresh_token Service.issue_token_pair Repository.find_refresh_token
    Repository.revoke_refresh_token Repository.get_user_by_id Repository.create_refresh_token
    statement program find update_where trim_space
redeemed = refl

refresh_token-once_example :
    (Service.refresh_token env "r" (
      serve env
        (Service.refresh_token env "r" world).1
        (Request.logout "a" "u" ∷ Request.forgot_password "ann@x" ∷ []))).0
    ≢ ok pair
refresh_token-once_example =
    refresh_token-once env "r" world (Request.logout "a" "u" ∷ Request.forgot_password "ann@x" ∷ [])
      redeemed pair

abbrev entered : LoginInput
entered = record { email = " ann@x"; password = "Abcdef1!" }

signed_in : (Service.login env entered world).0 ≡ ok pair
unfolding Service.login Service.issue_token_pair Service.translated Repository.get_user_by_email
    Repository.create_refresh_token Repository.store_session statement program find trim_space
    validate_login
signed_in = refl

login-IsFor_example : IsFor env entered pair world
login-IsFor_example = login-IsFor env entered world signed_in

abbrev bob : RegisterInput
bob = record { email = "bob@x "; password = "Secret9%"; name = "Bob"; role = "" }

abbrev bob' : RegisterInput
bob' = record { email = "bob@x"; password = "Secret9%"; name = "Bob"; role = "employee" }

valid_bob : validate_register ascii bob ≡ ok bob'
unfolding validate_register trim_space
valid_bob = refl

fresh_id : find user_key "n" world.db.users ≡ none
unfolding find
fresh_id = refl

trimmed_id : trim_space "n" ≡ "n"
unfolding trim_space
trimmed_id = refl

free : find email_of (normalize_email server ascii (λ t. t) "bob@x") world.db.users ≡ none
unfolding find trim_space
free = refl

unused : find hash_of "u" world.db.tokens ≡ none
unfolding find
unused = refl

register-login_example :
    let joined = Service.register env bob world in
    let out = Service.login env (as_login bob) joined.1 in
    (joined.0 ≡ ok "n")
    × (p : TokenPair) × (out.0 ≡ ok p)
    × (p.user_id ≡ "n")
    × (p.role ≡ "employee")
    × IsOpen p.refresh_token out.1.db.tokens
register-login_example =
    register-login env (λ n. refl) (λ c. "jwt") (λ c. refl) bob world "Secret9%" (λ n. refl) refl
      valid_bob fresh_id trimmed_id free (λ n. unused)

forgot_password-silent_example :
    ((Service.forgot_password env "eve@x" world).0 ≡ ok tt)
    × (find email_of (normalize_email server ascii (λ t. t) "eve@x") world.db.users ≡ none
        → ((Service.forgot_password env "eve@x" world).1.db ≡ world.db)
          × ((Service.forgot_password env "eve@x" world).1.out ≡ world.out))
forgot_password-silent_example = forgot_password-silent env "eve@x" world (λ n. refl) refl
