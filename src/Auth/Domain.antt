-- ===== src/Auth/Domain.antt =====
-- services/auth-service/internal/domain/auth.go.
use Prim.Native.Char.{Char}
use Prim.Native.String.{[], ◌∷◌}
use docflow_web.Base.{
  ℕ, String, Bool, true, false, not, ◌&&◌, ◌||◌, ◌==◌, Option, if◌then◌else◌, ltb,
}
use docflow_web.Base.Text.{trim_space}
use docflow_web.Base.Unicode.{Unicode, to_lower, byte_length}
use docflow_web.Base.Exec.{Result, ok, err, sentinel}

pub data AuthError : Type 0 where
  user_not_found email_taken invalid_input unauthorized : AuthError
  token_expired token_invalid token_not_found : AuthError
  user_banned user_inactive : AuthError

abbrev pub role_employee : String
role_employee = "employee"

abbrev pub role_manager : String
role_manager = "manager"

abbrev pub role_admin : String
role_admin = "admin"

abbrev pub is_role : String → Bool
is_role r = r == role_employee || r == role_manager || r == role_admin

-- The row; `IsBanned` is not a column, no query reads it, and it stays false.
pub record AuthUser : Type 0 where
  pub id : String
  pub email : String
  pub password_hash : String
  pub role : String
  pub is_active : Bool
  pub is_verified : Bool
  pub created_at : ℕ
  pub updated_at : ℕ

pub record RefreshToken : Type 0 where
  pub id : String
  pub user_id : String
  pub token_hash : String
  pub expires_at : ℕ
  pub revoked_at : Option ℕ
  pub created_at : ℕ

pub record RegisterInput : Type 0 where
  pub email : String
  pub password : String
  pub name : String
  pub role : String

pub record LoginInput : Type 0 where
  pub email : String
  pub password : String

-- `hasUpper, hasLower, hasDigit, hasSpecial`
pub record Flags : Type 0 where
  pub has_upper : Bool
  pub has_lower : Bool
  pub has_digit : Bool
  pub has_special : Bool

module _ (u : Unicode) where
  -- The `switch` of the loop.
  abbrev pub note : Char → Flags → Flags
  note c f =
      if u.is_upper c
      then record f { has_upper = true }
      else if u.is_lower c
      then record f { has_lower = true }
      else if u.is_digit c
      then record f { has_digit = true }
      else if u.is_punct c || u.is_symbol c
      then record f { has_special = true }
      else f

  abbrev pub scan : Flags → String → Flags
  scan f [] = f
  scan f (c ∷ s) = scan (note c f) s

  abbrev pub no_flags : Flags
  no_flags = record { has_upper = false; has_lower = false; has_digit = false; has_special = false }

  -- `ValidatePassword` is nil
  unfoldable pub password_valid : String → Bool
  password_valid raw =
      let password = trim_space raw in
      let f = scan no_flags password in
      if ltb (byte_length password) 8
      then false
      else f.has_upper && f.has_lower && f.has_digit && f.has_special

  abbrev pub or_employee : String → String
  or_employee role = if role == "" then role_employee else role

  abbrev pub normal_register : RegisterInput → RegisterInput
  normal_register i = record {
    email = trim_space (to_lower u i.email);
    password = trim_space i.password;
    name = trim_space i.name;
    role = or_employee i.role;
  }

  -- `RegisterInput.Validate`, with the input that it leaves behind
  unfoldable pub validate_register : RegisterInput → Result AuthError RegisterInput
  unfolding password_valid
  validate_register i =
      let j = normal_register i in
      if j.email == "" || j.password == "" || j.name == ""
      then err (sentinel invalid_input)
      else if not (is_role j.role)
      then err (sentinel invalid_input)
      else if password_valid j.password
      then ok j
      else err (sentinel invalid_input)

  abbrev pub normal_login : LoginInput → LoginInput
  normal_login i = record {
    email = trim_space (to_lower u i.email);
    password = trim_space i.password;
  }

  -- `LoginInput.Validate`
  unfoldable pub validate_login : LoginInput → Result AuthError LoginInput
  validate_login i =
      let j = normal_login i in
      if j.email == "" || j.password == "" then err (sentinel invalid_input) else ok j
