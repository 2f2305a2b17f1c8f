-- ===== src/User/Domain.antt =====
-- services/user-service/internal/domain/user.go.
use Prim.Native.String
use docflow_web.Base.{ℕ, String, Bool, not, ◌&&◌, ◌||◌, ◌==◌, List, [], ◌∷◌, if◌then◌else◌}
use docflow_web.Base.Text.{trim_space, fields}
use docflow_web.Base.Unicode.{Unicode, to_lower}
use docflow_web.Base.Exec.{Result, ok, err, sentinel}

pub data UserError : Type 0 where
  user_not_found email_taken user_banned invalid_input : UserError

abbrev pub role_employee : String
role_employee = "employee"

abbrev pub role_manager : String
role_manager = "manager"

abbrev pub role_admin : String
role_admin = "admin"

-- `Role.Valid`
abbrev pub role_valid : String → Bool
role_valid r = r == role_employee || r == role_manager || r == role_admin

pub record User : Type 0 where
  pub id : String
  pub email : String
  pub first_name : String
  pub last_name : String
  pub phone : String
  pub department : String
  pub avatar_url : String
  pub role : String
  pub is_active : Bool
  pub is_verified : Bool
  pub is_banned : Bool
  pub ban_reason : String
  pub created_at : ℕ
  pub updated_at : ℕ

pub record CreateInput : Type 0 where
  pub email : String
  pub name : String
  pub first_name : String
  pub last_name : String
  pub phone : String
  pub department : String
  pub avatar_url : String
  pub role : String

pub record UpdateInput : Type 0 where
  pub name : String
  pub first_name : String
  pub last_name : String
  pub phone : String
  pub department : String
  pub avatar_url : String
  pub role : String

pub record UserStats : Type 0 where
  pub total : ℕ
  pub active : ℕ
  pub banned : ℕ
  pub employees : ℕ
  pub managers : ℕ
  pub admins : ℕ
  pub total_docs : ℕ
  pub completed_docs : ℕ
  pub overdue_docs : ℕ
  pub total_tasks : ℕ

infixr 65 ◌<>◌
abbrev pub ◌<>◌ : String → String → String
a <> b = String.◌++◌ a b

-- `strings.Join(words, " ")`
abbrev pub join : List String → String
join [] = ""
join (w ∷ []) = w
join (w ∷ v ∷ ws) = w <> (" " <> join (v ∷ ws))

abbrev pub halves : List String → String × String
halves [] = ("", "")
halves (w ∷ ws) = (w, join ws)

-- `splitFullName`
unfoldable pub split_full_name : String → String × String
split_full_name name = halves (fields (trim_space name))

-- `NewName`, and `User.FullName` on the two names of a user
unfoldable pub new_name : String → String → String
new_name first_name last_name =
    let first = trim_space first_name in
    let last = trim_space last_name in
    if first == "" then last else if last == "" then first else first <> (" " <> last)

abbrev pub or_employee : String → String
or_employee role = if role == "" then role_employee else role

module _ (u : Unicode) where
  abbrev pub normalize_email : String → String
  normalize_email email = to_lower u (trim_space email)

  abbrev pub trimmed_create : CreateInput → CreateInput
  trimmed_create i = record {
    email = normalize_email i.email;
    name = trim_space i.name;
    first_name = trim_space i.first_name;
    last_name = trim_space i.last_name;
    phone = trim_space i.phone;
    department = trim_space i.department;
    avatar_url = trim_space i.avatar_url;
    role = i.role;
  }

  -- The names, where only the full name is given.
  abbrev pub first_named : CreateInput → CreateInput
  first_named i =
      if i.first_name == "" && not (i.name == "")
      then record i {
        first_name = (split_full_name i.name).0;
        last_name = (split_full_name i.name).1;
      }
      else i

  abbrev pub last_named : CreateInput → CreateInput
  last_named i =
      if i.last_name == "" && not (i.name == "")
      then record i { last_name = (split_full_name i.name).1 }
      else i

  -- `CreateInput.Validate`, with the input that it leaves behind
  unfoldable pub validate_create : CreateInput → Result UserError CreateInput
  validate_create i =
      let j = trimmed_create i in
      let k = first_named j in
      let l = last_named k in
      if j.email == ""
      then err (sentinel invalid_input)
      else if k.first_name == ""
      then err (sentinel invalid_input)
      else if not (role_valid (or_employee l.role))
      then err (sentinel invalid_input)
      else ok (record l { role = or_employee l.role })

  -- `ParseRole`
  unfoldable pub parse_role : String → String
  parse_role s = let r = to_lower u (trim_space s) in if role_valid r then r else role_employee

abbrev pub trimmed_update : UpdateInput → UpdateInput
trimmed_update i = record {
  name = trim_space i.name;
  first_name = trim_space i.first_name;
  last_name = trim_space i.last_name;
  phone = trim_space i.phone;
  department = trim_space i.department;
  avatar_url = trim_space i.avatar_url;
  role = i.role;
}

abbrev pub named_update : UpdateInput → UpdateInput
named_update i =
    if not (i.name == "") && i.first_name == ""
    then record i {
      first_name = (split_full_name i.name).0;
      last_name = (split_full_name i.name).1;
    }
    else i

-- `UpdateInput.Validate`
unfoldable pub validate_update : UpdateInput → Result UserError UpdateInput
validate_update i =
    let j = named_update (trimmed_update i) in
    if not (j.role == "") && not (role_valid j.role)
    then err (sentinel invalid_input)
    else if j.first_name == ""
        && j.last_name == ""
        && j.phone == ""
        && j.department == ""
        && j.avatar_url == ""
        && j.role == ""
    then err (sentinel invalid_input)
    else ok j
