-- ===== src/Mail/Templates.antt =====
-- The text of a mail: `mergedVars` and `stripHTML` of internal/service/auth_service.go, and what a
-- template gives to a job.
use Prim.Native.String.{[], ◌∷◌}
use Prim.Native.Nat.{zero, suc}
use docflow_web.Base.{ℕ, String, ◌==◌, List, if◌then◌else◌}
use docflow_web.Base.Text.{trim_space}
use docflow_web.Base.Unicode.{has_prefix}
use docflow_web.Mail.Domain.{MailJob, ◌<>◌}

-- An assignment to a key of a map.
unfoldable pub put {ℓ} : {A : Type ℓ} → String → A → List (String × A) → List (String × A)
put k v List.[] = List.◌∷◌ (k, v) List.[]
put k v (List.◌∷◌ (j, x) m) =
    let rest = put k v m in if j == k then List.◌∷◌ (k, v) m else List.◌∷◌ (j, x) rest

abbrev pub with_recipient : List String → List (String × String) → List (String × String)
with_recipient List.[] m = m
with_recipient (List.◌∷◌ r rs) m = put "Recipient" r m

-- `mergedVars`
unfoldable pub merged_vars : MailJob → List (String × String)
unfolding put
merged_vars j = put "Body" j.body (put "Title" j.subject (with_recipient j.recipient j.variables))

-- How many characters the markup that the text begins with has, if it stands for a line break.
abbrev pub break_length : String → ℕ
break_length s =
    if has_prefix "<br>" s
    then 4
    else if has_prefix "<br/>" s
    then 5
    else if has_prefix "<br />" s
    then 6
    else if has_prefix "</p>" s
    then 4
    else if has_prefix "</div>" s
    then 6
    else 0

-- The replacer, which leaves out the next `skip` characters of a markup that it has replaced.
unfoldable pub replace_breaks : ℕ → String → String
replace_breaks skip [] = []
replace_breaks (suc skip) (c ∷ s) = replace_breaks skip s
replace_breaks zero (c ∷ s) = elim (break_length (c ∷ s)) [
  | zero ↦ c ∷ replace_breaks zero s
  | suc n ↦ "\n" <> replace_breaks n s
]

-- `stripHTML`
unfoldable pub strip_html : String → String
unfolding replace_breaks
strip_html raw = trim_space (replace_breaks 0 raw)
