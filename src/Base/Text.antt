-- ===== src/Base/Text.antt =====
-- Go's `strings.TrimSpace` over the code points of a string.
use Prim.Native.Char.{Char, code}
use Prim.Native.String.{String, [], ◌∷◌}
use mathlib.Core.Path.{◌≡◌, refl}
use mathlib.Core.Bool.{Bool, false, ◌||◌, ◌&&◌}
use docflow_web.Base.Tests.{leb, nat_eq, if◌then◌else◌, Bool-cases}
use Prim.Native.Nat.{ℕ}
use mathlib.Core.List.{List}
use mathlib.Core.Logic.{inl, inr}

-- `unicode.IsSpace`.
pub is_space : ℕ → Bool
is_space c =
    (leb 9 c && leb c 13)
    || nat_eq c 32
    || nat_eq c 0x85
    || nat_eq c 0xA0
    || nat_eq c 0x1680
    || (leb 0x2000 c && leb c 0x200a)
    || nat_eq c 0x2028
    || nat_eq c 0x2029
    || nat_eq c 0x202f
    || nat_eq c 0x205f
    || nat_eq c 0x3000

trim_left : String → String
trim_left [] = []
trim_left (c ∷ s) = let rest = trim_left s in if is_space (code c) then rest else c ∷ s

-- `c` stays unless it is a space with nothing behind it.
keep : Char → String → String
keep c [] = if is_space (code c) then [] else c ∷ []
keep c (d ∷ s) = c ∷ d ∷ s

trim_right : String → String
trim_right [] = []
trim_right (c ∷ s) = keep c (trim_right s)

unfoldable pub trim_space : String → String
unfolding trim_left trim_right keep is_space
trim_space s = trim_right (trim_left s)

keep-trim_right : (c : Char) (s : String) → trim_right s ≡ s → trim_right (keep c s) ≡ keep c s
unfolding trim_right keep
keep-trim_right c [] h = elim (Bool-cases (is_space (code c))) [
  | inl e ↦ rw e refl
  | inr e ↦ rw e (rw e refl)
]
keep-trim_right c (d ∷ s) h = rw h refl

trim_right_idempotent : (s : String) → trim_right (trim_right s) ≡ trim_right s
unfolding trim_right
trim_right_idempotent [] = refl
trim_right_idempotent (c ∷ s) = keep-trim_right c (trim_right s) (trim_right_idempotent s)

-- The text is empty or begins with a code point that is no space.
abbrev pub Leads : String → Type 0
Leads [] = Unit
Leads (c ∷ s) = is_space (code c) ≡ false

trim_left-Leads : (s : String) → Leads (trim_left s)
unfolding trim_left
trim_left-Leads [] = tt
trim_left-Leads (c ∷ s) = elim (Bool-cases (is_space (code c))) [
  | inl e ↦ rw e (trim_left-Leads s)
  | inr e ↦ rw e e
]

trim_right-Leads : (s : String) → Leads s → Leads (trim_right s)
unfolding trim_right keep
trim_right-Leads [] h = tt
trim_right-Leads (c ∷ s) h = keep-Leads (trim_right s)
  where
    keep-Leads : (t : String) → Leads (keep c t)
    keep-Leads [] = rw h h
    keep-Leads (d ∷ t) = h

trim_left_of_Leads : (s : String) → Leads s → trim_left s ≡ s
unfolding trim_left
trim_left_of_Leads [] h = refl
trim_left_of_Leads (c ∷ s) h = rw h refl

-- Trimming a trimmed text changes nothing.
pub trim_space_idempotent : (s : String) → trim_space (trim_space s) ≡ trim_space s
unfolding trim_space
trim_space_idempotent s =
    rw (trim_left_of_Leads _ (trim_right-Leads _ (trim_left-Leads s)))
      (trim_right_idempotent (trim_left s))

-- A trimmed text that is not empty begins with no space.
pub trim_space-Leads : (s : String) → Leads (trim_space s)
unfolding trim_space
trim_space-Leads s = trim_right-Leads _ (trim_left-Leads s)

-- `+` on strings
abbrev pub append : String → String → String
append [] t = t
append (c ∷ s) t = c ∷ append s t

cons_word : String → List String → List String
cons_word [] ws = ws
cons_word (c ∷ w) ws = List.◌∷◌ (c ∷ w) ws

-- The word that the text begins with, and the words behind it.
split_words : String → String × List String
split_words [] = ([], List.[])
split_words (c ∷ s) =
    let (w, ws) = split_words s in if is_space (code c) then ([], cons_word w ws) else (c ∷ w, ws)

-- `strings.Fields`
unfoldable pub fields : String → List String
unfolding split_words cons_word is_space
fields s = let (w, ws) = split_words s in cons_word w ws
