-- ===== src/Base/Unicode.antt =====
-- What the services use of Go's `unicode` and `strings` over the code points of a text. The tables
-- of the Unicode standard are a record of functions.
use Prim.Native.Char.{Char, code}
use Prim.Native.Nat.{ℕ, ◌+◌}
use Prim.Native.String.{String, [], ◌∷◌}
use mathlib.Core.Bool.{Bool, true, false, ◌||◌, ◌&&◌}
use docflow_web.Base.Tests.{ltb, nat_eq, if◌then◌else◌}

pub record Unicode : Type 0 where
  pub lower : Char → Char
  pub is_upper : Char → Bool
  pub is_lower : Char → Bool
  pub is_digit : Char → Bool
  pub is_punct : Char → Bool
  pub is_symbol : Char → Bool

-- `strings.ToLower`
abbrev pub to_lower : Unicode → String → String
to_lower u [] = []
to_lower u (c ∷ s) = u.lower c ∷ to_lower u s

-- The bytes of a code point in UTF-8.
abbrev pub rune_length : ℕ → ℕ
rune_length c = if ltb c 0x80 then 1 else if ltb c 0x800 then 2 else if ltb c 0x10000 then 3 else 4

-- `len` of a string
abbrev pub byte_length : String → ℕ
byte_length [] = 0
byte_length (c ∷ s) = rune_length (code c) + byte_length s

abbrev pub has_prefix : String → String → Bool
has_prefix [] s = true
has_prefix (c ∷ p) [] = false
has_prefix (c ∷ p) (d ∷ s) = nat_eq (code c) (code d) && has_prefix p s

-- `strings.Contains(s, p)`
abbrev pub contains : String → String → Bool
contains p [] = has_prefix p []
contains p (c ∷ s) = has_prefix p (c ∷ s) || contains p s
