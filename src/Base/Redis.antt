-- ===== src/Base/Redis.antt =====
-- A Redis database: texts by key, each with the time at which it expires, if at all.
use docflow_web.Base.{
  ℕ, String, ◌+◌, ◌≡◌, Bool, true, ◌==◌, Option, none, some, List, [], ◌∷◌, arith, eq_iff,
  if◌then◌else◌, ltb, nat_eq,
}

pub record Entry : Type 0 where
  pub value : String
  pub expires : Option ℕ

abbrev pub Cache : Type 0
Cache = List (String × Entry)

abbrev pub is_live : ℕ → Option ℕ → Bool
is_live now none = true
is_live now (some t) = ltb now t

abbrev pub current : ℕ → Entry → Option String
current now e = if is_live now e.expires then some e.value else none

-- `GET`
unfoldable pub get : ℕ → String → Cache → Option String
get now k [] = none
get now k ((j, e) ∷ m) = if j == k then current now e else get now k m

-- `DEL`
unfoldable pub del : String → Cache → Cache
del k [] = []
del k ((j, e) ∷ m) = let rest = del k m in if j == k then rest else (j, e) ∷ rest

-- The client sends no expiry for a duration that is not positive.
abbrev pub expiry : ℕ → ℕ → Option ℕ
expiry now ttl = if nat_eq ttl 0 then none else some (now + ttl)

-- `SET`
unfoldable pub set : ℕ → ℕ → String → String → Cache → Cache
set now ttl k v m = (k, record { value = v; expires = expiry now ttl }) ∷ del k m

pub get-del :
    (now : ℕ) (j k : String) (m : Cache)
    → get now k (del j m) ≡ (if j == k then none else get now k m)
unfolding get del
get-del now j k [] = ground arith
get-del now j k ((i, e) ∷ m) = ground (arith, get-del now j k m, eq_iff i j, eq_iff i k, eq_iff j k)

pub get-set :
    (at now ttl : ℕ) (j k v : String) (m : Cache)
    → get now k (set at ttl j v m)
      ≡ (if j == k then (if is_live now (expiry at ttl) then some v else none) else get now k m)
unfolding get set
get-set at now ttl j k v m = ground (arith, get-del now j k m)
