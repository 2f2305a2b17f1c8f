-- ===== src/Gateway/RateLimit.antt =====
-- services/api-gateway/internal/middleware/ratelimit.go. Redis keeps, for one client and route, a
-- sorted set whose members are the seconds in which a request was let through; the member of a
-- sorted set is unique. One request is handled at a time. Any command may fail, and the key may have
-- expired before any request.
use docflow_web.Base.{
  ℕ, suc, ◌≡◌, refl, ◌+◌, ◌-◌, ◌≤◌, ◌<◌, Bool, true, false, ◌||◌, List, [], ◌∷◌, if◌then◌else◌, leb,
  nat_eq, length, arith, Bool-cases, inl, inr, All,
}
use docflow_web.Base.Paging.{ℤ, pos, negsuc}

-- What one request meets: whether the key has expired since the last one, and which commands have
-- their effect. The code reads none of the errors, and a count that failed is 0.
pub record Reached : Type 0 where
  pub expired : Bool
  pub trim : Bool
  pub card : Bool
  pub add : Bool

-- `ZREMRANGEBYSCORE key -inf start`, for `start = now - 60` and `now` at least 60.
unfoldable pub remove_until : ℕ → List ℕ → List ℕ
remove_until start [] = []
remove_until start (m ∷ ms) =
    let rest = remove_until start ms in if leb m start then rest else m ∷ rest

abbrev pub member : ℕ → List ℕ → Bool
member n [] = false
member n (m ∷ ms) = nat_eq m n || member n ms

-- `ZADD key now now`
abbrev pub add_member : ℕ → List ℕ → List ℕ
add_member now ms = if member now ms then ms else now ∷ ms

-- `count >= int64(rpm)`
abbrev pub reaches : ℕ → ℤ → Bool
reaches count (pos n) = leb n count
reaches count (negsuc n) = true

pub data Verdict : Type 0 where
  admitted refused : Verdict

abbrev judge : Bool → Bool → ℕ → List ℕ → Verdict × List ℕ
judge over added now ms =
    if over then (refused, ms) else (admitted, if added then add_member now ms else ms)

-- `RateLimitMiddleware`: the verdict, and the set afterwards.
unfoldable pub limit : ℤ → Reached → ℕ → List ℕ → Verdict × List ℕ
unfolding remove_until
limit rpm r now ms =
    let held = if r.expired then [] else ms in
    let trimmed = if r.trim then remove_until (now - 60) held else held in
    let count = if r.card then length trimmed else 0 in judge (reaches count rpm) r.add now trimmed

-- A request: its second, and what it meets.
abbrev pub Arrival : Type 0
Arrival = ℕ × Reached

-- The set after these requests, and the verdicts on them.
abbrev pub set_after : ℤ → List Arrival → List ℕ → List ℕ
set_after rpm [] ms = ms
set_after rpm ((now, r) ∷ later) ms = set_after rpm later (limit rpm r now ms).1

abbrev pub verdicts : ℤ → List Arrival → List ℕ → List Verdict
verdicts rpm [] ms = []
verdicts rpm ((now, r) ∷ later) ms =
    (limit rpm r now ms).0 ∷ verdicts rpm later (limit rpm r now ms).1

-- The clock does not go back.
abbrev pub Climbs : ℕ → List Arrival → Type 0
Climbs from [] = Unit
Climbs from ((now, r) ∷ later) = (from ≤ now) × Climbs now later

-- The members fall strictly, from below `top` on.
abbrev Below : ℕ → List ℕ → Type 0
Below top [] = Unit
Below top (m ∷ ms) = (m < top) × Below m ms

Below-le : (a b : ℕ) (ms : List ℕ) → a ≤ b → Below a ms → Below b ms
Below-le a b [] h below = tt
Below-le a b (m ∷ ms) h (head, tail) = (omega arith, tail)

Below-remove_until :
    (start top : ℕ) (ms : List ℕ) → Below top ms → Below top (remove_until start ms)
unfolding remove_until
Below-remove_until start top [] h = tt
Below-remove_until start top (m ∷ ms) (head, tail) = elim (Bool-cases (leb m start)) [
  | inl e ↦ rw e (Below-le m top _ (omega arith) (Below-remove_until start m ms tail))
  | inr e ↦ rw e (head, Below-remove_until start m ms tail)
]

young : (start m : ℕ) → leb m start ≡ false → start < m
young start m h = ground arith

All-remove_until : (start : ℕ) (ms : List ℕ) → All (λ m. start < m) (remove_until start ms)
unfolding remove_until
All-remove_until start [] = tt
All-remove_until start (m ∷ ms) = elim (Bool-cases (leb m start)) [
  | inl e ↦ rw e (All-remove_until start ms)
  | inr e ↦ rw e (young start m e, All-remove_until start ms)
]

other : (now m : ℕ) (b : Bool) → nat_eq m now || b ≡ false → m < suc now → m < now
other now m b h l = ground arith

Below-add_member :
    (now : ℕ) (ms : List ℕ) → Below (suc now) ms → Below (suc now) (add_member now ms)
Below-add_member now ms h = elim (Bool-cases (member now ms)) [
  | inl e ↦ rw e h
  | inr e ↦ rw e (omega arith, fresh ms e h)
]
  where
    fresh : (ns : List ℕ) → member now ns ≡ false → Below (suc now) ns → Below now ns
    fresh [] e h = tt
    fresh (n ∷ ns) e (head, tail) = (other now n (member now ns) e head, tail)

-- Different seconds of a minute are at most sixty.
few :
    (start top : ℕ) (ms : List ℕ)
    → start < top
    → Below top ms
    → All (λ m. start < m) ms
    → length ms + suc start ≤ top
few start top [] lt h a = omega arith
few start top (m ∷ ms) lt (head, tail) (young_one, a) =
    omega (arith, head, few start m ms young_one tail a)

trimmed_few :
    (now : ℕ) (ms : List ℕ) → Below (suc now) ms → length (remove_until (now - 60) ms) ≤ 60
trimmed_few now ms h =
    let start : now - 60 < suc now = omega arith in
    let fits =
      few (now - 60) (suc now) (remove_until (now - 60) ms) start
        (Below-remove_until (now - 60) (suc now) ms h) (All-remove_until (now - 60) ms) in
    omega (arith, fits)

not_reached : (count n : ℕ) → count < n → reaches count (pos n) ≡ false
not_reached count n h = ground arith

held : Bool → List ℕ → List ℕ
held expired ms = if expired then [] else ms

Below-held : (top : ℕ) (expired : Bool) (ms : List ℕ) → Below top ms → Below top (held expired ms)
unfolding held
Below-held top true ms h = tt
Below-held top false ms h = h

counted : Bool → List ℕ → ℕ
counted card ms = if card then length ms else 0

counted_few : (card : Bool) (ms : List ℕ) → length ms ≤ 60 → counted card ms ≤ 60
unfolding counted
counted_few true ms h = h
counted_few false ms h = omega arith

Below-added :
    (added : Bool) (now : ℕ) (ms : List ℕ)
    → Below (suc now) ms
    → Below (suc now) (if added then add_member now ms else ms)
Below-added true now ms h = Below-add_member now ms h
Below-added false now ms h = h

-- One request that trims, in a set of the seconds up to now.
admits :
    (rpm now : ℕ) (r : Reached) (ms : List ℕ)
    → 60 < rpm
    → r.trim ≡ true
    → Below (suc now) ms
    → ((limit (pos rpm) r now ms).0 ≡ admitted) × Below (suc now) (limit (pos rpm) r now ms).1
unfolding limit held counted
admits rpm now r ms h trims below =
    let start = held r.expired ms in
    let here = Below-held (suc now) r.expired ms below in
    let kept = remove_until (now - 60) start in
    let fits = counted_few r.card kept (trimmed_few now start here) in
    let under = not_reached (counted r.card kept) rpm (omega (arith, fits)) in
    rw (trims, under)
      (refl, Below-added r.add now kept (Below-remove_until (now - 60) (suc now) start here))

-- If the clock does not go back, no removal of old members fails and the limit is more than 60
-- requests a minute, as the default of 100 is, then every request is admitted, however many there
-- are: requests of one second count once. Counts and additions may fail, and the key may expire at
-- any time.
pub verdicts-admitted :
    (rpm : ℕ) (arrivals : List Arrival)
    → 60 < rpm
    → Climbs 0 arrivals
    → All (λ a. a.1.trim ≡ true) arrivals
    → All (λ v. v ≡ admitted) (verdicts (pos rpm) arrivals [])
verdicts-admitted rpm arrivals h climbs trims = go 0 arrivals [] climbs trims tt
  where
    go :
        (from : ℕ) (later : List Arrival) (ms : List ℕ)
        → Climbs from later
        → All (λ a. a.1.trim ≡ true) later
        → Below (suc from) ms
        → All (λ v. v ≡ admitted) (verdicts (pos rpm) later ms)
    go from [] ms c t below = tt
    go from ((now, r) ∷ later) ms (le, c) (trim, t) below =
        let one =
          admits rpm now r ms h trim (Below-le (suc from) (suc now) ms (omega arith) below) in
        (one.0, go now later _ c t one.1)

length-remove_until : (start : ℕ) (ms : List ℕ) → length (remove_until start ms) ≤ length ms
unfolding remove_until
length-remove_until start [] = omega arith
length-remove_until start (m ∷ ms) = elim (Bool-cases (leb m start)) [
  | inl e ↦ rw e (omega (arith, length-remove_until start ms))
  | inr e ↦ rw e (omega (arith, length-remove_until start ms))
]

length-add_member : (now : ℕ) (ms : List ℕ) → length (add_member now ms) ≤ suc (length ms)
length-add_member now ms = elim (Bool-cases (member now ms)) [
  | inl e ↦ rw e (omega arith)
  | inr e ↦ rw e (omega arith)
]

below_limit : (count n : ℕ) → reaches count (pos n) ≡ false → count < n
below_limit count n h = ground arith

length-held : (expired : Bool) (ms : List ℕ) → length (held expired ms) ≤ length ms
unfolding held
length-held true ms = omega arith
length-held false ms = omega arith

length-trimmed :
    (trim : Bool) (start : ℕ) (ms : List ℕ)
    → length (if trim then remove_until start ms else ms) ≤ length ms
length-trimmed true start ms = length-remove_until start ms
length-trimmed false start ms = omega arith

length-added :
    (added : Bool) (now : ℕ) (ms : List ℕ)
    → length (if added then add_member now ms else ms) ≤ suc (length ms)
length-added true now ms = length-add_member now ms
length-added false now ms = omega arith

step_bounded :
    (rpm now : ℕ) (r : Reached) (ms : List ℕ)
    → r.card ≡ true
    → length ms ≤ rpm
    → length (limit (pos rpm) r now ms).1 ≤ rpm
unfolding limit held
step_bounded rpm now r ms counts h =
    let start = held r.expired ms in
    let kept = if r.trim then remove_until (now - 60) start else start in
    let fewer = length-held r.expired ms in
    let still = length-trimmed r.trim (now - 60) start in
    rw counts (elim (Bool-cases (reaches (length kept) (pos rpm))) [
      | inl e ↦ rw e (omega (arith, fewer, still))
      | inr e ↦ rw e (omega (arith, below_limit (length kept) rpm e, length-added r.add now kept))
    ])

-- Whatever the clock does and whichever removals and additions fail, after any requests whose counts
-- do not fail the set holds at most as many seconds as the limit allows requests in a minute.
pub set_after-bounded :
    (rpm : ℕ) (arrivals : List Arrival)
    → All (λ a. a.1.card ≡ true) arrivals
    → length (set_after (pos rpm) arrivals []) ≤ rpm
set_after-bounded rpm arrivals counts = go arrivals [] counts (omega arith)
  where
    go :
        (later : List Arrival) (ms : List ℕ)
        → All (λ a. a.1.card ≡ true) later
        → length ms ≤ rpm
        → length (set_after (pos rpm) later ms) ≤ rpm
    go [] ms c h = h
    go ((now, r) ∷ later) ms (count, c) h = go later _ c (step_bounded rpm now r ms count h)
