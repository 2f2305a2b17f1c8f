-- ===== src/Base/Paging.antt =====
-- Page numbers and sizes as the filters of the services normalise them, and LIMIT with OFFSET.
-- Go's `int` is kept as an integer; the requests carry `int32`, so `(Page - 1) * PageSize` stays
-- below 2 ^ 31 * 100 and never wraps.
use Prim.Native.Nat.{ℕ, zero, suc, ◌-◌, ◌*◌, ◌≤◌}
use mathlib.Core.Path.{◌≡◌, refl, ap, ◌∙◌}
use mathlib.Core.Bool.{Bool, true, false, ◌||◌}
use mathlib.Core.List.{List, [], ◌++◌}
use native.Mathlib.Omega.{arith}
use native.Mathlib.Nat.{zero-mul}
use docflow_web.Base.Tests.{leb, ltb, if◌then◌else◌, take, drop, take-drop}

-- `negsuc n` is -(n + 1).
pub data ℤ : Type 0 where
  pos : ℕ → ℤ
  negsuc : ℕ → ℤ

-- `n <= 0`
abbrev pub is_nonpositive : ℤ → Bool
is_nonpositive (pos n) = leb n 0
is_nonpositive (negsuc n) = true

-- `n > k`
abbrev pub exceeds : ℤ → ℕ → Bool
exceeds (pos n) k = ltb k n
exceeds (negsuc n) k = false

abbrev pub to_nat : ℤ → ℕ
to_nat (pos n) = n
to_nat (negsuc n) = 0

-- A page that was normalised: both numbers are positive.
pub record Window : Type 0 where
  pub page : ℕ
  pub page_size : ℕ

-- `Normalize`
unfoldable pub normalize : ℤ → ℤ → Window
normalize page page_size = record {
  page = if is_nonpositive page then 1 else to_nat page;
  page_size = if is_nonpositive page_size || exceeds page_size 100 then 20 else to_nat page_size;
}

-- `Offset`; the page is positive, so truncated subtraction is exact.
unfoldable pub offset : Window → ℕ
offset w = (w.page - 1) * w.page_size

-- LIMIT page_size OFFSET offset
unfoldable pub window {ℓ} : {A : Type ℓ} → Window → List A → List A
unfolding offset
window w rows = take w.page_size (drop (offset w) rows)

pub record InBounds (w : Window) : Type 0 where
  pub page_pos : 1 ≤ w.page
  pub size_pos : 1 ≤ w.page_size
  pub size_capped : w.page_size ≤ 100

pub normalize-InBounds : (page page_size : ℤ) → InBounds (normalize page page_size)
unfolding normalize
normalize-InBounds (pos p) (pos s) = ground arith
normalize-InBounds (pos p) (negsuc s) = ground arith
normalize-InBounds (negsuc p) (pos s) = ground arith
normalize-InBounds (negsuc p) (negsuc s) = ground arith

-- What is in bounds is left as it is.
pub normalize_of_InBounds : (w : Window) → InBounds w → normalize (pos w.page) (pos w.page_size) ≡ w
unfolding normalize
normalize_of_InBounds w h = ground arith

-- Pages 1 to k, one after the other.
abbrev pub pages {ℓ} : {A : Type ℓ} → (Window → List A) → ℕ → ℕ → List A
pages fetch size zero = []
pages fetch size (suc k) = pages fetch size k ++ fetch (record { page = suc k; page_size = size })

-- The pages 1 to k, put together, are the first k * size rows, in their order and each row once.
pub pages-window {ℓ} :
    {A : Type ℓ} (size k : ℕ) (rows : List A)
    → pages (λ w. window w rows) size k ≡ take (k * size) rows
unfolding window
pages-window size zero rows = rw zero-mul refl
pages-window size (suc k) rows =
    let start : suc k - 1 ≡ k = omega arith in
    rw (pages-window size k rows, start)
      (take-drop (k * size) size rows ∙ ap (λ n. take n rows) (omega arith))
