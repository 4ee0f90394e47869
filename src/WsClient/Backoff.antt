-- ===== src/WsClient/Backoff.antt =====
-- internal/wsclient/backoff.go: the reconnection schedule. Durations are nanoseconds. The fields
-- `base`, `max` and `stable_for` are 0 for every value that the code reads as unset; `cur` is an
-- int64 as a bit pattern, so that its doubling wraps as in the code.
use Prim.Native.Nat.{min}
use native.Mathlib.Nat.{pow-suc, one-le-pow}
use emly_updater.Base.{
  ℕ, zero, suc, ◌+◌, ◌*◌, ◌%◌, ◌^◌, ◌≤◌, ◌<◌, ◌≡◌, refl, Bool, false, ◌||◌, ltb, leb, ◌==◌, arith,
  ◌∙◌, if◌then◌else◌,
}

abbrev pub second : ℕ
second = 1000000000

abbrev pub default_backoff_base : ℕ
default_backoff_base = 5 * second

abbrev pub default_backoff_max : ℕ
default_backoff_max = 300 * second

abbrev pub default_stable_for : ℕ
default_stable_for = 60 * second

pub record Backoff : Type 0 where
  pub base : ℕ
  pub max : ℕ
  pub stable_for : ℕ
  pub cur : ℕ

unfoldable pub base_of : Backoff → ℕ
base_of b = if ltb 0 b.base then b.base else default_backoff_base

unfoldable pub max_of : Backoff → ℕ
max_of b = if ltb 0 b.max then b.max else default_backoff_max

unfoldable pub stable_of : Backoff → ℕ
stable_of b = if ltb 0 b.stable_for then b.stable_for else default_stable_for

-- `d <= 0` on a bit pattern
abbrev pub is_nonpositive : ℕ → Bool
is_nonpositive d = d == 0 || leb (2 ^ 63) d

-- `d > m` on a bit pattern, for an m that is no negative number
abbrev pub exceeds : ℕ → ℕ → Bool
exceeds d m = if leb (2 ^ 63) d then false else ltb m d

-- `draw` is the random number behind rand.Int64N
unfoldable pub jitter : ℕ → ℕ → ℕ
jitter draw d = if is_nonpositive d then 0 else draw % (d + 1)

advanced : Backoff → ℕ
unfolding base_of
advanced b = if is_nonpositive b.cur then base_of b else b.cur * 2 % 2 ^ 64

capped : ℕ → ℕ → ℕ
capped m c = if exceeds c m then m else c

-- the ceiling that Next moves to
unfoldable pub ceiling_after : Backoff → ℕ
unfolding advanced capped max_of
ceiling_after b = capped (max_of b) (advanced b)

unfoldable pub next : ℕ → Backoff → ℕ × Backoff
unfolding jitter
next draw b = let c = ceiling_after b in (jitter draw c, record b { cur = c })

unfoldable pub reset : Backoff → Backoff
reset b = record b { cur = 0 }

unfoldable pub settle : ℕ → Backoff → Backoff
unfolding reset stable_of
settle connected_for b = if leb (stable_of b) connected_for then reset b else b

-- The schedule after n calls of Next.
unfoldable pub after_nexts : ℕ → Backoff → Backoff
unfolding next
after_nexts zero b = b
after_nexts (suc n) b = (next 0 (after_nexts n b)).1

-- A duration that an int64 holds, and whose double it holds too.
abbrev pub Fits : ℕ → Type 0
Fits d = d < 2 ^ 62

jitter-le : (draw d m : ℕ) → exceeds d m ≡ false → jitter draw d ≤ m
unfolding jitter
jitter-le draw d m h = ground arith

capped-exceeds : (m c : ℕ) → exceeds (capped m c) m ≡ false
unfolding capped
capped-exceeds m c = ground arith

-- No wait is longer than the maximum, whatever the draw and the state.
pub next-le_max : (draw : ℕ) (b : Backoff) → (next draw b).0 ≤ max_of b
unfolding next ceiling_after
next-le_max draw b = jitter-le draw _ (max_of b) (capped-exceeds (max_of b) (advanced b))

ceiling_after-start :
    (b : Backoff) → b.cur ≡ 0 → Fits (base_of b) → ceiling_after b ≡ min (max_of b) (base_of b)
unfolding ceiling_after
ceiling_after-start b z f = ground arith

ceiling_after-double :
    (b : Backoff) → 0 < b.cur → Fits b.cur → ceiling_after b ≡ min (max_of b) (b.cur * 2)
unfolding ceiling_after
ceiling_after-double b p f = ground arith

-- The fields are never written.
after_nexts_fields :
    (n : ℕ) (b : Backoff)
    → (base_of (after_nexts n b) ≡ base_of b) × (max_of (after_nexts n b) ≡ max_of b)
unfolding after_nexts base_of max_of
after_nexts_fields zero b = (refl, refl)
after_nexts_fields (suc n) b = after_nexts_fields n b

scaled_pos : (b n : ℕ) → 0 < b → 0 < b * 2 ^ n
scaled_pos b n h = grind (arith, one-le-pow n 2 (omega arith))

bounds_pos : (b : Backoff) → (0 < base_of b) × (0 < max_of b)
unfolding base_of max_of
bounds_pos b = (ground arith, ground arith)

-- From its start the ceiling is the base, doubled on every further attempt and capped at the
-- maximum, where the two fit an int64 with room for one doubling.
pub after_nexts_lem :
    (n : ℕ) (b : Backoff)
    → b.cur ≡ 0
    → Fits (base_of b)
    → Fits (max_of b)
    → (after_nexts (suc n) b).cur ≡ min (max_of b) (base_of b * 2 ^ n)
unfolding after_nexts
after_nexts_lem zero b z fb fm = rw (ceiling_after-start b z fb) (omega arith)
after_nexts_lem (suc n) b z fb fm =
    let ih = after_nexts_lem n b z fb fm in
    let prev = after_nexts (suc n) b in
    let (eb, em) = after_nexts_fields (suc n) b in
    let pos = scaled_pos (base_of b) n (bounds_pos b).0 in
    let (_, top) = bounds_pos b in
    let double = ceiling_after-double prev (omega arith) (omega arith) in
    let scaled : base_of b * 2 ^ suc n ≡ base_of b * 2 ^ n * 2 = rw pow-suc (omega arith) in
    double ∙ omega arith

-- A connection that lived for the stable time restarts the schedule, so that the next ceiling is
-- the base (or the maximum, if that is smaller); a shorter one leaves the schedule as it was.
pub settle_lem :
    (t : ℕ) (b : Backoff)
    → Fits (base_of b)
    → (stable_of b ≤ t → ceiling_after (settle t b) ≡ min (max_of b) (base_of b))
      × (t < stable_of b → settle t b ≡ b)
unfolding settle ceiling_after
settle_lem t b f = (λ h. ground arith, λ h. ground arith)
