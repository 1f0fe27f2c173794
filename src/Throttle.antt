-- ===== src/Throttle.antt =====
-- server/internal/auth/throttle.go: the sliding window over failed logins. Each method holds the mutex
-- and is one step; the clock's reading is an argument, and so is the order in which a range over the
-- map visits its entries. Times and durations are in one unit, which the laws do not depend on.
pub mod Bounds
pub mod Window
mod Tests
use mathlib.Core.Option
use breckr.Base.{
  Text, codes, ℕ, ◌+◌, ◌*◌, Bool, true, false, not, ◌&&◌, ◌||◌, Option, none, some, List, [], ◌∷◌,
  ◌++◌, ltb, leb, keep, length, lookup, put, delete, is_empty, if◌then◌else◌, Text_eq,
}

abbrev pub max_attempts : ℕ
max_attempts = 5

-- Fifteen minutes, in milliseconds.
abbrev pub attempt_window : ℕ
attempt_window = 15 * 60 * 1000

abbrev pub max_keys : ℕ
max_keys = 1024

-- The map `failures`.
abbrev pub Failures : Type 0
Failures = List (Text × List ℕ)

-- `t.failures[key]`, nil for an absent key.
abbrev pub attempts_of : Text → Failures → List ℕ
attempts_of key m = elim (lookup key m) [ none ↦ [] | some ts ↦ ts ]

-- `at.After(cutoff)`, for the cutoff `now.Add(-attemptWindow)`.
abbrev pub is_recent : ℕ → ℕ → Bool
is_recent now at = ltb now (at + attempt_window)

unfoldable pub pruned : Text → List ℕ → Failures → Failures × List ℕ
pruned key [] m = (delete key m, [])
pruned key (x ∷ xs) m = (put key (x ∷ xs) m, x ∷ xs)

unfoldable pub prune : Text → ℕ → Failures → Failures × List ℕ
unfolding pruned
prune key now m = pruned key (keep (is_recent now) (attempts_of key m)) m

-- When the oldest counted failure ages out; the source returns the time until then.
unfoldable pub retry_at : List ℕ → ℕ
retry_at [] = 0
retry_at (at ∷ rest) = at + attempt_window

-- `Allow`: the map after its prune, and no instant if the caller may try.
unfoldable pub allow : Text → ℕ → Failures → Failures × Option ℕ
unfolding prune retry_at
allow key now m =
    let (m', recent) = prune key now m in
    (m', if ltb (length recent) max_attempts then none else some (retry_at recent))

-- `attempts[len(attempts)-1]`, which panics on an empty slice.
unfoldable pub latest : List ℕ → Option ℕ
latest [] = none
latest (x ∷ xs) = let rest = latest xs in elim rest [ none ↦ some x | some y ↦ some y ]

-- The loop of `evictOldest`.
unfoldable pub oldest : Text → ℕ → Failures → Option Text
unfolding latest
oldest oldest_key at [] = some oldest_key
oldest oldest_key at ((key, attempts) ∷ rest) = elim (latest attempts) [
  | none ↦ none
  | some last ↦
      let (k, t) = if is_empty oldest_key || ltb last at then (key, last) else (oldest_key, at) in
      oldest k t rest
]

unfoldable pub is_tracked : Text → Failures → Bool
is_tracked key m = elim (lookup key m) [ none ↦ false | some _ ↦ true ]

module _ (visit : Failures → Failures) where
  unfoldable pub evict_oldest : Failures → Option Failures
  unfolding oldest
  evict_oldest m = Option.map (λ (k : Text). delete k m) (oldest (codes "") 0 (visit m))

  -- `RecordFailure`, or none where it panics.
  unfoldable pub record_failure : Text → ℕ → Failures → Option Failures
  unfolding prune evict_oldest is_tracked
  record_failure key now m =
      let (m', recent) = prune key now m in
      Option.map (put key (recent ++ now ∷ []))
        (if leb max_keys (length m') && not (is_tracked key m') then evict_oldest m' else some m')

unfoldable pub reset : Text → Failures → Failures
reset key m = delete key m

-- A call of the throttle for a key, at an instant.
pub data Call : Type 0 where
  allows fails : Text → ℕ → Call
  resets : Text → Call

module _ (visit : Failures → Failures) where
  unfoldable pub step : Call → Failures → Option Failures
  unfolding allow record_failure reset
  step (allows key now) m = some (allow key now m).0
  step (fails key now) m = record_failure visit key now m
  step (resets key) m = some (reset key m)

  unfoldable pub run : List Call → Failures → Option Failures
  unfolding step
  run [] m = some m
  run (c ∷ cs) m = elim (step c m) [ none ↦ none | some m' ↦ run cs m' ]
