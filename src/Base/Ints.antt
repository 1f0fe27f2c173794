-- ===== src/Base/Ints.antt =====
-- A Go `int`, as it arrives in a request.
use Prim.Native.Nat.{ℕ}
use mathlib.Core.Bool.{Bool, false, ◌&&◌}
use mathlib.Core.Option.{Option, none, some}
use breckr.Base.Tests.{leb, nat_eq, if◌then◌else◌}

-- `negsuc n` is -(n + 1).
pub data ℤ : Type 0 where
  pos : ℕ → ℤ
  negsuc : ℕ → ℤ

-- The number that a value in a range is.
unfoldable pub in_range : ℕ → ℕ → ℤ → Option ℕ
in_range min max (pos n) = if leb min n && leb n max then some n else none
in_range min max (negsuc n) = none

abbrev pub is_pos : ℕ → ℤ → Bool
is_pos d (pos n) = nat_eq n d
is_pos d (negsuc n) = false
