-- ===== src/Common/Int.antt =====
-- Signed integers, and Go's conversions of a `uint64` to `int64` and `int32`.
use makidoku.Common.Tests.{ltb, ◌==◌, if◌then◌else◌}
use mathlib.Core.Bool.{Bool, true, false}
use Prim.Native.Nat.{ℕ, ◌-◌, ◌%◌, ◌<◌}
use mathlib.Core.Path.{◌≡◌}
use native.Mathlib.Omega.{arith}

-- `negsuc n` is -(n + 1).
pub data ℤ : Type 0 where
  pos : ℕ → ℤ
  negsuc : ℕ → ℤ

abbrev pub less : ℤ → ℤ → Bool
less (pos a) (pos b) = ltb a b
less (pos a) (negsuc b) = false
less (negsuc a) (pos b) = true
less (negsuc a) (negsuc b) = ltb b a

abbrev pub same : ℤ → ℤ → Bool
same (pos a) (pos b) = a == b
same (negsuc a) (negsuc b) = a == b
same _ _ = false

-- The integer that a 64-bit pattern stands for.
abbrev pub to_int64 : ℕ → ℤ
to_int64 v = if ltb v 0x8000_0000_0000_0000 then pos v else negsuc (0xffff_ffff_ffff_ffff - v)

-- The integer that the low 32 bits stand for.
abbrev pub to_int32 : ℕ → ℤ
to_int32 v =
    let low = v % 0x1_0000_0000 in
    if ltb low 0x8000_0000 then pos low else negsuc (0xffff_ffff - low)

abbrev pub FitsInt64 : ℤ → Type 0
FitsInt64 (pos n) = n < 0x8000_0000_0000_0000
FitsInt64 (negsuc n) = n < 0x8000_0000_0000_0000

abbrev pub FitsInt32 : ℤ → Type 0
FitsInt32 (pos n) = n < 0x8000_0000
FitsInt32 (negsuc n) = n < 0x8000_0000

-- The 64-bit pattern of an integer, which sign-extends a 32-bit one.
abbrev pub of_int : ℤ → ℕ
of_int (pos n) = n
of_int (negsuc n) = 0xffff_ffff_ffff_ffff - n

pub to_int64-of_int : (z : ℤ) → FitsInt64 z → to_int64 (of_int z) ≡ z
to_int64-of_int (pos n) h = ground arith
to_int64-of_int (negsuc n) h = ground arith

pub to_int32-of_int : (z : ℤ) → FitsInt32 z → to_int32 (of_int z) ≡ z
to_int32-of_int (pos n) h = ground arith
to_int32-of_int (negsuc n) h = ground arith

pub of_int-lt : (z : ℤ) → FitsInt64 z → of_int z < 0x1_0000_0000_0000_0000
of_int-lt (pos n) h = omega arith
of_int-lt (negsuc n) h = omega arith
