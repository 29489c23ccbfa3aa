-- ===== src/Migration/Ranking.antt =====
-- The order of scores (internal/migration/match.go).
use makidoku.Common.{ℕ, ◌+◌, ◌*◌, ◌≤◌, ◌<◌, ◌≡◌, true, false, arith}
use native.Mathlib.Nat.{mul-le-mul_right, le_of_mul-le-mul_right, lt_of_mul-lt-mul_right}
use makidoku.Migration.Match.{Text, Score, lower, similarity}

abbrev pub IsPositive : Score → Type 0
IsPositive s = 0 < s.den

abbrev pub AtMost : Score → Score → Type 0
AtMost a b = lower b a ≡ false

abbrev pub Below : Score → Score → Type 0
Below a b = lower a b ≡ true

pub AtMost-refl : (a : Score) → AtMost a a
AtMost-refl a = ground arith

pub AtMost-Below : (a b : Score) → Below a b → AtMost a b
AtMost-Below a b h = ground arith

-- Of three fractions with positive denominators.
chain : (a b c x y z : ℕ) → 0 < y → a * y ≤ b * x → b * z ≤ c * y → a * z ≤ c * x
chain a b c x y z p h k =
    le_of_mul-le-mul_right {k = y} (omega (arith, mul-le-mul_right z h, mul-le-mul_right x k)) p

pub AtMost-trans : (a b c : Score) → IsPositive b → AtMost a b → AtMost b c → AtMost a c
AtMost-trans a b c p h k =
    let x : a.num * b.den ≤ b.num * a.den = ground arith in
    let y : b.num * c.den ≤ c.num * b.den = ground arith in
    let z = chain a.num b.num c.num a.den b.den c.den p x y in ground arith

chain_lt : (a b c x y z : ℕ) → 0 < z → a * y < b * x → b * z ≤ c * y → a * z < c * x
chain_lt a b c x y z p h k =
    let more : a * y + 1 ≤ b * x = omega arith in
    lt_of_mul-lt-mul_right y (omega (arith, mul-le-mul_right z more, mul-le-mul_right x k))

pub Below-trans : (a b c : Score) → IsPositive c → Below a b → AtMost b c → Below a c
Below-trans a b c p h k =
    let x : a.num * b.den < b.num * a.den = ground arith in
    let y : b.num * c.den ≤ c.num * b.den = ground arith in
    let z = chain_lt a.num b.num c.num a.den b.den c.den p x y in ground arith

chain_lt' : (a b c x y z : ℕ) → 0 < x → a * y ≤ b * x → b * z < c * y → a * z < c * x
chain_lt' a b c x y z p h k =
    let more : b * z + 1 ≤ c * y = omega arith in
    lt_of_mul-lt-mul_right y (omega (arith, mul-le-mul_right z h, mul-le-mul_right x more))

pub AtMost-Below-trans : (a b c : Score) → IsPositive a → AtMost a b → Below b c → Below a c
AtMost-Below-trans a b c p h k =
    let x : a.num * b.den ≤ b.num * a.den = ground arith in
    let y : b.num * c.den < c.num * b.den = ground arith in
    let z = chain_lt' a.num b.num c.num a.den b.den c.den p x y in ground arith

pub similarity-IsPositive :
    (distance : Text → Text → ℕ) (clean : Text → Text) (a b : Text)
    → IsPositive (similarity distance clean a b)
unfolding similarity
similarity-IsPositive distance clean a b = ground arith
