-- ===== src/Tests/Numbers.antt =====
-- Numbers with a NaN, in which the arithmetic is that of ℕ.
use quantum_entropy_service.Common.{
  min, ℕ, ◌+◌, ◌-◌, ◌*◌, ◌/◌, ◌≡◌, refl, Bool, true, false, ltb, leb, ◌==◌, Option, none, some, pos,
  negsuc, ℤ, arith, length,
}
use quantum_entropy_service.Audit.Floats.{Floats, IsFloats}

abbrev both : (ℕ → ℕ → ℕ) → Option ℕ → Option ℕ → Option ℕ
both op (some x) (some y) = some (op x y)
both op none y = none
both op (some x) none = none

abbrev test : (ℕ → ℕ → Bool) → Option ℕ → Option ℕ → Bool
test op (some x) (some y) = op x y
test op none y = false
test op (some x) none = false

abbrev from_int : ℤ → Option ℕ
from_int (pos n) = some n
from_int (negsuc n) = some 0

abbrev whole : Option ℕ → ℤ
whole none = pos 0
whole (some x) = pos x

abbrev missing : Option ℕ → Bool
missing none = true
missing (some x) = false

abbrev pub numbers : Floats
numbers = record {
  F = Option ℕ;
  of_int = from_int;
  lit = λ mantissa places. some mantissa;
  add = both (λ x y. x + y);
  sub = both (λ x y. x - y);
  mul = both (λ x y. x * y);
  div = both (λ x y. x / y);
  neg = λ x. x;
  abs = λ x. x;
  sqrt = λ x. x;
  erfc = λ x. x;
  log = λ x. x;
  log2 = λ x. x;
  exp = λ x. x;
  lgamma = λ x. x;
  pow = both (λ x y. x);
  round = λ x. x;
  lesser = both min;
  truncated = whole;
  ln2 = some 1;
  inf = some 1000000;
  max_float64 = some 1000000;
  nan = none;
  lt = test ltb;
  le = test leb;
  is_nan = missing;
  same = test (λ x y. x == y);
  fixed = λ places x. "0.5";
  scientific = λ places x. "5e-5";
  decimal = λ n. "7";
  gzip_size = λ bytes. some (length bytes);
  visit = λ counts. counts;
}

never : (op : ℕ → ℕ → Bool) (x : Option ℕ) → test op x none ≡ false
never op none = refl
never op (some x) = refl

le_trans : (x y z : Option ℕ) → test leb x y ≡ true → test leb y z ≡ true → test leb x z ≡ true
le_trans (some x) (some y) (some z) h k = ground (arith, h, k)
le_trans none y z h k = h
le_trans (some x) none z h k = ground (arith, h)
le_trans (some x) (some y) none h k = k

lt_of_le_of_lt :
    (x y z : Option ℕ) → test leb x y ≡ true → test ltb y z ≡ true → test ltb x z ≡ true
lt_of_le_of_lt (some x) (some y) (some z) h k = ground (arith, h, k)
lt_of_le_of_lt none y z h k = h
lt_of_le_of_lt (some x) none z h k = ground (arith, h)
lt_of_le_of_lt (some x) (some y) none h k = k

pub numbers-IsFloats : IsFloats numbers
numbers-IsFloats = record {
  lt-nan = λ x. refl;
  nan-lt = never ltb;
  le-nan = λ x. refl;
  nan-le = never leb;
  is_nan-nan = refl;
  le_trans = le_trans;
  lt_of_le_of_lt = lt_of_le_of_lt;
}
