-- ===== src/Audit/Validators/Patterns/Counts.antt =====
-- The pattern length that the serial test chooses, and what the map of patterns holds.
use quantum_entropy_service.Common.{
  ℕ, zero, suc, ◌+◌, ◌-◌, ◌*◌, ◌%◌, ◌^◌, ◌≤◌, ◌<◌, ◌≡◌, refl, ap, ap₂, sym, ◌∙◌, subst, Bool, true,
  false, ◌==◌, ◌&&◌, List, [], ◌∷◌, ◌++◌, length, take, if◌then◌else◌, arith, ◌⊎◌, inl, inr, All,
  length-append, length-take, All-append,
}
use native.Mathlib.Nat.{two-pow-succ, pow-le-pow_right}
use quantum_entropy_service.Keymanager.Model.{Bytes}
use quantum_entropy_service.Audit.Validators.{zero_plus}
use quantum_entropy_service.Audit.Validators.Patterns.{
  extended, key_from, bump, count_patterns, fits, choose_m, serial_m,
}

abbrev pub NoneFits : (n lo hi : ℕ) → Type 0
NoneFits n lo hi = (k : ℕ) → lo ≤ k → k < hi → fits n k ≡ false

-- The result is the last that fits, and the start if none does.
abbrev pub Chosen : (n lo hi m r : ℕ) → Type 0
Chosen n lo hi m r =
    ((r ≡ m) × NoneFits n lo hi) ⊎ ((lo ≤ r) × (r < hi) × (fits n r ≡ true) × NoneFits n (suc r) hi)

widen : (n lo hi : ℕ) → fits n lo ≡ false → NoneFits n (suc lo) hi → NoneFits n lo hi
widen n lo hi f none k l u = elim (at_or_after lo k l) [
  | inl e ↦ ap (fits n) (sym e) ∙ f
  | inr p ↦ none k p u
]
  where
    at_or_after : (lo k : ℕ) → lo ≤ k → (lo ≡ k) ⊎ (suc lo ≤ k)
    at_or_after lo k l = ground arith

tried :
    (n mm hi m r : ℕ) (f : Bool)
    → fits n mm ≡ f
    → mm < hi
    → Chosen n (suc mm) hi (if f then mm else m) r
    → Chosen n mm hi m r
tried n mm hi m r f e h (inr (l, u, g, none)) = inr (omega (arith, l), u, g, none)
tried n mm hi m r true e h (inl (q, none)) = inr (
  omega (arith, q),
  omega (arith, q, h),
  ap (fits n) q ∙ e,
  subst (λ k. NoneFits n (suc k) hi) (sym q) none,
)
tried n mm hi m r false e h (inl (q, none)) = inl (q, widen n mm hi e none)

choose_m-Chosen : (rounds mm m n : ℕ) → Chosen n mm (mm + rounds) m (choose_m rounds mm m n)
unfolding choose_m
choose_m-Chosen zero mm m n = inl (refl, λ k l h. ground (arith, l, h))
choose_m-Chosen (suc rounds) mm m n =
    tried n mm (mm + suc rounds) m (choose_m rounds (suc mm) (if fits n mm then mm else m) n)
      (fits n mm) refl (omega arith)
      (subst
        (λ hi.
          Chosen n (suc mm) hi (if fits n mm then mm else m)
            (choose_m rounds (suc mm) (if fits n mm then mm else m) n))
        (omega arith) (choose_m-Chosen rounds (suc mm) (if fits n mm then mm else m) n))

shifted :
    (s k b : ℕ) → s < 32 → k < 2 ^ s → b < 2 → (2 * k % 2 ^ 32 ≡ 2 * k) × (2 * k + b < 2 ^ suc s)
shifted s k b h p q =
    let top = pow-le-pow_right {n = 2} (omega arith) {i = s} {j = 31} (omega arith) in
    (omega (arith, top), omega (arith, two-pow-succ s))

key_from-injective :
    (s : ℕ) (xs ys : Bytes) (k l : ℕ)
    → s + length xs ≤ 32
    → length xs ≡ length ys
    → All (λ b. b < 2) xs
    → All (λ b. b < 2) ys
    → k < 2 ^ s
    → l < 2 ^ s
    → key_from k xs ≡ key_from l ys
    → (k ≡ l) × (xs ≡ ys)
unfolding key_from
key_from-injective s [] [] k l h n a b p q e = (e, refl)
key_from-injective s [] (y ∷ ys) k l h n a b p q e = ground arith
key_from-injective s (x ∷ xs) [] k l h n a b p q e = ground arith
key_from-injective s (x ∷ xs) (y ∷ ys) k l h n a b p q e =
    let (no_wrap, below) = shifted s k x (omega arith) p a.0 in
    let (no_wrap', below') = shifted s l y (omega arith) q b.0 in
    let (same, rest) =
      key_from-injective (suc s) xs ys (2 * k % 2 ^ 32 + x) (2 * l % 2 ^ 32 + y) (omega arith)
        (omega arith) a.1 b.1 (omega (arith, no_wrap, below)) (omega (arith, no_wrap', below')) e in
    (
      omega (arith, same, no_wrap, no_wrap', a.0, b.0),
      ap₂ (λ z zs. z ∷ zs) (omega (arith, same, no_wrap, no_wrap', a.0, b.0)) rest,
    )

-- The pattern length is the greatest of 3 to 16 that fits the number of bits, or 3 if none does.
pub serial_m-Chosen : (n : ℕ) → Chosen n 3 17 3 (serial_m n)
unfolding serial_m
serial_m-Chosen n = choose_m-Chosen 14 3 3 n

-- The entry of a key; 0 if it has none.
abbrev pub lookup : ℕ → List (ℕ × ℕ) → ℕ
lookup key [] = 0
lookup key ((k, c) ∷ counts) = if k == key then c else lookup key counts

lookup-bump :
    (key key' : ℕ) (counts : List (ℕ × ℕ))
    → lookup key (bump key' counts)
      ≡ (if key' == key then suc (lookup key counts) else lookup key counts)
unfolding bump
lookup-bump key key' [] = ground arith
lookup-bump key key' ((k, c) ∷ counts) = ground (arith, lookup-bump key key' counts)

abbrev same_bits : Bytes → Bytes → Bool
same_bits [] [] = true
same_bits (x ∷ xs) (y ∷ ys) = x == y && same_bits xs ys
same_bits _ _ = false

-- How many of the first n places begin the pattern.
abbrev pub places : (n : ℕ) → (pattern ext : Bytes) → ℕ
places zero pattern ext = 0
places (suc n) pattern [] = 0
places (suc n) pattern (b ∷ ext) =
    let rest = places n pattern ext in
    if same_bits (take (length pattern) (b ∷ ext)) pattern then suc rest else rest

same_bits-eq : (xs ys : Bytes) → same_bits xs ys ≡ true → xs ≡ ys
same_bits-eq [] [] h = refl
same_bits-eq [] (y ∷ ys) h = ground (arith, h)
same_bits-eq (x ∷ xs) [] h = ground (arith, h)
same_bits-eq (x ∷ xs) (y ∷ ys) h =
    ap₂ (λ z zs. z ∷ zs) (ground (arith, h)) (same_bits-eq xs ys (ground (arith, h)))

same_bits_refl : (xs : Bytes) → same_bits xs xs ≡ true
same_bits_refl [] = refl
same_bits_refl (x ∷ xs) = ground (arith, same_bits_refl xs)

abbrev pub Bits : Bytes → Type 0
Bits bits = All (λ b. b < 2) bits

test_iff : (a b : ℕ) (t : Bool) → (t ≡ true → a ≡ b) → (a ≡ b → t ≡ true) → (a == b) ≡ t
test_iff a b true f g = ground (arith, f refl)
test_iff a b false f g = ground (arith, g)

key_from-same_bits :
    (xs ys : Bytes)
    → length xs ≤ 32
    → length xs ≡ length ys
    → Bits xs
    → Bits ys
    → (key_from 0 xs == key_from 0 ys) ≡ same_bits xs ys
key_from-same_bits xs ys h n a b =
    test_iff (key_from 0 xs) (key_from 0 ys) (same_bits xs ys)
      (λ e. ap (key_from 0) (same_bits-eq xs ys e))
      (λ e.
        let same =
          (key_from-injective (32 - length xs) xs ys 0 0 (omega arith) n a b
            (positive (32 - length xs)) (positive (32 - length xs)) e).1 in
        ap (same_bits xs) (sym same) ∙ same_bits_refl xs)
  where
    positive : (s : ℕ) → 0 < 2 ^ s
    positive s = pow-le-pow_right {n = 2} (omega arith) {i = 0} {j = s} (omega arith)

Bits-take : (m : ℕ) (bits : Bytes) → Bits bits → Bits (take m bits)
Bits-take zero bits h = tt
Bits-take (suc m) [] h = h
Bits-take (suc m) (b ∷ bits) h = (h.0, Bits-take m bits h.1)

lookup-count_patterns :
    (n : ℕ) (pattern ext : Bytes) (counts : List (ℕ × ℕ))
    → length pattern ≤ 32
    → n + length pattern ≤ suc (length ext)
    → Bits pattern
    → Bits ext
    → lookup (key_from 0 pattern) (count_patterns n (length pattern) ext counts)
      ≡ lookup (key_from 0 pattern) counts + places n pattern ext
unfolding count_patterns
lookup-count_patterns zero pattern ext counts h k p q = omega arith
lookup-count_patterns (suc n) pattern [] counts h k p q = omega arith
lookup-count_patterns (suc n) pattern (b ∷ ext) counts h k p q =
    let w = take (length pattern) (b ∷ ext) in
    let key = key_from 0 pattern in
    lookup-count_patterns n pattern ext (bump (key_from 0 w) counts) h (omega arith) p q.1
    ∙ moved (key_from 0 w == key) (same_bits w pattern) (lookup key counts) _ (places n pattern ext)
        (lookup-bump key (key_from 0 w) counts)
        (key_from-same_bits w pattern (omega (arith, full)) full
          (Bits-take (length pattern) (b ∷ ext) q) p)
  where
    full : length (take (length pattern) (b ∷ ext)) ≡ length pattern
    full = length-take (length pattern) (b ∷ ext) ∙ omega (arith, k)

    moved :
        (t u : Bool) (x y r : ℕ)
        → y ≡ (if t then suc x else x)
        → t ≡ u
        → y + r ≡ x + (if u then suc r else r)
    moved t u x y r = ground arith

-- For patterns of at most 32 bits, and of at most one more than the bits: the map's entry of a
-- pattern is the number of the places, one for each bit, at which it begins when the bits are
-- extended by their first m - 1.
pub lookup-pattern :
    (bits pattern : Bytes)
    → length pattern ≤ 32
    → length pattern ≤ suc (length bits)
    → Bits pattern
    → Bits bits
    → lookup
        (key_from 0 pattern)
        (count_patterns (length bits) (length pattern) (extended bits (length pattern)) [])
      ≡ places (length bits) pattern (extended bits (length pattern))
lookup-pattern bits pattern h k p q =
    let head = take (length pattern - 1) bits in
    lookup-count_patterns (length bits) pattern (bits ++ head) [] h
      (omega (arith, length-append bits head, length-take (length pattern - 1) bits, k)) p
      (All-append (λ b. b < 2) bits head q (Bits-take (length pattern - 1) bits q))
    ∙ zero_plus (places (length bits) pattern (bits ++ head))
