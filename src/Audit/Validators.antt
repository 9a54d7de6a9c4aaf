-- ===== src/Audit/Validators.antt =====
-- internal/audit/validators: here bits.go and MostCommonValue of minentropy.go; the children have the
-- rest.
pub mod Basic
pub mod Gamma
pub mod Nist
pub mod Patterns
pub mod Walk
pub mod Structure
use quantum_entropy_service.Common.{
  subst, length-set, ℕ, zero, suc, ◌+◌, ◌*◌, ◌/◌, ◌%◌, ◌≤◌, ◌<◌, ◌≡◌, refl, ap, ap₂, sym, ◌∙◌, ◌==◌,
  ltb, if◌then◌else◌, List, [], ◌∷◌, ◌++◌, length, get_or, set, replicate, All, arith, ◌⊎◌, inl,
  inr,
}
use quantum_entropy_service.Keymanager.Model.{Bytes}

abbrev byte_bits : ℕ → Bytes
byte_bits b =
    b / 128 % 2
    ∷ b / 64 % 2
    ∷ b / 32 % 2
    ∷ b / 16 % 2
    ∷ b / 8 % 2
    ∷ b / 4 % 2
    ∷ b / 2 % 2
    ∷ b % 2
    ∷ []

-- Most significant bit first.
unfoldable pub to_bits : Bytes → Bytes
to_bits [] = []
to_bits (b ∷ bytes) = byte_bits b ++ to_bits bytes

unfoldable pub count_ones : Bytes → ℕ
count_ones [] = 0
count_ones (b ∷ bits) = b + count_ones bits

-- The number that bits stand for, the first bit being the highest.
abbrev pub value_from : ℕ → Bytes → ℕ
value_from n [] = n
value_from n (b ∷ bits) = value_from (2 * n + b) bits

-- The bytes that bits stand for, as the reverse of `to_bits`.
abbrev pub of_bits : Bytes → Bytes
of_bits (a ∷ b ∷ c ∷ d ∷ e ∷ f ∷ g ∷ h ∷ bits) =
    value_from 0 (a ∷ b ∷ c ∷ d ∷ e ∷ f ∷ g ∷ h ∷ []) ∷ of_bits bits
of_bits _ = []

byte_value : (b : ℕ) → b < 256 → value_from 0 (byte_bits b) ≡ b
byte_value b h = omega (arith, h)

-- Bytes are got back from their bits, of which there are eight to a byte, and of these at most all are
-- ones.
pub of_bits-to_bits :
    (bytes : Bytes)
    → All (λ b. b < 256) bytes
    → (of_bits (to_bits bytes) ≡ bytes)
      × (length (to_bits bytes) ≡ 8 * length bytes)
      × (count_ones (to_bits bytes) ≤ length (to_bits bytes))
unfolding to_bits count_ones
of_bits-to_bits [] h = (refl, omega arith, omega arith)
of_bits-to_bits (b ∷ bytes) h =
    let (back, eight, few) = of_bits-to_bits bytes h.1 in
    (ap₂ (λ x xs. x ∷ xs) (byte_value b h.0) back, omega (arith, eight), omega (arith, few))

-- `freq[b]++` for each byte
unfoldable pub tally : Bytes → List ℕ → List ℕ
tally [] freq = freq
tally (b ∷ bytes) freq = tally bytes (set freq b (suc (get_or freq b 0)))

-- `if f > c { c = f }` for each frequency
unfoldable pub highest : List ℕ → ℕ → ℕ
highest [] c = c
highest (f ∷ freq) c = highest freq (if ltb c f then f else c)

unfoldable pub most_common_value : Bytes → ℕ
unfolding tally highest
most_common_value bytes = highest (tally bytes (replicate 256 0)) 0

abbrev pub count : ℕ → Bytes → ℕ
count v [] = 0
count v (b ∷ bytes) = if v == b then suc (count v bytes) else count v bytes

same_test : (j i a b : ℕ) → (if j == i then a else b) ≡ (if suc j == suc i then a else b)
same_test j i a b = ground arith

pub get_or-set :
    (xs : List ℕ) (i j v : ℕ)
    → i < length xs
    → get_or (set xs i v) j 0 ≡ (if j == i then v else get_or xs j 0)
get_or-set [] i j v h = ground arith
get_or-set (x ∷ xs) zero zero v h = ground arith
get_or-set (x ∷ xs) zero (suc j) v h = ground arith
get_or-set (x ∷ xs) (suc i) zero v h = ground arith
get_or-set (x ∷ xs) (suc i) (suc j) v h =
    get_or-set xs i j v (omega (arith, h)) ∙ same_test j i v (get_or xs j 0)

pub get_or-replicate : (n j : ℕ) → get_or {A = ℕ} (replicate n 0) j 0 ≡ 0
get_or-replicate zero j = refl
get_or-replicate (suc n) zero = refl
get_or-replicate (suc n) (suc j) = get_or-replicate n j

pub add_one :
    (v b x y n : ℕ)
    → x ≡ (if v == b then suc n else y)
    → (v ≡ b → y ≡ n)
    → (k : ℕ) → x + k ≡ y + (if v == b then suc k else k)
add_one v b x y n e f k = ground arith

All-length : (bytes : Bytes) (m n : ℕ) → m ≡ n → All (λ b. b < m) bytes → All (λ b. b < n) bytes
All-length bytes m n e h = subst (λ k. All (λ b. b < k) bytes) e h

get_or-tally :
    (bytes : Bytes) (freq : List ℕ) (v : ℕ)
    → All (λ b. b < length freq) bytes
    → get_or (tally bytes freq) v 0 ≡ get_or freq v 0 + count v bytes
unfolding tally
get_or-tally [] freq v h = omega arith
get_or-tally (b ∷ bytes) freq v h =
    let next = set freq b (suc (get_or freq b 0)) in
    get_or-tally bytes next v
      (All-length bytes (length freq) (length next) (sym (length-set freq b _)) h.1)
    ∙ add_one v b (get_or next v 0) (get_or freq v 0) (get_or freq b 0)
        (get_or-set freq b v (suc (get_or freq b 0)) h.0) (λ e. ap (λ i. get_or freq i 0) e)
        (count v bytes)

pub zero_plus : (n : ℕ) → 0 + n ≡ n
zero_plus n = omega arith

pick : (c f m : ℕ) → m ≡ (if ltb c f then f else c) → (m ≡ c) ⊎ (m ≡ f)
pick c f m e = ground arith

highest-le :
    (freq : List ℕ) (c : ℕ) → (c ≤ highest freq c) × ((v : ℕ) → get_or freq v 0 ≤ highest freq c)
unfolding highest
highest-le [] c = (omega arith, λ v. omega arith)
highest-le (f ∷ freq) c =
    let above = highest-le freq (if ltb c f then f else c) in
    (ground (arith, above.0), places (highest freq (if ltb c f then f else c)) above.0 above.1)
  where
    places :
        (m : ℕ)
        → (if ltb c f then f else c) ≤ m
        → ((v : ℕ) → get_or freq v 0 ≤ m)
        → (v : ℕ) → get_or (f ∷ freq) v 0 ≤ m
    places m l h zero = ground arith
    places m l h (suc v) = h v

highest-attained :
    (freq : List ℕ) (c : ℕ)
    → (highest freq c ≡ c) ⊎ ((v : ℕ) × (v < length freq) × (get_or freq v 0 ≡ highest freq c))
unfolding highest
highest-attained [] c = inl refl
highest-attained (f ∷ freq) c = elim (highest-attained freq (if ltb c f then f else c)) [
  | inl e ↦ start (highest freq (if ltb c f then f else c)) e
  | inr (v, l, e) ↦ inr (suc v, omega (arith, l), e)
]
  where
    start :
        (m : ℕ)
        → m ≡ (if ltb c f then f else c)
        → (m ≡ c) ⊎ ((v : ℕ) × (v < length (f ∷ freq)) × (get_or (f ∷ freq) v 0 ≡ m))
    start m e = elim (pick c f m e) [ inl k ↦ inl k | inr k ↦ inr (0, omega arith, sym k) ]

-- The most common value's count is an upper bound of the count of every byte value, and it is the
-- count of some byte value.
pub most_common_value-highest :
    (bytes : Bytes)
    → All (λ b. b < 256) bytes
    → ((v : ℕ) → count v bytes ≤ most_common_value bytes)
      × ((v : ℕ) × (count v bytes ≡ most_common_value bytes))
unfolding most_common_value
most_common_value-highest bytes h = (
  bound,
  elim (highest-attained freq 0) [
    | inl e ↦ (0, flat e (bound 0))
    | inr (v, l, e) ↦ (v, sym (counts v) ∙ e)
  ],
)
  where
    freq : List ℕ
    freq = tally bytes (replicate 256 0)

    counts : (v : ℕ) → get_or freq v 0 ≡ count v bytes
    counts v =
        get_or-tally bytes (replicate 256 0) v h
        ∙ ap (λ n. n + count v bytes) (get_or-replicate 256 v)
        ∙ zero_plus (count v bytes)

    bound : (v : ℕ) → count v bytes ≤ highest freq 0
    bound v = subst (λ n. n ≤ highest freq 0) (counts v) ((highest-le freq 0).1 v)

    flat : highest freq 0 ≡ 0 → count 0 bytes ≤ highest freq 0 → count 0 bytes ≡ highest freq 0
    flat e l = omega (arith, e, l)
