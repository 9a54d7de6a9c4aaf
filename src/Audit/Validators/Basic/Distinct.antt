-- ===== src/Audit/Validators/Basic/Distinct.antt =====
-- DistinctByteValues (internal/audit/validators/minentropy.go) and the values that occur.
use quantum_entropy_service.Common.{
  ltb, ℕ, zero, suc, ◌<◌, ◌≡◌, refl, ap, ◌∙◌, Bool, Bool-cases, inl, inr, true, false, ◌==◌, ◌||◌,
  [], ◌∷◌, length, if◌then◌else◌, arith, All,
}
use quantum_entropy_service.Keymanager.Model.{Bytes}
use quantum_entropy_service.Audit.Validators.Basic.{contains, see_all, distinct_byte_values}

-- How many of the values below n occur.
abbrev pub occurring : ℕ → Bytes → ℕ
occurring zero bytes = 0
occurring (suc n) bytes =
    let rest = occurring n bytes in if contains n bytes then suc rest else rest

eq_of_test : (n b : ℕ) → (n == b) ≡ true → n ≡ b
eq_of_test n b e = ground (arith, e)

occurring-cons :
    (n b : ℕ) (bytes : Bytes)
    → contains b bytes ≡ false
    → occurring n (b ∷ bytes) ≡ (if ltb b n then suc (occurring n bytes) else occurring n bytes)
occurring-cons zero b bytes h = ground arith
occurring-cons (suc n) b bytes h = elim (Bool-cases (n == b)) [
  | inl e ↦
      ground
        (arith, e, h, ap (λ v. contains v bytes) (eq_of_test n b e), occurring-cons n b bytes h)
  | inr e ↦ ground (arith, e, occurring-cons n b bytes h)
]

contains-added :
    (b : ℕ) (seen : Bytes) (f : Bool) (v : ℕ)
    → contains b seen ≡ f
    → contains v (if f then seen else b ∷ seen) ≡ (v == b || contains v seen)
contains-added b seen false v e = refl
contains-added b seen true v e = elim (Bool-cases (v == b)) [
  | inl p ↦ ground (arith, p, e, ap (λ x. contains x seen) (eq_of_test v b p))
  | inr p ↦ ground (arith, p)
]

contains-see_all :
    (bytes seen : Bytes) (v : ℕ)
    → contains v (see_all bytes seen) ≡ (contains v bytes || contains v seen)
unfolding see_all
contains-see_all [] seen v = refl
contains-see_all (b ∷ bytes) seen v =
    contains-see_all bytes (if contains b seen then seen else b ∷ seen) v
    ∙ ap (λ t. contains v bytes || t) (contains-added b seen (contains b seen) v refl)
    ∙ swap (contains v bytes) (v == b) (contains v seen)
  where
    swap : (x y z : Bool) → (x || (y || z)) ≡ ((y || x) || z)
    swap x y z = ground arith

occurring-eq :
    (n : ℕ) (xs ys : Bytes)
    → ((v : ℕ) → contains v xs ≡ contains v ys)
    → occurring n xs ≡ occurring n ys
occurring-eq zero xs ys h = refl
occurring-eq (suc n) xs ys h = ground (arith, h n, occurring-eq n xs ys h)

length-added :
    (n b : ℕ) (seen : Bytes) (f : Bool)
    → b < n
    → contains b seen ≡ f
    → length seen ≡ occurring n seen
    → length (if f then seen else b ∷ seen) ≡ occurring n (if f then seen else b ∷ seen)
length-added n b seen true h e p = p
length-added n b seen false h e p = ground (arith, h, p, occurring-cons n b seen e)

length-see_all :
    (n : ℕ) (bytes seen : Bytes)
    → All (λ b. b < n) bytes
    → length seen ≡ occurring n seen
    → length (see_all bytes seen) ≡ occurring n (see_all bytes seen)
unfolding see_all
length-see_all n [] seen h e = e
length-see_all n (b ∷ bytes) seen h e =
    length-see_all n bytes (if contains b seen then seen else b ∷ seen) h.1
      (length-added n b seen (contains b seen) h.0 refl e)

occurring-nil : (n : ℕ) → 0 ≡ occurring n []
occurring-nil zero = refl
occurring-nil (suc n) = occurring-nil n

-- Of byte values: the distinct ones that are counted are as many as the values below 256 that occur.
pub distinct_byte_values-occurring :
    (bytes : Bytes) → All (λ b. b < 256) bytes → distinct_byte_values bytes ≡ occurring 256 bytes
unfolding distinct_byte_values
distinct_byte_values-occurring bytes h =
    length-see_all 256 bytes [] h (occurring-nil 256)
    ∙ occurring-eq 256 (see_all bytes []) bytes
        (λ v. contains-see_all bytes [] v ∙ or_false (contains v bytes))
  where
    or_false : (t : Bool) → (t || false) ≡ t
    or_false t = ground arith
