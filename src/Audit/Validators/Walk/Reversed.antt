-- ===== src/Audit/Validators/Walk/Reversed.antt =====
-- The walk of the cumulative sums test over bits that are read backwards.
use mathlib.Core.List.{reverse, reverse-cons, reverse-reverse}
use quantum_entropy_service.Common.{
  length, suc, ℕ, ◌≡◌, refl, sym, ap, ap₂, ◌∙◌, [], ◌∷◌, ◌++◌, if◌then◌else◌, ℤ, pos, ◌+ℤ◌, ◌-ℤ◌,
  ltb_ℤ, +ℤ_parts, -ℤ_parts, eq_of_parts, int_laws, arith,
}
use quantum_entropy_service.Keymanager.Model.{Bytes}
use quantum_entropy_service.Audit.Floats.{Floats}
use quantum_entropy_service.Audit.Validators.Walk.{
  not_below_zero, cumulative_sums_p, nist_cumulative_sums, Excursion, step_of, walk_step, walk_from,
  walk, max_int, z_forward, z_reverse,
}

-- The excursion of a walk that starts at `at`, by recursion on the steps that are left.
abbrev min_int : ℤ → ℤ → ℤ
min_int a b = if ltb_ℤ a b then a else b

abbrev start : Excursion
start = record { sup = pos 0; inf = pos 0; sum = pos 0 }

-- A step before the walk shifts what follows it.
abbrev ahead : ℤ → Excursion → Excursion
ahead s e = record {
  sup = max_int (pos 0) (s +ℤ e.sup);
  inf = min_int (pos 0) (s +ℤ e.inf);
  sum = s +ℤ e.sum;
}

-- The walk in the other direction: the distances to the end.
abbrev mirror : Excursion → Excursion
mirror e = record { sup = e.sum -ℤ e.inf; inf = e.sum -ℤ e.sup; sum = e.sum }

add_assoc : (a b c : ℤ) → a +ℤ (b +ℤ c) ≡ a +ℤ b +ℤ c
add_assoc a b c =
    eq_of_parts _ _
      (omega (arith, +ℤ_parts a (b +ℤ c), +ℤ_parts b c, +ℤ_parts (a +ℤ b) c, +ℤ_parts a b))

add_comm : (a b : ℤ) → a +ℤ b ≡ b +ℤ a
add_comm a b = eq_of_parts _ _ (omega (arith, +ℤ_parts a b, +ℤ_parts b a))

add_max :
    (s a b : ℤ) → max_int (pos 0) (s +ℤ max_int b a) ≡ max_int (s +ℤ b) (max_int (pos 0) (s +ℤ a))
unfolding max_int
add_max s a b = grind (int_laws, +ℤ_parts s a, +ℤ_parts s b)

add_min :
    (s a b : ℤ) → min_int (pos 0) (s +ℤ min_int b a) ≡ min_int (s +ℤ b) (min_int (pos 0) (s +ℤ a))
add_min s a b = grind (int_laws, +ℤ_parts s a, +ℤ_parts s b)

max_sub : (t s i : ℤ) → max_int (t +ℤ s) (t -ℤ i) ≡ (s +ℤ t) -ℤ min_int (pos 0) (s +ℤ i)
unfolding max_int
max_sub t s i = grind (
  int_laws,
  -ℤ_parts (s +ℤ t) (pos 0),
  -ℤ_parts (s +ℤ t) (s +ℤ i),
  +ℤ_parts t s,
  +ℤ_parts s t,
  -ℤ_parts t i,
  +ℤ_parts s i,
)

min_sub : (t s i : ℤ) → min_int (t +ℤ s) (t -ℤ i) ≡ (s +ℤ t) -ℤ max_int (pos 0) (s +ℤ i)
unfolding max_int
min_sub t s i = grind (
  int_laws,
  -ℤ_parts (s +ℤ t) (pos 0),
  -ℤ_parts (s +ℤ t) (s +ℤ i),
  +ℤ_parts t s,
  +ℤ_parts s t,
  -ℤ_parts t i,
  +ℤ_parts s i,
)

max_mirror :
    (sup inf sum : ℤ)
    → max_int (sup -ℤ sum) (sum -ℤ inf) ≡ max_int (sum -ℤ inf) (pos 0 -ℤ (sum -ℤ sup))
unfolding max_int
max_mirror sup inf sum =
    grind (
      int_laws,
      -ℤ_parts sup sum,
      -ℤ_parts sum inf,
      -ℤ_parts (pos 0) (sum -ℤ sup),
      -ℤ_parts sum sup,
    )

excursion_eq : (a b : Excursion) → a.sup ≡ b.sup → a.inf ≡ b.inf → a.sum ≡ b.sum → a ≡ b
excursion_eq a b p q r = cc

ahead-walk_step :
    (s : ℤ) (b : ℕ) (e : Excursion) → ahead s (walk_step b e) ≡ walk_step b (ahead s e)
unfolding walk_step max_int
ahead-walk_step s b e =
    excursion_eq (ahead s (walk_step b e)) (walk_step b (ahead s e))
      (add_max s e.sup (e.sum +ℤ step_of b)
        ∙ ap (λ t. max_int t (max_int (pos 0) (s +ℤ e.sup))) (add_assoc s e.sum (step_of b)))
      (add_min s e.inf (e.sum +ℤ step_of b)
        ∙ ap (λ t. min_int t (min_int (pos 0) (s +ℤ e.inf))) (add_assoc s e.sum (step_of b)))
      (add_assoc s e.sum (step_of b))

walk_step-mirror : (b : ℕ) (e : Excursion) → walk_step b (mirror e) ≡ mirror (ahead (step_of b) e)
unfolding walk_step max_int
walk_step-mirror b e =
    excursion_eq (walk_step b (mirror e)) (mirror (ahead (step_of b) e))
      (max_sub e.sum (step_of b) e.inf) (min_sub e.sum (step_of b) e.sup)
      (add_comm e.sum (step_of b))

ahead-walk_from :
    (s : ℤ) (bits : Bytes) (e : Excursion) → ahead s (walk_from bits e) ≡ walk_from bits (ahead s e)
unfolding walk_from
ahead-walk_from s [] e = refl
ahead-walk_from s (b ∷ bits) e =
    ahead-walk_from s bits (walk_step b e) ∙ ap (walk_from bits) (ahead-walk_step s b e)

walk_step-start : (b : ℕ) → walk_step b start ≡ ahead (step_of b) start
unfolding walk_step max_int ◌+ℤ◌
walk_step-start b = ground arith

walk_nil : walk [] ≡ start
unfolding walk walk_from
walk_nil = refl

-- The first step, taken last.
walk-cons : (b : ℕ) (bits : Bytes) → walk (b ∷ bits) ≡ ahead (step_of b) (walk bits)
unfolding walk walk_from
walk-cons b bits =
    ap (walk_from bits) (walk_step-start b) ∙ sym (ahead-walk_from (step_of b) bits start)

walk_from-++ :
    (xs ys : Bytes) (e : Excursion) → walk_from (xs ++ ys) e ≡ walk_from ys (walk_from xs e)
unfolding walk_from
walk_from-++ [] ys e = refl
walk_from-++ (x ∷ xs) ys e = walk_from-++ xs ys (walk_step x e)

walk-snoc : (b : ℕ) (bits : Bytes) → walk (bits ++ b ∷ []) ≡ walk_step b (walk bits)
unfolding walk walk_from
walk-snoc b bits = walk_from-++ bits (b ∷ []) start

mirror-start : start ≡ mirror start
unfolding ◌-ℤ◌
mirror-start = refl

walk-reverse : (bits : Bytes) → walk (reverse bits) ≡ mirror (walk bits)
walk-reverse [] = walk_nil ∙ mirror-start ∙ ap mirror (sym walk_nil)
walk-reverse (b ∷ bits) =
    ap walk (reverse-cons b bits)
    ∙ walk-snoc b (reverse bits)
    ∙ ap (walk_step b) (walk-reverse bits)
    ∙ walk_step-mirror b (walk bits)
    ∙ ap mirror (sym (walk-cons b bits))

z_reverse-walk : (bits : Bytes) → z_reverse (walk bits) ≡ z_forward (walk (reverse bits))
unfolding z_reverse z_forward
z_reverse-walk bits =
    let e = walk bits in max_mirror e.sup e.inf e.sum ∙ ap z_forward (sym (walk-reverse bits))

length-snoc : (bits : Bytes) (b : ℕ) → length (bits ++ b ∷ []) ≡ suc (length bits)
length-snoc [] b = refl
length-snoc (x ∷ bits) b = ap suc (length-snoc bits b)

length-reverse : (bits : Bytes) → length (reverse bits) ≡ length bits
length-reverse [] = refl
length-reverse (b ∷ bits) =
    ap length (reverse-cons b bits) ∙ length-snoc (reverse bits) b ∙ ap suc (length-reverse bits)

module _ (fl : Floats) where
  open fl use {F, lit, lt}

  p_of : (n : ℕ) → ℤ → F
  p_of n z = not_below_zero fl (cumulative_sums_p fl n z)

  zero_clamped : not_below_zero fl (lit 0 0) ≡ lit 0 0
  zero_clamped = ground arith

  forward_p :
      (bits : Bytes) → (nist_cumulative_sums fl bits).0 ≡ p_of (length bits) (z_forward (walk bits))
  unfolding nist_cumulative_sums p_of walk walk_from z_forward max_int ◌-ℤ◌ cumulative_sums_p
  forward_p [] = sym zero_clamped
  forward_p (b ∷ bits) = refl

  reverse_p :
      (bits : Bytes) → (nist_cumulative_sums fl bits).1 ≡ p_of (length bits) (z_reverse (walk bits))
  unfolding nist_cumulative_sums p_of walk walk_from z_reverse max_int ◌-ℤ◌ cumulative_sums_p
  reverse_p [] = sym zero_clamped
  reverse_p (b ∷ bits) = refl

  turned :
      (bits : Bytes) → (nist_cumulative_sums fl bits).1 ≡ (nist_cumulative_sums fl (reverse bits)).0
  turned bits =
      reverse_p bits
      ∙ ap₂ p_of (sym (length-reverse bits)) (z_reverse-walk bits)
      ∙ sym (forward_p (reverse bits))

  -- The reverse p-value of the bits is the forward p-value of the bits read backwards, and the forward
  -- one is the reverse one of these.
  pub nist_cumulative_sums-reverse :
      (bits : Bytes)
      → ((nist_cumulative_sums fl bits).1 ≡ (nist_cumulative_sums fl (reverse bits)).0)
        × ((nist_cumulative_sums fl bits).0 ≡ (nist_cumulative_sums fl (reverse bits)).1)
  nist_cumulative_sums-reverse bits = (
    turned bits,
    ap (λ xs. (nist_cumulative_sums fl xs).0) (sym (reverse-reverse bits))
        ∙ sym (turned (reverse bits)),
  )
