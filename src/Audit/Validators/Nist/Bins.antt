-- ===== src/Audit/Validators/Nist/Bins.antt =====
-- The longest run of ones of a block and the bins that the blocks are counted in.
use quantum_entropy_service.Common.{
  max, length-set, length-replicate, ℕ, zero, suc, ◌+◌, ◌-◌, ◌*◌, ◌≤◌, ◌<◌, ◌≡◌, refl, ap, sym, ◌∙◌,
  subst, ltb, ◌==◌, List, [], ◌∷◌, length, replicate, set, get_or, take, drop, if◌then◌else◌, arith,
}
use quantum_entropy_service.Keymanager.Model.{Bytes}
use quantum_entropy_service.Audit.Validators.{get_or-set, get_or-replicate, add_one, zero_plus}
use quantum_entropy_service.Audit.Validators.Nist.{
  longest_run, tier_of, middle_bin, bin_of, fill_bins, longest_run_bins,
}

-- The ones that bits begin with.
abbrev pub leading : Bytes → ℕ
leading [] = 0
leading (b ∷ bits) = let rest = leading bits in if b == 1 then suc rest else 0

-- The most ones that any tail of the bits begins with.
abbrev pub most_leading : Bytes → ℕ
most_leading [] = 0
most_leading (b ∷ bits) = max (leading (b ∷ bits)) (most_leading bits)

leading-le : (bits : Bytes) → leading bits ≤ most_leading bits
leading-le [] = omega arith
leading-le (b ∷ bits) = left (leading (b ∷ bits)) (most_leading bits)
  where
    left : (a b : ℕ) → a ≤ max a b
    left a b = ground arith

-- One round: `cur` and `runs` become c and r, and the ones ahead are l and l' before and after.
round :
    (b cur runs c r l l' m x : ℕ)
    → cur ≤ runs
    → l ≤ m
    → c ≡ (if b == 1 then suc cur else 0)
    → r ≡ (if ltb runs c then c else runs)
    → l' ≡ (if b == 1 then suc l else 0)
    → x ≡ max r (max (c + l) m)
    → x ≡ max runs (max (cur + l') (max l' m))
round b cur runs c r l l' m x = ground arith

longest_run-max :
    (bits : Bytes) (cur runs : ℕ)
    → cur ≤ runs
    → longest_run bits cur runs ≡ max runs (max (cur + leading bits) (most_leading bits))
unfolding longest_run
longest_run-max [] cur runs h = ground arith
longest_run-max (b ∷ bits) cur runs h =
    let cur' = if b == 1 then suc cur else 0 in
    let runs' = if ltb runs cur' then cur' else runs in
    round b cur runs cur' runs' (leading bits) (leading (b ∷ bits)) (most_leading bits)
      (longest_run bits cur' runs') h (leading-le bits) refl refl refl
      (longest_run-max bits cur' runs' (next_round b cur runs))
  where
    next_round :
        (b cur runs : ℕ)
        → (if b == 1 then suc cur else 0) ≤ (
            if ltb runs (if b == 1 then suc cur else 0)
            then (if b == 1 then suc cur else 0)
            else runs)
    next_round b cur runs = ground arith

-- The longest run of ones of a block is the most ones that any tail of the block begins with.
pub longest_run-most_leading : (bits : Bytes) → longest_run bits 0 0 ≡ most_leading bits
longest_run-most_leading bits =
    longest_run-max bits 0 0 (omega arith)
    ∙ above (leading bits) (most_leading bits) (leading-le bits)
  where
    above : (l m : ℕ) → l ≤ m → max 0 (max (0 + l) m) ≡ m
    above l m = ground arith

-- A run's class: how far it is beyond the first value, at most the last class.
abbrev pub class_of : (n runs : ℕ) → ℕ
class_of n runs =
    if ltb n 6272
    then (if ltb 3 (runs - 1) then 3 else runs - 1)
    else (if ltb 5 (runs - 4) then 5 else runs - 4)

bin_of-class_of : (n runs : ℕ) → bin_of (tier_of n).v runs ≡ class_of n runs
unfolding bin_of middle_bin
bin_of-class_of n runs = ground arith

class_of-bound : (n runs : ℕ) → class_of n runs < length (tier_of n).v
class_of-bound n runs = ground arith

-- How many of the blocks have a longest run in class j.
abbrev pub class_count : (n j blocks m : ℕ) → Bytes → ℕ
class_count n j zero m bits = 0
class_count n j (suc blocks) m bits =
    let rest = class_count n j blocks m (drop m bits) in
    if j == class_of n (most_leading (take m bits)) then suc rest else rest

get_or-fill_bins :
    (n blocks m : ℕ) (bits : Bytes) (bins : List ℕ) (j : ℕ)
    → length bins ≡ length (tier_of n).v
    → get_or (fill_bins blocks m (tier_of n).v bits bins) j 0
      ≡ get_or bins j 0 + class_count n j blocks m bits
unfolding fill_bins
get_or-fill_bins n zero m bits bins j h = omega arith
get_or-fill_bins n (suc blocks) m bits bins j h =
    let i = class_of n (most_leading (take m bits)) in
    let idx = bin_of (tier_of n).v (longest_run (take m bits) 0 0) in
    let e : idx ≡ i =
      bin_of-class_of n (longest_run (take m bits) 0 0)
      ∙ ap (class_of n) (longest_run-most_leading (take m bits)) in
    let next = set bins idx (suc (get_or bins idx 0)) in
    let here = get_or bins idx 0 in
    let k = class_count n j blocks m (drop m bits) in
    let bound : idx < length bins =
      subst (λ v. v < length bins) (sym e)
        (omega (arith, class_of-bound n (most_leading (take m bits)), h)) in
    get_or-fill_bins n blocks m (drop m bits) next j (length-set bins idx (suc here) ∙ h)
    ∙ add_one j idx (get_or next j 0) (get_or bins j 0) here
        (get_or-set bins idx j (suc here) bound) (λ p. ap (λ v. get_or bins v 0) p) k
    ∙ ap (λ v. get_or bins j 0 + (if j == v then suc k else k)) e

-- From 128 bits on, each bin counts the blocks whose most leading ones of any tail are of the bin's
-- class, and the blocks that are read lie within the bits.
pub get_or-longest_run_bins :
    (bits : Bytes) (j : ℕ)
    → 128 ≤ length bits
    → (get_or (longest_run_bins bits) j 0
        ≡ class_count
            (length bits)
            j
            (tier_of (length bits)).number_of_blocks
            (tier_of (length bits)).m
            bits)
      × ((tier_of (length bits)).number_of_blocks * (tier_of (length bits)).m ≤ length bits)
unfolding longest_run_bins
get_or-longest_run_bins bits j h =
    let t = tier_of (length bits) in
    (
      get_or-fill_bins (length bits) t.number_of_blocks t.m bits (replicate (length t.v) 0) j
            (length-replicate (length t.v) 0)
          ∙ ap (λ v. v + class_count (length bits) j t.number_of_blocks t.m bits)
              (get_or-replicate (length t.v) j)
          ∙ zero_plus _,
      within (length bits) h,
    )
  where
    within : (n : ℕ) → 128 ≤ n → (tier_of n).number_of_blocks * (tier_of n).m ≤ n
    within n h = ground arith
