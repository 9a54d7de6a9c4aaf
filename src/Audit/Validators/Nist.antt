-- ===== src/Audit/Validators/Nist.antt =====
-- internal/audit/validators/nist.go: the frequency and runs tests, and the longest run of ones.
pub mod Bins
use quantum_entropy_service.Common.{
  ℕ, zero, suc, ◌+◌, ◌-◌, ◌*◌, ◌/◌, ltb, leb, Bool, true, false, not, ◌==◌, ◌||◌, List, [], ◌∷◌,
  Option, none, some, length, replicate, set, get_or, take, drop, if◌then◌else◌, sub_ℕ,
}
use quantum_entropy_service.Keymanager.Model.{Bytes}
use quantum_entropy_service.Audit.Floats.{Floats, float}
use quantum_entropy_service.Audit.Validators.{count_ones}
use quantum_entropy_service.Audit.Validators.Gamma.{igamc}

-- How often a bit differs from the one before it.
unfoldable pub changes : Bytes → ℕ
changes [] = 0
changes (a ∷ []) = 0
changes (a ∷ b ∷ bits) = let rest = changes (b ∷ bits) in if a == b then rest else suc rest

-- The longest run of ones of a block: `cur` and `runs` of the loop.
unfoldable pub longest_run : Bytes → (cur runs : ℕ) → ℕ
longest_run [] cur runs = runs
longest_run (b ∷ bits) cur runs =
    let cur' = if b == 1 then suc cur else 0 in
    longest_run bits cur' (if ltb runs cur' then cur' else runs)

-- A tier of the test: the block size, the number of blocks and `v`; k is one less than their number.
pub record Tier : Type 0 where
  pub m : ℕ
  pub number_of_blocks : ℕ
  pub v : List ℕ

abbrev pub tier_of : ℕ → Tier
tier_of n =
    if ltb n 6272
    then record { m = 8; number_of_blocks = 16; v = 1 ∷ 2 ∷ 3 ∷ 4 ∷ [] }
    else record { m = 128; number_of_blocks = 49; v = 4 ∷ 5 ∷ 6 ∷ 7 ∷ 8 ∷ 9 ∷ [] }

-- `for j := 1; j < t.k; j++ { if runs == t.v[j] { idx = j; break } }`, over v[j..k-1]; k if none fits
unfoldable pub middle_bin : (runs j k : ℕ) → List ℕ → ℕ
middle_bin runs j k [] = k
middle_bin runs j k (last ∷ []) = k
middle_bin runs j k (v ∷ w ∷ vs) =
    let rest = middle_bin runs (suc j) k (w ∷ vs) in if runs == v then j else rest

unfoldable pub bin_of : List ℕ → ℕ → ℕ
unfolding middle_bin
bin_of [] runs = 0
bin_of (v ∷ vs) runs = if ltb v runs then middle_bin runs 1 (length vs) vs else 0

-- The loop over the blocks: `v[idx]++` for each.
unfoldable pub fill_bins : (blocks m : ℕ) → List ℕ → Bytes → List ℕ → List ℕ
unfolding longest_run bin_of
fill_bins zero m v bits bins = bins
fill_bins (suc blocks) m v bits bins =
    let idx = bin_of v (longest_run (take m bits) 0 0) in
    fill_bins blocks m v (drop m bits) (set bins idx (suc (get_or bins idx 0)))

unfoldable pub longest_run_bins : Bytes → List ℕ
unfolding fill_bins
longest_run_bins bits =
    let t = tier_of (length bits) in
    fill_bins t.number_of_blocks t.m t.v bits (replicate (length t.v) 0)

module _ (fl : Floats) where
  open fl use {F, lit, add, sub, mul, div, abs, sqrt, erfc, lt, le}

  unfoldable pub nist_monobit : Bytes → F
  unfolding count_ones
  nist_monobit [] = lit 0 0
  nist_monobit (b ∷ bits) =
      let n = length (b ∷ bits) in
      let s = div (abs (fl.of_int (sub_ℕ (2 * count_ones (b ∷ bits)) n))) (sqrt (float fl n)) in
      erfc (div s (sqrt (lit 2 0)))

  -- The sum of the squares over the blocks.
  unfoldable pub block_sum : (blocks m : ℕ) → Bytes → F → F
  unfolding count_ones
  block_sum zero m bits x = x
  block_sum (suc blocks) m bits x =
      let p = div (float fl (count_ones (take m bits))) (float fl m) in
      let off = sub p (lit 5 1) in block_sum blocks m (drop m bits) (add x (mul off off))

  abbrev block_p : ℕ → ℕ → Bytes → F
  unfolding block_sum igamc
  block_p n m bits =
      let blocks = n / m in
      let chi = mul (mul (lit 4 0) (float fl m)) (block_sum blocks m bits (lit 0 0)) in
      igamc fl (div (float fl blocks) (lit 2 0)) (div chi (lit 2 0))

  unfoldable pub nist_block_frequency : Bytes → ℕ → F
  unfolding block_sum igamc
  nist_block_frequency [] m = lit 0 0
  nist_block_frequency (b ∷ bits) m =
      let n = length (b ∷ bits) in if ltb m 1 || ltb n m then fl.nan else block_p n m (b ∷ bits)

  -- `runs` of the source is a float that counts up from 1.0 by ones.
  abbrev runs_p : ℕ → F → ℕ → F
  runs_p n pi runs =
      let num =
        sub (float fl runs) (mul (mul (mul (lit 2 0) (float fl n)) pi) (sub (lit 1 0) pi)) in
      let den = mul (mul (mul (lit 2 0) (sqrt (float fl n))) pi) (sub (lit 1 0) pi) in
      erfc (div (abs num) (mul den (sqrt (lit 2 0))))

  unfoldable pub nist_runs : Bytes → F
  unfolding count_ones changes
  nist_runs [] = lit 0 0
  nist_runs (b ∷ bits) =
      let n = length (b ∷ bits) in
      let pi = div (float fl (count_ones (b ∷ bits))) (float fl n) in
      if le (div (lit 2 0) (sqrt (float fl n))) (abs (sub pi (lit 5 1)))
      then lit 0 0
      else runs_p n pi (suc (changes (b ∷ bits)))

  abbrev tier_p : ℕ → List F
  tier_p n =
      if ltb n 6272
      then lit 2148 4 ∷ lit 3672 4 ∷ lit 2305 4 ∷ lit 1875 4 ∷ []
      else lit 1174 4 ∷ lit 2430 4 ∷ lit 2493 4 ∷ lit 1752 4 ∷ lit 1027 4 ∷ lit 1124 4 ∷ []

  unfoldable pub bins_sum : F → List ℕ → List F → F → F
  bins_sum blocks (v ∷ vs) (p ∷ ps) chi =
      let expected = mul blocks p in
      let diff = sub (float fl v) expected in
      bins_sum blocks vs ps (add chi (div (mul diff diff) expected))
  bins_sum blocks _ _ chi = chi

  abbrev longest_p : Bytes → F
  unfolding longest_run_bins bins_sum igamc
  longest_p bits =
      let t = tier_of (length bits) in
      let chi =
        bins_sum (float fl t.number_of_blocks) (longest_run_bins bits) (tier_p (length bits))
          (lit 0 0) in
      igamc fl (div (float fl (length t.v - 1)) (lit 2 0)) (div chi (lit 2 0))

  unfoldable pub nist_longest_run_of_ones : Bytes → F
  unfolding longest_run_bins bins_sum igamc
  nist_longest_run_of_ones bits = if ltb (length bits) 128 then fl.nan else longest_p bits
