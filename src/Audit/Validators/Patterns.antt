-- ===== src/Audit/Validators/Patterns.antt =====
-- The approximate entropy and serial tests of nist.go. With fewer than m - 1 bits the code would panic;
-- here the bits that there are extend the stream.
pub mod Counts
use quantum_entropy_service.Common.{
  ℕ, zero, suc, ◌+◌, ◌-◌, ◌*◌, ◌%◌, ◌^◌, ltb, leb, Bool, ◌==◌, ◌||◌, ◌&&◌, List, [], ◌∷◌, ◌++◌, map,
  length, take, if◌then◌else◌,
}
use quantum_entropy_service.Keymanager.Model.{Bytes}
use quantum_entropy_service.Audit.Floats.{Floats, float}
use quantum_entropy_service.Audit.Validators.Gamma.{igamc}

abbrev pub extended : Bytes → ℕ → Bytes
extended bits m = bits ++ take (m - 1) bits

-- A uint32; the bit that is shifted in is 0 or 1.
unfoldable pub key_from : ℕ → Bytes → ℕ
key_from key [] = key
key_from key (b ∷ bits) = key_from (2 * key % 2 ^ 32 + b) bits

-- `counts[key]++` on the entries of a map.
unfoldable pub bump : ℕ → List (ℕ × ℕ) → List (ℕ × ℕ)
bump key [] = (key, 1) ∷ []
bump key ((k, c) ∷ counts) = if k == key then (k, suc c) ∷ counts else (k, c) ∷ bump key counts

-- The loop over `i`: the pattern of m bits that begins at each of the first n places.
unfoldable pub count_patterns : (n m : ℕ) → Bytes → List (ℕ × ℕ) → List (ℕ × ℕ)
unfolding key_from bump
count_patterns zero m ext counts = counts
count_patterns (suc n) m [] counts = counts
count_patterns (suc n) m (b ∷ ext) counts =
    count_patterns n m ext (bump (key_from 0 (take m (b ∷ ext))) counts)

abbrev pub entry_count : ℕ × ℕ → ℕ
entry_count (k, c) = c

unfoldable pub pattern_counts : Bytes → ℕ → List ℕ
unfolding count_patterns
pattern_counts bits m = map entry_count (count_patterns (length bits) m (extended bits m) [])

-- 2*mm*(1<<mm) <= n && (1<<(mm-2)) <= n
abbrev pub fits : ℕ → ℕ → Bool
fits n mm = leb (2 * mm * 2 ^ mm) n && leb (2 ^ (mm - 2)) n

unfoldable pub choose_m : (rounds mm m n : ℕ) → ℕ
choose_m zero mm m n = m
choose_m (suc rounds) mm m n = choose_m rounds (suc mm) (if fits n mm then mm else m) n

-- `for mm := 3; mm <= 16; mm++`
unfoldable pub serial_m : ℕ → ℕ
unfolding choose_m
serial_m n = choose_m 14 3 3 n

module _ (fl : Floats) where
  open fl use {F, lit, add, sub, mul, div, log}

  unfoldable pub phi_sum : F → List ℕ → F → F
  phi_sum n [] total = total
  phi_sum n (c ∷ counts) total =
      let p = div (float fl c) n in phi_sum n counts (add total (mul p (log p)))

  unfoldable pub ap_en_phi : Bytes → ℕ → F
  unfolding pattern_counts phi_sum
  ap_en_phi bits m = phi_sum (float fl (length bits)) (fl.visit (pattern_counts bits m)) (lit 0 0)

  abbrev approximate_p : Bytes → ℕ → F
  unfolding ap_en_phi igamc
  approximate_p bits m =
      let phi = sub (ap_en_phi bits m) (ap_en_phi bits (m + 1)) in
      let chi = mul (mul (lit 2 0) (float fl (length bits))) (sub fl.ln2 phi) in
      igamc fl (float fl (2 ^ (m - 1))) (div chi (lit 2 0))

  unfoldable pub nist_approximate_entropy : Bytes → ℕ → F
  unfolding ap_en_phi igamc
  nist_approximate_entropy bits m =
      if length bits == 0 || ltb m 1
      then fl.nan
      else if ltb (length bits) (2 ^ m)
      then fl.nan
      else approximate_p bits m

  unfoldable pub square_sum : List ℕ → F → F
  square_sum [] total = total
  square_sum (c ∷ counts) total = square_sum counts (add total (mul (float fl c) (float fl c)))

  unfoldable pub serial_psi2 : Bytes → ℕ → F
  unfolding pattern_counts square_sum
  serial_psi2 bits m =
      let n = float fl (length bits) in
      let total = square_sum (fl.visit (pattern_counts bits m)) (lit 0 0) in
      sub (div (mul (float fl (2 ^ m)) total) n) n

  unfoldable pub nist_serial : Bytes → F × F × ℕ
  unfolding serial_m serial_psi2 igamc
  nist_serial bits =
      let m = serial_m (length bits) in
      let psi_m = serial_psi2 bits m in
      let psi_m1 = serial_psi2 bits (m - 1) in
      let psi_m2 = serial_psi2 bits (m - 2) in
      let d1 = sub psi_m psi_m1 in
      let d2 = add (sub psi_m (mul (lit 2 0) psi_m1)) psi_m2 in
      (
        igamc fl (float fl (2 ^ (m - 2))) (div d1 (lit 2 0)),
        igamc fl (float fl (2 ^ (m - 3))) (div d2 (lit 2 0)),
        m,
      )
