-- ===== src/Keymanager/Reader.antt =====
-- xorReader (internal/keymanager/service.go): random bytes under the quantum seed, which is repeated.
-- The lock makes each loop one step, so reads follow one another.
use quantum_entropy_service.Common.{
  ℕ, suc, ◌+◌, ◌%◌, ◌<◌, ◌≡◌, refl, ap, ap₂, [], ◌∷◌, ◌++◌, length, get_or, All, Action, Result, ok,
  err, arith,
}
use quantum_entropy_service.Common.Bits.{xor, xor-cancels}
use quantum_entropy_service.Keymanager.Model.{Bytes}

pub record XorReader : Type 0 where
  pub seed : Bytes
  pub offset : ℕ

unfoldable pub new_xor_reader : Bytes → XorReader
new_xor_reader seed = record { seed = seed; offset = 0 }

abbrev pub seed_byte : XorReader → ℕ
seed_byte x = get_or x.seed (x.offset % length x.seed) 0

abbrev pub advanced : XorReader → XorReader
advanced x = record x { offset = x.offset + 1 }

-- The loop of Read over the bytes read.
unfoldable pub xor_seed : Bytes → XorReader → Bytes × XorReader
xor_seed [] x = ([], x)
xor_seed (b ∷ bytes) x =
    let (rest, x') = xor_seed bytes (advanced x) in (xor 8 b (seed_byte x) ∷ rest, x')

module _ {R : Type 0} (rand_read : ℕ → Action R Bytes) where
  abbrev masked : Bytes → Bytes → XorReader → Bytes × XorReader
  unfolding xor_seed
  masked [] bytes x = (bytes, x)
  masked (s ∷ seed) bytes x = xor_seed bytes x

  abbrev on_read : Result Bytes → XorReader → Result Bytes × XorReader
  unfolding xor_seed
  on_read (err e) x = (err e, x)
  on_read (ok bytes) x = let (out, x') = masked x.seed bytes x in (ok out, x')

  unfoldable pub read : ℕ → XorReader × R → Result Bytes × (XorReader × R)
  unfolding xor_seed
  read n (x, r) =
      let (bytes, r') = rand_read n r in let (result, x') = on_read bytes x in (result, (x', r'))

-- The same bytes come out whether the loop runs once or in two parts.
xor_seed-append :
    (xs ys : Bytes) (x : XorReader)
    → xor_seed (xs ++ ys) x
      ≡ ((xor_seed xs x).0 ++ (xor_seed ys (xor_seed xs x).1).0, (xor_seed ys (xor_seed xs x).1).1)
unfolding xor_seed
xor_seed-append [] ys x = refl
xor_seed-append (b ∷ xs) ys x =
    ap (λ q. (xor 8 b (seed_byte x) ∷ q.0, q.1)) (xor_seed-append xs ys (advanced x))

xor_seed-cancels :
    (xs : Bytes) (x : XorReader)
    → All (λ b. b < 256) xs
    → ((xor_seed (xor_seed xs x).0 x).0 ≡ xs)
      × (length (xor_seed xs x).0 ≡ length xs)
      × ((xor_seed xs x).1.offset ≡ x.offset + length xs)
unfolding xor_seed
xor_seed-cancels [] x h = (refl, refl, omega arith)
xor_seed-cancels (b ∷ xs) x h =
    let (back, long, far) = xor_seed-cancels xs (advanced x) h.1 in
    (ap₂ (λ y ys. y ∷ ys) (xor-cancels 8 b (seed_byte x) h.0) back, ap suc long, omega (arith, far))

-- The loop of Read loses no randomness and no seed byte: it gives as many bytes as were random; under
-- the same stretch of the seed they give the random bytes back; the offset moves by their number; and
-- two loops in a row do the same as one over both parts.
pub xor_seed-Faithful :
    (xs ys : Bytes) (x : XorReader)
    → All (λ b. b < 256) xs
    → let (out, x') = xor_seed xs x in
      ((xor_seed out x).0 ≡ xs)
      × (length out ≡ length xs)
      × (x'.offset ≡ x.offset + length xs)
      × (xor_seed (xs ++ ys) x ≡ (out ++ (xor_seed ys x').0, (xor_seed ys x').1))
xor_seed-Faithful xs ys x h =
    let (back, long, far) = xor_seed-cancels xs x h in (back, long, far, xor_seed-append xs ys x)
