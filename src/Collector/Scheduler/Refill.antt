-- ===== src/Collector/Scheduler/Refill.antt =====
-- The loop of collectEntropy: it ends, with the pool full, with too many failures or at a batch that
-- did nothing, and `pool.ok` is announced only for a full pool.
use quantum_entropy_service.Common.{
  ap, ap₂, not, ◌&&◌, ◌==◌, if◌then◌else◌, ℕ, zero, suc, ◌+◌, ◌-◌, ◌≤◌, ◌<◌, ◌≡◌, refl, Bool, true,
  false, ◌⊎◌, inl, inr, List, Option, none, some, Result, arith, ltb,
}
use quantum_entropy_service.Keymanager.Model.{Bytes}
use quantum_entropy_service.Collector.Scheduler.{
  World, Web, Scheduler, max_failures, run_refill_batch, refill, fetches_for,
}

module _ {D B N : Type 0} (web : Web N) (s : Scheduler D B)
    (deliver : ℕ → N → List (Result Bytes) × N) where
  abbrev batch : ℕ → World D B N → (ℕ × ℕ) × World D B N
  batch count w = run_refill_batch web s deliver (fetches_for web s deliver count) w

  -- The world is as a batch for a pool of that size has left it, which saved nothing and saw no
  -- failure.
  abbrev Idle : ℕ → World D B N → Type 0
  Idle count w₁ = (w : World D B N) × (batch count w ≡ ((0, 0), w₁))

  -- How the loop may end: with the pool full, with too many failures, or at an idle batch.
  abbrev pub Ended : Option (ℕ × ℕ) → World D B N → Type 0
  Ended none w = ⊥
  Ended (some (count, failures)) w =
      (s.high_watermark ≤ count) ⊎ ((max_failures ≤ failures) ⊎ Idle count w)

  round-Ended :
      (going idle : Bool) (count failures : ℕ) (w w₁ : World D B N)
      (rest : Option (ℕ × ℕ) × World D B N)
      → (going ≡ false → (s.high_watermark ≤ count) ⊎ (max_failures ≤ failures))
      → (idle ≡ true → Idle count w₁)
      → (going ≡ true → idle ≡ false → Ended rest.0 rest.1)
      → let r =
          (if not going
            then (some (count, failures), w)
            else if idle
            then (some (count, failures), w₁)
            else rest) in
        Ended r.0 r.1
  round-Ended false idle count failures w w₁ rest f g h = elim (f refl) [
    | inl a ↦ inl a
    | inr b ↦ inr (inl b)
  ]
  round-Ended true true count failures w w₁ rest f g h = inr (inr (g refl))
  round-Ended true false count failures w w₁ rest f g h = h refl refl

  both_zero : (p : ℕ × ℕ) → (p.0 == 0 && p.1 == 0) ≡ true → p ≡ (0, 0)
  both_zero (a, b) h = ap₂ (λ x y. (x, y)) (left a b h) (right a b h)
    where
      left : (a b : ℕ) → (a == 0 && b == 0) ≡ true → a ≡ 0
      left a b h = ground arith

      right : (a b : ℕ) → (a == 0 && b == 0) ≡ true → b ≡ 0
      right a b h = ground arith

  over : (a b c d : ℕ) → (ltb a b && ltb c d) ≡ false → (b ≤ a) ⊎ (d ≤ c)
  over a b c d h = ground arith

  closer :
      (count failures saved fails high fuel : ℕ)
      → (ltb count high && ltb failures max_failures) ≡ true
      → (saved == 0 && fails == 0) ≡ false
      → high - count + (max_failures - failures) < suc fuel
      → high - (count + saved) + (max_failures - (failures + fails)) < fuel
  closer count failures saved fails high fuel p q h = ground arith

  -- With the fuel that collectEntropy is given the loop ends, and it ends in one of its three ways.
  pub refill-Ended :
      (fuel count failures : ℕ) (w : World D B N)
      → s.high_watermark - count + (max_failures - failures) < fuel
      → let (r, w₁) = refill web s deliver fuel count failures w in Ended r w₁
  unfolding refill
  refill-Ended zero count failures w h = ground arith
  refill-Ended (suc fuel) count failures w h =
      let (counts, w₁) = batch count w in
      let going = ltb count s.high_watermark && ltb failures max_failures in
      round-Ended going (counts.0 == 0 && counts.1 == 0) count failures w w₁
        (refill web s deliver fuel (count + counts.0) (failures + counts.1) w₁)
        (over count s.high_watermark failures max_failures)
        (λ e. (w, ap (λ p. (p, w₁)) (both_zero counts e)))
        (λ p q.
          refill-Ended fuel (count + counts.0) (failures + counts.1) w₁
            (closer count failures counts.0 counts.1 s.high_watermark fuel p q h))
