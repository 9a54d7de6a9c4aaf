-- ===== src/Collector/Scheduler/Loop.antt =====
-- TriggerRefill, Start, Stop and the loop of `run` (internal/collector/scheduler.go) as a step
-- relation: `select` takes any branch that is ready.
use quantum_entropy_service.Common.{
  ℕ, zero, suc, ◌+◌, ◌≤◌, ◌≡◌, ◌⊎◌, inl, inr, refl, ap, ◌∙◌, Bool, true, false, arith,
}
use quantum_entropy_service.Collector.Scheduler.{trigger_refill}

-- The goroutine of `run` and the scheduler's two channels.
pub record Loop (W : Type 0) : Type 0 where
  pub running : Bool
  -- whether stopChan is closed, and whether refillChan holds its one signal
  pub stop : Bool
  pub full : Bool
  pub world : W

unfoldable pub started : {W : Type 0} → W → Loop W
started w = record { running = true; stop = false; full = false; world = w }

module _ {W : Type 0} (collect : W → W) where
  pub data Step : Loop W → Loop W → Type 0 where
    -- TriggerRefill and Stop; a second Stop would panic
    triggers : {l : Loop W} → Step l (record l { full = trigger_refill l.full })
    stops : {l : Loop W} → l.stop ≡ false → Step l (record l { stop = true })
    -- the branches of `select`: stopChan, refillChan, ticker.C
    returns :
        {l : Loop W} → l.running ≡ true → l.stop ≡ true → Step l (record l { running = false })
    refills :
        {l : Loop W}
        → l.running ≡ true
        → l.full ≡ true
        → Step l (record l { full = false; world = collect l.world })
    ticks : {l : Loop W} → l.running ≡ true → Step l (record l { world = collect l.world })

  infixr 30 ◌then◌
  pub data Steps : Loop W → Loop W → Type 0 where
    done : {l : Loop W} → Steps l l
    ◌then◌ : {l m n : Loop W} → Step l m → Steps m n → Steps l n

  -- How many signals were sent, and how many collections a signal and the ticker caused.
  abbrev pub sent : {l m : Loop W} → Steps l m → ℕ
  sent done = 0
  sent (triggers then s) = suc (sent s)
  sent (stops e then s) = sent s
  sent (returns r e then s) = sent s
  sent (refills r e then s) = sent s
  sent (ticks r then s) = sent s

  abbrev pub refilled : {l m : Loop W} → Steps l m → ℕ
  refilled done = 0
  refilled (triggers then s) = refilled s
  refilled (stops e then s) = refilled s
  refilled (returns r e then s) = refilled s
  refilled (refills r e then s) = suc (refilled s)
  refilled (ticks r then s) = refilled s

  abbrev pub ticked : {l m : Loop W} → Steps l m → ℕ
  ticked done = 0
  ticked (triggers then s) = ticked s
  ticked (stops e then s) = ticked s
  ticked (returns r e then s) = ticked s
  ticked (refills r e then s) = ticked s
  ticked (ticks r then s) = suc (ticked s)

  abbrev pub repeat : ℕ → W → W
  repeat zero w = w
  repeat (suc n) w = repeat n (collect w)

  abbrev pub bit : Bool → ℕ
  bit true = 1
  bit false = 0

  -- What any run of the loop keeps to.
  pub record Keeps (l m : Loop W) (refills ticks signals : ℕ) : Type 0 where
    -- the world is changed by whole collections only, one for each signal taken and each tick
    pub collected : m.world ≡ repeat (refills + ticks) l.world
    -- a collection for a signal uses one up, and signals may coalesce
    pub coalesced : refills + bit m.full ≤ signals + bit l.full
    -- a signal that is there stays until a collection takes it
    pub kept : l.full ≡ true → (m.full ≡ true) ⊎ (1 ≤ refills)
    -- once the goroutine has returned nothing is collected
    pub returned : l.running ≡ false → refills + ticks ≡ 0

  trivially : (l : Loop W) → Keeps l l 0 0 0
  trivially l = record {
    collected = refl;
    coalesced = omega arith;
    kept = λ e. inl e;
    returned = λ e. refl;
  }

  true_not_false : {A : Type 0} (b : Bool) → b ≡ true → b ≡ false → A
  true_not_false true p q = cc
  true_not_false false p q = cc

  repeat_one_more : (r t : ℕ) (w : W) → repeat (r + t) (collect w) ≡ repeat (r + suc t) w
  repeat_one_more r t w = let e : suc (r + t) ≡ r + suc t = omega arith in ap (λ n. repeat n w) e

  repeat_refill : (r t : ℕ) (w : W) → repeat (r + t) (collect w) ≡ repeat (suc r + t) w
  repeat_refill r t w = let e : suc (r + t) ≡ suc r + t = omega arith in ap (λ n. repeat n w) e

  -- In any sequence of steps: the world has gone through one collection for each signal taken and each
  -- tick and no other change; no more signals are taken than were sent or waited at the start; a signal that waits at the
  -- start waits at the end or was taken; and a loop that has returned collects no more.
  pub Steps-Keeps : {l m : Loop W} (s : Steps l m) → Keeps l m (refilled s) (ticked s) (sent s)
  unfolding trigger_refill
  Steps-Keeps {l = l} done = trivially l
  Steps-Keeps {l = l} {m = m} (triggers then s) =
      let ih = Steps-Keeps s in
      record {
        collected = ih.collected;
        coalesced = ground (arith, ih.coalesced);
        kept = λ e. ih.kept refl;
        returned = ih.returned;
      }
  Steps-Keeps (stops e then s) =
      let ih = Steps-Keeps s in
      record {
        collected = ih.collected;
        coalesced = ih.coalesced;
        kept = ih.kept;
        returned = ih.returned;
      }
  Steps-Keeps (returns r e then s) =
      let ih = Steps-Keeps s in
      record {
        collected = ih.collected;
        coalesced = ih.coalesced;
        kept = ih.kept;
        returned = λ e. ih.returned refl;
      }
  Steps-Keeps {l = l} (refills r e then s) =
      let ih = Steps-Keeps s in
      record {
        collected = ih.collected ∙ repeat_refill (refilled s) (ticked s) l.world;
        coalesced = ground (arith, ih.coalesced, e);
        kept = λ f. inr (omega arith);
        returned = λ f. true_not_false l.running r f;
      }
  Steps-Keeps {l = l} (ticks r then s) =
      let ih = Steps-Keeps s in
      record {
        collected = ih.collected ∙ repeat_one_more (refilled s) (ticked s) l.world;
        coalesced = ih.coalesced;
        kept = ih.kept;
        returned = λ f. true_not_false l.running r f;
      }
