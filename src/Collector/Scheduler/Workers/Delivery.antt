-- ===== src/Collector/Scheduler/Workers/Delivery.antt =====
-- A batch of runRefillBatch that nobody stops delivers a result for each job, or as many errors as the
-- limit.
use quantum_entropy_service.Common.{
  ℕ, suc, ◌+◌, ◌≤◌, ◌<◌, ◌≡◌, Bool, false, length, ok, err, refl, arith, ◌⊎◌, inl, inr,
}
use quantum_entropy_service.Collector.Scheduler.{max_failures}
use quantum_entropy_service.Collector.Scheduler.Workers.{
  Phase, checking, offering, closed, Fleet, start, Step, all_handed, too_many, offer, hand, abort,
  leave, quit, begin, succeed, failed, send_ok, send_err, wake, receive, Run, here, then_, stopping,
  Over,
}
use quantum_entropy_service.Collector.Scheduler.Workers.Bounds.{
  errors, errors_le, held, results, Sound, Step-Sound, run-Sound, start-Sound, moved_length,
  taken_errors,
}

offer_clash : {p : Phase} → p ≡ checking → p ≡ closed → ⊥
offer_clash e f = cc

hand_clash : {p : Phase} → p ≡ offering → p ≡ closed → ⊥
hand_clash e f = cc

later : (r n : ℕ) → (r ≡ 0) ⊎ (max_failures ≤ n) → (r ≡ 0) ⊎ (max_failures ≤ suc n)
later r n c = ground arith

module _ (n : ℕ) where
  -- While nobody stops the batch, no job is lost, and it is cut short only by the failures.
  record Whole (f : Fleet) : Type 0 where
    sound : Sound n f
    every : f.stop ≡ false → f.remaining + held f + results f ≡ n
    cut : f.stop ≡ false → f.phase ≡ closed → (f.remaining ≡ 0) ⊎ (max_failures ≤ f.fail_count)
    gone : f.stop ≡ false → 0 < f.exited → f.phase ≡ closed

  Step-Whole : {f g : Fleet} → Step f g → Whole f → Whole g
  Step-Whole (all_handed p q) h = record {
    sound = Step-Sound n (all_handed p q) h.sound;
    every = h.every;
    cut = λ s e. inl q;
    gone = λ s l. refl;
  }
  Step-Whole (too_many p q) h = record {
    sound = Step-Sound n (too_many p q) h.sound;
    every = h.every;
    cut = λ s e. inr q;
    gone = λ s l. refl;
  }
  Step-Whole (offer m p q l) h = record {
    sound = Step-Sound n (offer m p q l) h.sound;
    every = h.every;
    cut = λ s e. cc;
    gone = λ s k. elim (offer_clash p (h.gone s k)) [ ];
  }
  Step-Whole {f} (hand m i p q l) h = record {
    sound = Step-Sound n (hand m i p q l) h.sound;
    every = λ s. omega (arith, h.every s, q);
    cut = λ s e. cc;
    gone = λ s k. elim (hand_clash p (h.gone s k)) [ ];
  }
  Step-Whole (abort p q) h = record {
    sound = Step-Sound n (abort p q) h.sound;
    every = h.every;
    cut = λ s e. cc;
    gone = λ s l. refl;
  }
  Step-Whole (leave i p q) h = record {
    sound = Step-Sound n (leave i p q) h.sound;
    every = h.every;
    cut = h.cut;
    gone = λ s l. p;
  }
  Step-Whole (quit t p q) h = record {
    sound = Step-Sound n (quit t p q) h.sound;
    every = λ s. cc;
    cut = λ s. cc;
    gone = λ s. cc;
  }
  Step-Whole (begin t p q) h = record {
    sound = Step-Sound n (begin t p q) h.sound;
    every = λ s. omega (arith, h.every s, q);
    cut = h.cut;
    gone = h.gone;
  }
  Step-Whole (succeed b bytes p) h = record {
    sound = Step-Sound n (succeed b bytes p) h.sound;
    every = λ s. omega (arith, h.every s, p);
    cut = h.cut;
    gone = h.gone;
  }
  Step-Whole {f} (failed b e p) h = record {
    sound = Step-Sound n (failed b e p) h.sound;
    every = λ s. omega (arith, h.every s, p);
    cut = λ s x. later (f.remaining) f.fail_count (h.cut s x);
    gone = h.gone;
  }
  Step-Whole {f} (send_ok xs ys bytes p q) h = record {
    sound = Step-Sound n (send_ok xs ys bytes p q) h.sound;
    every = λ s. omega (arith, h.every s, moved_length xs ys f.buffer f.sending (ok bytes) p);
    cut = h.cut;
    gone = h.gone;
  }
  Step-Whole {f} (send_err xs ys e p q) h = record {
    sound = Step-Sound n (send_err xs ys e p q) h.sound;
    every = λ s. omega (arith, h.every s, moved_length xs ys f.buffer f.sending (err e) p);
    cut = h.cut;
    gone = h.gone;
  }
  Step-Whole (wake m p) h = record {
    sound = Step-Sound n (wake m p) h.sound;
    every = h.every;
    cut = h.cut;
    gone = h.gone;
  }
  Step-Whole {f} (receive r rs p) h = record {
    sound = Step-Sound n (receive r rs p) h.sound;
    every = λ s. omega (arith, h.every s, taken_errors f.received f.buffer rs r p);
    cut = h.cut;
    gone = h.gone;
  }

  run-Whole : {f g : Fleet} → Run f g → Whole f → Whole g
  run-Whole here h = h
  run-Whole (then_ run step) h = Step-Whole step (run-Whole run h)
  run-Whole (stopping run) h = record {
    sound = run-Sound n (stopping run) h.sound;
    every = λ s. cc;
    cut = λ s. cc;
    gone = λ s. cc;
  }

  start-Whole : (stop : Bool) → Whole (start n stop)
  unfolding start
  start-Whole stop = record {
    sound = start-Sound n stop;
    every = λ s. omega arith;
    cut = λ s e. cc;
    gone = λ s l. ground arith;
  }

  over-received :
      (f : Fleet)
      → Sound n f
      → Over f
      → f.stop ≡ false
      → f.remaining + held f + results f ≡ n
      → (f.remaining ≡ 0) ⊎ (max_failures ≤ f.fail_count)
      → (length f.received ≡ n) ⊎ (max_failures ≤ errors f.received)
  over-received f h o s e c = ground (arith, errors_le f.sending)

  -- A batch that is over and was never stopped has delivered a result for every one of its `n` jobs,
  -- unless it has delivered as many errors as the limit.
  pub run-received :
      (f : Fleet)
      → Run (start n false) f
      → Over f
      → f.stop ≡ false
      → (length f.received ≡ n) ⊎ (max_failures ≤ errors f.received)
  run-received f run o s =
      let h = run-Whole run (start-Whole false) in
      over-received f h.sound o s (h.every s) (h.cut s (h.gone s (omega (arith, o.all_exited))))
