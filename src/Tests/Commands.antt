-- ===== src/Tests/Commands.antt =====
-- The commands: runs of cmd/quantum-api.
use quantum_entropy_service.Common.{◌⊎◌, ◌<◌, ◌≡◌, refl, true, some, message}
use quantum_entropy_service.Server.Shutdown.{
  Process, launched, Step, Run, start, then_, signalled, fails, closes, reports, leaves,
  select_signal, shuts_down, joins, stopped, gone, status,
}
use quantum_entropy_service.Server.Shutdown.Exits.{Ended, Run-Ended}
use quantum_entropy_service.Server.Shutdown.Progress.{HasEnded, Serving, CanStep, weight, Run-Live}

-- A signal, and a server that stops once it is told to.
abbrev told : Process
unfolding launched
told = record launched { main = stopped; server = gone; closing = true; signals = 1 }

abbrev run_told : Run told
unfolding launched
run_told =
    then_
      (then_
        (then_ (then_ (then_ (signalled refl start) (select_signal refl refl)) (shuts_down refl))
          (closes refl refl refl))
        (leaves refl refl))
      (joins refl refl)

Run-Ended_example : Ended stopped told
unfolding told
Run-Ended_example = Run-Ended run_told

Run-Live_example :
    (HasEnded told ⊎ (Serving told ⊎ CanStep told))
    × ((q : Process) → Step told q → weight q < weight told)
Run-Live_example = Run-Live run_told

-- A server that fails while a signal waits: `select` may take the signal, and the process then ends with
-- status 0.
failed_and_signalled :
    (p : Process) × Run p × (status p.main ≡ some 0) × (p.srv_err ≡ some (message "in use"))
unfolding launched
failed_and_signalled = (
  _,
  then_
      (then_
        (then_
          (then_
            (then_ (then_ (signalled refl start) (fails refl (message "in use") refl))
              (reports refl (message "in use") refl refl))
            (leaves refl refl))
          (select_signal refl refl))
        (shuts_down refl))
      (joins refl refl),
  refl,
  refl,
)
