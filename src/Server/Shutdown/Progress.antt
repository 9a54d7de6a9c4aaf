-- ===== src/Server/Shutdown/Progress.antt =====
-- That no interleaving of cmd/quantum-api/main.go hangs or runs on.
use quantum_entropy_service.Common.{
  ℕ, ◌+◌, ◌<◌, ◌≡◌, refl, Bool, true, false, Option, none, some, GoError, ◌⊎◌, inl, inr, arith,
}
use quantum_entropy_service.Server.Shutdown.{
  Main, selecting, shutting, joining, stopped, server_failed, shutdown_failed, Server, listening,
  reporting, leaving, gone, Process, status, Step, fails, closes, reports, leaves, select_error,
  select_signal, shuts_down, overruns, joins, Run,
}
use quantum_entropy_service.Server.Shutdown.Exits.{Sound, Run-Sound}

-- How many more steps there can be at most.
abbrev pub main_weight : Main → ℕ
main_weight selecting = 3
main_weight shutting = 2
main_weight joining = 1
main_weight stopped = 0
main_weight (server_failed e) = 0
main_weight (shutdown_failed e) = 0

abbrev pub server_weight : Server → ℕ
server_weight listening = 3
server_weight (reporting e) = 2
server_weight leaving = 1
server_weight gone = 0

abbrev pub weight : Process → ℕ
weight p = main_weight p.main + server_weight p.server

-- Each step of the program, a signal aside, makes the process lighter.
pub Step-lighter : {p q : Process} → Step p q → weight q < weight p
Step-lighter (fails a e l) = ground arith
Step-lighter (closes a l c) = ground arith
Step-lighter (reports a e l o) = ground arith
Step-lighter (leaves a l) = ground arith
Step-lighter (select_error e m o) = ground arith
Step-lighter (select_signal m q) = ground arith
Step-lighter (shuts_down m) = ground arith
Step-lighter (overruns e m) = ground arith
Step-lighter (joins m s) = ground arith

-- A step that the program is bound to take some time: not the failure of a server that listens.
abbrev pub due : {p q : Process} → Step p q → Bool
due (fails a e l) = false
due _ = true

abbrev pub CanStep : Process → Type 0
CanStep p = (q : Process) × (s : Step p q) × (due s ≡ true)

-- Nothing to do but to serve.
abbrev pub Serving : Process → Type 0
Serving p = (p.main ≡ selecting) × (p.server ≡ listening) × (p.quit ≡ false)

abbrev pub HasEnded : Process → Type 0
HasEnded p = (n : ℕ) × (status p.main ≡ some n)

true_false : {A : Type 0} (b : Bool) → b ≡ true → b ≡ false → A
true_false b p q = cc

joining_step : (s : Server) (p : Process) → p.main ≡ joining → p.server ≡ s → Sound p → CanStep p
joining_step listening p m e h =
    let (closing, signal) = rw m at h.place in (_, closes (rw m refl) e closing, refl)
joining_step (reporting x) p m e h = (_, reports (rw m refl) x e (rw e at h.room), refl)
joining_step leaving p m e h = (_, leaves (rw m refl) e, refl)
joining_step gone p m e h = (_, joins m e, refl)

selecting_step :
    (s : Server) (b : Bool) (o : Option GoError) (p : Process)
    → p.main ≡ selecting
    → p.server ≡ s
    → p.quit ≡ b
    → p.srv_err ≡ o
    → Sound p
    → Serving p ⊎ CanStep p
selecting_step s true o p m e q x h = inr (_, select_signal m q, refl)
selecting_step listening false o p m e q x h = inl (m, e, q)
selecting_step (reporting y) false o p m e q x h =
    inr (_, reports (rw m refl) y e (rw e at h.room), refl)
selecting_step s false (some y) p m e q x h = inr (_, select_error y m x, refl)
selecting_step leaving false none p m e q x h = inr (_, leaves (rw m refl) e, refl)
selecting_step gone false none p m e q x h =
    let closed : p.closing ≡ true = rw (e, x) at h.told m in
    true_false p.closing closed (rw m at h.place)

live : (m : Main) (p : Process) → p.main ≡ m → Sound p → HasEnded p ⊎ (Serving p ⊎ CanStep p)
live selecting p m h = inr (selecting_step p.server p.quit p.srv_err p m refl refl refl h)
live shutting p m h = inr (inr (_, shuts_down m, refl))
live joining p m h = inr (inr (joining_step p.server p m refl h))
live stopped p m h = inl (0, rw m refl)
live (server_failed e) p m h = inl (1, rw m refl)
live (shutdown_failed e) p m h = inl (1, rw m refl)

-- No interleaving hangs or runs on: what can be reached has ended, or does nothing but serve with no
-- signal pending, or the program can take a step other than the failure of a server that listens; and
-- each of its steps lowers a measure.
pub Run-Live :
    {p : Process}
    → Run p
    → (HasEnded p ⊎ (Serving p ⊎ CanStep p)) × ((q : Process) → Step p q → weight q < weight p)
Run-Live {p} r = (live p.main p refl (Run-Sound r), λ q s. Step-lighter s)
