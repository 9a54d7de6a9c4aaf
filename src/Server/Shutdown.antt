-- ===== src/Server/Shutdown.antt =====
-- main of cmd/quantum-api/main.go, from the start of the server's goroutine on: two goroutines, two
-- channels and the process's signals as a step relation. A signal that comes while `quit` is full is
-- dropped, and `select` takes any branch that is ready. After os.Exit or the end of main nothing runs.
pub mod Exits
pub mod Progress
use quantum_entropy_service.Common.{
  ℕ, suc, ◌≡◌, ◌≢◌, Bool, true, false, Option, none, some, GoError, String, str_eq, ◌⊎◌,
}

-- Where main is: at the `select`, in srv.Shutdown, in wg.Wait, or at one of its ends.
pub data Main : Type 0 where
  selecting shutting joining stopped : Main
  server_failed shutdown_failed : GoError → Main

-- Where the server's goroutine is: in ListenAndServe, before `srvErr <-`, before wg.Done, or gone.
pub data Server : Type 0 where
  listening : Server
  reporting : GoError → Server
  leaving gone : Server

pub record Process : Type 0 where
  pub main : Main
  pub server : Server
  -- what the channels srvErr and quit hold
  pub srv_err : Option GoError
  pub quit : Bool
  -- whether srv.Shutdown was called
  pub closing : Bool
  -- how many signals the process got
  pub signals : ℕ

-- The status that the process ends with, if it has ended.
abbrev pub status : Main → Option ℕ
status selecting = none
status shutting = none
status joining = none
status stopped = some 0
status (server_failed e) = some 1
status (shutdown_failed e) = some 1

abbrev pub IsAlive : Process → Type 0
IsAlive p = status p.main ≡ none

unfoldable pub launched : Process
launched = record {
  main = selecting;
  server = listening;
  srv_err = none;
  quit = false;
  closing = false;
  signals = 0;
}

-- A step of the program. ListenAndServe may return an error at any time, and http.ErrServerClosed
-- once Shutdown was called.
pub data Step (p : Process) : Process → Type 0 where
  fails :
      IsAlive p → (e : GoError) → p.server ≡ listening → Step p (record p { server = reporting e })
  closes :
      IsAlive p → p.server ≡ listening → p.closing ≡ true → Step p (record p { server = leaving })
  reports :
      IsAlive p
      → (e : GoError) → p.server ≡ reporting e
      → p.srv_err ≡ none
      → Step p (record p { server = leaving; srv_err = some e })
  leaves : IsAlive p → p.server ≡ leaving → Step p (record p { server = gone })
  -- the branches of `select`
  select_error :
      (e : GoError)
      → p.main ≡ selecting
      → p.srv_err ≡ some e
      → Step p (record p { main = server_failed e; srv_err = none })
  select_signal :
      p.main ≡ selecting
      → p.quit ≡ true
      → Step p (record p { main = shutting; quit = false; closing = true })
  shuts_down : p.main ≡ shutting → Step p (record p { main = joining })
  overruns : (e : GoError) → p.main ≡ shutting → Step p (record p { main = shutdown_failed e })
  joins : p.main ≡ joining → p.server ≡ gone → Step p (record p { main = stopped })

-- Any sequence of steps and of signals from outside.
pub data Run : Process → Type 0 where
  start : Run launched
  then_ : {p q : Process} → Run p → Step p q → Run q
  signalled :
      {p : Process} → IsAlive p → Run p → Run (record p { quit = true; signals = suc p.signals })
