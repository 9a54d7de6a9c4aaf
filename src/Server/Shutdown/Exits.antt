-- ===== src/Server/Shutdown/Exits.antt =====
-- How main of cmd/quantum-api/main.go ends, in every interleaving.
use quantum_entropy_service.Common.{
  suc, ◌≤◌, ◌≡◌, refl, Bool, true, false, Option, none, some, GoError, arith,
}
use quantum_entropy_service.Server.Shutdown.{
  Main, selecting, shutting, joining, stopped, server_failed, shutdown_failed, Server, listening,
  reporting, leaving, gone, Process, status, launched, Step, fails, closes, reports, leaves,
  select_error, select_signal, shuts_down, overruns, joins, Run, start, then_, signalled,
}

-- The goroutine has come out of ListenAndServe.
abbrev Left : Server → Type 0
Left listening = ⊥
Left (reporting e) = ⊥
Left leaving = Unit {0}
Left gone = Unit {0}

-- What holds while main is at a place.
abbrev At : Main → Process → Type 0
At selecting p = p.closing ≡ false
At shutting p = (p.closing ≡ true) × (1 ≤ p.signals)
At joining p = (p.closing ≡ true) × (1 ≤ p.signals)
At stopped p = (p.server ≡ gone) × (p.closing ≡ true) × (1 ≤ p.signals)
At (server_failed e) p = (p.closing ≡ false) × Left p.server
At (shutdown_failed e) p = (p.closing ≡ true) × (1 ≤ p.signals)

-- The goroutine sends at most once, and before it leaves without an error Shutdown is called.
abbrev Room : Server → Option GoError → Type 0
Room listening o = o ≡ none
Room (reporting e) o = o ≡ none
Room leaving o = Unit {0}
Room gone o = Unit {0}

abbrev Told : Server → Option GoError → Bool → Type 0
Told leaving none closing = closing ≡ true
Told gone none closing = closing ≡ true
Told s o closing = Unit {0}

pub record Sound (p : Process) : Type 0 where
  pub place : At p.main p
  pub room : Room p.server p.srv_err
  pub told : p.main ≡ selecting → Told p.server p.srv_err p.closing
  pub pending : p.quit ≡ true → 1 ≤ p.signals

launched-Sound : Sound launched
unfolding launched
launched-Sound = record { place = refl; room = refl; told = λ e. tt; pending = λ e. ground arith }

-- A step of the goroutine, or a signal, leaves main where it is.
At-moved :
    (m : Main) (p q : Process)
    → status m ≡ none
    → p.closing ≡ q.closing
    → p.signals ≤ q.signals
    → At m p
    → At m q
At-moved selecting p q a c s h = ground arith
At-moved shutting p q a c s h = ground arith
At-moved joining p q a c s h = ground arith
At-moved stopped p q a c s h = ground arith
At-moved (server_failed e) p q a c s h = ground arith
At-moved (shutdown_failed e) p q a c s h = ground arith

room-Left : (s : Server) (o : Option GoError) (e : GoError) → Room s o → o ≡ some e → Left s
room-Left listening o e h x = cc
room-Left (reporting y) o e h x = cc
room-Left leaving o e h x = tt
room-Left gone o e h x = tt

told_closed : (o : Option GoError) {c : Bool} → c ≡ true → Told leaving o c
told_closed none e = e
told_closed (some x) e = tt

told_gone : (o : Option GoError) (c : Bool) → Told leaving o c → Told gone o c
told_gone none c h = h
told_gone (some e) c h = tt

room_emptied : (s : Server) → Room s none
room_emptied listening = refl
room_emptied (reporting e) = refl
room_emptied leaving = tt
room_emptied gone = tt

Step-Sound : {p q : Process} → Step p q → Sound p → Sound q
Step-Sound {p} (fails a e l) h = record {
  place = At-moved p.main p (record p { server = reporting e }) a refl (omega arith) h.place;
  room = rw l at h.room;
  told = λ m. tt;
  pending = h.pending;
}
Step-Sound {p} (closes a l c) h = record {
  place = At-moved p.main p (record p { server = leaving }) a refl (omega arith) h.place;
  room = tt;
  told = λ m. told_closed p.srv_err c;
  pending = h.pending;
}
Step-Sound {p} (reports a e l o) h = record {
  place =
      At-moved p.main p (record p { server = leaving; srv_err = some e }) a refl (omega arith)
        h.place;
  room = tt;
  told = λ m. tt;
  pending = h.pending;
}
Step-Sound {p} (leaves a l) h = record {
  place = At-moved p.main p (record p { server = gone }) a refl (omega arith) h.place;
  room = tt;
  told = λ m. told_gone p.srv_err p.closing (rw l at h.told m);
  pending = h.pending;
}
Step-Sound {p} (select_error e m o) h = record {
  place = (rw m at h.place, room-Left p.server p.srv_err e h.room o);
  room = room_emptied p.server;
  told = λ x. cc;
  pending = h.pending;
}
Step-Sound {p} (select_signal m q) h = record {
  place = (refl, h.pending q);
  room = h.room;
  told = λ x. cc;
  pending = λ x. cc;
}
Step-Sound {p} (shuts_down m) h = record {
  place = rw m at h.place;
  room = h.room;
  told = λ x. cc;
  pending = h.pending;
}
Step-Sound {p} (overruns e m) h = record {
  place = rw m at h.place;
  room = h.room;
  told = λ x. cc;
  pending = h.pending;
}
Step-Sound {p} (joins m s) h = record {
  place = let (closing, signal) = rw m at h.place in (s, closing, signal);
  room = h.room;
  told = λ x. cc;
  pending = h.pending;
}

pub Run-Sound : {p : Process} → Run p → Sound p
Run-Sound start = launched-Sound
Run-Sound (then_ r s) = Step-Sound s (Run-Sound r)
Run-Sound (signalled {p} a r) =
    let h = Run-Sound r in
    record {
      place =
          At-moved p.main p (record p { quit = true; signals = suc p.signals }) a refl (omega arith)
            h.place;
      room = h.room;
      told = h.told;
      pending = λ e. omega arith;
    }

-- What is so when the process has ended.
abbrev pub Ended : Main → Process → Type 0
Ended stopped p = (p.server ≡ gone) × (p.closing ≡ true) × (1 ≤ p.signals)
Ended (server_failed e) p = (p.closing ≡ false) × Left p.server
Ended (shutdown_failed e) p = (p.closing ≡ true) × (1 ≤ p.signals)
Ended m p = Unit {0}

Ended-At : (m : Main) (p : Process) → At m p → Ended m p
Ended-At selecting p h = tt
Ended-At shutting p h = tt
Ended-At joining p h = tt
Ended-At stopped p h = h
Ended-At (server_failed e) p h = h
Ended-At (shutdown_failed e) p h = h

-- In every interleaving: where the process ends with status 0 a signal came, Shutdown was called and
-- the server's goroutine has returned. Where it ends with status 1 for a failed server, Shutdown was
-- not called and the goroutine has come out of ListenAndServe; where it does for a failed Shutdown, a
-- signal came.
pub Run-Ended : {p : Process} → Run p → Ended p.main p
Run-Ended {p} r = Ended-At p.main p (Run-Sound r).place
