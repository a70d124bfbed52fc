-- ===== src/Ws/ManualServer/Threads.antt =====
-- `start`, `stop` and `_accept_loop` of forwarder/app/ws/manual_server.py, which run in threads of their own: a
-- run is a list of moves of any of them, in whatever order they fall, and a move that its thread cannot
-- make is `none`. `C` is the type of accepted connections.
pub mod Stopping
use jd_relay.Common.{Bool, true, false, List, [], ◌∷◌, ◌++◌, Option, none, some}

-- Where the accept thread is: not started, about to bind, at the test of the flag, in `accept`, or at
-- its end, with the listening socket closed or never bound.
pub data Phase : Type 0 where
  unstarted starting checking accepting closed : Phase

pub data Move (C : Type 0) : Type 0 where
  -- the caller's
  start stop : Move C
  -- the event loop's thread is up
  loop_runs : Move C
  -- the accept thread's: `bind`, the test of the flag, and what `accept` does
  binds bind_fails tests times_out accept_fails : Move C
  accepts : C → Move C

pub record Threads (C : Type 0) : Type 0 where
  pub running : Bool
  pub phase : Phase
  pub has_loop : Bool
  -- the connections that were given to threads of their own
  pub clients : List C

abbrev pub new_threads : {C : Type 0} → Threads C
new_threads = record { running = false; phase = unstarted; has_loop = false; clients = [] }

module _ {C : Type 0} where
  -- The accept thread's way, by the flag.
  unfoldable pub next_phase : Move C → Bool → Phase → Option Phase
  next_phase start running unstarted = some starting
  next_phase start running _ = none
  next_phase stop running p = some p
  next_phase loop_runs running p = some p
  next_phase binds running starting = some checking
  next_phase binds running _ = none
  next_phase bind_fails running starting = some closed
  next_phase bind_fails running _ = none
  next_phase tests true checking = some accepting
  next_phase tests false checking = some closed
  next_phase tests running _ = none
  next_phase times_out running accepting = some checking
  next_phase times_out running _ = none
  next_phase accept_fails running accepting = some closed
  next_phase accept_fails running _ = none
  next_phase (accepts c) running accepting = some checking
  next_phase (accepts c) running _ = none

  abbrev pub flag_after : Move C → Bool → Bool
  flag_after start running = true
  flag_after stop running = false
  flag_after _ running = running

  abbrev pub loop_after : Move C → Bool → Bool
  loop_after loop_runs has_loop = true
  loop_after _ has_loop = has_loop

  abbrev pub clients_after : Move C → List C → List C
  clients_after (accepts c) clients = clients ++ c ∷ []
  clients_after _ clients = clients

  abbrev pub moved : Move C → Threads C → Option Phase → Option (Threads C)
  moved m t none = none
  moved m t (some p) = some (record {
    running = flag_after m t.running;
    phase = p;
    has_loop = loop_after m t.has_loop;
    clients = clients_after m t.clients;
  })

  unfoldable pub move : Move C → Threads C → Option (Threads C)
  unfolding next_phase
  move m t = moved m t (next_phase m t.running t.phase)

  abbrev pub and_then : Option (Threads C) → (Threads C → Option (Threads C)) → Option (Threads C)
  and_then none more = none
  and_then (some t) more = more t

  unfoldable pub run : List (Move C) → Threads C → Option (Threads C)
  unfolding move
  run [] t = some t
  run (m ∷ moves) t = and_then (move m t) (run moves)
