-- ===== src/Ws/ManualServer/Threads/Stopping.antt =====
-- What happens after `stop` in forwarder/app/ws/manual_server.py.
use mathlib.Core.Path.{subst}
use mathlib.Core.List.{append_assoc, append-nil}
use jd_relay.Common.{
  ℕ, ◌+◌, ◌≤◌, ◌≡◌, refl, sym, ap, ◌∙◌, ◌⊎◌, inl, inr, false, List, [], ◌∷◌, ◌++◌, Option, none,
  some, length, length-append, arith, Option-cases,
}
use jd_relay.Ws.ManualServer.Threads.{
  Phase, unstarted, starting, checking, accepting, closed, Move, start, stop, loop_runs, binds,
  bind_fails, tests, times_out, accept_fails, accepts, Threads, next_phase, clients_after, moved,
  move, run, and_then, flag_after, loop_after,
}

-- How many moves the accept thread has left once the flag is off.
abbrev pub moves_left : Phase → ℕ
moves_left starting = 2
moves_left accepting = 2
moves_left checking = 1
moves_left _ = 0

-- How many connections it may still take.
abbrev pub takes_left : Phase → ℕ
takes_left accepting = 1
takes_left _ = 0

abbrev pub IsStarted : Phase → Type 0
IsStarted unstarted = ⊥
IsStarted _ = Unit

nearly_done : (p : Phase) (n : ℕ) → IsStarted p → n + moves_left p ≤ 2 → (p ≡ closed) ⊎ (n ≤ 1)
nearly_done unstarted n h fits = absurd h
nearly_done closed n h fits = inl refl
nearly_done starting n h fits = inr (omega arith)
nearly_done checking n h fits = inr (omega arith)
nearly_done accepting n h fits = inr (omega arith)

at_most_two : (p : Phase) → moves_left p ≤ 2
at_most_two starting = omega arith
at_most_two _ = omega arith

at_most_one : (p : Phase) → takes_left p ≤ 1
at_most_one accepting = omega arith
at_most_one _ = omega arith

both : {A B D : Type 0} → A ⊎ B → A ⊎ D → A ⊎ (B × D)
both (inl a) o = inl a
both (inr b) (inl a) = inl a
both (inr b) (inr d) = inr (b, d)

module _ {C : Type 0} where
  -- Whether a move is the accept thread's.
  abbrev pub own : Move C → ℕ
  own start = 0
  own stop = 0
  own loop_runs = 0
  own _ = 1

  abbrev pub own_moves : List (Move C) → ℕ
  own_moves [] = 0
  own_moves (m ∷ moves) = own m + own_moves moves

  abbrev pub taken : Move C → List C
  taken (accepts c) = c ∷ []
  taken _ = []

  abbrev pub all_taken : List (Move C) → List C
  all_taken [] = []
  all_taken (m ∷ moves) = taken m ++ all_taken moves

  abbrev Steps : Move C → Phase → Option Phase → Type 0
  Steps m p none = Unit
  Steps m p (some q) =
      IsStarted q
      × (own m + moves_left q ≤ moves_left p)
      × (length (taken m) + takes_left q ≤ takes_left p)
      × (flag_after m false ≡ false)

  phase-Steps : (m : Move C) (p : Phase) → IsStarted p → Steps m p (next_phase m false p)
  unfolding next_phase
  phase-Steps m unstarted h = absurd h
  phase-Steps stop p h = (tt, omega arith, omega arith, refl)
  phase-Steps loop_runs p h = (tt, omega arith, omega arith, refl)
  phase-Steps binds starting h = (tt, omega arith, omega arith, refl)
  phase-Steps bind_fails starting h = (tt, omega arith, omega arith, refl)
  phase-Steps tests checking h = (tt, omega arith, omega arith, refl)
  phase-Steps times_out accepting h = (tt, omega arith, omega arith, refl)
  phase-Steps accept_fails accepting h = (tt, omega arith, omega arith, refl)
  phase-Steps (accepts c) accepting h = (tt, omega arith, omega arith, refl)
  phase-Steps start starting h = tt
  phase-Steps _ _ h = tt

  clients_taken : (m : Move C) (clients : List C) → clients_after m clients ≡ clients ++ taken m
  clients_taken (accepts c) clients = refl
  clients_taken start clients = sym (append-nil clients)
  clients_taken _ clients = sym (append-nil clients)

  -- A run from a state of the accept thread at which the flag is off.
  record Stopped (moves : List (Move C)) (t u : Threads C) : Type 0 where
    off : u.running ≡ false
    named : IsStarted u.phase
    few_moves : own_moves moves + moves_left u.phase ≤ moves_left t.phase
    few_taken : length (all_taken moves) + takes_left u.phase ≤ takes_left t.phase
    clients : u.clients ≡ t.clients ++ all_taken moves

  run-Stopped :
      (moves : List (Move C)) (t : Threads C) {u : Threads C}
      → t.running ≡ false
      → IsStarted t.phase
      → run moves t ≡ some u
      → Stopped moves t u
  unfolding run
  run-Stopped [] t {u} off started e =
      let same : t ≡ u = cc in
      subst (Stopped [] t) same (record {
        off = off;
        named = started;
        few_moves = omega arith;
        few_taken = omega arith;
        clients = sym (append-nil t.clients);
      })
  run-Stopped (m ∷ moves) t {u} off started e =
      elim (Option-cases (next_phase m t.running t.phase)) [
        | inl n ↦ absurd (refused (ap (λ o. and_then (moved m t o) (run moves)) (sym n) ∙ e))
        | inr (q, n) ↦
            let after : Threads C = record {
              running = flag_after m t.running;
              phase = q;
              has_loop = loop_after m t.has_loop;
              clients = clients_after m t.clients;
            } in
            let at : next_phase m false t.phase ≡ some q =
              ap (λ b. next_phase m b t.phase) (sym off) ∙ n in
            let (named, fewer, less, stays) =
              subst (Steps m t.phase) at (phase-Steps m t.phase started) in
            let rest =
              run-Stopped moves after (ap (flag_after m) off ∙ stays) named
                (ap (λ o. and_then (moved m t o) (run moves)) (sym n) ∙ e) in
            record {
              off = rest.off;
              named = rest.named;
              few_moves = omega (arith, fewer, rest.few_moves);
              few_taken =
                  omega (arith, less, rest.few_taken, length-append (taken m) (all_taken moves));
              clients =
                  rest.clients
                  ∙ ap (λ l. l ++ all_taken moves) (clients_taken m t.clients)
                  ∙ append_assoc t.clients (taken m) (all_taken moves);
            }
      ]
    where
      refused : none ≡ some u → ⊥
      refused h = cc

  -- An accept thread that is not at its end can make a move of its own.
  abbrev pub CanMove : Threads C → Type 0
  CanMove u = (m : Move C) × (own m ≡ 1) × (v : Threads C) × (move m u ≡ some v)

  phase_goes :
      (p : Phase)
      → IsStarted p
      → (p ≡ closed) ⊎ ((m : Move C) × (own m ≡ 1) × (q : Phase) × (next_phase m false p ≡ some q))
  unfolding next_phase
  phase_goes unstarted h = absurd h
  phase_goes closed h = inl refl
  phase_goes starting h = inr (binds, refl, checking, refl)
  phase_goes checking h = inr (tests, refl, closed, refl)
  phase_goes accepting h = inr (times_out, refl, checking, refl)

  can_move :
      (u : Threads C) → IsStarted u.phase → u.running ≡ false → (u.phase ≡ closed) ⊎ CanMove u
  unfolding move
  can_move u h off = elim (phase_goes u.phase h) [
    | inl e ↦ inl e
    | inr (m, one, q, e) ↦
        inr (m, one, _, ap (λ b. moved m u (next_phase m b u.phase)) off ∙ ap (moved m u) e)
  ]

  -- After a stop of a server that was started, whatever the threads do in whatever order, the accept
  -- thread takes at most one connection more, makes at most two moves, and is at its end, or has made
  -- one at most and can make the next; the flag stays off.
  pub stop_ends :
      (moves : List (Move C)) (t s u : Threads C)
      → IsStarted t.phase
      → move stop t ≡ some s
      → run moves s ≡ some u
      → (u.running ≡ false)
        × (length (all_taken moves) ≤ 1)
        × (u.clients ≡ t.clients ++ all_taken moves)
        × (own_moves moves ≤ 2)
        × ((u.phase ≡ closed) ⊎ ((own_moves moves ≤ 1) × CanMove u))
  unfolding move next_phase
  stop_ends moves t s u started stopped e =
      let now : record t { running = false } ≡ s = cc in
      let r =
        run-Stopped moves (record t { running = false }) refl started (ap (run moves) now ∙ e) in
      let most = at_most_two t.phase in
      let one = at_most_one t.phase in
      (
        r.off,
        omega (arith, r.few_taken, one),
        r.clients,
        omega (arith, r.few_moves, most),
        both (nearly_done u.phase (own_moves moves) r.named (omega (arith, r.few_moves, most)))
            (can_move u r.named r.off),
      )
