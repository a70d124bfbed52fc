-- ===== src/Database.antt =====
-- The session that forwarder/app/database.py gives to a request. `F` is the type of session factories, `S`
-- of sessions, and `W` of the world that a handler acts on; opening, rolling back and closing a session are
-- SQLAlchemy's. The handler runs where the generator yields: what it raises is raised there.
use jd_relay.Common.{◌≡◌, refl, ◌∙◌, Option, none, some}
use jd_relay.Common.Outcome.{Outcome, returned, raised, runtime_error}

module _ {F S W A : Type 0} (open_session : F → W → S × W) (rollback close : S → W → W) where
  -- The `finally` clause closes the session, and so does the end of `async with`.
  abbrev end_session : S → Outcome A × W → Outcome A × W
  end_session session (returned a, w) = (returned a, close session (close session w))
  end_session session (raised e, w) = (raised e, close session (close session (rollback session w)))

  -- A request in its session; the first argument is the module's session factory.
  unfoldable pub get_db_session : Option F → (S → W → Outcome A × W) → W → Outcome A × W
  get_db_session none handler w = (raised runtime_error, w)
  get_db_session (some factory) handler w =
      let (session, w') = open_session factory w in end_session session (handler session w')

  -- What is committed in a world, and stays so when a session is rolled back or closed.
  module _ {D : Type 0} (committed : W → D)
      (rolled_back : (s : S) (w : W) → committed (rollback s w) ≡ committed w)
      (closed : (s : S) (w : W) → committed (close s w) ≡ committed w) where
    end_session-keeps :
        (s : S) (r : Outcome A × W)
        → ((end_session s r).0 ≡ r.0) × (committed (end_session s r).1 ≡ committed r.1)
    end_session-keeps s (returned a, w) = (refl, closed s (close s w) ∙ closed s w)
    end_session-keeps s (raised e, w) =
        (refl, closed s (close s (rollback s w)) ∙ closed s (rollback s w) ∙ rolled_back s w)

    -- A request ends as its handler does, also by an exception, and commits what its handler committed.
    pub request-keeps :
        (factory : F) (handler : S → W → Outcome A × W) (w : W)
        → let opened = open_session factory w in
          let run = handler opened.0 opened.1 in
          let r = get_db_session (some factory) handler w in
          (r.0 ≡ run.0) × (committed r.1 ≡ committed run.1)
    unfolding get_db_session
    request-keeps factory handler w =
        let opened = open_session factory w in
        end_session-keeps opened.0 (handler opened.0 opened.1)
