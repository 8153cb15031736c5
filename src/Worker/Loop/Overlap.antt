-- ===== src/Worker/Loop/Overlap.antt =====
-- That the cycles of the loop never overlap.
use rosa_pay_application.Base.{◌≡◌, ◌≤◌, refl, List, [], ◌∷◌, arith, if◌then◌else◌}
use rosa_pay_application.Worker.Loop.{
  LoopState, LoopEvent, idle, tick, start, stop, finish, react, react_all, started, stopped, fired,
  finished,
}

-- The flag says whether a cycle is active, and there is one at most.
abbrev IsGuarded : LoopState → Type 0
IsGuarded s = s.active ≡ (if s.running then 1 else 0)

react-IsGuarded : (event : LoopEvent) (s : LoopState) → IsGuarded s → IsGuarded (react event s)
unfolding react start stop tick finish
react-IsGuarded started s h = ground arith
react-IsGuarded stopped s h = ground arith
react-IsGuarded fired s h = ground arith
react-IsGuarded finished s h = ground arith

react_all-IsGuarded :
    (events : List LoopEvent) (s : LoopState) → IsGuarded s → IsGuarded (react_all events s)
unfolding react_all
react_all-IsGuarded [] s h = h
react_all-IsGuarded (event ∷ rest) s h =
    react_all-IsGuarded rest (react event s) (react-IsGuarded event s h)

-- However the loop is started and stopped, its interval fires and its cycles end, at most one cycle
-- is active, and one is exactly while the flag is set.
pub react_all-never_overlaps :
    (events : List LoopEvent)
    → ((react_all events idle).active ≤ 1)
      × ((react_all events idle).active ≡ (if (react_all events idle).running then 1 else 0))
react_all-never_overlaps events =
    let guarded = react_all-IsGuarded events idle refl in (ground arith, guarded)
