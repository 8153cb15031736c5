-- ===== src/Worker/Loop/Tests.antt =====
-- A slow cycle, over which the interval fires twice.
use rosa_pay_application.Base.{◌≡◌, ◌≤◌, List, [], ◌∷◌, if◌then◌else◌}
use rosa_pay_application.Worker.Loop.{LoopEvent, started, stopped, fired, finished, idle, react_all}
use rosa_pay_application.Worker.Loop.Overlap.{react_all-never_overlaps}

abbrev slow : List LoopEvent
slow = started ∷ fired ∷ fired ∷ finished ∷ fired ∷ stopped ∷ started ∷ []

react_all-never_overlaps_example :
    ((react_all slow idle).active ≤ 1)
    × ((react_all slow idle).active ≡ (if (react_all slow idle).running then 1 else 0))
react_all-never_overlaps_example = react_all-never_overlaps slow
