-- ===== src/Worker/Loop.antt =====
-- apps/worker/src/confirmationWorker.ts, `createConfirmationLoop`: a timer whose cycles never
-- overlap. `active` counts the calls of `run` that have not ended, for the theorems.
pub mod Overlap
mod Tests
use rosa_pay_application.Base.{ℕ, ◌+◌, ◌-◌, Bool, true, false, List, [], ◌∷◌, ltb, if◌then◌else◌}

pub record LoopState : Type 0 where
  pub timer : Bool
  pub running : Bool
  pub active : ℕ

abbrev pub idle : LoopState
idle = record { timer = false; running = false; active = 0 }

-- Up to the `await`.
unfoldable pub tick : LoopState → LoopState
tick s = if s.running then s else record s { running = true; active = s.active + 1 }

unfoldable pub start : LoopState → LoopState
start s = if s.timer then s else record (tick s) { timer = true }

unfoldable pub stop : LoopState → LoopState
stop s = if s.timer then record s { timer = false } else s

-- A call of `run` ends, well or badly, and the `finally` after it runs.
unfoldable pub finish : LoopState → LoopState
finish s = if ltb 0 s.active then record s { running = false; active = s.active - 1 } else s

pub data LoopEvent : Type 0 where
  started stopped fired finished : LoopEvent

-- The interval fires only while there is one.
unfoldable pub react : LoopEvent → LoopState → LoopState
react started s = start s
react stopped s = stop s
react fired s = if s.timer then tick s else s
react finished s = finish s

unfoldable pub react_all : List LoopEvent → LoopState → LoopState
react_all [] s = s
react_all (event ∷ rest) s = react_all rest (react event s)
