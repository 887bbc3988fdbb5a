-- ===== src/Store/VersionClock/Alone.antt =====
-- crates/gamestore-engine/src/store.rs: the loop of next_version while no other thread steps.
use game_store.Prelude.{ℕ, ◌+◌, ◌≤◌, ◌<◌, ◌⊎◌, ◌≡◌, ◌==◌, if◌then◌else◌, length}
use game_store.Store.VersionClock.Threads.{
  Thread, idle, loaded, computed, Clock, Step, load, compute, exchange, retry,
}

-- The thread that makes a step.
abbrev pub stepper : {c d : Clock} → Step c d → ℕ
stepper (load c i e) = i
stepper (compute c i prev now e) = i
stepper (exchange c i prev version e same) = i
stepper (retry c i prev version e other) = i

-- A number of steps that one thread makes while no other does.
pub data Alone (i : ℕ) (c : Clock) : ℕ → Clock → Type 0 where
  unmoved : Alone i c 0 c
  and_then :
      {n : ℕ} {d e : Clock}
      → Alone i c n d
      → (step : Step d e) → stepper step ≡ i
      → Alone i c (n + 1) e

-- The steps that a thread alone still makes before it returns.
abbrev steps_left : ℕ → Thread → ℕ
steps_left clock idle = 3
steps_left clock (loaded prev) = if clock == prev then 2 else 5
steps_left clock (computed prev version) = if clock == prev then 1 else 4

abbrev left : ℕ → Clock → ℕ
left i c = steps_left c.clock (c.threads i)

-- A step comes nearer to the return, or returns.
abbrev Nears : ℕ → Clock → Clock → Type 0
Nears i c d =
    ((length d.issued ≡ length c.issued) × (left i d + 1 ≤ left i c))
    ⊎ (length c.issued < length d.issued)

-- A step of a thread.
abbrev pub Stepped : ℕ → Clock → Type 0
Stepped i c = (d : Clock) × (step : Step c d) × (stepper step ≡ i)
