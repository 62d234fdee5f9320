-- ===== src/Events/Manager.antt =====
-- events/manager/manager.go: when the eventer takes the new events and hands them to the sinks.
pub mod Rounds
use heapster.Common.{ℕ, ◌+◌, ◌-◌, ◌%◌, List, [], ◌∷◌, ◌++◌, if◌then◌else◌, ◌==◌}
use heapster.Common.Time.{Time}

-- `timeToNextSync`, until the end of the current period. `Truncate` counts from the zero time, and
-- leaves the time as it is for a frequency of 0.
unfoldable pub time_to_next_sync : ℕ → Time → ℕ
time_to_next_sync frequency now =
    let start = if frequency == 0 then now else now - now % frequency in start + frequency - now
