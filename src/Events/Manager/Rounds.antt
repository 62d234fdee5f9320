-- ===== src/Events/Manager/Rounds.antt =====
-- events/manager/manager.go: when the rounds are.
use heapster.Common.{ℕ, ◌+◌, ◌-◌, ◌%◌, ◌==◌, ◌<◌, ◌≤◌, false, ◌≡◌, ◌∙◌, ap, arith}
use heapster.Common.Time.{Time}
use heapster.Events.Manager.{time_to_next_sync}
use heapster.Manager.Rounds.{truncate_mod}
use native.Mathlib.Nat.{add-mod_right}

-- The wait before a round is not zero and not longer than the frequency, and ends at a time that is a
-- multiple of it. The frequency is not zero.
pub events_time_to_next_sync_lem :
    (frequency : ℕ) (now : Time)
    → 0 < frequency
    → let wait = time_to_next_sync frequency now in
      (0 < wait) × (wait ≤ frequency) × ((now + wait) % frequency ≡ 0)
unfolding time_to_next_sync
events_time_to_next_sync_lem frequency now h =
    let off : (frequency == 0) ≡ false = ground arith in
    let small : now % frequency < frequency = omega arith in
    let le : now % frequency ≤ now = omega arith in
    let wait = now - now % frequency + frequency - now in
    let same : now + wait ≡ now - now % frequency + frequency = omega (arith, small, le) in
    rw off (
      omega (arith, small, le),
      omega (arith, small, le),
      ap (λ t. t % frequency) same
          ∙ (add-mod_right (now - now % frequency) frequency ∙ truncate_mod now frequency),
    )
