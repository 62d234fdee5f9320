-- ===== src/Manager/Rounds.antt =====
-- metrics/manager/manager.go: the rounds that run at once, over every interleaving of the loop's
-- calls of `housekeep` and of the ends of goroutines.
use heapster.Common.{
  ℕ, ◌+◌, ◌-◌, ◌*◌, ◌%◌, ◌/◌, ◌==◌, ◌≤◌, ◌<◌, List, [], ◌∷◌, ◌++◌, length, length-append, ◌≡◌, refl,
  arith, ap, false, All,
}
use native.Mathlib.Nat.{div-add-mod, mul_comm, mul-mod_left}
use heapster.Common.Time.{Time}
use heapster.Manager.{
  Round, Manager, Outcome, new_manager, window, time_to_next_sync, housekeep, finish, stop,
}

pub data Step : Manager → Manager → Type 0 where
  tick : (m : Manager) (o : Outcome) (r : Round) → m.stopped ≡ false → Step m (housekeep o r m)
  halt : (m : Manager) → m.stopped ≡ false → Step m (stop m)
  done :
      (m : Manager) (xs : List Round) (r : Round) (ys : List Round)
      → m.running ≡ xs ++ r ∷ ys
      → Step m (finish xs ys m)

-- The states that a manager passes through.
pub data Reach (first : Manager) : Manager → Type 0 where
  at_start : Reach first first
  step_from : {m n : Manager} → Reach first m → Step m n → Reach first n

-- The tokens and the goroutines that hold one make up the channel's capacity.
pub record IsBalanced (capacity : ℕ) (m : Manager) : Type 0 where
  pub conserved : m.tokens + length m.running ≡ capacity
  pub proper : All (λ r. r.start < r.end_time) m.running

housekeep-IsBalanced :
    (capacity : ℕ) (m : Manager) (o : Outcome) (r : Round)
    → IsBalanced capacity m
    → IsBalanced capacity (housekeep o r m)
unfolding housekeep
housekeep-IsBalanced capacity m o r h = record {
  conserved = ground (arith, h.conserved);
  proper = ground (arith, h.proper);
}

All-split :
    (xs : List Round) (r : Round) (ys : List Round)
    → All (λ r. r.start < r.end_time) (xs ++ r ∷ ys)
    → All (λ r. r.start < r.end_time) (xs ++ ys)
All-split [] r ys h = h.1
All-split (x ∷ xs) r ys h = (h.0, All-split xs r ys h.1)

finish-IsBalanced :
    (capacity : ℕ) (m : Manager) (xs : List Round) (r : Round) (ys : List Round)
    → m.running ≡ xs ++ r ∷ ys
    → IsBalanced capacity m
    → IsBalanced capacity (finish xs ys m)
unfolding finish
finish-IsBalanced capacity m xs r ys e h = record {
  conserved =
      omega (arith, h.conserved, ap length e, length-append xs (r ∷ ys), length-append xs ys);
  proper = All-split xs r ys (rw e at h.proper);
}

Step-IsBalanced :
    (capacity : ℕ) {m n : Manager} → Step m n → IsBalanced capacity m → IsBalanced capacity n
unfolding stop
Step-IsBalanced capacity (halt m _) h = record { conserved = h.conserved; proper = h.proper }
Step-IsBalanced capacity (tick m o r _) h = housekeep-IsBalanced capacity m o r h
Step-IsBalanced capacity (done m xs r ys e) h = finish-IsBalanced capacity m xs r ys e h

Reach-IsBalanced :
    (capacity : ℕ) {s m : Manager} → Reach s m → IsBalanced capacity s → IsBalanced capacity m
Reach-IsBalanced capacity at_start h = h
Reach-IsBalanced capacity (step_from r st) h =
    Step-IsBalanced capacity st (Reach-IsBalanced capacity r h)

-- Whatever the order in which rounds begin, time out and end, a new manager's semaphore never loses
-- or gains a token: with the goroutines at work they are `maxParallelism`, so that no more than
-- this many rounds run at once, each on a window that ends after it starts.
pub new_manager-IsBalanced :
    (resolution offset capacity : ℕ) {m : Manager}
    → Reach (new_manager resolution offset capacity) m
    → IsBalanced capacity m × (length m.running ≤ capacity)
unfolding new_manager
new_manager-IsBalanced resolution offset capacity r =
    let h = Reach-IsBalanced capacity r (record { conserved = omega arith; proper = tt }) in
    (h, omega (arith, h.conserved))

mul_mod_self : (r k : ℕ) → r * k % r ≡ 0
mul_mod_self r k = rw (mul_comm r k) (mul-mod_left k r)

pub truncate_mod : (now r : ℕ) → (now - now % r) % r ≡ 0
truncate_mod now r =
    let e : now - now % r ≡ r * (now / r) = omega (arith, div-add-mod now r) in
    rw e (mul_mod_self r (now / r))

-- For a resolution that is not 0, the window holds the current time, begins at a multiple of the
-- resolution and has its length; the wait reaches to the offset after its end, and is longer than
-- the offset.
pub window_lem :
    (m : Manager) (now : Time)
    → 0 < m.resolution
    → let w = window m now in
      (w.start ≤ now)
      × (now < w.end_time)
      × (w.start % m.resolution ≡ 0)
      × (w.end_time ≡ w.start + m.resolution)
      × (now + time_to_next_sync m now ≡ w.end_time + m.scrape_offset)
      × (m.scrape_offset < time_to_next_sync m now)
unfolding window time_to_next_sync
window_lem m now h =
    let r = m.resolution in
    let off : (r == 0) ≡ false = ground arith in
    let small : now % r < r = omega arith in
    let le : now % r ≤ now = omega arith in
    rw off (omega arith, omega arith, truncate_mod now r, refl, omega arith, omega arith)
