-- ===== src/Manager.antt =====
-- metrics/manager/manager.go: every resolution the manager scrapes the sources, runs the processors
-- and exports the batch. At most `maxParallelism` of these rounds run at once.
pub mod Rounds
pub mod Pipeline
use heapster.Common.{
  ℕ, zero, suc, ◌+◌, ◌-◌, ◌/◌, ◌%◌, List, [], ◌∷◌, Option, none, some, Bool, not, if◌then◌else◌,
  ◌==◌, ◌++◌,
}
use heapster.Common.Result.{Result, ok, error}
use heapster.Common.Time.{Time, before}
use heapster.Core.Values.{DataBatch}

-- The round that a goroutine works on: the window that it scrapes.
pub record Round : Type 0 where
  pub start : Time
  pub end_time : Time

-- The manager: the tokens in `housekeepSemaphoreChan`, and the goroutines that hold one.
pub record Manager : Type 0 where
  pub resolution : ℕ
  pub scrape_offset : ℕ
  pub housekeep_timeout : ℕ
  pub tokens : ℕ
  pub running : List Round
  pub stopped : Bool

unfoldable pub new_manager : ℕ → ℕ → ℕ → Manager
new_manager resolution scrape_offset max_parallelism = record {
  resolution = resolution;
  scrape_offset = scrape_offset;
  housekeep_timeout = resolution / 2;
  tokens = max_parallelism;
  running = [];
  stopped = Bool.false;
}

-- `Housekeep`: the window that holds the current time. `Truncate` counts from the zero time, and
-- leaves the time as it is for a resolution of 0.
unfoldable pub window : Manager → Time → Round
window m now =
    let start = if m.resolution == 0 then now else now - now % m.resolution in
    record { start = start; end_time = start + m.resolution }

-- `timeToNextSync`, which is not negative.
unfoldable pub time_to_next_sync : Manager → Time → ℕ
unfolding window
time_to_next_sync m now = (window m now).end_time + m.scrape_offset - now

-- What the `select` of `housekeep` can do: a token is taken, or the wait times out.
pub data Outcome : Type 0 where
  token timeout : Outcome

take_token : ℕ → Round → Manager → Manager
take_token zero r m = m
take_token (suc n) r m = record m { tokens = n; running = r ∷ m.running }

-- `housekeep`: the state when it returns. Where no token is there, only the timeout can happen.
unfoldable pub housekeep : Outcome → Round → Manager → Manager
unfolding take_token
housekeep o r m =
    if not (before r.start r.end_time)
    then m
    else elim o [ token ↦ take_token m.tokens r m | timeout ↦ m ]

-- A goroutine ends, whatever became of its round: the deferred function gives the token back.
unfoldable pub finish : List Round → List Round → Manager → Manager
finish before_it after_it m = record m { tokens = m.tokens + 1; running = before_it ++ after_it }

-- `Stop`, received by the loop: it ends, and begins no round any more.
unfoldable pub stop : Manager → Manager
stop m = record m { stopped = Bool.true }

-- The processors in turn; the first error ends the round.
unfoldable pub run_processors : List (DataBatch → Result DataBatch) → DataBatch → Result DataBatch
run_processors [] data_batch = ok data_batch
run_processors (p ∷ ps) data_batch = elim (p data_batch) [
  | ok next ↦ run_processors ps next
  | error e ↦ error e
]

exported : Result DataBatch → Option DataBatch
exported (ok b) = some b
exported (error e) = none

after_scrape : List (DataBatch → Result DataBatch) → Result DataBatch → Option DataBatch
after_scrape ps (error e) = none
after_scrape ps (ok b) = exported (run_processors ps b)

-- The body of the goroutine: the batch that it hands to the sink, if it comes so far.
unfoldable pub run_round : Result DataBatch → List (DataBatch → Result DataBatch) → Option DataBatch
unfolding after_scrape exported
run_round scraped ps = after_scrape ps scraped
