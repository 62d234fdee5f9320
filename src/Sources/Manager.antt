-- ===== src/Sources/Manager.antt =====
-- metrics/sources/manager.go: the sources are scraped at once, and their answers put together as they
-- come, until the time is out. The latencies are only logged, and are left out.
pub mod Responses
pub mod Arrivals
use heapster.Common.{
  ℕ, zero, suc, ◌+◌, String, List, [], ◌∷◌, Option, none, some, Bool, not, if◌then◌else◌,
}
use heapster.Common.Bags.{take_out}
use heapster.Common.Dict.{Dict, insert_all}
use heapster.Common.Result.{Result, ok, error}
use heapster.Common.Time.{Time, before}
use heapster.Core.Values.{MetricSet, DataBatch}

-- What a source's `ScrapeMetrics` returns in its goroutine, where no batch stands for nil, and when.
pub record Answer : Type 0 where
  pub scraped : Result (Option DataBatch)
  pub now : Time

-- One turn of `responseloop`: the time that it reads, and what its `select` then does.
pub data Choice : Type 0 where
  from_source : ℕ → Choice
  time_out : Choice

pub record Turn : Type 0 where
  pub now : Time
  pub choice : Choice

-- What the goroutine of a source tries to send, if it comes so far.
unfoldable pub response_of : Time → Answer → Option (Option DataBatch)
response_of timeout_time a = elim a.scraped [
  | error e ↦ none
  | ok batch ↦ if not (before a.now timeout_time) then none else some batch
]

abbrev pub add_response : Option DataBatch → Dict MetricSet → Dict MetricSet
add_response none sets = sets
add_response (some batch) sets = insert_all batch.metric_sets sets

-- The answer that a `select` receives, and the goroutines that have yet to send. Where the goroutine
-- has nothing to send, the `select` can only time out.
unfoldable pub received : Time → Choice → List Answer → Option (Option DataBatch × List Answer)
received timeout_time time_out pending = none
received timeout_time (from_source k) pending = elim (take_out k pending) [
  | none ↦ none
  | some (a, rest) ↦ elim (response_of timeout_time a) [
    | none ↦ none
    | some batch ↦ some (batch, rest)
  ]
]

-- `responseloop`, which has at most one turn for each source.
unfoldable pub response_loop : Time → List Turn → List Answer → Dict MetricSet → Dict MetricSet
response_loop timeout_time [] pending sets = sets
response_loop timeout_time (t ∷ turns) pending sets =
    if not (before t.now timeout_time)
    then sets
    else elim (received timeout_time t.choice pending) [
      | none ↦ sets
      | some (batch, rest) ↦ response_loop timeout_time turns rest (add_response batch sets)
    ]

-- `sourceManager.ScrapeMetrics`, which never fails.
unfoldable pub manager_scrape_metrics : ℕ → Time → Time → List Turn → List Answer → DataBatch
manager_scrape_metrics metrics_scrape_timeout start_time end turns answers = record {
  timestamp = end;
  metric_sets = response_loop (start_time + metrics_scrape_timeout) turns answers [];
}
