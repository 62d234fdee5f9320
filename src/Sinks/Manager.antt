-- ===== src/Sinks/Manager.antt =====
-- metrics/sinks/manager.go and events/sinks/manager.go: a batch is offered to every sink at once, and
-- a sink that is still exporting when the time is out goes without it. The two files differ in the
-- type of the batches only.
pub mod Deliveries
use heapster.Common.{
  ℕ, zero, suc, ◌+◌, List, [], ◌∷◌, ◌++◌, Option, none, some, Bool, if◌then◌else◌, map,
}
use heapster.Common.Bags.{take_out}

-- What the goroutine of a sink does: it waits in its `select`, exports, or has returned.
pub data SinkPhase : Type 0 where
  waiting exporting ended : SinkPhase

-- A sink with its goroutines: the batches that wait in `ExportData`, and the signals that wait in
-- `Stop`; and what became of the other batches, as a record of the past.
pub record SinkHolder (Batch : Type 0) : Type 0 where
  pub phase : SinkPhase
  pub offers : List Batch
  pub stop_signals : ℕ
  pub exported : List Batch
  pub dropped : List Batch

-- What happens at one sink: the `select`s of its goroutine, of `ExportData` and of `Stop`.
pub data SinkEvent : Type 0 where
  accept push_timeout : ℕ → SinkEvent
  export_returns accept_stop stop_timeout : SinkEvent

-- What happens at the manager: a call of its own operations, or an event at one of its sinks.
pub data ManagerEvent (Batch : Type 0) : Type 0 where
  export_call : Batch → ManagerEvent Batch
  stop_call : ManagerEvent Batch
  at_sink : ℕ → SinkEvent → ManagerEvent Batch

abbrev pub is_waiting : SinkPhase → Bool
is_waiting waiting = Bool.true
is_waiting _ = Bool.false

abbrev pub is_ended : SinkPhase → Bool
is_ended ended = Bool.true
is_ended _ = Bool.false

abbrev pub after_export : SinkPhase → SinkPhase
after_export exporting = waiting
after_export phase = phase

module _ {Batch : Type 0} where
  unfoldable pub new_sink_holder : SinkHolder Batch
  new_sink_holder = record {
    phase = waiting;
    offers = [];
    stop_signals = 0;
    exported = [];
    dropped = [];
  }

  abbrev pub take_offer : Option (Batch × List Batch) → SinkHolder Batch → SinkHolder Batch
  take_offer none h = h
  take_offer (some (data_batch, others)) h = record h {
    phase = exporting;
    offers = others;
    exported = h.exported ++ data_batch ∷ [];
  }

  abbrev pub drop_offer : Option (Batch × List Batch) → SinkHolder Batch → SinkHolder Batch
  drop_offer none h = h
  drop_offer (some (data_batch, others)) h = record h {
    offers = others;
    dropped = h.dropped ++ data_batch ∷ [];
  }

  abbrev pub take_stop : ℕ → SinkHolder Batch → SinkHolder Batch
  take_stop zero h = h
  take_stop (suc n) h = record h { phase = ended; stop_signals = n }

  abbrev pub drop_stop : ℕ → SinkHolder Batch → SinkHolder Batch
  drop_stop zero h = h
  drop_stop (suc n) h = record h { stop_signals = n }

  -- A sink after an event. An event that cannot happen where the sink stands changes nothing.
  unfoldable pub sink_event : SinkEvent → SinkHolder Batch → SinkHolder Batch
  sink_event (accept k) h = if is_waiting h.phase then take_offer (take_out k h.offers) h else h
  sink_event (push_timeout k) h = drop_offer (take_out k h.offers) h
  sink_event export_returns h = record h { phase = after_export h.phase }
  sink_event accept_stop h = if is_waiting h.phase then take_stop h.stop_signals h else h
  sink_event stop_timeout h = drop_stop h.stop_signals h

  unfoldable pub offer : Batch → SinkHolder Batch → SinkHolder Batch
  offer data_batch h = record h { offers = h.offers ++ data_batch ∷ [] }

  unfoldable pub signal_stop : SinkHolder Batch → SinkHolder Batch
  signal_stop h = record h { stop_signals = h.stop_signals + 1 }

  unfoldable pub at_position :
      ℕ → (SinkHolder Batch → SinkHolder Batch) → List (SinkHolder Batch) → List (SinkHolder Batch)
  at_position k change [] = []
  at_position zero change (h ∷ holders) = change h ∷ holders
  at_position (suc k) change (h ∷ holders) = h ∷ at_position k change holders

  -- `ExportData` and `Stop` begin by a goroutine for each sink.
  unfoldable pub manager_event :
      ManagerEvent Batch → List (SinkHolder Batch) → List (SinkHolder Batch)
  manager_event (export_call data_batch) holders = map (offer data_batch) holders
  manager_event stop_call holders = map signal_stop holders
  manager_event (at_sink k e) holders = at_position k (sink_event e) holders

  unfoldable pub manager_events :
      List (ManagerEvent Batch) → List (SinkHolder Batch) → List (SinkHolder Batch)
  manager_events [] holders = holders
  manager_events (e ∷ events) holders = manager_events events (manager_event e holders)

  -- The batches that `ExportData` was called with.
  unfoldable pub batches_of : List (ManagerEvent Batch) → List Batch
  batches_of [] = []
  batches_of (export_call data_batch ∷ events) = data_batch ∷ batches_of events
  batches_of (stop_call ∷ events) = batches_of events
  batches_of (at_sink k e ∷ events) = batches_of events
