-- ===== src/Tests/Events.antt =====
-- events and the sink managers on concrete runs, with texts for events and batches.
use heapster.Common.{
  suc, String, List, [], ◌∷◌, ◌++◌, none, some, true, Bool, ◌≡◌, refl, length, str_eq,
}
use heapster.Common.Bags.{count}
use heapster.Events.Source.{
  KubernetesEventSource, Action, connect, update, get_new_events, collect, added, modified, deleted,
  new_source, act_all, all_given_out, act, given_out, receive, accepted, watching,
}
use heapster.Events.Source.Conserved.{
  on_the_way, all_finding_room, act_all_lem, rounds, get_new_events-returns,
}
use heapster.Sinks.Manager.{
  SinkHolder, ManagerEvent, export_call, stop_call, at_sink, accept, push_timeout, export_returns,
  accept_stop, manager_events, batches_of, new_sink_holder,
}
use heapster.Sinks.Manager.Deliveries.{
  AllKnow, AllStopped, manager_events-AllKnow, manager_events-AllStopped,
}

-- An event is modified while the buffer is emptied, and another is deleted.
abbrev actions : List (Action String)
actions =
    connect true
    ∷ update (record { update_type = added; event_object = some "a" })
    ∷ get_new_events
    ∷ collect
    ∷ update (record { update_type = modified; event_object = some "b" })
    ∷ update (record { update_type = deleted; event_object = some "c" })
    ∷ collect
    ∷ collect
    ∷ []

act_all_lem_example :
    on_the_way new_source ++ all_finding_room actions new_source
    ≡ all_given_out actions new_source ++ on_the_way (act_all actions new_source)
act_all_lem_example = act_all_lem actions new_source

both_given_out : all_given_out actions new_source ≡ "a" ∷ "b" ∷ []
unfolding all_given_out act given_out receive accepted new_source
both_given_out = refl

abbrev waiting_source : KubernetesEventSource String
waiting_source = record { local_events_buffer = "a" ∷ "b" ∷ []; phase = watching; collected = none }

get_new_events-returns_example :
    let call = get_new_events ∷ rounds (suc (length waiting_source.local_events_buffer)) in
    (all_given_out call waiting_source ≡ waiting_source.local_events_buffer)
    × (act_all call waiting_source ≡ record waiting_source { local_events_buffer = [] })
get_new_events-returns_example = get_new_events-returns waiting_source refl

abbrev sinks : List (SinkHolder String)
sinks = new_sink_holder ∷ new_sink_holder ∷ []

-- The first sink takes a batch and misses the next; the second is stopped.
abbrev sink_events : List (ManagerEvent String)
sink_events =
    export_call "x"
    ∷ at_sink 0 (accept 0)
    ∷ export_call "y"
    ∷ at_sink 0 (push_timeout 0)
    ∷ at_sink 0 export_returns
    ∷ stop_call
    ∷ at_sink 1 accept_stop
    ∷ export_call "z"
    ∷ []

abbrev is_y : String → Bool
is_y b = str_eq b "y"

manager_events-AllKnow_example :
    AllKnow is_y (count is_y (batches_of sink_events)) (manager_events sink_events sinks)
manager_events-AllKnow_example = manager_events-AllKnow is_y sink_events sinks (refl, (refl, tt))

abbrev stopped_sinks : List (SinkHolder String)
stopped_sinks = manager_events sink_events sinks

manager_events-AllStopped_example :
    AllStopped stopped_sinks (manager_events (at_sink 1 (accept 0) ∷ []) stopped_sinks)
manager_events-AllStopped_example =
    manager_events-AllStopped (at_sink 1 (accept 0) ∷ []) stopped_sinks
