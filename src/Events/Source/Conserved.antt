-- ===== src/Events/Source/Conserved.antt =====
-- events/sources/kubernetes/kubernetes_source.go: the events' way through the buffer.
use heapster.Common.{
  Bool, true, false, ltb, if◌then◌else◌, ℕ, zero, suc, ◌+◌, ◌≤◌, List, [], ◌∷◌, ◌++◌, Option, none,
  some, Bool-cases, ◌&&◌, inl, inr, ◌≡◌, refl, sym, ap, ◌∙◌, arith, length, length-append,
}
use mathlib.Core.List.{append_assoc, append-nil}
use heapster.Common.Dict.{value_or}
use heapster.Events.Source.{
  local_events_buffer_size, Phase, WatchUpdate, KubernetesEventSource, Action, connect, update,
  closed, stop_watch, get_new_events, collect, is_watching, is_connecting, accepted, receive,
  EventType, added, modified, deleted, error_type, other_type, connecting, watching, stopped,
  collect_one, returned_by, act, given_out, act_all, all_given_out,
}

module _ {Event : Type 0} where
  -- The events on their way: those of the result under way, and those of the buffer.
  abbrev pub on_the_way : KubernetesEventSource Event → List Event
  on_the_way s = value_or [] s.collected ++ s.local_events_buffer

  collect_one_lem :
      (o : Option (List Event)) (buffer : List Event)
      → value_or [] o ++ buffer
        ≡ returned_by o buffer ++ (value_or [] (collect_one o buffer).0 ++ (collect_one o buffer).1)
  collect_one_lem none buffer = refl
  collect_one_lem (some result) [] = refl
  collect_one_lem (some result) (e ∷ buffer) = sym (append_assoc result (e ∷ []) buffer)

  -- The events that the watch brings with an action: while it watches, the object of an update that
  -- adds or modifies one, if that object is an event.
  abbrev pub object_of : EventType → Option Event → List Event
  object_of added (some event) = event ∷ []
  object_of modified (some event) = event ∷ []
  object_of _ _ = []

  abbrev pub while_watching : Phase → List Event → List Event
  while_watching watching events = events
  while_watching _ events = []

  abbrev pub arriving : Action Event → KubernetesEventSource Event → List Event
  arriving (update u) s = while_watching s.phase (object_of u.update_type u.event_object)
  arriving _ s = []

  -- Those that find room: the buffer has room for 100000 events.
  abbrev pub finding_room : Action Event → KubernetesEventSource Event → List Event
  finding_room a s = if ltb (length s.local_events_buffer) 100000 then arriving a s else []

  abbrev pub all_finding_room : List (Action Event) → KubernetesEventSource Event → List Event
  all_finding_room [] s = []
  all_finding_room (a ∷ rest) s = finding_room a s ++ all_finding_room rest (act a s)

  accepted-object_of :
      (t : EventType) (o : Option Event) (buffer : List Event)
      → accepted (record { update_type = t; event_object = o }) buffer
        ≡ (if ltb (length buffer) 100000 then object_of t o else [])
  unfolding accepted
  accepted-object_of added none buffer = ground arith
  accepted-object_of added (some event) buffer = ground arith
  accepted-object_of modified none buffer = ground arith
  accepted-object_of modified (some event) buffer = ground arith
  accepted-object_of deleted none buffer = ground arith
  accepted-object_of deleted (some event) buffer = ground arith
  accepted-object_of error_type o buffer = ground arith
  accepted-object_of other_type none buffer = ground arith
  accepted-object_of other_type (some event) buffer = ground arith

  while_watching_lem :
      (phase : Phase) (b : Bool) (events : List Event)
      → (if b then while_watching phase events else [])
        ≡ (if is_watching phase then (if b then events else []) else [])
  while_watching_lem connecting b events = ground arith
  while_watching_lem watching b events = refl
  while_watching_lem stopped b events = ground arith

  finding_room-other : (b : Bool) (events : List Event) → events ++ (if b then [] else []) ≡ events
  finding_room-other true events = append-nil events
  finding_room-other false events = append-nil events

  act_lem :
      (a : Action Event) (s : KubernetesEventSource Event)
      → on_the_way s ++ finding_room a s ≡ given_out a s ++ on_the_way (act a s)
  unfolding act given_out receive
  act_lem (connect started) s =
      let same = finding_room-other (ltb (length s.local_events_buffer) 100000) (on_the_way s) in
      elim (Bool-cases (started && is_connecting s.phase)) [ inl q ↦ rw q same | inr q ↦ rw q same ]
  act_lem (update u) s =
      let room = ltb (length s.local_events_buffer) 100000 in
      let object = object_of u.update_type u.event_object in
      let same = accepted-object_of u.update_type u.event_object s.local_events_buffer in
      rw (while_watching_lem s.phase room object) (elim (Bool-cases (is_watching s.phase)) [
        | inl q ↦
            rw (q, ← same)
              (append_assoc (value_or [] s.collected) s.local_events_buffer
                (accepted u s.local_events_buffer))
        | inr q ↦ rw q (append-nil (on_the_way s))
      ])
  act_lem closed s =
      let same = finding_room-other (ltb (length s.local_events_buffer) 100000) (on_the_way s) in
      elim (Bool-cases (is_watching s.phase)) [ inl q ↦ rw q same | inr q ↦ rw q same ]
  act_lem stop_watch s =
      let same = finding_room-other (ltb (length s.local_events_buffer) 100000) (on_the_way s) in
      elim (Bool-cases (is_watching s.phase)) [ inl q ↦ rw q same | inr q ↦ rw q same ]
  act_lem get_new_events s =
      finding_room-other (ltb (length s.local_events_buffer) 100000) (on_the_way s)
  act_lem collect s =
      finding_room-other (ltb (length s.local_events_buffer) 100000) (on_the_way s)
      ∙ collect_one_lem s.collected s.local_events_buffer

  -- Through any run, however the watch and `GetNewEvents` take turns, the events that were on their
  -- way and those that the watch brought while the buffer held fewer than 100000 are, in this order,
  -- the events given out and those still on their way. The watch brings an event with every update
  -- that adds or modifies one; only those that come while the buffer is full are dropped, and no
  -- other is lost, doubled or overtaken.
  pub act_all_lem :
      (actions : List (Action Event)) (s : KubernetesEventSource Event)
      → on_the_way s ++ all_finding_room actions s
        ≡ all_given_out actions s ++ on_the_way (act_all actions s)
  unfolding act_all all_given_out
  act_all_lem [] s = append-nil (on_the_way s)
  act_all_lem (a ∷ rest) s =
      sym (append_assoc (on_the_way s) (finding_room a s) (all_finding_room rest (act a s)))
      ∙ ap (λ es. es ++ all_finding_room rest (act a s)) (act_lem a s)
      ∙ append_assoc (given_out a s) (on_the_way (act a s)) (all_finding_room rest (act a s))
      ∙ ap (λ es. given_out a s ++ es) (act_all_lem rest (act a s))
      ∙ sym (
          append_assoc (given_out a s) (all_given_out rest (act a s))
            (on_the_way (act_all rest (act a s))))

  length-accepted :
      (u : WatchUpdate Event) (buffer : List Event)
      → length buffer ≤ local_events_buffer_size
      → length buffer + length (accepted u buffer) ≤ local_events_buffer_size
  unfolding accepted
  length-accepted u buffer h = ground (arith, h)

  length-collect_one :
      (o : Option (List Event)) (buffer : List Event)
      → length (collect_one o buffer).1 ≤ length buffer
  length-collect_one none buffer = omega arith
  length-collect_one (some result) [] = omega arith
  length-collect_one (some result) (e ∷ buffer) = omega arith

  act-Bounded :
      (a : Action Event) (s : KubernetesEventSource Event)
      → length s.local_events_buffer ≤ local_events_buffer_size
      → length (act a s).local_events_buffer ≤ local_events_buffer_size
  unfolding act receive
  act-Bounded (connect started) s h = ground (arith, h)
  act-Bounded (update u) s h = ground (
    arith,
    h,
    length-accepted u s.local_events_buffer h,
    length-append s.local_events_buffer (accepted u s.local_events_buffer),
  )
  act-Bounded closed s h = ground (arith, h)
  act-Bounded stop_watch s h = ground (arith, h)
  act-Bounded get_new_events s h = h
  act-Bounded collect s h = omega (arith, h, length-collect_one s.collected s.local_events_buffer)

  -- Through any run, the buffer never gets more events than its size.
  pub act_all-Bounded :
      (actions : List (Action Event)) (s : KubernetesEventSource Event)
      → length s.local_events_buffer ≤ local_events_buffer_size
      → length (act_all actions s).local_events_buffer ≤ local_events_buffer_size
  unfolding act_all
  act_all-Bounded [] s h = h
  act_all-Bounded (a ∷ rest) s h = act_all-Bounded rest (act a s) (act-Bounded a s h)

  -- `n` rounds of the loop of `GetNewEvents`.
  abbrev pub rounds : ℕ → List (Action Event)
  rounds zero = []
  rounds (suc n) = collect ∷ rounds n

  -- The source in the middle of a call.
  abbrev half_way : Phase → List Event → List Event → KubernetesEventSource Event
  half_way phase buffer result = record {
    local_events_buffer = buffer;
    phase = phase;
    collected = some result;
  }

  collect_all :
      (phase : Phase) (buffer result : List Event)
      → (all_given_out (rounds (suc (length buffer))) (half_way phase buffer result)
          ≡ result ++ buffer)
        × (act_all (rounds (suc (length buffer))) (half_way phase buffer result)
            ≡ record { local_events_buffer = []; phase = phase; collected = none })
  unfolding all_given_out given_out act_all act
  collect_all phase [] result = (refl, refl)
  collect_all phase (e ∷ buffer) result =
      let (given, left) = collect_all phase buffer (result ++ e ∷ []) in
      (given ∙ append_assoc result (e ∷ []) buffer, left)

  -- A call of `GetNewEvents` that no update comes into ends after one round for each event of the
  -- buffer and one more: it returns them all in order, and leaves the buffer empty.
  pub get_new_events-returns :
      (s : KubernetesEventSource Event)
      → s.collected ≡ none
      → let call = get_new_events ∷ rounds (suc (length s.local_events_buffer)) in
        (all_given_out call s ≡ s.local_events_buffer)
        × (act_all call s ≡ record s { local_events_buffer = [] })
  unfolding all_given_out given_out act_all act
  get_new_events-returns s h =
      let (given, left) = collect_all s.phase s.local_events_buffer [] in (rw h given, rw h left)
