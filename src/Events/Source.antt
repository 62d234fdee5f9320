-- ===== src/Events/Source.antt =====
-- events/sources/kubernetes/kubernetes_source.go: a goroutine watches the events of Kubernetes and puts
-- them into a buffer, which `GetNewEvents` empties. The two run at once, one action at a time.
pub mod Conserved
use heapster.Common.{
  ℕ, List, [], ◌∷◌, ◌++◌, Option, none, some, Bool, true, false, not, ◌&&◌, if◌then◌else◌, length,
  ltb,
}
use heapster.Common.Dict.{value_or}

abbrev pub local_events_buffer_size : ℕ
local_events_buffer_size = 100000

pub data EventType : Type 0 where
  added modified deleted error_type other_type : EventType

-- What a watch sends: an event, or an object of another type.
pub record WatchUpdate (Event : Type 0) : Type 0 where
  pub update_type : EventType
  pub event_object : Option Event

-- Where `watch` stands: in its outer loop, in its inner loop, or returned.
pub data Phase : Type 0 where
  connecting watching stopped : Phase

-- The source. `collected` is the result of a `GetNewEvents` that is under way.
pub record KubernetesEventSource (Event : Type 0) : Type 0 where
  pub local_events_buffer : List Event
  pub phase : Phase
  pub collected : Option (List Event)

-- An action of `watch`, as what it receives: the watch is started or not, an update comes, the
-- channel is closed, the source is stopped. And one of `GetNewEvents`: it is called, or goes round its
-- loop once.
pub data Action (Event : Type 0) : Type 0 where
  connect : Bool → Action Event
  update : WatchUpdate Event → Action Event
  closed stop_watch get_new_events collect : Action Event

abbrev pub is_new : EventType → Bool
is_new added = true
is_new modified = true
is_new _ = false

abbrev pub is_error : EventType → Bool
is_error error_type = true
is_error _ = false

abbrev pub is_watching : Phase → Bool
is_watching watching = true
is_watching _ = false

abbrev pub is_connecting : Phase → Bool
is_connecting connecting = true
is_connecting _ = false

module _ {Event : Type 0} where
  unfoldable pub new_source : KubernetesEventSource Event
  new_source = record { local_events_buffer = []; phase = connecting; collected = none }

  -- The events that an update brings, if the buffer has room.
  abbrev pub brought : WatchUpdate Event → List Event
  brought u = elim u.event_object [
    | none ↦ []
    | some event ↦ if is_new u.update_type then event ∷ [] else []
  ]

  -- What the source takes of an update: an event is dropped where the buffer is full.
  unfoldable pub accepted : WatchUpdate Event → List Event → List Event
  accepted u buffer =
      if not (is_error u.update_type) && ltb (length buffer) local_events_buffer_size
      then brought u
      else []

  -- The body of the inner loop of `watch`, for an update.
  unfoldable pub receive :
      WatchUpdate Event → KubernetesEventSource Event → KubernetesEventSource Event
  receive u s = record s {
    local_events_buffer = s.local_events_buffer ++ accepted u s.local_events_buffer;
    phase = if is_error u.update_type then connecting else s.phase;
  }

  -- The events that a round of the loop of `GetNewEvents` takes over, and what it leaves.
  abbrev pub collect_one : Option (List Event) → List Event → Option (List Event) × List Event
  collect_one none buffer = (none, buffer)
  collect_one (some result) [] = (none, [])
  collect_one (some result) (event ∷ buffer) = (some (result ++ event ∷ []), buffer)

  -- The batch that `GetNewEvents` returns, where the round finds the buffer empty.
  abbrev pub returned_by : Option (List Event) → List Event → List Event
  returned_by (some result) [] = result
  returned_by _ _ = []

  abbrev pub collect_round : KubernetesEventSource Event → KubernetesEventSource Event
  collect_round s = record s {
    collected = (collect_one s.collected s.local_events_buffer).0;
    local_events_buffer = (collect_one s.collected s.local_events_buffer).1;
  }

  -- The source after an action. An action that the code cannot do where it stands
  -- changes nothing; the manager makes no call of `GetNewEvents` while another is under way.
  unfoldable pub act : Action Event → KubernetesEventSource Event → KubernetesEventSource Event
  act (connect started) s =
      if started && is_connecting s.phase then record s { phase = watching } else s
  act (update u) s = if is_watching s.phase then receive u s else s
  act closed s = if is_watching s.phase then record s { phase = connecting } else s
  act stop_watch s = if is_watching s.phase then record s { phase = stopped } else s
  act get_new_events s = record s { collected = some (value_or [] s.collected) }
  act collect s = collect_round s

  -- The events that an action returns to the caller.
  unfoldable pub given_out : Action Event → KubernetesEventSource Event → List Event
  given_out collect s = returned_by s.collected s.local_events_buffer
  given_out _ s = []

  -- A run of actions: the source, and the events given out in turn.
  unfoldable pub act_all :
      List (Action Event) → KubernetesEventSource Event → KubernetesEventSource Event
  act_all [] s = s
  act_all (a ∷ rest) s = act_all rest (act a s)

  unfoldable pub all_given_out : List (Action Event) → KubernetesEventSource Event → List Event
  all_given_out [] s = []
  all_given_out (a ∷ rest) s = given_out a s ++ all_given_out rest (act a s)
