-- ===== src/Sinks/Manager/Deliveries.antt =====
-- metrics/sinks/manager.go and events/sinks/manager.go: what becomes of the batches.
use heapster.Common.{
  ℕ, zero, suc, ◌+◌, List, [], ◌∷◌, Option, none, some, Option-cases, Bool, Bool-cases, inl, inr,
  ◌≡◌, refl, subst, ◌∙◌, arith, All, map,
}
use heapster.Common.Bags.{take_out, count, count-append, count-take_out}
use heapster.Sinks.Manager.{
  SinkHolder, ended, SinkEvent, accept, push_timeout, export_returns, accept_stop, stop_timeout,
  ManagerEvent, export_call, stop_call, at_sink, is_waiting, drop_offer, take_stop, drop_stop,
  sink_event, offer, signal_stop, at_position, manager_event, manager_events, batches_of,
  new_sink_holder,
}

module _ {Batch : Type 0} (p : Batch → Bool) where
  -- Of the batches that pass the test, those known of at a sink.
  abbrev pub known : SinkHolder Batch → ℕ
  known h = count p h.exported + count p h.dropped + count p h.offers

  known-sink_event : (e : SinkEvent) (h : SinkHolder Batch) → known (sink_event e h) ≡ known h
  unfolding sink_event
  known-sink_event (accept k) h = elim (Bool-cases (is_waiting h.phase)) [
    | inr q ↦ rw q refl
    | inl q ↦ elim (Option-cases (take_out k h.offers)) [
      | inl e ↦ rw (q, e) refl
      | inr ((b, rest), e) ↦
          rw (q, e)
            (omega (arith, count-append p h.exported (b ∷ []), count-take_out p k h.offers e))
    ]
  ]
  known-sink_event (push_timeout k) h = elim (Option-cases (take_out k h.offers)) [
    | inl e ↦ rw e refl
    | inr ((b, rest), e) ↦
        rw e (omega (arith, count-append p h.dropped (b ∷ []), count-take_out p k h.offers e))
  ]
  known-sink_event export_returns h = refl
  known-sink_event accept_stop h = elim (Bool-cases (is_waiting h.phase)) [
    | inr q ↦ rw q refl
    | inl q ↦ rw q (known-take_stop h.stop_signals h)
  ]
    where
      known-take_stop : (n : ℕ) (h : SinkHolder Batch) → known (take_stop n h) ≡ known h
      known-take_stop zero h = refl
      known-take_stop (suc n) h = refl
  known-sink_event stop_timeout h = known-drop_stop h.stop_signals h
    where
      known-drop_stop : (n : ℕ) (h : SinkHolder Batch) → known (drop_stop n h) ≡ known h
      known-drop_stop zero h = refl
      known-drop_stop (suc n) h = refl

  -- Every sink knows of so many batches.
  abbrev pub AllKnow : ℕ → List (SinkHolder Batch) → Type 0
  AllKnow n = All (λ h. known h ≡ n)

  AllKnow-at_position :
      (n k : ℕ) (e : SinkEvent) (holders : List (SinkHolder Batch))
      → AllKnow n holders
      → AllKnow n (at_position k (sink_event e) holders)
  unfolding at_position
  AllKnow-at_position n k e [] a = tt
  AllKnow-at_position n zero e (h ∷ holders) a = (known-sink_event e h ∙ a.0, a.1)
  AllKnow-at_position n (suc k) e (h ∷ holders) a = (a.0, AllKnow-at_position n k e holders a.1)

  AllKnow-offer :
      (n : ℕ) (b : Batch) (holders : List (SinkHolder Batch))
      → AllKnow n holders
      → AllKnow (n + count p (b ∷ [])) (map (offer b) holders)
  unfolding offer
  AllKnow-offer n b [] a = tt
  AllKnow-offer n b (h ∷ holders) a =
      (omega (arith, a.0, count-append p h.offers (b ∷ [])), AllKnow-offer n b holders a.1)

  AllKnow-signal_stop :
      (n : ℕ) (holders : List (SinkHolder Batch))
      → AllKnow n holders
      → AllKnow n (map signal_stop holders)
  unfolding signal_stop
  AllKnow-signal_stop n [] a = tt
  AllKnow-signal_stop n (h ∷ holders) a = (a.0, AllKnow-signal_stop n holders a.1)

  AllKnow-from :
      (n : ℕ) (events : List (ManagerEvent Batch)) (holders : List (SinkHolder Batch))
      → AllKnow n holders
      → AllKnow (n + count p (batches_of events)) (manager_events events holders)
  unfolding manager_events manager_event batches_of
  AllKnow-from n [] holders a = subst (λ m. AllKnow m holders) (omega arith) a
  AllKnow-from n (export_call b ∷ events) holders a =
      subst (λ m. AllKnow m (manager_events events (map (offer b) holders)))
        (omega (arith, count-append p (b ∷ []) (batches_of events)))
        (AllKnow-from (n + count p (b ∷ [])) events (map (offer b) holders)
          (AllKnow-offer n b holders a))
  AllKnow-from n (stop_call ∷ events) holders a =
      AllKnow-from n events (map signal_stop holders) (AllKnow-signal_stop n holders a)
  AllKnow-from n (at_sink k e ∷ events) holders a =
      AllKnow-from n events (at_position k (sink_event e) holders)
        (AllKnow-at_position n k e holders a)

none_known :
    {Batch : Type 0} (p : Batch → Bool) (holders : List (SinkHolder Batch))
    → All (λ h. h ≡ new_sink_holder) holders
    → AllKnow p 0 holders
unfolding new_sink_holder
none_known p [] a = tt
none_known p (h ∷ holders) a = (rw a.0 refl, none_known p holders a.1)

-- Through any run of the manager, whatever the sinks do and in whatever order, every sink accounts for
-- every batch that `ExportData` was called with: of those that pass a test, it was given some, lost some
-- to the timeout, and has the others waiting, and it knows of no other batch.
pub manager_events-AllKnow :
    {Batch : Type 0} (p : Batch → Bool) (events : List (ManagerEvent Batch))
    (holders : List (SinkHolder Batch))
    → All (λ h. h ≡ new_sink_holder) holders
    → AllKnow p (count p (batches_of events)) (manager_events events holders)
manager_events-AllKnow p events holders a =
    subst (λ n. AllKnow p n (manager_events events holders)) (omega arith)
      (AllKnow-from p 0 events holders (none_known p holders a))

module _ {Batch : Type 0} where
  -- The sink has stopped, and was given these batches before.
  abbrev pub StoppedWith : List Batch → SinkHolder Batch → Type 0
  StoppedWith given h = (h.phase ≡ ended) × (h.exported ≡ given)

  StoppedWith-sink_event :
      (given : List Batch) (e : SinkEvent) (h : SinkHolder Batch)
      → StoppedWith given h
      → StoppedWith given (sink_event e h)
  unfolding sink_event
  StoppedWith-sink_event given (accept k) h (s, g) = rw s (refl, g)
  StoppedWith-sink_event given (push_timeout k) h (s, g) = dropped (take_out k h.offers)
    where
      dropped : (o : Option (Batch × List Batch)) → StoppedWith given (drop_offer o h)
      dropped none = (s, g)
      dropped (some b) = (s, g)
  StoppedWith-sink_event given export_returns h (s, g) = (rw s refl, g)
  StoppedWith-sink_event given accept_stop h (s, g) = rw s (refl, g)
  StoppedWith-sink_event given stop_timeout h (s, g) = dropped h.stop_signals
    where
      dropped : (n : ℕ) → StoppedWith given (drop_stop n h)
      dropped zero = (s, g)
      dropped (suc n) = (s, g)

  -- Pairwise: a sink that has stopped on the left has been given nothing more on the right.
  abbrev pub AllStopped : List (SinkHolder Batch) → List (SinkHolder Batch) → Type 0
  AllStopped [] [] = Unit
  AllStopped (h ∷ hs) (h' ∷ hs') = (h.phase ≡ ended → StoppedWith h.exported h') × AllStopped hs hs'
  AllStopped _ _ = ⊥

  AllStopped-map :
      (change : SinkHolder Batch → SinkHolder Batch) (hs hs' : List (SinkHolder Batch))
      → ((given : List Batch) (h : SinkHolder Batch)
          → StoppedWith given h
          → StoppedWith given (change h))
      → AllStopped hs hs'
      → AllStopped hs (map change hs')
  AllStopped-map change [] [] keep a = tt
  AllStopped-map change (h ∷ hs) (h' ∷ hs') keep a =
      (λ e. keep h.exported h' (a.0 e), AllStopped-map change hs hs' keep a.1)
  AllStopped-map change [] (h' ∷ hs') keep a = absurd a
  AllStopped-map change (h ∷ hs) [] keep a = absurd a

  AllStopped-at_position :
      (k : ℕ) (e : SinkEvent) (hs hs' : List (SinkHolder Batch))
      → AllStopped hs hs'
      → AllStopped hs (at_position k (sink_event e) hs')
  unfolding at_position
  AllStopped-at_position k e [] [] a = tt
  AllStopped-at_position zero e (h ∷ hs) (h' ∷ hs') a =
      (λ q. StoppedWith-sink_event h.exported e h' (a.0 q), a.1)
  AllStopped-at_position (suc k) e (h ∷ hs) (h' ∷ hs') a =
      (a.0, AllStopped-at_position k e hs hs' a.1)
  AllStopped-at_position k e [] (h' ∷ hs') a = absurd a
  AllStopped-at_position k e (h ∷ hs) [] a = absurd a

  AllStopped-refl : (hs : List (SinkHolder Batch)) → AllStopped hs hs
  AllStopped-refl [] = tt
  AllStopped-refl (h ∷ hs) = (λ q. (q, refl), AllStopped-refl hs)

  AllStopped-from :
      (events : List (ManagerEvent Batch)) (hs hs' : List (SinkHolder Batch))
      → AllStopped hs hs'
      → AllStopped hs (manager_events events hs')
  unfolding manager_events manager_event offer signal_stop
  AllStopped-from [] hs hs' a = a
  AllStopped-from (export_call b ∷ events) hs hs' a =
      AllStopped-from events hs (map (offer b) hs')
        (AllStopped-map (offer b) hs hs' (λ given h k. k) a)
  AllStopped-from (stop_call ∷ events) hs hs' a =
      AllStopped-from events hs (map signal_stop hs')
        (AllStopped-map signal_stop hs hs' (λ given h k. k) a)
  AllStopped-from (at_sink k e ∷ events) hs hs' a =
      AllStopped-from events hs (at_position k (sink_event e) hs')
        (AllStopped-at_position k e hs hs' a)

  -- A sink that has stopped stays so through any run of the manager, and is given no batch any more.
  pub manager_events-AllStopped :
      (events : List (ManagerEvent Batch)) (holders : List (SinkHolder Batch))
      → AllStopped holders (manager_events events holders)
  manager_events-AllStopped events holders =
      AllStopped-from events holders holders (AllStopped-refl holders)
