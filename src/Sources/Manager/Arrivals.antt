-- ===== src/Sources/Manager/Arrivals.antt =====
-- metrics/sources/manager.go: which answers make the response, and what it holds under a key.
use heapster.Common.{
  ◌+◌, ℕ, ◌≤◌, ◌<◌, String, List, [], ◌∷◌, Option, none, some, Option-cases, Bool-cases, ◌⊎◌, inl,
  inr, ◌≡◌, refl, ◌∙◌, All, arith,
}
use heapster.Common.Bags.{take_out}
use heapster.Common.Dict.{Dict, lookup, or_else, lookup-insert_all}
use heapster.Common.Result.{ok, error, Result-cases}
use heapster.Common.Time.{Time, before}
use heapster.Core.Keyed.Sound.{Sound}
use heapster.Core.Values.{MetricSet, DataBatch}
use heapster.Sources.Manager.{
  Answer, Choice, from_source, time_out, Turn, response_of, add_response, received, response_loop,
  manager_scrape_metrics,
}
use heapster.Sources.Manager.Responses.{BatchSound, AnswerSound, Sound-response_loop, take_out-All}

-- What ends the loop at a turn: the timer, or a source that has no answer, has failed, or has its
-- answer after the deadline.
pub data Silent (deadline : Time) (pending : List Answer) : Choice → Type 0 where
  timed_out : Silent deadline pending time_out
  nobody : (k : ℕ) → take_out k pending ≡ none → Silent deadline pending (from_source k)
  failed :
      (k : ℕ) (a : Answer) (rest : List Answer) (text : String)
      → take_out k pending ≡ some (a, rest)
      → a.scraped ≡ error text
      → Silent deadline pending (from_source k)
  too_late :
      (k : ℕ) (a : Answer) (rest : List Answer)
      → take_out k pending ≡ some (a, rest)
      → deadline ≤ a.now
      → Silent deadline pending (from_source k)

-- A source's answer before the deadline: its batch, and the sources left.
pub data Arrived (deadline : Time) (pending : List Answer)
    : Choice → Option DataBatch → List Answer → Type 0 where
  arrived :
      (k : ℕ) (a : Answer) (batch : Option DataBatch) (rest : List Answer)
      → take_out k pending ≡ some (a, rest)
      → a.scraped ≡ ok batch
      → a.now < deadline
      → Arrived deadline pending (from_source k) batch rest

-- The batches that arrive, in their order, until the turns are over, the deadline has passed, or no
-- answer comes.
pub data Arrivals (deadline : Time)
    : List Turn → List Answer → List (Option DataBatch) → Type 0 where
  over : (pending : List Answer) → Arrivals deadline [] pending []
  late :
      (t : Turn) (turns : List Turn) (pending : List Answer)
      → deadline ≤ t.now
      → Arrivals deadline (t ∷ turns) pending []
  silent :
      (t : Turn) (turns : List Turn) (pending : List Answer)
      → Silent deadline pending t.choice
      → Arrivals deadline (t ∷ turns) pending []
  next :
      (t : Turn) (turns : List Turn) (pending : List Answer) (batch : Option DataBatch)
      (rest : List Answer) (batches : List (Option DataBatch))
      → t.now < deadline
      → Arrived deadline pending t.choice batch rest
      → Arrivals deadline turns rest batches
      → Arrivals deadline (t ∷ turns) pending (batch ∷ batches)

-- The set that the last of the batches with the key has under it.
abbrev pub latest : String → List (Option DataBatch) → Option MetricSet
latest key [] = none
latest key (none ∷ batches) = latest key batches
latest key (some b ∷ batches) = or_else (latest key batches) (lookup key b.metric_sets)

received_cases :
    (deadline : Time) (choice : Choice) (pending : List Answer)
    → ((received deadline choice pending ≡ none) × Silent deadline pending choice)
      ⊎ ((batch : Option DataBatch) × (rest : List Answer) × (received deadline choice pending
            ≡ some (batch, rest))
          × Arrived deadline pending choice batch rest)
unfolding received response_of
received_cases deadline time_out pending = inl (refl, timed_out)
received_cases deadline (from_source k) pending = elim (Option-cases (take_out k pending)) [
  | inl o ↦ inl (rw (o, received) refl, nobody k o)
  | inr ((a, rest), o) ↦ elim (Result-cases a.scraped) [
    | inr (text, r) ↦ inl (rw (o, received) (rw (r, response_of) refl), failed k a rest text o r)
    | inl (batch, r) ↦ elim (Bool-cases (before a.now deadline)) [
      | inr q ↦
          inl (
            rw (o, received) (rw (r, q, response_of) refl),
            too_late k a rest o (ground (arith, q)),
          )
      | inl q ↦ inr (
        batch,
        rest,
        rw (o, received) (rw (r, q, response_of) refl),
        arrived k a batch rest o r (ground (arith, q)),
      )
    ]
  ]
]

abbrev Gathered : Time → List Turn → List Answer → Dict MetricSet → Type 0
Gathered deadline turns pending sets =
    (batches : List (Option DataBatch)) × Arrivals deadline turns pending batches
    × ((key : String)
        → lookup key (response_loop deadline turns pending sets)
          ≡ or_else (latest key batches) (lookup key sets))

or_else_assoc : (a b c : Option MetricSet) → or_else a (or_else b c) ≡ or_else (or_else a b) c
or_else_assoc none b c = refl
or_else_assoc (some x) b c = refl

latest-add_response :
    (key : String) (batch : Option DataBatch) (batches : List (Option DataBatch))
    (sets : Dict MetricSet)
    → BatchSound batch
    → or_else (latest key batches) (lookup key (add_response batch sets))
      ≡ or_else (latest key (batch ∷ batches)) (lookup key sets)
latest-add_response key none batches sets s = refl
latest-add_response key (some b) batches sets s =
    rw (lookup-insert_all b.metric_sets sets key s.1)
      (or_else_assoc (latest key batches) (lookup key b.metric_sets) (lookup key sets))

-- The answer taken out is sound, and so are the others.
Arrived-Sound :
    (deadline : Time) (pending : List Answer) (choice : Choice) (batch : Option DataBatch)
    (rest : List Answer)
    → Arrived deadline pending choice batch rest
    → All AnswerSound pending
    → BatchSound batch × All AnswerSound rest
Arrived-Sound deadline pending choice batch rest (arrived k a b r out scraped q) sound =
    let (h, others) = (take_out-All AnswerSound k pending out).0 sound in (h b scraped, others)

response_loop-Gathered :
    (deadline : Time) (turns : List Turn) (pending : List Answer) (sets : Dict MetricSet)
    → All AnswerSound pending
    → Gathered deadline turns pending sets
unfolding response_loop
response_loop-Gathered deadline [] pending sets s = ([], over pending, λ key. refl)
response_loop-Gathered deadline (t ∷ turns) pending sets s =
    elim (Bool-cases (before t.now deadline)) [
      | inr p ↦ rw p ([], late t turns pending (ground (arith, p)), λ key. refl)
      | inl p ↦ elim (received_cases deadline t.choice pending) [
        | inl (g, stop) ↦ rw (p, g, response_loop) ([], silent t turns pending stop, λ key. refl)
        | inr (batch, rest, g, came) ↦
            let (sound, others) = Arrived-Sound deadline pending t.choice batch rest came s in
            let (batches, arrivals, look) =
              response_loop-Gathered deadline turns rest (add_response batch sets) others in
            rw (p, g, response_loop)
              (
                batch ∷ batches,
                next t turns pending batch rest batches (ground (arith, p)) came arrivals,
                λ key. look key ∙ latest-add_response key batch batches sets sound,
              )
      ]
    ]

-- Where the sources' batches have every set under the key that its labels name, each key once, so has
-- the response of a scrape, and its timestamp is the end of the window. It is made of the batches
-- that arrive before the deadline, in the order of the turns and up to the first turn with no
-- answer: under every key it has the set of the last of these batches that has the key, and no set
-- where none has it.
pub manager_scrape_metrics_lem :
    (timeout : ℕ) (start_time end : Time) (turns : List Turn) (answers : List Answer)
    → All AnswerSound answers
    → let response = manager_scrape_metrics timeout start_time end turns answers in
      (batches : List (Option DataBatch)) × Arrivals (start_time + timeout) turns answers batches
      × ((key : String) → lookup key response.metric_sets ≡ latest key batches)
      × (response.timestamp ≡ end)
      × Sound response.metric_sets
unfolding manager_scrape_metrics lookup
manager_scrape_metrics_lem timeout start_time end turns answers s =
    let (batches, arrivals, look) =
      response_loop-Gathered (start_time + timeout) turns answers [] s in
    (
      batches,
      arrivals,
      λ key. look key ∙ or_else-none (latest key batches),
      refl,
      Sound-response_loop (start_time + timeout) turns answers [] s (tt, tt),
    )
  where
    or_else-none : (o : Option MetricSet) → or_else o none ≡ o
    or_else-none none = refl
    or_else-none (some ms) = refl
