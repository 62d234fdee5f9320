-- ===== src/Sources/Manager/Responses.antt =====
-- metrics/sources/manager.go: what the sources' answers make of the response.
use heapster.Common.{
  ℕ, zero, suc, String, List, [], ◌∷◌, Option, none, some, Option-cases, true, Bool-cases, inl, inr,
  ◌≡◌, refl, ◌∙◌, ap, sym, subst, All, arith,
}
use heapster.Common.Bags.{take_out}
use mathlib.Core.Option.{some-injective}
use heapster.Common.Dict.{Dict, lookup, is_some, is_some-insert_all}
use heapster.Common.Result.{ok, Result-cases}
use heapster.Common.Time.{Time, before}
use heapster.Core.Keyed.Sound.{Sound, Sound-insert_all}
use heapster.Core.Values.{MetricSet, DataBatch}
use heapster.Sources.Manager.{
  Answer, Choice, from_source, time_out, Turn, response_of, add_response, received, response_loop,
}

-- The batch of a source has its sets under the keys that their labels name, each key once.
abbrev pub BatchSound : Option DataBatch → Type 0
BatchSound none = Unit
BatchSound (some b) = Sound b.metric_sets

abbrev pub AnswerSound : Answer → Type 0
AnswerSound a = (batch : Option DataBatch) → a.scraped ≡ ok batch → BatchSound batch

abbrev TakenOut : {A : Type 0} → (A → Type 0) → List A → A × List A → Type 0
TakenOut P xs (x, rest) = (All P xs → P x × All P rest) × (P x → All P rest → All P xs)

-- What holds of every entry holds of the one taken out and of the others, and back.
pub take_out-All :
    {A : Type 0} (P : A → Type 0) (k : ℕ) (xs : List A) {taken : A × List A}
    → take_out k xs ≡ some taken
    → TakenOut P xs taken
unfolding take_out
take_out-All P k [] e = cc
take_out-All P zero (y ∷ ys) {taken} e =
    subst (TakenOut P (y ∷ ys)) (some-injective (y, ys) taken e) (λ h. h, λ px a. (px, a))
take_out-All P (suc k) (y ∷ ys) {taken} e = elim (Option-cases (take_out k ys)) [
  | inl g ↦ absurd (impossible (rw g at e))
  | inr ((z, zs), g) ↦
      let (out, back) = take_out-All P k ys g in
      subst (TakenOut P (y ∷ ys)) (some-injective (z, y ∷ zs) taken (rw g at e))
        (λ h. let (pz, a) = out h.1 in (pz, (h.0, a)), λ pz a. (a.0, back pz a.1))
]
  where
    impossible : none ≡ some taken → ⊥
    impossible q = cc

-- What a turn receives is the answer of a source that is pending.
received_lem :
    (timeout_time : Time) (choice : Choice) (pending : List Answer) {batch : Option DataBatch}
    {rest : List Answer}
    → received timeout_time choice pending ≡ some (batch, rest)
    → (k : ℕ) × (a : Answer) × (take_out k pending ≡ some (a, rest))
      × (response_of timeout_time a ≡ some batch)
unfolding received
received_lem timeout_time time_out pending e = cc
received_lem timeout_time (from_source k) pending {batch} {rest} e =
    elim (Option-cases (take_out k pending)) [
      | inl g ↦ absurd (nothing_received none refl (rw (g, received) at e))
      | inr ((a, others), g) ↦ elim (Option-cases (response_of timeout_time a)) [
        | inl q ↦ absurd (nothing_received none refl (rw (g, q, received) at e))
        | inr (b, q) ↦
            let same = some-injective (b, others) (batch, rest) (rw (g, q, received) at e) in
            (
              k,
              a,
              g ∙ ap (λ (p : Option DataBatch × List Answer). some (a, p.1)) same,
              q ∙ ap (λ (p : Option DataBatch × List Answer). some p.0) same,
            )
      ]
    ]
  where
    nothing_received :
        (o : Option (Option DataBatch × List Answer)) → o ≡ none → o ≡ some (batch, rest) → ⊥
    nothing_received o n q = cc

response_of-scraped :
    (timeout_time : Time) (a : Answer) {batch : Option DataBatch}
    → response_of timeout_time a ≡ some batch
    → a.scraped ≡ ok batch
unfolding response_of
response_of-scraped timeout_time a {batch} e = elim (Result-cases a.scraped) [
  | inr (text, q) ↦ absurd (impossible (rw (q, response_of) at e))
  | inl (b, q) ↦ elim (Bool-cases (before a.now timeout_time)) [
    | inr p ↦ absurd (impossible (rw (q, p, response_of) at e))
    | inl p ↦ q ∙ ap ok (some-injective b batch (rw (q, p, response_of) at e))
  ]
]
  where
    impossible : none ≡ some batch → ⊥
    impossible q = cc

Sound-add_response :
    (batch : Option DataBatch) (sets : Dict MetricSet)
    → BatchSound batch
    → Sound sets
    → Sound (add_response batch sets)
Sound-add_response none sets h s = s
Sound-add_response (some b) sets h s = Sound-insert_all b.metric_sets sets h.0 s

-- Then the response is such a batch too, whatever comes in time.
pub Sound-response_loop :
    (timeout_time : Time) (turns : List Turn) (pending : List Answer) (sets : Dict MetricSet)
    → All AnswerSound pending
    → Sound sets
    → Sound (response_loop timeout_time turns pending sets)
unfolding response_loop
Sound-response_loop timeout_time [] pending sets a s = s
Sound-response_loop timeout_time (t ∷ turns) pending sets a s =
    elim (Bool-cases (before t.now timeout_time)) [
      | inr p ↦ rw p s
      | inl p ↦ elim (Option-cases (received timeout_time t.choice pending)) [
        | inl g ↦ rw (p, g, response_loop) s
        | inr ((batch, rest), g) ↦
            let (k, answer, out, sent) = received_lem timeout_time t.choice pending g in
            let (h, others) = (take_out-All AnswerSound k pending out).0 a in
            let keyed = h batch (response_of-scraped timeout_time answer sent) in
            rw (p, g, response_loop)
              (Sound-response_loop timeout_time turns rest (add_response batch sets) others
                (Sound-add_response batch sets keyed s))
      ]
    ]

-- Every turn receives an answer in time, until none is pending.
abbrev pub Completes : Time → List Turn → List Answer → Type 0
Completes timeout_time [] pending = pending ≡ []
Completes timeout_time (t ∷ turns) pending =
    (before t.now timeout_time ≡ true)
    × ((batch : Option DataBatch) × (rest : List Answer) × (received timeout_time t.choice pending
          ≡ some (batch, rest))
        × Completes timeout_time turns rest)

abbrev pub HasKeys : Dict MetricSet → Option DataBatch → Type 0
HasKeys sets none = Unit
HasKeys sets (some b) =
    (key : String) → is_some (lookup key b.metric_sets) ≡ true → is_some (lookup key sets) ≡ true

abbrev pub IsIn : Dict MetricSet → Time → Answer → Type 0
IsIn sets timeout_time a =
    (batch : Option DataBatch) → response_of timeout_time a ≡ some batch → HasKeys sets batch

HasKeys-add_response :
    (batch : Option DataBatch) (sets : Dict MetricSet) → HasKeys (add_response batch sets) batch
HasKeys-add_response none sets = tt
HasKeys-add_response (some b) sets =
    λ key h. ground (arith, is_some-insert_all key b.metric_sets sets, h)

add_response-keeps :
    (batch : Option DataBatch) (sets : Dict MetricSet) (key : String)
    → is_some (lookup key sets) ≡ true
    → is_some (lookup key (add_response batch sets)) ≡ true
add_response-keeps none sets key h = h
add_response-keeps (some b) sets key h =
    ground (arith, is_some-insert_all key b.metric_sets sets, h)

response_loop-keeps :
    (timeout_time : Time) (turns : List Turn) (pending : List Answer) (sets : Dict MetricSet)
    (key : String)
    → is_some (lookup key sets) ≡ true
    → is_some (lookup key (response_loop timeout_time turns pending sets)) ≡ true
unfolding response_loop
response_loop-keeps timeout_time [] pending sets key h = h
response_loop-keeps timeout_time (t ∷ turns) pending sets key h =
    elim (Bool-cases (before t.now timeout_time)) [
      | inr p ↦ rw p h
      | inl p ↦ elim (Option-cases (received timeout_time t.choice pending)) [
        | inl g ↦ rw (p, g, response_loop) h
        | inr ((batch, rest), g) ↦
            rw (p, g, response_loop)
              (response_loop-keeps timeout_time turns rest (add_response batch sets) key
                (add_response-keeps batch sets key h))
      ]
    ]

HasKeys-more :
    (batch : Option DataBatch) (sets sets' : Dict MetricSet)
    → ((key : String) → is_some (lookup key sets) ≡ true → is_some (lookup key sets') ≡ true)
    → HasKeys sets batch
    → HasKeys sets' batch
HasKeys-more none sets sets' more h = tt
HasKeys-more (some b) sets sets' more h = λ key p. more key (h key p)

-- Where every turn receives an answer before the time is out, and no source is left, the response has
-- a set under every key of every source's batch.
pub response_loop-Completes :
    (timeout_time : Time) (turns : List Turn) (pending : List Answer) (sets : Dict MetricSet)
    → Completes timeout_time turns pending
    → All (IsIn (response_loop timeout_time turns pending sets) timeout_time) pending
unfolding response_loop
response_loop-Completes timeout_time [] pending sets c = rw c tt
response_loop-Completes timeout_time (t ∷ turns) pending sets (in_time, (batch, rest, g, c)) =
    let (k, answer, out, sent) = received_lem timeout_time t.choice pending g in
    let sets1 = add_response batch sets in
    let end = response_loop timeout_time turns rest sets1 in
    let first : IsIn end timeout_time answer = λ batch' e.
      subst (HasKeys end) (some-injective batch batch' (sym sent ∙ e)) (
        HasKeys-more batch sets1 end (response_loop-keeps timeout_time turns rest sets1)
          (HasKeys-add_response batch sets)) in
    rw (in_time, g, response_loop)
      ((take_out-All (IsIn end timeout_time) k pending out).1 first
        (response_loop-Completes timeout_time turns rest sets1 c))
