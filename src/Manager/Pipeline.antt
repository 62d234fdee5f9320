-- ===== src/Manager/Pipeline.antt =====
-- metrics/manager/manager.go: when a round exports, and what.
use heapster.Common.{List, [], ◌∷◌, some, ◌≡◌, refl, sym, ap, ◌∙◌, ◌↔◌, inl, inr, String}
use heapster.Common.Result.{Result, ok, error, ok_injective, Result-cases}
use mathlib.Core.Option.{some-injective}
use heapster.Core.Values.{DataBatch}
use heapster.Manager.{run_processors, run_round, exported}

-- Every processor succeeds on what the one before it returned.
pub data Passes : List (DataBatch → Result DataBatch) → DataBatch → DataBatch → Type 0 where
  end_of : (b : DataBatch) → Passes [] b b
  then_by :
      {p : DataBatch → Result DataBatch} {ps : List (DataBatch → Result DataBatch)}
      {b c d : DataBatch}
      → p b ≡ ok c
      → Passes ps c d
      → Passes (p ∷ ps) b d

Passes-run :
    {ps : List (DataBatch → Result DataBatch)} {b d : DataBatch}
    → Passes ps b d
    → run_processors ps b ≡ ok d
unfolding run_processors
Passes-run (end_of b) = refl
Passes-run (then_by e p) = rw (e, run_processors) (Passes-run p)

run-Passes :
    (ps : List (DataBatch → Result DataBatch)) (b d : DataBatch)
    → run_processors ps b ≡ ok d
    → Passes ps b d
unfolding run_processors
run-Passes [] b d h = rw (← ok_injective h) (end_of b)
run-Passes (p ∷ ps) b d h = elim (Result-cases (p b)) [
  | inl (c, e) ↦ then_by e (run-Passes ps c d (rw (e, run_processors) at h))
  | inr (x, e) ↦ absurd (refused x (rw (e, run_processors) at h))
]
  where
    refused : (x : String) → error x ≡ ok d → ⊥
    refused x q = cc

-- A round exports a batch exactly when the scrape gave one and every processor succeeded in turn,
-- and it exports what the last of them returned; otherwise it exports nothing.
pub run_round_lem :
    (scraped : Result DataBatch) (ps : List (DataBatch → Result DataBatch)) (d : DataBatch)
    → (run_round scraped ps ≡ some d) ↔ ((b : DataBatch) × (scraped ≡ ok b) × Passes ps b d)
unfolding run_round
run_round_lem (error e) ps d = (λ h. cc, λ (b, e', p). cc)
run_round_lem (ok b) ps d = elim (Result-cases (run_processors ps b)) [
  | inl (c, e) ↦
      rw (e, run_round)
        (
          λ h. (b, refl, run-Passes ps b d (e ∙ ap ok (some-injective c d h))),
          λ (b', e', p).
              ap exported (sym e ∙ ap (run_processors ps) (ok_injective e') ∙ Passes-run p),
        )
  | inr (x, e) ↦
      rw (e, run_round)
        (
          λ h. cc,
          λ (b', e', p).
              ap exported (sym e ∙ ap (run_processors ps) (ok_injective e') ∙ Passes-run p),
        )
]
