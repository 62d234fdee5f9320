-- ===== src/Util/LabelCopier/Sorts.antt =====
-- metrics/util/label_copier.go: what `sort.Strings` makes of the texts.
use Prim.Native.String.{compare}
use Prim.Native.Nat.{Ordering}
use heapster.Common.{String, List, [], ◌∷◌, Bool, true, false, inl, inr, ◌≡◌, refl, arith, ◌∙◌, ◌⊎◌}
use heapster.Common.Bags.{count}
use heapster.Common.Sorted.{InOrder, InOrder-flip}
use heapster.Util.LabelCopier.{sort_strings, insert_sorted, le_text}

-- Every text stands in order with the next one.
abbrev pub IsSorted : List String → Type 0
IsSorted [] = Unit
IsSorted (s ∷ []) = Unit
IsSorted (s ∷ t ∷ ts) = InOrder s t × IsSorted (t ∷ ts)

-- The same texts, each as often, in order.
abbrev pub Sorts : List String → List String → Type 0
Sorts texts sorted = IsSorted sorted × ((p : String → Bool) → count p sorted ≡ count p texts)

le_text-InOrder :
    (s t : String) → ((le_text s t ≡ true) × InOrder s t) ⊎ ((le_text s t ≡ false) × InOrder t s)
le_text-InOrder s t = by_order (compare s t) refl
  where
    by_order :
        (o : Ordering)
        → compare s t ≡ o
        → ((le_text s t ≡ true) × InOrder s t) ⊎ ((le_text s t ≡ false) × InOrder t s)
    by_order Ordering.lt e = inl (rw (e, le_text) refl, λ g. cc (e, g))
    by_order Ordering.eq e = inl (rw (e, le_text) refl, λ g. cc (e, g))
    by_order Ordering.gt e = inr (rw (e, le_text) refl, InOrder-flip s t e)

count-insert_sorted :
    (p : String → Bool) (s : String) (ts : List String)
    → count p (insert_sorted s ts) ≡ count p (s ∷ ts)
unfolding insert_sorted
count-insert_sorted p s [] = refl
count-insert_sorted p s (t ∷ ts) = let rest = count-insert_sorted p s ts in ground (arith, rest)

IsSorted-insert_sorted :
    (s : String) (ts : List String) → IsSorted ts → IsSorted (insert_sorted s ts)
unfolding insert_sorted
IsSorted-insert_sorted s [] h = tt
IsSorted-insert_sorted s (t ∷ []) h = elim (le_text-InOrder s t) [
  | inl (e, o) ↦ rw e (o, tt)
  | inr (e, o) ↦ rw e (o, tt)
]
IsSorted-insert_sorted s (t ∷ u ∷ ts) h = elim (le_text-InOrder s t) [
  | inl (e, o) ↦ rw e (o, h)
  | inr (e, o) ↦
      let rest = IsSorted-insert_sorted s (u ∷ ts) h.1 in
      rw e (elim (le_text-InOrder s u) [
        | inl (e', o') ↦ rw e' (o, (o', h.1))
        | inr (e', o') ↦ rw e' (h.0, rw e' at rest)
      ])
]

-- `sort.Strings` puts the texts in order, and keeps each as often as it was there.
pub sort_strings-Sorts : (texts : List String) → Sorts texts (sort_strings texts)
unfolding sort_strings
sort_strings-Sorts [] = (tt, λ p. refl)
sort_strings-Sorts (s ∷ ss) =
    let (ordered, same) = sort_strings-Sorts ss in
    (
      IsSorted-insert_sorted s (sort_strings ss) ordered,
      λ p. count-insert_sorted p s (sort_strings ss) ∙ ground (arith, same p),
    )
