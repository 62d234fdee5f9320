-- ===== src/Common/Dict.antt =====
-- Go's `map[string]V` as an association list in its order of iteration. An assignment to a present
-- key keeps its place; a new key is put at the end. Go leaves the order open, so that a theorem
-- about every list is one about every order.
use Prim.Native.String.{String}
use mathlib.Core.Path.{◌≡◌, refl}
use mathlib.Core.Bool.{Bool, true, false, ◌||◌}
use mathlib.Core.Option.{Option, none, some}
use mathlib.Core.List.{List, [], ◌∷◌}
use native.Mathlib.Omega.{arith}
use heapster.Common.Tests.{if◌then◌else◌, str_eq, str_eq_iff, str_eq_refl}
use heapster.Common.Lists.{contains, Distinct, All}

abbrev pub Dict {ℓ} : Type ℓ → Type ℓ
Dict V = List (String × V)

module _ {ℓ} {V : Type ℓ} where
  abbrev pub keys : Dict V → List String
  keys [] = []
  keys ((k, v) ∷ m) = k ∷ keys m

  -- `v, found := m[k]`.
  unfoldable pub lookup : String → Dict V → Option V
  lookup k [] = none
  lookup k ((j, v) ∷ m) = if str_eq j k then some v else lookup k m

  -- `m[k] = v`.
  unfoldable pub insert : String → V → Dict V → Dict V
  insert k v [] = (k, v) ∷ []
  insert k v ((j, w) ∷ m) = if str_eq j k then (j, v) ∷ m else (j, w) ∷ insert k v m

  -- `m[k]` with a value for a missing key.
  abbrev pub value_or : V → Option V → V
  value_or d none = d
  value_or d (some v) = v

  abbrev pub is_some : Option V → Bool
  is_some none = false
  is_some (some v) = true

  -- `for k, v := range n { m[k] = v }`.
  unfoldable pub insert_all : Dict V → Dict V → Dict V
  insert_all [] m = m
  insert_all ((k, v) ∷ n) m = insert_all n (insert k v m)

  pub lookup-insert :
      (j k : String) (v : V) (m : Dict V)
      → lookup j (insert k v m) ≡ (if str_eq k j then some v else lookup j m)
  unfolding lookup insert
  lookup-insert j k v [] = refl
  lookup-insert j k v ((i, w) ∷ m) =
      ground (arith, str_eq_iff k j, str_eq_iff i k, str_eq_iff i j, lookup-insert j k v m)

  pub lookup-insert_self : (k : String) (v : V) (m : Dict V) → lookup k (insert k v m) ≡ some v
  lookup-insert_self k v m = rw (lookup-insert, str_eq_refl)

  pub lookup-insert_ne :
      (j k : String) (v : V) (m : Dict V)
      → str_eq k j ≡ false
      → lookup j (insert k v m) ≡ lookup j m
  lookup-insert_ne j k v m h = rw (lookup-insert j k v m, h)

  -- A key is found exactly when it is among the keys.
  pub is_some-lookup : (k : String) (m : Dict V) → is_some (lookup k m) ≡ contains (keys m) k
  unfolding lookup
  is_some-lookup k [] = refl
  is_some-lookup k ((j, v) ∷ m) = ground (arith, is_some-lookup k m)

  pub contains-keys-insert :
      (j k : String) (v : V) (m : Dict V)
      → contains (keys (insert k v m)) j ≡ (str_eq k j || contains (keys m) j)
  unfolding insert
  contains-keys-insert j k v [] = refl
  contains-keys-insert j k v ((i, w) ∷ m) =
      ground (arith, str_eq_iff k j, str_eq_iff i k, str_eq_iff i j, contains-keys-insert j k v m)

  -- No assignment makes a key stand twice.
  pub Distinct-keys-insert :
      (k : String) (v : V) (m : Dict V) → Distinct (keys m) → Distinct (keys (insert k v m))
  unfolding insert
  Distinct-keys-insert k v [] h = (refl, tt)
  Distinct-keys-insert k v ((i, w) ∷ m) h = ground (
    arith,
    contains-keys-insert i k v m,
    str_eq_iff k i,
    str_eq_iff i k,
    Distinct-keys-insert k v m,
  )

module _ {ℓ} {V : Type ℓ} where
  lookup-weaken :
      (k : String) (v : V) (n m : Dict V)
      → contains (keys n) k ≡ false
      → All (λ e. lookup e.0 m ≡ some e.1) n
      → All (λ e. lookup e.0 ((k, v) ∷ m) ≡ some e.1) n
  unfolding lookup
  lookup-weaken k v [] m h a = tt
  lookup-weaken k v ((j, w) ∷ n) m h a = (
    ground (arith, a.0, str_eq_iff k j, str_eq_iff j k),
    lookup-weaken k v n m (ground arith) a.1,
  )

  -- Where no key stands twice, every entry is found under its key.
  pub lookup-entries : (m : Dict V) → Distinct (keys m) → All (λ e. lookup e.0 m ≡ some e.1) m
  unfolding lookup
  lookup-entries [] d = tt
  lookup-entries ((k, v) ∷ m) d = (rw str_eq_refl, lookup-weaken k v m m d.0 (lookup-entries m d.1))

module _ {ℓ} {V : Type ℓ} where
  abbrev pub or_else : Option V → Option V → Option V
  or_else none d = d
  or_else (some v) d = some v

  -- Where no key stands twice in `n`, its entries cover those of `m`.
  pub lookup-insert_all :
      (n m : Dict V) (k : String)
      → Distinct (keys n)
      → lookup k (insert_all n m) ≡ or_else (lookup k n) (lookup k m)
  unfolding lookup insert_all
  lookup-insert_all [] m k d = refl
  lookup-insert_all ((j, v) ∷ n) m k d = ground (
    arith,
    lookup-insert_all n (insert j v m) k d.1,
    lookup-insert k j v m,
    str_eq_iff j k,
    is_some-lookup j n,
  )

  pub Distinct-keys-insert_all :
      (n m : Dict V) → Distinct (keys m) → Distinct (keys (insert_all n m))
  unfolding insert_all
  Distinct-keys-insert_all [] m d = d
  Distinct-keys-insert_all ((k, v) ∷ n) m d =
      Distinct-keys-insert_all n (insert k v m) (Distinct-keys-insert k v m d)

  pub is_some-insert :
      (k key : String) (v : V) (m : Dict V)
      → is_some (lookup k (insert key v m)) ≡ (str_eq key k || is_some (lookup k m))
  is_some-insert k key v m =
      rw (is_some-lookup k (insert key v m), is_some-lookup k m, contains-keys-insert k key v m)
        refl

  pub is_some-insert_all :
      (k : String) (n m : Dict V)
      → is_some (lookup k (insert_all n m)) ≡ (is_some (lookup k n) || is_some (lookup k m))
  unfolding insert_all lookup
  is_some-insert_all k [] m = refl
  is_some-insert_all k ((key, v) ∷ n) m =
      ground (arith, is_some-insert_all k n (insert key v m), is_some-insert k key v m)
