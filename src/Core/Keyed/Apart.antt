-- ===== src/Core/Keyed/Apart.antt =====
-- metrics/core/ms_keys.go: keys of different kinds differ.
use Prim.Native.Char.{Char, code}
use Prim.Native.String as Text
use Prim.Native.String.append
use heapster.Common.{
  ℕ, String, Bool, false, ◌==◌, ◌||◌, ◌≡◌, ap, arith, [], ◌∷◌, Bool-cases, inl, inr, str_eq,
  str_eq_iff,
}
use heapster.Common.Text.{concat}
use heapster.Core.Keys.{pod_key, namespace_key, node_key}

append_cons : (c : Char) (s t : String) → Text.◌++◌ (Text.◌∷◌ c s) t ≡ Text.◌∷◌ c (Text.◌++◌ s t)
append_cons c s t i = append.cons c s t i

append_nil : (t : String) → Text.◌++◌ Text.[] t ≡ t
append_nil t i = append.nil t i

-- The code of the second character.
second : String → ℕ
second Text.[] = 0
second (Text.◌∷◌ c Text.[]) = 0
second (Text.◌∷◌ c (Text.◌∷◌ d s)) = code d

abbrev pub has_slash : String → Bool
has_slash Text.[] = false
has_slash (Text.◌∷◌ c s) = code c == b'/' || has_slash s

has_slash-append : (s t : String) → has_slash (Text.◌++◌ s t) ≡ (has_slash s || has_slash t)
has_slash-append Text.[] t = rw append_nil
has_slash-append (Text.◌∷◌ c s) t = rw append_cons (ground (arith, has_slash-append s t))

second-node : (r : String) → second (Text.◌++◌ "node:" r) ≡ b'o'
unfolding second
second-node r = rw (append_cons "n" "ode:" r, append_cons "o" "de:" r)

second-namespace : (r : String) → second (Text.◌++◌ "namespace:" r) ≡ b'a'
unfolding second
second-namespace r = rw (append_cons "n" "amespace:" r, append_cons "a" "mespace:" r)

-- A pod's key is no node's key.
pub pod_key-ne-node_key :
    (namespace pod_name node : String) → str_eq (node_key node) (pod_key namespace pod_name) ≡ false
unfolding pod_key node_key
pod_key-ne-node_key namespace pod_name node =
    elim (Bool-cases (str_eq (node_key node) (pod_key namespace pod_name))) [
      | inr q ↦ q
      | inl q ↦
          let e = ap second ((str_eq_iff (node_key node) (pod_key namespace pod_name)).0 q) in
          let a = second-node (concat (node ∷ [])) in
          let b = second-namespace (concat (namespace ∷ "/pod:" ∷ pod_name ∷ [])) in
          let clash : ⊥ = omega (arith, e, a, b) in absurd clash
    ]

-- A pod's key is the key of no namespace whose name has no slash.
pub pod_key-ne-namespace_key :
    (namespace pod_name other : String)
    → has_slash other ≡ false
    → str_eq (namespace_key other) (pod_key namespace pod_name) ≡ false
unfolding pod_key namespace_key
pod_key-ne-namespace_key namespace pod_name other h =
    elim (Bool-cases (str_eq (namespace_key other) (pod_key namespace pod_name))) [
      | inr q ↦ q
      | inl q ↦
          let e =
            ap has_slash ((str_eq_iff (namespace_key other) (pod_key namespace pod_name)).0 q) in
          let rest = concat (pod_name ∷ []) in
          ground (
            arith,
            e,
            h,
            has_slash-append "namespace:" (concat (other ∷ [])),
            has_slash-append other "",
            has_slash-append "namespace:" (concat (namespace ∷ "/pod:" ∷ pod_name ∷ [])),
            has_slash-append namespace (concat ("/pod:" ∷ pod_name ∷ [])),
            has_slash-append "/pod:" rest,
          )
    ]
