-- ===== src/Flags/RoundTrip.antt =====
-- common/flags/flags.go: what a URI prints is read back as it was.
use Prim.Native.String as Text
use Prim.Native.String.append
use Prim.Native.Char.{Char, code}
use heapster.Common.{
  String, List, [], ◌∷◌, ◌++◌, map, Option, none, some, true, false, Bool-cases, inl, inr, ◌≡◌,
  refl, ◌∙◌, ap, sym, All, arith, str_eq, ◌==◌,
}
use mathlib.Core.List.{append_assoc, append-nil}
use text.Mathlib.TextLemmas.{append-nil as append-nil-text}
use heapster.Common.Result.{ok}
use heapster.Common.Text.{concat, cut, with_char}
use heapster.Flags.{Uri, UrlOps, uri_string, uri_set, uris_set, uris_of_flags}

append_cons : (c : Char) (s t : String) → Text.◌++◌ (Text.◌∷◌ c s) t ≡ Text.◌∷◌ c (Text.◌++◌ s t)
append_cons c s t i = append.cons c s t i

append_nil : (t : String) → Text.◌++◌ Text.[] t ≡ t
append_nil t i = append.nil t i

-- A text without the separator, the separator and the rest are cut apart again.
cut-append :
    (key rest : String)
    → cut b':' key ≡ none
    → cut b':' (Text.◌++◌ key (Text.◌++◌ ":" rest)) ≡ some (key, rest)
unfolding cut
cut-append Text.[] rest h = rw (append_nil, append_cons ":" "" rest, append_nil) refl
cut-append (Text.◌∷◌ c key) rest h = elim (Bool-cases (code c == b':')) [
  | inl q ↦ absurd (ground (arith, rw q at h))
  | inr q ↦
      let inner : cut b':' key ≡ none = no_cut (cut b':' key) (rw q at h) in
      rw
        (
          append_cons c key (Text.◌++◌ ":" rest),
          q,
          cut-append key rest inner,
          append_cons c Text.[] key,
          append_nil,
        )
        refl
]
  where
    no_cut : (o : Option (String × String)) → with_char (Text.◌∷◌ c Text.[]) o ≡ none → o ≡ none
    no_cut none e = refl
    no_cut (some ab) e = cc

module _ {Url : Type 0} (ops : UrlOps Url) where
  -- A URI as the flags can give it: its key is there and has no colon, and its URL is the zero value
  -- or one that is read back from what it prints.
  abbrev pub IsPrintable : Uri Url → Type 0
  IsPrintable u =
      (str_eq u.key "" ≡ false)
      × (cut b':' u.key ≡ none)
      × (str_eq (ops.url_string u.val) "" ≡ true → u.val ≡ ops.no_url)
      × (str_eq (ops.url_string u.val) "" ≡ false
          → ops.parse (ops.expand_env (ops.url_string u.val)) ≡ ok u.val)

  uri_set-uri_string :
      (u : Uri Url)
      → IsPrintable u
      → uri_set ops (record { key = ""; val = ops.no_url }) (uri_string ops u) ≡ ok u
  unfolding uri_set uri_string
  uri_set-uri_string u (present, plain, zero, back) =
      elim (Bool-cases (str_eq (ops.url_string u.val) "")) [
        | inl q ↦ rw (q, plain, present) (ap (λ v. ok (record u { val = v })) (sym (zero q)))
        | inr q ↦
            rw (q, cut-append u.key (concat (ops.url_string u.val ∷ [])) plain, present)
              (rw (append-nil-text (ops.url_string u.val), q, back q) refl)
      ]

-- The flags that print a list of URIs are read back as those URIs, in order, after those that were
-- read before. Each URI has a key without a colon, and a URL that is the zero value or that the
-- parser of net/url reads back from what the URL prints, once the environment is expanded in it.
pub uris_of_flags-uri_string :
    {Url : Type 0} (ops : UrlOps Url) (us before : List (Uri Url))
    → All (IsPrintable ops) us
    → uris_of_flags ops (map (uri_string ops) us) before ≡ ok (before ++ us)
unfolding uris_of_flags uris_set
uris_of_flags-uri_string ops [] before a = rw append-nil refl
uris_of_flags-uri_string ops (u ∷ us) before a = rw (uri_set-uri_string ops u a.0) (
    uris_of_flags-uri_string ops us (before ++ u ∷ []) a.1
    ∙ ap ok (append_assoc before (u ∷ []) us))
