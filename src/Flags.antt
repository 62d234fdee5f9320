-- ===== src/Flags.antt =====
-- common/flags/flags.go: the sources and sinks given on the command line, as `key:url`. The URLs of
-- net/url are a parameter, with their parser and printer, and so is os.ExpandEnv.
pub mod RoundTrip
use heapster.Common.{String, List, [], ◌∷◌, ◌++◌, Option, none, some, Bool, if◌then◌else◌, str_eq}
use heapster.Common.Result.{Result, ok, error, ◌>>=◌}
use heapster.Common.Text.{concat, cut}

pub record Uri (Url : Type 0) : Type 0 where
  pub key : String
  pub val : Url

pub record UrlOps (Url : Type 0) : Type 0 where
  pub no_url : Url
  pub url_string : Url → String
  pub parse : String → Result Url
  pub expand_env : String → String

module _ {Url : Type 0} (ops : UrlOps Url) where
  -- `Uri.String`.
  unfoldable pub uri_string : Uri Url → String
  uri_string u =
      let val = ops.url_string u.val in
      if str_eq val "" then u.key else concat (u.key ∷ ":" ∷ val ∷ [])

  abbrev pub with_val : Uri Url → String → Result (Uri Url)
  with_val u text =
      if str_eq text ""
      then ok u
      else (do uri ← ops.parse (ops.expand_env text); ok (record u { val = uri }))

  abbrev pub set_parts : Uri Url → String → Option (String × String) → Result (Uri Url)
  set_parts u value none =
      if str_eq value ""
      then error (concat ("missing uri key in '" ∷ value ∷ "'" ∷ []))
      else ok (record u { key = value })
  set_parts u value (some (key, text)) =
      if str_eq key ""
      then error (concat ("missing uri key in '" ∷ value ∷ "'" ∷ []))
      else with_val (record u { key = key }) text

  -- `Uri.Set`: the URI afterwards. `strings.SplitN(value, ":", 2)` has one part without a colon.
  unfoldable pub uri_set : Uri Url → String → Result (Uri Url)
  uri_set u value = set_parts u value (cut b':' value)

  -- `Uris.Set`, one flag of the command line: the URI starts as the zero value.
  unfoldable pub uris_set : List (Uri Url) → String → Result (List (Uri Url))
  uris_set us value = do
    u ← uri_set (record { key = ""; val = ops.no_url }) value
    ok (us ++ u ∷ [])

  -- The flags in turn; the first error ends the program.
  unfoldable pub uris_of_flags : List String → List (Uri Url) → Result (List (Uri Url))
  uris_of_flags [] us = ok us
  uris_of_flags (value ∷ values) us = do us' ← uris_set us value; uris_of_flags values us'
