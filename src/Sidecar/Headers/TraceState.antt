-- ===== src/Sidecar/Headers/TraceState.antt =====
-- crates/kube-sidecar-proxy/src/otel_routing.rs: the environment that a trace state names.

use mathlib.Core.List.{◌++◌}
use lapdev.Base.{◌≡◌, refl, ap, ◌∙◌, String, true, Option, none, some, List}
use lapdev.Base.Text.{
  append, nowhere, is_char, is_whitespace, split, split_once, eq_ignore_ascii_case,
}
use lapdev.Base.Text.Splits.{split-append, split-nowhere, trim-nowhere, split_once-append}
use lapdev.Sidecar.Types.{Uuid}
use lapdev.Sidecar.Headers.{
  key_environment, entry_environment, first_environment, extract_lapdev_environment_id,
}

abbrev pub or_else {ℓ} : {A : Type ℓ} → Option A → Option A → Option A
or_else none other = other
or_else (some a) other = some a

-- The name of the entry, with what separates it from the value.
abbrev pub entry_key : String
entry_key = "lapdev-env-id="

module _ (parse_str : String → Option Uuid) where
  first_environment-append :
      (xs ys : List String)
      → first_environment parse_str (xs ++ ys)
        ≡ or_else (first_environment parse_str xs) (first_environment parse_str ys)
  unfolding first_environment
  first_environment-append List.[] ys = refl
  first_environment-append (List.◌∷◌ x xs) ys =
      elim (entry_environment parse_str x)
        as (λ o.
          (elim o [ none ↦ first_environment parse_str (xs ++ ys) | some id ↦ some id ])
          ≡ or_else (elim o [ none ↦ first_environment parse_str xs | some id ↦ some id ])
              (first_environment parse_str ys)) [
                | none ↦ first_environment-append xs ys
                | some id ↦ refl
              ]

  first_environment-one :
      (x : String)
      → first_environment parse_str (List.◌∷◌ x List.[]) ≡ entry_environment parse_str x
  unfolding first_environment
  first_environment-one x =
      elim (entry_environment parse_str x)
        as (λ o. Path (Option Uuid) (elim o [ none ↦ none | some id ↦ some id ]) o) [
          | none ↦ refl
          | some id ↦ refl
        ]

  pub extract-empty : extract_lapdev_environment_id parse_str (some "") ≡ none
  unfolding extract_lapdev_environment_id first_environment entry_environment
  extract-empty = unfold split split_once key_environment in refl

  -- The first environment of a trace state is that of its first part, if that names one.
  pub extract-append :
      (existing more : String)
      → extract_lapdev_environment_id parse_str (some (append existing (append "," more)))
        ≡ or_else
            (extract_lapdev_environment_id parse_str (some existing))
            (extract_lapdev_environment_id parse_str (some more))
  unfolding extract_lapdev_environment_id
  extract-append existing more =
      ap (first_environment parse_str) (split-append "," existing more)
      ∙ first_environment-append (split 44 existing) (split 44 more)

  module _ (text : String) (spaceless : nowhere is_whitespace text ≡ true) where
    entry_environment-key : entry_environment parse_str (append entry_key text) ≡ parse_str text
    unfolding entry_environment
    entry_environment-key =
        ap (λ t. key_environment parse_str (split_once 61 t))
          (trim-nowhere (append entry_key text) spaceless)
        ∙ ap (key_environment parse_str) (split_once-append "=" "lapdev-env-id" text refl)
        ∙ unfold key_environment eq_ignore_ascii_case in ap parse_str (trim-nowhere text spaceless)

    -- A trace state of one entry names the environment that its value reads as.
    pub extract-entry :
        nowhere (is_char 44) text ≡ true
        → extract_lapdev_environment_id parse_str (some (append entry_key text)) ≡ parse_str text
    unfolding extract_lapdev_environment_id
    extract-entry unlisted =
        ap (first_environment parse_str) (split-nowhere 44 (append entry_key text) unlisted)
        ∙ first_environment-one (append entry_key text)
        ∙ entry_environment-key
