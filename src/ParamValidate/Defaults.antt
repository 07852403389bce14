-- ===== src/ParamValidate/Defaults.antt =====
-- The default value of a spec that is in order.
use Prim.Native.String.{String}
use mathlib.Core.Path.{subst}
use mathlib.Core.List.{List, ◌++◌}
use hola.Prelude.{
  ◌≡◌, refl, ◌∙◌, inl, inr, ◌⊎◌, Bool, true, false, ◌&&◌, ◌||◌, not, some, includes, is_empty_text,
  Bool-cases, is_some,
}
use hola.ComposeValidate.Document.{known_platform_tokens}
use hola.ParamValidate.{
  ParamSpec, ParamEngine, ParamIssue, ParamIssueCode, invalid_enum_value, invalid_boolean,
  ParamType, flag, enum, boolean, typed_issues, env_path, validate_param_value, invalid_spec,
  has_options, is_option, is_boolean_text,
}
use hola.ParamValidate.Specs.{
  validate_param_spec, enum_issues, boolean_issues, same_values, is_unknown, does_not_compile,
  is_above, is_longer_than,
}
use hola.ParamValidate.Bounds.{checked_by_type}

append-nil_parts : (xs ys : List ParamIssue) → xs ++ ys ≡ List.[] → (xs ≡ List.[]) × (ys ≡ List.[])
append-nil_parts List.[] ys h = (refl, h)
append-nil_parts (List.◌∷◌ x xs) ys h = absurd (cc)

spec_parts :
    (engine : ParamEngine) (spec : ParamSpec)
    → validate_param_spec engine spec ≡ List.[]
    → (enum_issues engine spec.type_name spec (env_path spec) ≡ List.[])
      × (boolean_issues engine spec.type_name spec (env_path spec) ≡ List.[])
unfolding validate_param_spec
spec_parts engine spec h =
    let at = env_path spec in
    let h1 = append-nil_parts (flag (is_unknown engine spec.type_name) invalid_spec at) _ h in
    let h2 =
      append-nil_parts (flag (does_not_compile engine spec.pattern) invalid_spec at) _ h1.1 in
    let h3 = append-nil_parts (flag (is_above engine spec.min spec.max) invalid_spec at) _ h2.1 in
    let h4 =
      append-nil_parts
        (flag (is_longer_than engine spec.min_length spec.max_length) invalid_spec at) _ h3.1 in
    let h5 = append-nil_parts (enum_issues engine spec.type_name spec at) _ h4.1 in
    let h6 =
      append-nil_parts (flag (is_some spec.generate && not spec.is_secret) invalid_spec at) _
        h5.1 in
    (h5.0, h6.1)

-- Where a spec's check finds nothing wrong with the default, the value's check finds nothing.
choice_agrees :
    (o e i : Bool) (c : ParamIssueCode) (at : String)
    → e ≡ false
    → flag (not o || (not e && not i)) invalid_spec at ≡ List.[]
    → flag (o && not i) c at ≡ List.[]
choice_agrees true true i c at full h = absurd (cc)
choice_agrees true false true c at full h = refl
choice_agrees true false false c at full h = absurd (cc)
choice_agrees false e i c at full h = absurd (cc)

text_agrees :
    (e b : Bool) (c : ParamIssueCode) (at : String)
    → e ≡ false
    → flag (not e && not b) invalid_spec at ≡ List.[]
    → flag (not b) c at ≡ List.[]
text_agrees true b c at full h = absurd (cc)
text_agrees false true c at full h = refl
text_agrees false false c at full h = absurd (cc)

enum_accepts :
    (engine : ParamEngine) (spec : ParamSpec) (at : String)
    → enum_issues engine (some enum) spec at ≡ List.[]
    → is_empty_text spec.value ≡ false
    → typed_issues engine enum spec spec.value at ≡ List.[]
unfolding enum_issues typed_issues
enum_accepts engine spec at h full =
    choice_agrees (has_options spec) (is_empty_text spec.value) (is_option spec spec.value)
      invalid_enum_value at full h

boolean_accepts :
    (engine : ParamEngine) (spec : ParamSpec) (at : String)
    → boolean_issues engine (some boolean) spec at ≡ List.[]
    → is_empty_text spec.value ≡ false
    → typed_issues engine boolean spec spec.value at ≡ List.[]
unfolding boolean_issues typed_issues
boolean_accepts engine spec at h full =
    text_agrees (is_empty_text spec.value) (is_boolean_text spec spec.value) invalid_boolean at full
      (append-nil_parts (flag (same_values engine spec.true_value spec.false_value) invalid_spec at)
        _ h).1

token_accepted :
    (engine : ParamEngine) (spec : ParamSpec) (at : String)
    → is_empty_text spec.value ≡ false
    → includes known_platform_tokens spec.value ≡ true
    → validate_param_value engine spec spec.value at ≡ List.[]
unfolding validate_param_value
token_accepted engine spec at full token = rw full (rw token)

accepted_typed :
    (engine : ParamEngine) (spec : ParamSpec) (t : ParamType)
    → spec.type_name ≡ some t
    → is_empty_text spec.value ≡ false
    → typed_issues engine t spec spec.value (env_path spec) ≡ List.[]
    → validate_param_value engine spec spec.value (env_path spec) ≡ List.[]
accepted_typed engine spec t typed full fine =
    elim (Bool-cases (includes known_platform_tokens spec.value)) [
      | inl token ↦ token_accepted engine spec (env_path spec) full token
      | inr literal ↦
          checked_by_type engine spec spec.value (env_path spec) t typed full literal ∙ fine
    ]

-- A spec of type `enum` or `boolean` with a default that the lint finds nothing wrong with accepts
-- that default: the lint of the manifest and the check of the value agree.
accepted_default :
    (engine : ParamEngine) (spec : ParamSpec)
    → (spec.type_name ≡ some enum) ⊎ (spec.type_name ≡ some boolean)
    → is_empty_text spec.value ≡ false
    → validate_param_spec engine spec ≡ List.[]
    → validate_param_value engine spec spec.value (env_path spec) ≡ List.[]
accepted_default engine spec (inl e) full h = accepted_typed engine spec enum e full (
    enum_accepts engine spec (env_path spec)
      (subst (λ t. enum_issues engine t spec (env_path spec) ≡ List.[]) e
        (spec_parts engine spec h).0)
      full)
accepted_default engine spec (inr e) full h = accepted_typed engine spec boolean e full (
    boolean_accepts engine spec (env_path spec)
      (subst (λ t. boolean_issues engine t spec (env_path spec) ≡ List.[]) e
        (spec_parts engine spec h).1)
      full)
