-- ===== src/ParamValidate/Specs.antt =====
-- packages/shared/src/param-validate.ts: the lint of the specs themselves.
use Prim.Native.String.{String}
use mathlib.Core.List.{List, ◌++◌}
use hola.Prelude.{
  ℕ, Bool, true, false, ◌&&◌, ◌||◌, not, Option, none, some, ltb, str_eq, is_empty_text, is_some,
}
use hola.Prelude.Int.{ℤ, less_than}
use hola.ParamValidate.{
  ParamEngine, ParamType, ParamSpec, ParamIssue, env_path, no_issue, flag, is_boolean_text,
  has_options, is_option, boolean, enum, other, invalid_spec,
}

module _ (engine : ParamEngine) where
  abbrev pub is_unknown : Option ParamType → Bool
  is_unknown (some (other name)) = true
  is_unknown t = false

  abbrev pub is_above : Option ℤ → Option ℤ → Bool
  is_above (some a) (some b) = less_than b a
  is_above a b = false

  abbrev pub is_longer_than : Option ℕ → Option ℕ → Bool
  is_longer_than (some a) (some b) = ltb b a
  is_longer_than a b = false

  abbrev pub does_not_compile : Option String → Bool
  does_not_compile none = false
  does_not_compile (some p) = not (is_some (engine.compile_pattern p))

  abbrev pub same_values : Option String → Option String → Bool
  same_values (some a) (some b) = str_eq a b
  same_values a b = false

  unfoldable pub enum_issues : Option ParamType → ParamSpec → String → List ParamIssue
  enum_issues (some enum) spec at =
      flag
        (not (has_options spec)
          || (not (is_empty_text spec.value) && not (is_option spec spec.value)))
        invalid_spec at
  enum_issues t spec at = no_issue

  unfoldable pub boolean_issues : Option ParamType → ParamSpec → String → List ParamIssue
  boolean_issues (some boolean) spec at =
      flag (same_values spec.true_value spec.false_value) invalid_spec at
      ++ flag (not (is_empty_text spec.value) && not (is_boolean_text spec spec.value)) invalid_spec
          at
  boolean_issues t spec at = no_issue

  unfoldable pub validate_param_spec : ParamSpec → List ParamIssue
  validate_param_spec spec =
      let at = env_path spec in
      flag (is_unknown spec.type_name) invalid_spec at
      ++ (flag (does_not_compile spec.pattern) invalid_spec at
          ++ (flag (is_above spec.min spec.max) invalid_spec at
              ++ (flag (is_longer_than spec.min_length spec.max_length) invalid_spec at
                  ++ (enum_issues spec.type_name spec at
                      ++ (flag (is_some spec.generate && not spec.is_secret) invalid_spec at
                          ++ boolean_issues spec.type_name spec at)))))
