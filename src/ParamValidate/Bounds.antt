-- ===== src/ParamValidate/Bounds.antt =====
-- The numbers of accepted values.
use Prim.Native.String.{String}
use mathlib.Core.List.{List}
use hola.Prelude.{
  ◌≡◌, refl, ap, sym, ◌∙◌, ℕ, ◌≤◌, Bool, true, false, ◌||◌, Option, none, some, arith, includes,
  is_empty_text, value_or, neither_of,
}
use hola.Prelude.Int.{
  ℤ, pos, negsuc, ◌≤ℤ◌, less_than, le-of_not_less, larger, smaller, larger-bounds, smaller-bounds,
}
use hola.ComposeValidate.Document.{known_platform_tokens}
use hola.ParamValidate.{
  ParamSpec, ParamEngine, ParamIssueCode, ParamType, flag, text, port, read_integer, port_min,
  port_max, port_issues, invalid_port, typed_issues, validate_param_value,
}

abbrev IsAtLeast : Option ℤ → ℤ → Type 0
IsAtLeast none n = Unit
IsAtLeast (some m) n = m ≤ℤ n

abbrev IsAtMost : Option ℤ → ℤ → Type 0
IsAtMost none n = Unit
IsAtMost (some m) n = n ≤ℤ m

flag-nil : (b : Bool) (c : ParamIssueCode) (at : String) → flag b c at ≡ List.[] → b ≡ false
flag-nil true c at h = absurd (cc)
flag-nil false c at h = refl

port_min-IsAtLeast :
    (m : Option ℤ) (n : ℤ)
    → less_than n (larger (pos 1) (value_or m (pos 1))) ≡ false
    → (pos 1 ≤ℤ n) × IsAtLeast m n
port_min-IsAtLeast none n h =
    ((larger-bounds (pos 1) (pos 1) n (le-of_not_less n (larger (pos 1) (pos 1)) h)).0, tt)
port_min-IsAtLeast (some m) n h = larger-bounds (pos 1) m n (le-of_not_less n (larger (pos 1) m) h)

port_max-IsAtMost :
    (m : Option ℤ) (n : ℤ)
    → less_than (smaller (pos 65535) (value_or m (pos 65535))) n ≡ false
    → (n ≤ℤ pos 65535) × IsAtMost m n
port_max-IsAtMost none n h = (
  (smaller-bounds (pos 65535) (pos 65535) n
      (le-of_not_less (smaller (pos 65535) (pos 65535)) n h)).0,
  tt,
)
port_max-IsAtMost (some m) n h =
    smaller-bounds (pos 65535) m n (le-of_not_less (smaller (pos 65535) m) n h)

-- A natural number in the spec's range and in a fixed one.
pub record IsInRange (spec : ParamSpec) (low high : ℕ) (parsed : Option ℤ) : Type 0 where
  pub number : ℕ
  pub is_parsed : parsed ≡ some (pos number)
  pub from : low ≤ number
  pub to : number ≤ high
  pub above : IsAtLeast spec.min (pos number)
  pub below : IsAtMost spec.max (pos number)

port_issues-IsInRange :
    (engine : ParamEngine) (spec : ParamSpec) (parsed : Option ℤ) (at : String)
    → port_issues engine spec parsed at ≡ List.[]
    → IsInRange spec 1 65535 parsed
unfolding port_min port_max
port_issues-IsInRange engine spec none at h = absurd (cc)
port_issues-IsInRange engine spec (some n) at h =
    let fine =
      neither_of (less_than n (port_min spec)) (less_than (port_max spec) n)
        (flag-nil (less_than n (port_min spec) || less_than (port_max spec) n) invalid_port at h) in
    natural n (port_min-IsAtLeast spec.min n fine.0) (port_max-IsAtMost spec.max n fine.1)
  where
    natural :
        (k : ℤ)
        → (pos 1 ≤ℤ k) × IsAtLeast spec.min k
        → (k ≤ℤ pos 65535) × IsAtMost spec.max k
        → IsInRange spec 1 65535 (some k)
    natural (pos k) (l, m) (u, x) = record {
      number = k;
      is_parsed = refl;
      from = omega arith;
      to = omega arith;
      above = m;
      below = x;
    }
    natural (negsuc k) (l, m) u = absurd (omega arith)

-- The checks that come before the type's are passed, so the type's issues are all.
pub checked_by_type :
    (engine : ParamEngine) (spec : ParamSpec) (value at : String) (t : ParamType)
    → spec.type_name ≡ some t
    → is_empty_text value ≡ false
    → includes known_platform_tokens value ≡ false
    → validate_param_value engine spec value at ≡ typed_issues engine t spec value at
unfolding validate_param_value
checked_by_type engine spec value at t typed full literal =
    rw full (rw literal (ap (λ o. typed_issues engine (value_or o text) spec value at) typed))

-- A value that a `port` parameter accepts, other than the empty text and a platform token, is the
-- decimal text of a whole number from 1 to 65535, whatever the spec's bounds are, and the number
-- keeps to those bounds too.
pub accepted_port_bounds :
    (engine : ParamEngine) (spec : ParamSpec) (value at : String)
    → spec.type_name ≡ some port
    → is_empty_text value ≡ false
    → includes known_platform_tokens value ≡ false
    → validate_param_value engine spec value at ≡ List.[]
    → IsInRange spec 1 65535 (read_integer value)
unfolding typed_issues
accepted_port_bounds engine spec value at typed full literal h =
    port_issues-IsInRange engine spec (read_integer value) at
      (sym (checked_by_type engine spec value at port typed full literal) ∙ h)
