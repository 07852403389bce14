-- ===== src/ComposeValidate/Confinement.antt =====
-- What an accepted document cannot ask for.
use Prim.Native.String.{String}
use text.Mathlib.Text.{starts_with}
use hola.Prelude.{
  ◌≡◌, refl, ◌≢◌, ◌⊎◌, inl, inr, ℕ, ◌+◌, Bool, true, false, not, List, [], ◌∷◌, arith, Bool-cases,
  Among, is_empty_text, trim, eq_iff,
}
use hola.Prelude.Json.{
  Value, Values, Members, undefined, null, boolean, number, string, array, object, nil, cons,
  none_left, member, field,
}
use hola.ComposeValidate.Issues.{
  has_errors, has_errors-append, issue, error, ComposeIssueCode, security_opt_not_allowed,
}
use hola.ComposeValidate.Volumes.{validate_volumes}
use hola.ComposeValidate.Containment.{AreMountsContained, volumes_from-AreMountsContained}
use hola.ComposeValidate.Services.{Engine, when, validate_network_mode}
use hola.ComposeValidate.Privileges.{
  ports_from, validate_ports, carries_value, key_issues, privilege_bearing_keys,
  allowed_security_opt, is_allowed_opt, opts_from, opt_entries, security_opt_issues,
}

-- A value that grants nothing.
abbrev IsEmptyValue : Value → Type 0
IsEmptyValue undefined = Unit
IsEmptyValue null = Unit
IsEmptyValue (boolean b) = b ≡ false
IsEmptyValue (number n) = ⊥
IsEmptyValue (string s) = is_empty_text (trim s) ≡ true
IsEmptyValue (array vs) = vs ≡ nil
IsEmptyValue (object ms) = ms ≡ none_left

abbrev IsPortless : Value → Type 0
IsPortless (array vs) = vs ≡ nil
IsPortless v = Unit

abbrev IsOwnNetwork : Engine → Value → Type 0
IsOwnNetwork engine (string mode) =
    (engine.to_lower_case (trim mode) ≢ "host")
    × (starts_with (engine.to_lower_case (trim mode)) "container:" ≡ false)
IsOwnNetwork engine v = Unit

-- The platform's own hardening, and no other option.
abbrev IsHardening : Value → Type 0
IsHardening (string s) = trim s ≡ allowed_security_opt
IsHardening v = ⊥

abbrev AreHardening : Values → Type 0
AreHardening nil = Unit
AreHardening (cons v vs) = IsHardening v × AreHardening vs

abbrev IsHardened : Value → Type 0
IsHardened (array vs) = AreHardening vs
IsHardened v = IsEmptyValue v ⊎ IsHardening v

abbrev IsMountList : Value → Type 0
IsMountList (array vs) = AreMountsContained vs
IsMountList v = Unit

pub record IsConfined (engine : Engine) (svc : Members) : Type 0 where
  pub portless : IsPortless (field "ports" svc)
  pub own_network : IsOwnNetwork engine (field "network_mode" svc)
  pub unprivileged :
      (key : String) → Among key privilege_bearing_keys → IsEmptyValue (field key svc)
  pub hardened : IsHardened (field "security_opt" svc)
  pub mounts : IsMountList (field "volumes" svc)

pub when-error :
    (b : Bool) (c : ComposeIssueCode) (path : String)
    → has_errors (when b (issue c error path)) ≡ false
    → b ≡ false
unfolding has_errors
when-error true c path h = cc
when-error false c path h = refl

pub validate_ports-IsPortless :
    (name : String) (v : Value) → has_errors (validate_ports name v) ≡ false → IsPortless v
unfolding validate_ports ports_from has_errors
validate_ports-IsPortless name (array nil) h = refl
validate_ports-IsPortless name (array (cons v vs)) h = absurd (cc)
validate_ports-IsPortless name undefined h = tt
validate_ports-IsPortless name null h = tt
validate_ports-IsPortless name (boolean b) h = tt
validate_ports-IsPortless name (number n) h = tt
validate_ports-IsPortless name (string s) h = tt
validate_ports-IsPortless name (object ms) h = tt

pub validate_network_mode-IsOwnNetwork :
    (engine : Engine) (name : String) (v : Value)
    → has_errors (validate_network_mode engine name v) ≡ false
    → IsOwnNetwork engine v
unfolding validate_network_mode has_errors
validate_network_mode-IsOwnNetwork engine name (string mode) h =
    (ground (arith, eq_iff (engine.to_lower_case (trim mode)) "host"), ground arith)
validate_network_mode-IsOwnNetwork engine name undefined h = tt
validate_network_mode-IsOwnNetwork engine name null h = tt
validate_network_mode-IsOwnNetwork engine name (boolean b) h = tt
validate_network_mode-IsOwnNetwork engine name (number n) h = tt
validate_network_mode-IsOwnNetwork engine name (array vs) h = tt
validate_network_mode-IsOwnNetwork engine name (object ms) h = tt

carries_value-IsEmptyValue : (v : Value) → carries_value v ≡ false → IsEmptyValue v
unfolding carries_value
carries_value-IsEmptyValue undefined h = tt
carries_value-IsEmptyValue null h = tt
carries_value-IsEmptyValue (boolean b) h = h
carries_value-IsEmptyValue (number n) h = cc
carries_value-IsEmptyValue (string s) h = ground arith
carries_value-IsEmptyValue (array nil) h = refl
carries_value-IsEmptyValue (array (cons v vs)) h = absurd (cc)
carries_value-IsEmptyValue (object none_left) h = refl
carries_value-IsEmptyValue (object (member k v ms)) h = absurd (cc)

pub key_issues-IsEmptyValue :
    (base : String) (ms : Members) (ks : List String) (key : String)
    → has_errors (key_issues base ms ks) ≡ false
    → Among key ks
    → IsEmptyValue (field key ms)
unfolding key_issues
key_issues-IsEmptyValue base ms [] key h m = absurd m
key_issues-IsEmptyValue base ms (k ∷ ks) key h m =
    let (here, later) =
      has_errors-append (when (carries_value (field k ms)) _) (key_issues base ms ks) h in
    elim m [
      | inl e ↦ rw (← e) (carries_value-IsEmptyValue (field k ms) (when-error _ _ _ here))
      | inr r ↦ key_issues-IsEmptyValue base ms ks key later r
    ]

is_allowed_opt-IsHardening : (v : Value) → not (is_allowed_opt v) ≡ false → IsHardening v
is_allowed_opt-IsHardening (string s) h = ground (arith, eq_iff (trim s) allowed_security_opt)
is_allowed_opt-IsHardening undefined h = cc
is_allowed_opt-IsHardening null h = cc
is_allowed_opt-IsHardening (boolean b) h = cc
is_allowed_opt-IsHardening (number n) h = cc
is_allowed_opt-IsHardening (array vs) h = cc
is_allowed_opt-IsHardening (object ms) h = cc

opts_from-AreHardening :
    (base : String) (i : ℕ) (vs : Values)
    → has_errors (opts_from base i vs) ≡ false
    → AreHardening vs
unfolding opts_from
opts_from-AreHardening base i nil h = tt
opts_from-AreHardening base i (cons v vs) h =
    let (here, later) =
      has_errors-append (when (not (is_allowed_opt v)) _) (opts_from base (i + 1) vs) h in
    (
      is_allowed_opt-IsHardening v (when-error _ _ _ here),
      opts_from-AreHardening base (i + 1) vs later,
    )

opt-IsHardening :
    (base : String) (v : Value)
    → has_errors (when (not (is_allowed_opt v)) (issue security_opt_not_allowed error base)) ≡ false
    → IsHardening v
opt-IsHardening base v h =
    is_allowed_opt-IsHardening v
      (when-error (not (is_allowed_opt v)) security_opt_not_allowed base h)

opt_entries-IsHardened :
    (base : String) (v : Value) → has_errors (opt_entries base v) ≡ false → IsHardened v
opt_entries-IsHardened base (array vs) h = opts_from-AreHardening base 0 vs h
opt_entries-IsHardened base undefined h = inl tt
opt_entries-IsHardened base null h = inl tt
opt_entries-IsHardened base (boolean b) h = inr (opt-IsHardening base (boolean b) h)
opt_entries-IsHardened base (number n) h = inr (opt-IsHardening base (number n) h)
opt_entries-IsHardened base (string s) h = inr (opt-IsHardening base (string s) h)
opt_entries-IsHardened base (object ms) h = inr (opt-IsHardening base (object ms) h)

IsEmptyValue-IsHardened : (v : Value) → IsEmptyValue v → IsHardened v
IsEmptyValue-IsHardened (array nil) h = tt
IsEmptyValue-IsHardened (array (cons v vs)) h = absurd (cc)
IsEmptyValue-IsHardened undefined h = inl h
IsEmptyValue-IsHardened null h = inl h
IsEmptyValue-IsHardened (boolean b) h = inl h
IsEmptyValue-IsHardened (number n) h = inl h
IsEmptyValue-IsHardened (string s) h = inl h
IsEmptyValue-IsHardened (object ms) h = inl h

pub security_opt_issues-IsHardened :
    (base : String) (v : Value) → has_errors (security_opt_issues base v) ≡ false → IsHardened v
unfolding security_opt_issues
security_opt_issues-IsHardened base v h = elim (Bool-cases (carries_value v)) [
  | inl carries ↦ opt_entries-IsHardened base v (rw carries at h)
  | inr empty ↦ IsEmptyValue-IsHardened v (carries_value-IsEmptyValue v empty)
]

pub validate_volumes-IsMountList :
    (base : String) (v : Value) → has_errors (validate_volumes base v) ≡ false → IsMountList v
unfolding validate_volumes
validate_volumes-IsMountList base (array vs) h = volumes_from-AreMountsContained base 0 vs h
validate_volumes-IsMountList base undefined h = tt
validate_volumes-IsMountList base null h = tt
validate_volumes-IsMountList base (boolean b) h = tt
validate_volumes-IsMountList base (number n) h = tt
validate_volumes-IsMountList base (string s) h = tt
validate_volumes-IsMountList base (object ms) h = tt
