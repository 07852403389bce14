-- ===== src/RestoreCandidates/Gates.antt =====
-- The gates of a restore choice, one after the other, as one test.
use mathlib.Core.List.{List, [], ◌∷◌, ◌++◌}
use hola.Prelude
use hola.Prelude.{
  String, ◌≡◌, ◌≢◌, ◌↔◌, refl, sym, ap, ◌∙◌, inl, inr, ◌⊎◌, Bool, true, false, not, ◌&&◌, ◌||◌,
  Option, none, some, arith, if◌then◌else◌, Bool-cases, Option-cases, includes, select, all,
  is_empty, value_or, str_eq, eq_iff,
}
use hola.RestoreCandidates.{marker, Described}
use hola.RestoreCandidates.Choice.{
  RestoreChoice, Refusal, refused_skew, acknowledgement_gate, validate_restore_choice, ack_required,
  env_required, candidate_from, Terms,
}
use hola.RestoreCandidates.Listing.{
  RestoreSkewVerdict, compute_skew_verdict, is_unknown_skew, is_inferred, code_if,
  derive_required_acknowledgements,
}
use hola.RestoreCandidates.Verdicts.{IsFit, IsUnjudged}
use hola.RestoreCandidates.{Confidence, marker, path}

-- The operator has acknowledged the code.
abbrev pub HasAcked : RestoreChoice → String → Type 0
HasAcked choice code = includes (value_or choice.acknowledge []) code ≡ true

abbrev pub IsAgreed : Terms → Described → Type 0
IsAgreed t d =
    (IsFit d.app_version t.target_version t.meta
      ⊎ (IsUnjudged d.app_version t.target_version t.meta
          × HasAcked t.choice "restore-version-unknown"))
    × (((t.choice.carry_env ≡ true) × (d.carries_env ≡ true))
        ⊎ ((t.requires_env ≡ false) × HasAcked t.choice "restore-env-not-carried"))
    × ((d.confidence ≡ marker) ⊎ HasAcked t.choice "restore-inferred-identity")

-- The gate of the acknowledgements.
all-append : (p : String → Bool) (xs ys : List String) → all p (xs ++ ys) ≡ (all p xs && all p ys)
all-append p [] ys = refl
all-append p (x ∷ xs) ys = elim (Bool-cases (p x)) [
  | inl good ↦ rw good (all-append p xs ys)
  | inr bad ↦ rw bad refl
]

nothing_missing :
    (p : String → Bool) (xs : List String) → is_empty (select (λ x. not (p x)) xs) ≡ all p xs
nothing_missing p [] = refl
nothing_missing p (x ∷ xs) = elim (Bool-cases (p x)) [
  | inl good ↦ rw good (nothing_missing p xs)
  | inr bad ↦ rw bad refl
]

if_ok :
    (b : Bool) (x r : List String) (e : Refusal)
    → (if b then Prelude.ok x else Prelude.err e) ≡ Prelude.ok r
    → b ≡ true
if_ok true x r e h = refl
if_ok false x r e h = absurd (cc)

code_all : (p : String → Bool) (b : Bool) (c : String) → all p (code_if b c) ≡ (not b || p c)
code_all p true c = and_true (p c)
  where
    and_true : (b : Bool) → (b && true) ≡ b
    and_true true = refl
    and_true false = refl
code_all p false c = refl

-- The three acknowledgements, each where it is needed.
abbrev gates : Terms → Described → RestoreSkewVerdict → Bool
gates t d skew =
    let p = includes (value_or t.choice.acknowledge []) in
    (not (is_unknown_skew skew) || p "restore-version-unknown")
    && ((not (not t.choice.carry_env || not d.carries_env) || p "restore-env-not-carried")
        && (not (is_inferred d.confidence) || p "restore-inferred-identity"))

abbrev pub required_of : Terms → Described → RestoreSkewVerdict → List String
required_of t d skew =
    derive_required_acknowledgements skew t.choice.carry_env d.carries_env d.confidence

all-required :
    (t : Terms) (d : Described) (skew : RestoreSkewVerdict)
    → all (includes (value_or t.choice.acknowledge [])) (required_of t d skew) ≡ gates t d skew
unfolding derive_required_acknowledgements
all-required t d skew =
    let p = includes (value_or t.choice.acknowledge []) in
    let first = code_if (is_unknown_skew skew) "restore-version-unknown" in
    let second = code_if (not t.choice.carry_env || not d.carries_env) "restore-env-not-carried" in
    let third = code_if (is_inferred d.confidence) "restore-inferred-identity" in
    all-append p first (second ++ third)
    ∙ ap (λ b. b && all p (second ++ third))
        (code_all p (is_unknown_skew skew) "restore-version-unknown")
    ∙ ap (λ b. (not (is_unknown_skew skew) || p "restore-version-unknown") && b)
        (all-append p second third
          ∙ ap (λ b. b && all p third)
              (code_all p (not t.choice.carry_env || not d.carries_env) "restore-env-not-carried")
          ∙ ap
              (λ b.
                (not (not t.choice.carry_env || not d.carries_env) || p "restore-env-not-carried")
                && b)
              (code_all p (is_inferred d.confidence) "restore-inferred-identity"))

-- What follows once the versions are not refused.
abbrev pub after_skew :
    Terms → Described → RestoreSkewVerdict → Prelude.Result Refusal (List String)
after_skew t d skew =
    if t.requires_env && not (t.choice.carry_env && d.carries_env)
    then Prelude.err (env_required t.env_not_carried_keys)
    else acknowledgement_gate (value_or t.choice.acknowledge []) (required_of t d skew)

abbrev pub validated :
    Terms → Described → RestoreSkewVerdict → Option Refusal → Prelude.Result Refusal (List String)
validated t d skew (some refusal) = Prelude.err refusal
validated t d skew none = after_skew t d skew

pub validate-validated :
    (t : Terms) (d : Described)
    → (skew : RestoreSkewVerdict)
    → compute_skew_verdict d.app_version t.target_version t.meta ≡ skew
    → validate_restore_choice
        (candidate_from d t.target_version t.meta)
        t.choice
        t.requires_env
        t.env_not_carried_keys
        t.target_version
      ≡ validated t d skew (refused_skew skew d.app_version t.target_version)
unfolding validate_restore_choice
validate-validated t d skew e =
    by_refusal (compute_skew_verdict d.app_version t.target_version t.meta) (
      refused_skew (compute_skew_verdict d.app_version t.target_version t.meta) d.app_version
        t.target_version)
    ∙ ap (λ s. validated t d s (refused_skew s d.app_version t.target_version)) e
  where
    by_refusal :
        (s : RestoreSkewVerdict) (o : Option Refusal)
        → (elim o as (λ _. Prelude.Result Refusal (List String)) [
          | some refusal ↦ Prelude.err refusal
          | none ↦ after_skew t d s
        ])
          ≡ validated t d s o
    by_refusal s none = refl
    by_refusal s (some refusal) = refl

pub after_skew-gates :
    (t : Terms) (d : Described) (skew : RestoreSkewVerdict) (r : List String)
    → after_skew t d skew ≡ Prelude.ok r
    → ((t.requires_env && not (t.choice.carry_env && d.carries_env)) ≡ false)
      × (gates t d skew ≡ true)
after_skew-gates t d skew r = by_env (t.requires_env && not (t.choice.carry_env && d.carries_env))
  where
    by_env :
        (b : Bool)
        → (if b
            then Prelude.err (env_required t.env_not_carried_keys)
            else acknowledgement_gate (value_or t.choice.acknowledge []) (required_of t d skew))
          ≡ Prelude.ok r
        → (b ≡ false) × (gates t d skew ≡ true)
    by_env true h = absurd (cc)
    by_env false h =
        let p = includes (value_or t.choice.acknowledge []) in
        let missing = select (λ code. not (p code)) (required_of t d skew) in
        (
          refl,
          sym (all-required t d skew)
              ∙ sym (nothing_missing p (required_of t d skew))
              ∙ if_ok (is_empty missing) (required_of t d skew) r (ack_required missing) h,
        )

pub gates-after_skew :
    (t : Terms) (d : Described) (skew : RestoreSkewVerdict)
    → (t.requires_env && not (t.choice.carry_env && d.carries_env)) ≡ false
    → gates t d skew ≡ true
    → after_skew t d skew ≡ Prelude.ok (required_of t d skew)
gates-after_skew t d skew e g =
    let p = includes (value_or t.choice.acknowledge []) in
    let required = required_of t d skew in
    let missing = select (λ code. not (p code)) required in
    ap
      (λ b.
        if b
        then Prelude.err (env_required t.env_not_carried_keys)
        else acknowledgement_gate (value_or t.choice.acknowledge []) required)
      e
    ∙ ap (λ b. if b then Prelude.ok required else Prelude.err (ack_required missing))
        (nothing_missing p required ∙ all-required t d skew ∙ g)

pub marker_of : (c : Confidence) → is_inferred c ≡ false → c ≡ marker
marker_of marker h = refl
marker_of path h = absurd (cc)
