-- ===== src/RestoreCandidates/Justified.antt =====
-- When a restore is accepted.
use mathlib.Core.List.{List, []}
use hola.Prelude
use hola.Prelude.{
  String, ◌≡◌, ◌≢◌, ◌↔◌, refl, sym, ap, ◌∙◌, inl, inr, ◌⊎◌, Bool, true, false, not, ◌&&◌, ◌||◌,
  Option, none, some, arith, if◌then◌else◌, Bool-cases, Option-cases, includes, select, all,
  is_empty, value_or, str_eq, eq_iff,
}
use hola.RestoreCandidates.{marker, Described}
use hola.RestoreCandidates.Choice.{
  Refusal, refused_skew, validate_restore_choice, candidate_from, accept_with, Terms,
  judge_described,
}
use hola.RestoreCandidates.Listing.{
  RestoreSkewVerdict, unknown, ok, compute_skew_verdict, is_unknown_skew, is_inferred,
  RestoreCandidate,
}
use hola.RestoreCandidates.Verdicts.{compute_skew_verdict-Says, IsFit-ok, IsUnjudged-unknown}
use hola.RestoreCandidates.Gates.{
  marker_of, HasAcked, IsAgreed, required_of, after_skew, validated, validate-validated,
  after_skew-gates, gates-after_skew,
}

-- What the gates say, and back.
abbrev EnvFine : Bool → Bool → Bool → Bool → Type 0
EnvFine requires carry carries acked =
    ((carry ≡ true) × (carries ≡ true)) ⊎ ((requires ≡ false) × (acked ≡ true))

implied : (b a : Bool) → (not b || a) ≡ true → (b ≡ false) ⊎ (a ≡ true)
implied true a h = inr h
implied false a h = inl refl

module _ (requires carry carries : Bool)
    (first acked_first acked_env inferred acked_path : Bool) where
  gates_say :
      (requires && not (carry && carries)) ≡ false
      → ((not first || acked_first)
          && ((not (not carry || not carries) || acked_env) && (not inferred || acked_path)))
        ≡ true
      → ((first ≡ false) ⊎ (acked_first ≡ true))
        × EnvFine requires carry carries acked_env
        × ((inferred ≡ false) ⊎ (acked_path ≡ true))
  gates_say h k = (
    implied first acked_first (ground arith),
    elim (Bool-cases carry) [
      | inr no_carry ↦ inr (ground arith, ground arith)
      | inl carries_on ↦ elim (Bool-cases carries) [
        | inl held ↦ inl (carries_on, held)
        | inr none_held ↦ inr (ground arith, ground arith)
      ]
    ],
    implied inferred acked_path (ground arith),
  )

  gates_hold :
      ((first ≡ false) ⊎ (acked_first ≡ true))
      → EnvFine requires carry carries acked_env
      → ((inferred ≡ false) ⊎ (acked_path ≡ true))
      → ((requires && not (carry && carries)) ≡ false)
        × (((not first || acked_first)
              && ((not (not carry || not carries) || acked_env) && (not inferred || acked_path)))
            ≡ true)
  gates_hold a b c = (ground arith, ground arith)

-- The conditions apart from the versions, for a verdict that is not a refusal.
abbrev IsSettledWith : Terms → Described → RestoreSkewVerdict → Type 0
IsSettledWith t d skew =
    ((is_unknown_skew skew ≡ false) ⊎ HasAcked t.choice "restore-version-unknown")
    × EnvFine t.requires_env t.choice.carry_env d.carries_env
        (includes (value_or t.choice.acknowledge []) "restore-env-not-carried")
    × ((is_inferred d.confidence ≡ false) ⊎ HasAcked t.choice "restore-inferred-identity")

module _ (t : Terms) (d : Described) where
  ok_of :
      (v : Prelude.Result Refusal (List String)) (r : RestoreCandidate × List String)
      → accept_with (candidate_from d t.target_version t.meta) v ≡ Prelude.ok r
      → (required : List String) × (v ≡ Prelude.ok required)
  ok_of (Prelude.err e) r h = absurd (cc)
  ok_of (Prelude.ok required) r h = (required, refl)

  after_skew-IsSettledWith :
      (skew : RestoreSkewVerdict) (r : List String)
      → after_skew t d skew ≡ Prelude.ok r
      → IsSettledWith t d skew
  after_skew-IsSettledWith skew r h =
      let p = includes (value_or t.choice.acknowledge []) in
      let (env, open_gates) = after_skew-gates t d skew r h in
      gates_say t.requires_env t.choice.carry_env d.carries_env (is_unknown_skew skew)
        (p "restore-version-unknown") (p "restore-env-not-carried") (is_inferred d.confidence)
        (p "restore-inferred-identity") env open_gates

  IsSettledWith-after_skew :
      (skew : RestoreSkewVerdict)
      → IsSettledWith t d skew
      → after_skew t d skew ≡ Prelude.ok (required_of t d skew)
  IsSettledWith-after_skew skew (a, b, c) =
      let p = includes (value_or t.choice.acknowledge []) in
      let (env, open_gates) =
        gates_hold t.requires_env t.choice.carry_env d.carries_env (is_unknown_skew skew)
          (p "restore-version-unknown") (p "restore-env-not-carried") (is_inferred d.confidence)
          (p "restore-inferred-identity") a b c in
      gates-after_skew t d skew env open_gates

  confident :
      ((is_inferred d.confidence ≡ false) ⊎ HasAcked t.choice "restore-inferred-identity")
      → (d.confidence ≡ marker) ⊎ HasAcked t.choice "restore-inferred-identity"
  confident (inl c) = inl (marker_of d.confidence c)
  confident (inr a) = inr a

  pub judge_described-IsAgreed :
      (r : RestoreCandidate × List String) → judge_described t d ≡ Prelude.ok r → IsAgreed t d
  judge_described-IsAgreed r h =
      let c = candidate_from d t.target_version t.meta in
      let (required, v) =
        ok_of
          (validate_restore_choice c t.choice t.requires_env t.env_not_carried_keys
            t.target_version)
          r h in
      elim (compute_skew_verdict-Says d.app_version t.target_version t.meta) [
        | inl (e, fit) ↦
            let (a, b, i) =
              after_skew-IsSettledWith ok required (sym (validate-validated t d ok e) ∙ v) in
            (inl fit, b, confident i)
        | inr (inl (e, missing)) ↦
            let (a, b, i) =
              after_skew-IsSettledWith unknown required
                (sym (validate-validated t d unknown e) ∙ v) in
            (inr (missing, acked a), b, confident i)
        | inr (inr (refusal, e)) ↦ absurd (refused_never refusal (sym (validated_by refusal e) ∙ v))
      ]
    where
      acked :
          ((is_unknown_skew unknown ≡ false) ⊎ HasAcked t.choice "restore-version-unknown")
          → HasAcked t.choice "restore-version-unknown"
      acked (inl never) = absurd (cc)
      acked (inr a) = a

      refused_never : (refusal : Refusal) {r : List String} → Prelude.err refusal ≡ Prelude.ok r → ⊥
      refused_never refusal h = cc

      validated_by :
          (refusal : Refusal)
          → refused_skew
              (compute_skew_verdict d.app_version t.target_version t.meta)
              d.app_version
              t.target_version
            ≡ some refusal
          → validate_restore_choice
              (candidate_from d t.target_version t.meta)
              t.choice
              t.requires_env
              t.env_not_carried_keys
              t.target_version
            ≡ Prelude.err refusal
      validated_by refusal e =
          let skew = compute_skew_verdict d.app_version t.target_version t.meta in
          validate-validated t d skew refl ∙ ap (validated t d skew) e

  pub IsAgreed-judge_described :
      IsAgreed t d → (r : RestoreCandidate × List String) × (judge_described t d ≡ Prelude.ok r)
  IsAgreed-judge_described (versions, env, identity) = elim versions [
    | inl fit ↦
        by_skew ok (IsFit-ok d.app_version t.target_version t.meta fit) refl
          (inl refl, env, back identity)
    | inr (missing, acked) ↦
        by_skew unknown (IsUnjudged-unknown d.app_version t.target_version t.meta missing) refl
          (inr acked, env, back identity)
  ]
    where
      back :
          ((d.confidence ≡ marker) ⊎ HasAcked t.choice "restore-inferred-identity")
          → (is_inferred d.confidence ≡ false) ⊎ HasAcked t.choice "restore-inferred-identity"
      back (inl m) = inl (ap is_inferred m)
      back (inr a) = inr a

      by_skew :
          (skew : RestoreSkewVerdict)
          → compute_skew_verdict d.app_version t.target_version t.meta ≡ skew
          → refused_skew skew d.app_version t.target_version ≡ none
          → IsSettledWith t d skew
          → (r : RestoreCandidate × List String) × (judge_described t d ≡ Prelude.ok r)
      by_skew skew e fine settled =
          let c = candidate_from d t.target_version t.meta in
          (
            (c, required_of t d skew),
            ap (accept_with c) (
                validate-validated t d skew e
                ∙ ap (validated t d skew) fine
                ∙ IsSettledWith-after_skew skew settled),
          )
