-- ===== src/RestoreCandidates/Accepted.antt =====
-- The two judgements, of a deployment of this host and of a provider's capture.
use mathlib.Core.Path.{subst}
use hola.Prelude
use hola.Prelude.{
  String, ◌≡◌, ◌≢◌, ◌↔◌, refl, sym, ap, ◌∙◌, inl, inr, ◌⊎◌, Bool, true, false, not, ◌&&◌, ◌||◌,
  Option, none, some, arith, if◌then◌else◌, Bool-cases, Option-cases, str_eq, eq_iff,
}
use hola.RestoreCandidates.{CandidateSource, describe_candidate, is_settled_status}
use hola.RestoreCandidates.Choice.{
  Refusal, candidate_gone, candidate_busy, check_candidate_still_eligible, Terms, judge_described,
  judge_restore_choice,
}
use hola.RestoreCandidates.Listing.{RestoreCandidate}
use hola.RestoreCandidates.Justified.{judge_described-IsAgreed, IsAgreed-judge_described}
use hola.RestoreCandidates.Gates.{IsAgreed}

abbrev pub IsAccepted : Prelude.Result Refusal (RestoreCandidate × Prelude.List String) → Type 0
IsAccepted answer = (r : RestoreCandidate × Prelude.List String) × (answer ≡ Prelude.ok r)

-- The deployment that the choice names is one to restore from, and the operator agreed to the risks.
pub record IsRestorable (source : Option CandidateSource) (app_id excluded : String) (t : Terms)
    : Type 0 where
  pub from : CandidateSource
  pub exists : source ≡ some from
  pub same_app : from.deployment.app ≡ app_id
  pub other_install : from.deployment.id ≢ excluded
  pub settled : (from.deployment.status ≡ "running") ⊎ (from.deployment.status ≡ "stopped")
  pub agreed : IsAgreed t (describe_candidate from)

is_settled_status-eq : (s : String) → is_settled_status s ≡ true → (s ≡ "running") ⊎ (s ≡ "stopped")
is_settled_status-eq s h = elim (Bool-cases (str_eq s "running")) [
  | inl running ↦ inl ((eq_iff s "running").0 running)
  | inr other ↦ inr ((eq_iff s "stopped").0 (ground arith))
]

eq-is_settled_status : (s : String) → (s ≡ "running") ⊎ (s ≡ "stopped") → is_settled_status s ≡ true
eq-is_settled_status s h = ground (arith, eq_iff s "running", eq_iff s "stopped")

-- The three tests by which a source is still eligible.
eligible_tests :
    (s : CandidateSource) (a e b : Bool) (chosen : String) (answer : CandidateSource)
    → (if not a
        then Prelude.err (candidate_gone chosen)
        else if e
        then Prelude.err (candidate_gone chosen)
        else if not b
        then Prelude.err (candidate_busy chosen)
        else Prelude.ok s)
      ≡ Prelude.ok answer
    → (a ≡ true) × (e ≡ false) × (b ≡ true) × (s ≡ answer)
eligible_tests s false e b chosen answer h = absurd (cc)
eligible_tests s true true b chosen answer h = absurd (cc)
eligible_tests s true false false chosen answer h = absurd (cc)
eligible_tests s true false true chosen answer h = (refl, refl, refl, cc)

pass_tests :
    (s : CandidateSource) (a e b : Bool) (chosen : String)
    → a ≡ true
    → e ≡ false
    → b ≡ true
    → (if not a
        then Prelude.err (candidate_gone chosen)
        else if e
        then Prelude.err (candidate_gone chosen)
        else if not b
        then Prelude.err (candidate_busy chosen)
        else Prelude.ok s)
      ≡ Prelude.ok s
pass_tests s a e b chosen ha he hb = rw (ha, he, hb) refl

-- The answer once the source has been looked at.
abbrev after_check :
    Terms
    → Prelude.Result Refusal CandidateSource
    → Prelude.Result Refusal (RestoreCandidate × Prelude.List String)
after_check t (Prelude.err refusal) = Prelude.err refusal
after_check t (Prelude.ok s) = judge_described t (describe_candidate s)

judge-after_check :
    (source : Option CandidateSource) (app_id excluded : String) (t : Terms)
    → judge_restore_choice source app_id excluded t
      ≡ after_check t (check_candidate_still_eligible source app_id excluded t.choice.candidate_id)
unfolding judge_restore_choice
judge-after_check source app_id excluded t =
    by_check (check_candidate_still_eligible source app_id excluded t.choice.candidate_id)
  where
    by_check :
        (m : Prelude.Result Refusal CandidateSource)
        → (elim m as (λ _. Prelude.Result Refusal (RestoreCandidate × Prelude.List String)) [
          | Prelude.err refusal ↦ Prelude.err refusal
          | Prelude.ok s ↦ judge_described t (describe_candidate s)
        ])
          ≡ after_check t m
    by_check (Prelude.err refusal) = refl
    by_check (Prelude.ok s) = refl

accepted_check :
    (t : Terms) (m : Prelude.Result Refusal CandidateSource)
    → IsAccepted (after_check t m)
    → (s : CandidateSource) × (m ≡ Prelude.ok s) × IsAgreed t (describe_candidate s)
accepted_check t (Prelude.err refusal) (r, h) = absurd (cc)
accepted_check t (Prelude.ok s) (r, h) =
    (s, refl, judge_described-IsAgreed t (describe_candidate s) r h)

eligible-IsRestorable :
    (source : Option CandidateSource) (app_id excluded : String) (t : Terms) (s : CandidateSource)
    → check_candidate_still_eligible source app_id excluded t.choice.candidate_id ≡ Prelude.ok s
    → IsAgreed t (describe_candidate s)
    → IsRestorable source app_id excluded t
unfolding check_candidate_still_eligible
eligible-IsRestorable none app_id excluded t s h agreed = absurd (cc)
eligible-IsRestorable (some c) app_id excluded t s h agreed =
    let d = c.deployment in
    let (a, e, b, same) =
      eligible_tests c (str_eq d.app app_id) (str_eq d.id excluded) (is_settled_status d.status)
        t.choice.candidate_id s h in
    record {
      from = c;
      exists = refl;
      same_app = (eq_iff d.app app_id).0 a;
      other_install = λ q. ground (arith, eq_iff d.id excluded);
      settled = is_settled_status-eq d.status b;
      agreed = subst (λ x. IsAgreed t (describe_candidate x)) (sym same) agreed;
    }

IsRestorable-eligible :
    (source : Option CandidateSource) (app_id excluded : String) (t : Terms)
    → (i : IsRestorable source app_id excluded t)
    → check_candidate_still_eligible source app_id excluded t.choice.candidate_id
      ≡ Prelude.ok i.from
unfolding check_candidate_still_eligible
IsRestorable-eligible source app_id excluded t i =
    let d = i.from.deployment in
    ap (λ o. check_candidate_still_eligible o app_id excluded t.choice.candidate_id) i.exists
    ∙ pass_tests i.from (str_eq d.app app_id) (str_eq d.id excluded) (is_settled_status d.status)
        t.choice.candidate_id ((eq_iff d.app app_id).1 i.same_app)
        (differ d.id excluded i.other_install) (eq-is_settled_status d.status i.settled)
  where
    differ : (a b : String) → a ≢ b → str_eq a b ≡ false
    differ a b h = ground (arith, eq_iff a b)

-- A deployment of this host is restored from exactly if it is there, of the same app, not the install
-- itself, running or stopped; its version is known and not newer than the one being installed, with
-- no stop of an upgrade between, or a version or the upgrade data is missing and the operator
-- acknowledged that; its environment is carried, or the app does not need it and the operator
-- acknowledged the loss.
pub judge_restore_choice_iff :
    (source : Option CandidateSource) (app_id excluded : String) (t : Terms)
    → IsAccepted (judge_restore_choice source app_id excluded t)
      ↔ IsRestorable source app_id excluded t
judge_restore_choice_iff source app_id excluded t = (
  λ (r, h).
      let (s, e, agreed) =
        accepted_check t
          (check_candidate_still_eligible source app_id excluded t.choice.candidate_id)
          (r, sym (judge-after_check source app_id excluded t) ∙ h) in
      eligible-IsRestorable source app_id excluded t s e agreed,
  λ i.
      let (r, h) = IsAgreed-judge_described t (describe_candidate i.from) i.agreed in
      (
        r,
        judge-after_check source app_id excluded t
            ∙ ap (after_check t) (IsRestorable-eligible source app_id excluded t i)
            ∙ h,
      ),
)
