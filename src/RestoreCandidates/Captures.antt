-- ===== src/RestoreCandidates/Captures.antt =====
-- The judgement of a provider's capture.
use Prim.Native.String.{[], ◌∷◌}
use mathlib.Core.Path.{subst}
use hola.Prelude.{
  String, ◌≡◌, ◌↔◌, refl, sym, ap, ◌∙◌, inl, inr, ◌⊎◌, Bool, true, false, not, ◌&&◌, Option, none,
  some, arith, if◌then◌else◌, str_eq, eq_iff, is_empty_text, clash,
}
use hola.Versions.{truthy}
use hola.RestoreCandidates.{
  marker, path, Described, RestoreIndexEntry, RestoreCaptureIdentity, describe_provider_candidate,
  describe_entry, names_other_app, equals_text, from_identity,
}
use hola.RestoreCandidates.Choice.{
  Terms, judge_described, judge_offered, judge_provider_restore_choice,
}
use hola.RestoreCandidates.Verdicts.{IsFit, IsUnjudged}
use hola.RestoreCandidates.Justified.{judge_described-IsAgreed, IsAgreed-judge_described}
use hola.RestoreCandidates.Gates.{HasAcked, IsAgreed}
use hola.RestoreCandidates.Accepted.{IsAccepted}

abbrev entry_app : RestoreIndexEntry → Option String
entry_app entry = from_identity (λ i. i.app) entry.identity

abbrev entry_version : RestoreIndexEntry → Option String
entry_version entry = from_identity (λ i. i.app_version) entry.identity

-- The capture that the choice names is one to restore from, and the operator agreed to the risks.
pub record IsProviderRestorable (entry : Option RestoreIndexEntry) (consented : Bool)
    (queried : String) (t : Terms) : Type 0 where
  pub from : RestoreIndexEntry
  pub exists : entry ≡ some from
  pub consent : consented ≡ true
  pub identified :
      (entry_app from ≡ some queried)
      ⊎ ((truthy (entry_app from) ≡ none) × HasAcked t.choice "restore-inferred-identity")
  pub versions :
      IsFit (entry_version from) t.target_version t.meta
      ⊎ (IsUnjudged (entry_version from) t.target_version t.meta
          × HasAcked t.choice "restore-version-unknown")
  pub env_not_needed : t.requires_env ≡ false
  pub env_lost : HasAcked t.choice "restore-env-not-carried"

-- An identity that names no other app names this one, or none.
named_or_none :
    (identity : Option RestoreCaptureIdentity) (queried : String)
    → names_other_app identity queried ≡ false
    → (from_identity (λ i. i.app) identity ≡ some queried)
      ⊎ (truthy (from_identity (λ i. i.app) identity) ≡ none)
named_or_none none queried h = inr refl
named_or_none (some i) queried h = by_app i.app h
  where
    by_app :
        (app : Option String)
        → (elim app as (λ _. Bool) [
          | none ↦ false
          | some a ↦ not (is_empty_text a) && not (str_eq a queried)
        ])
          ≡ false
        → (app ≡ some queried) ⊎ (truthy app ≡ none)
    by_app none h = inr refl
    by_app (some []) h = inr refl
    by_app (some (c ∷ s)) h = inl (ap some ((eq_iff (c ∷ s) queried).0 (ground arith)))

names_none :
    (identity : Option RestoreCaptureIdentity) (queried : String)
    → (from_identity (λ i. i.app) identity ≡ some queried)
      ⊎ (truthy (from_identity (λ i. i.app) identity) ≡ none)
    → names_other_app identity queried ≡ false
names_none none queried h = refl
names_none (some i) queried h = by_app i.app h
  where
    by_app :
        (app : Option String)
        → (app ≡ some queried) ⊎ (truthy app ≡ none)
        → (elim app as (λ _. Bool) [
          | none ↦ false
          | some a ↦ not (is_empty_text a) && not (str_eq a queried)
        ])
          ≡ false
    by_app none h = refl
    by_app (some []) h = refl
    by_app (some (c ∷ s)) (inl e) = ground (arith, eq_iff (c ∷ s) queried)
    by_app (some (c ∷ s)) (inr e) = absurd (cc)

equals_text-eq : (o : Option String) (s : String) → equals_text o s ≡ true → o ≡ some s
equals_text-eq none s h = absurd (cc)
equals_text-eq (some t) s h = ap some ((eq_iff t s).0 h)

eq-equals_text : (o : Option String) (s : String) → o ≡ some s → equals_text o s ≡ true
eq-equals_text none s h = absurd (cc)
eq-equals_text (some t) s h = ground (arith, eq_iff t s)

module _ (entry : RestoreIndexEntry) (provider_id queried : String) (t : Terms) where
  described : Bool → Described
  described known = describe_entry entry provider_id queried known

  agreed-IsProviderRestorable :
      (o : Option RestoreIndexEntry) (consented known : Bool)
      → o ≡ some entry
      → consented ≡ true
      → names_other_app entry.identity queried ≡ false
      → equals_text (entry_app entry) queried ≡ known
      → IsAgreed t (described known)
      → IsProviderRestorable o consented queried t
  unfolding described
  agreed-IsProviderRestorable o consented known e c named k (versions, env, confidence) = record {
    from = entry;
    exists = e;
    consent = c;
    identified = identify known k confidence;
    versions = versions;
    env_not_needed = (lost env).0;
    env_lost = (lost env).1;
  }
    where
      lost :
          ((t.choice.carry_env ≡ true) × (◌≡◌ {A = Bool} false true))
            ⊎ ((t.requires_env ≡ false) × HasAcked t.choice "restore-env-not-carried")
          → (t.requires_env ≡ false) × HasAcked t.choice "restore-env-not-carried"
      lost (inl (a, never)) = absurd (cc)
      lost (inr both) = both

      identify :
          (known : Bool)
          → equals_text (entry_app entry) queried ≡ known
          → ((if known then marker else path) ≡ marker)
            ⊎ HasAcked t.choice "restore-inferred-identity"
          → (entry_app entry ≡ some queried)
            ⊎ ((truthy (entry_app entry) ≡ none) × HasAcked t.choice "restore-inferred-identity")
      identify true k confidence = inl (equals_text-eq (entry_app entry) queried k)
      identify false k (inl never) = absurd (cc)
      identify false k (inr acked) = elim (named_or_none entry.identity queried named) [
        | inl this ↦ inl this
        | inr nothing ↦ inr (nothing, acked)
      ]

  IsProviderRestorable-IsAgreed :
      (known : Bool)
      → equals_text (entry_app entry) queried ≡ known
      → (entry_app entry ≡ some queried)
        ⊎ ((truthy (entry_app entry) ≡ none) × HasAcked t.choice "restore-inferred-identity")
      → IsFit (entry_version entry) t.target_version t.meta
        ⊎ (IsUnjudged (entry_version entry) t.target_version t.meta
            × HasAcked t.choice "restore-version-unknown")
      → t.requires_env ≡ false
      → HasAcked t.choice "restore-env-not-carried"
      → IsAgreed t (described known)
  unfolding described
  IsProviderRestorable-IsAgreed true k identity versions env lost =
      (versions, inr (env, lost), inl refl)
  IsProviderRestorable-IsAgreed false k (inl this) versions env lost = absurd (
      clash (equals_text (entry_app entry) queried) (eq-equals_text (entry_app entry) queried this)
        k)
  IsProviderRestorable-IsAgreed false k (inr (nothing, acked)) versions env lost =
      (versions, inr (env, lost), inr acked)

-- What the judgement does with the test of the identity.
offered_if :
    (t : Terms) (b : Bool) (d : Described)
    → IsAccepted (judge_offered t (if b then none else some d))
    → (b ≡ false) × IsAccepted (judge_described t d)
offered_if t true d (r, h) = absurd (cc)
offered_if t false d h = (refl, h)

module _ (entry : RestoreIndexEntry) (provider_id queried : String) (t : Terms) where
  accepted-IsProviderRestorable :
      (consented : Bool)
      → IsAccepted (judge_provider_restore_choice (some entry) provider_id consented queried t)
      → IsProviderRestorable (some entry) consented queried t
  unfolding judge_provider_restore_choice describe_provider_candidate described
  accepted-IsProviderRestorable false (r, h) = absurd (cc)
  accepted-IsProviderRestorable true h =
      let known = equals_text (entry_app entry) queried in
      let d = describe_entry entry provider_id queried known in
      let (named, (r, e)) = offered_if t (names_other_app entry.identity queried) d h in
      agreed-IsProviderRestorable entry provider_id queried t (some entry) true known refl refl
        named refl (judge_described-IsAgreed t d r e)

IsProviderRestorable-IsAccepted :
    (entry : Option RestoreIndexEntry) (provider_id : String) (consented : Bool) (queried : String)
    (t : Terms)
    → IsProviderRestorable entry consented queried t
    → IsAccepted (judge_provider_restore_choice entry provider_id consented queried t)
unfolding judge_provider_restore_choice describe_provider_candidate described
IsProviderRestorable-IsAccepted entry provider_id consented queried t i =
    let known = equals_text (entry_app i.from) queried in
    let d = describe_entry i.from provider_id queried known in
    let agreed =
      IsProviderRestorable-IsAgreed i.from provider_id queried t known refl i.identified i.versions
        i.env_not_needed i.env_lost in
    let (r, h) = IsAgreed-judge_described t d agreed in
    let offered =
      ap (λ b. judge_offered t (if b then none else some d))
        (names_none i.from.identity queried (either i.identified)) in
    subst (λ o. IsAccepted (judge_provider_restore_choice o provider_id consented queried t))
      (sym i.exists)
      (subst (λ b. IsAccepted (judge_provider_restore_choice (some i.from) provider_id b queried t))
        (sym i.consent) (r, offered ∙ h))
  where
    either :
        (entry_app i.from ≡ some queried)
          ⊎ ((truthy (entry_app i.from) ≡ none) × HasAcked t.choice "restore-inferred-identity")
        → (entry_app i.from ≡ some queried) ⊎ (truthy (entry_app i.from) ≡ none)
    either (inl e) = inl e
    either (inr (e, acked)) = inr e

-- A provider's capture is restored from exactly if it is in the index, the provider has consent, and
-- its identity names this app, or names none and the operator acknowledged that it is inferred; its
-- version is known and fits, or the operator acknowledged that it is unknown; and, as no capture
-- carries an environment, the app does not need one and the operator acknowledged the loss.
pub judge_provider_restore_choice_iff :
    (entry : Option RestoreIndexEntry) (provider_id : String) (consented : Bool) (queried : String)
    (t : Terms)
    → IsAccepted (judge_provider_restore_choice entry provider_id consented queried t)
      ↔ IsProviderRestorable entry consented queried t
unfolding judge_provider_restore_choice describe_provider_candidate described
judge_provider_restore_choice_iff entry provider_id consented queried t =
    (forth entry, IsProviderRestorable-IsAccepted entry provider_id consented queried t)
  where
    forth :
        (o : Option RestoreIndexEntry)
        → IsAccepted (judge_provider_restore_choice o provider_id consented queried t)
        → IsProviderRestorable o consented queried t
    forth none (r, h) = absurd (cc)
    forth (some e) h = accepted-IsProviderRestorable e provider_id queried t consented h
