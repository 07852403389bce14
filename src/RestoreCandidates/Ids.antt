-- ===== src/RestoreCandidates/Ids.antt =====
-- The ids of candidates, and the address that a restored install gets.
use Prim.Native.Char.{code}
use Prim.Native.String.append
use Prim.Native.String.{[], ◌∷◌}
use hola.Prelude.{
  String, ◌≡◌, ◌≢◌, refl, sym, ap, ◌∙◌, Bool, true, false, ◌&&◌, ◌||◌, Option, none, some, arith,
  if◌then◌else◌, str_eq, eq_iff, cat, value_or, ◌==◌, clash,
}
use hola.Versions.{truthy}
use hola.RestoreCandidates.{
  CandidateId, provider, after_colon, parse_candidate_id, Described, RestoreIndexEntry,
  describe_provider_candidate, describe_entry, names_other_app, equals_text, from_identity,
}
use hola.RestoreCandidates.Listing.{divergence}
use hola.RestoreCandidates.Names.{
  NameDefaults, resolve_restore_name_defaults, names_nothing, is_live, default_subdomain,
}

abbrev has_colon : String → Bool
has_colon [] = false
has_colon (c ∷ s) = code c == b':' || has_colon s

step_over : (b : Bool) (a x : CandidateId) → b ≡ false → (if b then a else x) ≡ x
step_over true a x h = absurd (cc)
step_over false a x h = refl

parse_with_colon :
    (p capture : String)
    → has_colon p ≡ false
    → parse_candidate_id (cat p (cat ":" capture)) ≡ provider p capture
unfolding parse_candidate_id
parse_with_colon [] capture h = ap parse_candidate_id (
    append.nil (cat ":" capture)
    ∙ append.cons ":" [] capture
    ∙ ap (λ u. ":" ∷ u) (append.nil capture))
parse_with_colon (c ∷ p) capture h =
    let tail = cat p (cat ":" capture) in
    ap parse_candidate_id (append.cons c p (cat ":" capture))
    ∙ step_over (code c == b':') (provider [] tail) (after_colon (c ∷ []) (parse_candidate_id tail))
        (ground arith)
    ∙ ap (after_colon (c ∷ [])) (parse_with_colon p capture (ground arith))
    ∙ ap (λ q. provider q capture) (append.cons c [] p ∙ ap (λ u. c ∷ u) (append.nil p))

described_if : (b : Bool) (d e : Described) → (if b then none else some d) ≡ some e → d ≡ e
described_if true d e h = absurd (cc)
described_if false d e h = cc

-- The id of a candidate that a provider holds reads back as the provider's deployment and the
-- capture's own id, whatever the latter holds, if the former has no colon in it.
pub parse_candidate_id-describe_provider_candidate :
    (entry : RestoreIndexEntry) (provider_id queried : String) (d : Described)
    → describe_provider_candidate entry provider_id queried ≡ some d
    → has_colon provider_id ≡ false
    → parse_candidate_id d.candidate_id ≡ provider provider_id entry.capture_id
unfolding describe_provider_candidate
parse_candidate_id-describe_provider_candidate entry provider_id queried d h plain =
    let known = equals_text (from_identity (λ i. i.app) entry.identity) queried in
    let same =
      described_if (names_other_app entry.identity queried)
        (describe_entry entry provider_id queried known) d h in
    ap (λ x. parse_candidate_id x.candidate_id) (sym same)
    ∙ parse_with_colon provider_id entry.capture_id plain

not_refused :
    (a b : Bool) (n r : NameDefaults)
    → (if a && b then none else some n) ≡ some r
    → a ≡ true
    → (b ≡ false) × (n ≡ r)
not_refused true true n r h e = absurd (cc)
not_refused true false n r h e = (refl, cc)
not_refused false b n r h e = absurd (cc)

unasked : (requested : Option String) → truthy requested ≡ none → names_nothing requested ≡ true
unasked requested e = ap (λ o. elim o as (λ _. Bool) [ none ↦ true | some n ↦ false ]) e

lives : (live : Option String) (l s : String) → truthy live ≡ some l → is_live live s ≡ str_eq s l
lives live l s e = ap (λ o. elim o as (λ _. Bool) [ none ↦ false | some k ↦ str_eq s k ]) e

-- A restored install does not take, unasked, the address under which its source is still reached: if
-- the operator names nothing, the subdomain that is answered differs from the source's own.
pub resolve_restore_name_defaults_free :
    (derive : Option String → String → String) (requested : Option String) (name : String)
    (candidate live : Option String) (app_id : String) (l : String) (r : NameDefaults)
    → truthy requested ≡ none
    → truthy live ≡ some l
    → resolve_restore_name_defaults derive requested name candidate live app_id ≡ some r
    → r.subdomain ≢ l
unfolding resolve_restore_name_defaults
resolve_restore_name_defaults_free derive requested name candidate live app_id l r a b h same =
    let given = value_or (truthy requested) name in
    let subdomain = default_subdomain derive requested candidate given app_id in
    let (free, known) =
      not_refused (names_nothing requested) (is_live live subdomain)
        (record {
          name = given;
          subdomain = subdomain;
          warnings = divergence (truthy candidate) (some subdomain);
        })
        r h (unasked requested a) in
    clash (str_eq subdomain l) ((eq_iff subdomain l).1 (ap (λ x. x.subdomain) known ∙ same))
      (sym (lives live l subdomain b) ∙ free)
