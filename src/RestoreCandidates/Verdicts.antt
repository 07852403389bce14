-- ===== src/RestoreCandidates/Verdicts.antt =====
-- What the verdict on two versions says.
use hola.Prelude.{
  String, ◌≡◌, refl, ap, ◌∙◌, inl, inr, ◌⊎◌, Bool, true, false, Option, none, some, if◌then◌else◌,
}
use hola.Versions.{
  AppUpgradeMeta, UpgradePathResult, path_ok, min_from_version, waypoint_required, truthy,
  is_newer_version, check_upgrade_path,
}
use hola.RestoreCandidates.Choice.{Refusal, refused_skew}
use hola.RestoreCandidates.Listing.{
  RestoreSkewVerdict, unknown, ok, source_newer, verdict_of, skew_with, skew_with_target,
  compute_skew_verdict,
}

-- The versions are known, the source's is not newer, and no stop lies between.
pub record IsFit (version target : Option String) (meta : Option AppUpgradeMeta) : Type 0 where
  pub from : String
  pub to : String
  pub rules : AppUpgradeMeta
  pub known : truthy version ≡ some from
  pub aim : truthy target ≡ some to
  pub stated : meta ≡ some rules
  pub not_newer : is_newer_version from to ≡ false
  pub no_stop : check_upgrade_path (some from) (some to) (some rules) ≡ path_ok

-- A version, the target's or the upgrade data is missing.
abbrev pub IsUnjudged : Option String → Option String → Option AppUpgradeMeta → Type 0
IsUnjudged version target meta = (truthy version ≡ none) ⊎ (truthy target ≡ none) ⊎ (meta ≡ none)

verdict-ok : (r : UpgradePathResult) → verdict_of r ≡ ok → r ≡ path_ok
verdict-ok path_ok h = refl
verdict-ok (min_from_version v) h = absurd (cc)
verdict-ok (waypoint_required v) h = absurd (cc)

-- What a verdict says, and that a refusal is refused.
abbrev Says : Option String → Option String → Option AppUpgradeMeta → RestoreSkewVerdict → Type 0
Says version target meta skew =
    ((skew ≡ ok) × IsFit version target meta)
    ⊎ ((skew ≡ unknown) × IsUnjudged version target meta)
    ⊎ ((r : Refusal) × (refused_skew skew version target ≡ some r))

module _ (version target : Option String) (meta : Option AppUpgradeMeta) where
  path-Says :
      (v w : String) (m : AppUpgradeMeta) (r : UpgradePathResult)
      → truthy version ≡ some v
      → truthy target ≡ some w
      → meta ≡ some m
      → is_newer_version v w ≡ false
      → check_upgrade_path (some v) (some w) (some m) ≡ r
      → Says version target meta (verdict_of r)
  path-Says v w m path_ok a b c older e = inl (
    refl,
    record {
      from = v;
      to = w;
      rules = m;
      known = a;
      aim = b;
      stated = c;
      not_newer = older;
      no_stop = e;
    },
  )
  path-Says v w m (min_from_version u) a b c older e =
      inr (inr (Refusal.restore_upgrade_path u, refl))
  path-Says v w m (waypoint_required u) a b c older e =
      inr (inr (Refusal.restore_upgrade_path u, refl))

  versions_say :
      (v w : String) (m : AppUpgradeMeta) (newer : Bool)
      → truthy version ≡ some v
      → truthy target ≡ some w
      → meta ≡ some m
      → is_newer_version v w ≡ newer
      → Says version target meta (
          if newer
          then source_newer
          else verdict_of (check_upgrade_path (some v) (some w) (some m)))
  versions_say v w m true a b c e = inr (inr (Refusal.restore_source_newer version target, refl))
  versions_say v w m false a b c e =
      path-Says v w m (check_upgrade_path (some v) (some w) (some m)) a b c e refl

  all_say :
      (a b : Option String) (m : Option AppUpgradeMeta)
      → truthy version ≡ a
      → truthy target ≡ b
      → meta ≡ m
      → Says version target meta (skew_with a b m)
  all_say none b m e f g = inr (inl (refl, inl e))
  all_say (some v) none m e f g = inr (inl (refl, inr (inl f)))
  all_say (some v) (some w) none e f g = inr (inl (refl, inr (inr g)))
  all_say (some v) (some w) (some m) e f g = versions_say v w m (is_newer_version v w) e f g refl

  pub compute_skew_verdict-Says :
      Says version target meta (compute_skew_verdict version target meta)
  unfolding compute_skew_verdict
  compute_skew_verdict-Says = all_say (truthy version) (truthy target) meta refl refl refl

  pub IsFit-ok : IsFit version target meta → compute_skew_verdict version target meta ≡ ok
  unfolding compute_skew_verdict
  IsFit-ok f =
      ap (λ o. skew_with o (truthy target) meta) f.known
      ∙ ap (λ o. skew_with_target f.from o meta) f.aim
      ∙ ap (λ o. skew_with_target f.from (some f.to) o) f.stated
      ∙ ap
          (λ b.
            if b
            then source_newer
            else verdict_of (check_upgrade_path (some f.from) (some f.to) (some f.rules)))
          f.not_newer
      ∙ ap verdict_of f.no_stop

  pub IsUnjudged-unknown :
      IsUnjudged version target meta → compute_skew_verdict version target meta ≡ unknown
  unfolding compute_skew_verdict
  IsUnjudged-unknown (inl e) = ap (λ o. skew_with o (truthy target) meta) e
  IsUnjudged-unknown (inr (inl e)) =
      ap (λ o. skew_with (truthy version) o meta) e ∙ no_target (truthy version)
    where
      no_target : (o : Option String) → skew_with o none meta ≡ unknown
      no_target none = refl
      no_target (some v) = refl
  IsUnjudged-unknown (inr (inr e)) =
      ap (λ o. skew_with (truthy version) (truthy target) o) e
      ∙ no_meta (truthy version) (truthy target)
    where
      no_meta : (o p : Option String) → skew_with o p none ≡ unknown
      no_meta none p = refl
      no_meta (some v) none = refl
      no_meta (some v) (some w) = refl
