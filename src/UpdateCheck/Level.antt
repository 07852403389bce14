-- ===== src/UpdateCheck/Level.antt =====
-- Listings in different orders.
use Prim.Native.String.{String}
use mathlib.Core.List.{List}
use hola.Prelude.{
  ◌≡◌, sym, ap, ◌∙◌, inl, inr, ◌⊎◌, false, Option, none, some, Bool-cases, Among, clash,
}
use hola.Versions.{is_newer_version}
use hola.Versions.Upgrades.{not_newer_trans}
use hola.UpdateCheck.{UpdateCheckResult, GithubRelease, listed, Best, stable_version, fetch_latest}
use hola.UpdateCheck.Newest.{fetch_latest_cases}
use hola.UpdateCheck.Considered.{IsCandidate, NoneCounts}

-- Two answers that say the same of the newest version, up to texts that compare as the same version.
pub record IsLevel (a b : UpdateCheckResult) : Type 0 where
  pub versions :
      ((a.latest ≡ none) × (b.latest ≡ none))
      ⊎ ((v : String) × (w : String) × (a.latest ≡ some v)
          × (b.latest ≡ some w)
          × (is_newer_version v w ≡ false)
          × (is_newer_version w v ≡ false))
  pub available : a.update_available ≡ b.update_available

level_above :
    (v w c : String)
    → is_newer_version v w ≡ false
    → is_newer_version w v ≡ false
    → is_newer_version v c ≡ is_newer_version w c
level_above v w c h k = elim (Bool-cases (is_newer_version v c)) [
  | inl a ↦ elim (Bool-cases (is_newer_version w c)) [
    | inl b ↦ a ∙ sym b
    | inr b ↦ absurd (clash (is_newer_version v c) a (not_newer_trans v w c h b))
  ]
  | inr a ↦ a ∙ sym (not_newer_trans w v c k a)
]

counts_nowhere :
    (best : Best) (releases others : List GithubRelease)
    → ((r : GithubRelease) → Among r releases → Among r others)
    → IsCandidate best releases
    → NoneCounts others
    → ⊥
counts_nowhere best releases others sub (r, among, e, u) never =
    clash (stable_version r) best.version e (never r (sub r among))
  where
    clash : (o : Option String) (v : String) → o ≡ some v → o ≡ none → ⊥
    clash o v p q = cc

-- The order in which the releases are listed makes no difference: two listings with the same releases
-- give the same verdict on whether an update is available, and versions that compare as the same, or
-- none both times.
pub fetch_latest-IsLevel :
    (current : String) (releases others : List GithubRelease)
    → ((r : GithubRelease) → Among r releases → Among r others)
    → ((r : GithubRelease) → Among r others → Among r releases)
    → IsLevel (fetch_latest current (listed releases)) (fetch_latest current (listed others))
fetch_latest-IsLevel current releases others there back =
    elim (fetch_latest_cases current releases) [
      | inl (never, p) ↦ elim (fetch_latest_cases current others) [
        | inl (never', q) ↦ record {
          versions = inl (ap (λ a. a.latest) p, ap (λ a. a.latest) q);
          available = ap (λ a. a.update_available) (p ∙ sym q);
        }
        | inr (w, c', n', q) ↦ absurd (counts_nowhere w others releases back c' never)
      ]
      | inr (v, c, n, p) ↦ elim (fetch_latest_cases current others) [
        | inl (never', q) ↦ absurd (counts_nowhere v releases others there c never')
        | inr (w, c', n', q) ↦
            let (r, among, e, u) = c in
            let (s, among', e', u') = c' in
            let no_newer = n' r v.version (there r among) e in
            let no_older = n s w.version (back s among') e' in
            record {
              versions = inr (
                v.version,
                w.version,
                ap (λ a. a.latest) p,
                ap (λ a. a.latest) q,
                no_newer,
                no_older,
              );
              available =
                  ap (λ a. a.update_available) p
                  ∙ level_above v.version w.version current no_newer no_older
                  ∙ sym (ap (λ a. a.update_available) q);
            }
      ]
    ]
