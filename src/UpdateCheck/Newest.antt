-- ===== src/UpdateCheck/Newest.antt =====
-- Which release an answer names.
use Prim.Native.String.{String}
use mathlib.Core.List.{List, [], ◌∷◌}
use hola.Prelude.{
  ◌≡◌, refl, sym, ap, ◌∙◌, inl, inr, ◌⊎◌, false, Option, none, some, Option-cases, some-injective,
  none-ne-some,
}
use hola.Versions.{is_newer_version}
use hola.Versions.Upgrades.{not_newer_trans, not_newer_refl}
use hola.UpdateCheck.{
  GithubRelease, listed, Best, fail, stable_version, newest_release, answer_of, fetch_latest,
}
use hola.UpdateCheck.Considered.{
  IsCandidate, IsNewest, NoneCounts, skipped, taken, IsConsidered, considered,
}

-- What the loop ends with, from `start` on.
record IsOutcome (releases : List GithubRelease) (start : Option Best) (best : Best) : Type 0 where
  chosen : IsCandidate best releases ⊎ (start ≡ some best)
  newest : IsNewest best releases
  above : (b : Best) → start ≡ some b → is_newer_version b.version best.version ≡ false

same_release :
    (r s : GithubRelease) (v w : String)
    → r ≡ s
    → stable_version r ≡ some v
    → stable_version s ≡ some w
    → v ≡ w
same_release r s v w e h k = cc

IsCandidate-later :
    (r : GithubRelease) (releases : List GithubRelease) (best : Best)
    → IsCandidate best releases
    → IsCandidate best (r ∷ releases)
IsCandidate-later r releases best (s, among, v, u) = (s, inr among, v, u)

-- A release that counts: the one just looked at, or a later one.
IsNewest-here :
    (r : GithubRelease) (releases : List GithubRelease) (best : Best)
    → ((v : String) → stable_version r ≡ some v → is_newer_version v best.version ≡ false)
    → IsNewest best releases
    → IsNewest best (r ∷ releases)
IsNewest-here r releases best here later s v (inl e) h = here v (ap stable_version e ∙ h)
IsNewest-here r releases best here later s v (inr among) h = later s v among h

IsCandidate-here :
    (r : GithubRelease) (v : String) (releases : List GithubRelease) (best : Best)
    → stable_version r ≡ some v
    → record { version = v; url = r.html_url } ≡ best
    → IsCandidate best (r ∷ releases)
IsCandidate-here r v releases best e q =
    (r, inl refl, e ∙ ap (λ b. some b.version) q, ap (λ b. b.url) q)

newest_release-IsOutcome :
    (releases : List GithubRelease) (start : Option Best) (best : Best)
    → newest_release releases start ≡ some best
    → IsOutcome releases start best
unfolding newest_release
newest_release-IsOutcome [] start best h = record {
  chosen = inr h;
  newest = λ r v among e. absurd among;
  above = λ b q.
      ap (λ x. is_newer_version x.version best.version) (some-injective b best (sym q ∙ h))
      ∙ not_newer_refl best.version;
}
newest_release-IsOutcome (r ∷ releases) start best h = elim (Option-cases (stable_version r)) [
  | inl n ↦
      let i = newest_release-IsOutcome releases start best (sym (skipped r releases start n) ∙ h) in
      record {
        chosen = elim i.chosen [
          | inl c ↦ inl (IsCandidate-later r releases best c)
          | inr q ↦ inr q
        ];
        newest = IsNewest-here r releases best (λ v e. absurd (cc)) i.newest;
        above = i.above;
      }
  | inr (v, e) ↦
      let (c, k) = considered v r.html_url start in
      let i =
        newest_release-IsOutcome releases (some c) best
          (sym (taken r v releases start e ∙ ap (newest_release releases) k.kept) ∙ h) in
      let below = i.above c refl in
      record {
        chosen = chosen_after r v releases start best c e k i;
        newest =
            IsNewest-here r releases best
              (λ w f.
                ap (λ x. is_newer_version x best.version) (some-injective w v (sym f ∙ e))
                ∙ not_newer_trans v c.version best.version k.no_older below)
              i.newest;
        above = λ b q. not_newer_trans b.version c.version best.version (k.above b q) below;
      }
]
  where
    chosen_after :
        (r : GithubRelease) (v : String) (releases : List GithubRelease) (start : Option Best)
        (best c : Best)
        → stable_version r ≡ some v
        → IsConsidered v r.html_url start c
        → IsOutcome releases (some c) best
        → IsCandidate best (r ∷ releases) ⊎ (start ≡ some best)
    chosen_after r v releases start best c e k i = elim i.chosen [
      | inl later ↦ inl (IsCandidate-later r releases best later)
      | inr q ↦ elim k.from [
        | inl new ↦ inl (IsCandidate-here r v releases best e (sym new ∙ some-injective c best q))
        | inr old ↦ inr (old ∙ q)
      ]
    ]

-- The loop ends with nothing only if no release counts.
newest_release-none :
    (releases : List GithubRelease) (start : Option Best)
    → newest_release releases start ≡ none
    → (start ≡ none) × NoneCounts releases
unfolding newest_release
newest_release-none [] start h = (h, λ r among. absurd among)
newest_release-none (r ∷ releases) start h = elim (Option-cases (stable_version r)) [
  | inl n ↦
      let (was, rest) = newest_release-none releases start (sym (skipped r releases start n) ∙ h) in
      (
        was,
        λ s among. elim among [ inl e ↦ sym (ap stable_version e) ∙ n | inr later ↦ rest s later ],
      )
  | inr (v, e) ↦
      let (c, k) = considered v r.html_url start in
      let (never, _) =
        newest_release-none releases (some c)
          (sym (taken r v releases start e ∙ ap (newest_release releases) k.kept) ∙ h) in
      absurd (none-ne-some c (sym never))
]

-- An answer to a listing names a release that counts, the newest of them, with its address, and says
-- that an update is available exactly if it is newer than the running version; it is the answer of a
-- failed check only if no release counts.
pub fetch_latest_cases :
    (current : String) (releases : List GithubRelease)
    → (NoneCounts releases × (fetch_latest current (listed releases) ≡ fail current))
      ⊎ ((best : Best) × IsCandidate best releases
          × IsNewest best releases
          × (fetch_latest current (listed releases) ≡ answer_of current (some best)))
unfolding fetch_latest
fetch_latest_cases current releases = elim (Option-cases (newest_release releases none)) [
  | inl n ↦ inl ((newest_release-none releases none n).1, ap (answer_of current) n)
  | inr (best, e) ↦
      let i = newest_release-IsOutcome releases none best e in
      elim i.chosen [
        | inl c ↦ inr (best, c, i.newest, ap (answer_of current) e)
        | inr q ↦ absurd (none-ne-some best q)
      ]
]
