-- ===== src/UpdateCheck/Considered.antt =====
-- What one release makes of the choice so far.
use Prim.Native.String.{String}
use mathlib.Core.List.{List, ◌∷◌}
use hola.Prelude.{
  ◌≡◌, refl, sym, ap, ◌∙◌, inl, inr, ◌⊎◌, true, false, Option, none, some, Bool-cases, Among,
  some-injective,
}
use hola.Versions.{is_newer_version}
use hola.Versions.Upgrades.{not_newer_refl, not_newer-of_greater}
use hola.UpdateCheck.{GithubRelease, Best, stable_version, consider, newest_release}

-- The release that the choice stands for is among the listed ones.
abbrev pub IsCandidate : Best → List GithubRelease → Type 0
IsCandidate best releases =
    (r : GithubRelease) × Among r releases
    × (stable_version r ≡ some best.version)
    × (r.html_url ≡ best.url)

-- No release that counts is newer.
abbrev pub IsNewest : Best → List GithubRelease → Type 0
IsNewest best releases =
    (r : GithubRelease) (v : String)
    → Among r releases
    → stable_version r ≡ some v
    → is_newer_version v best.version ≡ false

abbrev pub NoneCounts : List GithubRelease → Type 0
NoneCounts releases = (r : GithubRelease) → Among r releases → stable_version r ≡ none

pub skipped :
    (r : GithubRelease) (releases : List GithubRelease) (start : Option Best)
    → stable_version r ≡ none
    → newest_release (r ∷ releases) start ≡ newest_release releases start
unfolding newest_release
skipped r releases start e = rw (e, newest_release) refl

pub taken :
    (r : GithubRelease) (v : String) (releases : List GithubRelease) (start : Option Best)
    → stable_version r ≡ some v
    → newest_release (r ∷ releases) start ≡ newest_release releases (consider v r.html_url start)
unfolding newest_release
taken r v releases start e = rw (e, newest_release) refl

newer_not_newer : (a b : String) → is_newer_version a b ≡ true → is_newer_version b a ≡ false
unfolding is_newer_version
newer_not_newer a b h = not_newer-of_greater a b h

-- What stands after one release: it, or what stood before, whichever is newer.
pub record IsConsidered (v url : String) (start : Option Best) (c : Best) : Type 0 where
  pub kept : consider v url start ≡ some c
  pub no_older : is_newer_version v c.version ≡ false
  pub from : (c ≡ record { version = v; url = url }) ⊎ (start ≡ some c)
  pub above : (b : Best) → start ≡ some b → is_newer_version b.version c.version ≡ false

pub considered : (v url : String) (start : Option Best) → (c : Best) × IsConsidered v url start c
unfolding consider
considered v url none = (
  record { version = v; url = url },
  record { kept = refl; no_older = not_newer_refl v; from = inl refl; above = λ b q. absurd (cc) },
)
considered v url (some old) = elim (Bool-cases (is_newer_version v old.version)) [
  | inl newer ↦ (
    record { version = v; url = url },
    record {
      kept = rw newer refl;
      no_older = not_newer_refl v;
      from = inl refl;
      above = λ b q. above_new old b q newer;
    },
  )
  | inr older ↦ (
    old,
    record {
      kept = rw older refl;
      no_older = older;
      from = inr refl;
      above = λ b q. same_old old b q;
    },
  )
]
  where
    above_new :
        (old b : Best)
        → some old ≡ some b
        → is_newer_version v old.version ≡ true
        → is_newer_version b.version v ≡ false
    above_new old b q newer =
        ap (λ x. is_newer_version x.version v) (sym (some-injective old b q))
        ∙ newer_not_newer v old.version newer

    same_old : (old b : Best) → some old ≡ some b → is_newer_version b.version old.version ≡ false
    same_old old b q =
        ap (λ x. is_newer_version x.version old.version) (sym (some-injective old b q))
        ∙ not_newer_refl old.version
