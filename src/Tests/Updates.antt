-- ===== src/Tests/Updates.antt =====
-- Listings of releases, and overlapping update checks.
use mathlib.Core.List.{List, [], ◌∷◌}
use hola.Prelude.{
  ◌≡◌, refl, inl, inr, true, false, none, some, Among, split, trim, trim_start, trim_end, is_space,
  after_prefix,
}
use hola.Versions.{
  compare_versions, parse, parse_int, leading_digits, compare_nums, compare_pre, compare_lists,
  compare_units, identifier, is_newer_version,
}
use hola.UpdateCheck.{
  GithubRelease, UpdateCheckService, fails, listed, fetch_latest, fail, stable_version, consider,
  newest_release, check, check_cache, settle_check, mock_check,
}
use hola.UpdateCheck.Level.{IsLevel, fetch_latest-IsLevel}
use hola.UpdateCheck.Fresh.{Event, calls, ends, IsFresh, started, step, run_all, run_all-IsFresh}

abbrev old : GithubRelease
old = record { tag_name = some "cli-v1.9.0"; html_url = "/old"; draft = false; prerelease = false }

abbrev new : GithubRelease
new = record { tag_name = some "cli-v1.10.0"; html_url = "/new"; draft = false; prerelease = false }

abbrev candidate : GithubRelease
candidate = record {
  tag_name = some "cli-v2.0.0-rc.1";
  html_url = "/rc";
  draft = false;
  prerelease = true;
}

unfoldable checking : Unit {0}
unfolding compare_versions parse after_prefix parse_int leading_digits compare_nums compare_pre
    compare_lists compare_units identifier is_newer_version split trim trim_start trim_end is_space
    fetch_latest stable_version consider newest_release check check_cache settle_check step
checking = tt

newest_named : fetch_latest "1.9.0" (listed (candidate ∷ new ∷ old ∷ [])) ≡ record {
  current = "1.9.0";
  latest = some "1.10.0";
  update_available = true;
  release_url = some "/new";
}
unfolding checking
newest_named = refl

swapped : (a b r : GithubRelease) → Among r (a ∷ b ∷ []) → Among r (b ∷ a ∷ [])
swapped a b r (inl e) = inr (inl e)
swapped a b r (inr (inl e)) = inl e
swapped a b r (inr (inr never)) = absurd never

fetch_latest-IsLevel_example :
    IsLevel
      (fetch_latest "1.9.0" (listed (new ∷ old ∷ [])))
      (fetch_latest "1.9.0" (listed (old ∷ new ∷ [])))
fetch_latest-IsLevel_example =
    fetch_latest-IsLevel "1.9.0" (new ∷ old ∷ []) (old ∷ new ∷ []) (swapped new old)
      (swapped old new)

abbrev service : UpdateCheckService
service = record { current = "1.9.0"; ttl_ms = some 100; cache = none }

-- Two callers ask before the first request ends; a third is answered from the cache.
abbrev events : List Event
events =
    calls 10
    ∷ calls 20
    ∷ ends 0 (listed (new ∷ []))
    ∷ calls 50
    ∷ ends 0 fails
    ∷ calls 119
    ∷ calls 120
    ∷ []

overlapping : (run_all events (started service)).waiting ≡ 120 ∷ []
unfolding checking
overlapping = refl

last_failed :
    (run_all events (started service)).service.cache
    ≡ some (record { value = fail "1.9.0"; expires = 120 })
unfolding checking
last_failed = refl

run_all-IsFresh_example : IsFresh service (run_all events (started service))
run_all-IsFresh_example = run_all-IsFresh service events refl

mocked :
    mock_check
      (record { current = none; latest = some none; update_available = none; release_url = none })
    ≡ record { current = "1.0.0"; latest = none; update_available = false; release_url = none }
unfolding mock_check
mocked = refl
