-- ===== src/Tests/Releases.antt =====
-- Versions, offers and upgrades.
use mathlib.Core.List.{List, [], ◌∷◌}
use hola.Prelude.{
  ◌≡◌, refl, ◌⊎◌, true, false, none, some, ◌&&◌, All, split, trim, trim_start, trim_end, is_space,
  after_prefix,
}
use hola.Versions.{
  less, greater, compare_versions, parse, parse_int, leading_digits, compare_nums, compare_pre,
  compare_lists, compare_units, identifier, is_newer_version, between, check_path, sorted, place,
  AppUpgradeMeta, waypoint_required, CatalogEntry, newest_eligible_version, eligible,
}
use hola.Versions.Upgrades.{newest_eligible_version_cases, Stands, NoneNewer}
use hola.Versions.Waypoints.{waypoint_is_next}

unfoldable comparing : Unit {0}
unfolding compare_versions parse after_prefix parse_int leading_digits compare_nums compare_pre
    compare_lists compare_units identifier is_newer_version check_path sorted place split trim
    trim_start trim_end is_space
comparing = tt

candidates_in_order : compare_versions "v1.2.0-rc.9" "cli-v1.2.0-rc.10" ≡ less
unfolding comparing
candidates_in_order = refl

release_above : compare_versions "1.2" "1.2.0-rc.10" ≡ greater
unfolding comparing
release_above = refl

abbrev stops : AppUpgradeMeta
stops = record { min_from_version = none; waypoints = "3.0" ∷ "2.0" ∷ [] }

stopped : check_path "1.0" "4.0" stops ≡ waypoint_required "2.0"
unfolding comparing
stopped = refl

waypoint_is_next_example :
    (between "1.0" "4.0" "2.0" ≡ true)
    × All (λ w. (between "1.0" "4.0" w && is_newer_version "2.0" w) ≡ false) stops.waypoints
waypoint_is_next_example = waypoint_is_next "1.0" "4.0" "2.0" stops stopped

abbrev entries : List CatalogEntry
entries =
    record { version = "1.0"; channel = none }
    ∷ record { version = "2.0"; channel = some "beta" }
    ∷ []

newest_eligible_version_cases_example :
    ((newest_eligible_version "stable" entries ≡ none)
      × All (λ e. eligible "stable" e ≡ false) entries)
    ⊎ ((best : CatalogEntry) × (newest_eligible_version "stable" entries ≡ some best)
        × Stands best entries
        × (eligible "stable" best ≡ true)
        × NoneNewer "stable" best entries)
newest_eligible_version_cases_example = newest_eligible_version_cases "stable" entries
