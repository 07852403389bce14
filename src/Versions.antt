-- ===== src/Versions.antt =====
-- packages/shared/src/index.ts: the order of versions, release channels and the guard on upgrades.
pub mod Order
pub mod Upgrades
pub mod Waypoints
use Prim.Native.Char.{code}
use Prim.Native.String.{String, [], ◌∷◌}
use mathlib.Core.List.{List}
use hola.Prelude.{
  ℕ, zero, suc, ◌+◌, ◌-◌, ◌*◌, ◌/◌, ◌%◌, Bool, true, false, not, ◌&&◌, ◌||◌, Option, none, some,
  if◌then◌else◌, ◌==◌, leb, ltb, str_eq, split, trim, trim_start, is_empty_text, map, select,
  value_or, all, after_prefix,
}

-- The sign of the number that a comparison returns.
pub data Sign : Type 0 where
  less same greater : Sign

abbrev pub flip : Sign → Sign
flip less = greater
flip same = same
flip greater = less

abbrev pub or_then : Sign → Sign → Sign
or_then same b = b
or_then a b = a

abbrev pub sign_of : ℕ → ℕ → Sign
sign_of a b = if ltb a b then less else if ltb b a then greater else same

-- `s.replace(/^cli-v/, '')`, then `.replace(/^v/, '')`
abbrev pub cleaned : String → String
cleaned v =
    let t = trim v in let u = value_or (after_prefix "cli-v" t) t in value_or (after_prefix "v" u) u

abbrev pub is_digit : ℕ → Bool
is_digit c = leb 48 c && leb c 57

unfoldable pub leading_digits : ℕ → String → ℕ
leading_digits n [] = n
leading_digits n (c ∷ s) =
    let rest = leading_digits (n * 10 + (code c - 48)) s in if is_digit (code c) then rest else n

abbrev after_plus : String → String
after_plus [] = []
after_plus (c ∷ s) = if code c == b'+' then s else c ∷ s

-- `parseInt(s, 10) || 0`, for a text without a minus sign
unfoldable pub parse_int : String → ℕ
parse_int s = leading_digits 0 (after_plus (trim_start s))

pub record Version : Type 0 where
  pub nums : List ℕ
  pub pre : String

abbrev pub first_part : List String → String
first_part List.[] = ""
first_part (List.◌∷◌ p ps) = p

abbrev second_part : List String → String
second_part List.[] = ""
second_part (List.◌∷◌ p ps) = first_part ps

-- The parts of the split by `-`: the core, and the second, which is empty if there is none.
unfoldable pub parse : String → Version
parse v =
    let parts = split b'-' (cleaned v) in
    record { nums = map parse_int (split b'.' (first_part parts)); pre = second_part parts }

-- A missing number is 0.
unfoldable pub compare_nums : List ℕ → List ℕ → Sign
compare_nums List.[] List.[] = same
compare_nums (List.◌∷◌ a rs) List.[] = or_then (sign_of a 0) (compare_nums rs List.[])
compare_nums List.[] (List.◌∷◌ b bs) = or_then (sign_of 0 b) (compare_nums List.[] bs)
compare_nums (List.◌∷◌ a rs) (List.◌∷◌ b bs) = or_then (sign_of a b) (compare_nums rs bs)

-- UTF-16, which JavaScript compares texts by.
abbrev pub units : String → List ℕ
units [] = List.[]
units (c ∷ s) =
    if ltb (code c) 65536
    then List.◌∷◌ (code c) (units s)
    else List.◌∷◌ (55296 + (code c - 65536) / 1024)
        (List.◌∷◌ (56320 + (code c - 65536) % 1024) (units s))

unfoldable pub compare_units : List ℕ → List ℕ → Sign
compare_units List.[] List.[] = same
compare_units List.[] (List.◌∷◌ b bs) = less
compare_units (List.◌∷◌ a rs) List.[] = greater
compare_units (List.◌∷◌ a rs) (List.◌∷◌ b bs) = or_then (sign_of a b) (compare_units rs bs)

abbrev all_digits : String → Bool
all_digits [] = true
all_digits (c ∷ s) = is_digit (code c) && all_digits s

-- An identifier of a prerelease: `/^\d+$/` tells the numeric ones.
pub data Identifier : Type 0 where
  numeric : ℕ → Identifier
  word : List ℕ → Identifier

unfoldable pub identifier : String → Identifier
identifier s =
    if not (is_empty_text s) && all_digits s then numeric (parse_int s) else word (units s)

abbrev pub compare_identifiers : Identifier → Identifier → Sign
compare_identifiers (numeric a) (numeric b) = sign_of a b
compare_identifiers (numeric a) (word b) = less
compare_identifiers (word a) (numeric b) = greater
compare_identifiers (word a) (word b) = compare_units a b

unfoldable pub compare_lists : List Identifier → List Identifier → Sign
compare_lists List.[] List.[] = same
compare_lists List.[] (List.◌∷◌ b bs) = less
compare_lists (List.◌∷◌ a rs) List.[] = greater
compare_lists (List.◌∷◌ a rs) (List.◌∷◌ b bs) =
    or_then (compare_identifiers a b) (compare_lists rs bs)

abbrev pub identifiers : String → List Identifier
identifiers pre = map identifier (split b'.' pre)

-- A release outranks its prereleases.
unfoldable pub compare_pre : String → String → Sign
compare_pre a b =
    if is_empty_text a && not (is_empty_text b)
    then greater
    else if not (is_empty_text a) && is_empty_text b
    then less
    else if str_eq a b
    then same
    else compare_lists (identifiers a) (identifiers b)

unfoldable pub compare_versions : String → String → Sign
compare_versions a b =
    or_then (compare_nums (parse a).nums (parse b).nums) (compare_pre (parse a).pre (parse b).pre)

abbrev pub is_greater : Sign → Bool
is_greater greater = true
is_greater _ = false

unfoldable pub is_newer_version : String → String → Bool
is_newer_version candidate current = is_greater (compare_versions candidate current)

abbrev stable_channel : String
stable_channel = "stable"

unfoldable pub is_eligible_on_channel : String → String → Bool
is_eligible_on_channel version_channel channel =
    str_eq version_channel channel || str_eq version_channel stable_channel

pub record CatalogEntry : Type 0 where
  pub version : String
  pub channel : Option String

abbrev pub is_less : Sign → Bool
is_less less = true
is_less _ = false

abbrev pub eligible : String → CatalogEntry → Bool
eligible channel e = is_eligible_on_channel (value_or e.channel stable_channel) channel

abbrev pub better : CatalogEntry → Option CatalogEntry → Option CatalogEntry
better e none = some e
better e (some best) =
    if not (is_less (compare_versions e.version best.version)) then some e else some best

pub newest_loop : String → List CatalogEntry → Option CatalogEntry → Option CatalogEntry
newest_loop channel List.[] best = best
newest_loop channel (List.◌∷◌ e entries) best =
    newest_loop channel entries (if eligible channel e then better e best else best)

pub newest_eligible_version : String → List CatalogEntry → Option CatalogEntry
newest_eligible_version channel entries = newest_loop channel entries none

pub record AppUpgradeMeta : Type 0 where
  pub min_from_version : Option String
  pub waypoints : List String

-- The two refusals carry the version to go to first.
pub data UpgradePathResult : Type 0 where
  path_ok : UpgradePathResult
  min_from_version waypoint_required : String → UpgradePathResult

abbrev pub truthy : Option String → Option String
truthy none = none
truthy (some s) = if is_empty_text s then none else some s

-- `sort(compareVersions)`, which is stable
unfoldable pub place : String → List String → List String
place v List.[] = List.◌∷◌ v List.[]
place v (List.◌∷◌ w ws) =
    let rest = place v ws in
    if is_greater (compare_versions v w) then List.◌∷◌ w rest else List.◌∷◌ v (List.◌∷◌ w ws)

unfoldable pub sorted : List String → List String
sorted List.[] = List.[]
sorted (List.◌∷◌ v vs) = place v (sorted vs)

abbrev pub between : String → String → String → Bool
between from to w = is_newer_version w from && is_newer_version to w

abbrev floor_breached : String → Option String → Option String
floor_breached from none = none
floor_breached from (some least) =
    if not (is_empty_text least) && is_newer_version least from then some least else none

abbrev pub next_stop : List String → UpgradePathResult
next_stop List.[] = path_ok
next_stop (List.◌∷◌ v vs) = if is_empty_text v then path_ok else waypoint_required v

unfoldable pub check_path : String → String → AppUpgradeMeta → UpgradePathResult
check_path from to meta =
    if not (is_newer_version to from)
    then path_ok
    else elim (floor_breached from meta.min_from_version) [
      | some least ↦ min_from_version least
      | none ↦ next_stop (sorted (select (between from to) meta.waypoints))
    ]

unfoldable pub check_upgrade_path :
    Option String → Option String → Option AppUpgradeMeta → UpgradePathResult
check_upgrade_path from to none = path_ok
check_upgrade_path from to (some meta) = elim (truthy from) [
  | none ↦ path_ok
  | some f ↦ elim (truthy to) [ none ↦ path_ok | some t ↦ check_path f t meta ]
]
