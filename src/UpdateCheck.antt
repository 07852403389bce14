-- ===== src/UpdateCheck.antt =====
-- packages/server/src/services/core/update-check.ts: the newest published release, and the cached
-- answer. What became of the request to GitHub is an argument; the fields of a release that are
-- tested for truth are Booleans, and `tag_name` is `none` where it is not a text.
pub mod Considered
pub mod Newest
pub mod Level
pub mod Fresh
use Prim.Native.String.{String}
use mathlib.Core.List.{List, [], ◌∷◌}
use hola.Prelude.{
  ℕ, ◌+◌, ◌*◌, Bool, true, false, not, ◌||◌, Option, none, some, if◌then◌else◌, ltb, after_prefix,
  or_else, value_or,
}
use hola.Versions.{is_newer_version}

pub record UpdateCheckResult : Type 0 where
  pub current : String
  pub latest : Option String
  pub update_available : Bool
  pub release_url : Option String

pub record GithubRelease : Type 0 where
  pub tag_name : Option String
  pub html_url : String
  pub draft : Bool
  pub prerelease : Bool

-- `fails`: the request, or the reading of its body, throws.
pub data Reply : Type 0 where
  fails not_ok unexpected : Reply
  listed : List GithubRelease → Reply

pub record Best : Type 0 where
  pub version : String
  pub url : String

abbrev pub default_ttl_ms : ℕ
default_ttl_ms = 60 * 60 * 1000

abbrev pub fail : String → UpdateCheckResult
fail current = record {
  current = current;
  latest = none;
  update_available = false;
  release_url = none;
}

-- The version of a `cli-v*` tag.
abbrev version_of : Option String → Option String
version_of none = none
version_of (some tag) = after_prefix "cli-v" tag

-- The version that a release counts with, if it does.
unfoldable pub stable_version : GithubRelease → Option String
stable_version r = if r.draft || r.prerelease then none else version_of r.tag_name

unfoldable pub consider : String → String → Option Best → Option Best
consider version url none = some (record { version = version; url = url })
consider version url (some best) =
    if is_newer_version version best.version
    then some (record { version = version; url = url })
    else some best

unfoldable pub newest_release : List GithubRelease → Option Best → Option Best
newest_release [] best = best
newest_release (r ∷ releases) best = elim (stable_version r) [
  | none ↦ newest_release releases best
  | some version ↦ newest_release releases (consider version r.html_url best)
]

abbrev pub answer_of : String → Option Best → UpdateCheckResult
answer_of current none = fail current
answer_of current (some best) = record {
  current = current;
  latest = some best.version;
  update_available = is_newer_version best.version current;
  release_url = some best.url;
}

unfoldable pub fetch_latest : String → Reply → UpdateCheckResult
fetch_latest current fails = fail current
fetch_latest current not_ok = fail current
fetch_latest current unexpected = fail current
fetch_latest current (listed releases) = answer_of current (newest_release releases none)

pub record Cached : Type 0 where
  pub value : UpdateCheckResult
  pub expires : ℕ

pub record UpdateCheckService : Type 0 where
  pub current : String
  pub ttl_ms : Option ℕ
  pub cache : Option Cached

-- `check` up to its `await`: the cached answer, or `none` where it goes on to the request.
unfoldable pub check_cache : UpdateCheckService → ℕ → Option UpdateCheckResult
check_cache service now = elim service.cache [
  | none ↦ none
  | some c ↦ if ltb now c.expires then some c.value else none
]

-- `check` after its `await`, with the time read before it.
unfoldable pub settle_check :
    UpdateCheckService → ℕ → Reply → UpdateCheckResult × UpdateCheckService
settle_check service now reply =
    let result = fetch_latest service.current reply in
    (
      result,
      record service {
        cache =
            some
              (record { value = result; expires = now + value_or service.ttl_ms default_ttl_ms });
      },
    )

-- A caller that nobody overtakes.
unfoldable pub check : UpdateCheckService → ℕ → Reply → UpdateCheckResult × UpdateCheckService
check service now reply = elim (check_cache service now) [
  | some value ↦ (value, service)
  | none ↦ settle_check service now reply
]

-- The mock's answer, with the fields that its constructor is given in place of the default's.
pub record Overrides : Type 0 where
  pub current : Option String
  pub latest : Option (Option String)
  pub update_available : Option Bool
  pub release_url : Option (Option String)

unfoldable pub mock_check : Overrides → UpdateCheckResult
mock_check result = record {
  current = value_or result.current "1.0.0";
  latest = value_or result.latest (some "1.0.0");
  update_available = value_or result.update_available false;
  release_url = value_or result.release_url none;
}
