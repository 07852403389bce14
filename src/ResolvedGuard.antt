-- ===== src/ResolvedGuard.antt =====
-- packages/server/src/services/core/compose-resolved-guard.ts: the bind mounts of the configuration
-- that compose has resolved, and those that may not be started.
pub mod Components
pub mod Collapsed
pub mod Contained
use Prim.Native.String.{String, []}
use mathlib.Core.List
use mathlib.Core.List.{List, ◌++◌}
use hola.Prelude.{
  Bool, true, false, not, ◌&&◌, ◌||◌, Option, none, some, if◌then◌else◌, str_eq, any, select,
  is_some, is_empty_text, cat, split, after_prefix,
}
use hola.Prelude.Json.{
  Value, Values, Members, undefined, null, boolean, number, string, array, object, nil, cons,
  none_left, member, field,
}

pub record ResolvedBindMount : Type 0 where
  pub service : String
  pub source : String
  pub target : String

pub data Reason : Type 0 where
  no_source not_absolute outside_roots : Reason

pub record UncontainedBindMount : Type 0 where
  pub mount : ResolvedBindMount
  pub reason : Reason

abbrev pub without_last : List String → List String
without_last List.[] = List.[]
without_last (List.◌∷◌ s List.[]) = List.[]
without_last (List.◌∷◌ s (List.◌∷◌ t rest)) = List.◌∷◌ s (without_last (List.◌∷◌ t rest))

abbrev pub push_segment : List String → String → List String
push_segment segments segment =
    if is_empty_text segment || str_eq segment "."
    then segments
    else if str_eq segment ".."
    then without_last segments
    else segments ++ List.◌∷◌ segment List.[]

unfoldable pub collapse : List String → List String → List String
collapse segments List.[] = segments
collapse segments (List.◌∷◌ part parts) = collapse (push_segment segments part) parts

-- `segments.join('/')`
unfoldable pub join_slash : List String → String
join_slash List.[] = []
join_slash (List.◌∷◌ s List.[]) = s
join_slash (List.◌∷◌ s (List.◌∷◌ t rest)) = cat s (cat "/" (join_slash (List.◌∷◌ t rest)))

unfoldable pub normalize_host_path : String → String
normalize_host_path path = cat "/" (join_slash (collapse List.[] (split b'/' path)))

-- `s.startsWith('/')`
abbrev pub is_absolute : String → Bool
is_absolute s = is_some (after_prefix "/" s)

abbrev pub below_prefix : String → String
below_prefix r = if str_eq r "/" then "/" else cat r "/"

unfoldable pub is_under : String → String → Bool
is_under path root =
    let p = normalize_host_path path in
    let r = normalize_host_path root in str_eq p r || is_some (after_prefix (below_prefix r) p)

-- The first two parts of a short entry, absent ones empty.
abbrev part_at_0 : List String → String
part_at_0 List.[] = []
part_at_0 (List.◌∷◌ a parts) = a

abbrev part_at_1 : List String → String
part_at_1 List.[] = []
part_at_1 (List.◌∷◌ a parts) = part_at_0 parts

abbrev pub text_or_empty : Value → String
text_or_empty (string s) = s
text_or_empty _ = []

-- `type === undefined || type === 'bind'`
abbrev pub may_bind : Value → Bool
may_bind undefined = true
may_bind (string s) = str_eq s "bind"
may_bind _ = false

abbrev short_mount : String → String → List ResolvedBindMount
short_mount service entry =
    if is_absolute (part_at_0 (split b':' entry))
    then List.◌∷◌
        (record {
          service = service;
          source = part_at_0 (split b':' entry);
          target = part_at_1 (split b':' entry);
        })
        List.[]
    else List.[]

-- The mounts that one entry adds; an array is an object without the three properties.
unfoldable pub entry_mounts : String → Value → List ResolvedBindMount
entry_mounts service (string entry) = short_mount service entry
entry_mounts service (object ms) =
    if may_bind (field "type" ms)
    then List.◌∷◌
        (record {
          service = service;
          source = text_or_empty (field "source" ms);
          target = text_or_empty (field "target" ms);
        })
        List.[]
    else List.[]
entry_mounts service (array vs) =
    List.◌∷◌ (record { service = service; source = []; target = [] }) List.[]
entry_mounts service _ = List.[]

unfoldable pub volume_mounts : String → Values → List ResolvedBindMount
volume_mounts service nil = List.[]
volume_mounts service (cons v vs) = entry_mounts service v ++ volume_mounts service vs

abbrev pub volumes_of : String → Value → List ResolvedBindMount
volumes_of service (array vs) = volume_mounts service vs
volumes_of service _ = List.[]

unfoldable pub service_mounts : String → Value → List ResolvedBindMount
service_mounts service (object ms) = volumes_of service (field "volumes" ms)
service_mounts service _ = List.[]

unfoldable pub services_mounts : Members → List ResolvedBindMount
services_mounts none_left = List.[]
services_mounts (member service raw rest) = service_mounts service raw ++ services_mounts rest

abbrev pub mounts_in : Value → List ResolvedBindMount
mounts_in (object services) = services_mounts services
mounts_in _ = List.[]

unfoldable pub resolved_bind_mounts : Value → List ResolvedBindMount
resolved_bind_mounts (object ms) = mounts_in (field "services" ms)
resolved_bind_mounts _ = List.[]

-- The application's root and the platform's own paths, as far as they are absolute.
abbrev pub allowed_roots : String → List String → List String
allowed_roots app_root allowed_paths = select is_absolute (List.◌∷◌ app_root allowed_paths)

abbrev pub refused : ResolvedBindMount → Reason → List UncontainedBindMount
refused mount reason = List.◌∷◌ (record { mount = mount; reason = reason }) List.[]

unfoldable pub judge_mount : List String → ResolvedBindMount → List UncontainedBindMount
judge_mount allowed mount =
    if is_empty_text mount.source
    then refused mount no_source
    else if not (is_absolute mount.source)
    then refused mount not_absolute
    else if any (is_under mount.source) allowed
    then List.[]
    else refused mount outside_roots

unfoldable pub judge_mounts : List String → List ResolvedBindMount → List UncontainedBindMount
judge_mounts allowed List.[] = List.[]
judge_mounts allowed (List.◌∷◌ mount mounts) =
    judge_mount allowed mount ++ judge_mounts allowed mounts

unfoldable pub uncontained_bind_mounts : Value → String → List String → List UncontainedBindMount
uncontained_bind_mounts config app_root allowed_paths =
    judge_mounts (allowed_roots app_root allowed_paths) (resolved_bind_mounts config)
