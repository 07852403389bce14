-- ===== src/DockerProxy.antt =====
-- packages/server/src/lib/docker-proxy.ts: which requests of a log collector reach the docker socket,
-- and what of the answers is passed on.
pub mod Paths
pub mod Redaction
use hola.Prelude.Json.{
  Value, Values, Members, undefined, null, boolean, number, string, array, object, nil, cons,
  none_left, member, field,
}
use Prim.Native.Char.{Char, code}
use Prim.Native.String.{String, [], ◌∷◌}
use mathlib.Core.List.{List}
use hola.Prelude.{
  ℕ, ◌-◌, Bool, true, false, ◌&&◌, ◌||◌, not, Option, none, some, ◌==◌, leb, if◌then◌else◌, any,
  select, str_eq, includes, map, is_empty_text, split,
}
use text.Mathlib.Text.{starts_with}

pub data Kind : Type 0 where
  passthrough inspect info list events stream : Kind

-- The code of the letter's capital, for ASCII.
abbrev upper : ℕ → ℕ
upper c = if leb 97 c && leb c 122 then c - 32 else c

-- `s.toUpperCase() === word`, for a word of the letters of GET and HEAD, which are the capitals of no
-- character beyond ASCII
unfoldable pub spells : String → String → Bool
spells [] [] = true
spells (c ∷ word) (d ∷ s) = let rest = spells word s in upper (code d) == code c && rest
spells _ _ = false

-- `\d+(?:\.\d+)*(?=\/|$)`: what follows the match. The flag says that a digit was just read.
unfoldable pub after_version : Bool → String → Option String
after_version digit [] = if digit then some [] else none
after_version digit (c ∷ s) =
    let more = after_version true s in
    let next = after_version false s in
    if leb 48 (code c) && leb (code c) 57
    then more
    else if not digit
    then none
    else if code c == b'/'
    then some (c ∷ s)
    else if code c == b'.'
    then next
    else none

unfoldable pub strip_version : String → String
strip_version (c ∷ d ∷ s) =
    if code c == b'/' && code d == b'v'
    then elim (after_version false s) [ none ↦ c ∷ d ∷ s | some rest ↦ rest ]
    else c ∷ d ∷ s
strip_version s = s

-- `s.split('?')[0]`
unfoldable pub before_query : String → String
before_query [] = []
before_query (c ∷ s) = let rest = before_query s in if code c == b'?' then [] else c ∷ rest

unfoldable pub pathname : String → String
pathname path =
    let rest = strip_version path in before_query (if is_empty_text rest then "/" else rest)

-- `/^\/containers\/[^/]+\/<last>$/`
unfoldable pub names_container : String → List String → Bool
names_container last (List.◌∷◌ root (List.◌∷◌ containers (List.◌∷◌ id (List.◌∷◌ word List.[])))) =
    is_empty_text root
    && str_eq containers "containers"
    && not (is_empty_text id)
    && str_eq word last
names_container last _ = false

unfoldable pub decide : String → String → Option Kind
decide method path =
    let name = pathname path in
    if not (spells "GET" method) && not (spells "HEAD" method)
    then none
    else if str_eq name "/_ping" || str_eq name "/version"
    then some passthrough
    else if str_eq name "/info"
    then some info
    else if str_eq name "/containers/json"
    then some list
    else if str_eq name "/events"
    then some events
    else if names_container "json" (split b'/' name)
    then some inspect
    else if names_container "logs" (split b'/' name)
    then some stream
    else none

abbrev denied_label_keys : List String
denied_label_keys =
    List.◌∷◌ "com.docker.compose.project.config_files"
      (List.◌∷◌ "com.docker.compose.project.working_dir" List.[])

unfoldable pub label_denied : String → Bool
label_denied key = includes denied_label_keys key || starts_with key "desktop.docker.io/binds/"

-- `Object.fromEntries(entries.filter(…))`
pub drop_denied : Members → Members
drop_denied none_left = none_left
drop_denied (member k v ms) =
    let rest = drop_denied ms in if label_denied k then rest else member k v rest

pub any_denied : Members → Bool
any_denied none_left = false
any_denied (member k v ms) = label_denied k || any_denied ms

pub redact_labels : Value → Value
redact_labels (object ms) = if any_denied ms then object (drop_denied ms) else object ms
redact_labels v = v

abbrev copied : String → Members → Members → Members
copied key from rest = member key (field key from) rest

abbrev empty_object : Value
empty_object = object none_left

abbrev no_networks : Value
no_networks = object (member "Networks" empty_object none_left)

pub redact_container_list_entry : Value → Value
redact_container_list_entry (object c) = object (
    copied "Id" c (
      copied "Names" c (
        copied "Image" c (
          copied "ImageID" c (
            copied "Created" c (
              copied "State" c (
                copied "Status" c (
                  member "Labels" (redact_labels (field "Labels" c)) (
                    member "Command" (string "") (
                      member "Ports" (array nil) (
                        member "Mounts" (array nil) (
                          member "HostConfig" empty_object
                            (member "NetworkSettings" no_networks none_left)))))))))))))
redact_container_list_entry v = v

pub redact_all : Values → Values
redact_all nil = nil
redact_all (cons v vs) = cons (redact_container_list_entry v) (redact_all vs)

pub redact_container_list : Value → Value
redact_container_list (array vs) = array (redact_all vs)
redact_container_list v = v

-- An array is an object of JavaScript too, without these fields.
abbrev fields_of : Value → Option Members
fields_of (object ms) = some ms
fields_of (array vs) = some none_left
fields_of _ = none

abbrev copy_fields : List String → Members → Members
copy_fields List.[] b = none_left
copy_fields (List.◌∷◌ key keys) b = copied key b (copy_fields keys b)

abbrev info_keys : List String
info_keys = List.◌∷◌ "ID" (
    List.◌∷◌ "Name" (
      List.◌∷◌ "ServerVersion" (
        List.◌∷◌ "OSType" (
          List.◌∷◌ "OperatingSystem" (
            List.◌∷◌ "Architecture" (
              List.◌∷◌ "NCPU" (
                List.◌∷◌ "MemTotal" (
                  List.◌∷◌ "Containers" (
                    List.◌∷◌ "ContainersRunning" (
                      List.◌∷◌ "ContainersPaused"
                        (List.◌∷◌ "ContainersStopped" (List.◌∷◌ "Images" List.[]))))))))))))

unfoldable pub redact_info : Value → Value
redact_info body = elim (fields_of body) [ none ↦ body | some b ↦ object (copy_fields info_keys b) ]

abbrev config_of : Members → Members
config_of b = elim (fields_of (field "Config" b)) [ none ↦ none_left | some c ↦ c ]

abbrev redacted_config : Members → Value
redacted_config config = object (
    copied "Tty" config (
      member "Labels" (redact_labels (field "Labels" config))
        (copied "Image" config (copied "Hostname" config none_left))))

abbrev redacted_inspect : Members → Value
redacted_inspect b = object (
    copied "Id" b (
      copied "Name" b (
        copied "Created" b (
          copied "State" b (
            copied "Image" b (
              member "Config" (redacted_config (config_of b)) (
                member "HostConfig" (object (member "PortBindings" empty_object none_left)) (
                  member "Mounts" (array nil)
                    (member "NetworkSettings" no_networks none_left)))))))))

unfoldable pub redact_inspect : Value → Value
redact_inspect body = elim (fields_of body) [ none ↦ body | some b ↦ redacted_inspect b ]

-- `{ ...o, key: v }`
pub with_field : String → Value → Members → Members
with_field key v none_left = member key v none_left
with_field key v (member k w ms) =
    let rest = with_field key v ms in if str_eq k key then member k v ms else member k w rest

-- The comparison by identity: `redactLabels` returns its argument unless a label is denied.
abbrev pub is_changed : Value → Bool
is_changed (object ms) = any_denied ms
is_changed _ = false

abbrev redact_actor : Members → Members → Value
redact_actor e actor =
    let labels = field "Attributes" actor in
    if not (is_changed labels)
    then object e
    else object
        (with_field "Actor" (object (with_field "Attributes" (redact_labels labels) actor)) e)

abbrev pub redact_by : Members → Value → Value
redact_by e (object actor) = redact_actor e actor
redact_by e _ = object e

pub redact_event : Value → Value
redact_event (object e) = redact_by e (field "Actor" e)
redact_event v = v

-- The answer to a request: `none` is the refusal with status 403. The daemon's answer `upstream` is
-- read only if the request is allowed. An event stream's lines are redacted one by one.
unfoldable pub respond : String → String → Value → Option Value
respond method path upstream = elim (decide method path) [
  | none ↦ none
  | some kind ↦ some (elim kind [
    | info ↦ redact_info upstream
    | list ↦ redact_container_list upstream
    | inspect ↦ redact_inspect upstream
    | events ↦ redact_event upstream
    | passthrough ↦ upstream
    | stream ↦ upstream
  ])
]
