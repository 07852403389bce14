-- ===== src/DockerProxy/Redaction.antt =====
-- What answers may hold.
use hola.Prelude.Json.{
  Value, Values, Members, undefined, array, object, nil, cons, none_left, member, field,
}
use Prim.Native.String.{String}
use hola.Prelude.{◌≡◌, refl, inl, inr, false, arith, str_eq, eq_iff, Bool-cases, if◌then◌else◌}
use hola.DockerProxy.{
  label_denied, drop_denied, any_denied, redact_labels, redact_container_list_entry, redact_all,
  redact_container_list, redact_event, with_field, redact_by, is_changed,
}

-- No entry of the object has a denied key.
abbrev IsClean : Value → Type 0
IsClean (object ms) = any_denied ms ≡ false
IsClean _ = Unit

any_denied-drop_denied : (ms : Members) → any_denied (drop_denied ms) ≡ false
unfolding any_denied drop_denied
any_denied-drop_denied none_left = refl
any_denied-drop_denied (member k v ms) = ground (arith, any_denied-drop_denied ms)

redact_labels-IsClean : (v : Value) → IsClean (redact_labels v)
unfolding redact_labels
redact_labels-IsClean (object ms) = elim (Bool-cases (any_denied ms)) [
  | inl some_denied ↦ rw some_denied (any_denied-drop_denied ms)
  | inr none_denied ↦ rw none_denied none_denied
]
redact_labels-IsClean undefined = tt
redact_labels-IsClean Value.null = tt
redact_labels-IsClean (Value.boolean b) = tt
redact_labels-IsClean (Value.number n) = tt
redact_labels-IsClean (Value.string s) = tt
redact_labels-IsClean (array vs) = tt

-- A label that is not denied stays as it was.
field-redact_labels :
    (ms : Members) (key : String)
    → label_denied key ≡ false
    → field key (drop_denied ms) ≡ field key ms
unfolding field drop_denied
field-redact_labels none_left key h = refl
field-redact_labels (member k v ms) key h =
    ground (arith, eq_iff k key, field-redact_labels ms key h)

-- The entry of a container in a listing.
abbrev IsListEntry : Value → Type 0
IsListEntry (object ms) =
    IsClean (field "Labels" ms)
    × (field "Mounts" ms ≡ array nil)
    × (field "Ports" ms ≡ array nil)
    × (field "HostConfig" ms ≡ object none_left)
    × (field "Command" ms ≡ Value.string "")
    × (field "Env" ms ≡ undefined)
IsListEntry _ = Unit

abbrev AllEntries : Values → Type 0
AllEntries nil = Unit
AllEntries (cons v vs) = IsListEntry v × AllEntries vs

abbrev pub IsListing : Value → Type 0
IsListing (array vs) = AllEntries vs
IsListing _ = Unit

entry-IsListEntry : (v : Value) → IsListEntry (redact_container_list_entry v)
unfolding redact_container_list_entry field
entry-IsListEntry (object ms) =
    (redact_labels-IsClean (field "Labels" ms), refl, refl, refl, refl, refl)
entry-IsListEntry undefined = tt
entry-IsListEntry Value.null = tt
entry-IsListEntry (Value.boolean b) = tt
entry-IsListEntry (Value.number n) = tt
entry-IsListEntry (Value.string s) = tt
entry-IsListEntry (array vs) = tt

all_entries : (vs : Values) → AllEntries (redact_all vs)
unfolding redact_all
all_entries nil = tt
all_entries (cons v vs) = (entry-IsListEntry v, all_entries vs)

-- Whatever the daemon lists: each container's entry has no denied label, and neither mounts, ports,
-- host configuration, command nor environment.
pub redact_container_list-IsListing : (body : Value) → IsListing (redact_container_list body)
unfolding redact_container_list
redact_container_list-IsListing (array vs) = all_entries vs
redact_container_list-IsListing undefined = tt
redact_container_list-IsListing Value.null = tt
redact_container_list-IsListing (Value.boolean b) = tt
redact_container_list-IsListing (Value.number n) = tt
redact_container_list-IsListing (Value.string s) = tt
redact_container_list-IsListing (object ms) = tt

abbrev labels_of : Value → Value
labels_of (object actor) = field "Attributes" actor
labels_of _ = undefined

-- The labels of the actor, if the event has one.
abbrev actor_labels : Value → Value
actor_labels (object e) = labels_of (field "Actor" e)
actor_labels _ = undefined

field-with_field :
    (key other : String) (v : Value) (ms : Members)
    → field other (with_field key v ms) ≡ (if str_eq key other then v else field other ms)
unfolding field with_field
field-with_field key other v none_left = refl
field-with_field key other v (member k w ms) =
    ground (arith, eq_iff k key, eq_iff k other, eq_iff key other, field-with_field key other v ms)

unchanged-IsClean : (v : Value) → is_changed v ≡ false → IsClean v
unchanged-IsClean (object ms) h = h
unchanged-IsClean undefined h = tt
unchanged-IsClean Value.null h = tt
unchanged-IsClean (Value.boolean b) h = tt
unchanged-IsClean (Value.number n) h = tt
unchanged-IsClean (Value.string s) h = tt
unchanged-IsClean (array vs) h = tt

abbrev cleaned : Members → Value
cleaned actor = object (with_field "Attributes" (redact_labels (field "Attributes" actor)) actor)

-- The event whose actor is the value.
event_IsClean :
    (e : Members) (actor : Value)
    → field "Actor" e ≡ actor
    → IsClean (actor_labels (redact_by e actor))
event_IsClean e (object actor) h = elim (Bool-cases (is_changed (field "Attributes" actor))) [
  | inl some_denied ↦ rw some_denied (
      rw (field-with_field "Actor" "Actor" (cleaned actor) e) (
        rw
          (field-with_field "Attributes" "Attributes" (redact_labels (field "Attributes" actor))
            actor)
          (redact_labels-IsClean (field "Attributes" actor))))
  | inr none_denied ↦
      rw none_denied (rw h (unchanged-IsClean (field "Attributes" actor) none_denied))
]
event_IsClean e undefined h = rw h tt
event_IsClean e Value.null h = rw h tt
event_IsClean e (Value.boolean b) h = rw h tt
event_IsClean e (Value.number n) h = rw h tt
event_IsClean e (Value.string s) h = rw h tt
event_IsClean e (array vs) h = rw h tt

-- Whatever the event: what is passed on has no denied label on its actor.
redact_event-IsClean : (event : Value) → IsClean (actor_labels (redact_event event))
unfolding redact_event
redact_event-IsClean (object e) = event_IsClean e (field "Actor" e) refl
redact_event-IsClean undefined = tt
redact_event-IsClean Value.null = tt
redact_event-IsClean (Value.boolean b) = tt
redact_event-IsClean (Value.number n) = tt
redact_event-IsClean (Value.string s) = tt
redact_event-IsClean (array vs) = tt
