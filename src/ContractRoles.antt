-- ===== src/ContractRoles.antt =====
-- packages/server/src/services/core/contracts.ts: the roles that a manifest declares, and who takes
-- part in each contract. A deployment is its id; what the participants carry of coverage, and the
-- activity of the broker, are left out.
pub mod Rollup
pub mod Refs
use hola.Prelude.{
  ℕ, String, Bool, true, false, not, ◌&&◌, ◌||◌, Option, none, some, List, [], ◌∷◌, ◌++◌, map,
  length, if◌then◌else◌, ltb, select, includes, trim, is_empty_text, is_empty, value_or, is_some,
}
use hola.Contracts.{
  ContractDefinition, parse_contract_ref, format_contract_ref, platform, implicit,
  ContractProviderKind, ParticipationKind, app, declared,
}

-- What stands in the manifest: a text, an array (`none` for an entry that is no text), or else.
pub data RawRefs : Type 0 where
  one_text : String → RawRefs
  entries : List (Option String) → RawRefs
  something_else : RawRefs

unfoldable pub texts : List (Option String) → List String
texts [] = []
texts (none ∷ xs) = texts xs
texts (some s ∷ xs) = let rest = texts xs in if is_empty_text (trim s) then rest else trim s ∷ rest

unfoldable pub as_ref_list : RawRefs → List String
as_ref_list (one_text s) = texts (some s ∷ [])
as_ref_list (entries xs) = texts xs
as_ref_list something_else = []

pub data Role : Type 0 where
  provides accepts : Role

abbrev is_platform : ContractProviderKind → Bool
is_platform platform = true
is_platform app = false

abbrev pub is_implicit : ParticipationKind → Bool
is_implicit implicit = true
is_implicit declared = false

-- The refs that are dropped: a provider of a contract that the platform provides, and an acceptor of
-- one in which each install takes part.
abbrev pub is_dropped : Role → ContractDefinition → Bool
is_dropped provides def = is_platform def.provider_kind
is_dropped accepts def = is_implicit def.participation

abbrev add_ref : String → List String → List String
add_ref ref out = if includes out ref then out else out ++ ref ∷ []

abbrev pub coerce_one : Role → Option ContractDefinition → List String → List String
coerce_one role none out = out
coerce_one role (some def) out =
    if is_dropped role def then out else add_ref (format_contract_ref def) out

unfoldable pub coerce_loop :
    List ContractDefinition → Role → List String → List String → List String
coerce_loop table role [] out = out
coerce_loop table role (ref ∷ refs) out =
    coerce_loop table role refs (coerce_one role (parse_contract_ref ref table) out)

unfoldable pub coerce_refs : List ContractDefinition → Role → RawRefs → Option (List String)
coerce_refs table role raw =
    let out = coerce_loop table role (as_ref_list raw) [] in if is_empty out then none else some out

-- The contracts whose block the manifest has; `has_block` tells of its fields.
unfoldable acceptor_blocks_present : List ContractDefinition → (String → Bool) → List String
acceptor_blocks_present table has_block =
    map format_contract_ref
      (select (λ c. elim c.acceptor_block [ none ↦ false | some b ↦ has_block b ]) table)

unfoldable find_undeclared_acceptor_blocks :
    List ContractDefinition → (String → Bool) → Option (List String) → List String
find_undeclared_acceptor_blocks table has_block declared_refs =
    select (λ ref. not (includes (value_or declared_refs []) ref))
      (acceptor_blocks_present table has_block)

-- The roles of an install, absent ones as empty lists.
pub record Install : Type 0 where
  pub deployment : String
  pub provided : List String
  pub accepted : List String
  pub granted : List String
  pub hooks : List String

pub record Provider : Type 0 where
  pub deployment : String
  pub granted : Bool

pub record Acceptor : Type 0 where
  pub deployment : String
  pub hooks : Option Bool

pub record Participants : Type 0 where
  pub providers : List Provider
  pub acceptors : List Acceptor
  pub unaffiliated : List String

abbrev pub provider_of : String → Install → Provider
provider_of ref i = record { deployment = i.deployment; granted = includes i.granted ref }

abbrev pub acceptor_of : String → Install → Acceptor
acceptor_of ref i = record { deployment = i.deployment; hooks = some (includes i.hooks ref) }

abbrev pub subject_of : Install → Acceptor
subject_of i = record { deployment = i.deployment; hooks = none }

abbrev pub push_if {ℓ} : {A : Type ℓ} → Bool → A → List A → List A
push_if test a xs = if test then xs ++ a ∷ [] else xs

-- One round of the inner loop; the first flag says that participation is implicit.
pub place_install : Bool → String → Install → Participants → Participants
place_install everyone ref i p =
    let gives = includes i.provided ref in
    let takes = includes i.accepted ref in
    let providers = push_if gives (provider_of ref i) p.providers in
    if everyone
    then record p {
      providers = providers;
      acceptors = push_if (not gives) (subject_of i) p.acceptors;
    }
    else record {
      providers = providers;
      acceptors = push_if takes (acceptor_of ref i) p.acceptors;
      unaffiliated = push_if (not gives && not takes) i.deployment p.unaffiliated;
    }

pub place_all : Bool → String → List Install → Participants → Participants
place_all everyone ref [] p = p
place_all everyone ref (i ∷ installs) p =
    place_all everyone ref installs (place_install everyone ref i p)

pub record ContractRollup : Type 0 where
  pub ref : String
  pub participants : Participants
  pub provider_conflict : Bool

pub roll_up : List Install → ContractDefinition → ContractRollup
roll_up installs def =
    let p =
      place_all (is_implicit def.participation) (format_contract_ref def) installs
        (record { providers = []; acceptors = []; unaffiliated = [] }) in
    record {
      ref = format_contract_ref def;
      participants = p;
      provider_conflict = ltb 1 (length p.providers);
    }

unfoldable build_contract_rollup : List ContractDefinition → List Install → List ContractRollup
build_contract_rollup table installs = map (roll_up installs) table
