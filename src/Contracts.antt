-- ===== src/Contracts.antt =====
-- packages/shared/src/contracts.ts: the capability contracts, the refs that name them and the
-- privileges that a provider's grant carries.
pub mod Grants
pub mod Table
use Prim.Native.String
use hola.Prelude.{
  ℕ, String, Bool, true, false, ◌&&◌, ◌||◌, not, Option, none, some, List, [], ◌∷◌, ◌++◌, map, ◌==◌,
  if◌then◌else◌, str_eq, includes, select, find, value_or, any, cat, decimal, split_last,
  is_empty_text,
}
use hola.Prelude.Number.{number_of}

pub data ContractShape : Type 0 where
  brokered provisioned : ContractShape

pub data ContractProviderKind : Type 0 where
  app platform : ContractProviderKind

pub data ParticipationKind : Type 0 where
  declared implicit : ParticipationKind

pub data ProviderGrantKind : Type 0 where
  apps_data container_logs restore_staging : ProviderGrantKind

abbrev pub kind_eq : ProviderGrantKind → ProviderGrantKind → Bool
kind_eq apps_data apps_data = true
kind_eq container_logs container_logs = true
kind_eq restore_staging restore_staging = true
kind_eq _ _ = false

abbrev pub has_kind : List ProviderGrantKind → ProviderGrantKind → Bool
has_kind [] k = false
has_kind (j ∷ js) k = kind_eq j k || has_kind js k

pub record ProviderGrant : Type 0 where
  pub kind : ProviderGrantKind
  pub label : String
  pub risk : String

pub record ContractDefinition : Type 0 where
  pub id : String
  pub version : ℕ
  pub shape : ContractShape
  pub provider_kind : ContractProviderKind
  pub participation : ParticipationKind
  pub provider_grant : Option ProviderGrant
  pub acceptor_block : Option String
  pub summary : String

unfoldable pub format_contract_ref : ContractDefinition → String
format_contract_ref def = cat def.id (cat "@" (decimal def.version))

abbrev names_contract : String → ℕ → ContractDefinition → Bool
names_contract id version c = str_eq c.id id && c.version == version

-- The tests on `at` say that neither side of the last `@` is empty.
unfoldable pub parse_contract_ref : String → List ContractDefinition → Option ContractDefinition
parse_contract_ref raw table = elim (split_last b'@' raw) [
  | none ↦ none
  | some (id, version) ↦
      if is_empty_text id || is_empty_text version
      then none
      else elim (number_of version) [ none ↦ none | some v ↦ find (names_contract id v) table ]
]

-- `parseContractRef(ref, table)?.providerGrant`, with the definition
abbrev grant_of : ContractDefinition → Option (ContractDefinition × ProviderGrant)
grant_of def = elim def.provider_grant [ none ↦ none | some g ↦ some (def, g) ]

unfoldable pub resolve_grant :
    List ContractDefinition → String → Option (ContractDefinition × ProviderGrant)
resolve_grant table ref = elim (parse_contract_ref ref table) [
  | none ↦ none
  | some def ↦ grant_of def
]

unfoldable pub provider_grants_for :
    List ContractDefinition → List String → List (String × ProviderGrant)
provider_grants_for table [] = []
provider_grants_for table (ref ∷ refs) = elim (resolve_grant table ref) [
  | none ↦ provider_grants_for table refs
  | some (def, g) ↦ (format_contract_ref def, g) ∷ provider_grants_for table refs
]

pub missing_grant_consents : List ContractDefinition → List String → List String → List String
missing_grant_consents table provides consented =
    map (λ g. g.0) (select (λ g. not (includes consented g.0)) (provider_grants_for table provides))

abbrev pub add_kind : ProviderGrantKind → List ProviderGrantKind → List ProviderGrantKind
add_kind k out = if has_kind out k then out else out ++ k ∷ []

-- The loop of `grantKindsFor`, over what it has collected.
pub grant_kinds_loop :
    List ContractDefinition → List String → List ProviderGrantKind → List ProviderGrantKind
grant_kinds_loop table [] out = out
grant_kinds_loop table (ref ∷ refs) out = elim (resolve_grant table ref) [
  | none ↦ grant_kinds_loop table refs out
  | some (def, g) ↦ grant_kinds_loop table refs (add_kind g.kind out)
]

pub grant_kinds_for : List ContractDefinition → List String → List ProviderGrantKind
grant_kinds_for table refs = grant_kinds_loop table refs []

pub record GrantKindResolution : Type 0 where
  pub kinds : List ProviderGrantKind
  pub widened : List (String × ProviderGrantKind)

-- One round of `resolveGrantKinds`, for a ref that implies the kind.
pub resolve_kind :
    List ProviderGrantKind → String → ProviderGrantKind → GrantKindResolution → GrantKindResolution
resolve_kind recorded ref kind out =
    if has_kind recorded kind
    then record out { kinds = add_kind kind out.kinds }
    else record out { widened = out.widened ++ (ref, kind) ∷ [] }

pub resolve_loop :
    List ContractDefinition
    → List ProviderGrantKind
    → List String
    → GrantKindResolution
    → GrantKindResolution
resolve_loop table recorded [] out = out
resolve_loop table recorded (ref ∷ refs) out = elim (resolve_grant table ref) [
  | none ↦ resolve_loop table recorded refs out
  | some (def, g) ↦
      resolve_loop table recorded refs (resolve_kind recorded (format_contract_ref def) g.kind out)
]

pub resolve_grant_kinds :
    List ContractDefinition → List String → List ProviderGrantKind → GrantKindResolution
resolve_grant_kinds table refs recorded =
    resolve_loop table recorded refs (record { kinds = []; widened = [] })
