-- ===== src/Contracts/Grants.antt =====
-- The privilege that an install holds: what `resolveGrantKinds` grants and what it reports.
use hola.Prelude.{
  String, ◌≡◌, refl, sym, ap, ◌∙◌, inl, inr, Bool, true, false, ◌&&◌, ◌||◌, not, none, some, List,
  [], ◌∷◌, ◌++◌, arith, if◌then◌else◌, Bool-cases, Option-cases, includes, select, map, ◌↔◌, All,
}
use mathlib.Core.List.{append-nil, append_assoc}
use hola.Contracts.{
  ContractDefinition, ProviderGrant, ProviderGrantKind, apps_data, container_logs, restore_staging,
  kind_eq, has_kind, add_kind, resolve_grant, format_contract_ref, grant_kinds_loop,
  grant_kinds_for, GrantKindResolution, resolve_kind, resolve_loop, resolve_grant_kinds,
  provider_grants_for, missing_grant_consents,
}

-- The refs' live kinds, one by one.
abbrev implies_kind : List ContractDefinition → List String → ProviderGrantKind → Bool
implies_kind table [] k = false
implies_kind table (ref ∷ refs) k =
    elim (resolve_grant table ref) [ none ↦ false | some (def, g) ↦ kind_eq g.kind k ]
    || implies_kind table refs k

kind_eq_iff : (a b : ProviderGrantKind) → kind_eq a b ≡ true → a ≡ b
kind_eq_iff apps_data apps_data h = refl
kind_eq_iff container_logs container_logs h = refl
kind_eq_iff restore_staging restore_staging h = refl
kind_eq_iff _ _ h = cc

kind_eq_refl : (a : ProviderGrantKind) → kind_eq a a ≡ true
kind_eq_refl apps_data = refl
kind_eq_refl container_logs = refl
kind_eq_refl restore_staging = refl

has_kind-append :
    (xs : List ProviderGrantKind) (j k : ProviderGrantKind)
    → has_kind (xs ++ j ∷ []) k ≡ (has_kind xs k || kind_eq j k)
has_kind-append [] j k = ground arith
has_kind-append (x ∷ xs) j k = ground (arith, has_kind-append xs j k)

has_kind-add_kind :
    (j k : ProviderGrantKind) (out : List ProviderGrantKind)
    → has_kind (add_kind j out) k ≡ (has_kind out k || kind_eq j k)
has_kind-add_kind j k out = elim (Bool-cases (has_kind out j)) [
  | inl old ↦ rw old (ground (arith, kind_eq_iff j k))
  | inr new ↦ rw new (has_kind-append out j k)
]

kinds-resolve_kind :
    (recorded : List ProviderGrantKind) (ref : String) (j k : ProviderGrantKind)
    (out : GrantKindResolution)
    → has_kind (resolve_kind recorded ref j out).kinds k
      ≡ (has_kind out.kinds k || (has_kind recorded k && kind_eq j k))
unfolding resolve_kind
kinds-resolve_kind recorded ref j k out = elim (Bool-cases (kind_eq j k)) [
  | inl same ↦ ground (arith, kind_eq_iff j k, has_kind-add_kind j k out.kinds)
  | inr other ↦ ground (arith, has_kind-add_kind j k out.kinds)
]

has_kind-resolve_loop :
    (table : List ContractDefinition) (recorded : List ProviderGrantKind) (refs : List String)
    (out : GrantKindResolution) (k : ProviderGrantKind)
    → has_kind (resolve_loop table recorded refs out).kinds k
      ≡ (has_kind out.kinds k || (has_kind recorded k && implies_kind table refs k))
unfolding resolve_loop
has_kind-resolve_loop table recorded [] out k = ground arith
has_kind-resolve_loop table recorded (ref ∷ refs) out k =
    elim (Option-cases (resolve_grant table ref)) [
      | inl e ↦ ground (arith, has_kind-resolve_loop table recorded refs out k)
      | inr ((def, g), e) ↦ ground (
        arith,
        has_kind-resolve_loop table recorded refs
            (resolve_kind recorded (format_contract_ref def) g.kind out) k,
        kinds-resolve_kind recorded (format_contract_ref def) g.kind k out,
      )
    ]

has_kind-grant_kinds_loop :
    (table : List ContractDefinition) (refs : List String) (out : List ProviderGrantKind)
    (k : ProviderGrantKind)
    → has_kind (grant_kinds_loop table refs out) k ≡ (has_kind out k || implies_kind table refs k)
unfolding grant_kinds_loop
has_kind-grant_kinds_loop table [] out k = ground arith
has_kind-grant_kinds_loop table (ref ∷ refs) out k = elim (Option-cases (resolve_grant table ref)) [
  | inl e ↦ ground (arith, has_kind-grant_kinds_loop table refs out k)
  | inr ((def, g), e) ↦ ground (
    arith,
    has_kind-grant_kinds_loop table refs (add_kind g.kind out) k,
    has_kind-add_kind g.kind k out,
  )
]

-- The privilege that an install holds is exactly what both its consent recorded and the table
-- still implies by one of its refs, for every table: a kind newly attached to a consented ref is not
-- granted, and neither is one that the table withdrew.
pub resolve_grant_kinds_exact :
    (table : List ContractDefinition) (refs : List String) (recorded : List ProviderGrantKind)
    (k : ProviderGrantKind)
    → has_kind (resolve_grant_kinds table refs recorded).kinds k
      ≡ (has_kind recorded k && has_kind (grant_kinds_for table refs) k)
unfolding resolve_grant_kinds grant_kinds_for
resolve_grant_kinds_exact table refs recorded k =
    has_kind-resolve_loop table recorded refs (record { kinds = []; widened = [] }) k
    ∙ ap (λ b. has_kind recorded k && b) (sym (has_kind-grant_kinds_loop table refs [] k))

-- `recorded` has every kind that the refs imply.
abbrev Covers : List ContractDefinition → List ProviderGrantKind → List String → Type 0
Covers table recorded [] = Unit
Covers table recorded (ref ∷ refs) =
    (elim (resolve_grant table ref) [ none ↦ true | some (def, g) ↦ has_kind recorded g.kind ]
      ≡ true)
    × Covers table recorded refs

resolve_loop-Covers :
    (table : List ContractDefinition) (recorded : List ProviderGrantKind) (refs : List String)
    (out : GrantKindResolution)
    → Covers table recorded refs
    → resolve_loop table recorded refs out
      ≡ record { kinds = grant_kinds_loop table refs out.kinds; widened = out.widened }
unfolding resolve_loop grant_kinds_loop resolve_kind
resolve_loop-Covers table recorded [] out c = refl
resolve_loop-Covers table recorded (ref ∷ refs) out c =
    elim (Option-cases (resolve_grant table ref)) [
      | inl e ↦ ground (arith, resolve_loop-Covers table recorded refs out c.1)
      | inr ((def, g), e) ↦ ground (
        arith,
        resolve_loop-Covers table recorded refs (record out { kinds = add_kind g.kind out.kinds })
            c.1,
      )
    ]

Covers-of_kinds :
    (table : List ContractDefinition) (recorded : List ProviderGrantKind) (refs : List String)
    → ((k : ProviderGrantKind) → implies_kind table refs k ≡ true → has_kind recorded k ≡ true)
    → Covers table recorded refs
Covers-of_kinds table recorded [] h = tt
Covers-of_kinds table recorded (ref ∷ refs) h = (
  elim (Option-cases (resolve_grant table ref)) [
    | inl e ↦ ground arith
    | inr ((def, g), e) ↦ ground (arith, h g.kind, kind_eq_refl g.kind)
  ],
  Covers-of_kinds table recorded refs (λ k p. h k (ground arith)),
)

-- Under the table in force at consent time the recorded kinds are the kinds granted, in the same
-- order, and nothing is reported as widened.
pub resolve_grant_kinds-grant_kinds_for :
    (table : List ContractDefinition) (refs : List String)
    → resolve_grant_kinds table refs (grant_kinds_for table refs)
      ≡ record { kinds = grant_kinds_for table refs; widened = [] }
unfolding resolve_grant_kinds grant_kinds_for
resolve_grant_kinds-grant_kinds_for table refs =
    resolve_loop-Covers table (grant_kinds_loop table refs []) refs
      (record { kinds = []; widened = [] })
      (Covers-of_kinds table (grant_kinds_loop table refs []) refs
        (λ k p. has_kind-grant_kinds_loop table refs [] k ∙ p))

-- Every ref whose live kind was not recorded is reported, and no other.
abbrev widenings :
    List ContractDefinition
    → List ProviderGrantKind
    → List String
    → List (String × ProviderGrantKind)
widenings table recorded [] = []
widenings table recorded (ref ∷ refs) =
    elim (resolve_grant table ref) [
      | none ↦ []
      | some (def, g) ↦
          if has_kind recorded g.kind then [] else (format_contract_ref def, g.kind) ∷ []
    ]
    ++ widenings table recorded refs

widened-resolve_loop :
    (table : List ContractDefinition) (recorded : List ProviderGrantKind) (refs : List String)
    (out : GrantKindResolution)
    → (resolve_loop table recorded refs out).widened ≡ out.widened ++ widenings table recorded refs
unfolding resolve_loop resolve_kind
widened-resolve_loop table recorded [] out = sym (append-nil out.widened)
widened-resolve_loop table recorded (ref ∷ refs) out =
    elim (Option-cases (resolve_grant table ref)) [
      | inl e ↦ ground (arith, widened-resolve_loop table recorded refs out)
      | inr ((def, g), e) ↦ ground (
        arith,
        widened-resolve_loop table recorded refs
            (resolve_kind recorded (format_contract_ref def) g.kind out),
        append_assoc out.widened ((format_contract_ref def, g.kind) ∷ [])
            (widenings table recorded refs),
      )
    ]

nothing_left_iff :
    (consented : List String) (gs : List (String × ProviderGrant))
    → (map (λ g. g.0) (select (λ g. not (includes consented g.0)) gs) ≡ [])
      ↔ All (λ g. includes consented g.0 ≡ true) gs
nothing_left_iff consented [] = (λ _. tt, λ _. refl)
nothing_left_iff consented (g ∷ gs) = elim (Bool-cases (includes consented g.0)) [
  | inl there ↦
      rw there (
        λ e. (refl, (nothing_left_iff consented gs).0 e),
        λ a. (nothing_left_iff consented gs).1 a.1,
      )
  | inr not_there ↦ rw not_there (λ e. cc, λ a. cc)
]

-- The install's consent: no ref is missing exactly if the operator consented to every provider
-- role that carries a privilege.
missing_grant_consents_none_iff :
    (table : List ContractDefinition) (provides consented : List String)
    → (missing_grant_consents table provides consented ≡ [])
      ↔ All (λ g. includes consented g.0 ≡ true) (provider_grants_for table provides)
unfolding missing_grant_consents
missing_grant_consents_none_iff table provides consented =
    nothing_left_iff consented (provider_grants_for table provides)

-- Every ref that implies a kind which the consent did not record is reported, with its kind, in the
-- order of the refs and as often as it stands there; no other is.
resolve_grant_kinds-widenings :
    (table : List ContractDefinition) (refs : List String) (recorded : List ProviderGrantKind)
    → (resolve_grant_kinds table refs recorded).widened ≡ widenings table recorded refs
unfolding resolve_grant_kinds
resolve_grant_kinds-widenings table refs recorded =
    widened-resolve_loop table recorded refs (record { kinds = []; widened = [] })
