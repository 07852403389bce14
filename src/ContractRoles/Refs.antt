-- ===== src/ContractRoles/Refs.antt =====
-- The refs that are taken from a manifest.
use hola.Prelude.{
  String, ◌≡◌, refl, inl, inr, false, Option, none, some, List, [], ◌∷◌, ◌++◌, arith, Bool-cases,
  includes, All,
}
use mathlib.Core.Path.{subst}
use hola.Contracts.{ContractDefinition, parse_contract_ref, format_contract_ref}
use hola.ContractRoles.{
  Role, RawRefs, is_dropped, coerce_one, coerce_loop, coerce_refs, as_ref_list,
}

-- The canonical ref of a contract in which the role can be declared.
abbrev IsRoleRef : Role → String → Type 0
IsRoleRef role ref =
    (def : ContractDefinition) × (ref ≡ format_contract_ref def) × (is_dropped role def ≡ false)

All-append_one :
    (role : Role) (ref : String) (refs : List String)
    → All (IsRoleRef role) refs
    → IsRoleRef role ref
    → All (IsRoleRef role) (refs ++ ref ∷ [])
All-append_one role ref [] a p = (p, tt)
All-append_one role ref (r ∷ refs) (b, a) p = (b, All-append_one role ref refs a p)

coerce_one-IsRoleRef :
    (role : Role) (o : Option ContractDefinition) (out : List String)
    → All (IsRoleRef role) out
    → All (IsRoleRef role) (coerce_one role o out)
coerce_one-IsRoleRef role none out a = a
coerce_one-IsRoleRef role (some def) out a = elim (Bool-cases (is_dropped role def)) [
  | inl dropped ↦ rw dropped a
  | inr kept ↦ elim (Bool-cases (includes out (format_contract_ref def))) [
    | inl old ↦ rw kept (rw old a)
    | inr new ↦
        rw kept (rw new (All-append_one role (format_contract_ref def) out a (def, refl, kept)))
  ]
]

coerce_loop-IsRoleRef :
    (table : List ContractDefinition) (role : Role) (refs out : List String)
    → All (IsRoleRef role) out
    → All (IsRoleRef role) (coerce_loop table role refs out)
unfolding coerce_loop
coerce_loop-IsRoleRef table role [] out a = a
coerce_loop-IsRoleRef table role (ref ∷ refs) out a =
    coerce_loop-IsRoleRef table role refs (coerce_one role (parse_contract_ref ref table) out)
      (coerce_one-IsRoleRef role (parse_contract_ref ref table) out a)

coerce_refs-some :
    (table : List ContractDefinition) (role : Role) (raw : RawRefs) (refs : List String)
    → coerce_refs table role raw ≡ some refs
    → coerce_loop table role (as_ref_list raw) [] ≡ refs
unfolding coerce_refs
coerce_refs-some table role raw refs h = ground arith

-- Whatever a manifest says, each ref that is taken from it is the canonical ref of a contract in which
-- the role can be declared.
coerce_refs-IsRoleRef :
    (table : List ContractDefinition) (role : Role) (raw : RawRefs) (refs : List String)
    → coerce_refs table role raw ≡ some refs
    → All (IsRoleRef role) refs
coerce_refs-IsRoleRef table role raw refs h =
    subst (All (IsRoleRef role)) (coerce_refs-some table role raw refs h)
      (coerce_loop-IsRoleRef table role (as_ref_list raw) [] tt)
