-- ===== src/ContractRoles/Rollup.antt =====
-- Who takes part in a contract.
use hola.Prelude.{
  String, ◌≡◌, refl, sym, ap, ◌∙◌, inl, inr, Bool, true, false, not, ◌&&◌, List, [], ◌∷◌, ◌++◌, map,
  if◌then◌else◌, Bool-cases, select, includes,
}
use mathlib.Core.List.{append_assoc, append-nil}
use hola.Contracts.{ContractDefinition, format_contract_ref}
use hola.ContractRoles.{
  Install, Participants, Provider, Acceptor, provider_of, acceptor_of, subject_of, push_if,
  place_install, place_all, roll_up, is_implicit,
}

abbrev pub gives : String → Install → Bool
gives ref i = includes i.provided ref

abbrev pub takes : String → Install → Bool
takes ref i = includes i.accepted ref

push_step {ℓ κ} :
    {A : Type ℓ} {B : Type κ} (test : B → Bool) (f : B → A) (b : B) (bs : List B) (xs : List A)
    → push_if (test b) (f b) xs ++ map f (select test bs) ≡ xs ++ map f (select test (b ∷ bs))
push_step test f b bs xs = elim (Bool-cases (test b)) [
  | inl good ↦ rw good (append_assoc xs (f b ∷ []) (map f (select test bs)))
  | inr bad ↦ rw bad refl
]

-- The participants, each list described by itself.
abbrev pub described : Bool → String → List Install → Participants → Participants
described everyone ref installs p = record {
  providers = p.providers ++ map (provider_of ref) (select (gives ref) installs);
  acceptors =
      p.acceptors
      ++ (if everyone
          then map subject_of (select (λ i. not (gives ref i)) installs)
          else map (acceptor_of ref) (select (takes ref) installs));
  unaffiliated =
      p.unaffiliated
      ++ (if everyone
          then []
          else map (λ i. i.deployment)
              (select (λ i. not (gives ref i) && not (takes ref i)) installs));
}

same_parts :
    {ps ps' : List Provider} {bs bs' : List Acceptor} {us us' : List String}
    → ps ≡ ps'
    → bs ≡ bs'
    → us ≡ us'
    → ◌≡◌ {A = Participants}
        (record { providers = ps; acceptors = bs; unaffiliated = us })
        (record { providers = ps'; acceptors = bs'; unaffiliated = us' })
same_parts {ps} {ps'} {bs} {bs'} {us} {us'} p q r =
    ap (λ x. record { providers = x; acceptors = bs; unaffiliated = us }) p
    ∙ ap (λ x. record { providers = ps'; acceptors = x; unaffiliated = us }) q
    ∙ ap (λ x. record { providers = ps'; acceptors = bs'; unaffiliated = x }) r

place_all-described :
    (everyone : Bool) (ref : String) (installs : List Install) (p : Participants)
    → place_all everyone ref installs p ≡ described everyone ref installs p
unfolding place_all place_install
place_all-described true ref [] p =
    same_parts (sym (append-nil p.providers)) (sym (append-nil p.acceptors))
      (sym (append-nil p.unaffiliated))
place_all-described false ref [] p =
    same_parts (sym (append-nil p.providers)) (sym (append-nil p.acceptors))
      (sym (append-nil p.unaffiliated))
place_all-described true ref (i ∷ installs) p =
    place_all-described true ref installs (place_install true ref i p)
    ∙ same_parts (push_step (gives ref) (provider_of ref) i installs p.providers)
        (push_step (λ j. not (gives ref j)) subject_of i installs p.acceptors) refl
place_all-described false ref (i ∷ installs) p =
    place_all-described false ref installs (place_install false ref i p)
    ∙ same_parts (push_step (gives ref) (provider_of ref) i installs p.providers)
        (push_step (takes ref) (acceptor_of ref) i installs p.acceptors)
        (push_step (λ j. not (gives ref j) && not (takes ref j)) (λ j. j.deployment) i installs
          p.unaffiliated)

-- For each contract the providers are the installs that declare the role, with their grants; where
-- participation is implicit the acceptors are all others and nobody is unaffiliated; else the
-- acceptors are those that declare it, and the unaffiliated are those with neither role.
pub roll_up-described :
    (installs : List Install) (def : ContractDefinition)
    → (roll_up installs def).participants
      ≡ described
          (is_implicit def.participation)
          (format_contract_ref def)
          installs
          (record { providers = []; acceptors = []; unaffiliated = [] })
unfolding roll_up
roll_up-described installs def =
    place_all-described (is_implicit def.participation) (format_contract_ref def) installs
      (record { providers = []; acceptors = []; unaffiliated = [] })
