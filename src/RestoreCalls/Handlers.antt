-- ===== src/RestoreCalls/Handlers.antt =====
-- What the provider's calls answer and what they leave in the store.
use hola.Prelude.{
  ok, err, Result-cases, ℕ, String, ◌≡◌, refl, ap, sym, ◌∙◌, inl, inr, Bool, true, false, not, ◌&&◌,
  Option, none, some, List, [], ◌∷◌, ◌++◌, arith, if◌then◌else◌, Bool-cases, Option-cases, str_eq,
  eq_iff, eq_refl, lookup, insert,
}
use mathlib.Core.List.{append-nil, append_assoc}
use hola.JsonRecordStore.{WriteResult}
use hola.RestoreBroker.{
  RestoreRequestRecord, RestoreRequestStore, Broker, Poll, is_pending, read_store, write_store,
  transition, get, is_restore_request_expired, pending_for, poll_loop, poll_round,
}
use hola.RestoreCalls.{
  not_contract_provider, Outcome, complete_restore_request, CallEnv, claim_restore_request,
  claim_transition, claim_record, claim_checks, get_step, require_consented_provider,
  restore_contract_ref, find_consented_provider, poll_restore_requests,
}

claim_transition_applied :
    (now : ℕ) (w : WriteResult) (id : String) (b : Broker)
    → (claim_transition now w id b).0.0 ≡ true
    → (r : RestoreRequestRecord) × (lookup id (read_store b) ≡ some r)
      × (is_pending r.status ≡ true)
      × ((claim_transition now w id b).1
          ≡ write_store w (insert id (claim_record now r) (read_store b)) b)
unfolding claim_transition transition
claim_transition_applied now w id b h = elim (Option-cases (lookup id (read_store b))) [
  | inl e ↦ ground arith
  | inr (r, e) ↦ (r, e, ground arith, ground arith)
]

-- The state in which the claim's compare-and-set runs.
abbrev pub seen_by_claim : CallEnv → String → Broker → Broker
seen_by_claim env id b = env.between (get_step env id b).1

-- The facts behind a claim that was answered with success.
record ClaimOk (env : CallEnv) (id : String) (b : Broker) : Type 0 where
  found : RestoreRequestRecord
  fetched : (get_step env id b).0 ≡ some found
  consented :
      require_consented_provider env.deployments env.caller restore_contract_ref
      ≡ ok found.provider_deployment_id
  applied : (claim_transition env.now_set env.write_set id (seen_by_claim env id b)).0.0 ≡ true
  left :
      (claim_restore_request env id b).1
      ≡ (claim_transition env.now_set env.write_set id (seen_by_claim env id b)).1

claim_checks_ok :
    (provider : String) (found : Option RestoreRequestRecord)
    → claim_checks provider found ≡ ok tt
    → (r : RestoreRequestRecord) × (found ≡ some r) × (r.provider_deployment_id ≡ provider)
unfolding claim_checks
claim_checks_ok provider none h = cc
claim_checks_ok provider (some r) h =
    (r, refl, ground (arith, eq_iff r.provider_deployment_id provider))

ClaimOk-of_ok :
    (env : CallEnv) (id : String) (b : Broker)
    → (claim_restore_request env id b).0 ≡ ok tt
    → ClaimOk env id b
unfolding claim_restore_request
ClaimOk-of_ok env id b h =
    elim (Result-cases
      (require_consented_provider env.deployments env.caller restore_contract_ref)) [
        | inr (e, bad) ↦ ground arith
        | inl (provider, p) ↦ elim (Result-cases (claim_checks provider (get_step env id b).0)) [
          | inr (e, bad) ↦ ground arith
          | inl (u, c) ↦
              let (r, f, own) = claim_checks_ok provider (get_step env id b).0 c in
              record {
                found = r;
                fetched = f;
                consented = p ∙ ap ok (sym own);
                applied = ground (arith, p, c);
                left = ground (arith, p, c);
              }
        ]
      ]

-- A claim is answered with success only to a consented provider that the request is addressed to,
-- and only if the request was pending at the moment of the compare-and-set, whatever ran since the
-- checks. What it leaves is then that state but for one write, whether it reaches the file or not: of
-- the store with the request claimed at that time and the other requests as they were.
pub claim_takes_request :
    (env : CallEnv) (id : String) (b : Broker)
    → (claim_restore_request env id b).0 ≡ ok tt
    → (found : RestoreRequestRecord) × ((get_step env id b).0 ≡ some found)
      × (require_consented_provider env.deployments env.caller restore_contract_ref
          ≡ ok found.provider_deployment_id)
      × (r : RestoreRequestRecord) × (lookup id (read_store (seen_by_claim env id b)) ≡ some r)
      × (is_pending r.status ≡ true)
      × ((claim_restore_request env id b).1
          ≡ write_store env.write_set
              (insert id (claim_record env.now_set r) (read_store (seen_by_claim env id b)))
              (seen_by_claim env id b))
claim_takes_request env id b h =
    let c = ClaimOk-of_ok env id b h in
    let (r, seen, open_still, taken) =
      claim_transition_applied env.now_set env.write_set id (seen_by_claim env id b) c.applied in
    (c.found, c.fetched, c.consented, r, seen, open_still, c.left ∙ taken)

-- A caller that is not a consented provider changes nothing and learns nothing of the queue: each
-- of the calls answers with the same refusal, whatever the store holds.
outsider_refused :
    (env : CallEnv) (id : String) (outcome : Outcome) (reason : Option String) (b : Broker)
    → find_consented_provider env.deployments env.caller restore_contract_ref ≡ none
    → (claim_restore_request env id b ≡ (err not_contract_provider, b))
      × (complete_restore_request env id outcome reason b ≡ (err not_contract_provider, b))
      × (poll_restore_requests env b ≡ (err not_contract_provider, b))
unfolding claim_restore_request complete_restore_request poll_restore_requests
    require_consented_provider
outsider_refused env id outcome reason b h = (ground arith, ground arith, ground arith)

-- A claim goes through for the consented provider that a pending request is addressed to, before
-- its deadline and with nobody else at the store: it succeeds.
pub claim_succeeds :
    (env : CallEnv) (id : String) (b : Broker) (r : RestoreRequestRecord)
    → find_consented_provider env.deployments env.caller restore_contract_ref
      ≡ some r.provider_deployment_id
    → lookup id (read_store b) ≡ some r
    → is_pending r.status ≡ true
    → is_restore_request_expired r env.now_get ≡ false
    → env.between b ≡ b
    → (claim_restore_request env id b).0 ≡ ok tt
unfolding claim_restore_request require_consented_provider claim_checks claim_transition transition
    get
claim_succeeds env id b r p found waiting fresh quiet =
    ground (arith, eq_refl r.provider_deployment_id)

-- What a poll is to hand over: the pending requests addressed to the provider, not past their
-- deadline, in the order of the store.
abbrev is_servable : ℕ → String → RestoreRequestRecord → Bool
is_servable now provider r =
    is_pending r.status
    && str_eq r.provider_deployment_id provider
    && not (is_restore_request_expired r now)

abbrev pub servable : ℕ → String → RestoreRequestStore → List RestoreRequestRecord
servable now provider [] = []
servable now provider ((id, r) ∷ s) =
    if is_servable now provider r then r ∷ servable now provider s else servable now provider s

out-poll_round :
    (now : ℕ) (provider id : String) (r : RestoreRequestRecord) (p : Poll)
    → (poll_round now provider id r p).out
      ≡ (if is_servable now provider r then p.out ++ r ∷ [] else p.out)
unfolding poll_round
out-poll_round now provider id r p = ground arith

out-poll_loop :
    (now : ℕ) (provider : String) (s : RestoreRequestStore) (p : Poll)
    → (poll_loop now provider s p).out ≡ p.out ++ servable now provider s
unfolding poll_loop
out-poll_loop now provider [] p = sym (append-nil p.out)
out-poll_loop now provider ((id, r) ∷ s) p =
    out-poll_loop now provider s (poll_round now provider id r p)
    ∙ rw (out-poll_round now provider id r p) (elim (Bool-cases (is_servable now provider r)) [
      | inl mine ↦ rw mine (append_assoc p.out (r ∷ []) (servable now provider s))
      | inr other ↦ rw other
    ])

-- A poll hands the caller exactly the pending requests addressed to it that are not past their
-- deadline, in the order of the store; what becomes of the write makes no difference.
pub pending_for-servable :
    (now : ℕ) (w : WriteResult) (provider : String) (b : Broker)
    → (pending_for now w provider b).0 ≡ servable now provider (read_store b)
unfolding pending_for
pending_for-servable now w provider b =
    out-poll_loop now provider (read_store b)
      (record { out = []; dirty = false; expired = read_store b })
