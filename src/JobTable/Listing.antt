-- ===== src/JobTable/Listing.antt =====
-- Listings with and without a filter.
use hola.Prelude.{
  String, inl, inr, ◌≡◌, refl, ap, ◌∙◌, Bool, true, false, Option, none, some, List, [], ◌∷◌, map,
  arith, Option-cases, select,
}
use hola.JobTable.{
  Status, Table, SharedStatus, FilterStatus, list_jobs, to_shared, belongs_to, truthy,
  find_by_status, status_map, status_eq, shared_status,
}

abbrev shows : FilterStatus → SharedStatus → Bool
shows FilterStatus.queued SharedStatus.queued = true
shows FilterStatus.running SharedStatus.running = true
shows FilterStatus.completed SharedStatus.completed = true
shows FilterStatus.failed SharedStatus.failed = true
shows _ _ = false

status_eq-shows :
    (f : FilterStatus) (s : Status) → status_eq s (status_map f) ≡ shows f (shared_status s)
status_eq-shows f s = ground arith

map-find_by_status :
    (f : FilterStatus) (t : Table)
    → map to_shared (find_by_status (status_map f) t)
      ≡ select (λ j. shows f j.status) (map to_shared t)
unfolding to_shared
map-find_by_status f [] = refl
map-find_by_status f (j ∷ t) = ground (arith, status_eq-shows f j.status, map-find_by_status f t)

select_comm {ℓ} :
    {A : Type ℓ} (p q : A → Bool) (xs : List A) → select p (select q xs) ≡ select q (select p xs)
select_comm p q [] = refl
select_comm p q (x ∷ xs) = ground (arith, select_comm p q xs)

-- A listing with a status filter holds exactly the jobs that the listing without it shows in that
-- status, in the same order, whatever the deployment asked for.
list_jobs-status :
    (deployment_id : Option String) (f : FilterStatus) (t : Table)
    → list_jobs deployment_id (some f) t
      ≡ select (λ j. shows f j.status) (list_jobs deployment_id none t)
unfolding list_jobs
list_jobs-status deployment_id f t = elim (Option-cases (truthy deployment_id)) [
  | inl all_of ↦ rw (list_jobs, all_of) (map-find_by_status f t)
  | inr (d, one) ↦
      rw (list_jobs, one)
        (ap (select (belongs_to (some d))) (map-find_by_status f t)
          ∙ select_comm (belongs_to (some d)) (λ j. shows f j.status) (map to_shared t))
]
