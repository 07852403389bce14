-- ===== src/Versions/Waypoints.antt =====
-- The guard on upgrades and its waypoints.
use Prim.Native.String.{String}
use mathlib.Core.List.{List, [], ◌∷◌}
use mathlib.Core.Path.{subst}
use hola.Prelude.{
  ◌≡◌, refl, sym, ap, ◌∙◌, inl, inr, Bool, true, false, ◌&&◌, All, arith, Bool-cases, select,
}
use hola.Versions.{
  compare_versions, is_newer_version, is_greater, sorted, place, between, next_stop, check_path,
  AppUpgradeMeta, waypoint_required,
}
use hola.Versions.Upgrades.{not_newer_trans, not_newer-of_greater, not_newer_refl}

place_not_empty : (w : String) (ts : List String) → place w ts ≡ [] → ⊥
unfolding place
place_not_empty w [] h = cc
place_not_empty w (u ∷ us) h = ground arith

sorted_empty : (ws : List String) → sorted ws ≡ [] → ws ≡ []
unfolding sorted
sorted_empty [] h = refl
sorted_empty (w ∷ ws) h = absurd (place_not_empty w (sorted ws) h)

abbrev NotAbove : String → List String → Type 0
NotAbove v = All (λ w. is_newer_version v w ≡ false)

NotAbove-lower :
    (v u : String) (ws : List String) → is_newer_version v u ≡ false → NotAbove u ws → NotAbove v ws
NotAbove-lower v u [] h a = tt
NotAbove-lower v u (w ∷ ws) h (b, a) = (not_newer_trans v u w h b, NotAbove-lower v u ws h a)

heads : (u v : String) (us vs : List String) → u ∷ us ≡ v ∷ vs → u ≡ v
heads u v us vs q = cc

not_newer-of_not_greater :
    (a b : String) → is_greater (compare_versions a b) ≡ false → is_newer_version a b ≡ false
unfolding is_newer_version
not_newer-of_not_greater a b h = h

place_head :
    (w : String) (ts ws : List String) (v : String) (vs : List String)
    → ((u : String) (us : List String) → ts ≡ u ∷ us → NotAbove u ws)
    → (ts ≡ [] → ws ≡ [])
    → place w ts ≡ v ∷ vs
    → (is_newer_version v w ≡ false) × NotAbove v ws
unfolding place
place_head w [] ws v vs h e q =
    let same_head = heads w v [] vs q in (rw (sym same_head) (not_newer_refl w), rw (e refl) tt)
place_head w (u ∷ us) ws v vs h e q = elim (Bool-cases (is_greater (compare_versions w u))) [
  | inl above ↦
      let same_head : u ≡ v = ground arith in
      (
        ap (λ x. is_newer_version x w) (sym same_head) ∙ not_newer-of_greater w u above,
        subst (λ x. NotAbove x ws) same_head (h u us refl),
      )
  | inr below ↦
      let same_head : w ≡ v = ground arith in
      (
        ap (λ x. is_newer_version x w) (sym same_head) ∙ not_newer_refl w,
        subst (λ x. NotAbove x ws) same_head
            (NotAbove-lower w u ws (not_newer-of_not_greater w u below) (h u us refl)),
      )
]

-- The first of the sorted versions is none's newer.
sorted_head :
    (ws : List String) (v : String) (vs : List String) → sorted ws ≡ v ∷ vs → NotAbove v ws
unfolding sorted
sorted_head [] v vs h = tt
sorted_head (w ∷ ws) v vs h =
    place_head w (sorted ws) ws v vs (λ u us q. sorted_head ws u us q) (sorted_empty ws) h

All-place :
    (P : String → Type 0) (w : String) (ts : List String) → P w → All P ts → All P (place w ts)
unfolding place
All-place P w [] p a = (p, tt)
All-place P w (u ∷ us) p (b, a) = elim (Bool-cases (is_greater (compare_versions w u))) [
  | inl above ↦ rw above (b, All-place P w us p a)
  | inr below ↦ rw below (p, (b, a))
]

All-sorted : (P : String → Type 0) (ws : List String) → All P ws → All P (sorted ws)
unfolding sorted
All-sorted P [] a = tt
All-sorted P (w ∷ ws) (b, a) = All-place P w (sorted ws) b (All-sorted P ws a)

All-select-true :
    (test : String → Bool) (ws : List String) → All (λ w. test w ≡ true) (select test ws)
All-select-true test [] = tt
All-select-true test (w ∷ ws) = elim (Bool-cases (test w)) [
  | inl good ↦ rw good (good, All-select-true test ws)
  | inr bad ↦ rw bad (All-select-true test ws)
]

select_kept :
    (test : String → Bool) (w : String) (ws : List String)
    → test w ≡ true
    → select test (w ∷ ws) ≡ w ∷ select test ws
select_kept test w ws h = rw h

select_dropped :
    (test : String → Bool) (w : String) (ws : List String)
    → test w ≡ false
    → select test (w ∷ ws) ≡ select test ws
select_dropped test w ws h = rw h

NotAbove-of_select :
    (test : String → Bool) (v : String) (ws : List String)
    → NotAbove v (select test ws)
    → All (λ w. (test w && is_newer_version v w) ≡ false) ws
NotAbove-of_select test v [] a = tt
NotAbove-of_select test v (w ∷ ws) a = elim (Bool-cases (test w)) [
  | inl good ↦
      let b = subst (NotAbove v) (select_kept test w ws good) a in
      (ground (arith, b.0), NotAbove-of_select test v ws b.1)
  | inr bad ↦ (
    ground arith,
    NotAbove-of_select test v ws (subst (NotAbove v) (select_dropped test w ws bad) a),
  )
]

next_stop-waypoint :
    (ts : List String) (v : String)
    → next_stop ts ≡ waypoint_required v
    → (vs : List String) × (ts ≡ v ∷ vs)
next_stop-waypoint [] v h = absurd (ground arith)
next_stop-waypoint (t ∷ ts) v h = (ts, ground arith)

check_path-stops :
    (from to v : String) (meta : AppUpgradeMeta)
    → check_path from to meta ≡ waypoint_required v
    → next_stop (sorted (select (between from to) meta.waypoints)) ≡ waypoint_required v
unfolding check_path
check_path-stops from to v meta h = ground arith

-- A refusal for a waypoint names the right stop: one strictly between the two versions, than which no
-- other waypoint between them is older.
pub waypoint_is_next :
    (from to v : String) (meta : AppUpgradeMeta)
    → check_path from to meta ≡ waypoint_required v
    → (between from to v ≡ true)
      × All (λ w. (between from to w && is_newer_version v w) ≡ false) meta.waypoints
waypoint_is_next from to v meta h =
    let stops = select (between from to) meta.waypoints in
    let (vs, first) = next_stop-waypoint (sorted stops) v (check_path-stops from to v meta h) in
    (
      (subst (All (λ w. between from to w ≡ true)) first (
          All-sorted (λ w. between from to w ≡ true) stops
            (All-select-true (between from to) meta.waypoints))).0,
      NotAbove-of_select (between from to) v meta.waypoints (sorted_head stops v vs first),
    )
