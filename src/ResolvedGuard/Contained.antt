-- ===== src/ResolvedGuard/Contained.antt =====
-- Which host paths an accepted configuration binds.
use Prim.Native.String.{String}
use mathlib.Core.List.{List, [], ◌∷◌, ◌++◌}
use mathlib.Core.Path.{subst}
use hola.Prelude.{
  ◌≡◌, refl, sym, ap, ◌∙◌, inl, inr, ◌⊎◌, Bool, true, false, not, arith, if◌then◌else◌, Bool-cases,
  any, is_empty_text, Among, Among-append_left, Among-append_right, Among-of_select, after_prefix,
}
use hola.Prelude.Json.{
  Value, Values, Members, undefined, null, boolean, number, string, array, object, nil, cons,
  none_left, member, field,
}
use hola.ResolvedGuard.{
  ResolvedBindMount, UncontainedBindMount, is_absolute, is_under, text_or_empty, may_bind,
  entry_mounts, volume_mounts, service_mounts, services_mounts, resolved_bind_mounts, allowed_roots,
  judge_mount, judge_mounts, uncontained_bind_mounts, no_source, not_absolute, outside_roots,
  refused, mounts_in, volumes_of,
}
use hola.Prelude.Paths.{IsWithin}
use hola.ResolvedGuard.Collapsed.{directory, is_under-IsWithin}

abbrev AmongValues : Value → Values → Type 0
AmongValues v nil = ⊥
AmongValues v (cons w vs) = (w ≡ v) ⊎ AmongValues v vs

abbrev AmongMembers : String → Value → Members → Type 0
AmongMembers k v none_left = ⊥
AmongMembers k v (member l w ms) = ((l ≡ k) × (w ≡ v)) ⊎ AmongMembers k v ms

-- A service of the configuration has the entry among its volumes.
pub record HasEntry (config : Members) (service : String) (entry : Members) : Type 0 where
  pub services : Members
  pub body : Members
  pub volumes : Values
  pub has_services : field "services" config ≡ object services
  pub has_service : AmongMembers service (object body) services
  pub has_volumes : field "volumes" body ≡ array volumes
  pub has_entry : AmongValues (object entry) volumes

-- The source is an absolute path that leads to the directory of one of the roots or to one in it.
pub record IsContained (roots : List String) (source : String) : Type 0 where
  pub root : String
  pub is_root : Among root roots
  pub absolute : is_absolute source ≡ true
  pub under : IsWithin (directory root) (directory source)

entry_Among :
    (service : String) (entry : Members)
    → may_bind (field "type" entry) ≡ true
    → Among
        (record {
          service = service;
          source = text_or_empty (field "source" entry);
          target = text_or_empty (field "target" entry);
        })
        (entry_mounts service (object entry))
unfolding entry_mounts
entry_Among service entry h = rw h (inl refl)

nothing_left : (xs ys : List UncontainedBindMount) → xs ++ ys ≡ [] → (xs ≡ []) × (ys ≡ [])
nothing_left [] ys h = (refl, h)
nothing_left (x ∷ xs) ys h = absurd (cc)

module _ (m : ResolvedBindMount) where
  volumes_Among :
      (service : String) (v : Value) (vs : Values)
      → AmongValues v vs
      → Among m (entry_mounts service v)
      → Among m (volume_mounts service vs)
  unfolding volume_mounts
  volumes_Among service v nil here h = absurd here
  volumes_Among service v (cons w vs) (inl e) h =
      Among-append_left m (entry_mounts service w) (volume_mounts service vs)
        (subst (λ x. Among m (entry_mounts service x)) (sym e) h)
  volumes_Among service v (cons w vs) (inr later) h =
      Among-append_right m (entry_mounts service w) (volume_mounts service vs)
        (volumes_Among service v vs later h)

  services_Among :
      (service : String) (v : Value) (ms : Members)
      → AmongMembers service v ms
      → Among m (service_mounts service v)
      → Among m (services_mounts ms)
  unfolding services_mounts
  services_Among service v none_left here h = absurd here
  services_Among service v (member l w ms) (inl (e, f)) h =
      Among-append_left m (service_mounts l w) (services_mounts ms) (
        subst (λ x. Among m (service_mounts l x)) (sym f)
          (subst (λ x. Among m (service_mounts x v)) (sym e) h))
  services_Among service v (member l w ms) (inr later) h =
      Among-append_right m (service_mounts l w) (services_mounts ms)
        (services_Among service v ms later h)

  judged :
      (roots : List String) (mounts : List ResolvedBindMount)
      → Among m mounts
      → judge_mounts roots mounts ≡ []
      → judge_mount roots m ≡ []
  unfolding judge_mounts
  judged roots [] here h = absurd here
  judged roots (n ∷ mounts) (inl e) h =
      sym (ap (judge_mount roots) e)
      ∙ (nothing_left (judge_mount roots n) (judge_mounts roots mounts) h).0
  judged roots (n ∷ mounts) (inr later) h =
      judged roots mounts later (nothing_left (judge_mount roots n) (judge_mounts roots mounts) h).1

any_root :
    (source : String) (roots : List String)
    → any (is_under source) roots ≡ true
    → (root : String) × Among root roots × (is_under source root ≡ true)
any_root source [] h = absurd (cc)
any_root source (r ∷ roots) h = elim (Bool-cases (is_under source r)) [
  | inl here ↦ (r, inl refl, here)
  | inr other ↦
      let (root, among, under) = any_root source roots (ground arith) in (root, inr among, under)
]

tests_passed :
    (m : ResolvedBindMount) (e a u : Bool)
    → (if e
        then refused m no_source
        else if not a
        then refused m not_absolute
        else if u
        then []
        else refused m outside_roots)
      ≡ []
    → (a ≡ true) × (u ≡ true)
tests_passed m true a u h = absurd (cc)
tests_passed m false false u h = absurd (cc)
tests_passed m false true true h = (refl, refl)
tests_passed m false true false h = absurd (cc)

judge_mount-IsContained :
    (app_root : String) (paths : List String) (m : ResolvedBindMount)
    → judge_mount (allowed_roots app_root paths) m ≡ []
    → IsContained (app_root ∷ paths) m.source
unfolding judge_mount
judge_mount-IsContained app_root paths m h =
    let roots = allowed_roots app_root paths in
    let (absolute, found) =
      tests_passed m (is_empty_text m.source) (is_absolute m.source) (any (is_under m.source) roots)
        h in
    let (root, among, under) = any_root m.source roots found in
    record {
      root = root;
      is_root = Among-of_select is_absolute root (app_root ∷ paths) among;
      absolute = absolute;
      under = is_under-IsWithin m.source root under;
    }

text_of :
    (v : Value) → is_absolute (text_or_empty v) ≡ true → (source : String) × (v ≡ string source)
unfolding after_prefix
text_of undefined h = absurd (cc)
text_of null h = absurd (cc)
text_of (boolean b) h = absurd (cc)
text_of (number n) h = absurd (cc)
text_of (string s) h = (s, refl)
text_of (array vs) h = absurd (cc)
text_of (object ms) h = absurd (cc)

abbrev mount_of : String → Members → ResolvedBindMount
mount_of service entry = record {
  service = service;
  source = text_or_empty (field "source" entry);
  target = text_or_empty (field "target" entry);
}

mount_of-Among :
    (config : Members) (service : String) (entry : Members)
    → HasEntry config service entry
    → may_bind (field "type" entry) ≡ true
    → Among (mount_of service entry) (resolved_bind_mounts (object config))
unfolding resolved_bind_mounts service_mounts
mount_of-Among config service entry h binds =
    let m = mount_of service entry in
    let in_volumes =
      volumes_Among m service (object entry) h.volumes h.has_entry
        (entry_Among service entry binds) in
    subst (λ v. Among m (mounts_in v)) (sym h.has_services)
      (services_Among m service (object h.body) h.services h.has_service
        (subst (λ v. Among m (volumes_of service v)) (sym h.has_volumes) in_volumes))

-- If the gate finds nothing to refuse in a resolved configuration, then every volume in the long form
-- that is a bind, or says no type, of every service has a source, an absolute path. Followed segment by
-- segment from `/`, where `.` stays and `..` goes up, it leads to the directory that the application's
-- root or one of the platform's paths leads to, or to a directory in that one. Symbolic links are not
-- followed.
pub uncontained_bind_mounts-IsContained :
    (config : Members) (app_root : String) (allowed_paths : List String) (service : String)
    (entry : Members)
    → uncontained_bind_mounts (object config) app_root allowed_paths ≡ []
    → HasEntry config service entry
    → may_bind (field "type" entry) ≡ true
    → (source : String) × (field "source" entry ≡ string source)
      × IsContained (app_root ∷ allowed_paths) source
unfolding uncontained_bind_mounts
uncontained_bind_mounts-IsContained config app_root allowed_paths service entry accepted h binds =
    let m = mount_of service entry in
    let c = judge_mount-IsContained app_root allowed_paths m (
      judged m (allowed_roots app_root allowed_paths) (resolved_bind_mounts (object config))
        (mount_of-Among config service entry h binds) accepted) in
    let (source, known) = text_of (field "source" entry) c.absolute in
    (source, known, subst (λ v. IsContained (app_root ∷ allowed_paths) (text_or_empty v)) known c)
