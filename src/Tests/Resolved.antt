-- ===== src/Tests/Resolved.antt =====
-- Resolved configurations: mounts inside and outside of the application's root.
use Prim.Native.String.{String}
use mathlib.Core.List.{[], ◌∷◌}
use hola.Prelude.{◌≡◌, refl, inl, inr, split, after_prefix}
use hola.Prelude.Json.{
  Values, Members, number, string, array, object, nil, cons, none_left, member, field,
}
use hola.ResolvedGuard.{
  collapse, join_slash, normalize_host_path, is_under, entry_mounts, volume_mounts, service_mounts,
  services_mounts, resolved_bind_mounts, judge_mount, judge_mounts, uncontained_bind_mounts,
  outside_roots, no_source,
}
use hola.ResolvedGuard.Contained.{HasEntry, IsContained, uncontained_bind_mounts-IsContained}

unfoldable resolving : Unit {0}
unfolding collapse join_slash normalize_host_path is_under entry_mounts volume_mounts service_mounts
    services_mounts resolved_bind_mounts judge_mount judge_mounts uncontained_bind_mounts field
    split after_prefix
resolving = tt

abbrev bind : String → Members
bind source = member "type" (string "bind") (member "source" (string source) none_left)

abbrev config : Values → Members
config volumes =
    member "services"
      (object (member "wiki" (object (member "volumes" (array volumes) none_left)) none_left))
      none_left

abbrev inside : Values
inside = cons (string "cache:/cache") (cons (object (bind "/srv/wiki/./a/../data")) nil)

accepted : uncontained_bind_mounts (object (config inside)) "/srv/wiki/" [] ≡ []
unfolding resolving
accepted = refl

abbrev outside : Values
outside =
    cons (string "/srv/wiki/../other:/x")
      (cons (array nil) (cons (number 3) (cons (object (bind "/srv/wikis")) nil)))

refusals :
    uncontained_bind_mounts (object (config outside)) "/srv/wiki" []
    ≡ record {
      mount = record { service = "wiki"; source = "/srv/wiki/../other"; target = "/x" };
      reason = outside_roots;
    }
      ∷ record { mount = record { service = "wiki"; source = ""; target = "" }; reason = no_source }
      ∷ record {
        mount = record { service = "wiki"; source = "/srv/wikis"; target = "" };
        reason = outside_roots;
      }
      ∷ []
unfolding resolving
refusals = refl

has_entry : HasEntry (config inside) "wiki" (bind "/srv/wiki/./a/../data")
unfolding resolving
has_entry = record {
  services = member "wiki" (object (member "volumes" (array inside) none_left)) none_left;
  body = member "volumes" (array inside) none_left;
  volumes = inside;
  has_services = refl;
  has_service = inl (refl, refl);
  has_volumes = refl;
  has_entry = inr (inl refl);
}

uncontained_bind_mounts-IsContained_example :
    (source : String) × (field "source" (bind "/srv/wiki/./a/../data") ≡ string source)
    × IsContained ("/srv/wiki/" ∷ []) source
unfolding resolving
uncontained_bind_mounts-IsContained_example =
    uncontained_bind_mounts-IsContained (config inside) "/srv/wiki/" [] "wiki"
      (bind "/srv/wiki/./a/../data") accepted has_entry refl
