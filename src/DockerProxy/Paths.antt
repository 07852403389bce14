-- ===== src/DockerProxy/Paths.antt =====
-- The paths that are allowed.
use Prim.Native.Char.{Char, code}
use Prim.Native.String.{String, [], ◌∷◌}
use mathlib.Core.List.{List}
use text.Mathlib.TextEquality.{Char-path}
use hola.Prelude.{
  ◌≡◌, refl, sym, ap, ◌∙◌, inl, inr, ◌⊎◌, Bool, true, false, ◌||◌, some, All, arith, ◌==◌, split,
  eq_iff, Bool-cases, is_empty_text,
}
use hola.DockerProxy.{
  Kind, passthrough, inspect, info, list, events, stream, decide, spells, pathname, names_container,
}

abbrev has_slash : String → Bool
has_slash [] = false
has_slash (c ∷ s) = code c == b'/' || has_slash s

abbrev join_slash : String → String → String
join_slash [] t = "/" ∷ t
join_slash (c ∷ s) t = c ∷ join_slash s t

-- The parts with a slash between two of them.
abbrev glue : List String → String
glue List.[] = []
glue (List.◌∷◌ part List.[]) = part
glue (List.◌∷◌ part (List.◌∷◌ next parts)) = join_slash part (glue (List.◌∷◌ next parts))

is_slash : (c : Char) → (code c == b'/') ≡ true → c ≡ "/"
is_slash c h = Char-path c "/" (ground arith)

glue-cons :
    (c : Char) (part : String) (parts : List String)
    → glue (List.◌∷◌ (c ∷ part) parts) ≡ c ∷ glue (List.◌∷◌ part parts)
glue-cons c part List.[] = refl
glue-cons c part (List.◌∷◌ next parts) = refl

abbrev AllFree : List String → Type 0
AllFree = All (λ part. has_slash part ≡ false)

record HasParts (s : String) : Type 0 where
  part : String
  parts : List String
  same : split b'/' s ≡ List.◌∷◌ part parts
  glued : glue (List.◌∷◌ part parts) ≡ s
  free : AllFree (List.◌∷◌ part parts)

split-HasParts : (s : String) → HasParts s
unfolding split
split-HasParts [] = record {
  part = [];
  parts = List.[];
  same = refl;
  glued = refl;
  free = (refl, tt);
}
split-HasParts (c ∷ s) =
    let i = split-HasParts s in
    elim (Bool-cases (code c == b'/')) [
      | inl slash ↦ record {
        part = [];
        parts = List.◌∷◌ i.part i.parts;
        same = rw (split, i.same, slash) refl;
        glued =
            ap (λ d. d ∷ glue (List.◌∷◌ i.part i.parts)) (sym (is_slash c slash))
            ∙ ap (λ t. c ∷ t) i.glued;
        free = (refl, i.free);
      }
      | inr plain ↦ record {
        part = c ∷ i.part;
        parts = i.parts;
        same = rw (split, i.same, plain) refl;
        glued = glue-cons c i.part i.parts ∙ ap (λ t. c ∷ t) i.glued;
        free = (ground (arith, i.free.0), i.free.1);
      }
    ]

-- `/containers/<id>/<last>` for an id without a slash
abbrev OfContainer : String → String → Type 0
OfContainer last s =
    (id : String) × (is_empty_text id ≡ false)
    × (has_slash id ≡ false)
    × (s ≡ glue (List.◌∷◌ "" (List.◌∷◌ "containers" (List.◌∷◌ id (List.◌∷◌ last List.[])))))

abbrev pub Serves : Kind → String → Type 0
Serves passthrough s = (s ≡ "/_ping") ⊎ (s ≡ "/version")
Serves info s = s ≡ "/info"
Serves list s = s ≡ "/containers/json"
Serves events s = s ≡ "/events"
Serves inspect s = OfContainer "json" s
Serves stream s = OfContainer "logs" s

of_parts :
    (last s : String) (parts : List String)
    → names_container last parts ≡ true
    → AllFree parts
    → glue parts ≡ s
    → OfContainer last s
unfolding names_container
of_parts last s (List.◌∷◌ [] (List.◌∷◌ containers (List.◌∷◌ id (List.◌∷◌ word List.[])))) h f g =
    let known : containers ≡ "containers" = ground (arith, eq_iff containers "containers") in
    let same : word ≡ last = ground (arith, eq_iff word last) in
    (
      id,
      ground arith,
      f.1.1.0,
      sym g
          ∙ ap (λ t. glue (List.◌∷◌ "" (List.◌∷◌ t (List.◌∷◌ id (List.◌∷◌ word List.[]))))) known
          ∙ ap (λ t. glue (List.◌∷◌ "" (List.◌∷◌ "containers" (List.◌∷◌ id (List.◌∷◌ t List.[])))))
              same,
    )
of_parts last s _ h f g = absurd (ground arith)

names_container-OfContainer :
    (last s : String) → names_container last (split b'/' s) ≡ true → OfContainer last s
names_container-OfContainer last s h =
    let i = split-HasParts s in
    of_parts last s (List.◌∷◌ i.part i.parts) (ap (names_container last) (sym i.same) ∙ h) i.free
      i.glued

-- Only reads of a few paths reach the docker socket: the method is GET or HEAD, and the path, less its
-- version prefix and query, is one of the fixed ones or names one container's state or logs.
pub decide_sound :
    (method path : String) (kind : Kind)
    → decide method path ≡ some kind
    → ((spells "GET" method ≡ true) ⊎ (spells "HEAD" method ≡ true)) × Serves kind (pathname path)
unfolding decide
decide_sound method path passthrough h = (
  ground arith,
  ground (arith, eq_iff (pathname path) "/_ping", eq_iff (pathname path) "/version"),
)
decide_sound method path info h = (ground arith, ground (arith, eq_iff (pathname path) "/info"))
decide_sound method path list h =
    (ground arith, ground (arith, eq_iff (pathname path) "/containers/json"))
decide_sound method path events h = (ground arith, ground (arith, eq_iff (pathname path) "/events"))
decide_sound method path inspect h =
    (ground arith, names_container-OfContainer "json" (pathname path) (ground arith))
decide_sound method path stream h =
    (ground arith, names_container-OfContainer "logs" (pathname path) (ground arith))
