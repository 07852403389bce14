-- ===== src/ComposeValidate/Containment.antt =====
-- Where an accepted bind source leads, once the server has put the data root in the token's place.
use Prim.Native.String.{String}
use Prim.Native.Char.{Char, code}
use hola.Prelude.{
  ◌≡◌, refl, sym, ap, ◌∙◌, ◌||◌, if◌then◌else◌, str_eq, ◌⊎◌, inl, inr, ℕ, suc, ◌+◌, Bool, true,
  false, some, List, [], ◌∷◌, ◌++◌, arith, split, length, ◌==◌, Bool-cases, Option-cases,
  after_prefix,
}
use hola.Prelude.Paths.{parent, enter, resolve, IsWithin}
use hola.Prelude.Json.{
  Value, Values, undefined, null, boolean, number, string, array, object, nil, cons, field,
}
use hola.ComposeValidate.Issues.{has_errors, has_errors-append, at}
use hola.ComposeValidate.Volumes.{
  app_data_token, Move, stay, down, up, segment_move, walk, AppDataContainment, contained, outside,
  interpolated, escapes, suffix_containment, app_data_containment, has_char, before_char, is_text,
  validate_volume, volumes_from, source_issues, containment_issues, object_source_issues,
}

Move-cases : (m : Move) → (m ≡ stay) ⊎ (m ≡ down) ⊎ (m ≡ up)
Move-cases stay = inl refl
Move-cases down = inr (inl refl)
Move-cases up = inr (inr refl)

-- What a move makes of a directory.
abbrev moved : String → List String → Move → List String
moved segment dirs stay = dirs
moved segment dirs down = segment ∷ dirs
moved segment dirs up = parent dirs

enter-moved :
    (segment : String) (dirs : List String)
    → enter dirs segment ≡ moved segment dirs (segment_move segment)
unfolding segment_move
enter-moved segment dirs = by_tests (str_eq segment "" || str_eq segment ".") (str_eq segment "..")
  where
    by_tests :
        (e u : Bool)
        → (if e then dirs else if u then parent dirs else segment ∷ dirs)
          ≡ moved segment dirs (if e then stay else if u then up else down)
    by_tests true u = refl
    by_tests false true = refl
    by_tests false false = refl

-- One segment of the loop and of the path.
module _ (segment : String) (rest : List String) where
  module _ (e : segment_move segment ≡ stay) where
    walk_stay : (d i : ℕ) → walk d i (segment ∷ rest) ≡ walk d (i + 1) rest
    unfolding walk
    walk_stay d i = rw (e, walk)

    resolve_stay : (dirs : List String) → resolve dirs (segment ∷ rest) ≡ resolve dirs rest
    unfolding resolve
    resolve_stay dirs =
        ap (λ d. resolve d rest) (enter-moved segment dirs ∙ ap (moved segment dirs) e)

  module _ (e : segment_move segment ≡ down) where
    walk_down : (d i : ℕ) → walk d i (segment ∷ rest) ≡ walk (suc d) (i + 1) rest
    unfolding walk
    walk_down d i = rw (e, walk)

    resolve_down :
        (dirs : List String) → resolve dirs (segment ∷ rest) ≡ resolve (segment ∷ dirs) rest
    unfolding resolve
    resolve_down dirs =
        ap (λ d. resolve d rest) (enter-moved segment dirs ∙ ap (moved segment dirs) e)

  module _ (e : segment_move segment ≡ up) where
    walk_out : (i : ℕ) → walk 0 i (segment ∷ rest) ≡ escapes (i + 1)
    unfolding walk
    walk_out i = rw (e, walk)

    walk_up : (d i : ℕ) → walk (suc d) i (segment ∷ rest) ≡ walk d (i + 1) rest
    unfolding walk
    walk_up d i = rw (e, walk)

    resolve_up : (dirs : List String) → resolve dirs (segment ∷ rest) ≡ resolve (parent dirs) rest
    unfolding resolve
    resolve_up dirs =
        ap (λ d. resolve d rest) (enter-moved segment dirs ∙ ap (moved segment dirs) e)

  -- The segment, given what holds of the others.
  module _ (root above : List String) (i : ℕ)
      (rest-IsWithin : (above : List String)
        → walk (length above) (i + 1) rest ≡ contained
        → IsWithin root (resolve (above ++ root) rest)) where
    up-IsWithin :
        segment_move segment ≡ up
        → (dirs : List String) → walk (length dirs) i (segment ∷ rest) ≡ contained
        → IsWithin root (resolve (parent (dirs ++ root)) rest)
    up-IsWithin e [] h = absurd (cc (walk_out e i))
    up-IsWithin e (a ∷ others) h = rest-IsWithin others (sym (walk_up e (length others) i) ∙ h)

    step-IsWithin :
        walk (length above) i (segment ∷ rest) ≡ contained
        → IsWithin root (resolve (above ++ root) (segment ∷ rest))
    step-IsWithin h = elim (Move-cases (segment_move segment)) [
      | inl e ↦ rw (resolve_stay e) (rest-IsWithin above (sym (walk_stay e (length above) i) ∙ h))
      | inr (inl e) ↦
          rw (resolve_down e)
            (rest-IsWithin (segment ∷ above) (sym (walk_down e (length above) i) ∙ h))
      | inr (inr e) ↦ rw (resolve_up e) (up-IsWithin e above h)
    ]

walk-IsWithin :
    (segments root above : List String) (i : ℕ)
    → walk (length above) i segments ≡ contained
    → IsWithin root (resolve (above ++ root) segments)
unfolding resolve
walk-IsWithin [] root above i h = record { below = above; lies = refl }
walk-IsWithin (segment ∷ rest) root above i h =
    step-IsWithin segment rest root above i (λ dirs. walk-IsWithin rest root dirs (i + 1)) h

-- An accepted source is the data root, or leads with a literal path from the data root to a directory
-- in it, whichever directory the data root is.
pub record IsContained (source : String) : Type 0 where
  pub suffix : String
  pub after_token : after_prefix app_data_token source ≡ some suffix
  pub literal : has_char b'$' suffix ≡ false
  pub stays : (root : List String) → IsWithin root (resolve root (split b'/' suffix))

split_slash :
    (c : Char) (rest : String)
    → (code c == b'/') ≡ true
    → (parts : List String) → split b'/' rest ≡ parts
    → (dirs : List String) → resolve dirs (split b'/' (String.◌∷◌ c rest)) ≡ resolve dirs parts
unfolding split resolve segment_move
split_slash c rest e [] p dirs = rw (p, split) refl
split_slash c rest e (part ∷ parts) p dirs = rw (p, split) (rw e refl)

suffix-IsContained :
    (source suffix : String)
    → after_prefix app_data_token source ≡ some suffix
    → suffix_containment suffix ≡ contained
    → IsContained source
unfolding suffix_containment split resolve segment_move
suffix-IsContained source String.[] e h = record {
  suffix = "";
  after_token = e;
  literal = refl;
  stays = λ root. record { below = []; lies = refl };
}
suffix-IsContained source (String.◌∷◌ c rest) e h = record {
  suffix = String.◌∷◌ c rest;
  after_token = e;
  literal = ground arith;
  stays = λ root.
      rw (split_slash c rest (ground arith) (split b'/' rest) refl root)
        (walk-IsWithin (split b'/' rest) root [] 0 (ground arith));
}

app_data_containment-IsContained :
    (source : String) → app_data_containment source ≡ contained → IsContained source
unfolding app_data_containment
app_data_containment-IsContained source h =
    elim (Option-cases (after_prefix app_data_token source)) [
      | inl other ↦ absurd (ground arith)
      | inr (suffix, e) ↦ suffix-IsContained source suffix e (ground arith)
    ]

abbrev IsBindContained : Bool → Value → Type 0
IsBindContained true source = Unit
IsBindContained false (string source) = IsContained source
IsBindContained false v = Unit

-- The host directory of a mount, if it has one, lies in the data root.
abbrev IsMountContained : Value → Type 0
IsMountContained (string entry) = IsContained (before_char b':' entry)
IsMountContained (object ms) =
    IsBindContained (is_text (field "type" ms) "tmpfs") (field "source" ms)
IsMountContained v = Unit

abbrev pub AreMountsContained : Values → Type 0
AreMountsContained nil = Unit
AreMountsContained (cons v vs) = IsMountContained v × AreMountsContained vs

source-IsContained :
    (path source : String) (is_named : Bool)
    → has_errors (source_issues path is_named source) ≡ false
    → IsContained source
unfolding has_errors
source-IsContained path source true h = absurd (cc)
source-IsContained path source false h =
    app_data_containment-IsContained source (accepted (app_data_containment source) h)
  where
    accepted :
        (c : AppDataContainment) → has_errors (containment_issues path c) ≡ false → c ≡ contained
    accepted contained h = refl
    accepted outside h = absurd (cc)
    accepted interpolated h = absurd (cc)
    accepted (escapes n) h = absurd (cc)

object-IsBindContained :
    (path : String) (is_volume : Bool) (source : Value)
    → has_errors (object_source_issues path is_volume source) ≡ false
    → IsBindContained false source
object-IsBindContained path is_volume (string source) h = source-IsContained path source _ h
object-IsBindContained path is_volume undefined h = tt
object-IsBindContained path is_volume null h = tt
object-IsBindContained path is_volume (boolean b) h = tt
object-IsBindContained path is_volume (number n) h = tt
object-IsBindContained path is_volume (array vs) h = tt
object-IsBindContained path is_volume (object ms) h = tt

validate_volume-IsMountContained :
    (path : String) (v : Value) → has_errors (validate_volume path v) ≡ false → IsMountContained v
unfolding validate_volume
validate_volume-IsMountContained path (string entry) h = source-IsContained path _ _ h
validate_volume-IsMountContained path (object ms) h =
    elim (Bool-cases (is_text (field "type" ms) "tmpfs")) [
      | inl temporary ↦ rw temporary tt
      | inr bind ↦ rw bind (
          object-IsBindContained path (is_text (field "type" ms) "volume") (field "source" ms)
            (rw bind at h))
    ]
validate_volume-IsMountContained path undefined h = tt
validate_volume-IsMountContained path null h = tt
validate_volume-IsMountContained path (boolean b) h = tt
validate_volume-IsMountContained path (number n) h = tt
validate_volume-IsMountContained path (array vs) h = tt

pub volumes_from-AreMountsContained :
    (base : String) (i : ℕ) (vs : Values)
    → has_errors (volumes_from base i vs) ≡ false
    → AreMountsContained vs
unfolding volumes_from
volumes_from-AreMountsContained base i nil h = tt
volumes_from-AreMountsContained base i (cons v vs) h =
    let (here, later) = has_errors-append (validate_volume (at base i) v) _ h in
    (
      validate_volume-IsMountContained (at base i) v here,
      volumes_from-AreMountsContained base (i + 1) vs later,
    )
