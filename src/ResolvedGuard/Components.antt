-- ===== src/ResolvedGuard/Components.antt =====
-- Host paths by their components.
use Prim.Native.Char.{Char, code}
use Prim.Native.String.append
use Prim.Native.String.{String, []}
use text.Mathlib.TextEquality.{Char-path}
use text.Mathlib.TextLemmas.{append_assoc}
use mathlib.Core.List.{List, ◌++◌}
use hola.Prelude.{
  ◌≡◌, refl, sym, ap, ◌∙◌, inl, inr, ◌⊎◌, Bool, true, false, Option, none, some, arith,
  if◌then◌else◌, Bool-cases, str_eq, eq_iff, is_some, cat, split, after_prefix, ◌==◌,
  some-injective,
}
use hola.ResolvedGuard.{normalize_host_path, below_prefix, is_under}

-- The components of the first path begin with those of the second, or the second is `/`.
pub record IsBelow (path root : String) : Type 0 where
  pub rest : List String
  pub begins : split b'/' path ≡ split b'/' root ++ rest

if_some :
    (b : Bool) (o : Option String) (t : String)
    → (if b then o else none) ≡ some t
    → (b ≡ true) × (o ≡ some t)
if_some true o t h = (refl, h)
if_some false o t h = absurd (cc)

after_prefix-cat : (p s t : String) → after_prefix p s ≡ some t → s ≡ cat p t
unfolding after_prefix
after_prefix-cat [] s t h = some-injective s t h ∙ sym (append.nil t)
after_prefix-cat (String.◌∷◌ c p) [] t h = absurd (cc)
after_prefix-cat (String.◌∷◌ c p) (String.◌∷◌ d s) t h =
    let (equal, rest) = if_some (code c == code d) (after_prefix p s) t h in
    ap (λ e. String.◌∷◌ e s) (sym (Char-path c d (ground arith)))
    ∙ ap (λ u. String.◌∷◌ c u) (after_prefix-cat p s t rest)
    ∙ sym (append.cons c p t)

-- What `split` does with a character, once the rest of the text is split.
abbrev pub with_char : Char → List String → List String
with_char c List.[] = List.[]
with_char c (List.◌∷◌ part parts) =
    if code c == b'/' then List.◌∷◌ [] (List.◌∷◌ part parts) else List.◌∷◌ (String.◌∷◌ c part) parts

pub split_cons : (c : Char) (s : String) → split b'/' (String.◌∷◌ c s) ≡ with_char c (split b'/' s)
unfolding split
split_cons c s = by_parts (split b'/' s)
  where
    by_parts :
        (l : List String)
        → (elim l as (λ _. List String) [
          | List.[] ↦ List.[]
          | List.◌∷◌ part parts ↦
              if code c == b'/'
              then List.◌∷◌ [] (List.◌∷◌ part parts)
              else List.◌∷◌ (String.◌∷◌ c part) parts
        ])
          ≡ with_char c l
    by_parts List.[] = refl
    by_parts (List.◌∷◌ part parts) = refl

split_some :
    (s : String) → (part : String) × (parts : List String) × (split b'/' s ≡ List.◌∷◌ part parts)
unfolding split
split_some [] = ([], List.[], refl)
split_some (String.◌∷◌ c s) =
    let (part, parts, same) = split_some s in
    elim (Bool-cases (code c == b'/')) [
      | inl slash ↦ (
        [],
        List.◌∷◌ part parts,
        split_cons c s ∙ ap (with_char c) same ∙ slashed slash part parts,
      )
      | inr plain ↦ (
        String.◌∷◌ c part,
        parts,
        split_cons c s ∙ ap (with_char c) same ∙ inner plain part parts,
      )
    ]
  where
    slashed :
        (code c == b'/') ≡ true
        → (part : String) (parts : List String)
        → with_char c (List.◌∷◌ part parts) ≡ List.◌∷◌ [] (List.◌∷◌ part parts)
    slashed e part parts = rw e refl

    inner :
        (code c == b'/') ≡ false
        → (part : String) (parts : List String)
        → with_char c (List.◌∷◌ part parts) ≡ List.◌∷◌ (String.◌∷◌ c part) parts
    inner e part parts = rw e refl

with_char-append :
    (c : Char) (part : String) (parts more : List String)
    → with_char c (List.◌∷◌ part parts ++ more) ≡ with_char c (List.◌∷◌ part parts) ++ more
with_char-append c part parts more = by_test (code c == b'/')
  where
    by_test :
        (b : Bool)
        → (if b
            then List.◌∷◌ [] (List.◌∷◌ part (parts ++ more))
            else List.◌∷◌ (String.◌∷◌ c part) (parts ++ more))
          ≡ (if b then List.◌∷◌ [] (List.◌∷◌ part parts) else List.◌∷◌ (String.◌∷◌ c part) parts)
            ++ more
    by_test true = refl
    by_test false = refl

slash : (b : String) → cat "/" b ≡ String.◌∷◌ "/" b
slash b = append.cons "/" [] b ∙ ap (λ u. String.◌∷◌ "/" u) (append.nil b)

pub split-cat : (a b : String) → split b'/' (cat a (cat "/" b)) ≡ split b'/' a ++ split b'/' b
unfolding split
split-cat [] b =
    let (part, parts, same) = split_some b in
    ap (split b'/') (append.nil (cat "/" b) ∙ slash b)
    ∙ split_cons "/" b
    ∙ ap (with_char "/") same
    ∙ sym (ap (λ l. split b'/' [] ++ l) same)
split-cat (String.◌∷◌ c a) b =
    let (part, parts, same) = split_some a in
    ap (split b'/') (append.cons c a (cat "/" b))
    ∙ split_cons c (cat a (cat "/" b))
    ∙ ap (with_char c) (split-cat a b ∙ ap (λ l. l ++ split b'/' b) same)
    ∙ with_char-append c part parts (split b'/' b)
    ∙ sym (ap (λ l. l ++ split b'/' b) (split_cons c a ∙ ap (with_char c) same))

-- A path that the guard takes to be under a root: it is the root, or its components go on after the
-- root's, once both are normalised; every absolute path is under `/`.
abbrev pub IsUnder : String → String → Type 0
IsUnder path root =
    (normalize_host_path path ≡ normalize_host_path root)
    ⊎ (normalize_host_path root ≡ "/")
    ⊎ IsBelow (normalize_host_path path) (normalize_host_path root)

after_prefix-IsBelow :
    (r p t : String) → after_prefix (below_prefix r) p ≡ some t → (r ≡ "/") ⊎ IsBelow p r
after_prefix-IsBelow r p t h = elim (Bool-cases (str_eq r "/")) [
  | inl top ↦ inl ((eq_iff r "/").0 top)
  | inr deep ↦
      let parts = after_prefix-cat (cat r "/") p t (sym (prefix_of (str_eq r "/") deep) ∙ h) in
      inr (record {
        rest = split b'/' t;
        begins = ap (split b'/') (parts ∙ append_assoc r "/" t) ∙ split-cat r t;
      })
]
  where
    prefix_of :
        (b : Bool)
        → b ≡ false
        → after_prefix (if b then "/" else cat r "/") p ≡ after_prefix (cat r "/") p
    prefix_of true e = absurd (cc)
    prefix_of false e = refl

is_some_of : (o : Option String) → is_some o ≡ true → (t : String) × (o ≡ some t)
is_some_of none h = absurd (cc)
is_some_of (some t) h = (t, refl)

pub is_under-IsUnder : (path root : String) → is_under path root ≡ true → IsUnder path root
unfolding is_under
is_under-IsUnder path root h =
    let p = normalize_host_path path in
    let r = normalize_host_path root in
    elim (Bool-cases (str_eq p r)) [
      | inl same ↦ inl ((eq_iff p r).0 same)
      | inr differ ↦
          let (t, found) = is_some_of (after_prefix (below_prefix r) p) (ground arith) in
          inr (after_prefix-IsBelow r p t found)
    ]
