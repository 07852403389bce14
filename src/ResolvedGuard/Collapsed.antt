-- ===== src/ResolvedGuard/Collapsed.antt =====
-- What a normalised host path spells: the directory that the path leads to.
use Prim.Native.Char.{Char, code}
use Prim.Native.String.append
use Prim.Native.String.{String, []}
use mathlib.Core.List.{List, ◌++◌, reverse, reverse-append, reverse-reverse, append-nil}
use hola.Prelude.{
  ◌≡◌, refl, sym, ap, ◌∙◌, inl, inr, Bool, true, false, not, ◌||◌, if◌then◌else◌, Bool-cases,
  str_eq, eq_iff, is_empty_text, cat, split, select, All, ◌==◌,
}
use hola.Prelude.Paths.{parent, enter, resolve, IsWithin}
use hola.ResolvedGuard.{
  without_last, push_segment, collapse, join_slash, normalize_host_path, is_under,
}
use hola.ResolvedGuard.Components.{is_under-IsUnder, with_char, split_cons, split-cat}

-- The directory that a path leads to, by its own segments.
abbrev pub directory : String → List String
directory path = resolve List.[] (split b'/' path)

-- A name has a character, and no slash.
abbrev IsName : String → Type 0
IsName s = (is_empty_text s ≡ false) × (split b'/' s ≡ List.◌∷◌ s List.[])

abbrev names : String → List String
names path = select (λ s. not (is_empty_text s)) (split b'/' path)

without_last-append : (xs : List String) (s : String) → without_last (xs ++ List.◌∷◌ s List.[]) ≡ xs
without_last-append List.[] s = refl
without_last-append (List.◌∷◌ x List.[]) s = refl
without_last-append (List.◌∷◌ x (List.◌∷◌ y xs)) s =
    ap (List.◌∷◌ x) (without_last-append (List.◌∷◌ y xs) s)

reverse_cons :
    (s : String) (dirs : List String)
    → reverse (List.◌∷◌ s dirs) ≡ reverse dirs ++ List.◌∷◌ s List.[]
reverse_cons s dirs = reverse-append (List.◌∷◌ s List.[]) dirs

without_last-reverse : (dirs : List String) → without_last (reverse dirs) ≡ reverse (parent dirs)
without_last-reverse List.[] = refl
without_last-reverse (List.◌∷◌ s dirs) =
    ap without_last (reverse_cons s dirs) ∙ without_last-append (reverse dirs) s

empty_eq : (s : String) → is_empty_text s ≡ str_eq s ""
empty_eq [] = refl
empty_eq (String.◌∷◌ c s) = elim (Bool-cases (str_eq (String.◌∷◌ c s) "")) [
  | inl e ↦ ap is_empty_text ((eq_iff (String.◌∷◌ c s) "").0 e) ∙ sym e
  | inr e ↦ sym e
]

push_segment-reverse :
    (dirs : List String) (segment : String)
    → push_segment (reverse dirs) segment ≡ reverse (enter dirs segment)
push_segment-reverse dirs segment =
    by_tests (is_empty_text segment) (str_eq segment "") (str_eq segment ".") (str_eq segment "..")
      (empty_eq segment)
  where
    by_tests :
        (e f d u : Bool)
        → e ≡ f
        → (if e || d
            then reverse dirs
            else if u
            then without_last (reverse dirs)
            else reverse dirs ++ List.◌∷◌ segment List.[])
          ≡ reverse (if f || d then dirs else if u then parent dirs else List.◌∷◌ segment dirs)
    by_tests true true d u h = refl
    by_tests true false d u h = absurd (cc)
    by_tests false true d u h = absurd (cc)
    by_tests false false true u h = refl
    by_tests false false false true h = without_last-reverse dirs
    by_tests false false false false h = sym (reverse_cons segment dirs)

collapse-reverse :
    (dirs parts : List String) → collapse (reverse dirs) parts ≡ reverse (resolve dirs parts)
unfolding collapse resolve
collapse-reverse dirs List.[] = refl
collapse-reverse dirs (List.◌∷◌ part parts) =
    ap (λ l. collapse l parts) (push_segment-reverse dirs part)
    ∙ collapse-reverse (enter dirs part) parts

-- The names on the way are names.
abbrev IsWhole : String → Type 0
IsWhole s = split b'/' s ≡ List.◌∷◌ s List.[]

with_char-IsWhole :
    (c : Char) (parts : List String) → All IsWhole parts → All IsWhole (with_char c parts)
unfolding split
with_char-IsWhole c List.[] h = tt
with_char-IsWhole c (List.◌∷◌ part parts) (h, hs) = elim (Bool-cases (code c == b'/')) [
  | inl slash ↦ rw slash (refl, (h, hs))
  | inr plain ↦ rw plain (split_cons c part ∙ ap (with_char c) h ∙ inner plain, hs)
]
  where
    inner :
        (code c == b'/') ≡ false
        → with_char c (List.◌∷◌ part List.[]) ≡ List.◌∷◌ (String.◌∷◌ c part) List.[]
    inner e = rw e refl

split-IsWhole : (s : String) → All IsWhole (split b'/' s)
unfolding split
split-IsWhole [] = (refl, tt)
split-IsWhole (String.◌∷◌ c s) =
    rw (split_cons c s) (with_char-IsWhole c (split b'/' s) (split-IsWhole s))

enter-IsName :
    (dirs : List String) (segment : String)
    → All IsName dirs
    → IsWhole segment
    → All IsName (enter dirs segment)
enter-IsName dirs segment h w =
    by_tests (is_empty_text segment) (str_eq segment "") (str_eq segment ".") (str_eq segment "..")
      (empty_eq segment) refl
  where
    above : (l : List String) → All IsName l → All IsName (parent l)
    above List.[] k = tt
    above (List.◌∷◌ s l) k = k.1

    by_tests :
        (e f d u : Bool)
        → e ≡ f
        → is_empty_text segment ≡ e
        → All IsName (if f || d then dirs else if u then parent dirs else List.◌∷◌ segment dirs)
    by_tests true true d u same k = h
    by_tests true false d u same k = absurd (cc)
    by_tests false true d u same k = absurd (cc)
    by_tests false false true u same k = h
    by_tests false false false true same k = above dirs h
    by_tests false false false false same k = ((k, w), h)

resolve-IsName :
    (dirs parts : List String)
    → All IsName dirs
    → All IsWhole parts
    → All IsName (resolve dirs parts)
unfolding resolve
resolve-IsName dirs List.[] h w = h
resolve-IsName dirs (List.◌∷◌ part parts) h (w, ws) =
    resolve-IsName (enter dirs part) parts (enter-IsName dirs part h w) ws

append-IsName : (xs ys : List String) → All IsName xs → All IsName ys → All IsName (xs ++ ys)
append-IsName List.[] ys h k = k
append-IsName (List.◌∷◌ x xs) ys h k = (h.0, append-IsName xs ys h.1 k)

reverse-IsName : (l : List String) → All IsName l → All IsName (reverse l)
reverse-IsName List.[] h = tt
reverse-IsName (List.◌∷◌ s l) h =
    rw (reverse_cons s l)
      (append-IsName (reverse l) (List.◌∷◌ s List.[]) (reverse-IsName l h.1) (h.0, tt))

select-append :
    (xs ys : List String)
    → select (λ s. not (is_empty_text s)) (xs ++ ys)
      ≡ select (λ s. not (is_empty_text s)) xs ++ select (λ s. not (is_empty_text s)) ys
select-append List.[] ys = refl
select-append (List.◌∷◌ x xs) ys = by_test (is_empty_text x) (select-append xs ys)
  where
    by_test :
        (b : Bool)
        → select (λ s. not (is_empty_text s)) (xs ++ ys)
          ≡ select (λ s. not (is_empty_text s)) xs ++ select (λ s. not (is_empty_text s)) ys
        → (if not b
            then List.◌∷◌ x (select (λ s. not (is_empty_text s)) (xs ++ ys))
            else select (λ s. not (is_empty_text s)) (xs ++ ys))
          ≡ (if not b
              then List.◌∷◌ x (select (λ s. not (is_empty_text s)) xs)
              else select (λ s. not (is_empty_text s)) xs)
            ++ select (λ s. not (is_empty_text s)) ys
    by_test true rest = rest
    by_test false rest = ap (List.◌∷◌ x) rest

names_whole : (s : String) → IsName s → names s ≡ List.◌∷◌ s List.[]
names_whole s (full, whole) = ap (select (λ t. not (is_empty_text t))) whole ∙ rw full refl

names-join_slash : (l : List String) → All IsName l → names (join_slash l) ≡ l
unfolding join_slash split
names-join_slash List.[] h = refl
names-join_slash (List.◌∷◌ s List.[]) h = names_whole s h.0
names-join_slash (List.◌∷◌ s (List.◌∷◌ t rest)) h =
    ap (select (λ u. not (is_empty_text u))) (split-cat s (join_slash (List.◌∷◌ t rest)))
    ∙ select-append (split b'/' s) (split b'/' (join_slash (List.◌∷◌ t rest)))
    ∙ ap (λ l. l ++ names (join_slash (List.◌∷◌ t rest))) (names_whole s h.0)
    ∙ ap (List.◌∷◌ s) (names-join_slash (List.◌∷◌ t rest) h.1)

names-slash : (s : String) → names (cat "/" s) ≡ names s
unfolding split
names-slash s =
    ap names (sym (append.nil (cat "/" s)))
    ∙ ap (select (λ u. not (is_empty_text u))) (split-cat [] s)

-- The names of a normalised path are those of the directory that the path leads to.
names-normalize_host_path :
    (path : String) → names (normalize_host_path path) ≡ reverse (directory path)
unfolding normalize_host_path
names-normalize_host_path path =
    names-slash (join_slash (collapse List.[] (split b'/' path)))
    ∙ ap (λ l. names (join_slash l)) (collapse-reverse List.[] (split b'/' path))
    ∙ names-join_slash (reverse (directory path)) (
        reverse-IsName (directory path)
          (resolve-IsName List.[] (split b'/' path) tt (split-IsWhole path)))

directory-names : (path : String) → reverse (names (normalize_host_path path)) ≡ directory path
directory-names path =
    ap reverse (names-normalize_host_path path) ∙ reverse-reverse (directory path)

-- A path that the guard takes to be under a root leads to the root's directory or one in it.
pub is_under-IsWithin :
    (path root : String) → is_under path root ≡ true → IsWithin (directory root) (directory path)
unfolding split
is_under-IsWithin path root h =
    let p = normalize_host_path path in
    let r = normalize_host_path root in
    elim (is_under-IsUnder path root h) [
      | inl same ↦ record {
        below = List.[];
        lies = sym (directory-names path) ∙ ap (λ s. reverse (names s)) same ∙ directory-names root;
      }
      | inr (inl top) ↦ record {
        below = directory path;
        lies =
            sym (append-nil (directory path))
            ∙ ap (λ l. directory path ++ l)
                (sym (ap (λ s. reverse (names s)) top) ∙ directory-names root);
      }
      | inr (inr b) ↦
          let more = select (λ s. not (is_empty_text s)) b.rest in
          record {
            below = reverse more;
            lies =
                sym (directory-names path)
                ∙ ap (λ l. reverse (select (λ s. not (is_empty_text s)) l)) b.begins
                ∙ ap reverse (select-append (split b'/' r) b.rest)
                ∙ reverse-append (names r) more
                ∙ ap (λ l. reverse more ++ l) (directory-names root);
          }
    ]
