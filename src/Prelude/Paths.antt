-- ===== src/Prelude/Paths.antt =====
-- Where a path leads. A directory is written as its names from the innermost outwards, so that `[]` is
-- the root of the file system.
use hola.Prelude.Tests.{if◌then◌else◌}
use Prim.Native.String.{String}
use mathlib.Core.Path.{◌≡◌}
use mathlib.Core.Bool.{◌||◌}
use mathlib.Core.List.{List, [], ◌∷◌, ◌++◌}
use text.Mathlib.Text.{◌==◌ as str_eq}

-- There is nothing above the root.
abbrev pub parent : List String → List String
parent [] = []
parent (s ∷ dirs) = dirs

abbrev pub enter : List String → String → List String
enter dirs segment =
    if str_eq segment "" || str_eq segment "."
    then dirs
    else if str_eq segment ".."
    then parent dirs
    else segment ∷ dirs

-- The directory that a path's segments lead to from a directory.
unfoldable pub resolve : List String → List String → List String
resolve dirs [] = dirs
resolve dirs (segment ∷ rest) = resolve (enter dirs segment) rest

-- The directory lies in the root, or is the root.
pub record IsWithin (root dirs : List String) : Type 0 where
  pub below : List String
  pub lies : dirs ≡ below ++ root
