-- ===== src/Versions/Upgrades.antt =====
-- Offers and upgrades.
use Prim.Native.String.{String}
use mathlib.Core.List.{List, [], ◌∷◌}
use hola.Prelude.{
  ◌≡◌, refl, sym, ap, ◌∙◌, inl, inr, ◌⊎◌, Bool, true, false, ◌&&◌, Option, none, some, All, arith,
  Bool-cases, Option-cases, some-injective, none-ne-some,
}
use hola.Versions.{
  compare_versions, is_newer_version, is_greater, is_less, CatalogEntry, eligible, better,
  newest_loop, newest_eligible_version,
}
use hola.Versions.Order.{Chains-compare_versions, flip-compare_versions}

pub not_newer_trans :
    (a b c : String)
    → is_newer_version a b ≡ false
    → is_newer_version b c ≡ false
    → is_newer_version a c ≡ false
unfolding is_newer_version
not_newer_trans a b c h k = ground (arith, Chains-compare_versions a b c)

not_newer-of_less :
    (a b : String) → is_less (compare_versions a b) ≡ true → is_newer_version a b ≡ false
unfolding is_newer_version
not_newer-of_less a b h = ground arith

not_newer-of_not_less :
    (a b : String) → is_less (compare_versions a b) ≡ false → is_newer_version b a ≡ false
unfolding is_newer_version
not_newer-of_not_less a b h = ground (arith, flip-compare_versions a b)

pub not_newer-of_greater :
    (a b : String) → is_greater (compare_versions a b) ≡ true → is_newer_version b a ≡ false
unfolding is_newer_version
not_newer-of_greater a b h = ground (arith, flip-compare_versions a b)

pub not_newer_refl : (a : String) → is_newer_version a a ≡ false
unfolding is_newer_version
not_newer_refl a = ground (arith, flip-compare_versions a a)

abbrev pub Stands : CatalogEntry → List CatalogEntry → Type 0
Stands e [] = ◌≡◌ {A = Bool} true false
Stands e (x ∷ xs) = (e ≡ x) ⊎ Stands e xs

-- No entry that the channel may see is newer.
abbrev pub NoneNewer : String → CatalogEntry → List CatalogEntry → Type 0
NoneNewer channel best =
    All (λ e. (eligible channel e && is_newer_version e.version best.version) ≡ false)

-- What the loop ends with, from `best` on.
record IsNewest (channel : String) (entries : List CatalogEntry) (start : Option CatalogEntry)
    (best : CatalogEntry) : Type 0 where
  chosen : (Stands best entries × (eligible channel best ≡ true)) ⊎ (start ≡ some best)
  newest : NoneNewer channel best entries
  above : (b : CatalogEntry) → start ≡ some b → is_newer_version b.version best.version ≡ false

Stands-further :
    (channel : String) (e : CatalogEntry) (entries : List CatalogEntry)
    (start : Option CatalogEntry) (best : CatalogEntry)
    → (Stands best entries × (eligible channel best ≡ true)) ⊎ (start ≡ some best)
    → (Stands best (e ∷ entries) × (eligible channel best ≡ true)) ⊎ (start ≡ some best)
Stands-further channel e entries start best (inl (s, l)) = inl (inr s, l)
Stands-further channel e entries start best (inr q) = inr q

Stands-here :
    (channel : String) (e : CatalogEntry) (entries : List CatalogEntry) (best : CatalogEntry)
    → eligible channel e ≡ true
    → (Stands best entries × (eligible channel best ≡ true)) ⊎ (some e ≡ some best)
    → Stands best (e ∷ entries) × (eligible channel best ≡ true)
Stands-here channel e entries best l (inl (s, m)) = (inr s, m)
Stands-here channel e entries best l (inr q) =
    let known = some-injective e best q in (inl (sym known), sym (ap (eligible channel) known) ∙ l)

-- Either the best so far stays, or the entry takes its place and is no older.
beats :
    (e : CatalogEntry) (start : Option CatalogEntry)
    → ((b : CatalogEntry) × (start ≡ some b)
        × (is_less (compare_versions e.version b.version) ≡ true))
      ⊎ ((better e start ≡ some e)
          × ((b : CatalogEntry) → start ≡ some b → is_newer_version b.version e.version ≡ false))
beats e none = inr (refl, λ b q. cc)
beats e (some b) = elim (Bool-cases (is_less (compare_versions e.version b.version))) [
  | inl lower ↦ inl (b, refl, lower)
  | inr higher ↦ inr (
    rw higher refl,
    λ c q.
        ap (λ x. is_newer_version x.version e.version) (sym (some-injective b c q))
        ∙ not_newer-of_not_less e.version b.version higher,
  )
]

loop-IsNewest :
    (channel : String) (entries : List CatalogEntry) (start : Option CatalogEntry)
    (best : CatalogEntry)
    → newest_loop channel entries start ≡ some best
    → IsNewest channel entries start best
unfolding newest_loop
loop-IsNewest channel [] start best h = record {
  chosen = inr h;
  newest = tt;
  above = λ b e. ground (arith, not_newer_refl b.version);
}
loop-IsNewest channel (e ∷ entries) start best h = elim (Bool-cases (eligible channel e)) [
  | inr hidden ↦
      let i = loop-IsNewest channel entries start best (ground arith) in
      record {
        chosen = Stands-further channel e entries start best i.chosen;
        newest = (ground arith, i.newest);
        above = i.above;
      }
  | inl shown ↦ elim (beats e start) [
    | inl (b, old, lower) ↦
        let i = loop-IsNewest channel entries start best (ground arith) in
        record {
          chosen = Stands-further channel e entries start best i.chosen;
          newest = (
            ground (
              arith,
              not_newer_trans e.version b.version best.version
                  (not_newer-of_less e.version b.version lower) (i.above b old),
            ),
            i.newest,
          );
          above = i.above;
        }
    | inr (taken, higher) ↦
        let i = loop-IsNewest channel entries (some e) best (ground arith) in
        record {
          chosen = inl (Stands-here channel e entries best shown i.chosen);
          newest = (ground (arith, i.above e refl), i.newest);
          above =
              λ b q. not_newer_trans b.version e.version best.version (higher b q) (i.above e refl);
        }
  ]
]

never_none : (e : CatalogEntry) (start : Option CatalogEntry) → better e start ≡ none → ⊥
never_none e none q = cc
never_none e (some b) q = ground arith

loop_none :
    (channel : String) (entries : List CatalogEntry) (start : Option CatalogEntry)
    → newest_loop channel entries start ≡ none
    → (start ≡ none) × All (λ e. eligible channel e ≡ false) entries
unfolding newest_loop
loop_none channel [] start h = (h, tt)
loop_none channel (e ∷ entries) start h = elim (Bool-cases (eligible channel e)) [
  | inr hidden ↦
      let rest = loop_none channel entries start (ground arith) in (rest.0, (hidden, rest.1))
  | inl shown ↦
      let rest = loop_none channel entries (better e start) (ground arith) in
      absurd (never_none e start rest.0)
]

-- What an upgrade is offered: an entry of the catalog that the channel may see and than which no such
-- entry is newer; and nothing only if the channel may see no entry.
pub newest_eligible_version_cases :
    (channel : String) (entries : List CatalogEntry)
    → ((newest_eligible_version channel entries ≡ none)
        × All (λ e. eligible channel e ≡ false) entries)
      ⊎ ((best : CatalogEntry) × (newest_eligible_version channel entries ≡ some best)
          × Stands best entries
          × (eligible channel best ≡ true)
          × NoneNewer channel best entries)
unfolding newest_eligible_version
newest_eligible_version_cases channel entries =
    elim (Option-cases (newest_loop channel entries none)) [
      | inl n ↦ inl (n, (loop_none channel entries none n).1)
      | inr (best, n) ↦
          let i = loop-IsNewest channel entries none best n in
          elim i.chosen [
            | inl (s, l) ↦ inr (best, n, s, l, i.newest)
            | inr q ↦ absurd (none-ne-some best q)
          ]
    ]
