-- ===== src/OriginGuard/Origins.antt =====
-- What one part of the guard's judgement says of the request.
use Prim.Native.String.{String}
use mathlib.Core.List.{List}
use hola.Prelude.{
  ◌≡◌, refl, sym, inl, inr, ◌⊎◌, Bool, true, false, not, ◌&&◌, ◌||◌, Option, none, some, arith,
  str_eq, eq_iff, includes, any, is_empty_text, trim, Among, either_of, both_of, not-false,
}
use hola.Auth.{truthy}
use hola.OriginGuard.{
  Url, WebEngine, MutationIntent, allow, same_origin_fetch_sites, accepted_mutation_media_types,
  candidates, is_web, names, url_is_trusted, origin_is_trusted, media_type, is_foreign_site,
  is_unsupported, judge_origin,
}

module _ (engine : WebEngine) where
  -- The browser did not say that another site began the request.
  abbrev IsOwnSite : Option String → Type 0
  IsOwnSite none = Unit
  IsOwnSite (some s) =
      let site = engine.to_lower_case (trim s) in
      (is_empty_text site ≡ true) ⊎ (site ≡ "same-origin") ⊎ (site ≡ "none")

  abbrev IsAcceptedType : Option String → Type 0
  IsAcceptedType none = Unit
  IsAcceptedType (some c) =
      (media_type engine c ≡ "application/json") ⊎ (media_type engine c ≡ "multipart/form-data")

  -- The request comes from a page of the dashboard.
  pub record IsProven (intent : MutationIntent) : Type 0 where
    pub origin : String
    pub page : Url
    pub trusted : String
    pub sent : truthy intent.origin ≡ some origin
    pub parsed : engine.parse_url origin ≡ some page
    pub by_web : (page.protocol ≡ "http:") ⊎ (page.protocol ≡ "https:")
    pub is_trusted : Among trusted (candidates engine intent.host intent.trusted_hosts)
    pub named : (page.host ≡ trusted) ⊎ (page.hostname ≡ trusted)
    pub own_site : IsOwnSite intent.sec_fetch_site
    pub accepted_type : IsAcceptedType (truthy intent.content_type)

  -- A host that the URL names.
  any-Among :
      (u : Url) (hosts : List String)
      → any (names engine u) hosts ≡ true
      → (h : String) × Among h hosts × ((u.host ≡ h) ⊎ (u.hostname ≡ h))
  any-Among u List.[] h = absurd (cc)
  any-Among u (List.◌∷◌ t hosts) h =
      elim (either_of (names engine u t) (any (names engine u) hosts) h) [
        | inl here ↦ (
          t,
          inl refl,
          elim (either_of (str_eq u.host t) (str_eq u.hostname t) here) [
            | inl e ↦ inl ((eq_iff u.host t).0 e)
            | inr e ↦ inr ((eq_iff u.hostname t).0 e)
          ],
        )
        | inr there ↦
            (let (trusted, among, named) = any-Among u hosts there in (trusted, inr among, named))
      ]

  one_of_two :
      (a b s : String) → includes (List.◌∷◌ a (List.◌∷◌ b List.[])) s ≡ true → (s ≡ a) ⊎ (s ≡ b)
  one_of_two a b s h = elim (either_of (str_eq a s) (str_eq b s || false) h) [
    | inl e ↦ inl (sym ((eq_iff a s).0 e))
    | inr r ↦ elim (either_of (str_eq b s) false r) [
      | inl e ↦ inr (sym ((eq_iff b s).0 e))
      | inr never ↦ absurd (cc)
    ]
  ]

  not-and : (a b : Bool) → (not a && not b) ≡ false → (a ≡ true) ⊎ (b ≡ true)
  not-and true b h = inl refl
  not-and false true h = inr refl
  not-and false false h = absurd (cc)

  pub is_foreign_site-IsOwnSite :
      (site : Option String) → is_foreign_site engine site ≡ false → IsOwnSite site
  is_foreign_site-IsOwnSite none h = tt
  is_foreign_site-IsOwnSite (some s) h =
      let site = engine.to_lower_case (trim s) in
      elim (not-and (is_empty_text site) (includes same_origin_fetch_sites site) h) [
        | inl blank ↦ inl blank
        | inr own ↦ inr (one_of_two "same-origin" "none" site own)
      ]

  pub IsAcceptedType-of :
      (t : Option String)
      → (elim t as (λ _. Bool) [
        | none ↦ false
        | some c ↦ not (includes accepted_mutation_media_types (media_type engine c))
      ])
        ≡ false
      → IsAcceptedType t
  IsAcceptedType-of none h = tt
  IsAcceptedType-of (some c) h =
      one_of_two "application/json" "multipart/form-data" (media_type engine c)
        (not-false (includes accepted_mutation_media_types (media_type engine c)) h)

  -- The origin's part of the judgement.
  pub record IsOwnOrigin (intent : MutationIntent) (origin : Option String) : Type 0 where
    pub text : String
    pub sent : origin ≡ some text
    pub is_own : origin_is_trusted engine text intent.host intent.trusted_hosts ≡ true
    pub fitting : is_unsupported engine intent.content_type ≡ false

  pub judge_origin-IsOwnOrigin :
      (intent : MutationIntent) (origin : Option String)
      → judge_origin engine intent origin ≡ allow
      → IsOwnOrigin intent origin
  unfolding judge_origin
  judge_origin-IsOwnOrigin intent none h = absurd (cc)
  judge_origin-IsOwnOrigin intent (some text) h = record {
    text = text;
    sent = refl;
    is_own = ground arith;
    fitting = ground arith;
  }

  pub trusted_page :
      (page : Option Url) (hosts : List String)
      → url_is_trusted engine page hosts ≡ true
      → (u : Url) × (page ≡ some u)
        × ((u.protocol ≡ "http:") ⊎ (u.protocol ≡ "https:"))
        × (h : String) × Among h hosts
        × ((u.host ≡ h) ⊎ (u.hostname ≡ h))
  trusted_page none hosts h = absurd (cc)
  trusted_page (some u) hosts h =
      let (web, named) = both_of (is_web engine u) (any (names engine u) hosts) h in
      let (t, among, is_named) = any-Among u hosts named in
      (
        u,
        refl,
        protocols (either_of (str_eq u.protocol "http:") (str_eq u.protocol "https:") web),
        t,
        among,
        is_named,
      )
    where
      protocols :
          (str_eq u.protocol "http:" ≡ true) ⊎ (str_eq u.protocol "https:" ≡ true)
          → (u.protocol ≡ "http:") ⊎ (u.protocol ≡ "https:")
      protocols (inl e) = inl ((eq_iff u.protocol "http:").0 e)
      protocols (inr e) = inr ((eq_iff u.protocol "https:").0 e)
