-- ===== src/Auth/Scope.antt =====
-- What a credential can reach.
use Prim.Native.String.{String}
use mathlib.Core.List.{List}
use hola.Prelude.{
  ◌≡◌, ◌≢◌, refl, sym, ap, ◌∙◌, some-injective, inl, inr, Bool, true, false, Option, none, some,
  arith, Option-cases, find,
}
use hola.Auth.{
  Principal, Request, next, AuthResult, throws, refuses, authenticated, auth_middleware, decide_for,
  get_required_capability, required_by, capability_map, Rule, applies, is_contract_scoped,
  is_public_endpoint, authorize_request, allow, resolve_credential, Credential, is_write, Source,
  query,
}

write_is_guarded :
    (rules : List Rule) (path method : String)
    → is_write method ≡ true
    → (c : String) × (required_by rules path method ≡ some c)
unfolding required_by
write_is_guarded rules path method w = elim (Option-cases (find (applies path method) rules)) [
  | inl n ↦ ("write:deployments", ground arith)
  | inr (r, n) ↦ (r.capability, ground arith)
]

-- The request that a verdict lets through has been authenticated: what is behind it.
abbrev pub LetThrough : (Principal → String → Bool) → Request → Principal → Type 0
LetThrough has_capability req p =
    (c : String) × (get_required_capability req.path req.method ≡ some c)
    × (has_capability p c ≡ true)

allowed_holds :
    (has_capability : Principal → String → Bool) (p : Principal) (c : String)
    → authorize_request has_capability p (some c) ≡ allow
    → has_capability p c ≡ true
unfolding authorize_request
allowed_holds has_capability p c h = ground arith

decide_for-next :
    (has_capability : Principal → String → Bool) (req : Request) (source : Source) (a : AuthResult)
    (who : Option Principal) (via : Option Source)
    → decide_for has_capability req source a ≡ next who via
    → (p : Principal) × (a ≡ authenticated p)
      × (who ≡ some p)
      × (authorize_request has_capability p (get_required_capability req.path req.method) ≡ allow)
unfolding decide_for
decide_for-next has_capability req source throws who via h = absurd (ground arith)
decide_for-next has_capability req source refuses who via h = absurd (ground arith)
decide_for-next has_capability req source (authenticated p) who via h =
    (p, refl, ground arith, ground arith)

write_needs :
    (req : Request)
    → is_write req.method ≡ true
    → (c : String) × (get_required_capability req.path req.method ≡ some c)
unfolding get_required_capability
write_needs req w = write_is_guarded capability_map req.path req.method w

-- With authentication on, no write to a private endpoint goes on without a credential: the handler
-- runs only for a principal whom the service named for the request's own token and who holds the
-- capability that the endpoint requires.
pub write_needs_capability :
    (enable_dev_api : Bool) (authenticate : String → AuthResult)
    (has_capability : Principal → String → Bool) (req : Request) (who : Option Principal)
    (via : Option Source)
    → is_public_endpoint req.path req.method ≡ false
    → is_write req.method ≡ true
    → auth_middleware true enable_dev_api authenticate has_capability req ≡ next who via
    → (cred : Credential) × (resolve_credential enable_dev_api req ≡ some cred)
      × (p : Principal) × (authenticate cred.token ≡ authenticated p)
      × (who ≡ some p)
      × LetThrough has_capability req p
unfolding auth_middleware
write_needs_capability enable_dev_api authenticate has_capability req who via private w h =
    elim (Option-cases (resolve_credential enable_dev_api req)) [
      | inl n ↦ absurd (ground arith)
      | inr (cred, n) ↦
          let (p, named, same, let_in) =
            decide_for-next has_capability req cred.source (authenticate cred.token) who via
              (ground arith) in
          let (c, needed) = write_needs req w in
          (cred, n, p, named, same, (c, needed, allowed_holds has_capability p c (ground arith)))
    ]

scoped_holds :
    (has_capability : Principal → String → Bool) (p : Principal) (required : Option String)
    → is_contract_scoped p ≡ true
    → authorize_request has_capability p required ≡ allow
    → (c : String) × (required ≡ some c) × (has_capability p c ≡ true)
unfolding authorize_request
scoped_holds has_capability p none scoped h = absurd (ground arith)
scoped_holds has_capability p (some c) scoped h = (c, refl, ground arith)

-- A principal that holds contract capabilities only reaches no endpoint that asks for none: with
-- authentication on, a handler that is given such a principal, whatever the method, stands behind an
-- endpoint that requires a capability which the principal holds, and the service named the principal
-- for the request's own token.
pub auth_middleware-LetThrough :
    (enable_dev_api : Bool) (authenticate : String → AuthResult)
    (has_capability : Principal → String → Bool) (req : Request) (p : Principal)
    (via : Option Source)
    → is_contract_scoped p ≡ true
    → auth_middleware true enable_dev_api authenticate has_capability req ≡ next (some p) via
    → (cred : Credential) × (resolve_credential enable_dev_api req ≡ some cred)
      × (authenticate cred.token ≡ authenticated p)
      × LetThrough has_capability req p
unfolding auth_middleware
auth_middleware-LetThrough enable_dev_api authenticate has_capability req p via scoped h =
    elim (Option-cases (resolve_credential enable_dev_api req)) [
      | inl n ↦ absurd (ground arith)
      | inr (cred, n) ↦
          let (q, named, same, let_in) =
            decide_for-next has_capability req cred.source (authenticate cred.token) (some p) via
              (ground arith) in
          let known = some-injective p q same in
          (
            cred,
            n,
            named ∙ ap authenticated (sym known),
            scoped_holds has_capability p (get_required_capability req.path req.method) scoped (
                ap
                  (λ r.
                    authorize_request has_capability r
                      (get_required_capability req.path req.method))
                  known
                ∙ let_in),
          )
    ]

-- Without the development API, no credential is taken from the query.
no_query_credential :
    (req : Request) (cred : Credential)
    → resolve_credential false req ≡ some cred
    → cred.source ≢ query
unfolding resolve_credential
no_query_credential req cred h = λ q. ground arith
