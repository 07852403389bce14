-- ===== src/OriginGuard/Trust.antt =====
-- What a request with the session cookie has shown when the guard lets it change state.
use Prim.Native.String.{String}
use hola.Prelude.{
  ◌≡◌, refl, ap, ◌∙◌, inl, inr, ◌⊎◌, Bool, true, false, not, Option, none, some, if◌then◌else◌,
  includes,
}
use hola.Auth.{Credential, Source, cookie, resolve_credential, truthy, Verdict, next, Principal}
use hola.OriginGuard.{
  WebEngine, WebRequest, MutationIntent, MutationDecision, allow, untrusted_origin, missing_origin,
  unsupported_media_type, mutating_methods, accepted_mutation_media_types, candidates,
  origin_is_trusted, media_type, is_foreign_site, is_unsupported, is_cookie, judge_origin,
  judge_mutation, mutation_intent_of, source_of, refuse, origin_guard,
}
use hola.OriginGuard.Origins.{
  IsProven, judge_origin-IsOwnOrigin, trusted_page, is_foreign_site-IsOwnSite, IsAcceptedType-of,
}

module _ (engine : WebEngine) where
  by_tests :
      (m c f : Bool) (r : MutationDecision)
      → (if not m then allow else if not c then allow else if f then untrusted_origin else r)
        ≡ allow
      → m ≡ true
      → c ≡ true
      → (f ≡ false) × (r ≡ allow)
  by_tests true true true r h hm hc = absurd (cc)
  by_tests true true false r h hm hc = (refl, h)
  by_tests true false f r h hm hc = absurd (cc)
  by_tests false c f r h hm hc = absurd (cc)

  -- The steps of the judgement that an allowed mutation with the cookie has passed.
  passed :
      (intent : MutationIntent)
      → includes mutating_methods (engine.to_upper_case intent.method) ≡ true
      → is_cookie engine intent.credential_source ≡ true
      → judge_mutation engine intent ≡ allow
      → (is_foreign_site engine intent.sec_fetch_site ≡ false)
        × (judge_origin engine intent (truthy intent.origin) ≡ allow)
  unfolding judge_mutation
  passed intent mutates by_cookie h =
      by_tests (includes mutating_methods (engine.to_upper_case intent.method))
        (is_cookie engine intent.credential_source) (is_foreign_site engine intent.sec_fetch_site)
        (judge_origin engine intent (truthy intent.origin)) h mutates by_cookie

  unsupported_of :
      (t : Option String)
      → is_unsupported engine t ≡ false
      → (elim (truthy t) as (λ _. Bool) [
        | none ↦ false
        | some c ↦ not (includes accepted_mutation_media_types (media_type engine c))
      ])
        ≡ false
  unsupported_of t h = h

  cookie_source :
      (enable_dev_api : Bool) (req : WebRequest) (cred : Credential)
      → resolve_credential enable_dev_api req.auth ≡ some cred
      → cred.source ≡ cookie
      → is_cookie engine (source_of engine (resolve_credential enable_dev_api req.auth)) ≡ true
  cookie_source enable_dev_api req cred found by_cookie =
      ap (λ c. is_cookie engine (source_of engine c)) found
      ∙ ap (λ s. is_cookie engine (some s)) by_cookie

  judge_mutation-IsProven :
      (intent : MutationIntent)
      → includes mutating_methods (engine.to_upper_case intent.method) ≡ true
      → is_cookie engine intent.credential_source ≡ true
      → judge_mutation engine intent ≡ allow
      → IsProven engine intent
  unfolding origin_is_trusted
  judge_mutation-IsProven intent mutates by_cookie h =
      let (own, judged) = passed intent mutates by_cookie h in
      let o = judge_origin-IsOwnOrigin engine intent (truthy intent.origin) judged in
      let (page, parsed, web, host, among, named) =
        trusted_page engine (engine.parse_url o.text)
          (candidates engine intent.host intent.trusted_hosts) o.is_own in
      record {
        origin = o.text;
        page = page;
        trusted = host;
        sent = o.sent;
        parsed = parsed;
        by_web = web;
        is_trusted = among;
        named = named;
        own_site = is_foreign_site-IsOwnSite engine intent.sec_fetch_site own;
        accepted_type =
            IsAcceptedType-of engine (truthy intent.content_type)
              (unsupported_of intent.content_type o.fitting);
      }

  refuse-next :
      (d : MutationDecision) (answer : Verdict) (who : Option Principal) (via : Option Source)
      → refuse engine d answer ≡ next who via
      → (d ≡ allow) × (answer ≡ next who via)
  refuse-next allow answer who via h = (refl, h)
  refuse-next untrusted_origin answer who via h = absurd (cc)
  refuse-next missing_origin answer who via h = absurd (cc)
  refuse-next unsupported_media_type answer who via h = absurd (cc)

  -- A request whose credential is the session cookie and whose method changes state reaches what
  -- stands behind the guard only from a page of the dashboard: it names an origin that parses to an
  -- http or https URL of a trusted host, the browser did not call it another site's, and its body,
  -- if it states a type, is JSON or a form with files. This holds whatever stands behind the guard,
  -- on public endpoints too.
  pub origin_guard-IsProven :
      (enable_dev_api : Bool) (trusted_origins domain : Option String) (req : WebRequest)
      (answer : Verdict) (cred : Credential) (who : Option Principal) (via : Option Source)
      → includes mutating_methods (engine.to_upper_case req.auth.method) ≡ true
      → resolve_credential enable_dev_api req.auth ≡ some cred
      → cred.source ≡ cookie
      → origin_guard engine enable_dev_api trusted_origins domain req answer ≡ next who via
      → IsProven engine (mutation_intent_of engine enable_dev_api trusted_origins domain req)
        × (answer ≡ next who via)
  unfolding origin_guard mutation_intent_of
  origin_guard-IsProven enable_dev_api trusted_origins domain req answer cred who via mutates found
        by_cookie h =
      let (allowed, same) =
        refuse-next
          (judge_mutation engine
            (mutation_intent_of engine enable_dev_api trusted_origins domain req))
          answer who via h in
      (
        judge_mutation-IsProven
            (mutation_intent_of engine enable_dev_api trusted_origins domain req) mutates
            (cookie_source enable_dev_api req cred found by_cookie) allowed,
        same,
      )

  spared :
      (m c f : Bool) (r : MutationDecision)
      → (c ≡ false) ⊎ (m ≡ false)
      → (if not m then allow else if not c then allow else if f then untrusted_origin else r)
        ≡ allow
  spared false c f r h = refl
  spared true false f r h = refl
  spared true true f r (inl e) = absurd (cc)
  spared true true f r (inr e) = absurd (cc)

  -- A request that carries its credential in a header, or none, and one that changes nothing, passes
  -- the guard whatever its origin: the answer is that of what stands behind it.
  pub others_pass :
      (enable_dev_api : Bool) (trusted_origins domain : Option String) (req : WebRequest)
      (answer : Verdict)
      → (is_cookie engine (source_of engine (resolve_credential enable_dev_api req.auth)) ≡ false)
        ⊎ (includes mutating_methods (engine.to_upper_case req.auth.method) ≡ false)
      → origin_guard engine enable_dev_api trusted_origins domain req answer ≡ answer
  unfolding origin_guard mutation_intent_of judge_mutation
  others_pass enable_dev_api trusted_origins domain req answer h =
      let intent = mutation_intent_of engine enable_dev_api trusted_origins domain req in
      ap (λ d. refuse engine d answer)
        (spared (includes mutating_methods (engine.to_upper_case req.auth.method))
          (is_cookie engine (source_of engine (resolve_credential enable_dev_api req.auth)))
          (is_foreign_site engine req.sec_fetch_site)
          (judge_origin engine intent (truthy req.origin)) h)
