-- ===== src/ComposeValidate/Accepted.antt =====
-- The documents that the validator reports no error in.
use Prim.Native.String.{String}
use hola.Prelude.{
  ◌≡◌, refl, ap, ◌≢◌, true, false, not, Option, none, some, [], ◌++◌, arith, is_empty_text, trim,
  includes,
}
use hola.Prelude.Json.{
  Value, Members, undefined, null, boolean, number, string, array, object, none_left, member, field,
}
use hola.ComposeValidate.Issues.{
  has_errors, has_errors-append, issue, error, dot, invalid_service_name, reserved_service_name,
}
use hola.ComposeValidate.Volumes.{validate_volumes}
use hola.ComposeValidate.Services.{
  Engine, when, keys, validate_network_mode, validate_image, validate_environment,
}
use hola.ComposeValidate.Privileges.{
  validate_ports, key_issues, privilege_bearing_keys, security_opt_issues, validate_privileges,
}
use hola.ComposeValidate.Document.{
  Defined, is_service_name, reserved_service_names, file_of, file_issues, validate_file_sources,
  service_issues, validate_service, services_issues, services_of, unsupported,
  validate_compose_object, parsed_issues, validate_compose_document, validate_platform_tokens,
}
use hola.ComposeValidate.Confinement.{
  IsConfined, when-error, validate_ports-IsPortless, validate_network_mode-IsOwnNetwork,
  key_issues-IsEmptyValue, security_opt_issues-IsHardened, validate_volumes-IsMountList,
}

-- Nothing is read from a file of the host.
abbrev AreFileFree : Members → Type 0
AreFileFree none_left = Unit
AreFileFree (member name def ms) = (is_empty_text (trim (file_of def)) ≡ true) × AreFileFree ms

abbrev IsFileFree : Value → Type 0
IsFileFree (object ms) = AreFileFree ms
IsFileFree v = Unit

file_issues-AreFileFree :
    (kind : String) (ms : Members) → has_errors (file_issues kind ms) ≡ false → AreFileFree ms
unfolding file_issues
file_issues-AreFileFree kind none_left h = tt
file_issues-AreFileFree kind (member name def ms) h =
    let (here, later) =
      has_errors-append (when (not (is_empty_text (trim (file_of def)))) _) (file_issues kind ms)
        h in
    (
      ground (arith, when-error (not (is_empty_text (trim (file_of def)))) _ _ here),
      file_issues-AreFileFree kind ms later,
    )

validate_file_sources-IsFileFree :
    (kind : String) (v : Value) → has_errors (validate_file_sources kind v) ≡ false → IsFileFree v
validate_file_sources-IsFileFree kind (object ms) h = file_issues-AreFileFree kind ms h
validate_file_sources-IsFileFree kind undefined h = tt
validate_file_sources-IsFileFree kind null h = tt
validate_file_sources-IsFileFree kind (boolean b) h = tt
validate_file_sources-IsFileFree kind (number n) h = tt
validate_file_sources-IsFileFree kind (string s) h = tt
validate_file_sources-IsFileFree kind (array vs) h = tt

module _ (engine : Engine) where
  abbrev IsServiceConfined : Value → Type 0
  IsServiceConfined (object svc) = IsConfined engine svc
  IsServiceConfined v = ⊥

  abbrev AreConfined : Members → Type 0
  AreConfined none_left = Unit
  AreConfined (member name raw ms) = IsServiceConfined raw × AreConfined ms

  service_issues-IsServiceConfined :
      (defined : Defined) (name : String) (raw : Value)
      → has_errors (service_issues engine defined name raw) ≡ false
      → IsServiceConfined raw
  unfolding has_errors validate_privileges
  service_issues-IsServiceConfined defined name (object svc) h =
      let (image, h1) =
        has_errors-append (validate_image engine name (field "image" svc) (field "build" svc)) _
          h in
      let (ports, h2) = has_errors-append (validate_ports name (field "ports" svc)) _ h1 in
      let (network, h3) =
        has_errors-append (validate_network_mode engine name (field "network_mode" svc)) _ h2 in
      let (privileges, h4) = has_errors-append (validate_privileges name svc) _ h3 in
      let (env, h5) = has_errors-append (validate_environment _ (field "environment" svc)) _ h4 in
      let (volumes, h6) = has_errors-append (validate_volumes _ (field "volumes" svc)) _ h5 in
      let (keys_fine, h7) =
        has_errors-append (key_issues _ svc privilege_bearing_keys) _ privileges in
      let (opts, h8) = has_errors-append (security_opt_issues _ (field "security_opt" svc)) _ h7 in
      record {
        portless = validate_ports-IsPortless name (field "ports" svc) ports;
        own_network =
            validate_network_mode-IsOwnNetwork engine name (field "network_mode" svc) network;
        unprivileged = λ key. key_issues-IsEmptyValue _ svc privilege_bearing_keys key keys_fine;
        hardened = security_opt_issues-IsHardened _ (field "security_opt" svc) opts;
        mounts = validate_volumes-IsMountList _ (field "volumes" svc) volumes;
      }
  service_issues-IsServiceConfined defined name undefined h = cc
  service_issues-IsServiceConfined defined name null h = cc
  service_issues-IsServiceConfined defined name (boolean b) h = cc
  service_issues-IsServiceConfined defined name (number n) h = cc
  service_issues-IsServiceConfined defined name (string s) h = cc
  service_issues-IsServiceConfined defined name (array vs) h = cc

  services_issues-AreConfined :
      (defined : Defined) (ms : Members)
      → has_errors (services_issues engine defined ms) ≡ false
      → AreConfined ms
  unfolding services_issues validate_service
  services_issues-AreConfined defined none_left h = tt
  services_issues-AreConfined defined (member name raw ms) h =
      let (here, later) = has_errors-append (validate_service engine defined name raw) _ h in
      let (_, h1) =
        has_errors-append
          (when (not (is_service_name name))
            (issue invalid_service_name error (dot "services" name)))
          _ here in
      let (_, h2) =
        has_errors-append
          (when (includes reserved_service_names name)
            (issue reserved_service_name error (dot "services" name)))
          _ h1 in
      (
        service_issues-IsServiceConfined defined name raw h2,
        services_issues-AreConfined defined ms later,
      )

  pub record IsSafe (doc services : Members) : Type 0 where
    pub declared : field "services" doc ≡ object services
    pub some_service : services ≢ none_left
    pub confined : AreConfined services
    pub secrets : IsFileFree (field "secrets" doc)
    pub configs : IsFileFree (field "configs" doc)

  services_of-IsSafe :
      (doc : Members) (v : Value)
      → field "services" doc ≡ v
      → has_errors (services_of engine doc v) ≡ false
      → (services : Members) × IsSafe doc services
  unfolding has_errors
  services_of-IsSafe doc (object (member name raw ms)) e h =
      let (secrets, h1) =
        has_errors-append (validate_file_sources "secrets" (field "secrets" doc)) _ h in
      let (configs, h2) =
        has_errors-append (validate_file_sources "configs" (field "configs" doc)) _ h1 in
      (
        member name raw ms,
        record {
          declared = e;
          some_service = λ none. cc;
          confined = services_issues-AreConfined _ (member name raw ms) h2;
          secrets = validate_file_sources-IsFileFree "secrets" (field "secrets" doc) secrets;
          configs = validate_file_sources-IsFileFree "configs" (field "configs" doc) configs;
        },
      )
  services_of-IsSafe doc (object none_left) e h = absurd (cc)
  services_of-IsSafe doc undefined e h = absurd (cc)
  services_of-IsSafe doc null e h = absurd (cc)
  services_of-IsSafe doc (boolean b) e h = absurd (cc)
  services_of-IsSafe doc (number n) e h = absurd (cc)
  services_of-IsSafe doc (string s) e h = absurd (cc)
  services_of-IsSafe doc (array vs) e h = absurd (cc)

  object-IsSafe :
      (v : Value)
      → has_errors (validate_compose_object engine v) ≡ false
      → (doc : Members) × (services : Members) × (v ≡ object doc) × IsSafe doc services
  unfolding validate_compose_object has_errors
  object-IsSafe (object doc) h =
      let (_, h1) = has_errors-append (unsupported engine (keys doc)) _ h in
      let (services, safe) = services_of-IsSafe doc (field "services" doc) refl h1 in
      (doc, services, refl, safe)
  object-IsSafe undefined h = absurd (cc)
  object-IsSafe null h = absurd (cc)
  object-IsSafe (boolean b) h = absurd (cc)
  object-IsSafe (number n) h = absurd (cc)
  object-IsSafe (string s) h = absurd (cc)
  object-IsSafe (array vs) h = absurd (cc)

  abbrev IsSafelyParsed : Option Value → Type 0
  IsSafelyParsed parsed =
      (doc : Members) × (services : Members) × (parsed ≡ some (object doc)) × IsSafe doc services

  checked-IsSafe :
      (text : String) (v : Value)
      → has_errors (validate_compose_object engine v ++ validate_platform_tokens [] text) ≡ false
      → IsSafelyParsed (some v)
  checked-IsSafe text v h =
      let (doc, services, e, safe) =
        object-IsSafe v (has_errors-append (validate_compose_object engine v) _ h).0 in
      (doc, services, ap some e, safe)

  parsed-IsSafe :
      (text : String) (parsed : Option Value)
      → has_errors (parsed_issues engine text parsed) ≡ false
      → IsSafelyParsed parsed
  unfolding has_errors
  parsed-IsSafe text none h = absurd (cc)
  parsed-IsSafe text (some undefined) h = absurd (cc)
  parsed-IsSafe text (some null) h = absurd (cc)
  parsed-IsSafe text (some (boolean b)) h = checked-IsSafe text (boolean b) h
  parsed-IsSafe text (some (number n)) h = checked-IsSafe text (number n) h
  parsed-IsSafe text (some (string s)) h = checked-IsSafe text (string s) h
  parsed-IsSafe text (some (array vs)) h = checked-IsSafe text (array vs) h
  parsed-IsSafe text (some (object ms)) h = checked-IsSafe text (object ms) h

  -- A document in which the validator reports no error parses to a mapping with at least one
  -- service, each a mapping. No service lists a port to publish, has a text as its network mode
  -- that is `host` or begins with `container:`, trimmed and in lower case, or carries a value under a
  -- privilege-bearing key or a security option but the platform's own. Each bind mount that names a
  -- source begins with the token of the app's data root and has no variable after it; followed
  -- segment by segment from that root, where `..` goes up, it leads to the root or a directory in
  -- it, whichever directory the root is. No secret or config is read from a file of the host. A
  -- network mode that is a variable is not excluded, nor what a network of the document is, nor a
  -- service that asks for `privileged`.
  pub validate_compose_document-IsSafe :
      (parse_yaml : String → Option Value) (text : String)
      → has_errors (validate_compose_document engine parse_yaml text) ≡ false
      → (doc : Members) × (services : Members) × (parse_yaml text ≡ some (object doc))
        × IsSafe doc services
  unfolding validate_compose_document
  validate_compose_document-IsSafe parse_yaml text h = parsed-IsSafe text (parse_yaml text) h
