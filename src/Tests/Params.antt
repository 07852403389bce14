-- ===== src/Tests/Params.antt =====
-- A port, a choice and a key.
use hola.Prelude.{◌≡◌, refl, ℕ, false, none, some, List, [], ◌∷◌, arith, read_digits}
use hola.Prelude.Int.{pos}
use hola.ParamValidate.{
  ParamSpec, ParamEngine, port, enum, hex, fernet, validate_param_value, typed_issues, read_integer,
  port_min, port_max,
}
use hola.ParamValidate.Specs.{validate_param_spec, enum_issues, boolean_issues}
use hola.ParamValidate.Bounds.{IsInRange, accepted_port_bounds}
use hola.ParamValidate.Encoding.{
  generate_secret_value, encode_as, bytes_to_base64_url_padded, bytes_to_base64, replaced, url_char,
  sextet, char_at,
}
use hola.ParamValidate.Decoding.{decode_secret, decode_secret-generate_secret_value}

abbrev browser : ParamEngine
browser = record {
  compile_pattern = λ p. none;
  url_protocol = λ s. none;
  is_email = λ s. false;
  is_valid_timezone = λ s. false;
}

abbrev port_spec : ParamSpec
port_spec = record {
  key = "HTTP_PORT";
  value = "";
  is_secret = false;
  type_name = some port;
  required = none;
  pattern = none;
  min_length = none;
  max_length = none;
  min = some (pos 1024);
  max = none;
  options = none;
  true_value = none;
  false_value = none;
  https_only = none;
  generate = none;
}

port_accepted : validate_param_value browser port_spec "8080" "env.HTTP_PORT" ≡ []
unfolding validate_param_value typed_issues read_integer read_digits port_min port_max
port_accepted = refl

accepted_port_bounds_example : IsInRange port_spec 1 65535 (read_integer "8080")
accepted_port_bounds_example =
    accepted_port_bounds browser port_spec "8080" "env.HTTP_PORT" refl refl refl port_accepted

abbrev level_spec : ParamSpec
level_spec = record port_spec {
  value = "warn";
  type_name = some enum;
  min = none;
  options = some ("info" ∷ "warn" ∷ []);
}

level_in_order : validate_param_spec browser level_spec ≡ []
unfolding validate_param_spec enum_issues boolean_issues
level_in_order = refl

abbrev zeros : ℕ → List ℕ
zeros n = 255 ∷ 0 ∷ 17 ∷ 254 ∷ []

fernet_padded : generate_secret_value zeros (record { kind = fernet; length = none }) ≡ "_wAR_g=="
unfolding generate_secret_value encode_as bytes_to_base64_url_padded bytes_to_base64 replaced
    url_char sextet char_at
fernet_padded = refl

decode_secret-generate_secret_value_example :
    decode_secret hex (generate_secret_value zeros (record { kind = hex; length = some 4 }))
    ≡ some (255 ∷ 0 ∷ 17 ∷ 254 ∷ [])
decode_secret-generate_secret_value_example =
    decode_secret-generate_secret_value zeros (record { kind = hex; length = some 4 }) (omega arith)
