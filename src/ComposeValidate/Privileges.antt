-- ===== src/ComposeValidate/Privileges.antt =====
-- The keys of a service that would give it more than a container's own authority.
use Prim.Native.String.{String}
use mathlib.Core.List.{List, ◌++◌}
use hola.Prelude.{ℕ, ◌+◌, Bool, true, false, not, str_eq, if◌then◌else◌, is_empty_text, trim}
use hola.Prelude.Json.{
  Value, Values, Members, undefined, null, boolean, number, string, array, object, nil, cons,
  none_left, member, field,
}
use hola.ComposeValidate.Issues.{
  ValidationIssue, issue, error, warning, dot, at, host_port_not_allowed,
  privileged_key_not_allowed, security_opt_not_allowed, privileged_service,
}
use hola.ComposeValidate.Services.{none_found, one, when}

unfoldable pub ports_from : String → ℕ → Values → List ValidationIssue
ports_from base i nil = List.[]
ports_from base i (cons v vs) =
    one (issue host_port_not_allowed error (at base i)) ++ ports_from base (i + 1) vs

unfoldable pub validate_ports : String → Value → List ValidationIssue
validate_ports name (array vs) = ports_from (dot (dot "services" name) "ports") 0 vs
validate_ports name v = List.[]

abbrev pub privilege_bearing_keys : List String
privilege_bearing_keys = List.◌∷◌ "pid" (
    List.◌∷◌ "ipc" (
      List.◌∷◌ "uts" (
        List.◌∷◌ "cgroup" (
          List.◌∷◌ "devices" (
            List.◌∷◌ "device_cgroup_rules" (
              List.◌∷◌ "cap_add" (
                List.◌∷◌ "group_add" (
                  List.◌∷◌ "env_file" (
                    List.◌∷◌ "extends" (
                      List.◌∷◌ "userns_mode" (
                        List.◌∷◌ "sysctls" (
                          List.◌∷◌ "cgroup_parent"
                            (List.◌∷◌ "runtime" (List.◌∷◌ "volumes_from" List.[]))))))))))))))

unfoldable pub carries_value : Value → Bool
carries_value undefined = false
carries_value null = false
carries_value (array nil) = false
carries_value (array (cons v vs)) = true
carries_value (string s) = not (is_empty_text (trim s))
carries_value (object none_left) = false
carries_value (object (member k v ms)) = true
carries_value (boolean b) = b
carries_value (number n) = true

unfoldable pub key_issues : String → Members → List String → List ValidationIssue
key_issues base ms List.[] = List.[]
key_issues base ms (List.◌∷◌ key rest) =
    when (carries_value (field key ms)) (issue privileged_key_not_allowed error (dot base key))
    ++ key_issues base ms rest

abbrev pub allowed_security_opt : String
allowed_security_opt = "no-new-privileges:true"

abbrev pub is_allowed_opt : Value → Bool
is_allowed_opt (string s) = str_eq (trim s) allowed_security_opt
is_allowed_opt v = false

unfoldable pub opts_from : String → ℕ → Values → List ValidationIssue
opts_from base i nil = List.[]
opts_from base i (cons v vs) =
    when (not (is_allowed_opt v)) (issue security_opt_not_allowed error (at base i))
    ++ opts_from base (i + 1) vs

abbrev pub opt_entries : String → Value → List ValidationIssue
opt_entries base (array vs) = opts_from base 0 vs
opt_entries base v = when (not (is_allowed_opt v)) (issue security_opt_not_allowed error base)

unfoldable pub security_opt_issues : String → Value → List ValidationIssue
security_opt_issues base v = if carries_value v then opt_entries base v else none_found

abbrev runs_privileged : Value → Bool
runs_privileged undefined = false
runs_privileged null = false
runs_privileged (boolean b) = b
runs_privileged v = true

unfoldable pub validate_privileges : String → Members → List ValidationIssue
validate_privileges name ms =
    let base = dot "services" name in
    key_issues base ms privilege_bearing_keys
    ++ (security_opt_issues (dot base "security_opt") (field "security_opt" ms)
        ++ when (runs_privileged (field "privileged" ms))
            (issue privileged_service warning (dot base "privileged")))
