-- ===== src/Resolution/Types.antt =====
-- ipa_diagnose/resolution/types.py: the validators of the typed values that may appear in a printed
-- command or a check parameter. `Runtime` stands for what they use of Python's tables.
pub mod Safe
pub mod Stable
pub mod Port
use ipa_diagnose.Base.{
  ℕ, suc, ◌+◌, ◌*◌, Char, code, String, Bool, true, false, ◌&&◌, ◌||◌, not, Option, none, some,
  List, [], ◌∷◌, ◌++◌, eqb, leb, ltb, if◌then◌else◌, any, all, length, drop, contains, ◌==◌,
  string_eq,
}
use ipa_diagnose.Base.Dict.{Dict, get}
use ipa_diagnose.Base.Strings.{chars, text, before}
use ipa_diagnose.Base.Value.{Value, str, number}
use ipa_diagnose.Resolution.Regex.{Regex, matches}
use ipa_diagnose.Resolution.Text.{begins_with, ends_with, has_part, count, behind, show}
use ipa_diagnose.Resolution.Patterns.{
  path_re, mode_re, posix_name_re, nickname_re, request_id_re, instance_re, unit_re,
  chmod_remove_re, chmod_add_re, ipa_name_re, fqdn_re, realm_re, pam_service_re, sssd_domain_re,
  dc_suffix_re, ipa_services, ipa_path_prefixes, ipa_path_exact, ipa_accounts, ipa_ports,
  permission_types, repl_transports, suffix_kinds,
}

-- What the validators use of Python's Unicode tables and of `os.path`.
pub record Runtime : Type 0 where
  -- `str.lower`
  pub lower : String → String
  -- `str.isdigit` of one character
  pub is_digit : Char → Bool
  -- the digit that `int()` reads, if it reads one
  pub decimal : Char → Option ℕ
  -- `os.path.normpath`
  pub normpath : String → String

-- A validator returns a value or `None`, or raises `ValueError`.
pub data Answer : Type 0 where
  accepted : String → Answer
  refused value_error : Answer

-- `r.fullmatch(s)`
unfoldable pub fullmatch : Regex → String → Bool
unfolding matches chars
fullmatch r s = matches (chars s) r

-- `s.startswith(p)`, `s.endswith(p)`, `p in s`, `len(s)`, `s[len(p):]`
unfoldable pub starts : String → String → Bool
unfolding begins_with chars
starts p s = begins_with (chars p) (chars s)

unfoldable pub ends : String → String → Bool
unfolding ends_with chars
ends p s = ends_with (chars p) (chars s)

unfoldable pub part_of : String → String → Bool
unfolding has_part chars
part_of p s = has_part (chars p) (chars s)

unfoldable pub size : String → ℕ
unfolding chars
size s = length (chars s)

unfoldable pub without : String → String → String
unfolding chars
without p s = text (drop (length (chars p)) (chars s))

-- `v if isinstance(v, str) and test(v) else None`
abbrev pub when : (String → Bool) → Value → Option String
when test (str s) = if test s then some s else none
when test _ = none

-- A text of at most `n` characters that matches in lower case, as `fqdn` and `domain_suffix` take it.
unfoldable pub lowered : (String → String) → ℕ → Regex → Value → Option String
unfolding fullmatch size
lowered lower n r (str s) = if ltb n (size s) then none else when (fullmatch r) (str (lower s))
lowered lower n r _ = none

unfoldable pub ipa_service : Value → Option String
ipa_service v = when (contains ipa_services) v

unfoldable pub perm_type : Value → Option String
perm_type v = when (contains permission_types) v

unfoldable pub repl_transport : Value → Option String
repl_transport v = when (contains repl_transports) v

unfoldable pub ipa_account : Value → Option String
ipa_account v = when (contains ipa_accounts) v

unfoldable pub posix_name : Value → Option String
unfolding fullmatch
posix_name v = when (fullmatch posix_name_re) v

unfoldable pub nickname : Value → Option String
unfolding fullmatch ends
nickname v = when (λ s. fullmatch nickname_re s && not (ends " " s)) v

unfoldable pub request_id : Value → Option String
unfolding fullmatch starts
request_id v = when (λ s. fullmatch request_id_re s && not (starts "-" s)) v

unfoldable pub ds_instance : Value → Option String
unfolding fullmatch
ds_instance v = when (fullmatch instance_re) v

unfoldable pub systemd_unit : Value → Option String
unfolding fullmatch
systemd_unit v = when (fullmatch unit_re) v

unfoldable pub chmod_remove : Value → Option String
unfolding fullmatch
chmod_remove v = when (fullmatch chmod_remove_re) v

unfoldable pub chmod_add : Value → Option String
unfolding fullmatch
chmod_add v = when (fullmatch chmod_add_re) v

unfoldable pub realm : Value → Option String
unfolding fullmatch size
realm v = when (λ s. leb (size s) 253 && fullmatch realm_re s) v

unfoldable pub sssd_domain : Value → Option String
unfolding fullmatch part_of
sssd_domain v = when (λ s. fullmatch sssd_domain_re s && not (part_of ".." s)) v

-- `"0" + v` for three digits
unfoldable pub padded : (Char → Bool) → String → String
unfolding size chars
padded is_digit s =
    if eqb (size s) 3 && all is_digit (chars s) then text (chars "0" ++ chars s) else s

-- `str(v) if isinstance(v, int) and not isinstance(v, bool) else v`
abbrev pub port_text : Value → Value
port_text (number n) = str (show n)
port_text v = v

unfoldable pub ipa_port : Value → Option String
unfolding show
ipa_port v = when (contains ipa_ports) (port_text v)

-- `s.isdigit()`
unfoldable pub is_digits : (Char → Bool) → String → Bool
unfolding size chars
is_digits is_digit s = ltb 0 (size s) && all is_digit (chars s)

-- `int(v)` for a text of digits
unfoldable pub int_of : (Char → Option ℕ) → List Char → ℕ → Option ℕ
int_of decimal [] n = some n
int_of decimal (c ∷ l) n = elim (decimal c) [ none ↦ none | some d ↦ int_of decimal l (n * 10 + d) ]

abbrev pub in_port_range : String → Option ℕ → Answer
in_port_range s none = value_error
in_port_range s (some n) = if leb 1 n && leb n 65535 then accepted s else refused

abbrev pub answered : Option String → Answer
answered none = refused
answered (some s) = accepted s

-- `fn(value) if fn else None`
unfoldable pub call : Option (Value → Answer) → Value → Answer
call none v = refused
call (some f) v = f v

-- `o == s` for a text `s`
abbrev pub is_value : String → Option String → Bool
is_value s none = false
is_value s (some t) = t == s

module _ (rt : Runtime) where
  unfoldable pub abs_path : Value → Option String
  unfolding fullmatch starts ends part_of
  abs_path v =
      when
        (λ s.
          fullmatch path_re s
          && not (
              not (rt.normpath s == s)
              || part_of "//" s
              || part_of "/../" s
              || ends "/.." s
              || part_of "/./" s)
          && (any (λ p. starts p s) ipa_path_prefixes || contains ipa_path_exact s))
        v

  unfoldable pub file_mode : Value → Option String
  unfolding fullmatch padded
  file_mode (str s) = let m = padded rt.is_digit s in if fullmatch mode_re m then some m else none
  file_mode _ = none

  unfoldable pub ipa_name : Value → Option String
  unfolding fullmatch is_digits
  ipa_name v =
      when (λ s. fullmatch ipa_name_re s && not (is_digits rt.is_digit s || rt.lower s == "all")) v

  unfoldable pub fqdn : Value → Option String
  unfolding lowered
  fqdn v = lowered rt.lower 253 fqdn_re v

  -- `_fqdn(host) == host`, `_realm(realm) == realm`
  unfoldable pub is_fqdn : String → Bool
  unfolding fqdn
  is_fqdn host = is_value host (fqdn (str host))

  unfoldable pub is_realm : String → Bool
  unfolding realm
  is_realm name = is_value name (realm (str name))

  -- A service principal of a host: `host/` or `ldap/`, the host, `@` and the realm.
  unfoldable pub principal_of : String → String → Bool
  unfolding starts without count is_fqdn is_realm chars
  principal_of prefix s =
      let rest = chars (without prefix s) in
      starts prefix s
      && eqb (count b'@' (chars s)) 1
      && is_fqdn (text (before b'@' rest))
      && is_realm (text (behind b'@' rest))

  unfoldable pub host_principal : Value → Option String
  unfolding principal_of
  host_principal v = when (principal_of "host/") v

  unfoldable pub ldap_principal : Value → Option String
  unfolding principal_of
  ldap_principal v = when (principal_of "ldap/") v

  unfoldable pub pam_service : Value → Option String
  unfolding fullmatch
  pam_service v = when (λ s. fullmatch pam_service_re s && not (rt.lower s == "all")) v

  unfoldable pub srv_name : Value → Option String
  unfolding starts without is_fqdn
  srv_name v =
      when
        (λ s.
          any (λ prefix. starts prefix s && is_fqdn (without prefix s))
            ("_ldap._tcp." ∷ "_kerberos._tcp." ∷ "_kerberos._udp." ∷ []))
        v

  unfoldable pub domain_suffix : Value → Option String
  unfolding lowered chars
  domain_suffix v = lowered rt.lower 512 dc_suffix_re v

  -- The `:` is there if it is counted.
  unfoldable pub agreement_subject : Value → Option String
  unfolding count behind is_fqdn chars
  agreement_subject v =
      when
        (λ s.
          not (eqb (count b':' (chars s)) 0)
          && contains suffix_kinds (text (before b':' (chars s)))
          && is_fqdn (text (behind b':' (chars s))))
        v

  abbrev pub ldap_port_text : Value → Answer
  ldap_port_text (str s) =
      if not (is_digits rt.is_digit s) || ltb 5 (size s) || starts "0" s
      then refused
      else in_port_range s (int_of rt.decimal (chars s) 0)
  ldap_port_text _ = refused

  unfoldable pub ldap_port : Value → Answer
  unfolding show is_digits int_of size starts chars
  ldap_port v = ldap_port_text (port_text v)

  -- `VALIDATORS`
  abbrev pub validators : Dict String (Value → Answer)
  validators =
      ("ipa_user", λ v. answered (ipa_name v))
      ∷ ("ipa_group", λ v. answered (ipa_name v))
      ∷ ("fqdn", λ v. answered (fqdn v))
      ∷ ("host_principal", λ v. answered (host_principal v))
      ∷ ("pam_service", λ v. answered (pam_service v))
      ∷ ("sssd_domain", λ v. answered (sssd_domain v))
      ∷ ("srv_name", λ v. answered (srv_name v))
      ∷ ("ipa_port", λ v. answered (ipa_port v))
      ∷ ("realm", λ v. answered (realm v))
      ∷ ("ipa_service", λ v. answered (ipa_service v))
      ∷ ("ipa_path", λ v. answered (abs_path v))
      ∷ ("file_mode", λ v. answered (file_mode v))
      ∷ ("posix_name", λ v. answered (posix_name v))
      ∷ ("cert_nickname", λ v. answered (nickname v))
      ∷ ("certmonger_request_id", λ v. answered (request_id v))
      ∷ ("ds_instance", λ v. answered (ds_instance v))
      ∷ ("systemd_unit", λ v. answered (systemd_unit v))
      ∷ ("permission_type", λ v. answered (perm_type v))
      ∷ ("ipa_account", λ v. answered (ipa_account v))
      ∷ ("chmod_remove", λ v. answered (chmod_remove v))
      ∷ ("chmod_add", λ v. answered (chmod_add v))
      ∷ ("ldap_port", ldap_port)
      ∷ ("repl_transport", λ v. answered (repl_transport v))
      ∷ ("domain_suffix", λ v. answered (domain_suffix v))
      ∷ ("ldap_principal", λ v. answered (ldap_principal v))
      ∷ ("agreement_subject", λ v. answered (agreement_subject v))
      ∷ []

  unfoldable pub validate : String → Value → Answer
  unfolding get call
  validate kind v = call (get validators kind) v
