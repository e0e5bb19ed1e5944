-- ===== src/Resolution/Types/Safe.antt =====
-- What the validators of ipa_diagnose/resolution/types.py accept: plain characters, and no leading dash.
pub mod Plain
pub mod Pattern
pub mod Name
use ipa_diagnose.Base.{
  ◌&◌, and_left, and_right, ◌≡◌, refl, sym, ap, subst, ◌≢◌, arith, ℕ, Char, code, String, Bool,
  true, false, ◌&&◌, not, Option, none, some, List, [], ◌∷◌, ◌++◌, inl, inr, eqb, ltb, any, all,
  All, length, drop, contains, ◌==◌, ==_iff, string_eq, Bool-cases,
}
use ipa_diagnose.Base.Strings.{chars, text, before, chars-text}
use ipa_diagnose.Base.Dict.{get, All-get}
use ipa_diagnose.Base.Value.{Value, null, boolean, number, str, array, dict, other}
use ipa_diagnose.Resolution.Regex.{Class, Regex, in_class, matches, nullable, over, begins, covers}
use ipa_diagnose.Resolution.Regex.Over.{matches-begins, matches-over}
use ipa_diagnose.Resolution.Text.{begins_with, Each, Each-partition, Each-begins, behind}
use ipa_diagnose.Resolution.Patterns
use ipa_diagnose.Resolution.Patterns.{digit, lower_case, upper_case, letter_or_digit, single}
use ipa_diagnose.Resolution.Types.{
  Runtime, Answer, accepted, refused, value_error, fullmatch, starts, size, without, when,
  ipa_service, perm_type, repl_transport, ipa_account, posix_name, nickname, request_id,
  ds_instance, systemd_unit, chmod_remove, chmod_add, realm, sssd_domain, padded, port_text,
  ipa_port, answered, abs_path, file_mode, ipa_name, fqdn, lowered, is_value, is_fqdn, is_realm,
  principal_of, host_principal, ldap_principal, pam_service, srv_name, domain_suffix,
  agreement_subject, validators, validate, call,
}
use ipa_diagnose.Resolution.Types.Safe.Plain.{
  plain, lead, Leads, IsSafe, OnSome, OnAccepted, regex-Leads, tidy, regex-IsSafe, when-OnSome,
  OnSome-answered, when_regex-OnSome, safe_chars, all-Each, safe_chars_lem, safe, contains-all,
  listed-OnSome,
}
use ipa_diagnose.Resolution.Types.Safe.Pattern.{
  posix_name-IsSafe, nickname-IsSafe, ds_instance-IsSafe, systemd_unit-IsSafe, chmod_remove-IsSafe,
  chmod_add-IsSafe, sssd_domain-IsSafe, realm-IsSafe, pam_service-IsSafe, ipa_name-IsSafe,
  abs_path-IsSafe, ipa_service-IsSafe, perm_type-IsSafe, repl_transport-IsSafe, ipa_account-IsSafe,
  ipa_port-IsSafe, is_value-OnSome, lowered-IsSafe, fqdn-IsSafe, domain_suffix-IsSafe,
  file_mode-IsSafe,
}
use ipa_diagnose.Resolution.Types.Safe.Name.{
  is_value-Each, is_fqdn-Each, is_realm-Each, Leads-begins, starts-IsSafe, plain_at, plain_colon,
  principal_of-IsSafe, host_principal-IsSafe, ldap_principal-IsSafe, any_prefix-IsSafe,
  srv_name-IsSafe, Leads-before, agreement-IsSafe, agreement_subject-IsSafe, name_lead,
  request-Leads, no_dash, request_id-IsSafe,
}

-- What is shown of each validator but the one for LDAP ports.
abbrev IsSound : String → (Value → Answer) → Type 0
IsSound kind f = kind ≢ "ldap_port" → (v : Value) → OnAccepted IsSafe (f v)

sound :
    {kind : String} (f : Value → Option String)
    → ((v : Value) → OnSome IsSafe (f v))
    → IsSound kind (λ v. answered (f v))
sound f h n v = OnSome-answered IsSafe (f v) (h v)

validators-IsSound : (rt : Runtime) → All (λ e. IsSound e.0 e.1) (validators rt)
validators-IsSound rt =
    sound (ipa_name rt) (ipa_name-IsSafe rt)
    & sound (ipa_name rt) (ipa_name-IsSafe rt)
    & sound (fqdn rt) (fqdn-IsSafe rt)
    & sound (host_principal rt) (host_principal-IsSafe rt)
    & sound (pam_service rt) (pam_service-IsSafe rt)
    & sound (sssd_domain) (sssd_domain-IsSafe)
    & sound (srv_name rt) (srv_name-IsSafe rt)
    & sound (ipa_port) (ipa_port-IsSafe)
    & sound (realm) (realm-IsSafe)
    & sound (ipa_service) (ipa_service-IsSafe)
    & sound (abs_path rt) (abs_path-IsSafe rt)
    & sound (file_mode rt) (file_mode-IsSafe rt)
    & sound (posix_name) (posix_name-IsSafe)
    & sound (nickname) (nickname-IsSafe)
    & sound (request_id) (request_id-IsSafe)
    & sound (ds_instance) (ds_instance-IsSafe)
    & sound (systemd_unit) (systemd_unit-IsSafe)
    & sound (perm_type) (perm_type-IsSafe)
    & sound (ipa_account) (ipa_account-IsSafe)
    & sound (chmod_remove) (chmod_remove-IsSafe)
    & sound (chmod_add) (chmod_add-IsSafe)
    & (λ n v. absurd (n refl))
    & sound (repl_transport) (repl_transport-IsSafe)
    & sound (domain_suffix rt) (domain_suffix-IsSafe rt)
    & sound (ldap_principal rt) (ldap_principal-IsSafe rt)
    & sound (agreement_subject rt) (agreement_subject-IsSafe rt)
    & tt

accepted-injective : (t s : String) → accepted t ≡ accepted s → t ≡ s
accepted-injective t s e = ap (λ a. elim a [ accepted r ↦ r | _ ↦ "" ]) e

OnAccepted_value :
    (P : String → Type 0) (a : Answer) (s : String) → OnAccepted P a → a ≡ accepted s → P s
OnAccepted_value P (accepted t) s h e = subst P (accepted-injective t s e) h
OnAccepted_value P refused s h e = absurd (ground (arith, e))
OnAccepted_value P value_error s h e = absurd (ground (arith, e))

call-OnAccepted :
    (rt : Runtime) (kind : String) (v : Value) (o : Option (Value → Answer))
    → kind ≢ "ldap_port"
    → get (validators rt) kind ≡ o
    → OnAccepted IsSafe (call o v)
unfolding call
call-OnAccepted rt kind v none n e = tt
call-OnAccepted rt kind v (some f) n e =
    All-get IsSound (validators rt) kind f (validators-IsSound rt) e n v

-- A value that is accepted as a value of any type but `ldap_port` is not empty, begins with a
-- letter, a digit or one of `_./`, and has only letters, digits, spaces and `$+,-./:=@_`.
pub validate-IsSafe :
    (rt : Runtime) (kind : String) (v : Value) (s : String)
    → kind ≢ "ldap_port"
    → validate rt kind v ≡ accepted s
    → IsSafe s
unfolding validate
validate-IsSafe rt kind v s n h =
    OnAccepted_value IsSafe (validate rt kind v) s
      (call-OnAccepted rt kind v (get (validators rt) kind) n refl) h
