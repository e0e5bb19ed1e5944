-- ===== src/Resolution/Types/Stable.antt =====
-- A value that a validator of ipa_diagnose/resolution/types.py returned is accepted again, unchanged.
use ipa_diagnose.Base.{
  ◌&◌, ◌≡◌, refl, sym, ap, subst, arith, ℕ, Char, String, Bool, true, false, ◌||◌, not, Option,
  none, some, some-injective, List, [], ◌∷◌, inl, inr, eqb, ltb, if◌then◌else◌, any, all, All,
  length, string_eq, Bool-cases,
}
use ipa_diagnose.Base.Strings.{chars}
use ipa_diagnose.Base.Dict.{get, All-get}
use ipa_diagnose.Base.Value.{Value, null, boolean, number, str, array, dict, other}
use ipa_diagnose.Resolution.Regex.{Class, Regex, in_class, matches, nullable, over, covers}
use ipa_diagnose.Resolution.Regex.Over.{matches-over}
use ipa_diagnose.Resolution.Text.{Each}
use ipa_diagnose.Resolution.Patterns
use ipa_diagnose.Resolution.Patterns.{lower_case, digit, single}
use ipa_diagnose.Resolution.Types.{
  Runtime, Answer, accepted, refused, fullmatch, starts, size, when, ipa_service, perm_type,
  repl_transport, ipa_account, posix_name, nickname, request_id, ds_instance, systemd_unit,
  chmod_remove, chmod_add, realm, sssd_domain, padded, port_text, ipa_port, is_digits, int_of,
  answered, lowered, in_port_range, abs_path, file_mode, ipa_name, fqdn, host_principal,
  ldap_principal, pam_service, srv_name, domain_suffix, agreement_subject, ldap_port,
  ldap_port_text, validators, validate, call,
}

abbrev IsStable : (Value → Option String) → Type 0
IsStable f = (v : Value) (s : String) → f v ≡ some s → f (str s) ≡ some s

when-IsStable : (test : String → Bool) → IsStable (when test)
when-IsStable test (str t) s h = elim (Bool-cases (test t)) [
  | inl e ↦
      let p : some t ≡ some s = rw e at h in
      subst (λ r. when test (str r) ≡ some r) (some-injective t s p) (rw e refl)
  | inr e ↦ let p : none ≡ some s = rw e at h in absurd (ground (arith, p))
]
when-IsStable test null s h = absurd (ground (arith, h))
when-IsStable test (boolean b) s h = absurd (ground (arith, h))
when-IsStable test (number n) s h = absurd (ground (arith, h))
when-IsStable test (array xs) s h = absurd (ground (arith, h))
when-IsStable test (dict fs) s h = absurd (ground (arith, h))
when-IsStable test (other t) s h = absurd (ground (arith, h))

-- What such a test returns, it accepted.
when_test : (test : String → Bool) (v : Value) (s : String) → when test v ≡ some s → test s ≡ true
when_test test v s h =
    let e : (if test s then some s else none) ≡ some s = when-IsStable test v s h in
    ground (arith, e)

when_value : (test : String → Bool) (t s : String) → when test (str t) ≡ some s → t ≡ s
when_value test t s h = ground (arith, h)

ipa_port-IsStable : IsStable ipa_port
unfolding ipa_port
ipa_port-IsStable v s h = when-IsStable _ (port_text v) s h

ipa_service-IsStable : IsStable ipa_service
unfolding ipa_service
ipa_service-IsStable v s h = when-IsStable _ v s h

perm_type-IsStable : IsStable perm_type
unfolding perm_type
perm_type-IsStable v s h = when-IsStable _ v s h

repl_transport-IsStable : IsStable repl_transport
unfolding repl_transport
repl_transport-IsStable v s h = when-IsStable _ v s h

ipa_account-IsStable : IsStable ipa_account
unfolding ipa_account
ipa_account-IsStable v s h = when-IsStable _ v s h

posix_name-IsStable : IsStable posix_name
unfolding posix_name
posix_name-IsStable v s h = when-IsStable _ v s h

nickname-IsStable : IsStable nickname
unfolding nickname
nickname-IsStable v s h = when-IsStable _ v s h

request_id-IsStable : IsStable request_id
unfolding request_id
request_id-IsStable v s h = when-IsStable _ v s h

ds_instance-IsStable : IsStable ds_instance
unfolding ds_instance
ds_instance-IsStable v s h = when-IsStable _ v s h

systemd_unit-IsStable : IsStable systemd_unit
unfolding systemd_unit
systemd_unit-IsStable v s h = when-IsStable _ v s h

chmod_remove-IsStable : IsStable chmod_remove
unfolding chmod_remove
chmod_remove-IsStable v s h = when-IsStable _ v s h

chmod_add-IsStable : IsStable chmod_add
unfolding chmod_add
chmod_add-IsStable v s h = when-IsStable _ v s h

realm-IsStable : IsStable realm
unfolding realm
realm-IsStable v s h = when-IsStable _ v s h

sssd_domain-IsStable : IsStable sssd_domain
unfolding sssd_domain
sssd_domain-IsStable v s h = when-IsStable _ v s h

abs_path-IsStable : (rt : Runtime) → IsStable (abs_path rt)
unfolding abs_path
abs_path-IsStable rt v s h = when-IsStable _ v s h

ipa_name-IsStable : (rt : Runtime) → IsStable (ipa_name rt)
unfolding ipa_name
ipa_name-IsStable rt v s h = when-IsStable _ v s h

host_principal-IsStable : (rt : Runtime) → IsStable (host_principal rt)
unfolding host_principal
host_principal-IsStable rt v s h = when-IsStable _ v s h

ldap_principal-IsStable : (rt : Runtime) → IsStable (ldap_principal rt)
unfolding ldap_principal
ldap_principal-IsStable rt v s h = when-IsStable _ v s h

pam_service-IsStable : (rt : Runtime) → IsStable (pam_service rt)
unfolding pam_service
pam_service-IsStable rt v s h = when-IsStable _ v s h

srv_name-IsStable : (rt : Runtime) → IsStable (srv_name rt)
unfolding srv_name
srv_name-IsStable rt v s h = when-IsStable _ v s h

agreement_subject-IsStable : (rt : Runtime) → IsStable (agreement_subject rt)
unfolding agreement_subject
agreement_subject-IsStable rt v s h = when-IsStable _ v s h

-- Lower-case letters, digits, and `, - . =`.
abbrev pub low : Class
low = lower_case ∷ digit ∷ single b',' ∷ single b'-' ∷ single b'.' ∷ single b'=' ∷ []

-- `str.lower` leaves a text of such characters alone, and makes one only of a text of its length.
abbrev pub LowersAscii : (String → String) → Type 0
LowersAscii lower =
    ((s : String) → Each (in_class low) (chars s) → lower s ≡ s)
    × ((s : String) → Each (in_class low) (chars (lower s)) → size (lower s) ≡ size s)

lowered-IsStable :
    (lower : String → String) (n : ℕ) (r : Regex)
    → LowersAscii lower
    → over low r ≡ true
    → IsStable (lowered lower n r)
unfolding lowered
lowered-IsStable lower n r a o (str t) s h = elim (Bool-cases (ltb n (size t))) [
  | inl e ↦ let p : none ≡ some s = rw e at h in absurd (ground (arith, p))
  | inr e ↦
      let p : when (fullmatch r) (str (lower t)) ≡ some s = rw e at h in
      let m : fullmatch r s ≡ true = when_test (fullmatch r) (str (lower t)) s p in
      let k : Each (in_class low) (chars s) = matches-over low (chars s) r o m in
      let q : lower t ≡ s = when_value (fullmatch r) (lower t) s p in
      let z : size s ≡ size t =
        subst (λ x. size x ≡ size t) q
          (a.1 t (subst (λ x. Each (in_class low) (chars x)) (sym q) k)) in
      rw (z, e, a.0 s k, m) refl
]
lowered-IsStable lower n r a o null s h = absurd (ground (arith, h))
lowered-IsStable lower n r a o (boolean b) s h = absurd (ground (arith, h))
lowered-IsStable lower n r a o (number m) s h = absurd (ground (arith, h))
lowered-IsStable lower n r a o (array xs) s h = absurd (ground (arith, h))
lowered-IsStable lower n r a o (dict fs) s h = absurd (ground (arith, h))
lowered-IsStable lower n r a o (other t) s h = absurd (ground (arith, h))

mode_length : (l : List Char) → matches l Patterns.mode_re ≡ true → eqb (length l) 3 ≡ false
unfolding matches nullable
mode_length [] h = refl
mode_length (a ∷ []) h = refl
mode_length (a ∷ b ∷ []) h = refl
mode_length (a ∷ b ∷ c ∷ []) h = ground (arith, h)
mode_length (a ∷ b ∷ c ∷ d ∷ l) h = ground arith

fqdn-IsStable : (rt : Runtime) → LowersAscii rt.lower → IsStable (fqdn rt)
unfolding fqdn over covers any all
fqdn-IsStable rt a v s h = lowered-IsStable rt.lower 253 Patterns.fqdn_re a refl v s h

domain_suffix-IsStable : (rt : Runtime) → LowersAscii rt.lower → IsStable (domain_suffix rt)
unfolding domain_suffix over covers any all chars
domain_suffix-IsStable rt a v s h = lowered-IsStable rt.lower 512 Patterns.dc_suffix_re a refl v s h

-- A mode of four digits is not padded.
padded-again :
    (rt : Runtime) (s : String)
    → fullmatch Patterns.mode_re s ≡ true
    → file_mode rt (str s) ≡ some s
unfolding file_mode padded fullmatch size
padded-again rt s m = rw (mode_length (chars s) m, m) refl

file_mode-IsStable : (rt : Runtime) → IsStable (file_mode rt)
unfolding file_mode
file_mode-IsStable rt (str t) s h =
    padded-again rt s (when_test (fullmatch Patterns.mode_re) (str (padded rt.is_digit t)) s h)
file_mode-IsStable rt null s h = absurd (ground (arith, h))
file_mode-IsStable rt (boolean b) s h = absurd (ground (arith, h))
file_mode-IsStable rt (number m) s h = absurd (ground (arith, h))
file_mode-IsStable rt (array xs) s h = absurd (ground (arith, h))
file_mode-IsStable rt (dict fs) s h = absurd (ground (arith, h))
file_mode-IsStable rt (other t) s h = absurd (ground (arith, h))

-- The same of a validator in the table.
abbrev Again : (Value → Answer) → Type 0
Again f = (v : Value) (s : String) → f v ≡ accepted s → f (str s) ≡ accepted s

answered-some : (o : Option String) (s : String) → answered o ≡ accepted s → o ≡ some s
answered-some none s h = absurd (ground (arith, h))
answered-some (some t) s h = ground (arith, h)

again : (f : Value → Option String) → IsStable f → Again (λ v. answered (f v))
again f h v s e = rw (h v s (answered-some (f v) s e)) refl

in_port_range_value : (t s : String) (o : Option ℕ) → in_port_range t o ≡ accepted s → t ≡ s
in_port_range_value t s none h = absurd (ground (arith, h))
in_port_range_value t s (some n) h = ground (arith, h)

ldap_port_text_value :
    (rt : Runtime) (v : Value) (s : String) → ldap_port_text rt v ≡ accepted s → v ≡ str s
ldap_port_text_value rt (str t) s h =
    ap str (elim (Bool-cases (not (is_digits rt.is_digit t) || ltb 5 (size t) || starts "0" t)) [
      | inl e ↦ let p : refused ≡ accepted s = rw e at h in absurd (ground (arith, p))
      | inr e ↦ in_port_range_value t s (int_of rt.decimal (chars t) 0) (rw e at h)
    ])
ldap_port_text_value rt null s h = absurd (ground (arith, h))
ldap_port_text_value rt (boolean b) s h = absurd (ground (arith, h))
ldap_port_text_value rt (number m) s h = absurd (ground (arith, h))
ldap_port_text_value rt (array xs) s h = absurd (ground (arith, h))
ldap_port_text_value rt (dict fs) s h = absurd (ground (arith, h))
ldap_port_text_value rt (other t) s h = absurd (ground (arith, h))

ldap_port-Again : (rt : Runtime) → Again (ldap_port rt)
unfolding ldap_port
ldap_port-Again rt v s h =
    subst (λ w. ldap_port_text rt w ≡ accepted s) (ldap_port_text_value rt (port_text v) s h) h

validators-Again : (rt : Runtime) → LowersAscii rt.lower → All (λ e. Again e.1) (validators rt)
validators-Again rt a =
    again (ipa_name rt) (ipa_name-IsStable rt)
    & again (ipa_name rt) (ipa_name-IsStable rt)
    & again (fqdn rt) (fqdn-IsStable rt a)
    & again (host_principal rt) (host_principal-IsStable rt)
    & again (pam_service rt) (pam_service-IsStable rt)
    & again (sssd_domain) (sssd_domain-IsStable)
    & again (srv_name rt) (srv_name-IsStable rt)
    & again (ipa_port) (ipa_port-IsStable)
    & again (realm) (realm-IsStable)
    & again (ipa_service) (ipa_service-IsStable)
    & again (abs_path rt) (abs_path-IsStable rt)
    & again (file_mode rt) (file_mode-IsStable rt)
    & again (posix_name) (posix_name-IsStable)
    & again (nickname) (nickname-IsStable)
    & again (request_id) (request_id-IsStable)
    & again (ds_instance) (ds_instance-IsStable)
    & again (systemd_unit) (systemd_unit-IsStable)
    & again (perm_type) (perm_type-IsStable)
    & again (ipa_account) (ipa_account-IsStable)
    & again (chmod_remove) (chmod_remove-IsStable)
    & again (chmod_add) (chmod_add-IsStable)
    & ldap_port-Again rt
    & again (repl_transport) (repl_transport-IsStable)
    & again (domain_suffix rt) (domain_suffix-IsStable rt a)
    & again (ldap_principal rt) (ldap_principal-IsStable rt)
    & again (agreement_subject rt) (agreement_subject-IsStable rt)
    & tt

call_again :
    (rt : Runtime) (kind : String) (v : Value) (s : String) (o : Option (Value → Answer))
    → LowersAscii rt.lower
    → get (validators rt) kind ≡ o
    → call o v ≡ accepted s
    → call o (str s) ≡ accepted s
unfolding call
call_again rt kind v s none a e h = absurd (ground (arith, h))
call_again rt kind v s (some f) a e h =
    All-get (λ k g. Again g) (validators rt) kind f (validators-Again rt a) e v s h

-- A value that `validate` returns is canonical: validating it again as a value of the same type
-- returns it unchanged. `str.lower` must leave texts of lower-case ASCII letters, digits and
-- punctuation alone, and yield one only of a text of its length.
pub validate_again :
    (rt : Runtime) (kind : String) (v : Value) (s : String)
    → LowersAscii rt.lower
    → validate rt kind v ≡ accepted s
    → validate rt kind (str s) ≡ accepted s
unfolding validate
validate_again rt kind v s a h = call_again rt kind v s (get (validators rt) kind) a refl h
