-- ===== src/Resolution/Types/Safe/Pattern.antt =====
-- The validators of ipa_diagnose/resolution/types.py that test a pattern or a list.
use ipa_diagnose.Base.{
  and_left, and_right, ◌≡◌, refl, subst, arith, ℕ, String, true, Option, none, some, inl, inr, ltb,
  any, all, ==_iff, string_eq, Bool-cases,
}
use ipa_diagnose.Base.Strings.{chars}
use ipa_diagnose.Base.Value.{Value, null, boolean, number, str, array, dict, other}
use ipa_diagnose.Resolution.Regex.{Regex, in_class}
use ipa_diagnose.Resolution.Patterns
use ipa_diagnose.Resolution.Patterns.{digit, lower_case, upper_case, letter_or_digit, single}
use ipa_diagnose.Resolution.Types.{
  Runtime, size, ipa_service, perm_type, repl_transport, ipa_account, posix_name, nickname,
  ds_instance, systemd_unit, chmod_remove, chmod_add, realm, sssd_domain, padded, port_text,
  ipa_port, abs_path, file_mode, ipa_name, fqdn, lowered, is_value, pam_service, domain_suffix,
}
use ipa_diagnose.Resolution.Types.Safe.Plain.{
  plain, lead, IsSafe, OnSome, tidy, when_regex-OnSome, safe, listed-OnSome,
}

pub posix_name-IsSafe : (v : Value) → OnSome IsSafe (posix_name v)
unfolding posix_name tidy
posix_name-IsSafe v = when_regex-OnSome Patterns.posix_name_re _ v refl (λ s h. h)

pub nickname-IsSafe : (v : Value) → OnSome IsSafe (nickname v)
unfolding nickname tidy
nickname-IsSafe v = when_regex-OnSome Patterns.nickname_re _ v refl (λ s h. and_left _ _ h)

pub ds_instance-IsSafe : (v : Value) → OnSome IsSafe (ds_instance v)
unfolding ds_instance tidy
ds_instance-IsSafe v = when_regex-OnSome Patterns.instance_re _ v refl (λ s h. h)

pub systemd_unit-IsSafe : (v : Value) → OnSome IsSafe (systemd_unit v)
unfolding systemd_unit chars tidy
systemd_unit-IsSafe v = when_regex-OnSome Patterns.unit_re _ v refl (λ s h. h)

pub chmod_remove-IsSafe : (v : Value) → OnSome IsSafe (chmod_remove v)
unfolding chmod_remove tidy
chmod_remove-IsSafe v = when_regex-OnSome Patterns.chmod_remove_re _ v refl (λ s h. h)

pub chmod_add-IsSafe : (v : Value) → OnSome IsSafe (chmod_add v)
unfolding chmod_add tidy
chmod_add-IsSafe v = when_regex-OnSome Patterns.chmod_add_re _ v refl (λ s h. h)

pub sssd_domain-IsSafe : (v : Value) → OnSome IsSafe (sssd_domain v)
unfolding sssd_domain tidy
sssd_domain-IsSafe v = when_regex-OnSome Patterns.sssd_domain_re _ v refl (λ s h. and_left _ _ h)

pub realm-IsSafe : (v : Value) → OnSome IsSafe (realm v)
unfolding realm tidy
realm-IsSafe v = when_regex-OnSome Patterns.realm_re _ v refl (λ s h. and_right _ _ h)

pub pam_service-IsSafe : (rt : Runtime) (v : Value) → OnSome IsSafe (pam_service rt v)
unfolding pam_service tidy
pam_service-IsSafe rt v = when_regex-OnSome Patterns.pam_service_re _ v refl (λ s h. and_left _ _ h)

pub ipa_name-IsSafe : (rt : Runtime) (v : Value) → OnSome IsSafe (ipa_name rt v)
unfolding ipa_name tidy
ipa_name-IsSafe rt v = when_regex-OnSome Patterns.ipa_name_re _ v refl (λ s h. and_left _ _ h)

pub abs_path-IsSafe : (rt : Runtime) (v : Value) → OnSome IsSafe (abs_path rt v)
unfolding abs_path tidy
abs_path-IsSafe rt v =
    when_regex-OnSome Patterns.path_re _ v refl (λ s h. and_left _ _ (and_left _ _ h))

pub ipa_service-IsSafe : (v : Value) → OnSome IsSafe (ipa_service v)
unfolding ipa_service all safe in_class plain lead any
ipa_service-IsSafe v = listed-OnSome Patterns.ipa_services v refl

pub perm_type-IsSafe : (v : Value) → OnSome IsSafe (perm_type v)
unfolding perm_type all safe in_class plain lead any
perm_type-IsSafe v = listed-OnSome Patterns.permission_types v refl

pub repl_transport-IsSafe : (v : Value) → OnSome IsSafe (repl_transport v)
unfolding repl_transport all safe in_class plain lead any
repl_transport-IsSafe v = listed-OnSome Patterns.repl_transports v refl

pub ipa_account-IsSafe : (v : Value) → OnSome IsSafe (ipa_account v)
unfolding ipa_account all safe in_class plain lead any
ipa_account-IsSafe v = listed-OnSome Patterns.ipa_accounts v refl

pub ipa_port-IsSafe : (v : Value) → OnSome IsSafe (ipa_port v)
unfolding ipa_port all safe in_class plain lead any
ipa_port-IsSafe v = listed-OnSome Patterns.ipa_ports (port_text v) refl

pub is_value-OnSome :
    (P : String → Type 0) (s : String) (o : Option String) → OnSome P o → is_value s o ≡ true → P s
is_value-OnSome P s none h e = absurd (ground (arith, e))
is_value-OnSome P s (some t) h e = subst P ((==_iff t s).0 e) h

pub lowered-IsSafe :
    (lower : String → String) (n : ℕ) (r : Regex)
    → tidy r ≡ true
    → (v : Value) → OnSome IsSafe (lowered lower n r v)
unfolding lowered
lowered-IsSafe lower n r t (str s) = elim (Bool-cases (ltb n (size s))) [
  | inl e ↦ rw e tt
  | inr e ↦ rw e (when_regex-OnSome r _ (str (lower s)) t (λ x h. h))
]
lowered-IsSafe lower n r t null = tt
lowered-IsSafe lower n r t (boolean b) = tt
lowered-IsSafe lower n r t (number m) = tt
lowered-IsSafe lower n r t (array xs) = tt
lowered-IsSafe lower n r t (dict fs) = tt
lowered-IsSafe lower n r t (other s) = tt

pub fqdn-IsSafe : (rt : Runtime) (v : Value) → OnSome IsSafe (fqdn rt v)
unfolding fqdn tidy
fqdn-IsSafe rt v = lowered-IsSafe rt.lower 253 Patterns.fqdn_re refl v

pub domain_suffix-IsSafe : (rt : Runtime) (v : Value) → OnSome IsSafe (domain_suffix rt v)
unfolding domain_suffix tidy chars
domain_suffix-IsSafe rt v = lowered-IsSafe rt.lower 512 Patterns.dc_suffix_re refl v

pub file_mode-IsSafe : (rt : Runtime) (v : Value) → OnSome IsSafe (file_mode rt v)
unfolding file_mode tidy
file_mode-IsSafe rt (str s) =
    when_regex-OnSome Patterns.mode_re _ (str (padded rt.is_digit s)) refl (λ t h. h)
file_mode-IsSafe rt null = tt
file_mode-IsSafe rt (boolean b) = tt
file_mode-IsSafe rt (number n) = tt
file_mode-IsSafe rt (array xs) = tt
file_mode-IsSafe rt (dict fs) = tt
file_mode-IsSafe rt (other s) = tt
