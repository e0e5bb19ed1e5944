-- ===== src/Resolution/Types/Safe/Name.antt =====
-- The validators of ipa_diagnose/resolution/types.py for texts that hold names: principals, service
-- records and agreements.
use ipa_diagnose.Base.{
  and_left, and_right, ◌≡◌, refl, subst, arith, ℕ, Char, code, String, Bool, true, false, ◌&&◌, not,
  List, [], ◌∷◌, inl, inr, eqb, any, all, length, drop, contains, string_eq, Bool-cases,
}
use ipa_diagnose.Base.Strings.{chars, text, before, chars-text}
use ipa_diagnose.Base.Value.{Value, str}
use ipa_diagnose.Resolution.Regex.{in_class, matches, nullable, over, begins, covers}
use ipa_diagnose.Resolution.Regex.Over.{matches-begins, matches-over}
use ipa_diagnose.Resolution.Text.{begins_with, Each, Each-partition, Each-begins, behind}
use ipa_diagnose.Resolution.Patterns
use ipa_diagnose.Resolution.Patterns.{digit, lower_case, upper_case, letter_or_digit, single}
use ipa_diagnose.Resolution.Types.{
  Runtime, fullmatch, starts, without, request_id, realm, fqdn, is_fqdn, is_realm, principal_of,
  host_principal, ldap_principal, srv_name, agreement_subject,
}
use ipa_diagnose.Resolution.Types.Safe.Plain.{
  plain, lead, Leads, IsSafe, OnSome, when-OnSome, safe_chars_lem, safe, contains-all,
}
use ipa_diagnose.Resolution.Types.Safe.Pattern.{realm-IsSafe, is_value-OnSome, fqdn-IsSafe}

pub is_value-Each :
    (rt : Runtime) (s : String) → is_fqdn rt s ≡ true → Each (in_class plain) (chars s)
unfolding is_fqdn
is_value-Each rt s e = (is_value-OnSome IsSafe s (fqdn rt (str s)) (fqdn-IsSafe rt (str s)) e).1

-- The characters of a host's or a realm's name that stands within a text.
pub is_fqdn-Each :
    (rt : Runtime) (l : List Char) → is_fqdn rt (text l) ≡ true → Each (in_class plain) l
is_fqdn-Each rt l e = subst (Each (in_class plain)) (chars-text l) (is_value-Each rt (text l) e)

pub is_realm-Each :
    (rt : Runtime) (l : List Char) → is_realm rt (text l) ≡ true → Each (in_class plain) l
unfolding is_realm
is_realm-Each rt l e =
    subst (Each (in_class plain)) (chars-text l)
      (is_value-OnSome IsSafe (text l) (realm (str (text l))) (realm-IsSafe (str (text l))) e).1

pub Leads-begins : (p l : List Char) → begins_with p l ≡ true → Leads p → Leads l
unfolding begins_with
Leads-begins [] l h a = absurd a
Leads-begins (x ∷ p) [] h a = absurd (ground (arith, h))
Leads-begins (x ∷ p) (c ∷ l) h a =
    let e : eqb (code x) (code c) ≡ true = and_left _ _ h in ground (arith, e, a)

-- A text that begins with a safe text, with plain characters after it.
pub starts-IsSafe :
    (p s : String)
    → starts p s ≡ true
    → safe p ≡ true
    → Each (in_class plain) (chars (without p s))
    → IsSafe s
unfolding starts without safe
starts-IsSafe p s h a k =
    let b = safe_chars_lem (chars p) a in
    (
      Leads-begins (chars p) (chars s) h b.0,
      Each-begins (in_class plain) (chars p) (chars s) h b.1
          (subst (Each (in_class plain)) (chars-text (drop (length (chars p)) (chars s))) k),
    )

pub plain_at : in_class plain b'@' ≡ true
unfolding in_class plain any
plain_at = refl

pub plain_colon : in_class plain b':' ≡ true
unfolding in_class plain any
plain_colon = refl

pub principal_of-IsSafe :
    (rt : Runtime) (p s : String) → safe p ≡ true → principal_of rt p s ≡ true → IsSafe s
unfolding principal_of
principal_of-IsSafe rt p s a h =
    let rest = chars (without p s) in
    let h1 = and_left _ _ h in
    let h2 = and_left _ _ h1 in
    starts-IsSafe p s (and_left _ _ h2) a (
      Each-partition (in_class plain) b'@' rest plain_at
        (is_fqdn-Each rt (before b'@' rest) (and_right _ _ h1))
        (is_realm-Each rt (behind b'@' rest) (and_right _ _ h)))

pub host_principal-IsSafe : (rt : Runtime) (v : Value) → OnSome IsSafe (host_principal rt v)
unfolding host_principal safe in_class plain lead any chars
host_principal-IsSafe rt v = when-OnSome IsSafe _ v (λ s h. principal_of-IsSafe rt "host/" s refl h)

pub ldap_principal-IsSafe : (rt : Runtime) (v : Value) → OnSome IsSafe (ldap_principal rt v)
unfolding ldap_principal safe in_class plain lead any chars
ldap_principal-IsSafe rt v = when-OnSome IsSafe _ v (λ s h. principal_of-IsSafe rt "ldap/" s refl h)

-- A prefix of a list of safe ones, and a host's name.
pub any_prefix-IsSafe :
    (rt : Runtime) (l : List String) (s : String)
    → all safe l ≡ true
    → any (λ p. starts p s && is_fqdn rt (without p s)) l ≡ true
    → IsSafe s
unfolding any all
any_prefix-IsSafe rt [] s a h = absurd (ground (arith, h))
any_prefix-IsSafe rt (p ∷ l) s a h = elim (Bool-cases (starts p s && is_fqdn rt (without p s))) [
  | inl e ↦
      starts-IsSafe p s (and_left _ _ e) (and_left _ _ a)
        (is_value-Each rt (without p s) (and_right _ _ e))
  | inr e ↦ any_prefix-IsSafe rt l s (and_right (safe p) _ a) (rw e at h)
]

pub srv_name-IsSafe : (rt : Runtime) (v : Value) → OnSome IsSafe (srv_name rt v)
unfolding srv_name all safe in_class plain lead any chars
srv_name-IsSafe rt v = when-OnSome IsSafe _ v (λ s h.
    any_prefix-IsSafe rt ("_ldap._tcp." ∷ "_kerberos._tcp." ∷ "_kerberos._udp." ∷ []) s refl h)

pub Leads-before : (n : ℕ) (l : List Char) → Leads (before n l) → Leads l
unfolding before
Leads-before n [] h = h
Leads-before n (c ∷ l) h = elim (Bool-cases (eqb (code c) n)) [
  | inl e ↦ absurd (rw e at h)
  | inr e ↦ (rw e at h)
]

-- A suffix kind, `:` and a host's name.
pub agreement-IsSafe :
    (rt : Runtime) (l : List Char)
    → contains Patterns.suffix_kinds (text (before b':' l)) ≡ true
    → is_fqdn rt (text (behind b':' l)) ≡ true
    → Leads l × Each (in_class plain) l
unfolding safe all in_class plain lead any chars
agreement-IsSafe rt l h k =
    let a =
      safe_chars_lem (chars (text (before b':' l)))
        (contains-all safe Patterns.suffix_kinds _ refl h) in
    let b : Leads (before b':' l) × Each (in_class plain) (before b':' l) =
      subst (λ t. Leads t × Each (in_class plain) t) (chars-text (before b':' l)) a in
    (
      Leads-before b':' l b.0,
      Each-partition (in_class plain) b':' l plain_colon b.1 (is_fqdn-Each rt (behind b':' l) k),
    )

pub agreement_subject-IsSafe : (rt : Runtime) (v : Value) → OnSome IsSafe (agreement_subject rt v)
unfolding agreement_subject
agreement_subject-IsSafe rt v =
    when-OnSome IsSafe _ v
      (λ s h. agreement-IsSafe rt (chars s) (and_right _ _ (and_left _ _ h)) (and_right _ _ h))

-- A character of a name that is no dash may lead.
pub name_lead :
    (n : ℕ) → in_class Patterns.name_class n ≡ true → eqb b'-' n ≡ false → in_class lead n ≡ true
unfolding in_class any lead
name_lead n h e = ground (arith, h, e)

pub request-Leads :
    (l : List Char)
    → matches l Patterns.request_id_re ≡ true
    → begins_with (chars "-") l ≡ false
    → Leads l
unfolding begins_with begins covers any all matches nullable chars
request-Leads [] h e = absurd (ground (arith, h))
request-Leads (c ∷ l) h e =
    name_lead (code c) (matches-begins Patterns.name_class c l Patterns.request_id_re refl h)
      (ground (arith, e))

pub no_dash :
    (l : List Char) (a : Bool)
    → (a && not (begins_with (chars "-") l)) ≡ true
    → begins_with (chars "-") l ≡ false
no_dash l a h = ground (arith, h)

pub request_id-IsSafe : (v : Value) → OnSome IsSafe (request_id v)
unfolding request_id over covers any all plain starts fullmatch
request_id-IsSafe v = when-OnSome IsSafe _ v (λ s h. (
  request-Leads (chars s) (and_left _ _ h) (no_dash (chars s) _ h),
  matches-over plain (chars s) Patterns.request_id_re refl (and_left _ _ h),
))
