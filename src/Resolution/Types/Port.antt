-- ===== src/Resolution/Types/Port.antt =====
-- `_ldap_port` of ipa_diagnose/resolution/types.py: the numbers that it accepts, and the texts on
-- which it raises `ValueError`.
use ipa_diagnose.Base.{
  ◌&◌, ◌≡◌, refl, sym, ap, ◌∙◌, subst, ◌↔◌, ◌⊎◌, arith, ℕ, ◌≤◌, String, Bool, true, false, ◌||◌,
  not, Option, none, some, inl, inr, ltb, All, string_eq, Bool-cases,
}
use ipa_diagnose.Base.Strings.{chars}
use ipa_diagnose.Base.Dict.{get, All-get}
use ipa_diagnose.Base.Value.{Value, null, boolean, number, str, array, dict, other}
use ipa_diagnose.Resolution.Types.{
  Runtime, Answer, accepted, refused, value_error, starts, size, port_text, is_digits, int_of,
  answered, in_port_range, ldap_port, ldap_port_text, validators, validate, call,
}

in_range_lem :
    (t s : String) (o : Option ℕ)
    → in_port_range t o ≡ accepted s
    → (n : ℕ) × (o ≡ some n) × (1 ≤ n) × (n ≤ 65535)
in_range_lem t s none h = absurd (ground (arith, h))
in_range_lem t s (some n) h = (n, refl, ground (arith, h), ground (arith, h))

-- The guards before `int()`.
abbrev guarded : Runtime → String → Bool
guarded rt t = not (is_digits rt.is_digit t) || ltb 5 (size t) || starts "0" t

-- What `int()` may be given: a text of one to five digits, in the sense of `isdigit`, no leading zero.
abbrev pub Passes : Runtime → String → Type 0
Passes rt t = (is_digits rt.is_digit t ≡ true) × (size t ≤ 5) × (starts "0" t ≡ false)

guards_pass :
    (d b : Bool) (n : ℕ) → (not d || ltb 5 n || b) ≡ false → (d ≡ true) × (n ≤ 5) × (b ≡ false)
guards_pass d b n h = (ground (arith, h), ground (arith, h), ground (arith, h))

passes_guards :
    (d b : Bool) (n : ℕ) → d ≡ true → n ≤ 5 → b ≡ false → (not d || ltb 5 n || b) ≡ false
passes_guards d b n h k e = ground (arith, h, k, e)

-- A text either is refused by the guards, or passes them and is given to `int()`.
text_cases :
    (rt : Runtime) (t : String)
    → (ldap_port_text rt (str t) ≡ refused)
      ⊎ (Passes rt t
          × (ldap_port_text rt (str t) ≡ in_port_range t (int_of rt.decimal (chars t) 0)))
text_cases rt t = elim (Bool-cases (guarded rt t)) [
  | inl e ↦ inl (rw e refl)
  | inr e ↦ inr (guards_pass (is_digits rt.is_digit t) (starts "0" t) (size t) e, rw e refl)
]

Passes-text :
    (rt : Runtime) (t : String)
    → Passes rt t
    → ldap_port_text rt (str t) ≡ in_port_range t (int_of rt.decimal (chars t) 0)
Passes-text rt t p =
    rw (passes_guards (is_digits rt.is_digit t) (starts "0" t) (size t) p.0 p.1 p.2) refl

abbrev pub Number : Runtime → String → Type 0
Number rt s = (n : ℕ) × (int_of rt.decimal (chars s) 0 ≡ some n) × (1 ≤ n) × (n ≤ 65535)

in_range_text : (t s : String) (o : Option ℕ) → in_port_range t o ≡ accepted s → t ≡ s
in_range_text t s none h = absurd (ground (arith, h))
in_range_text t s (some n) h = ground (arith, h)

text_accepted :
    (rt : Runtime) (v : Value) (s : String)
    → ldap_port_text rt v ≡ accepted s
    → (v ≡ str s) × (Passes rt s × Number rt s)
text_accepted rt (str t) s h = elim (text_cases rt t) [
  | inl e ↦ let p : refused ≡ accepted s = sym e ∙ h in absurd (ground (arith, p))
  | inr (p, e) ↦
      let k : in_port_range t (int_of rt.decimal (chars t) 0) ≡ accepted s = sym e ∙ h in
      let q : t ≡ s = in_range_text t s (int_of rt.decimal (chars t) 0) k in
      (ap str q, subst (λ x. Passes rt x × Number rt x) q (p, in_range_lem t s _ k))
]
text_accepted rt null s h = absurd (ground (arith, h))
text_accepted rt (boolean b) s h = absurd (ground (arith, h))
text_accepted rt (number m) s h = absurd (ground (arith, h))
text_accepted rt (array xs) s h = absurd (ground (arith, h))
text_accepted rt (dict fs) s h = absurd (ground (arith, h))
text_accepted rt (other t) s h = absurd (ground (arith, h))

in_range_error : (t : String) (o : Option ℕ) → in_port_range t o ≡ value_error → o ≡ none
in_range_error t none h = refl
in_range_error t (some n) h = absurd (ground (arith, h))

text_raises :
    (rt : Runtime) (v : Value)
    → ldap_port_text rt v ≡ value_error
    → (s : String) × (v ≡ str s) × (Passes rt s × (int_of rt.decimal (chars s) 0 ≡ none))
text_raises rt (str t) h = elim (text_cases rt t) [
  | inl e ↦ let p : refused ≡ value_error = sym e ∙ h in absurd (ground (arith, p))
  | inr (p, e) ↦ (t, refl, (p, in_range_error t (int_of rt.decimal (chars t) 0) (sym e ∙ h)))
]
text_raises rt null h = absurd (ground (arith, h))
text_raises rt (boolean b) h = absurd (ground (arith, h))
text_raises rt (number m) h = absurd (ground (arith, h))
text_raises rt (array xs) h = absurd (ground (arith, h))
text_raises rt (dict fs) h = absurd (ground (arith, h))
text_raises rt (other t) h = absurd (ground (arith, h))

number_accepted :
    (s : String) (o : Option ℕ)
    → (n : ℕ) × (o ≡ some n) × (1 ≤ n) × (n ≤ 65535)
    → in_port_range s o ≡ accepted s
number_accepted s o (n, e, lo, hi) = rw e (ground (arith, lo, hi))

-- An LDAP port is accepted exactly when it is an integer or a text of one to five digits without a
-- leading zero that `int()` reads as a number from 1 to 65535, and it is then that text.
pub ldap_port-accepted :
    (rt : Runtime) (v : Value) (s : String)
    → (ldap_port rt v ≡ accepted s) ↔ ((port_text v ≡ str s) × (Passes rt s × Number rt s))
unfolding ldap_port
ldap_port-accepted rt v s = (
  text_accepted rt (port_text v) s,
  λ (e, (p, k)).
      subst (λ w. ldap_port_text rt w ≡ accepted s) (sym e)
        (Passes-text rt s p ∙ number_accepted s (int_of rt.decimal (chars s) 0) k),
)

-- Some text reaches `int()` and is not read by it.
abbrev pub Raises : Runtime → Value → Type 0
Raises rt v =
    (s : String) × (port_text v ≡ str s) × (Passes rt s × (int_of rt.decimal (chars s) 0 ≡ none))

abbrev OnlyPort : String → (Value → Answer) → Type 0
OnlyPort kind f = (v : Value) → f v ≡ value_error → kind ≡ "ldap_port"

answered-OnlyPort :
    {kind : String} (f : Value → Option String) → OnlyPort kind (λ v. answered (f v))
answered-OnlyPort f v h = absurd (never_raises (f v) h)
  where
    never_raises : (o : Option String) → answered o ≡ value_error → ⊥
    never_raises none e = ground (arith, e)
    never_raises (some s) e = ground (arith, e)

validators-OnlyPort : (rt : Runtime) → All (λ e. OnlyPort e.0 e.1) (validators rt)
validators-OnlyPort rt =
    answered-OnlyPort _
    & answered-OnlyPort _
    & answered-OnlyPort _
    & answered-OnlyPort _
    & answered-OnlyPort _
    & answered-OnlyPort _
    & answered-OnlyPort _
    & answered-OnlyPort _
    & answered-OnlyPort _
    & answered-OnlyPort _
    & answered-OnlyPort _
    & answered-OnlyPort _
    & answered-OnlyPort _
    & answered-OnlyPort _
    & answered-OnlyPort _
    & answered-OnlyPort _
    & answered-OnlyPort _
    & answered-OnlyPort _
    & answered-OnlyPort _
    & answered-OnlyPort _
    & answered-OnlyPort _
    & (λ v e. refl)
    & answered-OnlyPort _
    & answered-OnlyPort _
    & answered-OnlyPort _
    & answered-OnlyPort _
    & tt

call-OnlyPort :
    (rt : Runtime) (kind : String) (v : Value) (o : Option (Value → Answer))
    → get (validators rt) kind ≡ o
    → call o v ≡ value_error
    → kind ≡ "ldap_port"
unfolding call
call-OnlyPort rt kind v none e h = absurd (ground (arith, h))
call-OnlyPort rt kind v (some f) e h =
    All-get OnlyPort (validators rt) kind f (validators-OnlyPort rt) e v h

validate-ldap_port : (rt : Runtime) (v : Value) → validate rt "ldap_port" v ≡ ldap_port rt v
unfolding validate get string_eq call
validate-ldap_port rt v = refl

Raises-iff : (rt : Runtime) (v : Value) → (ldap_port rt v ≡ value_error) ↔ Raises rt v
unfolding ldap_port
Raises-iff rt v = (
  text_raises rt (port_text v),
  λ (s, e, (p, n)).
      subst (λ w. ldap_port_text rt w ≡ value_error) (sym e)
        (Passes-text rt s p ∙ ap (in_port_range s) n),
)

-- `validate` raises `ValueError` exactly when it is asked for an `ldap_port`, and the value is an
-- integer or a text of one to five characters, all of which `str.isdigit` takes for digits, the first no
-- `0`, which `int()` does not read.
pub validate-Raises :
    (rt : Runtime) (kind : String) (v : Value)
    → (validate rt kind v ≡ value_error) ↔ ((kind ≡ "ldap_port") × Raises rt v)
unfolding validate
validate-Raises rt kind v = (
  λ h.
      let k = call-OnlyPort rt kind v (get (validators rt) kind) refl h in
      let p : ldap_port rt v ≡ value_error =
        sym (validate-ldap_port rt v) ∙ subst (λ x. validate rt x v ≡ value_error) k h in
      (k, (Raises-iff rt v).0 p),
  λ (k, r).
      subst (λ x. validate rt x v ≡ value_error) (sym k)
        (validate-ldap_port rt v ∙ (Raises-iff rt v).1 r),
)
