-- ===== src/Access/Targets/Accepted.antt =====
-- What `parse_targets` of ipa_diagnose/access/targets.py accepts.
use ipa_diagnose.Base.{
  ◌≡◌, ◌⊎◌, refl, sym, ap, subst, inl, inr, arith, String, ◌<>◌, Bool, true, false, ◌||◌, not,
  Option, none, some, List, ◌==◌, ltb, string_eq, Bool-cases,
}
use ipa_diagnose.Resolution.Types.{fullmatch, size, part_of}
use ipa_diagnose.Resolution.Types.Safe.Plain.{IsSafe, tidy, regex-IsSafe}
use ipa_diagnose.Base.Strings.{chars}
use ipa_diagnose.Access.Targets.Sid.{IsSid, sid_re-IsSid}
use ipa_diagnose.Access.Targets.{
  Runtime, TargetError, short_host, no_service, principal_given, bad_service, Parsed, parsed,
  failed, ◌>>=◌, ◌>>◌, refuse, Targets, user_re, host_re, service_re, sid_domain, split_user,
  is_bad_user, named_user, user_of, parse_user, no_dot, completed, parse_host, parse_service,
  parse_targets,
}

refused-not :
    {B : Type 0} (b : Bool) (e : TargetError) (k : Parsed B) (a : B)
    → (refuse b e >> k) ≡ parsed a
    → (b ≡ false) × (k ≡ parsed a)
refused-not true e k a h = absurd (ground (arith, h))
refused-not false e k a h = (refl, h)

first_parsed :
    {A B : Type 0} (m : Parsed A) (f : A → Parsed B) (b : B)
    → (m >>= f) ≡ parsed b
    → (a : A) × (m ≡ parsed a) × (f a ≡ parsed b)
first_parsed (parsed a) f b h = (a, refl, h)
first_parsed (failed e) f b h = absurd (ground (arith, h))

parsed-injective : {A : Type 0} (a b : A) → parsed a ≡ parsed b → a ≡ b
parsed-injective a b h = ap (λ p. elim p [ parsed x ↦ x | failed e ↦ a ]) h

-- A name that is safe in a command line and is not `all`, which FreeIPA reads as "skip this side".
abbrev pub IsName : (String → String) → String → Type 0
IsName lower s = IsSafe s × ((lower s == "all") ≡ false)

not_first : (a b c : Bool) → (a || not b || c) ≡ false → (b ≡ true) × (c ≡ false)
not_first a b c h = (ground (arith, h), ground (arith, h))

not_either : (b c : Bool) → (not b || c) ≡ false → (b ≡ true) × (c ≡ false)
not_either b c h = (ground (arith, h), ground (arith, h))

user_re-IsSafe : (s : String) → fullmatch user_re s ≡ true → IsSafe s
unfolding tidy
user_re-IsSafe = regex-IsSafe user_re refl

service_re-IsSafe : (s : String) → fullmatch service_re s ≡ true → IsSafe s
unfolding tidy
service_re-IsSafe = regex-IsSafe service_re refl

named_user-IsName :
    (rt : Runtime) (own : List String) (s u : String × Option String)
    → named_user rt own s ≡ parsed u
    → IsName rt.lower u.0
named_user-IsName rt own s u h =
    let r = refused-not (is_bad_user rt s.0) _ _ u h in
    let g = not_first (s.0 == "") (fullmatch user_re s.0) (rt.lower s.0 == "all") r.0 in
    subst (IsName rt.lower) (ap (λ t. t.0) (parsed-injective _ u r.1)) (user_re-IsSafe s.0 g.0, g.1)

-- What an accepted user is: a security identifier as it was typed, in upper case, or a name.
abbrev pub IsUser : Runtime → String → String → Option String → Type 0
IsUser rt typed name domain =
    ((domain ≡ some sid_domain) × (name ≡ rt.upper typed) × IsSid rt.digits (chars typed))
    ⊎ IsName rt.lower name

user_of-IsUser :
    (rt : Runtime) (b : Bool) (raw : String) (own : List String) (u : String × Option String)
    → (b ≡ true → IsSid rt.digits (chars raw))
    → user_of rt b raw own ≡ parsed u
    → IsUser rt raw u.0 u.1
user_of-IsUser rt true raw own u sid h =
    let q = parsed-injective _ u h in inl (sym (ap (λ t. t.1) q), sym (ap (λ t. t.0) q), sid refl)
user_of-IsUser rt false raw own u sid h =
    let r = first_parsed (split_user raw) (named_user rt own) u h in
    inr (named_user-IsName rt own r.0 u r.2)

parse_user-IsUser :
    (rt : Runtime) (raw : String) (d r : Option String) (u : String × Option String)
    → parse_user rt raw d r ≡ parsed u
    → IsUser rt raw u.0 u.1
unfolding parse_user fullmatch
parse_user-IsUser rt raw d r u h =
    user_of-IsUser rt _ raw _ u (sid_re-IsSid rt.digits (chars raw)) (refused-not _ _ _ u h).1

parse_service-IsName :
    (rt : Runtime) (raw s : String) → parse_service rt raw ≡ parsed s → IsName rt.lower s
unfolding parse_service
parse_service-IsName rt raw s h =
    let bad = not (fullmatch service_re raw) || rt.lower raw == "all" in
    let last = refuse bad bad_service >> parsed raw in
    let next = refuse (part_of "/" raw || part_of "@" raw) principal_given >> last in
    let r1 = refused-not (raw == "") no_service next s h in
    let r2 = refused-not (part_of "/" raw || part_of "@" raw) principal_given last s r1.1 in
    let r3 = refused-not bad bad_service (parsed raw) s r2.1 in
    let g = not_either (fullmatch service_re raw) (rt.lower raw == "all") r3.0 in
    subst (IsName rt.lower) (parsed-injective raw s r3.1) (service_re-IsSafe raw g.0, g.1)

-- What an accepted host is: the host as typed, without a final dot, in lower case where it has a
-- dot; where it has none, it is followed by IPA's domain.
abbrev pub IsHost : Runtime → String → Option String → String → Bool → Type 0
IsHost rt typed domain h completed =
    (fullmatch host_re (no_dot rt typed) ≡ true)
    × ((rt.lower (no_dot rt typed) == "all") ≡ false)
    × (((part_of "." (no_dot rt typed) ≡ true)
          × (h ≡ rt.lower (no_dot rt typed))
          × (completed ≡ false))
        ⊎ ((part_of "." (no_dot rt typed) ≡ false)
            × (completed ≡ true)
            × ((d : String) × (domain ≡ some d)
                × ((d == "") ≡ false)
                × (h ≡ rt.lower (no_dot rt typed <> ("." <> d))))))

completed-cases :
    (rt : Runtime) (b : Bool) (w : String) (domain : Option String) (h : String × Bool)
    → completed rt b w domain ≡ parsed h
    → ((b ≡ true) × (h.0 ≡ rt.lower w) × (h.1 ≡ false))
      ⊎ ((b ≡ false)
          × (h.1 ≡ true)
          × ((d : String) × (domain ≡ some d)
              × ((d == "") ≡ false)
              × (h.0 ≡ rt.lower (w <> ("." <> d)))))
completed-cases rt true w domain h e =
    let q = parsed-injective _ h e in inl (refl, sym (ap (λ t. t.0) q), sym (ap (λ t. t.1) q))
completed-cases rt false w none h e = absurd (ground (arith, e))
completed-cases rt false w (some d) h e = elim (Bool-cases (d == "")) [
  | inl k ↦ let p : failed short_host ≡ parsed h = rw k at e in absurd (ground (arith, p))
  | inr k ↦
      let p : parsed (rt.lower (w <> ("." <> d)), true) ≡ parsed h = rw k at e in
      let q = parsed-injective _ h p in
      inr (refl, sym (ap (λ t. t.1) q), (d, refl, k, sym (ap (λ t. t.0) q)))
]

parse_host-IsHost :
    (rt : Runtime) (raw : String) (domain : Option String) (h : String × Bool)
    → parse_host rt raw domain ≡ parsed h
    → IsHost rt raw domain h.0 h.1
unfolding parse_host
parse_host-IsHost rt raw domain h e =
    let w = no_dot rt raw in
    let r1 = refused-not _ _ _ h e in
    let r2 = refused-not _ _ _ h r1.1 in
    let g = not_first (ltb 253 (size w)) (fullmatch host_re w) (rt.lower w == "all") r2.0 in
    (g.0, g.1, completed-cases rt _ w domain h r2.1)

-- What targets are accepted. The user is a name that is safe in a command line, or it is the upper
-- case of what was typed and that is a security identifier: `S-1-5-21` and four groups of a dash and
-- one to ten digits. The service is a name that is safe in a command line. The host is what was
-- typed less a final dot, which is a host name, in lower case, and followed by IPA's domain exactly
-- if it has no dot. Neither a user that is no such identifier, the service nor the host as typed is
-- `all`.
pub parse_targets-IsName :
    (rt : Runtime) (user host service : String) (domain realm : Option String) (t : Targets)
    → parse_targets rt user host service domain realm ≡ parsed t
    → IsUser rt user t.user t.user_domain
      × IsName rt.lower t.service
      × IsHost rt host domain t.host t.host_completed
unfolding parse_targets
parse_targets-IsName rt user host service domain realm t e =
    let u = first_parsed _ _ t e in
    let h = first_parsed _ _ t u.2 in
    let s = first_parsed _ _ t h.2 in
    let q = parsed-injective _ t s.2 in
    subst
      (λ x.
        IsUser rt user x.user x.user_domain
        × IsName rt.lower x.service
        × IsHost rt host domain x.host x.host_completed)
      q
      (
        parse_user-IsUser rt user domain realm u.0 u.1,
        parse_service-IsName rt service s.0 s.1,
        parse_host-IsHost rt host domain h.0 h.1,
      )
