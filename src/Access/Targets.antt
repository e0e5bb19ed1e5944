-- ===== src/Access/Targets.antt =====
-- ipa_diagnose/access/targets.py: the user, the host and the service that an administrator types. A
-- `TargetError` is the guard that raises it.
pub mod Accepted
pub mod Sid
use ipa_diagnose.Base.{
  ◌-◌, ℕ, String, ◌<>◌, Bool, true, false, ◌&&◌, ◌||◌, not, Option, none, some, List, [], ◌∷◌, ◌++◌,
  ◌==◌, eqb, ltb, if◌then◌else◌, contains, length, take, string_eq, map,
}
use ipa_diagnose.Base.Strings.{chars, text, before}
use ipa_diagnose.Resolution.Regex.{Class, Regex, empty, one, seq, upto, star}
use ipa_diagnose.Resolution.Patterns.{
  letter_or_digit, name_class, single, leading, repeated, optional, word,
}
use ipa_diagnose.Resolution.Text.{count, behind}
use ipa_diagnose.Resolution.Types.{fullmatch, size, ends, part_of}

-- `str.lower`, `str.upper`, and what `\d` matches.
pub record Runtime : Type 0 where
  pub lower : String → String
  pub upper : String → String
  pub digits : Class

pub data TargetError : Type 0 where
  bad_length bad_netbios bad_domain bad_user : TargetError
  no_host bad_host short_host : TargetError
  no_service principal_given bad_service : TargetError

pub data Parsed {ℓ} (A : Type ℓ) : Type ℓ where
  parsed : A → Parsed A
  failed : TargetError → Parsed A

infixl 5 ◌>>=◌ ◌>>◌
abbrev pub ◌>>=◌ {ℓ κ} : {A : Type ℓ} {B : Type κ} → Parsed A → (A → Parsed B) → Parsed B
parsed a >>= f = f a
failed e >>= f = failed e

abbrev pub ◌>>◌ {ℓ} : {B : Type ℓ} → Parsed (Unit {0}) → Parsed B → Parsed B
m >> k = m >>= λ _. k

-- `if bad: raise TargetError(...)`
abbrev pub refuse : Bool → TargetError → Parsed (Unit {0})
refuse true e = failed e
refuse false e = parsed tt

pub record Targets : Type 0 where
  pub user : String
  pub host : String
  pub service : String
  pub user_domain : Option String
  pub host_completed : Bool
  pub trusted_form : Option String

-- `_USER_RE`
abbrev pub user_re : Regex
user_re =
    seq (one (letter_or_digit ++ single b'_' ∷ single b'.' ∷ []))
      (seq (star (one name_class)) (optional (one (name_class ++ single b'$' ∷ []))))

-- `_LABEL`
abbrev pub label : Regex
label =
    seq (one letter_or_digit)
      (optional (seq (upto 61 (one (letter_or_digit ++ single b'-' ∷ []))) (one letter_or_digit)))

abbrev pub dot_label : Regex
dot_label = seq (one (single b'.' ∷ [])) label

abbrev pub host_re : Regex
host_re = seq label (star dot_label)

abbrev pub domain_re : Regex
domain_re = seq label (seq dot_label (star dot_label))

abbrev pub netbios_re : Regex
netbios_re = leading letter_or_digit 14 name_class

abbrev pub service_re : Regex
service_re = leading letter_or_digit 63 (name_class ++ single b'+' ∷ [])

-- `-\d{1,10}`
abbrev pub dash_number : Class → Regex
dash_number digits = seq (one (single b'-' ∷ [])) (repeated 10 digits)

-- `_SID_RE`: without regard to case, `S` is also the long s.
abbrev pub sid_re : Class → Regex
unfolding chars
sid_re digits = seq (one (single b'S' ∷ single b's' ∷ single 383 ∷ [])) (
    seq (word (chars "-1-5-21")) (
      seq (dash_number digits)
        (seq (dash_number digits) (seq (dash_number digits) (dash_number digits)))))

abbrev pub max_user : ℕ
max_user = 255

abbrev pub sid_domain : String
sid_domain = "(SID)"

-- `s.partition(c)`
abbrev pub head_part : ℕ → String → String
head_part c s = text (before c (chars s))

abbrev pub tail_part : ℕ → String → String
tail_part c s = text (behind c (chars s))

-- The name and the domain of an identity that is written with one.
unfoldable pub split_user : String → Parsed (String × Option String)
unfolding fullmatch chars before behind count
split_user raw =
    if not (eqb (count 92 (chars raw)) 0)
    then refuse (not (fullmatch netbios_re (head_part 92 raw))) bad_netbios
      >> parsed (tail_part 92 raw, some (head_part 92 raw))
    else if eqb (count b'@' (chars raw)) 1
    then refuse (not (fullmatch domain_re (tail_part b'@' raw))) bad_domain
      >> parsed (head_part b'@' raw, some (tail_part b'@' raw))
    else parsed (raw, none)

-- `{d.lower() for d in (ipa_domain, ipa_realm) if d}`
abbrev pub lowered_name : (String → String) → Option String → List String
lowered_name lower none = []
lowered_name lower (some d) = if d == "" then [] else lower d ∷ []

module _ (rt : Runtime) where
  -- A domain of IPA's own is no trusted one.
  abbrev pub foreign : List String → Option String → Option String
  foreign own none = none
  foreign own (some d) = if contains own (rt.lower d) then none else some d

  abbrev pub is_bad_user : String → Bool
  is_bad_user name = name == "" || not (fullmatch user_re name) || rt.lower name == "all"

  -- The checks of the name, with IPA's own domains taken off.
  abbrev pub named_user : List String → String × Option String → Parsed (String × Option String)
  named_user own s = refuse (is_bad_user s.0) bad_user >> parsed (s.0, foreign own s.1)

  -- A security identifier of a trusted domain, or a name.
  abbrev pub user_of : Bool → String → List String → Parsed (String × Option String)
  user_of true raw own = parsed (rt.upper raw, some sid_domain)
  user_of false raw own = split_user raw >>= named_user own

  unfoldable pub parse_user :
      String → (ipa_domain ipa_realm : Option String) → Parsed (String × Option String)
  unfolding fullmatch size split_user contains chars
  parse_user raw ipa_domain ipa_realm =
      refuse (raw == "" || ltb max_user (size raw)) bad_length
      >> user_of (fullmatch (sid_re rt.digits) raw) raw
          (lowered_name rt.lower ipa_domain ++ lowered_name rt.lower ipa_realm)

  -- `raw[:-1] if raw.endswith(".") else raw`
  abbrev pub no_dot : String → String
  no_dot raw = if ends "." raw then text (take (size raw - 1) (chars raw)) else raw

  -- A short name gets the IPA domain.
  abbrev pub completed : Bool → String → Option String → Parsed (String × Bool)
  completed true host domain = parsed (rt.lower host, false)
  completed false host none = failed short_host
  completed false host (some d) =
      if d == "" then failed short_host else parsed (rt.lower (host <> ("." <> d)), true)

  abbrev pub is_bad_host : String → Bool
  is_bad_host host = ltb 253 (size host) || not (fullmatch host_re host) || rt.lower host == "all"

  unfoldable pub parse_host : String → Option String → Parsed (String × Bool)
  unfolding fullmatch size ends part_of chars
  parse_host raw ipa_domain =
      refuse (raw == "") no_host
      >> (refuse (is_bad_host (no_dot raw)) bad_host
          >> completed (part_of "." (no_dot raw)) (no_dot raw) ipa_domain)

  unfoldable pub parse_service : String → Parsed String
  unfolding fullmatch part_of
  parse_service raw =
      refuse (raw == "") no_service
      >> (refuse (part_of "/" raw || part_of "@" raw) principal_given
          >> (refuse (not (fullmatch service_re raw) || rt.lower raw == "all") bad_service
              >> parsed raw))

  -- The identity as it was typed, where it is of a trusted domain.
  abbrev pub trusted : String → String → Option String → Option String
  trusted name typed none = none
  trusted name typed (some d) =
      if d == "" then none else some (if d == sid_domain then name else typed)

  unfoldable pub parse_targets :
      (user host service : String) → (ipa_domain ipa_realm : Option String) → Parsed Targets
  unfolding parse_user parse_host parse_service
  parse_targets user host service ipa_domain ipa_realm = do
    u ← parse_user user ipa_domain ipa_realm
    h ← parse_host host ipa_domain
    s ← parse_service service
    parsed (record {
      user = u.0;
      host = h.0;
      service = s;
      user_domain = u.1;
      host_completed = h.1;
      trusted_form = trusted u.0 user u.1;
    })
