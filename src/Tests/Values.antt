-- ===== src/Tests/Values.antt =====
-- Runs of ipa_diagnose/resolution/types.py.
use ipa_diagnose.Base.{
  ◌≡◌, ◌≢◌, ◌==◌, ==_iff, false, ◌↔◌, refl, arith, ℕ, ◌&&◌, ◌||◌, ◌-◌, Char, code, String, none,
  some, List, [], ◌∷◌, leb, eqb, if◌then◌else◌, All, string_eq, ap, ◌∙◌, suc, length, true, any,
  all,
}
use ipa_diagnose.Base.Strings.{chars, text, chars-text, before}
use ipa_diagnose.Base.Value.{Value, str, array, cons, nil, number, pos}
use ipa_diagnose.Resolution.Text.{Each, behind}
use ipa_diagnose.Resolution.Regex.{in_class}
use ipa_diagnose.Resolution.Types.{
  Runtime, accepted, refused, value_error, validate, size, ipa_name, fqdn, abs_path, file_mode,
  ldap_port, port_text, host_principal,
}
use ipa_diagnose.Resolution.Types.Safe.{validate-IsSafe}
use ipa_diagnose.Resolution.Types.Safe.Plain.{IsSafe}
use ipa_diagnose.Resolution.Types.Stable.{low, LowersAscii, validate_again}
use ipa_diagnose.Resolution.Subjects.{subjects-IsSafe}
use ipa_diagnose.Planner.Types.{Host, ForEach, Context, pass, outcome_eq}
use ipa_diagnose.Planner.Subjects.{subjects}
use ipa_diagnose.Planner.Run.{blank_record}
use ipa_diagnose.Planner.Validate.{raise, value_error_raised}
use ipa_diagnose.Planner.Context.{outcome, fact}
use ipa_diagnose.Base.Dict.{get, has, put}
use ipa_diagnose.Tests.Text.{ascii}
use ipa_diagnose.Tests.Plans.{
  host as a_host, templates as each_server, named_context, service, spec,
}
use ipa_diagnose.Resolution.Types.Port.{Passes, Number, Raises, ldap_port-accepted, validate-Raises}

-- ASCII digits, the superscript two, and the Arabic three; `lower` knows the letters that are used.
abbrev small : Char → Char
small c =
    if eqb (code c) 65
    then "a"
    else if eqb (code c) 73
    then "i"
    else if eqb (code c) 80
    then "p"
    else c

abbrev map_small : List Char → List Char
map_small [] = []
map_small (c ∷ l) = small c ∷ map_small l

abbrev runtime : Runtime
unfolding chars
runtime = record {
  lower = λ s. text (map_small (chars s));
  is_digit = λ c. (leb 48 (code c) && leb (code c) 57) || eqb (code c) 178 || eqb (code c) 1635;
  decimal = λ c.
      if leb 48 (code c) && leb (code c) 57
      then some (code c - 48)
      else if eqb (code c) 1635
      then some 3
      else none;
  normpath = λ s. s;
}

text-chars : (s : String) → text (chars s) ≡ s
unfolding chars
text-chars String.[] = refl
text-chars (String.◌∷◌ c s) = ap (λ t. String.◌∷◌ c t) (text-chars s)

small_fixed : (c : Char) → in_class low (code c) ≡ true → small c ≡ c
unfolding in_class any
small_fixed c h = ground (arith, h)

map_small_fixed : (l : List Char) → Each (in_class low) l → map_small l ≡ l
map_small_fixed [] h = refl
map_small_fixed (c ∷ l) h = rw (small_fixed c h.0, map_small_fixed l h.1) refl

length-map_small : (l : List Char) → length (map_small l) ≡ length l
length-map_small [] = refl
length-map_small (c ∷ l) = ap (λ n. suc n) (length-map_small l)

runtime_lowers : LowersAscii runtime.lower
unfolding runtime size
runtime_lowers = (
  λ s h. ap text (map_small_fixed (chars s) h) ∙ text-chars s,
  λ s h. ap length (chars-text (map_small (chars s))) ∙ length-map_small (chars s),
)

lowered_name : validate runtime "fqdn" (str "IPA1.lab") ≡ accepted "ipa1.lab"
unfolding runtime validate string_eq fqdn
lowered_name = refl

option_refused : validate runtime "ipa_user" (str "-rf") ≡ refused
unfolding runtime validate string_eq ipa_name
option_refused = refl

traversal_refused : validate runtime "ipa_path" (str "/etc/ipa/../shadow") ≡ refused
unfolding runtime validate string_eq abs_path
traversal_refused = refl

mode_padded : validate runtime "file_mode" (str "640") ≡ accepted "0640"
unfolding runtime validate string_eq file_mode all
mode_padded = refl

principal_kept :
    validate runtime "host_principal" (str "host/ipa1.lab@LAB") ≡ accepted "host/ipa1.lab@LAB"
unfolding runtime validate string_eq host_principal before behind
principal_kept = refl

number_kept : validate runtime "ldap_port" (number (pos 389)) ≡ accepted "389"
unfolding runtime validate string_eq ldap_port all
number_kept = refl

-- The Arabic three is read as a port and stays as it is.
arabic_kept : validate runtime "ldap_port" (str "\u{663}") ≡ accepted "\u{663}"
unfolding runtime validate string_eq ldap_port all
arabic_kept = refl

differs : (a b : String) → (a == b) ≡ false → a ≢ b
differs a b e h = ground (arith, e, (==_iff a b).1 h)

fqdn_differs : ◌≢◌ {A = String} "fqdn" "ldap_port"
unfolding string_eq
fqdn_differs = differs "fqdn" "ldap_port" refl

validate-IsSafe_example : IsSafe "ipa1.lab"
validate-IsSafe_example =
    validate-IsSafe runtime "fqdn" (str "IPA1.lab") "ipa1.lab" fqdn_differs lowered_name

validate_again_example : validate runtime "fqdn" (str "ipa1.lab") ≡ accepted "ipa1.lab"
validate_again_example =
    validate_again runtime "fqdn" (str "IPA1.lab") "ipa1.lab" runtime_lowers lowered_name

ldap_port-accepted_example :
    (ldap_port runtime (number (pos 389)) ≡ accepted "389")
    ↔ ((port_text (number (pos 389)) ≡ str "389") × (Passes runtime "389" × Number runtime "389"))
ldap_port-accepted_example = ldap_port-accepted runtime (number (pos 389)) "389"

validate-Raises_example :
    (validate runtime "ldap_port" (str "²") ≡ value_error)
    ↔ ((◌≡◌ {A = String} "ldap_port" "ldap_port") × Raises runtime (str "²"))
validate-Raises_example = validate-Raises runtime "ldap_port" (str "²")

superscript_raises : validate runtime "ldap_port" (str "²") ≡ value_error
unfolding runtime validate string_eq ldap_port all
superscript_raises = refl

abbrev typed_host : Host ℕ
unfolding runtime
typed_host = record a_host { validate = λ kind v. validate runtime kind v }

typed_host_validates : (k : String) (v : Value) → typed_host.validate k v ≡ validate runtime k v
unfolding validate typed_host
typed_host_validates k v = refl

-- The template over the list with `ipa2.lab` and `-x`, of which the second is no host name.
abbrev each_host : ForEach
each_host = record each_server { subject_type = "fqdn" }

subjects-IsSafe_example : All IsSafe ("ipa2.lab" ∷ [])
unfolding subjects outcome get string_eq fact outcome_eq validate fqdn has put
subjects-IsSafe_example =
    subjects-IsSafe runtime ascii typed_host each_host named_context fqdn_differs
      typed_host_validates

-- A list of ports with the superscript two.
abbrev each_port : ForEach
each_port = record each_server { subject_type = "ldap_port" }

abbrev port_context : Context
port_context = record named_context {
  records =
      (
        "service",
        record (blank_record "service" service spec) {
          outcome = pass;
          facts = ("names", array (cons (str "²") nil)) ∷ [];
        },
      )
      ∷ [];
}

superscript_ends_run : subjects ascii typed_host each_port port_context ≡ raise value_error_raised
unfolding subjects outcome get string_eq fact outcome_eq validate ldap_port has put all
superscript_ends_run = refl
