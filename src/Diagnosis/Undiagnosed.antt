-- ===== src/Diagnosis/Undiagnosed.antt =====
-- `_undiagnosed_findings` and `_display_message` of ipa_diagnose/engine/correlate.py.
pub mod Listed
use package.text.Mathlib.Text.{find?}
use ipa_diagnose.Base.{
  ℕ, zero, suc, nat_eq, option_eq, ◌+◌, ◌-◌, String, Char, code, ◌<>◌, Bool, true, false, ◌&&◌,
  ◌||◌, not, Option, none, some, List, [], ◌∷◌, ◌++◌, map, ◌==◌, eqb, leb, ltb, if◌then◌else◌, any,
  all, contains, take, drop, length, filter, string_eq, is_some,
}
use ipa_diagnose.Base.Dict.{Dict, get, put}
use ipa_diagnose.Base.Strings.{chars, text, str_lt, sorted}
use ipa_diagnose.Base.Value.{
  Value, null, boolean, number, str, array, dict, other, pos, negsuc, Items, nil, Fields, end,
  field, get_field,
}
use ipa_diagnose.TextSafe.{sanitize_text}
use ipa_diagnose.Diagnosis.Types.{
  Diagnosis, EvidenceBundle, Finding, EvidenceRef, UndiagnosedFinding, success, severity_eq,
  severity_value, qualified_check, Surroundings,
}

-- The keys of a dict, at most `n` of them.
abbrev pub field_names : ℕ → Fields → List String
field_names n end = []
field_names n (field k v fs) = elim n [ zero ↦ [] | suc m ↦ k ∷ field_names m fs ]

abbrev pub joined : List String → String
joined [] = ""
joined (s ∷ []) = s
joined (s ∷ t ∷ l) = s <> (", " <> joined (t ∷ l))

-- `[A-Za-z_]` and `[A-Za-z0-9_]`
abbrev is_letter : Char → Bool
is_letter c =
    (leb b'A' (code c) && leb (code c) b'Z')
    || (leb b'a' (code c) && leb (code c) b'z')
    || eqb (code c) b'_'

abbrev is_word : Char → Bool
is_word c = is_letter c || (leb b'0' (code c) && leb (code c) b'9')

-- The characters up to the first that is none of a name.
unfoldable pub name_of : List Char → List Char
name_of [] = []
name_of (c ∷ r) = let rest = name_of r in if is_word c then c ∷ rest else []

abbrev is_closed : List Char → Bool
is_closed [] = false
is_closed (c ∷ r) = eqb (code c) b'}'

-- The name of the placeholder that starts behind an opening brace, if one does.
unfoldable pub placeholder : List Char → Option (List Char)
unfolding name_of
placeholder [] = none
placeholder (c ∷ r) =
    let name = name_of (c ∷ r) in
    if is_letter c && leb (length name) 41 && is_closed (drop (length name) (c ∷ r))
    then some name
    else none

abbrev or_same : Option String → List Char → List Char
or_same none name = "{" ∷ name ++ "}" ∷ []
or_same (some v) name = chars v

-- `_PLACEHOLDER_RE.sub(...)`: the number counts the characters of a placeholder still to drop.
unfoldable pub fill : Dict String String → ℕ → List Char → List Char
unfolding placeholder chars
fill values skip [] = []
fill values skip (c ∷ r) = elim skip [
  | suc k ↦ fill values k r
  | zero ↦ elim (if eqb (code c) b'{' then placeholder r else none) [
    | none ↦ c ∷ fill values zero r
    | some name ↦ or_same (get values (text name)) name ++ fill values (length name + 1) r
  ]
]

abbrev is_empty_value : Value → Bool
is_empty_value null = true
is_empty_value (boolean b) = not b
is_empty_value (number n) = elim n [ pos k ↦ eqb k 0 | negsuc _ ↦ false ]
is_empty_value (str s) = s == ""
is_empty_value (array xs) = elim xs [ nil ↦ true | _ ↦ false ]
is_empty_value (dict fs) = elim fs [ end ↦ true | _ ↦ false ]
is_empty_value (other s) = false

-- `bool(kw.get(k))`
abbrev is_set : Option Value → Bool
is_set none = false
is_set (some v) = not (is_empty_value v)

-- `is_check_crash` of ipa_diagnose/engine/unexplained.py
unfoldable pub is_check_crash : Finding → Bool
unfolding get_field
is_check_crash f =
    is_set (get_field f.keywords "exception") || is_set (get_field f.keywords "traceback")

unfoldable pub count_ids : List Finding → Dict String ℕ → Dict String ℕ
count_ids [] out = out
count_ids (f ∷ fs) out = count_ids fs (put out f.finding_id (or_zero (get out f.finding_id) + 1))
  where
    or_zero : Option ℕ → ℕ
    or_zero none = 0
    or_zero (some n) = n

-- The ids that diagnoses cite as evidence for them.
unfoldable pub cited_ids : List Diagnosis → List String
cited_ids [] = []
cited_ids (d ∷ ds) = map (λ r. r.evidence_id) d.evidence_for ++ cited_ids ds

-- A finding that is not a success, and that no diagnosis cites by an id of its own.
unfoldable pub is_undiagnosed : Dict String ℕ → List String → Finding → Bool
is_undiagnosed counts claimed f =
    not (f.severity == success)
    && not (contains claimed f.finding_id && get counts f.finding_id == some 1)

-- `{"CRITICAL": 4, "ERROR": 3, "UNKNOWN": 3, "WARNING": 1}.get(severity, 2)`
abbrev pub urgency : String → ℕ
urgency s =
    if s == "CRITICAL"
    then 4
    else if s == "ERROR" || s == "UNKNOWN"
    then 3
    else if s == "WARNING"
    then 1
    else 2

unfoldable pub undiagnosed_lt : UndiagnosedFinding → UndiagnosedFinding → Bool
undiagnosed_lt a b =
    ltb (urgency b.severity) (urgency a.severity)
    || (eqb (urgency b.severity) (urgency a.severity)
        && (str_lt a.source b.source || (a.source == b.source && str_lt a.check b.check)))

module _ (world : Surroundings) where
  -- `{str(k): sanitize_text(v, 80) for k, v in list(kw.items())[:64]}`
  unfoldable pub shown_values : ℕ → Fields → Dict String String → Dict String String
  unfolding sanitize_text
  shown_values n end out = out
  shown_values n (field k v fs) out = elim n [
    | zero ↦ out
    | suc m ↦ shown_values m fs (put out k (sanitize_text world.unicode (world.show_value v) 80))
  ]

  -- `_display_message`
  unfoldable pub display_message : Finding → String
  unfolding sanitize_text fill shown_values chars
  display_message f =
      let names = joined (map (λ k. sanitize_text world.unicode k 40) (field_names 8 f.keywords)) in
      let filled =
        if is_some (find? f.message "{")
        then text (fill (shown_values 64 f.keywords []) 0 (take 2000 (chars f.message)))
        else f.message in
      if f.message == ""
      then (if names == "" then "(no message)" else "(no message; fields: " <> (names <> ")"))
      else world.redact (sanitize_text world.unicode filled 300)

  -- The text of a key that is a text or a number (a Boolean is one) and is not the check's name.
  abbrev pub key_text : String → Option Value → Option String
  key_text check (some (str s)) =
      if s == check then none else some (sanitize_text world.unicode s 160)
  key_text check (some (number n)) =
      if world.show_value (number n) == check
      then none
      else some (sanitize_text world.unicode (world.show_value (number n)) 160)
  key_text check (some (boolean b)) =
      if world.show_value (boolean b) == check
      then none
      else some (sanitize_text world.unicode (world.show_value (boolean b)) 160)
  key_text check _ = none

  abbrev pub reason_of : Bool → Option String → String
  reason_of true known =
      "The check raised an exception instead of returning a result, so it says nothing about the system."
  reason_of false none =
      "ipa-diagnose has no rule for this check, and it is not in this build's catalog of upstream checks (possibly newer or custom)."
  reason_of false (some release) =
      "ipa-diagnose has no rule that explains this finding; it may or may not matter."

  abbrev pub version_text : Option String → Option String
  version_text none = none
  version_text (some v) = if v == "" then none else some (sanitize_text world.unicode v 40)

  unfoldable pub undiagnosed_entry : Option String → Finding → UndiagnosedFinding
  unfolding sanitize_text is_check_crash display_message get_field
  undiagnosed_entry version f =
      let known = get world.catalog (qualified_check f) in
      record {
        source = sanitize_text world.unicode f.source 120;
        check = sanitize_text world.unicode f.check 120;
        severity = severity_value f.severity;
        message = display_message f;
        reason = reason_of (is_check_crash f) known;
        crashed = is_check_crash f;
        check_known_since = known;
        ipa_healthcheck_version = version_text version;
        finding_id = sanitize_text world.unicode f.finding_id 120;
        key = key_text f.check (get_field f.keywords "key");
      }

  abbrev version_of : EvidenceBundle → Option String
  version_of b = elim b.environment [ none ↦ none | some e ↦ e.ipa_healthcheck_version ]

  -- `_undiagnosed_findings`
  unfoldable pub undiagnosed_findings : EvidenceBundle → List Diagnosis → List UndiagnosedFinding
  unfolding count_ids cited_ids is_undiagnosed undiagnosed_entry undiagnosed_lt sorted
  undiagnosed_findings b diagnoses = sorted undiagnosed_lt (
      map (undiagnosed_entry (version_of b))
        (filter (is_undiagnosed (count_ids b.findings []) (cited_ids diagnoses)) b.findings))
