-- ===== src/Verify/Baseline.antt =====
-- ipa_diagnose/verify.py: the saved report as it is read back, and what it says about itself. A saved
-- report is its JSON dict.
use ipa_diagnose.Base.{
  String, Bool, true, false, ◌&&◌, ◌||◌, not, Option, none, some, List, [], ◌∷◌, map, ◌==◌,
  if◌then◌else◌, filter, is_some, string_eq, eqb, length,
}
use ipa_diagnose.Base.Dict.{Dict, put, has}
use ipa_diagnose.Base.Strings.{chars}
use ipa_diagnose.Base.Value.{
  pos, negsuc, Value, null, boolean, number, str, array, dict, other, Items, nil, cons, Fields, end,
  field, get_field, put_field, value_eq,
}
use ipa_diagnose.TextSafe.{sanitize_text}
use ipa_diagnose.TextSafe.Scan.{Unicode, strip}
use ipa_diagnose.Diagnosis.Types.{PriorityBucket, DiagnosisReport}

abbrev pub or_null : Option Value → Value
or_null none = null
or_null (some v) = v

-- `d.get(k)`
unfoldable pub value_at : Fields → String → Value
unfolding get_field
value_at d k = or_null (get_field d k)

-- `v if isinstance(v, dict) else {}`
abbrev pub as_dict : Value → Fields
as_dict (dict fs) = fs
as_dict _ = end

-- `v if isinstance(v, list) else []`
abbrev pub as_list : Value → Items
as_list (array xs) = xs
as_list _ = nil

abbrev pub is_text : Value → Bool
is_text (str s) = true
is_text _ = false

abbrev pub is_list : Value → Bool
is_list (array xs) = true
is_list _ = false

-- `bool(v)`
abbrev pub truth : Value → Bool
truth null = false
truth (boolean b) = b
truth (number (pos n)) = not (eqb n 0)
truth (number (negsuc n)) = true
truth (str s) = not (s == "")
truth (array nil) = false
truth (array (cons x xs)) = true
truth (dict end) = false
truth (dict (field k v fs)) = true
truth (other s) = true

-- The text of an entry, `default` where there is none.
abbrev pub text_or : String → Value → String
text_or default (str s) = s
text_or default _ = default

-- The entries of a list that are dicts with a text as `diagnosis_id`, with it.
abbrev pub add_entry : Option (String × Fields) → List (String × Fields) → List (String × Fields)
add_entry none l = l
add_entry (some e) l = e ∷ l

abbrev pub named : Fields → Value → Option (String × Fields)
named d (str s) = some (s, d)
named d _ = none

abbrev pub entry : Value → Option (String × Fields)
entry (dict d) = named d (value_at d "diagnosis_id")
entry _ = none

unfoldable pub entries : Items → List (String × Fields)
unfolding value_at
entries nil = []
entries (cons v xs) = add_entry (entry v) (entries xs)

-- `if not isinstance(d.get(key), str): d[key] = ""`
unfoldable pub text_field : String → Fields → Fields
unfolding value_at put_field
text_field k d = if is_text (value_at d k) then d else put_field d k (str "")

abbrev pub shown_title : Unicode → String → Value → String
shown_title u shown (str t) = sanitize_text u t 160
shown_title u shown _ = shown

-- The id and the title of a saved diagnosis as they are shown.
unfoldable pub titled : Unicode → String → Fields → Fields
unfolding value_at put_field sanitize_text
titled u did d =
    let d1 = put_field d "diagnosis_id" (str (sanitize_text u did 160)) in
    put_field d1 "title" (str (shown_title u (sanitize_text u did 160) (value_at d1 "title")))

-- With texts for the other entries that are read.
unfoldable pub tidied : Unicode → String × Fields → Fields
unfolding text_field titled
tidied u (did, d) =
    text_field "status" (text_field "priority" (text_field "pack_id" (titled u did d)))

abbrev pub items_of : List Fields → Items
items_of [] = nil
items_of (d ∷ l) = cons (dict d) (items_of l)

-- `data.get("diagnoses", [])`
abbrev pub or_no_items : Option Value → Value
or_no_items none = array nil
or_no_items (some v) = v

unfoldable pub dated : Fields → Fields
unfolding value_at put_field
dated d =
    if is_text (value_at d "generated_at")
    then d
    else put_field d "generated_at" (str "an unknown time")

abbrev pub load_list : Unicode → Fields → Value → Option Fields
load_list u fs (array xs) =
    some (dated (put_field fs "diagnoses" (array (items_of (map (tidied u) (entries xs))))))
load_list u fs _ = none

-- `load_previous_report` for a file that was read and decoded: `none` is `None`, or the error of a
-- strict load.
unfoldable pub load_previous_report : Unicode → Value → Option Fields
unfolding get_field dated put_field entries tidied
load_previous_report u (dict fs) = load_list u fs (or_no_items (get_field fs "diagnoses"))
load_previous_report u _ = none

-- `v2 = previous.get("v2") if isinstance(previous.get("v2"), dict) else {}`
unfoldable pub second : Fields → Fields
unfolding value_at
second previous = as_dict (value_at previous "v2")

-- Why a saved report is no baseline, by the message.
pub data Detail : Type 0 where
  other_host : String → String → Detail
  -- the saved report and this run come from a replay or not
  other_mode : Bool → Bool → Detail
  data_missing no_host_named : Detail
  unknown_diagnosis healthcheck_gap pack_gap checks_crashed record_missing : Detail
  gone : Detail
  cannot_check : String → Detail
  changed_since : String → Detail
  -- whether the runner replays, and the checks with their results
  not_all_run all_pass not_all_pass : Bool → List (String × Option Bool) → Detail
  lower_priority : PriorityBucket → Detail
  not_confident still_shown diagnosis_missing : Detail

unfoldable pub fold_fixes : List (String × Fields) → Dict String Fields → Dict String Fields
unfolding put
fold_fixes [] out = out
fold_fixes ((did, f) ∷ l) out = fold_fixes l (put out did f)

-- `_baseline_fixes`
unfoldable pub baseline_fixes : Fields → Dict String Fields
unfolding second value_at fold_fixes entries
baseline_fixes previous =
    let base = as_dict (value_at (second previous) "verify_baseline") in
    fold_fixes (entries (as_list (value_at base "fixes"))) []

-- `not isinstance(base, dict) or base.get("schema") != 1 or not isinstance(base.get("fixes"), list)`
abbrev pub is_broken : Value → Bool
is_broken (dict base) =
    not (value_eq (value_at base "schema") (number (pos 1)))
    || not (is_list (value_at base "fixes"))
is_broken _ = true

-- `isinstance(v, str) and v.strip()`
abbrev pub names_host : Unicode → Value → Bool
names_host u (str s) = not (eqb (length (strip u.is_space (chars s))) 0)
names_host u _ = false

abbrev pub damage : Bool → Bool → Bool → Option Detail
damage true broken host = none
damage false true host = some data_missing
damage false false false = some no_host_named
damage false false true = none

-- `_baseline_damage`: the first flag is that of a report of the first version.
unfoldable pub baseline_damage : Unicode → Fields → Option Detail
unfolding value_at value_eq get_field second strip chars
baseline_damage u previous =
    damage
      (not (value_eq (value_at previous "report_schema_version") (number (pos 2)))
        && not (is_some (get_field previous "v2")))
      (is_broken (value_at (second previous) "verify_baseline"))
      (names_host u (value_at previous "hostname"))

abbrev pub is_nonempty : Option String → Bool
is_nonempty none = false
is_nonempty (some s) = not (s == "")

abbrev pub host_problem : Unicode → Value → String → Option Detail
host_problem u (str saved) current =
    if not (saved == "") && not (current == "") && not (saved == current)
    then some (other_host (sanitize_text u saved 80) (sanitize_text u current 80))
    else none
host_problem u _ current = none

abbrev pub mode_problem : Bool → Bool → Option Detail
mode_problem true true = none
mode_problem false false = none
mode_problem saved current = some (other_mode saved current)

-- `a or b`
abbrev pub or_else : Option Detail → Option Detail → Option Detail
or_else none b = b
or_else (some d) b = some d

-- `_baseline_problem`
unfoldable pub baseline_problem : Unicode → Fields → DiagnosisReport → Option Detail
unfolding value_at sanitize_text
baseline_problem u previous current =
    or_else (host_problem u (value_at previous "hostname") current.hostname)
      (mode_problem (truth (value_at previous "replay_source")) (is_nonempty current.replay_source))

abbrev pub is_offered : Fields → Bool
is_offered r = value_eq (value_at r "status") (str "OFFERED")

-- The ids of the fixes that were shown.
unfoldable pub offered : Fields → List String
unfolding second value_at value_eq filter entries
offered previous =
    map (λ e. e.0)
      (filter (λ e. is_offered e.1) (entries (as_list (value_at (second previous) "resolutions"))))

-- `_offered_without_record`
unfoldable pub offered_without_record : Fields → Dict String Fields → List String
unfolding offered filter has
offered_without_record previous fixes = filter (λ i. not (has fixes i)) (offered previous)
