-- ===== src/Planner/Subjects.antt =====
-- `_subjects` of ipa_diagnose/planner/core.py: the subjects of a template, validated, without
-- duplicates, sorted and cut to the instance budget.
pub mod Complete
pub mod Valid
use ipa_diagnose.Base.{
  ℕ, zero, suc, ◌+◌, String, Bool, true, false, not, Option, none, some, List, [], ◌∷◌, ◌++◌, map,
  ◌==◌, eqb, ltb, if◌then◌else◌, length, take, drop, is_some, string_eq,
}
use ipa_diagnose.Base.Dict.{Dict, get, put, has, keys}
use ipa_diagnose.Base.Strings.{sorted, str_lt}
use ipa_diagnose.Base.Value.{
  Value, null, boolean, str, array, dict, Items, nil, cons, Fields, end, get_field, put_field,
}
use ipa_diagnose.TextSafe.{sanitize_text}
use ipa_diagnose.TextSafe.Scan.{Unicode}
use ipa_diagnose.Planner.Types.{
  Outcome, pass, warn, skipped, Context, ForEach, EnumStatus, complete, partial, failed, not_asked,
  Reason, source_not_run, not_established, over_budget, invalid_names, not_whole, EnumRecord, Host,
}
use ipa_diagnose.Resolution.Types.{Answer, accepted, refused, value_error}
use ipa_diagnose.Planner.Validate.{Result, ok, raise, value_error_raised, ◌>>=◌}
use ipa_diagnose.Planner.Context.{rpartition, outcome, fact}

abbrev pub Subject : Type 0
Subject = String × Fields

-- `raw[:n]`
abbrev pub entries : ℕ → Items → List Value
entries zero xs = []
entries (suc n) nil = []
entries (suc n) (cons x xs) = x ∷ entries n xs

abbrev pub as_items : Value → Option Items
as_items (array xs) = some xs
as_items _ = none

-- `entry.get("subject") if isinstance(entry, dict) else entry`
abbrev pub key_value : Value → Value
key_value (dict fs) = elim (get_field fs "subject") [ some v ↦ v | none ↦ null ]
key_value v = v

abbrev pub item_of : Value → Fields
item_of (dict fs) = fs
item_of _ = end

abbrev pub rejected_name : Unicode → Value → String
rejected_name u (str s) = sanitize_text u s 120
rejected_name u _ = "(not a name)"

-- The subjects found so far, and the names that were rejected.
pub record Collected : Type 0 where
  pub good : Dict String Fields
  pub rejected : List String

module _ (u : Unicode) (validate : String → Value → Answer) (kind : String) where
  -- What becomes of an entry for whose name the validator has answered.
  abbrev pub collect_by : Answer → Value → Collected → Result Collected
  collect_by value_error entry c = raise value_error_raised
  collect_by refused entry c =
      ok (record c { rejected = c.rejected ++ rejected_name u (key_value entry) ∷ [] })
  collect_by (accepted valid) entry c = ok (
      if has c.good valid
      then c
      else record c { good = put c.good valid (put_field (item_of entry) "subject" (str valid)) })

  unfoldable pub collect : List Value → Collected → Result Collected
  collect [] c = ok c
  collect (entry ∷ rest) c = do
    c' ← collect_by (validate kind (key_value entry)) entry c
    collect rest c'

abbrev pub is_true : Value → Bool
is_true (boolean true) = true
is_true _ = false

abbrev pub or_end : Option Fields → Fields
or_end none = end
or_end (some f) = f

-- `[f"..."] if cond else []`
abbrev pub noted : Bool → Reason → List Reason
noted true r = r ∷ []
noted false r = []

-- The source did not establish that it read the whole list.
unfoldable pub not_read_whole : Context → Option String → Bool
not_read_whole c none = false
not_read_whole c (some ref) = not (is_true (fact c ref null))

abbrev pub is_empty {ℓ} : {A : Type ℓ} → List A → Bool
is_empty [] = true
is_empty (_ ∷ _) = false

abbrev pub no_subjects : ForEach → EnumStatus → Reason → List Subject × EnumRecord
no_subjects t status why = (
  [],
  record {
    source = t.source;
    status = status;
    subjects = [];
    dropped = [];
    rejected = [];
    reason = why ∷ [];
    budget = t.max_instances;
    unfinished = [];
  },
)

-- The names that are kept and those that are dropped, in order.
unfoldable pub ordered : Collected → List String
unfolding sorted keys
ordered c = sorted str_lt (keys c.good)

unfoldable pub reasons : Context → ForEach → Collected → List Reason
unfolding not_read_whole ordered
reasons c t found =
    let dropped = drop t.max_instances (ordered found) in
    noted (not (is_empty dropped)) (over_budget (length dropped) t.max_instances)
    ++ (noted (not (is_empty found.rejected)) (invalid_names (length found.rejected))
        ++ noted (not_read_whole c t.complete_fact) not_whole)

-- The subjects of a source that answered.
unfoldable pub chosen : Context → ForEach → Collected → List Subject × EnumRecord
unfolding reasons ordered
chosen c t found =
    let kept = take t.max_instances (ordered found) in
    let why = reasons c t found in
    (
      map (λ k. (k, or_end (get found.good k))) kept,
      record {
        source = t.source;
        status = if is_empty why then complete else partial;
        subjects = kept;
        dropped = drop t.max_instances (ordered found);
        rejected = found.rejected;
        reason = why;
        budget = t.max_instances;
        unfinished = [];
      },
    )

abbrev pub is_answered : Outcome → Bool
is_answered pass = true
is_answered warn = true
is_answered _ = false

-- The raw list, if the source's outcome is one that established it.
abbrev pub established_items : Outcome → Value → Option Items
established_items o raw = if is_answered o then as_items raw else none

module _ {W : Type 0} (u : Unicode) (host : Host W) (t : ForEach) (c : Context) where
  abbrev pub listed_subjects : Option Items → Result (List Subject × EnumRecord)
  listed_subjects none = ok (no_subjects t failed not_established)
  listed_subjects (some xs) = do
    found ←
        collect u host.validate t.subject_type (entries 1000 xs)
          (record { good = []; rejected = [] })
    ok (chosen c t found)

  abbrev pub subjects_by : Option Outcome → Result (List Subject × EnumRecord)
  subjects_by none = ok (no_subjects t not_asked source_not_run)
  subjects_by (some skipped) = ok (no_subjects t not_asked source_not_run)
  subjects_by (some o) = listed_subjects (established_items o (fact c t.source null))

  unfoldable pub subjects : Result (List Subject × EnumRecord)
  unfolding rpartition chosen collect
  subjects = subjects_by (outcome c (rpartition t.source).0)
