-- ===== src/Planner/Context.antt =====
-- `Context` and `SubjectContext` of ipa_diagnose/planner/core.py.
pub mod Isolation
use ipa_diagnose.Base.{
  ◌<>◌, String, Char, code, Bool, true, false, not, Option, none, some, List, [], ◌∷◌, ◌==◌, eqb,
  if◌then◌else◌, contains, string_eq,
}
use ipa_diagnose.Base.Dict.{get}
use ipa_diagnose.Base.Strings.{chars, text}
use ipa_diagnose.Base.Value.{Value, null}
use ipa_diagnose.Planner.Types.{Outcome, skipped, outcome_eq, Record, Context}

-- The text before and behind the last dot, if there is a dot.
unfoldable pub at_last_dot : List Char → Option (List Char × List Char)
at_last_dot [] = none
at_last_dot (c ∷ r) = elim (at_last_dot r) [
  | some (a, b) ↦ some (c ∷ a, b)
  | none ↦ if eqb (code c) 46 then some ([], r) else none
]

-- `ref.rpartition(".")` without its middle part
unfoldable pub rpartition : String → String × String
unfolding at_last_dot chars
rpartition s = elim (at_last_dot (chars s)) [ some (a, b) ↦ (text a, text b) | none ↦ ("", s) ]

abbrev pub instance_id : String → String → String
instance_id step_id subject = step_id <> ("@" <> subject)

-- `_key`
unfoldable pub key_of : Context → String → String
key_of c step_id = elim c.subject [
  | none ↦ step_id
  | some subject ↦ if contains c.local step_id then instance_id step_id subject else step_id
]

unfoldable pub record_of : Context → String → Option Record
unfolding key_of
record_of c step_id = get c.records (key_of c step_id)

unfoldable pub outcome : Context → String → Option Outcome
unfolding record_of
outcome c step_id = elim (record_of c step_id) [ some r ↦ some r.outcome | none ↦ none ]

unfoldable pub ran : Context → String → Bool
unfolding record_of
ran c step_id = elim (record_of c step_id) [ some r ↦ not (r.outcome == skipped) | none ↦ false ]

-- `default` is what a missing value reads as.
unfoldable pub fact_in : Option Record → String → Value → Value
fact_in none name default = default
fact_in (some r) name default = if r.outcome == skipped then default else elim (get r.facts name) [
  | some v ↦ v
  | none ↦ elim (get r.fields name) [ some v ↦ v | none ↦ default ]
]

unfoldable pub fact : Context → String → Value → Value
unfolding rpartition record_of fact_in
fact c ref default = fact_in (record_of c (rpartition ref).0) (rpartition ref).1 default

unfoldable pub input : Context → String → Value → Value
input c name default = elim (get c.inputs name) [ some v ↦ v | none ↦ default ]
