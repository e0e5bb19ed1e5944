-- ===== src/Planner/Decide.antt =====
-- The decisions of `_Run.visit` in ipa_diagnose/planner/core.py, and its helpers `_safe_gate`,
-- `_resolve_params` and `_default_classify`.
use text.Mathlib.Text.{find?}
use ipa_diagnose.Base.{
  ℕ, ◌<>◌, String, Bool, true, false, ◌&&◌, ◌||◌, not, Option, none, some, List, [], ◌∷◌, ◌==◌,
  if◌then◌else◌, contains, filter, is_some, string_eq, starts_with,
}
use ipa_diagnose.Base.Dict.{Dict, put, has}
use ipa_diagnose.Base.Value.{Value, null, str, get_field}
use ipa_diagnose.TextSafe.{sanitize_text}
use ipa_diagnose.TextSafe.Scan.{Unicode}
use ipa_diagnose.Planner.Types.{
  Outcome, pass, unknown, outcome_eq, Req, Classified, Param, literal, reference, StopReason, said,
  SkipReason, blocked_for, not_applicable, not_needed, Status, ok, failed, not_run, denied,
  CheckResult, CheckSpec, Record, Context, Gate, Step, Host,
}
use ipa_diagnose.Planner.Context.{outcome, fact, input}

-- What stays the same during a run.
pub record Settings : Type 0 where
  pub registry : Dict String CheckSpec
  pub max_seconds : ℕ
  pub max_steps : ℕ
  pub start : ℕ
  pub is_root : Bool
  pub privilege_hint : String

-- The mutable attributes of `_Run`, and the world.
pub record RunState (W : Type 0) : Type 0 where
  pub world : W
  pub executed : ℕ
  pub stop_reason : Option StopReason
  pub cancelled : Bool

-- What `visit` leaves: the run, the record, and the reason to end the subject.
pub record Visited (W : Type 0) : Type 0 where
  pub run : RunState W
  pub rec : Record
  pub subject_stop : Option String
  -- A ValueError left `visit`: the caller does not go on.
  pub raised : Bool

abbrev pub unusable : String
unusable = "the evidence this decision needs has an unexpected type or value"

abbrev pub not_run_on_purpose : String
not_run_on_purpose = "not run on purpose:"

abbrev pub or_declined : Option (Bool × String) → Bool × String
or_declined none = (false, unusable)
or_declined (some answer) = answer

-- `_safe_gate`: a gate that raises does not run its step.
unfoldable pub safe_gate : Gate → Context → Bool × String
safe_gate gate c = or_declined (gate c)

-- `val in (None, "")`
abbrev pub is_missing : Value → Bool
is_missing null = true
is_missing (str s) = s == ""
is_missing _ = false

abbrev pub or_null : Option Value → Value
or_null none = null
or_null (some v) = v

abbrev pub look_up : Context → String → String → Value
look_up c source name =
    if source == "fact"
    then fact c name null
    else if source == "item"
    then or_null (get_field c.item name)
    else input c name null

abbrev pub Resolved : Type 0
Resolved = Dict String Value × Option SkipReason

-- `_resolve_params`: the arguments, or the skip reason for the first that has no value.
unfoldable pub resolve_params : Context → Dict String Param → Dict String Value → Resolved
resolve_params c [] out = (out, none)
resolve_params c ((k, literal v) ∷ ps) out = resolve_params c ps (put out k v)
resolve_params c ((k, reference source name) ∷ ps) out =
    let v = look_up c source name in
    let rest = resolve_params c ps (put out k v) in
    if is_missing v then (out, some (blocked_for k name)) else rest

-- The records of the context with `rec` under its own id.
abbrev pub store : Context → Record → Context
store c rec = record c { records = put c.records rec.step_id rec }

-- `outcome in accept`
abbrev pub accepts : List Outcome → Option Outcome → Bool
accepts l none = false
accepts l (some o) = contains l o

-- The first requirement that is not met.
unfoldable pub first_unmet : Context → List Req → Option Req
first_unmet c [] = none
first_unmet c (r ∷ rs) = if accepts r.accept (outcome c r.step) then first_unmet c rs else some r

abbrev pub title_of : Option Record → String → String
title_of (some r) step = r.title
title_of none step = step

-- What `applies` declines.
unfoldable pub check_applies : Option Gate → Context → Option SkipReason
unfolding safe_gate
check_applies none c = none
check_applies (some gate) c =
    let answer = safe_gate gate c in if answer.0 then none else some (not_applicable answer.1)

-- What `when` declines, and the reason that it gives either way.
unfoldable pub check_when : Option Gate → Context → Option SkipReason × Option String
unfolding safe_gate
check_when none c = (none, none)
check_when (some gate) c =
    let answer = safe_gate gate c in
    if answer.0
    then (none, some answer.1)
    else if starts_with answer.1 "the evidence this decision needs"
        || starts_with answer.1 not_run_on_purpose
    then (some (not_applicable answer.1), some answer.1)
    else (some (not_needed answer.1), some answer.1)

abbrev pub or_text : Option String → String → String
or_text none s = s
or_text (some t) s = t

-- `"timed out" in display`, of a check that did not run
abbrev pub is_not_run : Status → Bool
is_not_run not_run = true
is_not_run _ = false

unfoldable pub is_retryable : CheckResult → Bool
is_retryable r = is_not_run r.status && is_some (find? r.display "timed out")

abbrev pub joined : List String → String
joined [] = ""
joined (s ∷ []) = s
joined (s ∷ t ∷ l) = s <> (", " <> joined (t ∷ l))

abbrev pub is_ok : Status → Bool
is_ok ok = true
is_ok _ = false

abbrev pub what : Status → String
what denied = "not permitted"
what not_run = "could not run"
what failed = "failed"
what ok = "OK"

-- The fields that a successful result should carry and does not.
unfoldable pub missing_evidence : CheckSpec → CheckResult → List String
missing_evidence spec r = filter (λ f. is_ok r.status && not (has r.fields f)) spec.evidence

unfoldable pub default_classify : CheckResult → Context → Option Classified
default_classify r c =
    some (record {
      outcome = if is_ok r.status then pass else unknown;
      summary = r.display;
      facts = [];
    })

abbrev pub or_default :
    Option (CheckResult → Context → Option Classified) → CheckResult → Context → Option Classified
or_default none = default_classify
or_default (some f) = f

module _ (u : Unicode) where
  -- A classifier that raises leaves the answer uninterpreted.
  abbrev pub apply_class : Option Classified → Record → Record
  apply_class none rec = record rec {
    outcome = unknown;
    summary = "the evidence has an unexpected type or value and was not interpreted";
    facts = [];
  }
  apply_class (some k) rec = record rec {
    outcome = k.outcome;
    summary = sanitize_text u k.summary 400;
    facts = k.facts;
  }

  -- A check that did not answer is UNKNOWN, whatever it was about.
  abbrev pub unanswered : CheckResult → Record → Record
  unanswered r rec = record rec {
    outcome = unknown;
    summary = if r.display == "" then what r.status else what r.status <> (": " <> r.display);
  }

  -- A result that lacks some of the evidence that it promises is not interpreted.
  abbrev pub on_missing : List String → Step → CheckResult → Context → Record → Record
  on_missing (f ∷ fs) s r c rec = record rec {
    outcome = unknown;
    summary = "unexpected evidence shape (missing " <> (joined (f ∷ fs) <> ")");
  }
  on_missing [] s r c rec =
      if is_ok r.status
      then apply_class (or_default s.classify r (store c rec)) rec
      else unanswered r rec

  -- How the result of a check becomes the outcome of its record.
  unfoldable pub classify_result : Step → CheckSpec → CheckResult → Context → Record → Record
  unfolding default_classify missing_evidence
  classify_result s spec r c rec = on_missing (missing_evidence spec r) s r c rec

-- What a stop rule answers: the empty text and a caught exception stop nothing.
abbrev pub stop_answer : Option (Option String) → Option String
stop_answer (some (some t)) = if t == "" then none else some t
stop_answer _ = none

unfoldable pub apply_rule : Option (Context → Option (Option String)) → Context → Option String
apply_rule none c = none
apply_rule (some rule) c = stop_answer (rule c)

abbrev pub or_said : Option String → Option StopReason → Option StopReason
or_said none s = s
or_said (some t) s = some (said t)

abbrev pub source_of : {W : Type 0} → Host W → String
source_of host = if host.replay then "REPLAY" else "LIVE"
