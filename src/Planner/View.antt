-- ===== src/Planner/View.antt =====
-- The views of a trace of ipa_diagnose/planner/core.py: `Trace.get` and `Trace.for_subject`.
use ipa_diagnose.Base.{
  String, ◌&&◌, Option, none, some, List, ◌==◌, find, filter, string_eq, option_eq,
}
use ipa_diagnose.Planner.Types.{Record, Trace}

-- `Trace.get`: the record of a step, or of a template's step for one subject.
unfoldable pub trace_get : Trace → String → Option String → Option Record
unfolding find
trace_get t step none = find (λ r. r.step_id == step) t.records
trace_get t step (some subject) =
    find (λ r. r.base_step == some step && r.subject == some subject) t.records

-- `Trace.for_subject`
unfoldable pub for_subject : Trace → String → List Record
unfolding filter
for_subject t subject = filter (λ r. r.subject == some subject) t.records
