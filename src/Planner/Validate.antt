-- ===== src/Planner/Validate.antt =====
-- `validate_plan` of ipa_diagnose/planner/core.py: the structural guarantees, checked before anything
-- runs.
use ipa_diagnose.Base.{
  ℕ, ◌+◌, ◌*◌, String, code, Bool, true, false, ◌&&◌, ◌||◌, not, Option, none, some, List, [], ◌∷◌,
  ◌++◌, map, ◌==◌, eqb, leb, ltb, max, if◌then◌else◌, length, any, all, contains, is_some,
  string_eq,
}
use ipa_diagnose.Base.Dict.{Dict, get, put, has, keys, values}
use ipa_diagnose.Base.Strings.{chars}
use ipa_diagnose.Planner.Types.{
  Param, literal, reference, CheckSpec, Step, ForEach, PlanItem, step, for_each, max_steps_default,
  max_depth, max_fanout, max_retries, max_instances_bound, hard_max_steps,
}
use ipa_diagnose.Planner.Context.{rpartition}
pub use ipa_diagnose.Planner.Errors.{
  PlanError, Result, ok, raise, reserved_id, wrong_params, later_dependency, template_dependency,
  bad_reference, later_reference, too_many_retries, needs_root_undeclared, stops_the_run,
  template_retries, stray_stop_subject, too_many_steps, too_large, bad_template_id, bad_budget,
  unknown_subject_type, bad_source, empty_template, duplicate_step, unknown_check, too_much_fanout,
  too_deep, key_error, value_error_raised, ◌>>=◌, ◌>>◌, OnOk, OnOk-bind, OnOk-any, OnOk-mono,
  Yields, Ends, Ends-bind, Ends-OnOk, Yields-Ends, Ends-mono, unless_raised, OnOk-unless_raised,
  Yields-bind, Yields-mono, Yields-OnOk, Yields-ok, bind-first, refuse, each,
}

abbrev pub Seen : Type 0
Seen = Dict String PlanItem

abbrev pub Local : Type 0
Local = Dict String Step

abbrev pub Fanout : Type 0
Fanout = Dict String ℕ

unfoldable pub deps : Step → List String
deps s = map (λ r. r.step) s.requires ++ s.after

-- `"@" in s`
unfoldable pub has_at : String → Bool
unfolding any chars
has_at s = any (λ c. eqb (code c) 64) (chars s)

abbrev pub is_template : Option PlanItem → Bool
is_template (some (for_each t)) = true
is_template _ = false

abbrev pub is_step : Option PlanItem → Bool
is_step (some (step s)) = true
is_step _ = false

abbrev pub or_zero : Option ℕ → ℕ
or_zero none = 0
or_zero (some n) = n

-- `set(a) == set(b)`
unfoldable pub same_set : List String → List String → Bool
same_set a b = all (contains b) a && all (contains a) b

unfoldable pub check_deps : Seen → Local → List String → Fanout → Result Fanout
check_deps seen local [] fanout = ok fanout
check_deps seen local (d ∷ ds) fanout = do
  refuse (not (has seen d) && not (has local d)) later_dependency
  refuse (is_template (get seen d)) template_dependency
  check_deps seen local ds (put fanout d (or_zero (get fanout d) + 1))

unfoldable pub check_param : Seen → Local → Bool → Param → Result (Unit {0})
unfolding rpartition
check_param seen local in_template (literal v) = ok tt
check_param seen local in_template (reference source name) = do
  refuse (not (source == "fact" || source == "input" || (in_template && source == "item")))
      bad_reference
  refuse
      (source == "fact"
        && not (has seen (rpartition name).0)
        && not (has local (rpartition name).0))
      later_reference

unfoldable pub check_kind : Bool → Step → Result (Unit {0})
check_kind true s = do
  refuse (is_some s.stop) stops_the_run
  refuse (ltb 0 s.retries) template_retries
check_kind false s = refuse (is_some s.stop_subject) stray_stop_subject

unfoldable pub validate_step : Step → CheckSpec → Seen → Local → Fanout → Bool → Result Fanout
unfolding has_at deps same_set check_deps check_param check_kind
validate_step s spec seen local fanout in_template = do
  refuse (has_at s.step_id || s.step_id == "") reserved_id
  refuse (not (same_set (keys s.params) spec.params)) wrong_params
  fanout' ← check_deps seen local (deps s) fanout
  each (check_param seen local in_template) (values s.params)
  refuse (ltb max_retries s.retries) too_many_retries
  refuse (spec.privilege == "root" && not s.needs_root) needs_root_undeclared
  check_kind in_template s
  ok fanout'

unfoldable pub find_check : Dict String CheckSpec → String → Result CheckSpec
find_check registry check = elim (get registry check) [
  | some spec ↦ ok spec
  | none ↦ raise unknown_check
]

-- A step of a template that was declared before names `s`.
unfoldable pub in_templates : Seen → String → Bool
in_templates seen s =
    any (λ i. elim i [ for_each t ↦ contains (map (λ x. x.step_id) t.steps) s | step _ ↦ false ])
      (values seen)

-- Subjects come from an earlier plan step.
unfoldable pub check_source : Seen → Option String → Result (Unit {0})
unfolding rpartition in_templates
check_source seen none = ok tt
check_source seen (some ref) =
    let src = (rpartition ref).0 in
    refuse (not (has seen src) || not (is_step (get seen src)) || in_templates seen src) bad_source

module _ (registry : Dict String CheckSpec) (subject_types : List String) where
  unfoldable pub validate_template_steps :
      Seen → List Step → Local → Fanout → Result (Local × Fanout)
  unfolding find_check validate_step
  validate_template_steps seen [] local fanout = ok (local, fanout)
  validate_template_steps seen (s ∷ ss) local fanout = do
    refuse (has seen s.step_id || has local s.step_id) duplicate_step
    spec ← find_check registry s.check
    fanout' ← validate_step s spec seen local fanout true
    validate_template_steps seen ss (put local s.step_id s) fanout'

  abbrev pub declare : Local → Seen → Seen
  declare [] seen = seen
  declare ((sid, s) ∷ local) seen = declare local (put seen sid (step s))

  -- The guards of a template, before its steps are looked at.
  unfoldable pub check_template : Seen → ForEach → Result (Unit {0})
  unfolding check_source has_at
  check_template seen t = do
    refuse (has seen t.template_id || has_at t.template_id || t.template_id == "") bad_template_id
    refuse (not (leb 1 t.max_instances && leb t.max_instances max_instances_bound)) bad_budget
    refuse (not (contains subject_types t.subject_type)) unknown_subject_type
    check_source seen (some t.source)
    check_source seen t.complete_fact
    refuse (eqb (length t.steps) 0) empty_template

  unfoldable pub validate_item : PlanItem → Seen → Fanout → Result (Seen × Fanout)
  unfolding validate_template_steps check_template validate_step find_check
  validate_item (for_each t) seen fanout = do
    check_template seen t
    found ← validate_template_steps seen t.steps [] fanout
    ok (put (declare found.0 seen) t.template_id (for_each t), found.1)
  validate_item (step s) seen fanout = do
    refuse (has seen s.step_id) duplicate_step
    spec ← find_check registry s.check
    fanout' ← validate_step s spec seen [] fanout false
    ok (put seen s.step_id (step s), fanout')

  unfoldable pub validate_items : List PlanItem → Seen → Fanout → Result (Seen × Fanout)
  unfolding validate_item
  validate_items [] seen fanout = ok (seen, fanout)
  validate_items (i ∷ is) seen fanout = do
    next ← validate_item i seen fanout
    validate_items is next.0 next.1

abbrev pub maximum : List ℕ → ℕ → ℕ
maximum [] n = n
maximum (x ∷ xs) n = maximum xs (max x n)

-- `local[d] if d in local else depth.get(d, 0)`
abbrev pub local_depth : Dict String ℕ → Dict String ℕ → String → ℕ
local_depth depth local d = elim (get local d) [ some n ↦ n | none ↦ or_zero (get depth d) ]

-- The depth of the steps of a template, over `base`.
unfoldable pub template_depth : Dict String ℕ → ℕ → List Step → Dict String ℕ → Dict String ℕ
unfolding deps
template_depth depth base [] local = local
template_depth depth base (s ∷ ss) local =
    template_depth depth base ss
      (put local s.step_id (1 + maximum (map (local_depth depth local) (deps s)) base))

-- `depth[d] for d in ...`, a KeyError for a step that is not there
unfoldable pub depths : Dict String ℕ → List String → Result (List ℕ)
depths depth [] = ok []
depths depth (d ∷ ds) = elim (get depth d) [
  | none ↦ raise key_error
  | some n ↦ (depths depth ds >>= λ ns. ok (n ∷ ns))
]

unfoldable pub depth_of : List PlanItem → Dict String ℕ → Result ℕ
unfolding template_depth depths deps rpartition
depth_of [] depth = ok (maximum (values depth) 0)
depth_of (for_each t ∷ is) depth =
    let base = or_zero (get depth (rpartition t.source).0) in
    let local = template_depth depth base t.steps [] in
    depth_of is
      (put depth t.template_id (if eqb (length local) 0 then base else maximum (values local) 0))
depth_of (step s ∷ is) depth =
    depths depth (deps s) >>= λ ns. depth_of is (put depth s.step_id (1 + maximum ns 0))

unfoldable pub declared : List PlanItem → ℕ
declared [] = 0
declared (for_each t ∷ is) = length t.steps + declared is
declared (step s ∷ is) = 1 + declared is

unfoldable pub expanded : List PlanItem → ℕ
expanded [] = 0
expanded (for_each t ∷ is) = length t.steps * t.max_instances + expanded is
expanded (step s ∷ is) = 1 + expanded is

-- The two bounds on the number of steps.
unfoldable pub check_size : List PlanItem → Result (Unit {0})
unfolding declared expanded
check_size plan = do
  refuse (ltb max_steps_default (declared plan)) too_many_steps
  refuse (ltb hard_max_steps (expanded plan)) too_large

unfoldable pub validate_plan :
    List PlanItem → Dict String CheckSpec → List String → Result (Unit {0})
unfolding validate_items depth_of check_size
validate_plan plan registry subject_types = do
  check_size plan
  end ← validate_items registry subject_types plan [] []
  refuse (ltb max_fanout (maximum (values end.1) 0)) too_much_fanout
  depth ← depth_of plan []
  refuse (ltb max_depth depth) too_deep
