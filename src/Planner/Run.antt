-- ===== src/Planner/Run.antt =====
-- `run_plan` of ipa_diagnose/planner/core.py: one ordered pass over the plan.
pub mod Induction
pub mod Stopped
pub mod Budget
pub mod Total
use ipa_diagnose.Base.{
  ℕ, zero, suc, ◌+◌, ◌-◌, ◌<>◌, String, Bool, true, false, ◌&&◌, ◌||◌, not, Option, none, some,
  List, [], ◌∷◌, ◌++◌, map, ◌==◌, eqb, leb, ltb, min, if◌then◌else◌, contains, filter, length,
  string_eq,
}
use ipa_diagnose.Base.Dict.{Dict, get, put}
use ipa_diagnose.Base.Value.{Value, end, Fields}
use ipa_diagnose.TextSafe.{sanitize_text}
use ipa_diagnose.TextSafe.Scan.{Unicode}
use ipa_diagnose.Planner.Types.{
  Outcome, skipped, StopReason, SkipReason, not_given, stopped, stopped_subject, not_needed_subject,
  SubjectStop, slice_used, rule, CheckSpec, Record, Context, Step, ForEach, PlanItem, step,
  for_each, EnumRecord, EnumStatus, partial, not_asked, Reason, run_stopped, not_finished, Trace,
  Host, hard_max_steps,
}
use ipa_diagnose.Planner.Context.{instance_id}
use ipa_diagnose.Planner.Decide.{Settings, RunState, Visited, store, source_of}
use ipa_diagnose.Planner.Visit.{visit}
use ipa_diagnose.Planner.Subjects.{Subject, subjects, no_subjects}
use ipa_diagnose.Planner.Validate.{
  PlanError, unknown_check, unless_raised, Result, ok, raise, ◌>>=◌, ◌>>◌, validate_plan,
  find_check,
}

abbrev pub blank_record : String → Step → CheckSpec → Record
blank_record id s spec = record {
  step_id = id;
  capability = s.capability;
  check = s.check;
  title = s.title;
  why = s.why;
  outcome = skipped;
  summary = "";
  selected_because = "";
  skip_reason = not_given;
  params = [];
  command = "";
  seconds = 0;
  collected_at = none;
  source = "";
  status = none;
  reused = false;
  side_effects = spec.side_effects;
  privilege = spec.privilege;
  facts = [];
  fields = [];
  attempts = 0;
  blocked_by = none;
  subject = none;
  template = none;
  base_step = none;
}

-- The mutable variables of `run_plan`.
pub record PlanState (W : Type 0) : Type 0 where
  pub run : RunState W
  pub ctx : Context
  pub records : List Record
  pub enumerations : Dict String EnumRecord

-- Those of the loop over one subject's steps.
pub record SubjectState (W : Type 0) : Type 0 where
  pub plan : PlanState W
  pub stop : Option SubjectStop
  pub unfinished : Bool

abbrev pub is_stopped : SkipReason → Bool
is_stopped (stopped _) = true
is_stopped (stopped_subject _) = true
is_stopped _ = false

module _ {W : Type 0} (u : Unicode) (host : Host W) (settings : Settings) where
  -- The finished record is appended, and stands in the context under its id.
  abbrev pub finish : PlanState W → RunState W → Record → PlanState W
  finish p run rec = record p { run = run; ctx = store p.ctx rec; records = p.records ++ rec ∷ [] }

  unfoldable pub visit_step : Step → CheckSpec → PlanState W → Result (PlanState W)
  visit_step s spec p =
      let rec = blank_record s.step_id s spec in
      let v = visit u host settings p.run s spec rec (store p.ctx rec) in
      unless_raised v.raised (finish p v.run v.rec)

  abbrev pub subject_record : ForEach → String → Step → CheckSpec → Record
  subject_record t subject s spec = record (blank_record (instance_id s.step_id subject) s spec) {
    subject = some subject;
    template = some t.template_id;
    base_step = some s.step_id;
  }

  -- `SubjectContext`: the run's records, with the template's own steps resolved to this subject.
  abbrev pub subject_view : Context → List String → Subject → Context
  subject_view c local subject = record c {
    subject = some subject.0;
    item = subject.1;
    local = local;
  }

  -- A text of which nothing is left once it is sanitised does not end the subject.
  abbrev pub or_rule : Option String → Option SubjectStop
  or_rule none = none
  or_rule (some why) =
      if sanitize_text u why 300 == "" then none else some (rule (sanitize_text u why 300))

  -- The step of a subject that was ended before: it is not run.
  abbrev pub ended : SubjectState W → SubjectStop → Record → SubjectState W
  ended st why rec = record st {
    plan = finish st.plan st.plan.run (record rec {
      skip_reason = if st.unfinished then stopped_subject why else not_needed_subject why;
    });
  }

  -- The step of a subject that goes on.
  abbrev pub visited :
      List String → Subject → Step → CheckSpec → SubjectState W → Record → Result (SubjectState W)
  visited local subject s spec st rec =
      let view = subject_view (store st.plan.ctx rec) local subject in
      let v = visit u host settings st.plan.run s spec rec view in
      unless_raised v.raised (record {
        plan = finish st.plan v.run v.rec;
        stop = or_rule v.subject_stop;
        unfinished = st.unfinished || is_stopped v.rec.skip_reason;
      })

  -- One step of one subject, by whether the subject was ended and whether it has a time slice, for
  -- which the clock is read.
  abbrev pub on_subject :
      List String
      → Subject
      → ℕ
      → Step
      → CheckSpec
      → Record
      → SubjectState W
      → Option ℕ
      → Option SubjectStop
      → Result (SubjectState W)
  on_subject local subject started s spec rec st slice (some why) = ok (ended st why rec)
  on_subject local subject started s spec rec st none none = visited local subject s spec st rec
  on_subject local subject started s spec rec st (some slice) none =
      let now = host.clock st.plan.run.world in
      let st1 = record st {
        plan = record st.plan { run = record st.plan.run { world = now.1 } };
      } in
      if ltb slice (now.0 - started)
      then ok (record {
        plan =
            finish st1.plan st1.plan.run
              (record rec { skip_reason = stopped_subject (slice_used slice) });
        stop = some (slice_used slice);
        unfinished = true;
      })
      else visited local subject s spec st1 rec

  unfoldable pub visit_instance :
      ForEach
      → List String
      → Subject
      → ℕ
      → Step
      → CheckSpec
      → SubjectState W
      → Result (SubjectState W)
  visit_instance t local subject started s spec st =
      on_subject local subject started s spec (subject_record t subject.0 s spec) st
        t.subject_seconds st.stop

  unfoldable pub visit_instances :
      ForEach → List String → Subject → ℕ → List Step → SubjectState W → Result (SubjectState W)
  unfolding visit_instance
  visit_instances t local subject started [] st = ok st
  visit_instances t local subject started (s ∷ ss) st = do
    spec ← find_check settings.registry s.check
    st' ← visit_instance t local subject started s spec st
    visit_instances t local subject started ss st'

  -- The loop over the subjects; the names of those that were not finished come back too.
  unfoldable pub visit_subjects :
      ForEach → List Subject → PlanState W → Result (PlanState W × List String)
  unfolding visit_instances
  visit_subjects t [] p = ok (p, [])
  visit_subjects t (subject ∷ rest) p = do
    let t0 = host.clock p.run.world
    let p1 = record p { run = record p.run { world = t0.1 } }
    st ←
        visit_instances t (map (λ s. s.step_id) t.steps) subject t0.0 t.steps
          (record { plan = p1; stop = none; unfinished = false })
    more ← visit_subjects t rest st.plan
    ok (more.0, if st.unfinished then subject.0 ∷ more.1 else more.1)

  -- A template whose subjects were not all investigated is PARTIAL.
  abbrev pub close : EnumRecord → List String → EnumRecord
  close e [] = e
  close e (x ∷ xs) = record e {
    status = partial;
    unfinished = x ∷ xs;
    reason = e.reason ++ not_finished (length (x ∷ xs)) ∷ [];
  }

  abbrev pub listed : ForEach → PlanState W → Result (List Subject × EnumRecord)
  listed t p = elim p.run.stop_reason [
    | some why ↦ ok (no_subjects t not_asked (run_stopped why))
    | none ↦ subjects u host t p.ctx
  ]

  unfoldable pub visit_item : PlanItem → PlanState W → Result (PlanState W)
  unfolding visit_step visit_subjects
  visit_item (step s) p = do spec ← find_check settings.registry s.check; visit_step s spec p
  visit_item (for_each t) p = do
    found ← listed t p
    done ← visit_subjects t found.0 p
    ok (record done.0 {
      enumerations = put done.0.enumerations t.template_id (close found.1 done.1);
    })

  unfoldable pub visit_items : List PlanItem → PlanState W → Result (PlanState W)
  unfolding visit_item
  visit_items [] p = ok p
  visit_items (i ∷ is) p = do p' ← visit_item i p; visit_items is p'

abbrev pub start_context : Dict String Value → Bool → Context
start_context inputs is_root = record {
  inputs = inputs;
  is_root = is_root;
  records = [];
  subject = none;
  item = end;
  local = [];
}

abbrev pub start_state : {W : Type 0} → W → Context → PlanState W
start_state w c = record {
  run = record { world = w; executed = 0; stop_reason = none; cancelled = false };
  ctx = c;
  records = [];
  enumerations = [];
}

module _ {W : Type 0} (u : Unicode) (host : Host W) where
  unfoldable pub run_plan :
      List PlanItem
      → Dict String Value
      → Bool
      → Dict String CheckSpec
      → ℕ
      → ℕ
      → String
      → W
      → Result (Trace × Context)
  unfolding visit_items validate_plan
  run_plan plan inputs is_root registry max_seconds max_steps privilege_hint w = do
    validate_plan plan registry host.subject_types
    let t0 = host.clock w
    let at = host.utc t0.1
    let settings : Settings = record {
      registry = registry;
      max_seconds = max_seconds;
      max_steps = min max_steps hard_max_steps;
      start = t0.0;
      is_root = is_root;
      privilege_hint = privilege_hint;
    }
    p ← visit_items u host settings plan (start_state at.1 (start_context inputs is_root))
    let t1 = host.clock p.run.world
    ok (
      record {
        records = p.records;
        stop_reason = p.run.stop_reason;
        started_at = at.0;
        seconds = t1.0 - t0.0;
        checks_run = host.runs p.run.world - host.runs at.1;
        checks_reused = length (filter (λ r. r.reused) p.records);
        cancelled = p.run.cancelled;
        enumerations = p.enumerations;
      },
      p.ctx,
    )
