-- ===== src/Tests/Plans.antt =====
-- Runs of ipa_diagnose/planner/core.py.
use ipa_diagnose.Base.{
  ℕ, ◌+◌, ◌≤◌, ◌≡◌, ◌≢◌, refl, String, false, none, some, List, [], ◌∷◌, arith, all, contains,
  string_eq, min,
}
use ipa_diagnose.Base.Dict.{Dict, get, put, has, keys, values}
use ipa_diagnose.Base.Value.{Value, put_field, array, cons, nil, null, str, end}
use ipa_diagnose.Planner.Types.{
  pass, skipped, outcome_eq, ok, CheckSpec, Context, Step, ForEach, PlanItem, step, Host, result,
  said, hard_max_steps,
}
use ipa_diagnose.Planner.Context.{rpartition, fact, outcome}
use ipa_diagnose.Planner.Context.Isolation.{view_isolated}
use ipa_diagnose.Planner.Validate.{find_check, Result, validate_plan, Yields, Ends}
use ipa_diagnose.Planner.Decide.{Settings, RunState}
use ipa_diagnose.Planner.Visit.{visit}
use ipa_diagnose.Planner.Visit.Gates.{IsCleared, visit-IsCleared}
use ipa_diagnose.Planner.Visit.Trust.{IsTrusted, visit-IsTrusted}
use ipa_diagnose.Resolution.Types.{Answer, accepted as valid, refused}
use ipa_diagnose.Planner.Subjects.{Subject, subjects}
use ipa_diagnose.Planner.Subjects.Complete.{Covers, subjects-complete}
use ipa_diagnose.Planner.Run.{
  PlanState, blank_record, start_context, start_state, run_plan, visit_items,
}
use ipa_diagnose.Planner.Run.Total.{IsHosts, run_plan-total}
use ipa_diagnose.Planner.Run.Budget.{runs_of, run_plan-IsWithin}
use ipa_diagnose.Planner.Run.Stopped.{OnlySkips, items_stopped}
use ipa_diagnose.Tests.Text.{ascii}

-- A host whose checks all answer OK; its world counts them.
abbrev pub host : Host ℕ
host = record {
  run = λ n check params retry. (
    result (record {
      params = [];
      status = ok;
      fields = ("state", str "up") ∷ [];
      display = "up";
      command = "systemctl";
    }),
    n + 1,
  );
  runs = λ n. n;
  replay = false;
  clock = λ n. (0, n);
  utc = λ n. ("2024-01-01T00:00:00Z", n);
  validate = λ kind v. refused;
  subject_types = "server" ∷ [];
}

abbrev pub spec : CheckSpec
spec = record { params = []; privilege = "user"; side_effects = "none"; evidence = "state" ∷ [] }

abbrev pub service : Step
service = record {
  step_id = "service";
  capability = "services";
  check = "systemd.state";
  title = "The service";
  why = "it must run";
  params = [];
  requires = [];
  after = [];
  when = none;
  classify = none;
  stop = none;
  needs_root = false;
  applies = none;
  retries = 0;
  stop_subject = none;
}

abbrev port : Step
port = record service {
  step_id = "port";
  requires = record { step = "service"; accept = pass ∷ [] } ∷ [];
}

abbrev plan : List PlanItem
plan = step service ∷ step port ∷ []

abbrev registry : Dict String CheckSpec
registry = ("systemd.state", spec) ∷ []

accepted : validate_plan plan registry ("server" ∷ []) ≡ Result.ok tt
unfolding validate_plan has string_eq all keys values put
accepted = refl

run_plan-total_example :
    Ends
      (IsHosts host)
      (λ _. Unit)
      (run_plan ascii host plan [] false registry 60 1 "run as root" 0)
run_plan-total_example =
    run_plan-total ascii host plan [] false registry 60 1 "run as root" 0 accepted

run_plan-IsWithin_example :
    Ends
      (IsHosts host)
      (λ r. runs_of r.0.records ≤ min 1 hard_max_steps)
      (run_plan ascii host plan [] false registry 60 1 "run as root" 0)
run_plan-IsWithin_example =
    run_plan-IsWithin ascii host plan [] false registry 60 1 "run as root" 0 accepted

abbrev settings : Settings
settings = record {
  registry = registry;
  max_seconds = 60;
  max_steps = 48;
  start = 0;
  is_root = false;
  privilege_hint = "run as root";
}

abbrev begun : RunState ℕ
begun = record { world = 0; executed = 0; stop_reason = none; cancelled = false }

abbrev context : Context
context = start_context [] false

visit-IsTrusted_example :
    IsTrusted spec
      (visit ascii host settings begun service spec
        (blank_record "service" service spec)
        context).rec
visit-IsTrusted_example =
    visit-IsTrusted ascii host settings begun service spec (blank_record "service" service spec)
      context refl

-- The visit of `service` as the first step.
ran :
    (visit ascii host settings begun service spec
      (blank_record "service" service spec)
      context).rec.outcome
    ≢ skipped
unfolding visit
ran e = ground (arith, e)

visit-IsCleared_example : IsCleared settings begun service context
visit-IsCleared_example =
    visit-IsCleared ascii host settings begun service spec (blank_record "service" service spec)
      context refl ran

abbrev ended : PlanState ℕ
ended = record (start_state 0 context) { run = record begun { stop_reason = some (said "done") } }

items_stopped_example :
    Yields (OnlySkips (said "done") ended) (visit_items ascii host settings plan ended)
unfolding get find_check string_eq
items_stopped_example =
    items_stopped ascii host settings (said "done") plan ended (tt, (tt, tt)) refl

abbrev pub templates : ForEach
templates = record {
  template_id = "each";
  source = "service.names";
  subject_type = "server";
  steps = service ∷ [];
  max_instances = 1;
  title = "Each";
  complete_fact = none;
  subject_seconds = none;
}

-- The step has listed two servers.
abbrev pub named_context : Context
named_context = record context {
  records =
      (
        "service",
        record (blank_record "service" service spec) {
          outcome = pass;
          facts = ("names", array (cons (str "ipa2.lab") (cons (str "-x") nil))) ∷ [];
        },
      )
      ∷ [];
}

abbrev roomy : ForEach
roomy = record templates { max_instances = 2 }

-- It takes every text for a valid name.
abbrev any_text : Value → Answer
any_text (str s) = valid s
any_text _ = refused

abbrev naming : Host ℕ
naming = record host { validate = λ kind v. any_text v }

abbrev named : String → Subject
named s = (s, put_field end "subject" (str s))

subjects-complete_example :
    Covers naming.validate roomy named_context (named "-x" ∷ named "ipa2.lab" ∷ [])
unfolding subjects outcome get string_eq fact outcome_eq has put
subjects-complete_example = subjects-complete ascii naming roomy named_context refl

-- The view of `a` in a template with the step `port`.
abbrev view : Context
view = record context {
  subject = some "a";
  local = "port" ∷ [];
  records =
      ("port@a", blank_record "port@a" port spec)
      ∷ ("port@b", blank_record "port@b" port spec)
      ∷ [];
}

view_isolated_example :
    (fact
        (record view { records = ("port@a", blank_record "port@a" port spec) ∷ [] })
        "port.open"
        null
      ≡ fact view "port.open" null)
    × (outcome
          (record view { records = ("port@a", blank_record "port@a" port spec) ∷ [] })
          (rpartition "port.open").0
        ≡ outcome view (rpartition "port.open").0)
unfolding rpartition get contains string_eq
view_isolated_example =
    view_isolated view (("port@a", blank_record "port@a" port spec) ∷ []) "a" "port.open" null refl
      refl refl
