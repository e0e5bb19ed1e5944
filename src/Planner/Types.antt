-- ===== src/Planner/Types.antt =====
-- The data of ipa_diagnose/planner/core.py, and what it reads of a check's specification and result
-- (ipa_diagnose/resolution/checks.py). Times are whole units of the clock. The messages that the
-- code formats are data: their leading word and what they quote.
use ipa_diagnose.Base.{ℕ, String, Bool, Option, List, Eq}
use ipa_diagnose.Base.Dict.{Dict}
use ipa_diagnose.Base.Value.{Value, Fields}
use ipa_diagnose.Resolution.Types.{Answer}

abbrev pub max_steps_default : ℕ
max_steps_default = 48

abbrev pub max_depth : ℕ
max_depth = 12

abbrev pub max_fanout : ℕ
max_fanout = 10

abbrev pub max_retries : ℕ
max_retries = 1

abbrev pub max_instances_bound : ℕ
max_instances_bound = 16

abbrev pub hard_max_steps : ℕ
hard_max_steps = 200

pub data Outcome : Type 0 where
  pass warn fail unknown skipped : Outcome

pub Outcome-discrete : Discrete Outcome
Outcome-discrete = hlevel

instance unfoldable pub outcome_eq : Eq Outcome
unfolding Outcome-discrete
outcome_eq = record { dec = Outcome-discrete }

pub record Req : Type 0 where
  pub step : String
  pub accept : List Outcome

pub record Classified : Type 0 where
  pub outcome : Outcome
  pub summary : String
  pub facts : Dict String Value

-- A parameter: a literal, or a pair of a kind of source and a name in it.
pub data Param : Type 0 where
  literal : Value → Param
  reference : (source name : String) → Param

-- Why a run stopped; `said` is a stop rule's own text, which is never empty.
pub data StopReason : Type 0 where
  step_budget : ℕ → StopReason
  time_budget : ℕ → StopReason
  cancelled_by_operator : StopReason
  said : String → StopReason

-- Why one subject's remaining steps are not run.
pub data SubjectStop : Type 0 where
  slice_used : ℕ → SubjectStop
  rule : String → SubjectStop

-- `skip_reason`; each is printed as the word before the colon in the comment, a colon and the rest.
pub data SkipReason : Type 0 where
  -- the empty text of a record that was not skipped
  not_given : SkipReason
  -- stopped
  stopped : StopReason → SkipReason
  -- stopped, "(this subject only)"
  stopped_subject : SubjectStop → SkipReason
  -- blocked: the title or the name of the step above, and its outcome
  blocked_on : String → Option Outcome → SkipReason
  -- blocked: the parameter with no value, and its source
  blocked_for : (param name : String) → SkipReason
  -- not applicable
  not_applicable : String → SkipReason
  -- not needed
  not_needed : String → SkipReason
  -- not needed, "stopped for this subject"
  not_needed_subject : SubjectStop → SkipReason
  -- privilege
  privilege : String → SkipReason

pub data Status : Type 0 where
  ok failed not_run denied : Status

-- `CheckResult` of ipa_diagnose/resolution/checks.py
pub record CheckResult : Type 0 where
  pub params : Dict String String
  pub status : Status
  pub fields : Dict String Value
  pub display : String
  pub command : String

-- What the planner reads of a `CheckSpec`.
pub record CheckSpec : Type 0 where
  pub params : List String
  pub privilege : String
  pub side_effects : String
  pub evidence : List String

pub record Record : Type 0 where
  pub step_id : String
  pub capability : String
  pub check : String
  pub title : String
  pub why : String
  pub outcome : Outcome
  pub summary : String
  pub selected_because : String
  pub skip_reason : SkipReason
  pub params : Dict String String
  pub command : String
  pub seconds : ℕ
  pub collected_at : Option String
  pub source : String
  pub status : Option Status
  pub reused : Bool
  pub side_effects : String
  pub privilege : String
  pub facts : Dict String Value
  pub fields : Dict String Value
  pub attempts : ℕ
  pub blocked_by : Option String
  pub subject : Option String
  pub template : Option String
  pub base_step : Option String

-- A `Context`, and a `SubjectContext` over the same records: `local` and `subject` are those of the
-- template, and `local` is empty in a plain context.
pub record Context : Type 0 where
  pub inputs : Dict String Value
  pub is_root : Bool
  pub records : Dict String Record
  pub subject : Option String
  pub item : Fields
  pub local : List String

-- What a gate answers; `none` is one of the exceptions that the planner catches.
abbrev pub Gate : Type 0
Gate = Context → Option (Bool × String)

-- A stop rule: a text to stop with, or `None`; `none` is a caught exception.
abbrev pub StopRule : Type 0
StopRule = Context → Option (Option String)

pub record Step : Type 0 where
  pub step_id : String
  pub capability : String
  pub check : String
  pub title : String
  pub why : String
  pub params : Dict String Param
  pub requires : List Req
  pub after : List String
  pub when : Option Gate
  pub classify : Option (CheckResult → Context → Option Classified)
  pub stop : Option StopRule
  pub needs_root : Bool
  pub applies : Option Gate
  pub retries : ℕ
  pub stop_subject : Option StopRule

pub record ForEach : Type 0 where
  pub template_id : String
  pub source : String
  pub subject_type : String
  pub steps : List Step
  pub max_instances : ℕ
  pub title : String
  pub complete_fact : Option String
  pub subject_seconds : Option ℕ

pub data PlanItem : Type 0 where
  step : Step → PlanItem
  for_each : ForEach → PlanItem

pub data EnumStatus : Type 0 where
  complete partial failed not_asked : EnumStatus

-- The parts that the text of `reason` joins.
pub data Reason : Type 0 where
  run_stopped : StopReason → Reason
  source_not_run : Reason
  not_established : Reason
  over_budget : (dropped budget : ℕ) → Reason
  invalid_names : ℕ → Reason
  not_whole : Reason
  not_finished : ℕ → Reason

pub record EnumRecord : Type 0 where
  pub source : String
  pub status : EnumStatus
  pub subjects : List String
  pub dropped : List String
  pub rejected : List String
  pub reason : List Reason
  pub budget : ℕ
  pub unfinished : List String

pub record Trace : Type 0 where
  pub records : List Record
  -- `none` where every relevant check was visited
  pub stop_reason : Option StopReason
  pub started_at : String
  pub seconds : ℕ
  pub checks_run : ℕ
  pub checks_reused : ℕ
  pub cancelled : Bool
  pub enumerations : Dict String EnumRecord

-- What the runner does with a check: it answers, a KeyboardInterrupt ends it, or a ValueError does,
-- which a validator of the check's parameters raises.
pub data RunAnswer : Type 0 where
  result : CheckResult → RunAnswer
  interrupted value_raised : RunAnswer

-- What a run uses of the world `W`: the runner that executes registry checks, its counter of
-- executed checks, the clocks, and the validators of resolution/types.py, which may raise a
-- ValueError too.
pub record Host (W : Type 0) : Type 0 where
  pub run : W → String → Dict String Value → Bool → RunAnswer × W
  pub runs : W → ℕ
  pub replay : Bool
  pub clock : W → ℕ × W
  pub utc : W → String × W
  pub validate : String → Value → Answer
  pub subject_types : List String
