-- ===== src/Diagnosis/Types.antt =====
-- The data of ipa_diagnose/evidence/model.py and ipa_diagnose/engine/model.py.
use ipa_diagnose.Base.{
  ℕ, String, Bool, true, false, Option, none, some, List, ◌<>◌, ◌==◌, ◌&&◌, not, if◌then◌else◌,
  string_eq, Eq, leb, filter,
}
use ipa_diagnose.Base.Dict.{Dict}
use ipa_diagnose.Base.Value.{Value, Fields}
use ipa_diagnose.TextSafe.Scan.{Unicode}
use text.Mathlib.Text.{starts_with}

pub data Severity : Type 0 where
  success warning error critical unrecognized : Severity

pub Severity-discrete : Discrete Severity
Severity-discrete = hlevel

instance unfoldable pub severity_eq : Eq Severity
unfolding Severity-discrete
severity_eq = record { dec = Severity-discrete }

abbrev pub severity_value : Severity → String
severity_value success = "SUCCESS"
severity_value warning = "WARNING"
severity_value error = "ERROR"
severity_value critical = "CRITICAL"
severity_value unrecognized = "UNKNOWN"

-- `Severity.rank`: an unrecognized severity ranks with ERROR.
abbrev pub rank : Severity → ℕ
rank success = 0
rank warning = 1
rank error = 2
rank unrecognized = 2
rank critical = 3

pub record Provenance : Type 0 where
  pub source : String
  pub command : Option String
  pub host : Option String
  pub collected_at : Option String
  pub live : Bool

pub record Finding : Type 0 where
  pub finding_id : String
  pub source : String
  pub check : String
  pub severity : Severity
  pub message : String
  pub keywords : Fields
  pub provenance : Provenance
  pub raw : Fields

abbrev pub qualified_check : Finding → String
qualified_check f = f.source <> ("." <> f.check)

pub record EvidenceItem : Type 0 where
  pub item_id : String
  pub kind : String
  pub summary : String
  pub data_fields : Fields
  pub severity : Option Severity
  pub provenance : Provenance

pub record CollectionError : Type 0 where
  pub collector : String
  pub message : String
  pub permission_related : Bool
  pub provenance : Option Provenance

pub record EnvironmentInfo : Type 0 where
  pub distro : Option String
  pub distro_version : Option String
  pub python_version : Option String
  pub freeipa_version : Option String
  pub ipa_healthcheck_version : Option String
  pub directory_server_version : Option String
  pub detected_live : Bool

pub record EvidenceBundle : Type 0 where
  pub hostname : String
  pub collected_at : String
  pub findings : List Finding
  pub items : List EvidenceItem
  pub collection_errors : List CollectionError
  pub environment : Option EnvironmentInfo
  pub replay_source : Option String
  pub service_states : Dict String String
  pub side_effects : List String

unfoldable pub findings_by_source_prefix : EvidenceBundle → String → List Finding
findings_by_source_prefix b prefix = filter (λ f. starts_with f.source prefix) b.findings

unfoldable pub findings_at_or_above : EvidenceBundle → Severity → List Finding
findings_at_or_above b s = filter (λ f. leb (rank s) (rank f.severity)) b.findings

unfoldable pub items_by_kind : EvidenceBundle → String → List EvidenceItem
items_by_kind b kind = filter (λ i. i.kind == kind) b.items

pub data DiagnosisStatus : Type 0 where
  diagnosed insufficient_evidence conflicting_evidence transient_suspected : DiagnosisStatus

pub data PriorityBucket : Type 0 where
  primary related_symptom secondary_independent warned informational : PriorityBucket

pub data RiskLevel : Type 0 where
  safe caution high_risk : RiskLevel

pub data ConfidenceLevel : Type 0 where
  high medium low insufficient : ConfidenceLevel

pub record Confidence : Type 0 where
  pub level : ConfidenceLevel
  pub rationale : String
  pub corroborating_evidence_count : ℕ
  pub contradicting_evidence_count : ℕ

pub record EvidenceRef : Type 0 where
  pub evidence_id : String
  pub kind : String
  pub why_relevant : String

pub record Action : Type 0 where
  pub description : String
  pub risk : RiskLevel
  pub command : Option String
  pub rationale : String
  pub reference : Option String

pub record VerificationCondition : Type 0 where
  pub description : String
  pub recheck : EvidenceBundle → Bool
  pub healthcheck_sources : List String

pub record Diagnosis : Type 0 where
  pub pack_id : String
  pub rule_id : String
  pub status : DiagnosisStatus
  pub title : String
  pub why : String
  pub confidence : Confidence
  pub severity : Severity
  pub evidence_for : List EvidenceRef
  pub evidence_against : List EvidenceRef
  pub impact : String
  pub priority : PriorityBucket
  pub actions : List Action
  pub verification : List VerificationCondition
  pub limitations : String
  pub next_diagnostic_step : Option String
  pub upstream_candidates : List String
  pub diagnosis_id : String
  pub related_to_titles : List String
  pub resolution_key : Option String
  pub variant : Option String
  pub bindings : Dict String Value
  pub evidence_severity : Option Severity
  pub not_caused_by : List String
  pub explains_downstream : Bool

abbrev pub is_diagnosed : DiagnosisStatus → Bool
is_diagnosed diagnosed = true
is_diagnosed _ = false

abbrev pub is_weak : ConfidenceLevel → Bool
is_weak low = true
is_weak insufficient = true
is_weak _ = false

abbrev pub is_given : Option String → Bool
is_given none = false
is_given (some s) = not (s == "")

-- `Diagnosis.__post_init__`: the id that is left out is filled in; `none` is its ValueError.
unfoldable pub check_diagnosis : Diagnosis → Option Diagnosis
check_diagnosis d =
    if not (is_diagnosed d.status) && not (is_given d.next_diagnostic_step)
    then none
    else if is_diagnosed d.status && is_weak d.confidence.level
    then none
    else some (record d {
      diagnosis_id =
          if d.diagnosis_id == "" then d.pack_id <> ("." <> d.rule_id) else d.diagnosis_id;
    })

pub data OverallStatus : Type 0 where
  healthy degraded unhealthy undetermined not_fully_verified : OverallStatus

pub record UnverifiedCapability : Type 0 where
  pub capability : String
  pub collector : String
  pub reason : String
  pub permission_related : Bool
  pub hint : String

-- `level`
pub data CompletenessLevel : Type 0 where
  all_collected partly_collected nothing_collected : CompletenessLevel

-- `ruv_state`
pub data RuvState : Type 0 where
  none_configured verified not_verified not_collected : RuvState

pub record EvidenceCompleteness : Type 0 where
  pub level : CompletenessLevel
  pub healthcheck_collected : Bool
  pub unverified : List UnverifiedCapability
  pub ruv_state : RuvState
  pub ruv_reason : Option String

pub record UndiagnosedFinding : Type 0 where
  pub source : String
  pub check : String
  pub severity : String
  pub message : String
  pub reason : String
  pub crashed : Bool
  pub check_known_since : Option String
  pub ipa_healthcheck_version : Option String
  pub finding_id : String
  pub key : Option String

-- The fields of a `DiagnosisReport` that `build_report` sets; the others keep their empty defaults.
pub record DiagnosisReport : Type 0 where
  pub generated_at : String
  pub hostname : String
  pub overall_status : OverallStatus
  pub diagnoses : List Diagnosis
  pub collection_errors : List String
  pub packs_evaluated : List String
  pub replay_source : Option String
  pub environment : Option EnvironmentInfo
  pub evidence_completeness : EvidenceCompleteness
  pub unclaimed_warnings : ℕ
  pub undiagnosed_findings : List UndiagnosedFinding
  pub service_states : Dict String String
  pub side_effects : List String
  pub unknown_severity_findings : List String

-- What the report takes from the rest of the program and from Python: the Unicode tables, `str.lower`,
-- `str()` and `repr()` of a value, `redact_text`, `==` of two diagnoses (field by field, the rechecks
-- by identity), the clock, the diagnostic packs with their `healthcheck_sources`, and the first
-- release of each check of the catalog.
pub record Surroundings : Type 0 where
  pub unicode : Unicode
  pub lower : String → String
  pub show_value : Value → String
  pub repr : Option Value → String
  pub redact : String → String
  pub same : Diagnosis → Diagnosis → Bool
  pub now : String
  pub packs : List (String × List String)
  pub catalog : Dict String String
