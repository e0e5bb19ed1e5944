-- ===== src/Diagnosis/Rank.antt =====
-- How ipa_diagnose/engine/correlate.py ranks diagnoses.
use ipa_diagnose.Base.{
  filter, eqb, List, ℕ, ◌+◌, Bool, ◌||◌, ◌&&◌, not, Option, none, some, leb, ltb, eqb, min,
}
use ipa_diagnose.Base.Double.{Double, times, plus, double_lt, whole}
use ipa_diagnose.Diagnosis.Types.{
  DiagnosisReport, Severity, error, rank, DiagnosisStatus, diagnosed, insufficient_evidence,
  conflicting_evidence, transient_suspected, ConfidenceLevel, high, medium, low, insufficient,
  PriorityBucket, primary, related_symptom, secondary_independent, warned, informational, Diagnosis,
}

abbrev pub one : Double
one = whole 1

-- The doubles 0.85, 0.7, 0.5, 0.4, 0.2 and 0.05.
abbrev pub status_weight : DiagnosisStatus → Double
status_weight diagnosed = one
status_weight conflicting_evidence = record { numerator = 7656119366529843; scale = 53 }
status_weight insufficient_evidence = record { numerator = 3152519739159347; scale = 52 }
status_weight transient_suspected = record { numerator = 1; scale = 1 }

abbrev pub confidence_weight : ConfidenceLevel → Double
confidence_weight high = one
confidence_weight medium = record { numerator = 3152519739159347; scale = 52 }
confidence_weight low = record { numerator = 3602879701896397; scale = 53 }
confidence_weight insufficient = record { numerator = 3602879701896397; scale = 54 }

abbrev pub per_evidence : Double
per_evidence = record { numerator = 3602879701896397; scale = 56 }

abbrev pub lower_rank : Severity → Option Severity → ℕ
lower_rank s none = rank s
lower_rank s (some e) = min (rank s) (rank e)

-- `_evidence_rank`
unfoldable pub evidence_rank : Diagnosis → ℕ
evidence_rank d = lower_rank d.severity d.evidence_severity

-- `_score`
unfoldable pub score : Diagnosis → Double
unfolding evidence_rank times plus
score d =
    times
      (times (times (whole (evidence_rank d + 1)) (status_weight d.status))
        (confidence_weight d.confidence.level))
      (plus one (times per_evidence (whole (min d.confidence.corroborating_evidence_count 6))))

-- `_is_real_problem`
unfoldable pub is_real_problem : Diagnosis → Bool
is_real_problem d = leb (rank error) (rank d.severity)

-- The evidence is at least at ERROR.
unfoldable pub is_backed : Diagnosis → Bool
unfolding evidence_rank
is_backed d = leb (rank error) (evidence_rank d)

-- `_PRIORITY_ORDER`
abbrev pub priority_order : PriorityBucket → ℕ
priority_order primary = 0
priority_order secondary_independent = 1
priority_order related_symptom = 2
priority_order warned = 3
priority_order informational = 4

-- The order of `_priority_sort_key`
unfoldable pub priority_lt : Diagnosis → Diagnosis → Bool
unfolding score double_lt
priority_lt a b =
    ltb (priority_order a.priority) (priority_order b.priority)
    || (eqb (priority_order a.priority) (priority_order b.priority)
        && double_lt (score b) (score a))

-- The order of root candidates: those backed by ERROR evidence first, then by falling score.
unfoldable pub root_lt : Diagnosis → Diagnosis → Bool
unfolding is_backed score double_lt
root_lt a b =
    (is_backed a && not (is_backed b))
    || (not (is_backed a && not (is_backed b))
        && not (is_backed b && not (is_backed a))
        && double_lt (score b) (score a))

-- `DiagnosisReport.by_priority`
unfoldable pub by_priority : DiagnosisReport → PriorityBucket → List Diagnosis
unfolding filter
by_priority r bucket =
    filter (λ d. eqb (priority_order d.priority) (priority_order bucket)) r.diagnoses
