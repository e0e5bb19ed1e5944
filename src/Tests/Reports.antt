-- ===== src/Tests/Reports.antt =====
-- Runs of ipa_diagnose/engine/correlate.py.
use ipa_diagnose.Base.{
  ℕ, ◌≤◌, ◌≡◌, ◌↔◌, refl, String, true, false, none, some, List, [], ◌∷◌, All, any, filter, length,
  ◌==◌, string_eq, nat_eq, option_eq,
}
use ipa_diagnose.Base.Dict.{get}
use ipa_diagnose.Base.Value.{end}
use ipa_diagnose.Diagnosis.Types.{
  Severity, error, critical, warning, severity_eq, Diagnosis, DiagnosisStatus, diagnosed,
  insufficient_evidence, ConfidenceLevel, high, medium, insufficient, Finding, EvidenceBundle,
  Surroundings, informational, healthy,
}
use ipa_diagnose.Diagnosis.Rank.{score, is_backed}
use ipa_diagnose.Diagnosis.Causes.{effective_pack, implicit_cause}
use ipa_diagnose.Diagnosis.Demote.{causes_of}
use ipa_diagnose.Diagnosis.Demote.Sound.{IsCauseOf, causes_of-IsCauseOf}
use ipa_diagnose.Diagnosis.Undiagnosed.{undiagnosed_findings}
use ipa_diagnose.Diagnosis.Status.{is_primary}
use ipa_diagnose.Diagnosis.Report.{place, ranked, prioritize, build_report}
use ipa_diagnose.Diagnosis.Report.Primary.{ranked_backed, prioritize_once}
use ipa_diagnose.Diagnosis.Report.Chosen.{prioritize_some}
use ipa_diagnose.Diagnosis.Report.Health.{build_report-healthy}
use ipa_diagnose.Tests.Text.{ascii}

abbrev world : Surroundings
world = record {
  unicode = ascii;
  lower = λ s. s;
  show_value = λ v. "";
  repr = λ v. "None";
  redact = λ s. s;
  same = λ d u. d.diagnosis_id == u.diagnosis_id;
  now = "2024-01-01T00:00:00Z";
  packs = [];
  catalog = [];
}

abbrev pub a_diagnosis :
    (pack rule : String) → DiagnosisStatus → ConfidenceLevel → Severity → Diagnosis
a_diagnosis pack rule status level severity = record {
  pack_id = pack;
  rule_id = rule;
  status = status;
  title = rule;
  why = "";
  confidence = record {
    level = level;
    rationale = "";
    corroborating_evidence_count = 1;
    contradicting_evidence_count = 0;
  };
  severity = severity;
  evidence_for = [];
  evidence_against = [];
  impact = "";
  priority = informational;
  actions = [];
  verification = [];
  limitations = "";
  next_diagnostic_step = some "look";
  upstream_candidates = [];
  diagnosis_id = "";
  related_to_titles = [];
  resolution_key = none;
  variant = none;
  bindings = [];
  evidence_severity = none;
  not_caused_by = [];
  explains_downstream = true;
}

-- A stopped Directory Server, and a KDC that no client can find.
abbrev dirsrv_down : Diagnosis
dirsrv_down =
    record (a_diagnosis "healthcheck" "service-not-running-dirsrv" diagnosed high critical) {
      diagnosis_id = "healthcheck.service-not-running-dirsrv";
    }

abbrev no_kdc : Diagnosis
no_kdc = record (a_diagnosis "kerberos" "kdc-discovery-failure" diagnosed medium error) {
  diagnosis_id = "kerberos.kdc-discovery-failure";
}

-- 4 * 1.0 * 0.7 * (1.0 + 0.05 * 1) as Python computes it
score_medium :
    score (record dirsrv_down { confidence = record dirsrv_down.confidence { level = medium } })
    ≡ record { numerator = 6620291452234629; scale = 51 }
unfolding score
score_medium = refl

caused : implicit_cause no_kdc dirsrv_down ≡ true
unfolding implicit_cause string_eq
caused = refl

stands_for : effective_pack dirsrv_down ≡ "directory-server"
unfolding effective_pack string_eq get
stands_for = refl

causes_of-IsCauseOf_example :
    All (IsCauseOf no_kdc) (causes_of world [] (dirsrv_down ∷ no_kdc ∷ []) no_kdc)
causes_of-IsCauseOf_example = causes_of-IsCauseOf world [] (dirsrv_down ∷ no_kdc ∷ []) no_kdc

abbrev weak : Diagnosis
weak = a_diagnosis "dns" "records" insufficient_evidence insufficient warning

ranked_backed_example : All {A = ℕ × Diagnosis} (λ a. is_backed a.1 ≡ false) ((1, weak) ∷ [])
unfolding ranked
ranked_backed_example =
    ranked_backed ((weak, true) ∷ (weak, true) ∷ []) 0 weak ((1, weak) ∷ []) refl refl

prioritize_once_example :
    length (filter (λ d. is_primary d.priority) (prioritize ([], []) (dirsrv_down ∷ weak ∷ []))) ≤ 1
prioritize_once_example = prioritize_once ([], []) (dirsrv_down ∷ weak ∷ [])

abbrev warned_finding : Finding
warned_finding = record {
  finding_id = "f1";
  source = "ipahealthcheck.ipa.certs";
  check = "IPACertDNSSAN";
  severity = warning;
  message = "no SAN";
  keywords = end;
  provenance = record {
    source = "ipa-healthcheck";
    command = none;
    host = none;
    collected_at = none;
    live = true;
  };
  raw = end;
}

abbrev bundle : EvidenceBundle
bundle = record {
  hostname = "ipa.lab";
  collected_at = "";
  findings = warned_finding ∷ [];
  items = [];
  collection_errors = [];
  environment = none;
  replay_source = none;
  service_states = [];
  side_effects = [];
}

build_report-healthy_example :
    ((build_report world bundle (weak ∷ []) []).overall_status ≡ healthy) ↔ (
      (◌≡◌ {A = List Diagnosis} (weak ∷ []) [])
      × ((bundle.collection_errors ≡ []) × (undiagnosed_findings world bundle [] ≡ [])))
build_report-healthy_example = build_report-healthy world bundle (weak ∷ []) []

prioritize_some_example :
    any (λ x. is_primary x.priority) (prioritize ([], []) (dirsrv_down ∷ weak ∷ [])) ≡ true
unfolding any place get
prioritize_some_example = prioritize_some ([], []) (dirsrv_down ∷ weak ∷ []) refl
