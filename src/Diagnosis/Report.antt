-- ===== src/Diagnosis/Report.antt =====
-- `build_report` of ipa_diagnose/engine/correlate.py.
pub mod Primary
pub mod Health
pub mod Chosen
use package.text.Mathlib.Text.{find?}
use ipa_diagnose.Base.{
  ℕ, suc, ◌+◌, String, ◌<>◌, Bool, true, false, ◌&&◌, ◌||◌, not, Option, none, some, List, [], ◌∷◌,
  ◌++◌, map, ◌==◌, eqb, if◌then◌else◌, any, all, contains, filter, length, string_eq, is_some,
}
use ipa_diagnose.Base.Dict.{Dict, get}
use ipa_diagnose.Base.Strings.{sorted}
use ipa_diagnose.Diagnosis.Types.{
  Severity, warning, severity_eq, Diagnosis, is_diagnosed, PriorityBucket, primary, related_symptom,
  secondary_independent, warned, EvidenceBundle, EvidenceRef, Finding, DiagnosisReport,
  UndiagnosedFinding, Surroundings,
}
use ipa_diagnose.Diagnosis.Rank.{priority_lt, root_lt}
use ipa_diagnose.Diagnosis.Causes.{is_service_down}
use ipa_diagnose.Diagnosis.Demote.{finding_sources, demote_via_causality, Demotions}
use ipa_diagnose.Diagnosis.Undiagnosed.{undiagnosed_findings, cited_ids}
use ipa_diagnose.Diagnosis.Status.{
  sanitize_error_text, assess_completeness, overall_status, apply_completeness,
  unknown_severity_notes, within,
}

abbrev certmonger_note : String
certmonger_note =
    "\n\nNote: certmonger is running now - ipa-healthcheck's certificate checks started it during this run (see the note at the top). If it had been stopped on purpose, stop or mask it again."

-- A certmonger that this run started is no current outage.
abbrev soften_one : Diagnosis → Diagnosis
soften_one d =
    if d.pack_id == "healthcheck" && d.rule_id == "service-not-running-certmonger"
    then record d { why = d.why <> certmonger_note; severity = warning }
    else d

unfoldable pub soften : EvidenceBundle → List Diagnosis → List Diagnosis
unfolding any
soften b diagnoses =
    if any (λ s. within "certmonger was not running" s) b.side_effects
    then map soften_one diagnoses
    else diagnoses

abbrev pub joined_by_and : List String → String
joined_by_and [] = ""
joined_by_and (s ∷ []) = s
joined_by_and (s ∷ t ∷ l) = s <> (" and " <> joined_by_and (t ∷ l))

-- `list(dict.fromkeys(l))`, behind those that were seen
unfoldable pub without_repeats : List String → List String → List String
without_repeats seen [] = []
without_repeats seen (s ∷ l) =
    let rest = without_repeats seen l in
    let more = without_repeats (s ∷ seen) l in if contains seen s then rest else s ∷ more

abbrev or_no_titles : Option (List String) → List String
or_no_titles none = []
or_no_titles (some l) = l

abbrev restart_note : String
restart_note =
    " It does not start by itself when the Directory Server is started: once dirsrv is running, run ipa-diagnose again (or verify), which then shows its own fix."

-- What is added to the text of a diagnosis that is demoted.
unfoldable pub demoted_why : List Diagnosis → List String → Diagnosis → String
unfolding is_service_down any
demoted_why diagnoses causes d =
    let note = joined_by_and causes in
    if is_diagnosed d.status
    then d.why
      <> ("\n\nLikely a downstream symptom of the "
          <> (note
              <> (" problem reported above."
                  <> (if is_service_down d
                        && any (λ u. within "service-not-running-dirsrv" u.diagnosis_id) diagnoses
                      then restart_note
                      else ""))))
    else d.why
      <> ("\n\nMay be a downstream symptom of the "
          <> (note <> " problem reported above (not established)."))

abbrev is_warning : Severity → Bool
is_warning warning = true
is_warning _ = false

-- What the first pass makes of a diagnosis; `true` marks a root candidate.
abbrev placed : Demotions → List Diagnosis → Diagnosis → Option (List String) → Diagnosis × Bool
placed done diagnoses d (some causes) = (
  record d {
    priority = related_symptom;
    related_to_titles = without_repeats [] (or_no_titles (get done.1 d.diagnosis_id));
    why = demoted_why diagnoses causes d;
  },
  false,
)
placed done diagnoses d none =
    if is_warning d.severity && is_diagnosed d.status
    then (record d { priority = warned }, false)
    else (d, true)

unfoldable pub place : Demotions → List Diagnosis → Diagnosis → Diagnosis × Bool
unfolding without_repeats demoted_why
place done diagnoses d = placed done diagnoses d (get done.0 d.diagnosis_id)

-- The root candidates, each with its place in the list.
unfoldable pub candidates : ℕ → List (Diagnosis × Bool) → List (ℕ × Diagnosis)
candidates n [] = []
candidates n ((d, false) ∷ l) = candidates (n + 1) l
candidates n ((d, true) ∷ l) = (n, d) ∷ candidates (n + 1) l

-- `root_candidates` after the sort
unfoldable pub ranked : List (Diagnosis × Bool) → List (ℕ × Diagnosis)
unfolding candidates sorted root_lt
ranked l = sorted (λ a b. root_lt a.1 b.1) (candidates 0 l)

abbrev pub is_first : ℕ → List (ℕ × Diagnosis) → Bool
is_first n [] = false
is_first n ((m, d) ∷ l) = eqb n m

-- The first root candidate is PRIMARY, the others are SECONDARY_INDEPENDENT.
unfoldable pub assign : List (ℕ × Diagnosis) → ℕ → List (Diagnosis × Bool) → List Diagnosis
assign roots n [] = []
assign roots n ((d, false) ∷ l) = d ∷ assign roots (n + 1) l
assign roots n ((d, true) ∷ l) =
    record d { priority = if is_first n roots then primary else secondary_independent }
    ∷ assign roots (n + 1) l

unfoldable pub prioritize : Demotions → List Diagnosis → List Diagnosis
unfolding place ranked assign
prioritize done diagnoses = let l = map (place done diagnoses) diagnoses in assign (ranked l) 0 l

-- The ids that diagnoses cite, for or against them.
unfoldable pub claimed_ids : List Diagnosis → List String
claimed_ids [] = []
claimed_ids (d ∷ ds) =
    map (λ r. r.evidence_id) (d.evidence_for ++ d.evidence_against) ++ claimed_ids ds

abbrev pub is_given_any {ℓ} : {A : Type ℓ} → List A → Bool
is_given_any [] = false
is_given_any (_ ∷ _) = true

-- The diagnoses of the report, before they are sorted.
unfoldable pub correlated : Surroundings → EvidenceBundle → List Diagnosis → List Diagnosis
unfolding soften demote_via_causality finding_sources prioritize
correlated world b diagnoses =
    let softened = soften b diagnoses in
    prioritize
      (demote_via_causality world (finding_sources b.findings []) softened softened ([], []))
      softened

-- `build_report`
unfoldable pub build_report :
    Surroundings → EvidenceBundle → List Diagnosis → List String → DiagnosisReport
unfolding correlated claimed_ids undiagnosed_findings assess_completeness overall_status
    apply_completeness unknown_severity_notes sanitize_error_text sorted priority_lt filter
build_report world b diagnoses packs_evaluated =
    let found = correlated world b diagnoses in
    let completeness = assess_completeness world b in
    let undiagnosed = undiagnosed_findings world b found in
    let claimed = claimed_ids found in
    record {
      generated_at = world.now;
      hostname = b.hostname;
      overall_status =
          apply_completeness (overall_status found) completeness.level (is_given_any undiagnosed);
      diagnoses = sorted priority_lt found;
      collection_errors =
          map (λ e. e.collector <> (": " <> sanitize_error_text world e.message))
            b.collection_errors;
      packs_evaluated = packs_evaluated;
      replay_source = b.replay_source;
      environment = b.environment;
      evidence_completeness = completeness;
      unclaimed_warnings =
          length
            (filter (λ f. f.severity == warning && not (contains claimed f.finding_id)) b.findings);
      undiagnosed_findings = undiagnosed;
      service_states = b.service_states;
      side_effects = b.side_effects;
      unknown_severity_findings = unknown_severity_notes world b.findings;
    }
