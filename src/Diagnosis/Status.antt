-- ===== src/Diagnosis/Status.antt =====
-- The completeness of the evidence and the overall status: `_assess_completeness`, `_hint_for`,
-- `_overall_status` and `_apply_completeness` of ipa_diagnose/engine/correlate.py.
pub mod Policy
use package.text.Mathlib.Text.{find?}
use ipa_diagnose.Base.{
  ℕ, String, ◌<>◌, Bool, true, false, ◌&&◌, ◌||◌, not, Option, none, some, List, [], ◌∷◌, ◌++◌, map,
  ◌==◌, if◌then◌else◌, leb, ltb, any, find, take, length, ◌-◌, string_eq, is_some,
}
use ipa_diagnose.Base.Dict.{Dict, get}
use ipa_diagnose.Base.Value.{Value, pos, number, str, get_field}
use ipa_diagnose.TextSafe.{sanitize_text}
use ipa_diagnose.Diagnosis.Types.{
  Severity, success, error, critical, unrecognized, severity_eq, rank, CollectionError,
  EvidenceItem, EvidenceBundle, Finding, Diagnosis, is_diagnosed, PriorityBucket, primary,
  informational, OverallStatus, healthy, degraded, unhealthy, undetermined, not_fully_verified,
  UnverifiedCapability, CompletenessLevel, all_collected, partly_collected, nothing_collected,
  RuvState, none_configured, verified, not_verified, not_collected, EvidenceCompleteness,
  Surroundings, qualified_check,
}

-- `needle in haystack`
abbrev pub within : String → String → Bool
within needle haystack = is_some (find? haystack needle)

-- `_CAPABILITY_LABELS`
unfoldable pub capability_label : String → String
capability_label c =
    if c == "ipa-healthcheck"
    then "ipa-healthcheck (base health evidence)"
    else if c == "ipa-healthcheck-coverage"
    then "ipa-healthcheck coverage (Directory Server and IPA checks)"
    else if c == "replication_agreements"
    then "Replication agreements / RUV"
    else c

abbrev is_missing_record : Option String → Bool
is_missing_record none = false
is_missing_record (some s) = s == "no_replication_configured"

abbrev text_of : Option Value → Option String
text_of (some (str s)) = some s
text_of _ = none

-- The agreements were read, and replication is not configured.
abbrev pub is_unreplicated : EvidenceItem → Bool
is_unreplicated i =
    i.kind == "replication_topology"
    && is_missing_record (text_of (get_field i.data_fields "state"))

module _ (world : Surroundings) where
  -- `sanitize_error_text`
  unfoldable pub sanitize_error_text : String → String
  unfolding sanitize_text
  sanitize_error_text s = sanitize_text world.unicode s 300

  -- `_hint_for`
  unfoldable pub hint_for : String → String → String
  hint_for collector reason =
      let low = world.lower reason in
      let base = collector == "ipa-healthcheck" in
      if within "ldapsearch is not installed" low
      then "Install the OpenLDAP client tools (dnf install openldap-clients) and run as root."
      else if within "not running as root" low
      then "Run ipa-diagnose as root (sudo ipa-diagnose)."
      else if base && within "not installed" low
      then "Install ipa-healthcheck (dnf install freeipa-healthcheck)."
      else if base && within "timed out" low
      then "ipa-healthcheck did not finish in time. A stopped or unreachable DNS, LDAP or Kerberos service is a common cause - check those services, then re-run."
      else if base
          && (within "no output" low || within "could not parse" low || within "no usable" low)
      then "ipa-healthcheck produced no usable output; it normally needs root - re-run with sudo."
      else if within "directory manager password" low
      then "ipa-diagnose never asks for the Directory Manager password; as root it reads the replica update vector over the local LDAPI socket instead."
      else ""

  unfoldable pub unverified_capability : CollectionError → UnverifiedCapability
  unfolding sanitize_error_text hint_for capability_label
  unverified_capability e = record {
    capability = capability_label e.collector;
    collector = e.collector;
    reason = sanitize_error_text e.message;
    permission_related = e.permission_related;
    hint = hint_for e.collector (sanitize_error_text e.message);
  }

  abbrev pub ruv_of : Bool → Bool → Option CollectionError → RuvState × Option String
  ruv_of true has_ruv failure = if has_ruv then (verified, none) else (none_configured, none)
  ruv_of false true failure = (verified, none)
  ruv_of false false (some e) = (not_verified, some (sanitize_error_text e.message))
  ruv_of false false none = (not_collected, none)

  abbrev pub level_of : Bool → List UnverifiedCapability → CompletenessLevel
  level_of false l = nothing_collected
  level_of true [] = all_collected
  level_of true (_ ∷ _) = partly_collected

  -- `_assess_completeness`
  unfoldable pub assess_completeness : EvidenceBundle → EvidenceCompleteness
  unfolding unverified_capability any find
  assess_completeness b =
      let unverified = map unverified_capability b.collection_errors in
      let healthcheck_ok = not (any (λ e. e.collector == "ipa-healthcheck") b.collection_errors) in
      let ruv_error = find (λ e. e.collector == "replication_agreements") b.collection_errors in
      let has_ruv_items = any (λ i. i.kind == "replication_ruv") b.items in
      let ruv = ruv_of (any is_unreplicated b.items) has_ruv_items ruv_error in
      record {
        level = level_of healthcheck_ok unverified;
        healthcheck_collected = healthcheck_ok;
        unverified = unverified;
        ruv_state = ruv.0;
        ruv_reason = ruv.1;
      }

  -- `_unknown_severity_notes`
  abbrev note : Finding → String
  note f = sanitize_error_text (
      qualified_check f
      <> (": unrecognized severity "
          <> (world.repr (get_field f.raw "result")
              <> " - treated as ERROR-equivalent, not dropped")))

-- `max((d.severity for d in diagnoses), default=SUCCESS)`
unfoldable pub max_severity : Severity → List Diagnosis → Severity
max_severity s [] = s
max_severity s (d ∷ ds) = max_severity (if ltb (rank s) (rank d.severity) then d.severity else s) ds

abbrev pub is_primary : PriorityBucket → Bool
is_primary primary = true
is_primary _ = false

abbrev pub is_informational : PriorityBucket → Bool
is_informational informational = true
is_informational _ = false

abbrev none_given {ℓ} : {A : Type ℓ} → List A → Bool
none_given [] = true
none_given (_ ∷ _) = false

-- `_overall_status`
unfoldable pub overall_status : List Diagnosis → OverallStatus
unfolding any max_severity
overall_status diagnoses =
    let unresolved = any (λ d. is_primary d.priority && not (is_diagnosed d.status)) diagnoses in
    let worst = rank (max_severity success diagnoses) in
    if none_given diagnoses
    then healthy
    else if unresolved && leb (rank error) worst
    then undetermined
    else if leb (rank critical) worst
    then unhealthy
    else if leb (rank error) worst
    then degraded
    else if any (λ d. not (is_informational d.priority)) diagnoses
    then degraded
    else healthy

-- What an insufficient base of evidence leaves of a status.
abbrev pub without_evidence : OverallStatus → OverallStatus
without_evidence degraded = degraded
without_evidence unhealthy = unhealthy
without_evidence _ = undetermined

abbrev pub with_evidence : OverallStatus → CompletenessLevel → Bool → OverallStatus
with_evidence undetermined level has_undiagnosed = not_fully_verified
with_evidence healthy partly_collected has_undiagnosed = not_fully_verified
with_evidence healthy level has_undiagnosed =
    if has_undiagnosed then not_fully_verified else healthy
with_evidence status level has_undiagnosed = status

-- `_apply_completeness`
unfoldable pub apply_completeness : OverallStatus → CompletenessLevel → Bool → OverallStatus
apply_completeness status nothing_collected has_undiagnosed = without_evidence status
apply_completeness status level has_undiagnosed = with_evidence status level has_undiagnosed

-- `_unknown_severity_notes`: at most 20 of them, then how many more there are.
unfoldable pub unknown_severity_notes : Surroundings → List Finding → List String
unknown_severity_notes world findings = bound (notes findings)
  where
    notes : List Finding → List String
    notes [] = []
    notes (f ∷ fs) = if f.severity == unrecognized then note world f ∷ notes fs else notes fs

    bound : List String → List String
    bound l =
        if ltb 20 (length l)
        then take 20 l
          ++ ("(+"
              <> (world.show_value (number (pos (length l - 20)))
                  <> " more unrecognized severity value(s) not shown)"))
            ∷ []
        else l
