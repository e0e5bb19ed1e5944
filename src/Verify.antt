-- ===== src/Verify.antt =====
-- ipa_diagnose/verify.py: whether the problems of a saved report have cleared, from a fresh report and,
-- where a fix was shown, from fresh checks.
pub mod Baseline
pub mod Compare
pub mod Carry
pub mod Loaded
use ipa_diagnose.Base.{
  ℕ, String, ◌<>◌, Bool, true, false, ◌&&◌, ◌||◌, not, Option, none, some, List, [], ◌∷◌, ◌++◌, map,
  ◌==◌, if◌then◌else◌, filter, any, all, contains, is_some, string_eq,
}
use ipa_diagnose.Base.Dict.{Dict, get, put, has, keys, values}
use ipa_diagnose.Base.Strings.{chars, text, before, sorted_set}
use ipa_diagnose.Base.Value.{Value, null, str, Fields, get_field, put_field}
use ipa_diagnose.TextSafe.{sanitize_text}
use ipa_diagnose.TextSafe.Scan.{Unicode, strip}
use ipa_diagnose.Diagnosis.Types.{
  PriorityBucket, primary, secondary_independent, Diagnosis, DiagnosisStatus, DiagnosisReport,
  is_diagnosed,
}
use ipa_diagnose.Resolution.Regex.{Regex, seq, one, upto}
use ipa_diagnose.Resolution.Patterns.{leading, letter_or_digit, name_class, single}
use ipa_diagnose.Resolution.Types.{fullmatch, starts, part_of, without}
use ipa_diagnose.Verify.Baseline.{
  value_at, as_list, text_or, entries, tidied, second, Detail, unknown_diagnosis, healthcheck_gap,
  pack_gap, checks_crashed, record_missing, gone, cannot_check, changed_since, not_all_run,
  all_pass, not_all_pass, lower_priority, not_confident, still_shown, diagnosis_missing,
  baseline_fixes, baseline_damage, baseline_problem, or_else, offered, offered_without_record,
}

pub data VerifyOutcome : Type 0 where
  resolved still_present partially_resolved unable_to_verify changed : VerifyOutcome

pub record VerifyItem : Type 0 where
  pub diagnosis_id : String
  pub title : String
  pub outcome : VerifyOutcome
  pub detail : Detail

pub record VerifyResult : Type 0 where
  pub items : List VerifyItem
  pub new_conditions : List Diagnosis
  pub previous_generated_at : Option Value
  pub current_report : DiagnosisReport

-- A diagnostic pack: its id, the ids of its rules, and the collectors that it declares.
pub record Pack : Type 0 where
  pub pack_id : String
  pub rules : List String
  pub collectors : List String

-- `rebuild_verify`: the criteria or `None`, the problem and the reason
pub record Rebuilt : Type 0 where
  pub criteria : Option Value
  pub problem : String
  pub why : String

-- The runner of read-only checks with what the resolution engine does with it: rebuilding the criteria
-- of a saved fix, and running them. `W` is the state of the host.
pub record Runner (W : Type 0) : Type 0 where
  pub rebuild : Fields → W → Rebuilt × W
  pub evaluate : Value → W → List (String × Option Bool) × W
  pub replay : Bool

-- `all_packs()` and the Unicode tables.
pub record Surroundings : Type 0 where
  pub unicode : Unicode
  pub packs : List Pack

abbrev pub is_resolved : VerifyOutcome → Bool
is_resolved resolved = true
is_resolved _ = false

-- `keep_baseline`
unfoldable pub keep_baseline : VerifyResult → Bool
unfolding any contains
keep_baseline r =
    let fresh = map (λ d. d.diagnosis_id) r.current_report.diagnoses in
    any (λ i. not (is_resolved i.outcome) && not (contains fresh i.diagnosis_id)) r.items

-- `_SERVICE_NAME_RE`
abbrev service_name_re : Regex
service_name_re = leading (letter_or_digit ++ single b'_' ∷ []) 80 (name_class ++ single b'@' ∷ [])

abbrev unexplained_pack : String
unexplained_pack = "healthcheck"

abbrev service_prefix : String
service_prefix = "healthcheck.service-not-running-"

abbrev pub rule_ids : List Pack → List String
rule_ids [] = []
rule_ids (p ∷ ps) = map (λ r. p.pack_id <> ("." <> r)) p.rules ++ rule_ids ps

-- `known_diagnosis_id`
unfoldable pub known_diagnosis_id : List Pack → String → Bool
unfolding contains starts fullmatch without
known_diagnosis_id packs id =
    contains
      (rule_ids packs
        ++ (unexplained_pack <> ".healthcheck-check-failed")
          ∷ (unexplained_pack <> ".unexplained-findings")
          ∷ [])
      id
    || (starts service_prefix id && fullmatch service_name_re (without service_prefix id))

-- `err.split(":", 1)[0].strip()`
unfoldable pub error_source : Unicode → String → String
unfolding before strip chars
error_source u err = text (strip u.is_space (before b':' (chars err)))

-- The collectors of a pack; the last pack of an id counts.
unfoldable pub collectors_of : List Pack → String → List String → List String
collectors_of [] id found = found
collectors_of (p ∷ ps) id found =
    collectors_of ps id (if p.pack_id == id then p.collectors else found)

-- Fresh evidence for the pack could not be collected.
unfoldable pub has_pack_gap : Surroundings → DiagnosisReport → String → Bool
unfolding any contains part_of error_source collectors_of
has_pack_gap s current pack_id =
    let affected = map (error_source s.unicode) current.collection_errors in
    not (pack_id == "")
    && (any (λ err. part_of pack_id err) affected
        || any (contains affected) (collectors_of s.packs pack_id []))

-- `healthcheck_missing`
unfoldable pub healthcheck_missing : DiagnosisReport → Bool
unfolding any starts
healthcheck_missing current =
    not current.evidence_completeness.healthcheck_collected
    || any (starts "ipa-healthcheck-coverage") current.collection_errors

-- `crashed_checks`
unfoldable pub crashed_checks : DiagnosisReport → Bool
unfolding any
crashed_checks current = any (λ d. d.rule_id == "healthcheck-check-failed") current.diagnoses

-- `{d["diagnosis_id"]: d for d in ...}`
unfoldable pub by_saved_id : List (String × Fields) → Dict String Fields → Dict String Fields
unfolding put
by_saved_id [] out = out
by_saved_id ((i, d) ∷ l) out = by_saved_id l (put out i d)

-- The diagnoses that were carried for a fix, where the report has none of their id.
unfoldable pub add_carried :
    Unicode → List (String × Fields) → Dict String Fields → Dict String Fields
unfolding put has tidied sanitize_text
add_carried u [] out = out
add_carried u ((i, d) ∷ l) out =
    add_carried u l (if has out i then out else put out (sanitize_text u i 160) (tidied u (i, d)))

-- `prev_by_id`, for a report that was loaded: each of its diagnoses is a dict with a text as its id.
unfoldable pub previous_by_id : Unicode → Fields → Dict String Fields
unfolding by_saved_id add_carried entries value_at second
previous_by_id u previous =
    add_carried u (entries (as_list (value_at (second previous) "carried_diagnoses")))
      (by_saved_id (entries (as_list (value_at previous "diagnoses"))) [])

-- `curr_by_id`
unfoldable pub by_id : List Diagnosis → Dict String Diagnosis → Dict String Diagnosis
unfolding put
by_id [] out = out
by_id (d ∷ l) out = by_id l (put out d.diagnosis_id d)

abbrev pub is_root_tier : PriorityBucket → Bool
is_root_tier primary = true
is_root_tier secondary_independent = true
is_root_tier _ = false

-- `prev_d.get("priority") in {b.value for b in _ROOT_TIER}`
abbrev pub was_root_tier : Fields → Bool
was_root_tier d =
    contains ("PRIMARY_PROBLEM" ∷ "SECONDARY_INDEPENDENT_PROBLEM" ∷ [])
      (text_or "" (value_at d "priority"))

abbrev pub was_diagnosed : Fields → Bool
was_diagnosed d = text_or "" (value_at d "status") == "DIAGNOSED"
