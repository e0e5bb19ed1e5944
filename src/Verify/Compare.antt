-- ===== src/Verify/Compare.antt =====
-- `compare` of ipa_diagnose/verify.py: one item for each problem of the saved report.
pub mod Sound
pub mod Fixed
pub mod Complete
pub mod Unusable
use ipa_diagnose.Base.{
  String, Bool, true, false, ◌&&◌, ◌||◌, not, Option, none, some, List, [], ◌∷◌, ◌++◌, map, ◌==◌,
  if◌then◌else◌, filter, any, all, contains, string_eq,
}
use ipa_diagnose.Base.Dict.{Dict, get, has, keys, values}
use ipa_diagnose.Base.Strings.{sorted_set}
use ipa_diagnose.Base.Value.{Value, Fields, get_field}
use ipa_diagnose.TextSafe.{sanitize_text}
use ipa_diagnose.Diagnosis.Types.{Diagnosis, DiagnosisReport, is_diagnosed}
use ipa_diagnose.Verify.{
  VerifyOutcome, resolved, still_present, partially_resolved, unable_to_verify, changed, VerifyItem,
  VerifyResult, Rebuilt, Runner, Surroundings, known_diagnosis_id, has_pack_gap,
  healthcheck_missing, crashed_checks, previous_by_id, by_id, is_root_tier, was_root_tier,
  was_diagnosed,
}
use ipa_diagnose.Verify.Baseline.{
  value_at, text_or, Detail, unknown_diagnosis, healthcheck_gap, pack_gap, checks_crashed,
  record_missing, gone, cannot_check, changed_since, not_all_run, all_pass, not_all_pass,
  lower_priority, not_confident, still_shown, diagnosis_missing, baseline_fixes, baseline_damage,
  baseline_problem, or_else, offered, offered_without_record,
}

abbrev pub Outcome : Type 0
Outcome = VerifyOutcome × Detail

abbrev pub is_unknown : Option Bool → Bool
is_unknown none = true
is_unknown (some b) = false

abbrev pub is_pass : Option Bool → Bool
is_pass (some true) = true
is_pass _ = false

abbrev pub is_nil {ℓ} : {A : Type ℓ} → List A → Bool
is_nil [] = true
is_nil (_ ∷ _) = false

-- The outcome of the fix's own checks: some did not run, all pass, or not all pass.
abbrev pub grade : Bool → Bool → Bool → List (String × Option Bool) → Outcome
grade true pass replay results = (unable_to_verify, not_all_run replay results)
grade false true replay results = (resolved, all_pass replay results)
grade false false replay results = (partially_resolved, not_all_pass replay results)

unfoldable pub graded : Bool → List (String × Option Bool) → Outcome
unfolding any all
graded replay results =
    grade (is_nil results || any (λ r. is_unknown r.1) results) (all (λ r. is_pass r.1) results)
      replay results

-- `REBUILD_CHANGED`
abbrev pub rebuild_changed : String
rebuild_changed = "CHANGED"

module _ {W : Type 0} where
  -- The criteria are run unless the fix now points at something else.
  abbrev pub run_criteria : Runner W → Value → Bool → String → W → Outcome × W
  run_criteria r c true why w = ((changed, changed_since why), w)
  run_criteria r c false why w = (graded r.replay (r.evaluate c w).0, (r.evaluate c w).1)

  abbrev pub after_rebuild : Runner W → Option Value → Bool → String → W → Outcome × W
  after_rebuild r none is_changed why w = ((unable_to_verify, cannot_check why), w)
  after_rebuild r (some c) is_changed why w = run_criteria r c is_changed why w

  -- `_fix_outcome`
  unfoldable pub fix_outcome : Option Fields → Option (Runner W) → W → Outcome × W
  unfolding graded
  fix_outcome none r w = ((resolved, gone), w)
  fix_outcome (some f) none w = ((resolved, gone), w)
  fix_outcome (some f) (some r) w =
      let b = (r.rebuild f w).0 in
      after_rebuild r b.criteria (b.problem == rebuild_changed) b.why (r.rebuild f w).1

-- What `compare` says of one saved diagnosis: an outcome, or that of its fix.
pub data Judgement : Type 0 where
  settled : VerifyOutcome → Detail → Judgement
  ask_fix : Judgement

-- A diagnosis that is still in the fresh report: no longer at the root, no longer diagnosed, or as
-- it was.
abbrev pub still : Bool → Bool → Diagnosis → Judgement
still true b d = settled partially_resolved (lower_priority d.priority)
still false true d = settled partially_resolved not_confident
still false false d = settled still_present still_shown

-- The guards of the loop, in order: the problem of the baseline, whether the id is known, the gaps
-- of the fresh evidence, the diagnosis in the fresh report, and what a missing one may come from.
abbrev pub judge :
    Option Detail → Bool → Bool → Bool → Option Diagnosis → Bool → Bool → Fields → Judgement
judge (some problem) known hc gap d crashed missing p = settled unable_to_verify problem
judge none false hc gap d crashed missing p = settled unable_to_verify unknown_diagnosis
judge none true true gap d crashed missing p = settled unable_to_verify healthcheck_gap
judge none true false true d crashed missing p = settled unable_to_verify pack_gap
judge none true false false none true missing p = settled unable_to_verify checks_crashed
judge none true false false none false true p = settled unable_to_verify record_missing
judge none true false false none false false p = ask_fix
judge none true false false (some d) crashed missing p =
    still (was_root_tier p && not (is_root_tier d.priority))
      (was_diagnosed p && not (is_diagnosed d.status)) d

module _ {W : Type 0} (s : Surroundings) (previous : Fields) (current : DiagnosisReport)
    (runner : Option (Runner W)) where
  unfoldable pub judgement : String → Fields → Judgement
  unfolding baseline_problem baseline_damage known_diagnosis_id healthcheck_missing has_pack_gap
      by_id get crashed_checks contains offered_without_record baseline_fixes value_at
  judgement id p =
      judge
        (or_else (baseline_problem s.unicode previous current) (baseline_damage s.unicode previous))
        (known_diagnosis_id s.packs id) (healthcheck_missing current)
        (has_pack_gap s current (text_or "" (value_at p "pack_id")))
        (get (by_id current.diagnoses []) id) (crashed_checks current)
        (contains (offered_without_record previous (baseline_fixes previous)) id) p

  abbrev pub carry_out : Judgement → Option Fields → W → Outcome × W
  carry_out (settled o d) fix w = ((o, d), w)
  carry_out ask_fix fix w = fix_outcome fix runner w

  unfoldable pub compare_one : String → Fields → W → VerifyItem × W
  unfolding judgement fix_outcome baseline_fixes get value_at
  compare_one id p w =
      let r = carry_out (judgement id p) (get (baseline_fixes previous) id) w in
      (
        record {
          diagnosis_id = id;
          title = text_or id (value_at p "title");
          outcome = r.0.0;
          detail = r.0.1;
        },
        r.1,
      )

  unfoldable pub compare_all : Dict String Fields → W → List VerifyItem × W
  unfolding compare_one
  compare_all [] w = ([], w)
  compare_all ((id, p) ∷ l) w =
      let r = compare_one id p w in let rest = compare_all l r.1 in (r.0 ∷ rest.0, rest.1)

  -- The fixes that were saved or shown for a diagnosis that is not in the saved report.
  unfoldable pub orphans : List String
  unfolding filter sorted_set keys baseline_fixes offered has previous_by_id
  orphans = sorted_set (
      filter (λ i. not (has (previous_by_id s.unicode previous) i))
        (keys (baseline_fixes previous) ++ offered previous))

  unfoldable pub orphan_item : String → VerifyItem
  unfolding sanitize_text
  orphan_item i = record {
    diagnosis_id = sanitize_text s.unicode i 160;
    title = sanitize_text s.unicode i 160;
    outcome = unable_to_verify;
    detail = diagnosis_missing;
  }

  -- Root problems of the fresh report that the saved one does not have.
  unfoldable pub new_conditions : List Diagnosis
  unfolding filter values by_id has previous_by_id
  new_conditions =
      filter
        (λ d.
          not (has (previous_by_id s.unicode previous) d.diagnosis_id) && is_root_tier d.priority)
        (values (by_id current.diagnoses []))

  unfoldable pub compare_with : W → VerifyResult × W
  unfolding compare_all orphans orphan_item new_conditions get_field previous_by_id
  compare_with w =
      let r = compare_all (previous_by_id s.unicode previous) w in
      (
        record {
          items = r.0 ++ map orphan_item orphans;
          new_conditions = new_conditions;
          previous_generated_at = get_field previous "generated_at";
          current_report = current;
        },
        r.1,
      )

-- `compare`
unfoldable pub compare :
    {W : Type 0}
    → Surroundings
    → Option Fields
    → DiagnosisReport
    → Option (Runner W)
    → W
    → VerifyResult × W
unfolding compare_with
compare s none current runner w = (
  record {
    items = [];
    new_conditions = [];
    previous_generated_at = none;
    current_report = current;
  },
  w,
)
compare s (some previous) current runner w = compare_with s previous current runner w
