-- ===== src/Tests/Checked.antt =====
-- Runs of ipa_diagnose/verify.py.
use ipa_diagnose.Base.{
  ℕ, ◌+◌, ◌≡◌, ◌⊎◌, refl, inl, String, true, false, none, some, [], ◌∷◌, ◌++◌, map, All, contains,
  string_eq,
}
use ipa_diagnose.Base.Dict.{keys}
use ipa_diagnose.Base.Value.{
  Value, null, str, number, pos, array, dict, cons, nil, Fields, end, field,
}
use ipa_diagnose.Diagnosis.Types.{
  DiagnosisReport, undetermined, all_collected, not_collected, diagnosed, high, warning,
}
use ipa_diagnose.Verify.{
  VerifyItem, resolved, unable_to_verify, Runner, Surroundings, previous_by_id, keep_baseline,
}
use ipa_diagnose.Verify.Baseline.{
  all_pass, baseline_fixes, baseline_problem, baseline_damage, or_else, load_previous_report,
  value_at,
}
use ipa_diagnose.Verify.Compare.{fix_outcome, compare_with}
use ipa_diagnose.Verify.Compare.Sound.{Among, IsConfirmed, compare-IsConfirmed}
use ipa_diagnose.Verify.Compare.Fixed.{IsFixed, fix_outcome-IsFixed}
use ipa_diagnose.Verify.Compare.Unusable.{IsUnusable, of_other_host}
use ipa_diagnose.Verify.Compare.Complete.{HasResolved, compare_unable, keep_baseline_lossless}
use ipa_diagnose.Verify.Carry.{carry_forward_fixes, carry_forward_fixes_kept}
use ipa_diagnose.Verify.Loaded.{IsReport, HasTidyList, load_previous_report-IsTidy}
use ipa_diagnose.Tests.Text.{ascii}
use ipa_diagnose.Tests.Reports.{a_diagnosis}

-- The saved fix of a diagnosis, and the report that has both.
abbrev fix : Fields
fix = field "diagnosis_id" (str "dns.records") (field "procedure_id" (str "dns-restart") end)

abbrev saved : Fields
saved = field "diagnosis_id" (str "dns.records") (
    field "title" (str "Records") (
      field "pack_id" (str "dns")
        (field "priority" (str "PRIMARY_PROBLEM") (field "status" (str "DIAGNOSED") end))))

abbrev extra : Fields
extra =
    field "verify_baseline"
      (dict (field "schema" (number (pos 1)) (field "fixes" (array (cons (dict fix) nil)) end))) end

abbrev previous : Fields
previous = field "report_schema_version" (number (pos 2)) (
    field "hostname" (str "ipa.lab")
      (field "diagnoses" (array (cons (dict saved) nil)) (field "v2" (dict extra) end)))

abbrev report : DiagnosisReport
report = record {
  generated_at = "";
  hostname = "ipa.lab";
  overall_status = undetermined;
  diagnoses = [];
  collection_errors = [];
  packs_evaluated = [];
  replay_source = none;
  environment = none;
  evidence_completeness = record {
    level = all_collected;
    healthcheck_collected = true;
    unverified = [];
    ruv_state = not_collected;
    ruv_reason = none;
  };
  unclaimed_warnings = 0;
  undiagnosed_findings = [];
  service_states = [];
  side_effects = [];
  unknown_severity_findings = [];
}

abbrev world : Surroundings
world = record {
  unicode = ascii;
  packs = record { pack_id = "dns"; rules = "records" ∷ []; collectors = [] } ∷ [];
}

-- Every check passes; the state counts the checks.
abbrev runner : Runner ℕ
runner = record {
  rebuild = λ f w. (record { criteria = some null; problem = ""; why = "" }, w);
  evaluate = λ c w. (("named is active", some true) ∷ [], w + 1);
  replay = false;
}

fix_confirmed : (fix_outcome (some fix) (some runner) 0).0.0 ≡ resolved
unfolding fix_outcome string_eq
fix_confirmed = refl

fix_outcome-IsFixed_example :
    (some fix ≡ none)
    ⊎ ((some runner ≡ none)
        ⊎ (f : Fields) × (r : Runner ℕ) × (some fix ≡ some f)
          × (some runner ≡ some r)
          × IsFixed r f 0)
fix_outcome-IsFixed_example = fix_outcome-IsFixed (some fix) (some runner) 0 fix_confirmed

abbrev confirmed : VerifyItem
confirmed = record {
  diagnosis_id = "dns.records";
  title = "Records";
  outcome = resolved;
  detail = all_pass false (("named is active", some true) ∷ []);
}

one_item : Among confirmed (compare_with world previous report (some runner) 0).0.items
unfolding compare_with
one_item = inl refl

compare-IsConfirmed_example : IsConfirmed world previous report (some runner) confirmed
compare-IsConfirmed_example =
    compare-IsConfirmed world previous report (some runner) 0 confirmed one_item refl

-- The same report, read on another host.
abbrev elsewhere : DiagnosisReport
elsewhere = record report { hostname = "ipa2.lab" }

not_here : IsUnusable ascii previous elsewhere
unfolding value_at string_eq
not_here = of_other_host "ipa.lab" refl refl refl refl

compare_unable_example :
    All
      (λ (i : VerifyItem). i.outcome ≡ unable_to_verify)
      (compare_with world previous elsewhere (some runner) 0).0.items
compare_unable_example = compare_unable world previous elsewhere (some runner) 0 not_here

saved_id : Among "dns.records" (keys (previous_by_id ascii previous))
unfolding previous_by_id keys
saved_id = inl refl

not_needed : keep_baseline (compare_with world previous report (some runner) 0).0 ≡ false
unfolding keep_baseline compare_with
not_needed = refl

keep_baseline_lossless_example :
    HasResolved (compare_with world previous report (some runner) 0).0.items "dns.records"
    ⊎ (contains (map (λ d. d.diagnosis_id) report.diagnoses) "dns.records" ≡ true)
keep_baseline_lossless_example =
    keep_baseline_lossless world previous report (some runner) 0 "dns.records" saved_id not_needed

-- A report with the diagnosis still in it.
abbrev again : DiagnosisReport
again = record report {
  diagnoses =
      record (a_diagnosis "dns" "records" diagnosed high warning) { diagnosis_id = "dns.records" }
      ∷ [];
}

usable : or_else (baseline_problem ascii previous again) (baseline_damage ascii previous) ≡ none
unfolding baseline_problem baseline_damage
usable = refl

saved_fix : Among ("dns.records", fix) (baseline_fixes previous)
unfolding baseline_fixes
saved_fix = inl refl

still_there : contains (map (λ d. d.diagnosis_id) again.diagnoses) "dns.records" ≡ true
unfolding contains string_eq
still_there = refl

nothing_shown : contains {A = String} ([] ++ []) "dns.records" ≡ false
unfolding contains
nothing_shown = refl

carry_forward_fixes_kept_example :
    Among fix (carry_forward_fixes ascii (some previous) again [] [] (some runner) 0).0
carry_forward_fixes_kept_example =
    carry_forward_fixes_kept ascii previous again [] [] (some runner) 0 "dns.records" fix usable
      saved_fix nothing_shown still_there

abbrev decoded : Value
decoded = dict (
    field "diagnoses" (array (cons (dict (field "diagnosis_id" (str "a") end)) (cons null nil)))
      end)

abbrev tidy : Fields
tidy =
    field "diagnoses"
      (array (
        cons
          (dict (
            field "diagnosis_id" (str "a") (
              field "title" (str "a") (
                field "pack_id" (str "")
                  (field "priority" (str "") (field "status" (str "") end))))))
          nil))
      (field "generated_at" (str "an unknown time") end)

loaded : load_previous_report ascii decoded ≡ some tidy
unfolding load_previous_report
loaded = refl

load_previous_report-IsTidy_example : IsReport decoded × HasTidyList tidy
load_previous_report-IsTidy_example = load_previous_report-IsTidy ascii decoded tidy loaded
