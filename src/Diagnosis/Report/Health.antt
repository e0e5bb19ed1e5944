-- ===== src/Diagnosis/Report/Health.antt =====
-- When a report says HEALTHY.
use ipa_diagnose.Base.{
  ℕ, ◌+◌, ◌≡◌, ◌≢◌, ◌↔◌, refl, ap, ◌∙◌, sym, String, Bool, true, false, ◌&&◌, Option, none, some,
  List, [], ◌∷◌, map, string_eq, arith, if◌then◌else◌, Bool-cases, inl, inr,
}
use ipa_diagnose.Base.Dict.{get}
use ipa_diagnose.Diagnosis.Types.{
  Diagnosis, EvidenceBundle, healthy, primary, secondary_independent, is_diagnosed, Surroundings,
}
use ipa_diagnose.Diagnosis.Demote.{Demotions}
use ipa_diagnose.Diagnosis.Status.{is_informational, overall_status}
use ipa_diagnose.Diagnosis.Status.Policy.{
  apply_completeness_healthy, assess_complete, complete_assess, overall_status_found,
}
use ipa_diagnose.Diagnosis.Undiagnosed.{undiagnosed_findings}
use ipa_diagnose.Diagnosis.Report.{
  soften, placed, place, is_warning, ranked, is_first, assign, prioritize, correlated, build_report,
  is_given_any,
}

-- What a diagnosis that the first pass has placed is not.
placed-ne :
    (done : Demotions) (all : List Diagnosis) (d : Diagnosis) (o : Option (List String))
    → (placed done all d o).1 ≡ false
    → is_informational (placed done all d o).0.priority ≡ false
placed-ne done all d (some causes) h = refl
placed-ne done all d none h = elim (Bool-cases (is_warning d.severity && is_diagnosed d.status)) [
  | inl e ↦ rw e refl
  | inr e ↦ ground (arith, h, e)
]

assigned-ne :
    (roots : List (ℕ × Diagnosis)) (n : ℕ) (e : Diagnosis × Bool) (l : List (Diagnosis × Bool))
    → (e.1 ≡ false → is_informational e.0.priority ≡ false)
    → overall_status (assign roots n (e ∷ l)) ≢ healthy
unfolding assign
assigned-ne roots n (d, false) l h = overall_status_found d (assign roots (n + 1) l) (h refl)
assigned-ne roots n (d, true) l h =
    overall_status_found _ (assign roots (n + 1) l) (bucket (is_first n roots))
  where
    bucket : (b : Bool) → is_informational (if b then primary else secondary_independent) ≡ false
    bucket true = refl
    bucket false = refl

prioritize-healthy :
    (done : Demotions) (l : List Diagnosis) → overall_status (prioritize done l) ≡ healthy → l ≡ []
unfolding prioritize place
prioritize-healthy done [] h = refl
prioritize-healthy done (d ∷ l) h = absurd (
    assigned-ne (ranked (map (place done (d ∷ l)) (d ∷ l))) 0 (place done (d ∷ l) d)
      (map (place done (d ∷ l)) l) (placed-ne done (d ∷ l) d (get done.0 d.diagnosis_id)) h)

soften-nil : (b : EvidenceBundle) (l : List Diagnosis) → soften b l ≡ [] → l ≡ []
unfolding soften
soften-nil b [] h = refl
soften-nil b (d ∷ l) h = ground (arith, h)

correlated-healthy :
    (world : Surroundings) (b : EvidenceBundle) (l : List Diagnosis)
    → overall_status (correlated world b l) ≡ healthy
    → l ≡ []
unfolding correlated
correlated-healthy world b l h = soften-nil b l (prioritize-healthy _ (soften b l) h)

soften_nil : (b : EvidenceBundle) → soften b [] ≡ []
unfolding soften
soften_nil b = ground arith

correlated_nil : (world : Surroundings) (b : EvidenceBundle) → correlated world b [] ≡ []
unfolding correlated prioritize assign
correlated_nil world b = rw (soften_nil b) refl

given_any_false : {A : Type 0} (l : List A) → is_given_any l ≡ false → l ≡ []
given_any_false [] h = refl
given_any_false (x ∷ l) h = ground arith

module _ (world : Surroundings) (b : EvidenceBundle) (diagnoses : List Diagnosis)
    (packs : List String) where
  -- A report says HEALTHY exactly if there is no diagnosis at all, no collector failed, and no
  -- finding is left undiagnosed: what could not be verified is never healthy.
  pub build_report-healthy :
      ((build_report world b diagnoses packs).overall_status ≡ healthy)
      ↔ ((diagnoses ≡ []) × ((b.collection_errors ≡ []) × (undiagnosed_findings world b [] ≡ [])))
  unfolding build_report
  build_report-healthy = (forth, back)
    where
      forth :
          (build_report world b diagnoses packs).overall_status ≡ healthy
          → (diagnoses ≡ []) × ((b.collection_errors ≡ []) × (undiagnosed_findings world b [] ≡ []))
      forth h =
          let parts = apply_completeness_healthy _ _ _ h in
          let none_found = correlated-healthy world b diagnoses parts.0 in
          let empty : correlated world b diagnoses ≡ [] =
            ap (correlated world b) none_found ∙ correlated_nil world b in
          (
            none_found,
            (
              assess_complete world b parts.1.0,
              ap (undiagnosed_findings world b) (sym empty) ∙ given_any_false _ parts.1.1,
            ),
          )

      back :
          (diagnoses ≡ []) × ((b.collection_errors ≡ []) × (undiagnosed_findings world b [] ≡ []))
          → (build_report world b diagnoses packs).overall_status ≡ healthy
      back h =
          let empty : correlated world b diagnoses ≡ [] =
            ap (correlated world b) h.0 ∙ correlated_nil world b in
          rw (empty, complete_assess world b h.1.0, h.1.1) refl
