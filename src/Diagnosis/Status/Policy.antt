-- ===== src/Diagnosis/Status/Policy.antt =====
-- When the status policy lets a run be HEALTHY.
use ipa_diagnose.Base.{◌≡◌, ◌≢◌, refl, Bool, true, false, List, [], ◌∷◌, map, arith, any, string_eq}
use ipa_diagnose.Diagnosis.Types.{
  CollectionError, EvidenceBundle, Diagnosis, OverallStatus, healthy, degraded, unhealthy,
  undetermined, not_fully_verified, CompletenessLevel, all_collected, partly_collected,
  nothing_collected, UnverifiedCapability, Surroundings,
}
use ipa_diagnose.Diagnosis.Status.{
  assess_completeness, unverified_capability, level_of, is_informational, overall_status,
  apply_completeness,
}

-- HEALTHY comes only of a healthy status, all evidence, and no undiagnosed finding.
pub apply_completeness_healthy :
    (s : OverallStatus) (l : CompletenessLevel) (u : Bool)
    → apply_completeness s l u ≡ healthy
    → (s ≡ healthy) × ((l ≡ all_collected) × (u ≡ false))
unfolding apply_completeness
apply_completeness_healthy healthy all_collected false h = (refl, (refl, refl))
apply_completeness_healthy healthy all_collected true h = ground arith
apply_completeness_healthy healthy partly_collected u h = ground arith
apply_completeness_healthy healthy nothing_collected u h = ground arith
apply_completeness_healthy degraded all_collected u h = ground arith
apply_completeness_healthy degraded partly_collected u h = ground arith
apply_completeness_healthy degraded nothing_collected u h = ground arith
apply_completeness_healthy unhealthy all_collected u h = ground arith
apply_completeness_healthy unhealthy partly_collected u h = ground arith
apply_completeness_healthy unhealthy nothing_collected u h = ground arith
apply_completeness_healthy undetermined all_collected u h = ground arith
apply_completeness_healthy undetermined partly_collected u h = ground arith
apply_completeness_healthy undetermined nothing_collected u h = ground arith
apply_completeness_healthy not_fully_verified all_collected u h = ground arith
apply_completeness_healthy not_fully_verified partly_collected u h = ground arith
apply_completeness_healthy not_fully_verified nothing_collected u h = ground arith

level_of_complete :
    (world : Surroundings) (ok : Bool) (f : CollectionError → UnverifiedCapability)
    (l : List CollectionError)
    → level_of world ok (map f l) ≡ all_collected
    → l ≡ []
level_of_complete world true f [] h = refl
level_of_complete world true f (e ∷ l) h = ground arith
level_of_complete world false f l h = ground arith

-- The evidence is complete only if no collector failed.
pub assess_complete :
    (world : Surroundings) (b : EvidenceBundle)
    → (assess_completeness world b).level ≡ all_collected
    → b.collection_errors ≡ []
unfolding assess_completeness
assess_complete world b h =
    level_of_complete world _ (unverified_capability world) b.collection_errors h

-- It is complete if none did.
pub complete_assess :
    (world : Surroundings) (b : EvidenceBundle)
    → b.collection_errors ≡ []
    → (assess_completeness world b).level ≡ all_collected
unfolding assess_completeness any
complete_assess world b h = rw h refl

-- A run with diagnoses none of which is INFORMATIONAL is not healthy.
pub overall_status_found :
    (d : Diagnosis) (ds : List Diagnosis)
    → is_informational d.priority ≡ false
    → overall_status (d ∷ ds) ≢ healthy
unfolding overall_status any
overall_status_found d ds h e = ground (arith, h, e)
