-- ===== src/Diagnosis/Demote.antt =====
-- `_demote_via_causality` of ipa_diagnose/engine/correlate.py.
pub mod Sound
use ipa_diagnose.Base.{
  ℕ, String, ◌<>◌, Bool, true, false, ◌&&◌, ◌||◌, not, Option, none, some, List, [], ◌∷◌, ◌++◌, map,
  ◌==◌, if◌then◌else◌, leb, any, all, contains, filter, string_eq,
}
use ipa_diagnose.Base.Dict.{Dict, get, put}
use ipa_diagnose.Diagnosis.Types.{Diagnosis, Finding, EvidenceRef, is_diagnosed, Surroundings}
use ipa_diagnose.Diagnosis.Rank.{evidence_rank, is_real_problem, is_backed}
use ipa_diagnose.Diagnosis.Causes.{
  effective_pack, implicit_cause, is_safety_net, is_service_down, explains_source,
}

abbrev is_empty {ℓ} : {A : Type ℓ} → List A → Bool
is_empty [] = true
is_empty (_ ∷ _) = false

abbrev or_empty : Option String → String
or_empty none = ""
or_empty (some s) = s

-- The diagnoses that may explain other packs' symptoms.
unfoldable pub is_cause : Diagnosis → Bool
unfolding is_real_problem is_backed
is_cause u = is_real_problem u && u.explains_downstream && is_backed u

-- `{f.finding_id: f"{f.source}::{f.check}" for f in bundle.findings}`
unfoldable pub finding_sources : List Finding → Dict String String → Dict String String
finding_sources [] out = out
finding_sources (f ∷ fs) out =
    finding_sources fs (put out f.finding_id (f.source <> ("::" <> f.check)))

-- The causes of `d` by its rule's `upstream_candidates`.
unfoldable pub declared_causes : List Diagnosis → Diagnosis → List Diagnosis
unfolding is_cause effective_pack
declared_causes diagnoses d =
    filter
      (λ u.
        contains d.upstream_candidates (effective_pack u)
        && not (effective_pack u == d.pack_id)
        && not (contains d.not_caused_by (effective_pack u)))
      (filter is_cause diagnoses)

-- `demotions` and `cause_titles`, by diagnosis id
abbrev pub Demotions : Type 0
Demotions = Dict String (List String) × Dict String (List String)

module _ (world : Surroundings) (sources : Dict String String) (diagnoses : List Diagnosis) where
  -- Those of the table of implicit causes are added.
  unfoldable pub possible_causes : Diagnosis → List Diagnosis
  unfolding declared_causes implicit_cause is_real_problem effective_pack
  possible_causes d =
      let declared = declared_causes diagnoses d in
      declared
      ++ filter
          (λ u.
            implicit_cause d u
            && is_real_problem u
            && not (any (world.same u) declared)
            && not (contains d.not_caused_by (effective_pack u)))
          diagnoses

  -- The keys of the findings that `d` cites.
  abbrev pub cited : Diagnosis → List String
  cited d =
      map (λ r. or_empty (get sources r.evidence_id))
        (filter (λ r. r.kind == "finding") d.evidence_for)

  -- A stopped service absorbs a safety net if it explains every finding of it.
  unfoldable pub absorbs_net : Diagnosis → Diagnosis → Bool
  unfolding is_service_down explains_source evidence_rank all
  absorbs_net d u =
      let crashed = d.rule_id == "healthcheck-check-failed" in
      is_diagnosed u.status
      && is_service_down u
      && not (is_empty (cited d))
      && all (λ s. explains_source world u s crashed) (cited d)
      && (crashed || leb (evidence_rank d) (evidence_rank u))

  -- An unconfirmed problem absorbs only unconfirmed ones that are no more severe.
  unfoldable pub absorbs : Diagnosis → Diagnosis → Bool
  unfolding evidence_rank
  absorbs d u =
      is_diagnosed u.status
      || (not (is_diagnosed d.status) && leb (evidence_rank d) (evidence_rank u))

  -- The causes of `d` that remain.
  unfoldable pub causes_of : Diagnosis → List Diagnosis
  unfolding possible_causes is_safety_net absorbs_net absorbs
  causes_of d = filter (if is_safety_net d then absorbs_net d else absorbs d) (possible_causes d)

  -- The packs of the causes, each once.
  unfoldable pub packs_of : List Diagnosis → List String → List String
  unfolding effective_pack
  packs_of [] packs = packs
  packs_of (u ∷ us) packs =
      packs_of us
        (if contains packs (effective_pack u) then packs else packs ++ effective_pack u ∷ [])

  abbrev demoted : List String → Diagnosis → Demotions → Demotions
  demoted [] d done = done
  demoted (p ∷ ps) d done = (
    put done.0 d.diagnosis_id (p ∷ ps),
    put done.1 d.diagnosis_id
        (map (λ u. u.title) (filter (λ u. not (u.title == d.title)) (causes_of d))),
  )

  unfoldable pub demote_via_causality : List Diagnosis → Demotions → Demotions
  unfolding packs_of causes_of
  demote_via_causality [] done = done
  demote_via_causality (d ∷ ds) done =
      demote_via_causality ds (demoted (packs_of (causes_of d) []) d done)
