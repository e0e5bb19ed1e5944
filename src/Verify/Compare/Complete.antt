-- ===== src/Verify/Compare/Complete.antt =====
-- `compare` of ipa_diagnose/verify.py leaves nothing out, and confirms nothing from a report that is
-- no baseline.
use ipa_diagnose.Base.{
  ◌≡◌, ◌⊎◌, refl, sym, ap, ◌∙◌, subst, inl, inr, arith, String, Bool, true, false, ◌&&◌, not,
  Option, some, List, [], ◌∷◌, ◌++◌, map, any, All, All-mono, contains, string_eq, Bool-cases,
}
use ipa_diagnose.Base.Dict.{Dict, keys}
use ipa_diagnose.Base.Value.{Fields}
use ipa_diagnose.TextSafe.{sanitize_text}
use ipa_diagnose.Diagnosis.Types.{Diagnosis, DiagnosisReport}
use ipa_diagnose.Verify.{
  VerifyOutcome, resolved, still_present, partially_resolved, unable_to_verify, changed, VerifyItem,
  VerifyResult, Runner, Surroundings, is_resolved, previous_by_id, keep_baseline,
}
use ipa_diagnose.Verify.Baseline.{Detail, baseline_damage, baseline_problem, or_else}
use ipa_diagnose.Verify.Compare.{
  judgement, compare_one, compare_all, orphans, orphan_item, compare_with,
}
use ipa_diagnose.Verify.Compare.Unusable.{IsUnusable, unusable_lem}
use ipa_diagnose.Verify.Compare.Sound.{Among, All-Among, items-All, orphan_unable}

map-append : {A B : Type 0} (f : A → B) (l r : List A) → map f (l ++ r) ≡ map f l ++ map f r
map-append f [] r = refl
map-append f (x ∷ l) r = ap (λ t. f x ∷ t) (map-append f l r)

module _ {W : Type 0} (s : Surroundings) (previous : Fields) (current : DiagnosisReport)
    (runner : Option (Runner W)) where
  compare_all_ids :
      (l : Dict String Fields) (w : W)
      → map (λ i. i.diagnosis_id) (compare_all s previous current runner l w).0 ≡ keys l
  unfolding compare_all compare_one keys
  compare_all_ids [] w = refl
  compare_all_ids ((i, p) ∷ l) w = ap (λ t. i ∷ t) (compare_all_ids l _)

  orphan_ids :
      (l : List String)
      → map (λ i. i.diagnosis_id) (map (orphan_item s previous current runner) l)
        ≡ map (λ i. sanitize_text s.unicode i 160) l
  unfolding orphan_item
  orphan_ids [] = refl
  orphan_ids (x ∷ l) = ap (λ t. sanitize_text s.unicode x 160 ∷ t) (orphan_ids l)

  pub compare_ids :
      (w : W)
      → map (λ i. i.diagnosis_id) (compare_with s previous current runner w).0.items
        ≡ keys (previous_by_id s.unicode previous)
          ++ map (λ i. sanitize_text s.unicode i 160) (orphans s previous current runner)
  unfolding compare_with
  compare_ids w =
      rw
        (
          map-append (λ (i : VerifyItem). i.diagnosis_id)
              (compare_all s previous current runner (previous_by_id s.unicode previous) w).0
              (map (orphan_item s previous current runner) (orphans s previous current runner)),
          compare_all_ids (previous_by_id s.unicode previous) w,
          orphan_ids (orphans s previous current runner),
        )
        refl

  one_unable :
      (d : Detail) (id : String) (p : Fields) (w : W)
      → or_else (baseline_problem s.unicode previous current) (baseline_damage s.unicode previous)
        ≡ some d
      → (compare_one s previous current runner id p w).0.outcome ≡ unable_to_verify
  unfolding compare_one judgement
  one_unable d id p w h = rw h refl

  -- From a saved report that is of no use here, nothing is confirmed and nothing is called still
  -- present: every item is UNABLE_TO_VERIFY. Such is a report of another host, where both hosts are
  -- named; one from a replay for a live run, or the other way round; and one of the second version
  -- without a record for verification, with one of another schema or without a list of fixes, or
  -- without a host name other than blanks.
  pub compare_unable :
      (w : W)
      → IsUnusable s.unicode previous current
      → All (λ i. i.outcome ≡ unable_to_verify) (compare_with s previous current runner w).0.items
  compare_unable w unusable =
      let d = unusable_lem s.unicode previous current unusable in
      items-All s previous current runner (λ i. i.outcome ≡ unable_to_verify) w
        (All-mono {P = λ (e : String × Fields). Among e (previous_by_id s.unicode previous)}
          (λ e m v. one_unable d.0 e.0 e.1 v d.1) (previous_by_id s.unicode previous)
          (All-Among (previous_by_id s.unicode previous)))
        (orphan_unable s previous current runner)

is_resolved_lem : (o : VerifyOutcome) → is_resolved o ≡ true → o ≡ resolved
is_resolved_lem resolved h = refl
is_resolved_lem still_present h = absurd (ground (arith, h))
is_resolved_lem partially_resolved h = absurd (ground (arith, h))
is_resolved_lem unable_to_verify h = absurd (ground (arith, h))
is_resolved_lem changed h = absurd (ground (arith, h))

Among-append : {A : Type 0} (a : A) (l r : List A) → Among a l → Among a (l ++ r)
Among-append a [] r h = absurd h
Among-append a (x ∷ l) r (inl e) = inl e
Among-append a (x ∷ l) r (inr h) = inr (Among-append a l r h)

Among-map :
    {A B : Type 0} (f : A → B) (b : B) (l : List A)
    → Among b (map f l)
    → (a : A) × Among a l × (b ≡ f a)
Among-map f b [] h = absurd h
Among-map f b (x ∷ l) (inl e) = (x, inl refl, e)
Among-map f b (x ∷ l) (inr h) = let r = Among-map f b l h in (r.0, inr r.1, r.2)

any-false :
    {A : Type 0} (p : A → Bool) (a : A) (l : List A) → any p l ≡ false → Among a l → p a ≡ false
unfolding any
any-false p a [] h m = absurd m
any-false p a (x ∷ l) h (inl e) = ap p e ∙ ground (arith, h)
any-false p a (x ∷ l) h (inr m) = any-false p a l (ground (arith, h)) m

-- A diagnosis that has an item that is RESOLVED.
abbrev pub HasResolved : List VerifyItem → String → Type 0
HasResolved items id =
    (i : VerifyItem) × Among i items × (id ≡ i.diagnosis_id) × (i.outcome ≡ resolved)

not_kept :
    (o : VerifyOutcome) (b : Bool)
    → (not (is_resolved o) && not b) ≡ false
    → (o ≡ resolved) ⊎ (b ≡ true)
not_kept o b h = elim (Bool-cases b) [
  | inl e ↦ inr e
  | inr e ↦ inl (is_resolved_lem o (ground (arith, h, e)))
]

kept_lem :
    (r : VerifyResult) (i : VerifyItem)
    → keep_baseline r ≡ false
    → Among i r.items
    → (i.outcome ≡ resolved)
      ⊎ (contains
            (map (λ (d : Diagnosis). d.diagnosis_id) r.current_report.diagnoses)
            i.diagnosis_id
          ≡ true)
unfolding keep_baseline
kept_lem r i h m = not_kept i.outcome _ (any-false _ i r.items h m)

same_report :
    {W : Type 0} (s : Surroundings) (previous : Fields) (current : DiagnosisReport)
    (runner : Option (Runner W)) (w : W)
    → (compare_with s previous current runner w).0.current_report ≡ current
unfolding compare_with
same_report s previous current runner w = refl

-- When the saved report need not be kept after a comparison, then every diagnosis that it had was
-- found RESOLVED or is in the fresh report: none is lost.
pub keep_baseline_lossless :
    {W : Type 0} (s : Surroundings) (previous : Fields) (current : DiagnosisReport)
    (runner : Option (Runner W)) (w : W) (id : String)
    → Among id (keys (previous_by_id s.unicode previous))
    → keep_baseline (compare_with s previous current runner w).0 ≡ false
    → HasResolved (compare_with s previous current runner w).0.items id
      ⊎ (contains (map (λ d. d.diagnosis_id) current.diagnoses) id ≡ true)
keep_baseline_lossless s previous current runner w id m h =
    let items = (compare_with s previous current runner w).0.items in
    let n : Among id (map (λ (i : VerifyItem). i.diagnosis_id) items) =
      subst (λ l. Among id l) (sym (compare_ids s previous current runner w))
        (Among-append id (keys (previous_by_id s.unicode previous)) _ m) in
    let f = Among-map (λ (i : VerifyItem). i.diagnosis_id) id items n in
    let fresh : DiagnosisReport → List String =
      λ r. map (λ (d : Diagnosis). d.diagnosis_id) r.diagnoses in
    elim (kept_lem (compare_with s previous current runner w).0 f.0 h f.1) [
      | inl e ↦ inl (f.0, f.1, f.2, e)
      | inr e ↦ inr (
          subst (λ j. contains (fresh current) j ≡ true) (sym f.2)
            (subst (λ r. contains (fresh r) f.0.diagnosis_id ≡ true)
              (same_report s previous current runner w) e))
    ]
