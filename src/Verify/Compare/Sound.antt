-- ===== src/Verify/Compare/Sound.antt =====
-- What `compare` of ipa_diagnose/verify.py promises of the outcomes that it gives.
use ipa_diagnose.Base.{
  ◌≡◌, ◌≢◌, ◌⊎◌, refl, sym, ◌∙◌, subst, inl, inr, arith, String, Bool, true, false, Option, none,
  some, List, [], ◌∷◌, map, All, All-mono, All-append, contains, string_eq,
}
use ipa_diagnose.Base.Dict.{Dict, get}
use ipa_diagnose.Base.Value.{Fields}
use ipa_diagnose.Diagnosis.Types.{Diagnosis, DiagnosisReport}
use ipa_diagnose.Verify.{
  resolved, unable_to_verify, VerifyItem, Runner, Surroundings, known_diagnosis_id, has_pack_gap,
  healthcheck_missing, crashed_checks, previous_by_id, by_id,
}
use ipa_diagnose.Verify.Baseline.{
  value_at, text_or, Detail, baseline_fixes, baseline_damage, baseline_problem, or_else,
  offered_without_record,
}
use ipa_diagnose.Verify.Compare.{
  fix_outcome, Judgement, settled, ask_fix, still, judge, judgement, carry_out, compare_one,
  compare_all, orphans, orphan_item, compare_with,
}

-- An element of a list.
abbrev pub Among : {A : Type 0} → A → List A → Type 0
Among a [] = ⊥
Among a (x ∷ l) = (a ≡ x) ⊎ Among a l

pub All-Among : {A : Type 0} (l : List A) → All (λ a. Among a l) l
All-Among [] = tt
All-Among {A} (x ∷ l) = (
  inl refl,
  All-mono {P = λ (a : A). Among a l} {Q = λ (a : A). Among a (x ∷ l)} (λ a h. inr h) l
      (All-Among l),
)

-- What holds of every element holds of one.
All-Among_in : {A : Type 0} (Q : A → Type 0) (a : A) (l : List A) → Among a l → All Q l → Q a
All-Among_in Q a [] m h = absurd m
All-Among_in Q a (x ∷ l) (inl e) h = subst Q (sym e) h.0
All-Among_in Q a (x ∷ l) (inr m) h = All-Among_in Q a l m h.1

-- The guards of the loop that let a missing diagnosis through to its fix.
abbrev Passed : Option Detail → Bool → Bool → Bool → Option Diagnosis → Bool → Bool → Type 0
Passed problem known hc gap d crashed missing =
    (problem ≡ none)
    × ((known ≡ true)
        × ((hc ≡ false) × ((gap ≡ false) × ((d ≡ none) × ((crashed ≡ false) × (missing ≡ false))))))

abbrev IsFinal : Judgement → Type 0 → Type 0
IsFinal (settled o d) P = o ≢ resolved
IsFinal ask_fix P = P

still-IsFinal : (a b : Bool) (d : Diagnosis) (P : Type 0) → IsFinal (still a b d) P
still-IsFinal true b d P = λ h. ground (arith, h)
still-IsFinal false true d P = λ h. ground (arith, h)
still-IsFinal false false d P = λ h. ground (arith, h)

-- A judgement is no RESOLVED of its own, and asks the fix only where every guard passed.
judge-IsFinal :
    (problem : Option Detail) (known hc gap : Bool) (d : Option Diagnosis) (crashed missing : Bool)
    (p : Fields)
    → IsFinal
        (judge problem known hc gap d crashed missing p)
        (Passed problem known hc gap d crashed missing)
judge-IsFinal (some x) known hc gap d crashed missing p = λ h. ground (arith, h)
judge-IsFinal none false hc gap d crashed missing p = λ h. ground (arith, h)
judge-IsFinal none true true gap d crashed missing p = λ h. ground (arith, h)
judge-IsFinal none true false true d crashed missing p = λ h. ground (arith, h)
judge-IsFinal none true false false none true missing p = λ h. ground (arith, h)
judge-IsFinal none true false false none false true p = λ h. ground (arith, h)
judge-IsFinal none true false false none false false p =
    (refl, (refl, (refl, (refl, (refl, (refl, refl))))))
judge-IsFinal none true false false (some d) crashed missing p = still-IsFinal _ _ d _

module _ {W : Type 0} (s : Surroundings) (previous : Fields) (current : DiagnosisReport)
    (runner : Option (Runner W)) where
  -- What a RESOLVED item rests on: the saved report is a baseline for this run, the program still
  -- knows the diagnosis, the fresh evidence has no gap that could hide it, it is not in the fresh
  -- report, no shown fix lost its record, and its fix, if one was saved, is confirmed.
  pub record IsConfirmed (i : VerifyItem) : Type 0 where
    pub saved : Fields
    pub among : Among (i.diagnosis_id, saved) (previous_by_id s.unicode previous)
    pub usable :
        or_else (baseline_problem s.unicode previous current) (baseline_damage s.unicode previous)
        ≡ none
    pub known : known_diagnosis_id s.packs i.diagnosis_id ≡ true
    pub collected : healthcheck_missing current ≡ false
    pub no_gap : has_pack_gap s current (text_or "" (value_at saved "pack_id")) ≡ false
    pub absent : get (by_id current.diagnoses []) i.diagnosis_id ≡ none
    pub no_crash : crashed_checks current ≡ false
    pub recorded :
        contains (offered_without_record previous (baseline_fixes previous)) i.diagnosis_id ≡ false
    pub state : W
    pub fixed :
        (fix_outcome (get (baseline_fixes previous) i.diagnosis_id) runner state).0.0 ≡ resolved

  carry-resolved :
      (j : Judgement) (P : Type 0) (fix : Option Fields) (w : W)
      → IsFinal j P
      → (carry_out s previous current runner j fix w).0.0 ≡ resolved
      → P × ((fix_outcome fix runner w).0.0 ≡ resolved)
  carry-resolved (settled o d) P fix w f h = absurd (f h)
  carry-resolved ask_fix P fix w f h = (f, h)

  -- The guards, for one saved diagnosis.
  abbrev PassedAt : String → Fields → Type 0
  PassedAt id p =
      Passed
        (or_else (baseline_problem s.unicode previous current) (baseline_damage s.unicode previous))
        (known_diagnosis_id s.packs id) (healthcheck_missing current)
        (has_pack_gap s current (text_or "" (value_at p "pack_id")))
        (get (by_id current.diagnoses []) id) (crashed_checks current)
        (contains (offered_without_record previous (baseline_fixes previous)) id)

  judgement-IsFinal :
      (id : String) (p : Fields)
      → IsFinal (judgement s previous current runner id p) (PassedAt id p)
  unfolding judgement
  judgement-IsFinal id p = judge-IsFinal _ _ _ _ _ _ _ p

  one-IsConfirmed :
      (e : String × Fields) (w : W)
      → Among e (previous_by_id s.unicode previous)
      → (compare_one s previous current runner e.0 e.1 w).0.outcome ≡ resolved
      → IsConfirmed (compare_one s previous current runner e.0 e.1 w).0
  unfolding compare_one
  one-IsConfirmed e w m h =
      let j = judgement s previous current runner e.0 e.1 in
      let x =
        carry-resolved j (PassedAt e.0 e.1) (get (baseline_fixes previous) e.0) w
          (judgement-IsFinal e.0 e.1) h in
      record {
        saved = e.1;
        among = m;
        usable = x.0.0;
        known = x.0.1.0;
        collected = x.0.1.1.0;
        no_gap = x.0.1.1.1.0;
        absent = x.0.1.1.1.1.0;
        no_crash = x.0.1.1.1.1.1.0;
        recorded = x.0.1.1.1.1.1.1;
        state = w;
        fixed = x.1;
      }

  -- What holds of the item of each saved diagnosis, in whatever state, holds of all items.
  compare_all-All :
      (Q : VerifyItem → Type 0) (l : Dict String Fields) (w : W)
      → All (λ e. (v : W) → Q (compare_one s previous current runner e.0 e.1 v).0) l
      → All Q (compare_all s previous current runner l w).0
  unfolding compare_all
  compare_all-All Q [] w h = tt
  compare_all-All Q ((i, p) ∷ l) w h = (h.0 w, compare_all-All Q l _ h.1)

  All-orphans :
      (Q : VerifyItem → Type 0)
      → ((i : String) → Q (orphan_item s previous current runner i))
      → (l : List String) → All Q (map (orphan_item s previous current runner) l)
  All-orphans Q f [] = tt
  All-orphans Q f (x ∷ l) = (f x, All-orphans Q f l)

  -- The items of the diagnoses and of the orphans.
  pub items-All :
      (Q : VerifyItem → Type 0) (w : W)
      → All
          (λ e. (v : W) → Q (compare_one s previous current runner e.0 e.1 v).0)
          (previous_by_id s.unicode previous)
      → ((i : String) → Q (orphan_item s previous current runner i))
      → All Q (compare_with s previous current runner w).0.items
  unfolding compare_with
  items-All Q w h f =
      All-append Q _ _ (compare_all-All Q (previous_by_id s.unicode previous) w h)
        (All-orphans Q f (orphans s previous current runner))

  pub orphan_unable :
      (x : String) → (orphan_item s previous current runner x).outcome ≡ unable_to_verify
  unfolding orphan_item
  orphan_unable x = refl

  -- An item that is RESOLVED is of a saved diagnosis, the saved report is a baseline for this run,
  -- the program can still produce the diagnosis, the fresh evidence has no gap for the full health
  -- check, for its pack or from a crashed check, the diagnosis is not in the fresh report, no fix that
  -- was shown for it lost its record, and its fix has the outcome RESOLVED.
  pub compare-IsConfirmed :
      (w : W) (i : VerifyItem)
      → Among i (compare_with s previous current runner w).0.items
      → i.outcome ≡ resolved
      → IsConfirmed i
  compare-IsConfirmed w i m =
      All-Among_in (λ x. x.outcome ≡ resolved → IsConfirmed x) i _ m
        (items-All (λ x. x.outcome ≡ resolved → IsConfirmed x) w
          (All-mono (λ e k v h. one-IsConfirmed e v k h) (previous_by_id s.unicode previous)
            (All-Among (previous_by_id s.unicode previous)))
          orphan_unresolved)
    where
      orphan_unresolved :
          (x : String)
          → (orphan_item s previous current runner x).outcome ≡ resolved
          → IsConfirmed (orphan_item s previous current runner x)
      orphan_unresolved x h =
          let e : unable_to_verify ≡ resolved = sym (orphan_unable x) ∙ h in
          absurd (ground (arith, e))
