-- ===== src/Verify/Compare/Fixed.antt =====
-- When `_fix_outcome` of ipa_diagnose/verify.py confirms a fix.
use ipa_diagnose.Base.{
  ◌≡◌, ◌≢◌, ◌⊎◌, inl, inr, refl, arith, String, Bool, true, false, Option, none, some, List, [],
  ◌∷◌, all, all-All, All, ==_iff, All-mono, string_eq,
}
use ipa_diagnose.Base.Value.{Value, Fields}
use ipa_diagnose.Verify.{resolved, Runner}
use ipa_diagnose.Verify.Compare.{
  is_pass, grade, graded, rebuild_changed, after_rebuild, fix_outcome,
}

-- Every check of the fix ran and passed, and there is one.
abbrev pub AllPass : List (String × Option Bool) → Type 0
AllPass results = (results ≢ []) × All (λ r. r.1 ≡ some true) results

grade_resolved :
    (a b replay : Bool) (l : List (String × Option Bool))
    → (grade a b replay l).0 ≡ resolved
    → (a ≡ false) × (b ≡ true)
grade_resolved true b replay l h = absurd (ground (arith, h))
grade_resolved false true replay l h = (refl, refl)
grade_resolved false false replay l h = absurd (ground (arith, h))

is_pass_lem : (o : Option Bool) → is_pass o ≡ true → o ≡ some true
is_pass_lem none h = absurd (ground (arith, h))
is_pass_lem (some true) h = refl
is_pass_lem (some false) h = absurd (ground (arith, h))

all_pass_lem :
    (l : List (String × Option Bool))
    → all (λ r. is_pass r.1) l ≡ true
    → All (λ r. r.1 ≡ some true) l
all_pass_lem l h =
    All-mono {Q = λ (r : String × Option Bool). r.1 ≡ some true} (λ r k. is_pass_lem r.1 k) l
      (all-All (λ r. is_pass r.1) l h)

graded-AllPass :
    (replay : Bool) (l : List (String × Option Bool)) → (graded replay l).0 ≡ resolved → AllPass l
unfolding graded
graded-AllPass replay [] h = absurd (ground (arith, h))
graded-AllPass replay (x ∷ l) h =
    (λ e. ground (arith, e), all_pass_lem (x ∷ l) (grade_resolved _ _ replay (x ∷ l) h).1)

-- The criteria of the fix were rebuilt and are those that were saved, and each of them passes now.
abbrev pub IsFixed : {W : Type 0} → Runner W → Fields → W → Type 0
IsFixed r f w =
    (c : Value) × ((r.rebuild f w).0.criteria ≡ some c)
    × ((r.rebuild f w).0.problem ≢ rebuild_changed)
    × AllPass (r.evaluate c (r.rebuild f w).1).0

run_resolved :
    {W : Type 0} (r : Runner W) (o : Option Value) (b : Bool) (why : String) (w : W)
    → (after_rebuild r o b why w).0.0 ≡ resolved
    → (c : Value) × (o ≡ some c) × (b ≡ false) × AllPass (r.evaluate c w).0
run_resolved r none b why w h = absurd (ground (arith, h))
run_resolved r (some c) true why w h = absurd (ground (arith, h))
run_resolved r (some c) false why w h =
    (c, refl, refl, graded-AllPass r.replay (r.evaluate c w).0 h)

run_fix :
    {W : Type 0} (f : Fields) (r : Runner W) (w : W)
    → (fix_outcome (some f) (some r) w).0.0 ≡ resolved
    → IsFixed r f w
unfolding fix_outcome
run_fix f r w h =
    let x = run_resolved r _ _ _ _ h in
    (x.0, x.1, λ e. not_both _ ((==_iff _ rebuild_changed).1 e) x.2, x.3)
  where
    not_both : (b : Bool) → b ≡ true → b ≡ false → ⊥
    not_both b p q = ground (arith, p, q)

-- A fix is found RESOLVED only in one of three ways: it has no saved record; no runner was given, and
-- nothing was run; or it has a record and a runner was given, its criteria could be rebuilt and are
-- those that were saved, and there is at least one of them and each passes in a fresh check.
pub fix_outcome-IsFixed :
    {W : Type 0} (fix : Option Fields) (runner : Option (Runner W)) (w : W)
    → (fix_outcome fix runner w).0.0 ≡ resolved
    → (fix ≡ none)
      ⊎ ((runner ≡ none)
          ⊎ (f : Fields) × (r : Runner W) × (fix ≡ some f) × (runner ≡ some r) × IsFixed r f w)
fix_outcome-IsFixed none runner w h = inl refl
fix_outcome-IsFixed (some f) none w h = inr (inl refl)
fix_outcome-IsFixed (some f) (some r) w h = inr (inr (f, r, refl, refl, run_fix f r w h))
