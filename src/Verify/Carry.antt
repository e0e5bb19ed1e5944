-- ===== src/Verify/Carry.antt =====
-- `carry_forward_fixes` and `carried_diagnoses` of ipa_diagnose/verify.py: what a plain run keeps of the
-- fixes that were shown before.
use ipa_diagnose.Base.{
  ◌≡◌, refl, ap, inl, inr, subst, sym, arith, String, Bool, true, false, ◌&&◌, not, Option, none,
  some, List, [], ◌∷◌, ◌++◌, map, ◌==◌, if◌then◌else◌, any, filter, contains, string_eq,
}
use ipa_diagnose.Base.Value.{Value, Fields}
use ipa_diagnose.Diagnosis.Types.{Diagnosis, DiagnosisReport}
use ipa_diagnose.TextSafe.Scan.{Unicode}
use ipa_diagnose.Verify.{Runner}
use ipa_diagnose.Verify.Baseline.{
  value_at, as_list, items_of, entries, second, Detail, baseline_fixes, baseline_damage,
  baseline_problem, or_else,
}
use ipa_diagnose.Verify.Compare.{is_pass}
use ipa_diagnose.Verify.Compare.Sound.{Among}

-- `if ...: kept.append(f)`
abbrev pub kept_if : Bool → Fields → List Fields → List Fields
kept_if true f l = f ∷ l
kept_if false f l = l

module _ {W : Type 0} where
  abbrev pub checked_unfixed : Runner W → Option Value → Bool → W → Bool × W
  checked_unfixed r none fine w = (false, w)
  checked_unfixed r (some c) false w = (false, w)
  checked_unfixed r (some c) true w =
      (any (λ x. not (is_pass x.1)) (r.evaluate c w).0, (r.evaluate c w).1)

  -- `_still_unfixed`
  unfoldable pub still_unfixed : Runner W → Fields → W → Bool × W
  unfolding any
  still_unfixed r f w =
      let b = (r.rebuild f w).0 in checked_unfixed r b.criteria (b.problem == "") (r.rebuild f w).1

  -- Whether a fix is kept: it was shown again or confirmed, its diagnosis is still there, or its own
  -- checks tell.
  abbrev pub is_kept : Bool → Bool → Option (Runner W) → Fields → W → Bool × W
  is_kept true present runner f w = (false, w)
  is_kept false true runner f w = (true, w)
  is_kept false false none f w = (true, w)
  is_kept false false (some r) f w = still_unfixed r f w

  unfoldable pub carry_fixes :
      (settled fresh : List String)
      → Option (Runner W)
      → List (String × Fields)
      → W
      → List Fields × W
  unfolding still_unfixed contains
  carry_fixes settled fresh runner [] w = ([], w)
  carry_fixes settled fresh runner ((did, f) ∷ l) w =
      let k = is_kept (contains settled did) (contains fresh did) runner f w in
      let rest = carry_fixes settled fresh runner l k.1 in (kept_if k.0 f rest.0, rest.1)

  -- No baseline, or one that is none for this run, has nothing to carry.
  abbrev pub carry_unless : Option Detail → List Fields × W → W → List Fields × W
  carry_unless (some d) kept w = ([], w)
  carry_unless none kept w = kept

  -- `carry_forward_fixes`; `shown_now` are the ids whose resolution has the status OFFERED.
  unfoldable pub carry_forward_fixes :
      Unicode
      → Option Fields
      → DiagnosisReport
      → (shown_now confirmed : List String) → Option (Runner W)
      → W
      → List Fields × W
  unfolding carry_fixes baseline_problem baseline_damage baseline_fixes
  carry_forward_fixes u none report shown_now confirmed runner w = ([], w)
  carry_forward_fixes u (some previous) report shown_now confirmed runner w =
      carry_unless (or_else (baseline_problem u previous report) (baseline_damage u previous))
        (carry_fixes (shown_now ++ confirmed) (map (λ d. d.diagnosis_id) report.diagnoses) runner
          (baseline_fixes previous) w)
        w

-- The first entry of each id that is wanted.
unfoldable pub first_wanted : List String → List (String × Fields) → List String → List Fields
unfolding contains
first_wanted wanted [] seen = []
first_wanted wanted ((did, d) ∷ l) seen =
    let new = contains wanted did && not (contains seen did) in
    let rest = first_wanted wanted l (if new then did ∷ seen else seen) in
    if new then d ∷ rest else rest

-- `carried_diagnoses`
unfoldable pub carried_diagnoses : Option Fields → DiagnosisReport → List Fields → List Fields
unfolding first_wanted filter contains entries value_at second
carried_diagnoses none report carried = []
carried_diagnoses (some previous) report carried =
    let fresh = map (λ d. d.diagnosis_id) report.diagnoses in
    let ids = map (λ e. e.0) (entries (items_of carried)) in
    first_wanted (filter (λ i. not (contains fresh i)) ids)
      (entries (as_list (value_at previous "diagnoses"))
        ++ entries (as_list (value_at (second previous) "carried_diagnoses")))
      []

kept_first :
    {W : Type 0} (x y : Bool) (runner : Option (Runner W)) (g : Fields) (w : W) (l : List Fields)
    → x ≡ false
    → y ≡ true
    → Among g (kept_if (is_kept x y runner g w).0 g l)
kept_first false true runner g w l a b = inl refl
kept_first false false runner g w l a b = absurd (ground (arith, b))
kept_first true y runner g w l a b = absurd (ground (arith, a))

kept_later : (b : Bool) (f g : Fields) (l : List Fields) → Among f l → Among f (kept_if b g l)
kept_later true f g l m = inr m
kept_later false f g l m = m

carry_fixes_kept :
    {W : Type 0} (settled fresh : List String) (runner : Option (Runner W))
    (l : List (String × Fields)) (w : W) (did : String) (f : Fields)
    → Among (did, f) l
    → contains settled did ≡ false
    → contains fresh did ≡ true
    → Among f (carry_fixes settled fresh runner l w).0
unfolding carry_fixes
carry_fixes_kept settled fresh runner [] w did f m a b = absurd m
carry_fixes_kept settled fresh runner ((i, g) ∷ l) w did f (inl e) a b =
    let p : did ≡ i = ap (λ t. t.0) e in
    let q : f ≡ g = ap (λ t. t.1) e in
    subst (λ h. Among h (carry_fixes settled fresh runner ((i, g) ∷ l) w).0) (sym q)
      (kept_first (contains settled i) (contains fresh i) runner g w _
        (subst (λ j. contains settled j ≡ false) p a) (subst (λ j. contains fresh j ≡ true) p b))
carry_fixes_kept settled fresh runner ((i, g) ∷ l) w did f (inr m) a b =
    kept_later _ f g _ (carry_fixes_kept settled fresh runner l _ did f m a b)

-- From a usable baseline, the record of a fix whose diagnosis is still in the fresh report is carried
-- into the next one, unless the fix was shown again or was just confirmed.
pub carry_forward_fixes_kept :
    {W : Type 0} (u : Unicode) (previous : Fields) (report : DiagnosisReport)
    (shown_now confirmed : List String) (runner : Option (Runner W)) (w : W) (did : String)
    (f : Fields)
    → or_else (baseline_problem u previous report) (baseline_damage u previous) ≡ none
    → Among (did, f) (baseline_fixes previous)
    → contains (shown_now ++ confirmed) did ≡ false
    → contains (map (λ d. d.diagnosis_id) report.diagnoses) did ≡ true
    → Among f (carry_forward_fixes u (some previous) report shown_now confirmed runner w).0
unfolding carry_forward_fixes
carry_forward_fixes_kept u previous report shown_now confirmed runner w did f h m a b = rw h (
    carry_fixes_kept (shown_now ++ confirmed)
      (map (λ (d : Diagnosis). d.diagnosis_id) report.diagnoses) runner (baseline_fixes previous) w
      did f m a b)
