-- ===== src/Verify/Compare/Unusable.antt =====
-- The saved reports that `compare` of ipa_diagnose/verify.py cannot use (`_baseline_problem` and
-- `_baseline_damage`), described by what they have and lack.
use ipa_diagnose.Base.{
  ◌≡◌, ◌≢◌, ◌==◌, ◌||◌, none, is_some, ◌⊎◌, refl, inl, inr, arith, String, Bool, true, false, ◌&&◌,
  not, Option, some, [], string_eq,
}
use ipa_diagnose.Base.Strings.{chars}
use ipa_diagnose.TextSafe.Scan.{Unicode, strip}
use ipa_diagnose.Base.Value.{
  Value, null, boolean, number, str, array, dict, other, pos, Items, Fields, get_field, value_eq,
}
use ipa_diagnose.Diagnosis.Types.{DiagnosisReport}
use ipa_diagnose.Verify.Baseline.{
  host_problem, Detail, baseline_damage, baseline_problem, or_else, value_at, truth, is_list,
  is_broken, second, names_host, damage, is_nonempty, mode_problem,
}

-- The report says that it is of the second version, or has that version's part.
abbrev pub IsSecond : Fields → Type 0
IsSecond previous =
    (value_eq (value_at previous "report_schema_version") (number (pos 2)) ≡ true)
    ⊎ (is_some (get_field previous "v2") ≡ true)

abbrev pub record_of : Fields → Value
record_of previous = value_at (second previous) "verify_baseline"

-- The ways in which a saved report is of no use to the current run.
pub data IsUnusable (u : Unicode) (previous : Fields) (current : DiagnosisReport) : Type 0 where
  of_other_host :
      (saved : String)
      → value_at previous "hostname" ≡ str saved
      → (saved == "") ≡ false
      → (current.hostname == "") ≡ false
      → (saved == current.hostname) ≡ false
      → IsUnusable u previous current
  of_other_mode :
      truth (value_at previous "replay_source") ≢ is_nonempty current.replay_source
      → IsUnusable u previous current
  without_record :
      IsSecond previous
      → ((base : Fields) → record_of previous ≢ dict base)
      → IsUnusable u previous current
  of_other_schema :
      (base : Fields)
      → IsSecond previous
      → record_of previous ≡ dict base
      → value_eq (value_at base "schema") (number (pos 1)) ≡ false
      → IsUnusable u previous current
  without_fixes :
      (base : Fields)
      → IsSecond previous
      → record_of previous ≡ dict base
      → ((xs : Items) → value_at base "fixes" ≢ array xs)
      → IsUnusable u previous current
  without_host :
      IsSecond previous
      → ((name : String)
          → value_at previous "hostname" ≡ str name
          → strip u.is_space (chars name) ≡ [])
      → IsUnusable u previous current

-- There is a detail.
abbrev pub IsReason : Option Detail → Type 0
IsReason o = (d : Detail) × (o ≡ some d)

or_else-first : (a b : Option Detail) → IsReason a → IsReason (or_else a b)
or_else-first none b (d, e) = absurd (ground (arith, e))
or_else-first (some x) b h = (x, refl)

or_else-second : (a b : Option Detail) → IsReason b → IsReason (or_else a b)
or_else-second none b h = h
or_else-second (some x) b h = (x, refl)

mode_lem : (a b : Bool) → a ≢ b → IsReason (mode_problem a b)
mode_lem true true n = absurd (n refl)
mode_lem true false n = (_, refl)
mode_lem false true n = (_, refl)
mode_lem false false n = absurd (n refl)

host_lem :
    (u : Unicode) (saved here : String) (v : Value)
    → v ≡ str saved
    → (saved == "") ≡ false
    → (here == "") ≡ false
    → (saved == here) ≡ false
    → IsReason (host_problem u v here)
host_lem u saved here v e a b c = rw (e, a, b, c) (_, refl)

damage_lem :
    (broken host : Bool) → (broken ≡ true) ⊎ (host ≡ false) → IsReason (damage false broken host)
damage_lem true host h = (_, refl)
damage_lem false false h = (_, refl)
damage_lem false true (inl e) = absurd (ground (arith, e))
damage_lem false true (inr e) = absurd (ground (arith, e))

second_lem : (a b : Bool) → (a ≡ true) ⊎ (b ≡ true) → (not a && not b) ≡ false
second_lem a b (inl e) = rw e refl
second_lem true b (inr e) = refl
second_lem false b (inr e) = rw e refl

damaged :
    (u : Unicode) (previous : Fields)
    → IsSecond previous
    → (is_broken (record_of previous) ≡ true)
      ⊎ (names_host u (value_at previous "hostname") ≡ false)
    → IsReason (baseline_damage u previous)
unfolding baseline_damage
damaged u previous two h = rw (second_lem _ _ two) (damage_lem _ _ h)

not_dict-is_broken : (v : Value) → ((base : Fields) → v ≢ dict base) → is_broken v ≡ true
not_dict-is_broken (dict base) n = absurd (n base refl)
not_dict-is_broken null n = refl
not_dict-is_broken (boolean _) n = refl
not_dict-is_broken (number _) n = refl
not_dict-is_broken (str _) n = refl
not_dict-is_broken (array _) n = refl
not_dict-is_broken (other _) n = refl

not_array-is_list : (v : Value) → ((xs : Items) → v ≢ array xs) → is_list v ≡ false
not_array-is_list (array xs) n = absurd (n xs refl)
not_array-is_list null n = refl
not_array-is_list (boolean _) n = refl
not_array-is_list (number _) n = refl
not_array-is_list (str _) n = refl
not_array-is_list (dict _) n = refl
not_array-is_list (other _) n = refl

no_fixes-is_broken : (a b : Bool) → b ≡ false → (not a || not b) ≡ true
no_fixes-is_broken a b e = ground (arith, e)

nameless :
    (u : Unicode) (v : Value)
    → ((name : String) → v ≡ str name → strip u.is_space (chars name) ≡ [])
    → names_host u v ≡ false
nameless u (str s) h = rw (h s refl) refl
nameless u null h = refl
nameless u (boolean _) h = refl
nameless u (number _) h = refl
nameless u (array _) h = refl
nameless u (dict _) h = refl
nameless u (other _) h = refl

pub unusable_lem :
    (u : Unicode) (previous : Fields) (current : DiagnosisReport)
    → IsUnusable u previous current
    → IsReason (or_else (baseline_problem u previous current) (baseline_damage u previous))
unfolding baseline_problem
unusable_lem u previous current (of_other_host saved e a b c) =
    or_else-first (or_else (host_problem u (value_at previous "hostname") current.hostname) _)
      (baseline_damage u previous)
      (or_else-first (host_problem u (value_at previous "hostname") current.hostname) _
        (host_lem u saved current.hostname (value_at previous "hostname") e a b c))
unusable_lem u previous current (of_other_mode n) =
    or_else-first _ _ (or_else-second _ _ (mode_lem _ _ n))
unusable_lem u previous current (without_record two n) =
    or_else-second _ _ (damaged u previous two (inl (not_dict-is_broken _ n)))
unusable_lem u previous current (of_other_schema base two e n) =
    or_else-second _ _ (damaged u previous two (inl (rw (e, n) refl)))
unusable_lem u previous current (without_fixes base two e n) =
    or_else-second _ _
      (damaged u previous two (inl (rw e (no_fixes-is_broken _ _ (not_array-is_list _ n)))))
unusable_lem u previous current (without_host two h) =
    or_else-second _ _ (damaged u previous two (inr (nameless u _ h)))
