-- ===== src/Verify/Loaded.antt =====
-- What `load_previous_report` of ipa_diagnose/verify.py makes of a saved report.
use ipa_diagnose.Base.{
  ◌≡◌, ◌⊎◌, ap, refl, subst, arith, String, Option, true, none, some, some-injective, List, [], ◌∷◌,
  map, ◌==◌, ==_refl, All, string_eq, Bool-cases, inl, inr,
}
use ipa_diagnose.Base.Value.{
  Value, null, boolean, number, str, array, dict, other, Items, nil, cons, Fields, get_field,
  put_field, get_field-put_field,
}
use ipa_diagnose.TextSafe.Scan.{Unicode}
use ipa_diagnose.TextSafe.{sanitize_text}
use ipa_diagnose.Verify.Baseline.{
  value_at, is_text, text_field, titled, tidied, dated, load_list, entries, items_of, or_no_items,
  load_previous_report,
}

-- The entry of the key is a text.
abbrev pub HasText : Fields → String → Type 0
HasText d k = is_text (value_at d k) ≡ true

put-HasText : (d : Fields) (k : String) (s : String) → HasText (put_field d k (str s)) k
unfolding value_at
put-HasText d k s = rw (get_field-put_field d k k (str s), ==_refl k) refl

put_keeps :
    (d : Fields) (k j : String) (s : String) → HasText d j → HasText (put_field d k (str s)) j
unfolding value_at
put_keeps d k j s h = elim (Bool-cases (j == k)) [
  | inl e ↦ rw (get_field-put_field d k j (str s), e) refl
  | inr e ↦ rw (get_field-put_field d k j (str s), e) h
]

text_field-HasText : (k : String) (d : Fields) → HasText (text_field k d) k
unfolding text_field
text_field-HasText k d = elim (Bool-cases (is_text (value_at d k))) [
  | inl e ↦ rw e e
  | inr e ↦ rw e (put-HasText d k "")
]

text_field_keeps : (k j : String) (d : Fields) → HasText d j → HasText (text_field k d) j
unfolding text_field
text_field_keeps k j d h = elim (Bool-cases (is_text (value_at d k))) [
  | inl e ↦ rw e h
  | inr e ↦ rw e (put_keeps d k j "" h)
]

-- The entries that the program reads of a saved diagnosis are texts.
abbrev pub IsTidy : Fields → Type 0
IsTidy d = All (HasText d) ("diagnosis_id" ∷ "title" ∷ "pack_id" ∷ "priority" ∷ "status" ∷ [])

-- The three fields that are made texts, after the id and the title.
completed :
    (x : Fields)
    → HasText x "diagnosis_id"
    → HasText x "title"
    → IsTidy (text_field "status" (text_field "priority" (text_field "pack_id" x)))
completed x h t =
    let y = text_field "pack_id" x in
    let z = text_field "priority" y in
    let keep : (j : String) → HasText y j → HasText (text_field "status" z) j =
      λ j k. text_field_keeps "status" j z (text_field_keeps "priority" j y k) in
    (
      keep "diagnosis_id" (text_field_keeps "pack_id" "diagnosis_id" x h),
      (
        keep "title" (text_field_keeps "pack_id" "title" x t),
        (
          keep "pack_id" (text_field-HasText "pack_id" x),
          (
            text_field_keeps "status" "priority" z (text_field-HasText "priority" y),
            (text_field-HasText "status" z, tt),
          ),
        ),
      ),
    )

titled_id : (u : Unicode) (did : String) (d : Fields) → HasText (titled u did d) "diagnosis_id"
unfolding titled
titled_id u did d =
    put_keeps (put_field d "diagnosis_id" (str (sanitize_text u did 160))) "title" "diagnosis_id" _
      (put-HasText d "diagnosis_id" (sanitize_text u did 160))

titled_title : (u : Unicode) (did : String) (d : Fields) → HasText (titled u did d) "title"
unfolding titled
titled_title u did d =
    put-HasText (put_field d "diagnosis_id" (str (sanitize_text u did 160))) "title" _

tidied-IsTidy : (u : Unicode) (e : String × Fields) → IsTidy (tidied u e)
unfolding tidied
tidied-IsTidy u (did, d) = completed (titled u did d) (titled_id u did d) (titled_title u did d)

-- Every element of a list is a dict that satisfies `P`.
abbrev pub AllDicts : (Fields → Type 0) → Items → Type 0
AllDicts P nil = Unit
AllDicts P (cons (dict d) xs) = P d × AllDicts P xs
AllDicts P (cons _ xs) = ⊥

items-IsTidy :
    (u : Unicode) (l : List (String × Fields)) → AllDicts IsTidy (items_of (map (tidied u) l))
items-IsTidy u [] = tt
items-IsTidy u (e ∷ l) = (tidied-IsTidy u e, items-IsTidy u l)

dated_list : (d : Fields) (v : Value) → value_at (dated (put_field d "diagnoses" v)) "diagnoses" ≡ v
unfolding dated value_at
dated_list d v = elim (Bool-cases (is_text (value_at (put_field d "diagnoses" v) "generated_at"))) [
  | inl e ↦ rw (e, get_field-put_field d "diagnoses" "diagnoses" v) refl
  | inr e ↦
      rw
        (
          e,
          get_field-put_field (put_field d "diagnoses" v) "generated_at" "diagnoses"
              (str "an unknown time"),
          get_field-put_field d "diagnoses" "diagnoses" v,
        )
        refl
]

-- What is loaded is tidy: its diagnoses are a list of tidy dicts.
abbrev pub HasTidyList : Fields → Type 0
HasTidyList p = (xs : Items) × (value_at p "diagnoses" ≡ array xs) × AllDicts IsTidy xs

-- What was saved is a dict, with a list or nothing as its diagnoses.
abbrev pub IsReport : Value → Type 0
IsReport v =
    (fs : Fields) × (v ≡ dict fs)
    × ((get_field fs "diagnoses" ≡ none)
        ⊎ (ys : Items) × (get_field fs "diagnoses" ≡ some (array ys)))

list-IsTidy :
    (u : Unicode) (fs p : Fields) (v : Value)
    → load_list u fs v ≡ some p
    → HasTidyList p × ((ys : Items) × (v ≡ array ys))
list-IsTidy u fs p (array xs) h =
    let tidy_items = items_of (map (tidied u) (entries xs)) in
    let q : dated (put_field fs "diagnoses" (array tidy_items)) ≡ p = some-injective _ _ h in
    (subst HasTidyList q (tidy_items, dated_list fs _, items-IsTidy u (entries xs)), (xs, refl))
list-IsTidy u fs p null h = absurd (ground (arith, h))
list-IsTidy u fs p (boolean b) h = absurd (ground (arith, h))
list-IsTidy u fs p (number n) h = absurd (ground (arith, h))
list-IsTidy u fs p (str s) h = absurd (ground (arith, h))
list-IsTidy u fs p (dict gs) h = absurd (ground (arith, h))
list-IsTidy u fs p (other s) h = absurd (ground (arith, h))

or_no_items-cases :
    (o : Option Value) (ys : Items)
    → or_no_items o ≡ array ys
    → (o ≡ none) ⊎ (zs : Items) × (o ≡ some (array zs))
or_no_items-cases none ys h = inl refl
or_no_items-cases (some v) ys h = inr (ys, ap (λ x. some x) h)

-- A saved report that was loaded was a dict with a list, or nothing, as its diagnoses; the diagnoses
-- that were loaded are a list of dicts, and the id, the title, the pack, the priority and the status
-- of each are texts.
pub load_previous_report-IsTidy :
    (u : Unicode) (v : Value) (p : Fields)
    → load_previous_report u v ≡ some p
    → IsReport v × HasTidyList p
unfolding load_previous_report
load_previous_report-IsTidy u (dict fs) p h =
    let r = list-IsTidy u fs p (or_no_items (get_field fs "diagnoses")) h in
    ((fs, refl, or_no_items-cases (get_field fs "diagnoses") r.1.0 r.1.1), r.0)
load_previous_report-IsTidy u null p h = absurd (ground (arith, h))
load_previous_report-IsTidy u (boolean b) p h = absurd (ground (arith, h))
load_previous_report-IsTidy u (number n) p h = absurd (ground (arith, h))
load_previous_report-IsTidy u (str s) p h = absurd (ground (arith, h))
load_previous_report-IsTidy u (array xs) p h = absurd (ground (arith, h))
load_previous_report-IsTidy u (other s) p h = absurd (ground (arith, h))
