-- ===== src/Planner/Subjects/Complete.antt =====
-- What `_subjects` promises of the subjects that it picks and of its enumeration record.
use ipa_diagnose.Base.{
  ℕ, zero, suc, ap, ◌∙◌, drop, ◌≤◌, ◌≡◌, refl, string_eq, String, Bool, true, false, not, Option,
  none, some, List, [], ◌∷◌, ◌++◌, ◌⊎◌, inl, inr, ◌==◌, map, any, arith, length, length-take, take,
  if◌then◌else◌, All, All-mono, Bool-cases,
}
use ipa_diagnose.Base.Dict.{Dict, get, put, has, keys, get-put, get-put_self}
use ipa_diagnose.Base.Strings.{str_lt, any-sorted}
use ipa_diagnose.Base.Value.{Value, null, boolean, number, str, array, dict, other, Items, Fields}
use ipa_diagnose.TextSafe.Scan.{Unicode}
use ipa_diagnose.Resolution.Types.{Answer, accepted, refused, value_error}
use ipa_diagnose.Planner.Types.{
  Outcome, pass, warn, fail, unknown, skipped, Context, ForEach, Host, EnumRecord, complete,
  partial, Reason,
}
use ipa_diagnose.Planner.Context.{rpartition, fact, outcome}
use ipa_diagnose.Planner.Validate.{OnOk, OnOk-bind, OnOk-mono}
use ipa_diagnose.Planner.Subjects.{
  or_end, Collected, Subject, chosen, reasons, ordered, noted, is_empty, not_read_whole, key_value,
  entries, as_items, collect, collect_by, listed_subjects, subjects_by, subjects,
}

length-map : {A B : Type 0} (f : A → B) (l : List A) → length (map f l) ≡ length l
length-map f [] = refl
length-map f (x ∷ l) = omega (arith, length-map f l)

-- The reasons are empty only if none of the three conditions was noted.
status_lem :
    (dropped rejected : List String) (b : Bool) (r1 r2 r3 : Reason)
    → (if is_empty
          (noted (not (is_empty dropped)) r1 ++ (noted (not (is_empty rejected)) r2 ++ noted b r3))
        then complete
        else partial)
      ≡ complete
    → (dropped ≡ []) × ((rejected ≡ []) × (b ≡ false))
status_lem [] [] false r1 r2 r3 e = (refl, (refl, refl))
status_lem [] [] true r1 r2 r3 e = ground arith
status_lem [] (_ ∷ _) b r1 r2 r3 e = ground arith
status_lem (_ ∷ _) rejected b r1 r2 r3 e = ground arith

take-drop_nil : {A : Type 0} (n : ℕ) (l : List A) → drop n l ≡ [] → take n l ≡ l
take-drop_nil zero [] h = refl
take-drop_nil zero (x ∷ l) h = ground arith
take-drop_nil (suc n) [] h = refl
take-drop_nil (suc n) (x ∷ l) h = ap (λ r. x ∷ r) (take-drop_nil n l h)

-- A template never gets more subjects than its instance budget.
pub length-chosen-le :
    (c : Context) (t : ForEach) (found : Collected) → length (chosen c t found).0 ≤ t.max_instances
unfolding chosen
length-chosen-le c t found =
    let pair : String → Subject = λ k. (k, or_end (get found.good k)) in
    omega (
      arith,
      length-map {B = Subject} pair (take t.max_instances (ordered found)),
      length-take t.max_instances (ordered found),
    )

chosen-complete :
    (c : Context) (t : ForEach) (found : Collected)
    → (chosen c t found).1.status ≡ complete
    → (take t.max_instances (ordered found) ≡ ordered found)
      × ((found.rejected ≡ []) × (not_read_whole c t.complete_fact ≡ false))
unfolding chosen reasons
chosen-complete c t found e =
    let all = status_lem (drop t.max_instances (ordered found)) found.rejected _ _ _ _ e in
    (take-drop_nil t.max_instances (ordered found) all.0, all.1)

module _ (u : Unicode) (validate : String → Value → Answer) (kind : String) where
  -- The entry has a valid name, which was collected.
  abbrev IsCollected : Collected → Value → Type 0
  IsCollected f entry =
      (s : String) × (validate kind (key_value entry) ≡ accepted s) × (has f.good s ≡ true)

  -- No name and no rejection is lost from `c` to `f`.
  record Grows (c f : Collected) : Type 0 where
    names_kept : (k : String) → has c.good k ≡ true → has f.good k ≡ true
    rejections_kept : f.rejected ≡ [] → c.rejected ≡ []

  has-put :
      (d : Dict String Fields) (j k : String) (v : Fields)
      → has d k ≡ true
      → has (put d j v) k ≡ true
  unfolding has
  has-put d j k v h = rw (get-put d j k v) (ground (arith, h))

  append_nil : (l : List String) (x : String) → l ++ x ∷ [] ≡ [] → l ≡ []
  append_nil [] x h = refl
  append_nil (y ∷ l) x h = absurd (ground (arith, h))

  collect_by-Grows :
      (a : Answer) (entry : Value) (c : Collected)
      → OnOk
          (λ d.
            Grows c d × (d.rejected ≡ [] → (s : String) × (a ≡ accepted s) × (has d.good s ≡ true)))
          (collect_by u validate kind a entry c)
  collect_by-Grows value_error entry c = tt
  collect_by-Grows refused entry c = (
    record { names_kept = λ k h. h; rejections_kept = append_nil c.rejected _ },
    λ h. absurd (some_rejected c.rejected _ h),
  )
    where
      some_rejected : (l : List String) (x : String) → l ++ x ∷ [] ≡ [] → ⊥
      some_rejected [] x h = ground (arith, h)
      some_rejected (y ∷ l) x h = ground (arith, h)
  collect_by-Grows (accepted s) entry c = elim (Bool-cases (has c.good s)) [
    | inl e ↦ rw e (record { names_kept = λ k h. h; rejections_kept = λ h. h }, λ h. (s, refl, e))
    | inr e ↦ rw e (
      record { names_kept = λ k h. has-put c.good s k _ h; rejections_kept = λ h. h },
      λ h. (s, refl, unfold has in rw get-put_self refl),
    )
  ]

  collect-IsCollected :
      (l : List Value) (c : Collected)
      → OnOk
          (λ f. Grows c f × (f.rejected ≡ [] → All (IsCollected f) l))
          (collect u validate kind l c)
  unfolding collect
  collect-IsCollected [] c = (record { names_kept = λ k h. h; rejections_kept = λ h. h }, λ h. tt)
  collect-IsCollected (x ∷ l) c =
      OnOk-bind
        (λ d.
          Grows c d
          × (d.rejected ≡ []
              → (s : String) × (validate kind (key_value x) ≡ accepted s) × (has d.good s ≡ true)))
        (λ f. Grows c f × (f.rejected ≡ [] → All (IsCollected f) (x ∷ l)))
        (collect_by u validate kind (validate kind (key_value x)) x c) _
        (collect_by-Grows (validate kind (key_value x)) x c)
        λ d one.
          OnOk-mono (λ f. Grows d f × (f.rejected ≡ [] → All (IsCollected f) l))
            (λ f. Grows c f × (f.rejected ≡ [] → All (IsCollected f) (x ∷ l)))
            (collect u validate kind l d) (collect-IsCollected l d)
            λ f rest. (
              record {
                names_kept = λ k h. rest.0.names_kept k (one.0.names_kept k h);
                rejections_kept = λ h. one.0.rejections_kept (rest.0.rejections_kept h);
              },
              λ h.
                  let s = one.1 (rest.0.rejections_kept h) in
                  ((s.0, s.1, rest.0.names_kept s.0 s.2), rest.1 h),
            )

any-map :
    {A B : Type 0} (p : B → Bool) (f : A → B) (l : List A) → any p (map f l) ≡ any (λ x. p (f x)) l
unfolding any
any-map p f [] = refl
any-map p f (x ∷ l) = ground (arith, any-map p f l)

has-keys :
    (d : Dict String Fields) (s : String) → has d s ≡ true → any (λ k. s == k) (keys d) ≡ true
unfolding has get keys any
has-keys [] s h = ground (arith, h)
has-keys ((j, v) ∷ d) s h = ground (arith, h, has-keys d s)

-- The name of the entry is valid, and is that of a subject.
abbrev pub IsSubject : (String → Value → Answer) → ForEach → List Subject → Value → Type 0
IsSubject validate t l entry =
    (s : String) × (validate t.subject_type (key_value entry) ≡ accepted s)
    × (any (λ (e : Subject). s == e.0) l ≡ true)

-- A complete enumeration covers the list that the source established.
abbrev pub Covers : (String → Value → Answer) → ForEach → Context → List Subject → Type 0
Covers validate t c l =
    (xs : Items) × (fact c t.source null ≡ array xs)
    × All (IsSubject validate t l) (entries 1000 xs)
    × (not_read_whole c t.complete_fact ≡ false)

module _ {W : Type 0} (u : Unicode) (host : Host W) (t : ForEach) (c : Context) where
  abbrev Whole : List Subject × EnumRecord → Type 0
  Whole r = r.1.status ≡ complete → Covers host.validate t c r.0

  chosen-Covers :
      (xs : Items) (found : Collected)
      → fact c t.source null ≡ array xs
      → (found.rejected ≡ []
          → All (IsCollected u host.validate t.subject_type found) (entries 1000 xs))
      → Whole (chosen c t found)
  unfolding chosen ordered
  chosen-Covers xs found read all e =
      let w = chosen-complete c t found e in
      (
        xs,
        read,
        All-mono
            (λ entry h. (
              h.0,
              h.1,
              (any-map (λ (e : Subject). h.0 == e.0) _ (take t.max_instances (ordered found))
                  ∙ (ap (any (λ k. h.0 == k)) w.0
                      ∙ (any-sorted str_lt (λ k. h.0 == k) (keys found.good)
                          ∙ has-keys found.good h.0 h.2))),
            ))
            (entries 1000 xs) (all w.1.0),
        w.1.1,
      )

  items_cases : (v : Value) → (as_items v ≡ none) ⊎ ((xs : Items) × (v ≡ array xs))
  items_cases (array xs) = inr (xs, refl)
  items_cases null = inl refl
  items_cases (boolean _) = inl refl
  items_cases (number _) = inl refl
  items_cases (str _) = inl refl
  items_cases (dict _) = inl refl
  items_cases (other _) = inl refl

  answered-Whole :
      (v : Value) → fact c t.source null ≡ v → OnOk Whole (listed_subjects u host t c (as_items v))
  answered-Whole v read = elim (items_cases v) [
    | inl e ↦ rw e (λ h. absurd (ground (arith, h)))
    | inr (xs, e) ↦ rw e (
        OnOk-bind
          (λ found.
            found.rejected ≡ []
            → All (IsCollected u host.validate t.subject_type found) (entries 1000 xs))
          Whole
          (collect u host.validate t.subject_type (entries 1000 xs)
            (record { good = []; rejected = [] }))
          _
          (OnOk-mono
            (λ f.
              Grows u host.validate t.subject_type (record { good = []; rejected = [] }) f
              × (f.rejected ≡ []
                  → All (IsCollected u host.validate t.subject_type f) (entries 1000 xs)))
            (λ f.
              f.rejected ≡ []
              → All (IsCollected u host.validate t.subject_type f) (entries 1000 xs))
            (collect u host.validate t.subject_type (entries 1000 xs)
              (record { good = []; rejected = [] }))
            (collect-IsCollected u host.validate t.subject_type (entries 1000 xs)
              (record { good = []; rejected = [] }))
            (λ f h. h.1))
          (λ found h. chosen-Covers xs found (read ∙ e) h))
  ]

  subjects_by-Whole : (o : Option Outcome) → OnOk Whole (subjects_by u host t c o)
  subjects_by-Whole none = λ h. absurd (ground (arith, h))
  subjects_by-Whole (some skipped) = λ h. absurd (ground (arith, h))
  subjects_by-Whole (some pass) = answered-Whole (fact c t.source null) refl
  subjects_by-Whole (some warn) = answered-Whole (fact c t.source null) refl
  subjects_by-Whole (some fail) = λ h. absurd (ground (arith, h))
  subjects_by-Whole (some unknown) = λ h. absurd (ground (arith, h))

  -- If `_subjects` returns an enumeration that is COMPLETE, then the source's fact is a list, each
  -- of the first 1000 entries of the list has a valid name, which is that of a subject, and the
  -- source did not leave open whether it read its whole list.
  pub subjects-complete :
      OnOk (λ r. r.1.status ≡ complete → Covers host.validate t c r.0) (subjects u host t c)
  unfolding subjects
  subjects-complete = subjects_by-Whole (outcome c (rpartition t.source).0)
