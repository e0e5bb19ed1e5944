-- ===== src/Planner/Subjects/Valid.antt =====
-- The subjects that `_subjects` picks, and the validator of their type.
use ipa_diagnose.Base.{
  ◌≡◌, refl, string_eq, String, Bool, true, false, Option, none, some, List, [], ◌∷◌, map, All,
  All-take, take, if◌then◌else◌,
}
use ipa_diagnose.Base.Dict.{Dict, put, has, keys, All-put}
use ipa_diagnose.Base.Strings.{str_lt, All-sorted}
use ipa_diagnose.Base.Value.{Value, str, put_field, Fields, Items}
use ipa_diagnose.TextSafe.Scan.{Unicode}
use ipa_diagnose.Planner.Types.{
  Outcome, pass, warn, fail, unknown, Host, ForEach, Context, skipped, EnumRecord,
}
use ipa_diagnose.Resolution.Types.{Answer, accepted, refused, value_error}
use ipa_diagnose.Planner.Validate.{PlanError, Result, value_error_raised, Ends, Ends-bind}
use ipa_diagnose.Planner.Context.{rpartition, outcome}
use ipa_diagnose.Planner.Subjects.{
  Subject, Collected, collect, collect_by, key_value, item_of, chosen, ordered, subjects, entries,
  listed_subjects, subjects_by,
}

-- The validator of the type returned this name for some value.
abbrev pub IsValidated : (String → Value → Answer) → String → String → Type 0
IsValidated validate kind s = (v : Value) × (validate kind v ≡ accepted s)

-- The error is the ValueError that the validator of the type raised for some value.
abbrev pub IsRaised : (String → Value → Answer) → String → PlanError → Type 0
IsRaised validate kind e =
    (e ≡ value_error_raised) × ((v : Value) × (validate kind v ≡ value_error))

module _ (u : Unicode) (validate : String → Value → Answer) (kind : String) where
  abbrev Good : Collected → Type 0
  Good c = All (λ e. IsValidated validate kind e.0) c.good

  collect_by-Good :
      (a : Answer) (entry : Value) (c : Collected)
      → validate kind (key_value entry) ≡ a
      → Good c
      → Ends (IsRaised validate kind) Good (collect_by u validate kind a entry c)
  collect_by-Good value_error entry c e h = (refl, (key_value entry, e))
  collect_by-Good refused entry c e h = h
  collect_by-Good (accepted s) entry c e h = keep (has c.good s)
    where
      keep :
          (b : Bool)
          → Good (
              if b
              then c
              else record c { good = put c.good s (put_field (item_of entry) "subject" (str s)) })
      keep true = h
      keep false = All-put (λ k f. IsValidated validate kind k) c.good s _ h (key_value entry, e)

  collect-Good :
      (l : List Value) (c : Collected)
      → Good c
      → Ends (IsRaised validate kind) Good (collect u validate kind l c)
  unfolding collect
  collect-Good [] c h = h
  collect-Good (x ∷ l) c h =
      Ends-bind (IsRaised validate kind) Good Good
        (collect_by u validate kind (validate kind (key_value x)) x c) _
        (collect_by-Good (validate kind (key_value x)) x c refl h) (λ d k. collect-Good l d k)

All-keys :
    {V : Type 0} (P : String → Type 0) (d : Dict String V) → All (λ e. P e.0) d → All P (keys d)
unfolding keys
All-keys P [] h = tt
All-keys P (e ∷ d) h = (h.0, All-keys P d h.1)

All-paired :
    (P : String → Type 0) (f : String → Fields) (l : List String)
    → All P l
    → All (λ (e : Subject). P e.0) (map (λ k. (k, f k)) l)
All-paired P f [] h = tt
All-paired P f (x ∷ l) h = (h.0, All-paired P f l h.1)

chosen-All :
    (P : String → Type 0) (c : Context) (t : ForEach) (found : Collected)
    → All (λ e. P e.0) found.good
    → All (λ e. P e.0) (chosen c t found).0
unfolding chosen ordered
chosen-All P c t found h = All-paired P _ (take t.max_instances (ordered found)) (
    All-take P t.max_instances (ordered found)
      (All-sorted P str_lt (keys found.good) (All-keys P found.good h)))

module _ {W : Type 0} (u : Unicode) (host : Host W) (t : ForEach) (c : Context) where
  abbrev Valid : List Subject × EnumRecord → Type 0
  Valid r = All (λ (e : Subject). IsValidated host.validate t.subject_type e.0) r.0

  abbrev Listed : Result (List Subject × EnumRecord) → Type 0
  Listed r = Ends (IsRaised host.validate t.subject_type) Valid r

  listed_subjects-Valid : (o : Option Items) → Listed (listed_subjects u host t c o)
  listed_subjects-Valid none = tt
  listed_subjects-Valid (some xs) =
      Ends-bind (IsRaised host.validate t.subject_type)
        (λ d. All (λ e. IsValidated host.validate t.subject_type e.0) d.good) Valid
        (collect u host.validate t.subject_type (entries 1000 xs)
          (record { good = []; rejected = [] }))
        _
        (collect-Good u host.validate t.subject_type (entries 1000 xs)
          (record { good = []; rejected = [] }) tt)
        (λ d k. chosen-All (IsValidated host.validate t.subject_type) c t d k)

  subjects_by-Valid : (o : Option Outcome) → Listed (subjects_by u host t c o)
  subjects_by-Valid none = tt
  subjects_by-Valid (some skipped) = tt
  subjects_by-Valid (some pass) = listed_subjects-Valid _
  subjects_by-Valid (some warn) = listed_subjects-Valid _
  subjects_by-Valid (some fail) = tt
  subjects_by-Valid (some unknown) = tt

-- `_subjects` returns subjects each of which is what the validator of the template's subject type
-- returned for some value, or it raises the ValueError that this validator raised for some value.
pub subjects-IsValidated :
    {W : Type 0} (u : Unicode) (host : Host W) (t : ForEach) (c : Context)
    → Ends
        (IsRaised host.validate t.subject_type)
        (λ r. All (λ (e : Subject). IsValidated host.validate t.subject_type e.0) r.0)
        (subjects u host t c)
unfolding subjects
subjects-IsValidated u host t c = subjects_by-Valid u host t c (outcome c (rpartition t.source).0)
