-- ===== src/Planner/Errors.antt =====
-- The errors of ipa_diagnose/planner/core.py as values: what `validate_plan` and `run_plan` raise, and
-- what is said of a result.
use ipa_diagnose.Base.{◌≡◌, refl, arith, Bool, true, false, List, [], ◌∷◌}

-- `PlanError`, by the guard that raises it, and the built-in errors that are raised on the way
pub data PlanError : Type 0 where
  reserved_id wrong_params later_dependency template_dependency bad_reference later_reference :
      PlanError
  too_many_retries needs_root_undeclared stops_the_run template_retries stray_stop_subject :
      PlanError
  too_many_steps too_large bad_template_id bad_budget unknown_subject_type bad_source : PlanError
  empty_template duplicate_step unknown_check too_much_fanout too_deep key_error
        value_error_raised :
      PlanError

pub data Result {ℓ} (A : Type ℓ) : Type ℓ where
  ok : A → Result A
  raise : PlanError → Result A

infixl 5 ◌>>=◌ ◌>>◌
abbrev pub ◌>>=◌ {ℓ κ} : {A : Type ℓ} {B : Type κ} → Result A → (A → Result B) → Result B
ok a >>= f = f a
raise e >>= f = raise e

abbrev pub ◌>>◌ {ℓ} : {B : Type ℓ} → Result (Unit {0}) → Result B → Result B
m >> k = m >>= λ _. k

-- What a result that is not an error satisfies.
abbrev pub OnOk {ℓ κ} : {A : Type ℓ} → (A → Type κ) → Result A → Type κ
OnOk P (ok a) = P a
OnOk P (raise e) = Unit

pub OnOk-bind {ℓ κ μ ν} :
    {A : Type ℓ} {B : Type κ} (P : A → Type μ) (Q : B → Type ν) (m : Result A) (f : A → Result B)
    → OnOk P m
    → ((a : A) → P a → OnOk Q (f a))
    → OnOk Q (m >>= f)
OnOk-bind P Q (ok a) f h k = k a h
OnOk-bind P Q (raise e) f h k = tt

pub OnOk-any {ℓ κ} : {A : Type ℓ} {P : A → Type κ} → ((a : A) → P a) → (r : Result A) → OnOk P r
OnOk-any h (ok a) = h a
OnOk-any h (raise e) = tt

pub OnOk-mono {ℓ κ μ} :
    {A : Type ℓ} (P : A → Type κ) (Q : A → Type μ) (m : Result A)
    → OnOk P m
    → ((a : A) → P a → Q a)
    → OnOk Q m
OnOk-mono P Q (ok a) h k = k a h
OnOk-mono P Q (raise e) h k = tt

-- The result is not an error, and satisfies `P`.
abbrev pub Yields {ℓ} : {A : Type ℓ} → (A → Type 0) → Result A → Type 0
Yields P (ok a) = P a
Yields P (raise e) = ⊥

-- The result satisfies `P`, or is an error that satisfies `E`.
abbrev pub Ends {ℓ} : {A : Type ℓ} → (PlanError → Type 0) → (A → Type 0) → Result A → Type 0
Ends E P (ok a) = P a
Ends E P (raise e) = E e

pub Ends-bind {ℓ κ} :
    {A : Type ℓ} {B : Type κ} (E : PlanError → Type 0) (P : A → Type 0) (Q : B → Type 0)
    (m : Result A) (f : A → Result B)
    → Ends E P m
    → ((a : A) → P a → Ends E Q (f a))
    → Ends E Q (m >>= f)
Ends-bind E P Q (ok a) f h k = k a h
Ends-bind E P Q (raise e) f h k = h

pub Ends-OnOk {ℓ} :
    {A : Type ℓ} (E : PlanError → Type 0) (P : A → Type 0) (Q : A → Type 0) (m : Result A)
    → Ends E P m
    → OnOk Q m
    → Ends E Q m
Ends-OnOk E P Q (ok a) h k = k
Ends-OnOk E P Q (raise e) h k = h

pub Yields-Ends {ℓ} :
    {A : Type ℓ} (E : PlanError → Type 0) (P : A → Type 0) (m : Result A) → Yields P m → Ends E P m
Yields-Ends E P (ok a) h = h
Yields-Ends E P (raise e) h = absurd h

pub Ends-mono {ℓ} :
    {A : Type ℓ} (E F : PlanError → Type 0) (P : A → Type 0) (Q : A → Type 0) (m : Result A)
    → Ends E P m
    → ((e : PlanError) → E e → F e)
    → ((a : A) → P a → Q a)
    → Ends F Q m
Ends-mono E F P Q (ok a) h j k = k a h
Ends-mono E F P Q (raise e) h j k = j e h

-- A ValueError that was raised on the way ends what was begun.
abbrev pub unless_raised {ℓ} : {A : Type ℓ} → Bool → A → Result A
unless_raised true a = raise value_error_raised
unless_raised false a = ok a

pub OnOk-unless_raised {ℓ κ} :
    {A : Type ℓ} (P : A → Type κ) (b : Bool) (a : A) → P a → OnOk P (unless_raised b a)
OnOk-unless_raised P true a h = tt
OnOk-unless_raised P false a h = h

pub Yields-bind {ℓ κ} :
    {A : Type ℓ} {B : Type κ} (P : A → Type 0) (Q : B → Type 0) (m : Result A) (f : A → Result B)
    → Yields P m
    → ((a : A) → P a → Yields Q (f a))
    → Yields Q (m >>= f)
Yields-bind P Q (ok a) f h k = k a h
Yields-bind P Q (raise e) f h k = absurd h

pub Yields-mono {ℓ} :
    {A : Type ℓ} (P : A → Type 0) (Q : A → Type 0) (m : Result A)
    → Yields P m
    → ((a : A) → P a → Q a)
    → Yields Q m
Yields-mono P Q (ok a) h k = k a h
Yields-mono P Q (raise e) h k = h

-- A result that is no error has what every result that is no error has.
pub Yields-OnOk {ℓ} :
    {A : Type ℓ} (P : A → Type 0) (Q : A → Type 0) (m : Result A)
    → Yields P m
    → OnOk Q m
    → Yields Q m
Yields-OnOk P Q (ok a) h k = k
Yields-OnOk P Q (raise e) h k = h

pub Yields-ok {ℓ} : {A : Type ℓ} (m : Result A) (a : A) → m ≡ ok a → Yields (λ _. Unit) m
Yields-ok (ok b) a h = tt
Yields-ok (raise e) a h = ground arith

-- The first of two results in a row is no error if the whole is none.
pub bind-first {ℓ κ} :
    {A : Type ℓ} {B : Type κ} (m : Result A) (f : A → Result B) (b : B)
    → (m >>= f) ≡ ok b
    → (a : A) × (m ≡ ok a) × (f a ≡ ok b)
bind-first (ok a) f b h = (a, refl, h)
bind-first (raise e) f b h = absurd (ground arith)

-- `if bad: raise PlanError(...)`
abbrev pub refuse : Bool → PlanError → Result (Unit {0})
refuse true e = raise e
refuse false e = ok tt

-- `for x in xs: check(x)`
abbrev pub each {ℓ} : {A : Type ℓ} → (A → Result (Unit {0})) → List A → Result (Unit {0})
each check [] = ok tt
each check (x ∷ xs) = check x >> each check xs
