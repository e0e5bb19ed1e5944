-- ===== src/Planner/Visit/Gates.antt =====
-- What must hold for `_Run.visit` to run a step.
use ipa_diagnose.Base.{
  ◌<◌, ◌≡◌, ◌≢◌, ap, refl, String, Bool, true, ◌&&◌, not, Option, none, some, List, [], ◌∷◌, arith,
  leb, All, Bool-cases, inl, inr,
}
use ipa_diagnose.TextSafe.Scan.{Unicode}
use ipa_diagnose.Planner.Types.{
  skipped, Req, StopReason, SkipReason, CheckSpec, Record, Context, Gate, Step, Host,
}
use ipa_diagnose.Planner.Context.{outcome}
use ipa_diagnose.Planner.Decide.{
  Settings, RunState, accepts, first_unmet, check_applies, check_when, or_declined,
}
use ipa_diagnose.Planner.Visit.{visit, visit_budgets, on_when, on_applies, on_unmet, on_stop}

-- A gate that is there answered, and said yes.
abbrev pub Allows : Option Gate → Context → Type 0
Allows none c = Unit
Allows (some gate) c = (why : String) × (gate c ≡ some (true, why))

-- What clears a step.
pub record IsCleared {W : Type 0} (settings : Settings) (run : RunState W) (s : Step) (c : Context)
    : Type 0 where
  pub not_stopped : run.stop_reason ≡ none
  pub met : All (λ r. accepts r.accept (outcome c r.step) ≡ true) s.requires
  pub applies : Allows s.applies c
  pub relevant : Allows s.when c
  pub privileged : s.needs_root ≡ true → settings.is_root ≡ true
  pub in_budget : run.executed < settings.max_steps

first_unmet-none :
    (c : Context) (rs : List Req)
    → first_unmet c rs ≡ none
    → All (λ r. accepts r.accept (outcome c r.step) ≡ true) rs
unfolding first_unmet
first_unmet-none c [] h = tt
first_unmet-none c (r ∷ rs) h = elim (Bool-cases (accepts r.accept (outcome c r.step))) [
  | inl e ↦ (e, first_unmet-none c rs (rw e at h))
  | inr e ↦ cc (rw e at h)
]

or_declined-true :
    (o : Option (Bool × String))
    → (or_declined o).0 ≡ true
    → (why : String) × (o ≡ some (true, why))
or_declined-true none h = cc
or_declined-true (some (b, why)) h = (why, rw h)

check_applies-none : (g : Option Gate) (c : Context) → check_applies g c ≡ none → Allows g c
unfolding check_applies
check_applies-none none c h = tt
check_applies-none (some gate) c h = elim (Bool-cases (or_declined (gate c)).0) [
  | inl e ↦ or_declined-true (gate c) e
  | inr e ↦ cc (rw e at h)
]

check_when-none : (g : Option Gate) (c : Context) → (check_when g c).0 ≡ none → Allows g c
unfolding check_when
check_when-none none c h = tt
check_when-none (some gate) c h = elim (Bool-cases (or_declined (gate c)).0) [
  | inl e ↦ or_declined-true (gate c) e
  | inr e ↦ ground arith
]

module _ {W : Type 0} (u : Unicode) (host : Host W) (settings : Settings) (run : RunState W)
    (s : Step) (spec : CheckSpec) where
  budgets-IsCleared :
      (rec : Record) (c : Context)
      → rec.outcome ≡ skipped
      → (visit_budgets u host settings run s spec rec c).rec.outcome ≢ skipped
      → ((s.needs_root ≡ true → settings.is_root ≡ true) × (run.executed < settings.max_steps))
  unfolding visit_budgets
  budgets-IsCleared rec c sk ran = elim (Bool-cases (s.needs_root && not settings.is_root)) [
    | inl e ↦ absurd (ran (rw e sk))
    | inr e ↦ elim (Bool-cases (leb settings.max_steps run.executed)) [
      | inl full ↦ absurd (ran (rw (e, full) sk))
      | inr room ↦ (ground arith, ground arith)
    ]
  ]

  when-IsCleared :
      (o : Option SkipReason × Option String) (rec : Record) (c : Context)
      → check_when s.when c ≡ o
      → rec.outcome ≡ skipped
      → (on_when u host settings o run s spec rec c).rec.outcome ≢ skipped
      → Allows s.when c
        × ((s.needs_root ≡ true → settings.is_root ≡ true) × (run.executed < settings.max_steps))
  when-IsCleared (some why, because) rec c e sk ran = absurd (ran sk)
  when-IsCleared (none, because) rec c e sk ran =
      (check_when-none s.when c (ap (λ t. t.0) e), budgets-IsCleared _ c sk ran)

  applies-IsCleared :
      (o : Option SkipReason) (rec : Record) (c : Context)
      → check_applies s.applies c ≡ o
      → rec.outcome ≡ skipped
      → (on_applies u host settings o run s spec rec c).rec.outcome ≢ skipped
      → Allows s.applies c
        × (Allows s.when c
            × ((s.needs_root ≡ true → settings.is_root ≡ true)
                × (run.executed < settings.max_steps)))
  applies-IsCleared (some why) rec c e sk ran = absurd (ran sk)
  applies-IsCleared none rec c e sk ran =
      (check_applies-none s.applies c e, when-IsCleared (check_when s.when c) rec c refl sk ran)

  unmet-IsCleared :
      (o : Option Req) (rec : Record) (c : Context)
      → first_unmet c s.requires ≡ o
      → run.stop_reason ≡ none
      → rec.outcome ≡ skipped
      → (on_unmet u host settings o run s spec rec c).rec.outcome ≢ skipped
      → IsCleared settings run s c
  unmet-IsCleared (some b) rec c e going sk ran = absurd (ran sk)
  unmet-IsCleared none rec c e going sk ran =
      let rest = applies-IsCleared (check_applies s.applies c) rec c refl sk ran in
      record {
        not_stopped = going;
        met = first_unmet-none c s.requires e;
        applies = rest.0;
        relevant = rest.1.0;
        privileged = rest.1.1.0;
        in_budget = rest.1.1.1;
      }

  stop-IsCleared :
      (o : Option StopReason) (rec : Record) (c : Context)
      → run.stop_reason ≡ o
      → rec.outcome ≡ skipped
      → (on_stop u host settings o run s spec rec c).rec.outcome ≢ skipped
      → IsCleared settings run s c
  stop-IsCleared (some why) rec c e sk ran = absurd (ran sk)
  stop-IsCleared none rec c e sk ran =
      unmet-IsCleared (first_unmet c s.requires) rec c refl e sk ran

  -- A step that was not skipped was cleared: the run had not stopped, every required step had an
  -- accepted outcome, both gates answered yes without raising, a step that needs root ran as root,
  -- and the step budget had room.
  pub visit-IsCleared :
      (rec : Record) (c : Context)
      → rec.outcome ≡ skipped
      → (visit u host settings run s spec rec c).rec.outcome ≢ skipped
      → IsCleared settings run s c
  unfolding visit
  visit-IsCleared rec c sk ran = stop-IsCleared run.stop_reason rec c refl sk ran
