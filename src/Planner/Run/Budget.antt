-- ===== src/Planner/Run/Budget.antt =====
-- The bounds of a run of `run_plan`: how many checks it executes.
use ipa_diagnose.Base.{
  ℕ, ◌+◌, ◌≤◌, ◌≡◌, ◌∙◌, String, Bool, not, List, [], ◌∷◌, ◌++◌, arith, min, ◌==◌, length, filter,
  inl, inr,
}
use ipa_diagnose.Base.Dict.{Dict}
use ipa_diagnose.Base.Value.{Value}
use ipa_diagnose.TextSafe.Scan.{Unicode}
use ipa_diagnose.Planner.Types.{
  skipped, outcome_eq, CheckSpec, Record, PlanItem, Host, hard_max_steps,
}
use ipa_diagnose.Planner.Decide.{Settings, Visited}
use ipa_diagnose.Planner.Visit.{visit}
use ipa_diagnose.Planner.Visit.Count.{Counted, visit-Counted}
use ipa_diagnose.Planner.Run.Induction.{IsKept, items-kept}
use ipa_diagnose.Planner.Validate.{ok, validate_plan, OnOk, OnOk-bind, OnOk-any, Ends, Ends-OnOk}
use ipa_diagnose.Planner.Run.Total.{IsHosts, run_plan-total}
use ipa_diagnose.Planner.Run.{PlanState, finish, run_plan, start_state, start_context}

-- How many of the records were run.
abbrev pub runs_of : List Record → ℕ
runs_of l = length (filter (λ r. not (r.outcome == skipped)) l)

-- The checks that were executed are within the step budget, and no more steps were run than checks
-- were executed.
pub record IsWithin {W : Type 0} (max : ℕ) (p : PlanState W) : Type 0 where
  pub budget : p.run.executed ≤ max
  pub counted : runs_of p.records ≤ p.run.executed

runs_of-append :
    (l : List Record) (r : Record) → runs_of (l ++ r ∷ []) ≡ runs_of l + runs_of (r ∷ [])
unfolding filter
runs_of-append [] r = ground arith
runs_of-append (x ∷ l) r = ground (arith, runs_of-append l r)

runs_of-skipped : (r : Record) → r.outcome ≡ skipped → runs_of (r ∷ []) ≡ 0
unfolding filter outcome_eq
runs_of-skipped r h = rw h

runs_of-le_one : (r : Record) → runs_of (r ∷ []) ≤ 1
unfolding filter
runs_of-le_one r = ground arith

module _ {W : Type 0} (u : Unicode) (host : Host W) (settings : Settings) where
  -- A visit whose count is right keeps the bounds, where the record was a skipped one.
  finish-IsWithin :
      (p : PlanState W) (rec : Record) (v : Visited W)
      → rec.outcome ≡ skipped
      → Counted settings.max_steps p.run rec v
      → IsWithin settings.max_steps p
      → IsWithin settings.max_steps (finish u host settings p v.run v.rec)
  finish-IsWithin p rec v sk (same, inl (e, o)) w = record {
    budget = rw e w.budget;
    counted =
        omega (arith, runs_of-append p.records v.rec, runs_of-skipped v.rec (o ∙ sk), e, w.counted);
  }
  finish-IsWithin p rec v sk (same, inr (e, room)) w = record {
    budget = rw e (omega arith);
    counted = omega (arith, runs_of-append p.records v.rec, runs_of-le_one v.rec, e, w.counted);
  }

  IsWithin-IsKept : IsKept u host settings (IsWithin settings.max_steps)
  IsWithin-IsKept = record {
    by_visit = λ p s spec rec c sk w.
        finish-IsWithin p rec (visit u host settings p.run s spec rec c) sk
          (visit-Counted u host settings p.run s spec rec c) w;
    by_skip = λ p rec sk w. record {
      budget = w.budget;
      counted = omega (arith, runs_of-append p.records rec, runs_of-skipped rec sk, w.counted);
    };
    by_clock = λ p t w. record { budget = w.budget; counted = w.counted };
    by_enumeration = λ p e w. record { budget = w.budget; counted = w.counted };
  }

module _ {W : Type 0} (u : Unicode) (host : Host W) where
  runs_bounded :
      (plan : List PlanItem) (inputs : Dict String Value) (is_root : Bool)
      (registry : Dict String CheckSpec) (max_seconds max_steps : ℕ) (hint : String) (w : W)
      → OnOk
          (λ r. runs_of r.0.records ≤ min max_steps hard_max_steps)
          (run_plan u host plan inputs is_root registry max_seconds max_steps hint w)
  unfolding run_plan filter
  runs_bounded plan inputs is_root registry max_seconds max_steps hint w =
      let at = host.utc (host.clock w).1 in
      OnOk-bind (λ _. Unit {0}) (λ r. runs_of r.0.records ≤ min max_steps hard_max_steps)
        (validate_plan plan registry host.subject_types) _ (OnOk-any (λ _. tt) _)
        λ _ _.
          OnOk-bind (IsWithin (min max_steps hard_max_steps)) _ _ _
            (items-kept u host _ (IsWithin (min max_steps hard_max_steps))
              (IsWithin-IsKept u host _) plan (start_state at.1 (start_context inputs is_root))
              (record { budget = omega arith; counted = omega arith }))
            (λ p k. omega (arith, k.budget, k.counted))

  -- Of a plan that `validate_plan` accepts, `run_plan` returns a trace in which at most `max_steps`
  -- records, and at most 200, are other than SKIPPED, or it raises a ValueError that a validator of
  -- subject names, or the runner, raises for some argument.
  pub run_plan-IsWithin :
      (plan : List PlanItem) (inputs : Dict String Value) (is_root : Bool)
      (registry : Dict String CheckSpec) (max_seconds max_steps : ℕ) (hint : String) (w : W)
      → validate_plan plan registry host.subject_types ≡ ok tt
      → Ends
          (IsHosts host)
          (λ r. runs_of r.0.records ≤ min max_steps hard_max_steps)
          (run_plan u host plan inputs is_root registry max_seconds max_steps hint w)
  run_plan-IsWithin plan inputs is_root registry max_seconds max_steps hint w accepted =
      Ends-OnOk (IsHosts host) (λ _. Unit) _ _
        (run_plan-total u host plan inputs is_root registry max_seconds max_steps hint w accepted)
        (runs_bounded plan inputs is_root registry max_seconds max_steps hint w)
