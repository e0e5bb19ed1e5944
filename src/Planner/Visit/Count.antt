-- ===== src/Planner/Visit/Count.antt =====
-- How `_Run.visit` counts the checks that it executes.
use ipa_diagnose.Base.{
  ℕ, zero, suc, ◌+◌, ◌-◌, ◌∙◌, ◌<◌, ◌≡◌, refl, ◌&&◌, not, Option, none, some, List, [], ◌∷◌, arith,
  leb, ltb, Bool-cases, inl, inr, ◌⊎◌, String,
}
use ipa_diagnose.Base.Dict.{Dict}
use ipa_diagnose.Base.Value.{Value}
use ipa_diagnose.TextSafe.Scan.{Unicode}
use ipa_diagnose.Planner.Types.{
  CheckSpec, CheckResult, RunAnswer, result, interrupted, value_raised, SkipReason, StopReason, Req,
  Record, Context, Step, Host,
}
use ipa_diagnose.Planner.Decide.{
  Settings, RunState, Visited, first_unmet, check_applies, check_when, Resolved, resolve_params,
  classify_result, missing_evidence, on_missing,
}
use ipa_diagnose.Planner.Visit.{
  visit, visit_budgets, execute, on_result, on_params, on_when, on_applies, on_unmet, on_stop,
  attempt, attempted, retries,
}

-- The step was not run and nothing was counted, or one check more was counted, within the budget.
-- Either way the record keeps its identity.
abbrev pub Counted : {W : Type 0} → ℕ → RunState W → Record → Visited W → Type 0
Counted max run rec v =
    (v.rec.step_id ≡ rec.step_id)
    × (((v.run.executed ≡ run.executed) × (v.rec.outcome ≡ rec.outcome))
        ⊎ ((v.run.executed ≡ run.executed + 1) × (run.executed < max)))

module _ {W : Type 0} (u : Unicode) (host : Host W) (settings : Settings) where
  attempted-step_id :
      (o : RunAnswer) (n : ℕ) (w w' : W) (rec : Record)
      → (attempted u host settings o n w w' rec).step_id ≡ rec.step_id
  attempted-step_id interrupted n w w' rec = refl
  attempted-step_id value_raised n w w' rec = refl
  attempted-step_id (result r) n w w' rec = refl

  attempted-outcome :
      (o : RunAnswer) (n : ℕ) (w w' : W) (rec : Record)
      → (attempted u host settings o n w w' rec).outcome ≡ rec.outcome
  attempted-outcome interrupted n w w' rec = refl
  attempted-outcome value_raised n w w' rec = refl
  attempted-outcome (result r) n w w' rec = refl

  attempt-step_id :
      (left n : ℕ) (s : Step) (params : Dict String Value) (w : W) (rec : Record)
      → (attempt u host settings left n s params w rec).1.0.step_id ≡ rec.step_id
  unfolding attempt
  attempt-step_id zero n s params w rec = attempted-step_id _ n w _ rec
  attempt-step_id (suc left) n s params w rec =
      let answer = host.run w s.check params (ltb 0 n) in
      let rec' = attempted u host settings answer.0 n w answer.1 rec in
      elim (Bool-cases (retries u host settings answer.0)) [
        | inl e ↦ rw e (
            attempt-step_id left (n + 1) s params answer.1 rec'
            ∙ attempted-step_id answer.0 n w answer.1 rec)
        | inr e ↦ rw e (attempted-step_id answer.0 n w answer.1 rec)
      ]

  pub attempt-outcome :
      (left n : ℕ) (s : Step) (params : Dict String Value) (w : W) (rec : Record)
      → (attempt u host settings left n s params w rec).1.0.outcome ≡ rec.outcome
  unfolding attempt
  attempt-outcome zero n s params w rec = attempted-outcome _ n w _ rec
  attempt-outcome (suc left) n s params w rec =
      let answer = host.run w s.check params (ltb 0 n) in
      let rec' = attempted u host settings answer.0 n w answer.1 rec in
      elim (Bool-cases (retries u host settings answer.0)) [
        | inl e ↦ rw e (
            attempt-outcome left (n + 1) s params answer.1 rec'
            ∙ attempted-outcome answer.0 n w answer.1 rec)
        | inr e ↦ rw e (attempted-outcome answer.0 n w answer.1 rec)
      ]

  on_missing-step_id :
      (m : List String) (s : Step) (r : CheckResult) (c : Context) (rec : Record)
      → (on_missing u m s r c rec).step_id ≡ rec.step_id
  on_missing-step_id (f ∷ fs) s r c rec = refl
  on_missing-step_id [] s r c rec = ground arith

  classify_result-step_id :
      (s : Step) (spec : CheckSpec) (r : CheckResult) (c : Context) (rec : Record)
      → (classify_result u s spec r c rec).step_id ≡ rec.step_id
  unfolding classify_result
  classify_result-step_id s spec r c rec = on_missing-step_id (missing_evidence spec r) s r c rec

  result-Counted :
      (o : RunAnswer) (t : ℕ) (w : W) (run : RunState W) (s : Step) (spec : CheckSpec)
      (rec rec' : Record) (c : Context)
      → rec'.step_id ≡ rec.step_id
      → run.executed < settings.max_steps
      → Counted settings.max_steps run rec (on_result u host settings o t w run s spec rec' c)
  result-Counted interrupted t w run s spec rec rec' c same room = (same, inr (refl, room))
  result-Counted value_raised t w run s spec rec rec' c same room = (same, inr (refl, room))
  result-Counted (result r) t w run s spec rec rec' c same room =
      (classify_result-step_id s spec r c _ ∙ same, inr (refl, room))

  params-Counted :
      (p : Resolved) (run : RunState W) (s : Step) (spec : CheckSpec) (rec : Record) (c : Context)
      → run.executed < settings.max_steps
      → Counted settings.max_steps run rec (on_params u host settings p run s spec rec c)
  unfolding execute
  params-Counted (_, some why) run s spec rec c room = (refl, inl (refl, refl))
  params-Counted (params, none) run s spec rec c room =
      let t0 = host.clock run.world in
      let tried = attempt u host settings s.retries 0 s params t0.1 rec in
      result-Counted tried.0 t0.0 tried.1.1 run s spec rec tried.1.0 c
        (attempt-step_id s.retries 0 s params t0.1 rec) room

  budgets-Counted :
      (run : RunState W) (s : Step) (spec : CheckSpec) (rec : Record) (c : Context)
      → Counted settings.max_steps run rec (visit_budgets u host settings run s spec rec c)
  unfolding visit_budgets
  budgets-Counted run s spec rec c = elim (Bool-cases (s.needs_root && not settings.is_root)) [
    | inl e ↦ rw e (refl, inl (refl, refl))
    | inr e ↦ rw e (elim (Bool-cases (leb settings.max_steps run.executed)) [
      | inl full ↦ rw full (refl, inl (refl, refl))
      | inr room ↦ rw room (
          let t = host.clock run.world in
          elim (Bool-cases (ltb settings.max_seconds (t.0 - settings.start))) [
            | inl late ↦ rw late (refl, inl (refl, refl))
            | inr soon ↦ rw soon (
                params-Counted (resolve_params c s.params []) (record run { world = t.1 }) s spec
                  rec c (ground arith))
          ])
    ])
  ]

  when-Counted :
      (o : Option SkipReason × Option String) (run : RunState W) (s : Step) (spec : CheckSpec)
      (rec : Record) (c : Context)
      → Counted settings.max_steps run rec (on_when u host settings o run s spec rec c)
  when-Counted (some why, because) run s spec rec c = (refl, inl (refl, refl))
  when-Counted (none, because) run s spec rec c = budgets-Counted run s spec _ c

  applies-Counted :
      (o : Option SkipReason) (run : RunState W) (s : Step) (spec : CheckSpec) (rec : Record)
      (c : Context)
      → Counted settings.max_steps run rec (on_applies u host settings o run s spec rec c)
  applies-Counted (some why) run s spec rec c = (refl, inl (refl, refl))
  applies-Counted none run s spec rec c = when-Counted (check_when s.when c) run s spec rec c

  unmet-Counted :
      (o : Option Req) (run : RunState W) (s : Step) (spec : CheckSpec) (rec : Record) (c : Context)
      → Counted settings.max_steps run rec (on_unmet u host settings o run s spec rec c)
  unmet-Counted (some b) run s spec rec c = (refl, inl (refl, refl))
  unmet-Counted none run s spec rec c = applies-Counted (check_applies s.applies c) run s spec rec c

  stop-Counted :
      (o : Option StopReason) (run : RunState W) (s : Step) (spec : CheckSpec) (rec : Record)
      (c : Context)
      → Counted settings.max_steps run rec (on_stop u host settings o run s spec rec c)
  stop-Counted (some why) run s spec rec c = (refl, inl (refl, refl))
  stop-Counted none run s spec rec c = unmet-Counted (first_unmet c s.requires) run s spec rec c

  pub visit-Counted :
      (run : RunState W) (s : Step) (spec : CheckSpec) (rec : Record) (c : Context)
      → Counted settings.max_steps run rec (visit u host settings run s spec rec c)
  unfolding visit
  visit-Counted run s spec rec c = stop-Counted run.stop_reason run s spec rec c
