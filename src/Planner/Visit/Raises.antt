-- ===== src/Planner/Visit/Raises.antt =====
-- Which errors leave `_Run.visit`.
use ipa_diagnose.Base.{
  zero, suc, ℕ, ◌+◌, ◌-◌, ◌≡◌, refl, String, Bool, true, ◌&&◌, not, Option, none, some, [], leb,
  ltb, arith, Bool-cases, inl, inr,
}
use ipa_diagnose.Base.Dict.{Dict}
use ipa_diagnose.Base.Value.{Value}
use ipa_diagnose.TextSafe.Scan.{Unicode}
use ipa_diagnose.Planner.Types.{
  CheckSpec, RunAnswer, result, interrupted, value_raised, SkipReason, StopReason, Req, Record,
  Context, Step, Host,
}
use ipa_diagnose.Planner.Decide.{
  Settings, RunState, first_unmet, check_applies, check_when, Resolved, resolve_params,
}
use ipa_diagnose.Planner.Visit.{
  visit, visit_budgets, execute, on_result, on_params, on_when, on_applies, on_unmet, on_stop,
  attempt, attempted, retries,
}

-- The runner ends some check with a ValueError.
abbrev pub RunnerRaises : {W : Type 0} → Host W → Type 0
RunnerRaises {W} host =
    (w : W) × (check : String) × (params : Dict String Value) × (fresh : Bool) × ((host.run w check
        params fresh).0
      ≡ value_raised)

module _ {W : Type 0} (u : Unicode) (host : Host W) (settings : Settings) where
  attempt_raises :
      (left n : ℕ) (s : Step) (params : Dict String Value) (w : W) (rec : Record)
      → (attempt u host settings left n s params w rec).0 ≡ value_raised
      → RunnerRaises host
  unfolding attempt
  attempt_raises zero n s params w rec h = (w, s.check, params, ltb 0 n, h)
  attempt_raises (suc left) n s params w rec h =
      let answer = host.run w s.check params (ltb 0 n) in
      elim (Bool-cases (retries u host settings answer.0)) [
        | inl e ↦
            attempt_raises left (n + 1) s params answer.1
              (attempted u host settings answer.0 n w answer.1 rec) (rw e at h)
        | inr e ↦ (let k : answer.0 ≡ value_raised = rw e at h in (w, s.check, params, ltb 0 n, k))
      ]

  result_raises :
      (o : RunAnswer) (t : ℕ) (w : W) (run : RunState W) (s : Step) (spec : CheckSpec)
      (rec : Record) (c : Context)
      → (on_result u host settings o t w run s spec rec c).raised ≡ true
      → o ≡ value_raised
  result_raises value_raised t w run s spec rec c h = refl
  result_raises interrupted t w run s spec rec c h = absurd (ground (arith, h))
  result_raises (result r) t w run s spec rec c h = absurd (ground (arith, h))

  params_raise :
      (p : Resolved) (run : RunState W) (s : Step) (spec : CheckSpec) (rec : Record) (c : Context)
      → (on_params u host settings p run s spec rec c).raised ≡ true
      → RunnerRaises host
  unfolding execute
  params_raise (_, some why) run s spec rec c h = absurd (ground (arith, h))
  params_raise (params, none) run s spec rec c h =
      let t0 = host.clock run.world in
      let tried = attempt u host settings s.retries 0 s params t0.1 rec in
      attempt_raises s.retries 0 s params t0.1 rec
        (result_raises tried.0 t0.0 tried.1.1 run s spec tried.1.0 c h)

  budgets_raise :
      (run : RunState W) (s : Step) (spec : CheckSpec) (rec : Record) (c : Context)
      → (visit_budgets u host settings run s spec rec c).raised ≡ true
      → RunnerRaises host
  unfolding visit_budgets
  budgets_raise run s spec rec c h = elim (Bool-cases (s.needs_root && not settings.is_root)) [
    | inl e ↦ absurd (ground (arith, h, e))
    | inr e ↦ elim (Bool-cases (leb settings.max_steps run.executed)) [
      | inl full ↦ absurd (ground (arith, h, e, full))
      | inr room ↦
          (let t = host.clock run.world in
            elim (Bool-cases (ltb settings.max_seconds (t.0 - settings.start))) [
              | inl late ↦ absurd (ground (arith, h, e, room, late))
              | inr soon ↦
                  params_raise (resolve_params c s.params []) (record run { world = t.1 }) s spec
                    rec c (rw (e, room, soon) at h)
            ])
    ]
  ]

  when_raises :
      (o : Option SkipReason × Option String) (run : RunState W) (s : Step) (spec : CheckSpec)
      (rec : Record) (c : Context)
      → (on_when u host settings o run s spec rec c).raised ≡ true
      → RunnerRaises host
  when_raises (some why, because) run s spec rec c h = absurd (ground (arith, h))
  when_raises (none, because) run s spec rec c h = budgets_raise run s spec _ c h

  applies_raise :
      (o : Option SkipReason) (run : RunState W) (s : Step) (spec : CheckSpec) (rec : Record)
      (c : Context)
      → (on_applies u host settings o run s spec rec c).raised ≡ true
      → RunnerRaises host
  applies_raise (some why) run s spec rec c h = absurd (ground (arith, h))
  applies_raise none run s spec rec c h = when_raises (check_when s.when c) run s spec rec c h

  unmet_raises :
      (o : Option Req) (run : RunState W) (s : Step) (spec : CheckSpec) (rec : Record) (c : Context)
      → (on_unmet u host settings o run s spec rec c).raised ≡ true
      → RunnerRaises host
  unmet_raises (some b) run s spec rec c h = absurd (ground (arith, h))
  unmet_raises none run s spec rec c h =
      applies_raise (check_applies s.applies c) run s spec rec c h

  stop_raises :
      (o : Option StopReason) (run : RunState W) (s : Step) (spec : CheckSpec) (rec : Record)
      (c : Context)
      → (on_stop u host settings o run s spec rec c).raised ≡ true
      → RunnerRaises host
  stop_raises (some why) run s spec rec c h = absurd (ground (arith, h))
  stop_raises none run s spec rec c h = unmet_raises (first_unmet c s.requires) run s spec rec c h

  pub visit_raises :
      (run : RunState W) (s : Step) (spec : CheckSpec) (rec : Record) (c : Context)
      → (visit u host settings run s spec rec c).raised ≡ true
      → RunnerRaises host
  unfolding visit
  visit_raises run s spec rec c h = stop_raises run.stop_reason run s spec rec c h
