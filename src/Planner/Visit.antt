-- ===== src/Planner/Visit.antt =====
-- `_Run.visit` of ipa_diagnose/planner/core.py, from its guards to the stop rules. The record that is
-- being filled stands in the context's `records` too: `visit` is called with it stored there, and
-- stores it again before a rule reads it.
pub mod Gates
pub mod Trust
pub mod Count
pub mod Raises
use ipa_diagnose.Base.{
  ℕ, zero, suc, ◌+◌, ◌-◌, String, Bool, true, false, ◌&&◌, not, Option, none, some, List, [], ◌∷◌,
  map, ◌==◌, eqb, leb, ltb, if◌then◌else◌, string_eq,
}
use ipa_diagnose.Base.Dict.{Dict}
use ipa_diagnose.Base.Value.{Value}
use ipa_diagnose.TextSafe.{sanitize_text}
use ipa_diagnose.TextSafe.Scan.{Unicode}
use ipa_diagnose.Planner.Types.{
  StopReason, step_budget, time_budget, cancelled_by_operator, SkipReason, stopped, blocked_on,
  privilege, RunAnswer, result, interrupted, value_raised, CheckSpec, Record, Context, Step, Host,
  Req,
}
use ipa_diagnose.Planner.Context.{key_of, record_of, outcome}
use ipa_diagnose.Planner.Decide.{
  Settings, RunState, Visited, Resolved, resolve_params, first_unmet, title_of, check_applies,
  check_when, or_text, is_retryable, classify_result, apply_rule, or_said, source_of, store,
}

module _ {W : Type 0} (u : Unicode) (host : Host W) (settings : Settings) where
  -- The record after attempt `n` took the world from `w` to `w'`.
  abbrev pub attempted : RunAnswer → ℕ → W → W → Record → Record
  attempted interrupted n w w' rec = record rec { attempts = n + 1 }
  attempted value_raised n w w' rec = record rec { attempts = n + 1 }
  attempted (result r) n w w' rec = record rec {
    attempts = n + 1;
    reused = eqb (host.runs w') (host.runs w) && eqb n 0;
  }

  abbrev pub retries : RunAnswer → Bool
  retries interrupted = false
  retries value_raised = false
  retries (result r) = is_retryable r

  abbrev pub skip : RunState W → Record → SkipReason → Visited W
  skip run rec why = record {
    run = run;
    rec = record rec { skip_reason = why };
    subject_stop = none;
    raised = false;
  }

  -- The loop over the attempts: `left` attempts may follow this one, which is number `n`.
  unfoldable pub attempt : ℕ → ℕ → Step → Dict String Value → W → Record → RunAnswer × (Record × W)
  unfolding is_retryable
  attempt zero n s params w rec =
      let answer = host.run w s.check params (ltb 0 n) in
      (answer.0, (attempted answer.0 n w answer.1 rec, answer.1))
  attempt (suc left) n s params w rec =
      let answer = host.run w s.check params (ltb 0 n) in
      let rec' = attempted answer.0 n w answer.1 rec in
      let again = attempt left (n + 1) s params answer.1 rec' in
      if retries answer.0 then again else (answer.0, (rec', answer.1))

  -- What follows the attempts, which began at `t0` and left the world `w`.
  abbrev pub on_result :
      RunAnswer → ℕ → W → RunState W → Step → CheckSpec → Record → Context → Visited W
  on_result value_raised t0 w run s spec rec c = record {
    run = record run { world = w; executed = run.executed + 1 };
    rec = rec;
    subject_stop = none;
    raised = true;
  }
  on_result interrupted t0 w run s spec rec c =
      skip
        (record run {
          world = w;
          executed = run.executed + 1;
          stop_reason = some cancelled_by_operator;
          cancelled = true;
        })
        rec (stopped cancelled_by_operator)
  on_result (result r) t0 w run s spec rec c =
      let t1 = host.clock w in
      let now = host.utc t1.1 in
      let rec2 = record rec {
        seconds = t1.0 - t0;
        collected_at = some now.0;
        source = source_of host;
        status = some r.status;
        params = map (λ e. (e.0, sanitize_text u e.1 253)) r.params;
        command = r.command;
        fields = r.fields;
      } in
      let rec3 = classify_result u s spec r c rec2 in
      record {
        run = record run {
          world = now.1;
          executed = run.executed + 1;
          stop_reason = or_said (apply_rule s.stop (store c rec3)) run.stop_reason;
        };
        rec = rec3;
        subject_stop = apply_rule s.stop_subject (store c rec3);
        raised = false;
      }

  -- The check is executed, its result is read, and the stop rules are asked.
  unfoldable pub execute :
      RunState W → Step → CheckSpec → Dict String Value → Record → Context → Visited W
  unfolding attempt classify_result apply_rule
  execute run s spec params rec c =
      let t0 = host.clock run.world in
      let tried = attempt s.retries 0 s params t0.1 rec in
      on_result tried.0 t0.0 tried.1.1 run s spec tried.1.0 c

  -- The parameters are resolved once the budgets allow the check.
  abbrev pub on_params : Resolved → RunState W → Step → CheckSpec → Record → Context → Visited W
  on_params (_, some why) run s spec rec c = skip run rec why
  on_params (params, none) run s spec rec c = execute run s spec params rec c

  -- The privilege, the step budget and the time budget, in this order.
  unfoldable pub visit_budgets : RunState W → Step → CheckSpec → Record → Context → Visited W
  unfolding execute resolve_params
  visit_budgets run s spec rec c =
      if s.needs_root && not settings.is_root
      then skip run rec (privilege settings.privilege_hint)
      else if leb settings.max_steps run.executed
      then (let why = step_budget settings.max_steps in
          skip (record run { stop_reason = some why }) rec (stopped why))
      else (let t = host.clock run.world in
          let run1 = record run { world = t.1 } in
          if ltb settings.max_seconds (t.0 - settings.start)
          then (let why = time_budget settings.max_seconds in
              skip (record run1 { stop_reason = some why }) rec (stopped why))
          else on_params (resolve_params c s.params []) run1 s spec rec c)

  -- What the relevance gate declines; its reason is recorded either way.
  abbrev pub on_when :
      Option SkipReason × Option String
      → RunState W
      → Step
      → CheckSpec
      → Record
      → Context
      → Visited W
  on_when (some why, because) run s spec rec c =
      skip run (record rec { selected_because = or_text because rec.selected_because }) why
  on_when (none, because) run s spec rec c =
      visit_budgets run s spec
        (record rec { selected_because = or_text because rec.selected_because }) c

  -- What the applicability gate declines.
  abbrev pub on_applies :
      Option SkipReason → RunState W → Step → CheckSpec → Record → Context → Visited W
  on_applies (some why) run s spec rec c = skip run rec why
  on_applies none run s spec rec c = on_when (check_when s.when c) run s spec rec c

  -- The first requirement that is not met blocks the step.
  abbrev pub on_unmet : Option Req → RunState W → Step → CheckSpec → Record → Context → Visited W
  on_unmet (some b) run s spec rec c = record {
    run = run;
    rec = record rec {
      skip_reason = blocked_on (title_of (record_of c b.step) b.step) (outcome c b.step);
      blocked_by = some (key_of c b.step);
    };
    subject_stop = none;
    raised = false;
  }
  on_unmet none run s spec rec c = on_applies (check_applies s.applies c) run s spec rec c

  abbrev pub on_stop :
      Option StopReason → RunState W → Step → CheckSpec → Record → Context → Visited W
  on_stop (some why) run s spec rec c = skip run rec (stopped why)
  on_stop none run s spec rec c = on_unmet (first_unmet c s.requires) run s spec rec c

  -- `visit`
  unfoldable pub visit : RunState W → Step → CheckSpec → Record → Context → Visited W
  unfolding visit_budgets check_when check_applies first_unmet
  visit run s spec rec c = on_stop run.stop_reason run s spec rec c
