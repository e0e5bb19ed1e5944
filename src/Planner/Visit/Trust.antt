-- ===== src/Planner/Visit/Trust.antt =====
-- What outcome `_Run.visit` gives to which result of a check.
use ipa_diagnose.Base.{
  ℕ, ◌-◌, ◌∙◌, ◌≡◌, ap, refl, String, true, ◌&&◌, not, Option, none, some, List, [], ◌∷◌, leb, ltb,
  All, filter, Bool-cases, inl, inr, string_eq,
}
use ipa_diagnose.Base.Dict.{Dict, has}
use ipa_diagnose.Base.Value.{Value}
use ipa_diagnose.TextSafe.Scan.{Unicode}
use ipa_diagnose.Planner.Types.{
  Outcome, pass, warn, fail, unknown, skipped, Status, ok, Classified, CheckResult, RunAnswer,
  result, interrupted, value_raised, CheckSpec, SkipReason, StopReason, Req, Record, Context, Step,
  Host,
}
use ipa_diagnose.Planner.Decide.{
  Settings, RunState, first_unmet, check_applies, check_when, Resolved, resolve_params,
  classify_result, missing_evidence, on_missing, is_ok, apply_class, or_default, store,
}
use ipa_diagnose.Planner.Visit.{
  visit, visit_budgets, execute, on_result, on_params, on_when, on_applies, on_unmet, on_stop,
  attempt,
}
use ipa_diagnose.Planner.Visit.Count.{attempt-outcome}

-- An outcome that says something of the host rests on a check that succeeded and whose result has
-- every field that its specification promises.
abbrev pub Rests : Outcome → CheckSpec → Record → Type 0
Rests unknown spec rec = Unit
Rests skipped spec rec = Unit
Rests _ spec rec = (rec.status ≡ some ok) × All (λ f. has rec.fields f ≡ true) spec.evidence

abbrev pub IsTrusted : CheckSpec → Record → Type 0
IsTrusted spec rec = Rests rec.outcome spec rec

missing_nil :
    (fields : Dict String Value) (l : List String)
    → filter (λ f. not (has fields f)) l ≡ []
    → All (λ f. has fields f ≡ true) l
unfolding filter
missing_nil fields [] h = tt
missing_nil fields (f ∷ l) h = elim (Bool-cases (has fields f)) [
  | inl e ↦ (e, missing_nil fields l (rw e at h))
  | inr e ↦ cc (rw e at h)
]

is_ok-eq : (s : Status) → is_ok s ≡ true → s ≡ ok
is_ok-eq ok h = refl
is_ok-eq _ h = cc

module _ {W : Type 0} (u : Unicode) (host : Host W) (settings : Settings) where
  class-Rests :
      (o : Option Classified) (spec : CheckSpec) (rec : Record)
      → rec.status ≡ some ok
      → All (λ f. has rec.fields f ≡ true) spec.evidence
      → Rests (apply_class u o rec).outcome spec (apply_class u o rec)
  class-Rests none spec rec a b = tt
  class-Rests (some k) spec rec a b = go k.outcome
    where
      go : (x : Outcome) → Rests x spec (apply_class u (some k) rec)
      go pass = (a, b)
      go warn = (a, b)
      go fail = (a, b)
      go unknown = tt
      go skipped = tt

  missing-Rests :
      (m : List String) (s : Step) (spec : CheckSpec) (r : CheckResult) (c : Context) (rec : Record)
      → missing_evidence spec r ≡ m
      → rec.status ≡ some r.status
      → rec.fields ≡ r.fields
      → IsTrusted spec (on_missing u m s r c rec)
  missing-Rests (f ∷ fs) s spec r c rec e st fi = tt
  missing-Rests [] s spec r c rec e st fi = elim (Bool-cases (is_ok r.status)) [
    | inl good ↦ rw good (
        class-Rests (or_default s.classify r (store c rec)) spec rec
          (st ∙ ap some (is_ok-eq r.status good))
          (rw fi (unfold missing_evidence in present good e)))
    | inr bad ↦ rw bad tt
  ]
    where
      present :
          is_ok r.status ≡ true
          → filter (λ f. is_ok r.status && not (has r.fields f)) spec.evidence ≡ []
          → All (λ f. has r.fields f ≡ true) spec.evidence
      present good e = missing_nil r.fields spec.evidence (rw good at e)

  result-IsTrusted :
      (o : RunAnswer) (t : ℕ) (w : W) (run : RunState W) (s : Step) (spec : CheckSpec)
      (rec : Record) (c : Context)
      → rec.outcome ≡ skipped
      → IsTrusted spec (on_result u host settings o t w run s spec rec c).rec
  unfolding classify_result
  result-IsTrusted interrupted t w run s spec rec c sk = rw sk tt
  result-IsTrusted value_raised t w run s spec rec c sk = rw sk tt
  result-IsTrusted (result r) t w run s spec rec c sk =
      missing-Rests (missing_evidence spec r) s spec r c _ refl refl refl

  params-IsTrusted :
      (p : Resolved) (run : RunState W) (s : Step) (spec : CheckSpec) (rec : Record) (c : Context)
      → rec.outcome ≡ skipped
      → IsTrusted spec (on_params u host settings p run s spec rec c).rec
  unfolding execute
  params-IsTrusted (_, some why) run s spec rec c sk = rw sk tt
  params-IsTrusted (params, none) run s spec rec c sk =
      let t0 = host.clock run.world in
      let tried = attempt u host settings s.retries 0 s params t0.1 rec in
      result-IsTrusted tried.0 t0.0 tried.1.1 run s spec tried.1.0 c
        (attempt-outcome u host settings s.retries 0 s params t0.1 rec ∙ sk)

  budgets-IsTrusted :
      (run : RunState W) (s : Step) (spec : CheckSpec) (rec : Record) (c : Context)
      → rec.outcome ≡ skipped
      → IsTrusted spec (visit_budgets u host settings run s spec rec c).rec
  unfolding visit_budgets
  budgets-IsTrusted run s spec rec c sk = elim (Bool-cases (s.needs_root && not settings.is_root)) [
    | inl e ↦ rw (e, sk) tt
    | inr e ↦ rw e (elim (Bool-cases (leb settings.max_steps run.executed)) [
      | inl full ↦ rw (full, sk) tt
      | inr room ↦ rw room (
          let t = host.clock run.world in
          elim (Bool-cases (ltb settings.max_seconds (t.0 - settings.start))) [
            | inl late ↦ rw (late, sk) tt
            | inr soon ↦ rw soon (
                params-IsTrusted (resolve_params c s.params []) (record run { world = t.1 }) s spec
                  rec c sk)
          ])
    ])
  ]

  when-IsTrusted :
      (o : Option SkipReason × Option String) (run : RunState W) (s : Step) (spec : CheckSpec)
      (rec : Record) (c : Context)
      → rec.outcome ≡ skipped
      → IsTrusted spec (on_when u host settings o run s spec rec c).rec
  when-IsTrusted (some why, because) run s spec rec c sk = rw sk tt
  when-IsTrusted (none, because) run s spec rec c sk = budgets-IsTrusted run s spec _ c sk

  applies-IsTrusted :
      (o : Option SkipReason) (run : RunState W) (s : Step) (spec : CheckSpec) (rec : Record)
      (c : Context)
      → rec.outcome ≡ skipped
      → IsTrusted spec (on_applies u host settings o run s spec rec c).rec
  applies-IsTrusted (some why) run s spec rec c sk = rw sk tt
  applies-IsTrusted none run s spec rec c sk =
      when-IsTrusted (check_when s.when c) run s spec rec c sk

  unmet-IsTrusted :
      (o : Option Req) (run : RunState W) (s : Step) (spec : CheckSpec) (rec : Record) (c : Context)
      → rec.outcome ≡ skipped
      → IsTrusted spec (on_unmet u host settings o run s spec rec c).rec
  unmet-IsTrusted (some b) run s spec rec c sk = rw sk tt
  unmet-IsTrusted none run s spec rec c sk =
      applies-IsTrusted (check_applies s.applies c) run s spec rec c sk

  stop-IsTrusted :
      (o : Option StopReason) (run : RunState W) (s : Step) (spec : CheckSpec) (rec : Record)
      (c : Context)
      → rec.outcome ≡ skipped
      → IsTrusted spec (on_stop u host settings o run s spec rec c).rec
  stop-IsTrusted (some why) run s spec rec c sk = rw sk tt
  stop-IsTrusted none run s spec rec c sk =
      unmet-IsTrusted (first_unmet c s.requires) run s spec rec c sk

  -- A visited step ends as PASS, WARN or FAIL only if its check answered OK and its result carries
  -- every field that the specification promises; a check that gave no answer is never a failure of
  -- what it was checking.
  pub visit-IsTrusted :
      (run : RunState W) (s : Step) (spec : CheckSpec) (rec : Record) (c : Context)
      → rec.outcome ≡ skipped
      → IsTrusted spec (visit u host settings run s spec rec c).rec
  unfolding visit
  visit-IsTrusted run s spec rec c sk = stop-IsTrusted run.stop_reason run s spec rec c sk
