-- ===== src/Planner/Run/Stopped.antt =====
-- What `run_plan` does once the run has stopped.
use ipa_diagnose.Base.{◌≡◌, refl, ap, ◌∙◌, some, List, [], ◌∷◌, ◌++◌, All, All-append}
use ipa_diagnose.TextSafe.Scan.{Unicode}
use ipa_diagnose.Planner.Types.{
  skipped, StopReason, stopped, CheckSpec, Record, Context, Step, PlanItem, step, for_each, Host,
}
use ipa_diagnose.Planner.Decide.{Settings, RunState}
use ipa_diagnose.Planner.Visit.{visit, skip}
use ipa_diagnose.Planner.Validate.{find_check, Yields, Yields-bind, Yields-mono}
use ipa_diagnose.Planner.Run.Total.{IsKnownItem}
use ipa_diagnose.Planner.Run.{PlanState, visit_step, visit_subjects, visit_item, visit_items}
use mathlib.Core.List.{append-nil, append_assoc}

abbrev pub IsStopped : StopReason → Record → Type 0
IsStopped why r = (r.outcome ≡ skipped) × (r.skip_reason ≡ stopped why)

-- From `p` to `q` nothing was run: the world, the counts and the stop reason are those of `p`, and
-- every record that was added is a skipped one that gives the stop reason.
pub record OnlySkips {W : Type 0} (why : StopReason) (p q : PlanState W) : Type 0 where
  pub same_run : q.run ≡ p.run
  pub added : List Record
  pub appended : q.records ≡ p.records ++ added
  pub all_stopped : All (IsStopped why) added

OnlySkips-trans :
    {W : Type 0} (why : StopReason) (p q r : PlanState W)
    → OnlySkips why p q
    → OnlySkips why q r
    → OnlySkips why p r
OnlySkips-trans why p q r a b = record {
  same_run = b.same_run ∙ a.same_run;
  added = a.added ++ b.added;
  appended = b.appended ∙ (rw (a.appended, append_assoc) refl);
  all_stopped = All-append (IsStopped why) a.added b.added a.all_stopped b.all_stopped;
}

module _ {W : Type 0} (u : Unicode) (host : Host W) (settings : Settings) (why : StopReason) where
  visit_stopped :
      (run : RunState W) (s : Step) (spec : CheckSpec) (rec : Record) (c : Context)
      → run.stop_reason ≡ some why
      → visit u host settings run s spec rec c ≡ skip u host settings run rec (stopped why)
  unfolding visit
  visit_stopped run s spec rec c e = rw e

  item_stopped :
      (i : PlanItem) (p : PlanState W)
      → IsKnownItem settings.registry i
      → p.run.stop_reason ≡ some why
      → Yields (OnlySkips why p) (visit_item u host settings i p)
  unfolding visit_item visit_subjects
  item_stopped (step s) p known e =
      Yields-bind (λ _. Unit {0}) (OnlySkips why p) (find_check settings.registry s.check) _ known
        λ spec _.
          (unfold visit_step in
            rw (visit_stopped p.run s spec _ _ e) (record {
              same_run = refl;
              added = _;
              appended = refl;
              all_stopped = ((refl, refl), tt);
            }))
  item_stopped (for_each t) p known e =
      rw e (record { same_run = refl; added = []; appended = rw append-nil; all_stopped = tt })

  -- Once the run has stopped, the rest of a plan whose checks the registry knows is gone through
  -- without an error, and nothing runs: the world, the counts and the stop reason stay those of `p`,
  -- and every record that is added is a skipped one that gives the stop reason.
  pub items_stopped :
      (is : List PlanItem) (p : PlanState W)
      → All (IsKnownItem settings.registry) is
      → p.run.stop_reason ≡ some why
      → Yields (OnlySkips why p) (visit_items u host settings is p)
  unfolding visit_items
  items_stopped [] p known e = record {
    same_run = refl;
    added = [];
    appended = rw append-nil;
    all_stopped = tt;
  }
  items_stopped (i ∷ is) p known e =
      Yields-bind (OnlySkips why p) (OnlySkips why p) (visit_item u host settings i p) _
        (item_stopped i p known.0 e)
        λ q k.
          Yields-mono (OnlySkips why q) (OnlySkips why p) (visit_items u host settings is q)
            (items_stopped is q known.1 (ap (λ r. r.stop_reason) k.same_run ∙ e))
            (λ r m. OnlySkips-trans why p q r k m)
