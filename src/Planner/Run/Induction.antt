-- ===== src/Planner/Run/Induction.antt =====
-- What every visit of a step keeps holds at the end of the loops of `run_plan`.
use ipa_diagnose.Base.{
  ℕ, ◌-◌, ◌≡◌, refl, String, false, Option, none, some, List, [], ◌∷◌, map, ltb, Bool-cases, inl,
  inr,
}
use ipa_diagnose.Base.Dict.{Dict}
use ipa_diagnose.TextSafe.Scan.{Unicode}
use ipa_diagnose.Planner.Types.{
  skipped, CheckSpec, Record, Context, Step, ForEach, PlanItem, step, for_each, SubjectStop,
  EnumRecord, Host,
}
use ipa_diagnose.Planner.Decide.{Settings}
use ipa_diagnose.Planner.Visit.{visit}
use ipa_diagnose.Planner.Subjects.{Subject}
use ipa_diagnose.Planner.Validate.{find_check, OnOk, OnOk-bind, OnOk-any, OnOk-unless_raised}
use ipa_diagnose.Planner.Run.{
  PlanState, SubjectState, finish, subject_record, on_subject, visit_instance, visit_step,
  visit_instances, visit_subjects, visit_item, visit_items, listed,
}

-- `P` is kept by each way in which the loops change their variables.
pub record IsKept {W : Type 0} (u : Unicode) (host : Host W) (settings : Settings)
    (P : PlanState W → Type 0) : Type 0 where
  pub by_visit :
      (p : PlanState W) (s : Step) (spec : CheckSpec) (rec : Record) (c : Context)
      → rec.outcome ≡ skipped
      → P p
      → (let v = visit u host settings p.run s spec rec c in
          P (finish u host settings p v.run v.rec))
  pub by_skip :
      (p : PlanState W) (rec : Record)
      → rec.outcome ≡ skipped
      → P p
      → P (finish u host settings p p.run rec)
  pub by_clock : (p : PlanState W) (w : W) → P p → P (record p { run = record p.run { world = w } })
  pub by_enumeration :
      (p : PlanState W) (e : Dict String EnumRecord) → P p → P (record p { enumerations = e })

module _ {W : Type 0} (u : Unicode) (host : Host W) (settings : Settings) (P : PlanState W → Type 0)
    (keep : IsKept u host settings P) where
  instance-kept :
      (t : ForEach) (local : List String) (subject : Subject) (started : ℕ) (s : Step)
      (spec : CheckSpec) (stop : Option SubjectStop) (slice : Option ℕ) (st : SubjectState W)
      → P st.plan
      → OnOk
          (λ st'. P st'.plan)
          (on_subject u host settings local subject started s spec
            (subject_record u host settings t subject.0 s spec)
            st
            slice
            stop)
  instance-kept t local subject started s spec (some why) slice st h = keep.by_skip st.plan _ refl h
  instance-kept t local subject started s spec none none st h =
      OnOk-unless_raised (λ st'. P st'.plan) _ _ (keep.by_visit st.plan s spec _ _ refl h)
  instance-kept t local subject started s spec none (some slice) st h =
      let now = host.clock st.plan.run.world in
      let h1 = keep.by_clock st.plan now.1 h in
      elim (Bool-cases (ltb slice (now.0 - started))) [
        | inl late ↦ rw late (keep.by_skip _ _ refl h1)
        | inr soon ↦
            rw soon
              (OnOk-unless_raised (λ st'. P st'.plan) _ _ (keep.by_visit _ s spec _ _ refl h1))
      ]

  instances-kept :
      (t : ForEach) (local : List String) (subject : Subject) (started : ℕ) (ss : List Step)
      (st : SubjectState W)
      → P st.plan
      → OnOk (λ st'. P st'.plan) (visit_instances u host settings t local subject started ss st)
  unfolding visit_instances
  instances-kept t local subject started [] st h = h
  instances-kept t local subject started (s ∷ ss) st h =
      OnOk-bind (λ _. Unit {0}) (λ st'. P st'.plan) (find_check settings.registry s.check) _
        (OnOk-any (λ _. tt) (find_check settings.registry s.check))
        λ spec _.
          OnOk-bind (λ st'. P st'.plan) (λ st'. P st'.plan)
            (visit_instance u host settings t local subject started s spec st) _
            (unfold visit_instance in
              instance-kept t local subject started s spec st.stop t.subject_seconds st h)
            (λ st' k. instances-kept t local subject started ss st' k)

  subjects-kept :
      (t : ForEach) (l : List Subject) (p : PlanState W)
      → P p
      → OnOk (λ r. P r.0) (visit_subjects u host settings t l p)
  unfolding visit_subjects
  subjects-kept t [] p h = h
  subjects-kept t (subject ∷ rest) p h =
      let t0 = host.clock p.run.world in
      OnOk-bind (λ st. P st.plan) (λ r. P r.0) _ _
        (instances-kept t (map (λ s. s.step_id) t.steps) subject t0.0 t.steps
          (record {
            plan = record p { run = record p.run { world = t0.1 } };
            stop = none;
            unfinished = false;
          })
          (keep.by_clock p t0.1 h))
        λ st k. OnOk-bind (λ r. P r.0) (λ r. P r.0) _ _ (subjects-kept t rest st.plan k) (λ r m. m)

  item-kept : (i : PlanItem) (p : PlanState W) → P p → OnOk P (visit_item u host settings i p)
  unfolding visit_item
  item-kept (step s) p h =
      OnOk-bind (λ _. Unit {0}) P (find_check settings.registry s.check) _
        (OnOk-any (λ _. tt) (find_check settings.registry s.check))
        (λ spec _.
          unfold visit_step in OnOk-unless_raised P _ _ (keep.by_visit p s spec _ _ refl h))
  item-kept (for_each t) p h =
      OnOk-bind (λ _. Unit {0}) P (listed u host settings t p) _ (OnOk-any (λ _. tt) _)
        λ found _.
          OnOk-bind (λ r. P r.0) P _ _ (subjects-kept t found.0 p h)
            (λ r k. keep.by_enumeration r.0 _ k)

  pub items-kept :
      (is : List PlanItem) (p : PlanState W) → P p → OnOk P (visit_items u host settings is p)
  unfolding visit_items
  items-kept [] p h = h
  items-kept (i ∷ is) p h =
      OnOk-bind P P (visit_item u host settings i p) _ (item-kept i p h) (λ q k. items-kept is q k)
