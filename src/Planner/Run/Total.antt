-- ===== src/Planner/Run/Total.antt =====
-- How the run of a plan that `validate_plan` accepts may end.
use ipa_diagnose.Base.{
  ◌-◌, refl, Option, Option-cases, none, some, ltb, false, Bool-cases, inl, inr, ◌⊎◌, ℕ, ◌≡◌,
  String, Bool, true, ◌||◌, List, [], ◌∷◌, string_eq, All,
}
use ipa_diagnose.Base.Dict.{Dict, has}
use ipa_diagnose.Base.Value.{Value}
use ipa_diagnose.TextSafe.Scan.{Unicode}
use ipa_diagnose.Planner.Types.{
  CheckSpec, Step, ForEach, PlanItem, step, for_each, Host, Record, SubjectStop,
}
use ipa_diagnose.Planner.Decide.{Settings}
use ipa_diagnose.Resolution.Types.{value_error}
use ipa_diagnose.Planner.Subjects.{Subject, subjects}
use ipa_diagnose.Planner.Subjects.Valid.{IsRaised, IsValidated, subjects-IsValidated}
use ipa_diagnose.Planner.Visit.Raises.{RunnerRaises, visit_raises}
use ipa_diagnose.Planner.Validate.{
  PlanError, value_error_raised, unless_raised, Result, ok, refuse, check_template, check_size,
  find_check, validate_step, validate_template_steps, validate_item, validate_items, validate_plan,
  Seen, Local, Fanout, Yields, Yields-ok, Yields-Ends, Ends, Ends-bind, Ends-mono, bind-first,
}
use ipa_diagnose.Planner.Run.{
  PlanState, SubjectState, visit_instances, visit_subjects, visit_item, visit_items, listed,
  run_plan, on_subject, visit_instance, visit_step,
}

-- The registry has the step's check.
abbrev pub IsKnown : Dict String CheckSpec → Step → Type 0
IsKnown registry s = Yields (λ _. Unit) (find_check registry s.check)

-- It has the checks of all steps of the item.
abbrev pub IsKnownItem : Dict String CheckSpec → PlanItem → Type 0
IsKnownItem registry (step s) = IsKnown registry s
IsKnownItem registry (for_each t) = All (IsKnown registry) t.steps

module _ (registry : Dict String CheckSpec) (subject_types : List String) where
  template_steps-IsKnown :
      (seen : Seen) (ss : List Step) (local : Local) (fanout : Fanout) (r : Local × Fanout)
      → validate_template_steps registry subject_types seen ss local fanout ≡ ok r
      → All (IsKnown registry) ss
  unfolding validate_template_steps
  template_steps-IsKnown seen [] local fanout r h = tt
  template_steps-IsKnown seen (s ∷ ss) local fanout r h =
      let a = bind-first (refuse (has seen s.step_id || has local s.step_id) _) _ r h in
      let b = bind-first (find_check registry s.check) _ r a.2 in
      let c = bind-first (validate_step s b.0 seen local fanout true) _ r b.2 in
      (Yields-ok _ _ b.1, template_steps-IsKnown seen ss _ c.0 r c.2)

  item-IsKnown :
      (i : PlanItem) (seen : Seen) (fanout : Fanout) (r : Seen × Fanout)
      → validate_item registry subject_types i seen fanout ≡ ok r
      → IsKnownItem registry i
  unfolding validate_item
  item-IsKnown (step s) seen fanout r h =
      let a = bind-first (refuse (has seen s.step_id) _) _ r h in
      let b = bind-first (find_check registry s.check) _ r a.2 in Yields-ok _ _ b.1
  item-IsKnown (for_each t) seen fanout r h =
      let a = bind-first (check_template registry subject_types seen t) _ r h in
      let g =
        bind-first (validate_template_steps registry subject_types seen t.steps [] fanout) _ r
          a.2 in
      template_steps-IsKnown seen t.steps [] fanout g.0 g.1

  items-IsKnown :
      (is : List PlanItem) (seen : Seen) (fanout : Fanout) (r : Seen × Fanout)
      → validate_items registry subject_types is seen fanout ≡ ok r
      → All (IsKnownItem registry) is
  unfolding validate_items
  items-IsKnown [] seen fanout r h = tt
  items-IsKnown (i ∷ is) seen fanout r h =
      let a = bind-first (validate_item registry subject_types i seen fanout) _ r h in
      (item-IsKnown i seen fanout a.0 a.1, items-IsKnown is a.0.0 a.0.1 r a.2)

  plan-IsKnown :
      (plan : List PlanItem)
      → validate_plan plan registry subject_types ≡ ok tt
      → All (IsKnownItem registry) plan
  unfolding validate_plan
  plan-IsKnown plan h =
      let a = bind-first (check_size plan) _ tt h in
      let c = bind-first (validate_items registry subject_types plan [] []) _ tt a.2 in
      items-IsKnown plan [] [] c.0 c.1

-- The error is a ValueError, and a validator or the runner raises one.
abbrev pub IsHosts : {W : Type 0} → Host W → PlanError → Type 0
IsHosts host e =
    (e ≡ value_error_raised)
    × (((kind : String) × (v : Value) × (host.validate kind v ≡ value_error)) ⊎ RunnerRaises host)

module _ {W : Type 0} (u : Unicode) (host : Host W) (settings : Settings) where
  -- What was begun ends well, or with an error of the host.
  abbrev Finishes {ℓ} : {A : Type ℓ} → Result A → Type 0
  Finishes r = Ends (IsHosts host) (λ _. Unit) r

  unless_raised-Finishes {ℓ} :
      {A : Type ℓ} (b : Bool) (a : A)
      → (b ≡ true → RunnerRaises host)
      → Finishes (unless_raised b a)
  unless_raised-Finishes true a h = (refl, inr (h refl))
  unless_raised-Finishes false a h = tt

  subject-total :
      (local : List String) (subject : Subject) (started : ℕ) (s : Step) (spec : CheckSpec)
      (rec : Record) (st : SubjectState W) (slice : Option ℕ) (stop : Option SubjectStop)
      → Finishes (on_subject u host settings local subject started s spec rec st slice stop)
  subject-total local subject started s spec rec st slice (some why) = tt
  subject-total local subject started s spec rec st none none =
      unless_raised-Finishes _ _ (visit_raises u host settings st.plan.run s spec rec _)
  subject-total local subject started s spec rec st (some slice) none =
      elim (Bool-cases (ltb slice ((host.clock st.plan.run.world).0 - started))) [
        | inl late ↦ rw late tt
        | inr soon ↦
            rw soon (unless_raised-Finishes _ _ (visit_raises u host settings _ s spec rec _))
      ]

  instances-total :
      (t : ForEach) (local : List String) (subject : Subject) (started : ℕ) (ss : List Step)
      (st : SubjectState W)
      → All (IsKnown settings.registry) ss
      → Finishes (visit_instances u host settings t local subject started ss st)
  unfolding visit_instances
  instances-total t local subject started [] st h = tt
  instances-total t local subject started (s ∷ ss) st h =
      Ends-bind (IsHosts host) (λ _. Unit) (λ _. Unit) (find_check settings.registry s.check) _
        (Yields-Ends (IsHosts host) (λ _. Unit) _ h.0)
        λ spec _.
          Ends-bind (IsHosts host) (λ _. Unit) (λ _. Unit)
            (visit_instance u host settings t local subject started s spec st) _
            (unfold visit_instance in
              subject-total local subject started s spec _ st t.subject_seconds st.stop)
            (λ st' _. instances-total t local subject started ss st' h.1)

  subjects-total :
      (t : ForEach) (l : List Subject) (p : PlanState W)
      → All (IsKnown settings.registry) t.steps
      → Finishes (visit_subjects u host settings t l p)
  unfolding visit_subjects
  subjects-total t [] p h = tt
  subjects-total t (subject ∷ rest) p h =
      Ends-bind (IsHosts host) (λ _. Unit) (λ _. Unit) _ _
        (instances-total t _ subject _ t.steps _ h)
        λ st _.
          Ends-bind (IsHosts host) (λ _. Unit) (λ _. Unit) _ _ (subjects-total t rest st.plan h)
            (λ r _. tt)

  listed-total : (t : ForEach) (p : PlanState W) → Finishes (listed u host settings t p)
  listed-total t p = elim (Option-cases p.run.stop_reason) [
    | inl e ↦ rw e (
        Ends-mono (IsRaised host.validate t.subject_type) (IsHosts host)
          (λ r. All (λ (e : Subject). IsValidated host.validate t.subject_type e.0) r.0) (λ _. Unit)
          (subjects u host t p.ctx) (subjects-IsValidated u host t p.ctx)
          (λ e k. (k.0, inl (t.subject_type, k.1.0, k.1.1))) (λ r k. tt))
    | inr (why, e) ↦ rw e tt
  ]

  item-total :
      (i : PlanItem) (p : PlanState W)
      → IsKnownItem settings.registry i
      → Finishes (visit_item u host settings i p)
  unfolding visit_item
  item-total (step s) p h =
      Ends-bind (IsHosts host) (λ _. Unit) (λ _. Unit) (find_check settings.registry s.check) _
        (Yields-Ends (IsHosts host) (λ _. Unit) _ h)
        λ spec _.
          unfold visit_step in
          unless_raised-Finishes _ _ (visit_raises u host settings p.run s spec _ _)
  item-total (for_each t) p h =
      Ends-bind (IsHosts host) (λ _. Unit) (λ _. Unit) (listed u host settings t p) _
        (listed-total t p)
        λ found _.
          Ends-bind (IsHosts host) (λ _. Unit) (λ _. Unit) _ _ (subjects-total t found.0 p h)
            (λ r _. tt)

  items-total :
      (is : List PlanItem) (p : PlanState W)
      → All (IsKnownItem settings.registry) is
      → Finishes (visit_items u host settings is p)
  unfolding visit_items
  items-total [] p h = tt
  items-total (i ∷ is) p h =
      Ends-bind (IsHosts host) (λ _. Unit) (λ _. Unit) (visit_item u host settings i p) _
        (item-total i p h.0) (λ q _. items-total is q h.1)

module _ {W : Type 0} (u : Unicode) (host : Host W) where
  -- If `validate_plan` accepts the plan, then `run_plan` returns a trace, whatever the inputs and
  -- budgets are, or it raises a ValueError that a validator of subject names, or the runner, raises
  -- for some argument. It raises no PlanError and no KeyError.
  pub run_plan-total :
      (plan : List PlanItem) (inputs : Dict String Value) (is_root : Bool)
      (registry : Dict String CheckSpec) (max_seconds max_steps : ℕ) (hint : String) (w : W)
      → validate_plan plan registry host.subject_types ≡ ok tt
      → Ends
          (IsHosts host)
          (λ _. Unit)
          (run_plan u host plan inputs is_root registry max_seconds max_steps hint w)
  unfolding run_plan
  run_plan-total plan inputs is_root registry max_seconds max_steps hint w accepted =
      Ends-bind (IsHosts host) (λ _. Unit) (λ _. Unit)
        (validate_plan plan registry host.subject_types) _
        (Yields-Ends (IsHosts host) (λ _. Unit) _ (Yields-ok _ _ accepted))
        λ _ _.
          Ends-bind (IsHosts host) (λ _. Unit) (λ _. Unit) _ _
            (items-total u host _ plan _ (plan-IsKnown registry host.subject_types plan accepted))
            (λ p _. tt)
