-- ===== src/Planner/Context/Isolation.antt =====
-- What the gates of a template's step can read (`SubjectContext`).
use ipa_diagnose.Base.{
  Option, ◌≡◌, refl, ap, ◌∙◌, sym, String, true, none, some, contains, string_eq,
}
use ipa_diagnose.Base.Dict.{Dict, get}
use ipa_diagnose.Base.Value.{Value}
use ipa_diagnose.Planner.Types.{Outcome, Context, Record}
use ipa_diagnose.Planner.Context.{
  instance_id, rpartition, key_of, record_of, fact, fact_in, outcome,
}

abbrev outcome_in : Option Record → Option Outcome
outcome_in none = none
outcome_in (some r) = some r.outcome

key_of_lem :
    (c : Context) (subject step : String)
    → c.subject ≡ some subject
    → contains c.local step ≡ true
    → key_of c step ≡ instance_id step subject
unfolding key_of
key_of_lem c subject step is_subject is_local = rw (is_subject, is_local) refl

record_agrees :
    (c : Context) (others : Dict String Record) (subject step : String)
    → c.subject ≡ some subject
    → contains c.local step ≡ true
    → get others (instance_id step subject) ≡ get c.records (instance_id step subject)
    → record_of (record c { records = others }) step ≡ record_of c step
unfolding record_of
record_agrees c others subject step is_subject is_local agree =
    let here = key_of_lem c subject step is_subject is_local in
    let there = key_of_lem (record c { records = others }) subject step is_subject is_local in
    ap (get others) there ∙ (agree ∙ sym (ap (get c.records) here))

-- In the view of a subject, a reference to a step of its own template reads the record of that very
-- subject: any two runs whose records agree there give the same outcome and the same fact, whatever
-- the records of other subjects hold.
pub view_isolated :
    (c : Context) (others : Dict String Record) (subject ref : String) (default : Value)
    → c.subject ≡ some subject
    → contains c.local (rpartition ref).0 ≡ true
    → get others (instance_id (rpartition ref).0 subject)
      ≡ get c.records (instance_id (rpartition ref).0 subject)
    → (fact (record c { records = others }) ref default ≡ fact c ref default)
      × (outcome (record c { records = others }) (rpartition ref).0 ≡ outcome c (rpartition ref).0)
unfolding fact outcome
view_isolated c others subject ref default is_subject is_local agree =
    let step = (rpartition ref).0 in
    let same = record_agrees c others subject step is_subject is_local agree in
    (ap (λ r. fact_in r (rpartition ref).1 default) same, ap outcome_in same)
