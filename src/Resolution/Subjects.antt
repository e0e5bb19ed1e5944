-- ===== src/Resolution/Subjects.antt =====
-- The planner over the validators of ipa_diagnose/resolution/types.py: what the subjects are that
-- its templates are run for.
use ipa_diagnose.Base.{◌≡◌, sym, ◌≢◌, ◌∙◌, String, All, All-mono}
use ipa_diagnose.Base.Value.{Value}
use ipa_diagnose.TextSafe.Scan.{Unicode}
use ipa_diagnose.Planner.Types.{Host, ForEach, Context}
use ipa_diagnose.Planner.Subjects.{Subject, subjects}
use ipa_diagnose.Planner.Subjects.Valid.{IsValidated, IsRaised, subjects-IsValidated}
use ipa_diagnose.Resolution.Types.{Runtime, validate}
use ipa_diagnose.Planner.Validate.{Yields, Ends-mono}
use ipa_diagnose.Resolution.Types.Port.{validate-Raises}
use ipa_diagnose.Resolution.Types.Safe.{validate-IsSafe}
use ipa_diagnose.Resolution.Types.Safe.Plain.{IsSafe}

-- If the planner's validators are those of the resolution layer, then the subjects of a template of
-- another subject type than `ldap_port` are listed without an error, and every one is safe in a
-- command line: it is not empty, begins with a letter, a digit or one of `_./`, and has only
-- letters, digits, spaces and `$+,-./:=@_`.
pub subjects-IsSafe :
    {W : Type 0} (rt : Runtime) (u : Unicode) (host : Host W) (t : ForEach) (c : Context)
    → t.subject_type ≢ "ldap_port"
    → ((kind : String) (v : Value) → host.validate kind v ≡ validate rt kind v)
    → Yields (λ r. All (λ (e : Subject). IsSafe e.0) r.0) (subjects u host t c)
subjects-IsSafe rt u host t c n h =
    Ends-mono (IsRaised host.validate t.subject_type) (λ _. ⊥)
      (λ r. All (λ (e : Subject). IsValidated host.validate t.subject_type e.0) r.0)
      (λ r. All (λ (e : Subject). IsSafe e.0) r.0) (subjects u host t c)
      (subjects-IsValidated u host t c)
      (λ e k.
        n ((validate-Raises rt t.subject_type k.1.0).0 (sym (h t.subject_type k.1.0) ∙ k.1.1)).0)
      λ r k.
        All-mono
          (λ (e : Subject) (w : IsValidated host.validate t.subject_type e.0).
            validate-IsSafe rt t.subject_type w.0 e.0 n (sym (h t.subject_type w.0) ∙ w.1))
          r.0 k
