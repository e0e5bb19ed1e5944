-- ===== src/Tests/Verdicts.antt =====
-- Verdicts of ipa_diagnose/access/evaluate.py.
use ipa_diagnose.Base.{◌≡◌, refl, true, false, none, some, List, [], ◌∷◌, string_eq}
use ipa_diagnose.Access.Verdict.{
  passed, unknown, is_yes, Evaluation, AccountState, HostState, Asked, authorization, Explained,
}
use ipa_diagnose.Access.Verdict.Decision.{policy, answered, authorization-policy}

abbrev asked : Asked
asked = record {
  unavailable = none;
  user = "ann";
  user_domain = none;
  rules_unread = [];
  rules_cut = false;
}

abbrev account : AccountState
account = record {
  exists = some true;
  canonical = some "ann";
  disabled = some false;
  principal_expires = none;
  principal_expired = some false;
  password_expires = none;
  password_expired = some false;
  preserved = some false;
}

abbrev enrolled : HostState
enrolled = record { exists = some true; canonical = some "app.lab"; has_keytab = some true }

abbrev granted : Evaluation
granted = record {
  ran = true;
  granted = some true;
  matched = "allow_all" ∷ [];
  error_rules = [];
  truncated = false;
  error = none;
}

abbrev rules : List Explained
rules = record { rule = "allow_all"; status = "COMPLETE" } ∷ []

access_granted : (authorization asked account enrolled granted rules).0.state ≡ passed
unfolding authorization string_eq
access_granted = refl

truncated_unknown :
    (authorization asked account enrolled (record granted { truncated = true }) rules).0.state
    ≡ unknown
unfolding authorization string_eq
truncated_unknown = refl

authorization-policy_example :
    (authorization asked account enrolled granted rules).0.state
    ≡ policy (answered asked account enrolled granted) (is_yes granted.granted)
authorization-policy_example = authorization-policy asked account enrolled granted rules
