-- ===== src/Tests/Chains.antt =====
-- Chains of ipa_diagnose/replication/causal.py.
use ipa_diagnose.Base.{
  ◌≡◌, ◌≢◌, ◌↔◌, ◌≤◌, refl, none, some, String, List, [], ◌∷◌, contains, string_eq, length,
}
use ipa_diagnose.Base.Dict.{get}
use ipa_diagnose.Replication.Causal.{
  symptom, discriminators, Link, Chain, other_step, no_evidence, not_in_dag, check_link,
  check_chain,
}
use ipa_diagnose.Replication.Causal.Proven.{IsProven, check_chain_iff}
use ipa_diagnose.Replication.Causal.Dag.{Distinct, check_chain_short, check_chain-in_dag}

abbrev link : (capability discriminator : String) → Link
link capability discriminator = record {
  claim = "";
  subject = "ipa2.lab";
  capability = capability;
  evidence = "nsds5replicaLastUpdateStatus" ∷ [];
  discriminator = discriminator;
  scope = "pair";
}

abbrev chain : List Link → Chain
chain links = record {
  chain_id = "c1";
  subject = "domain:ipa2.lab";
  links = links;
  boundary = "";
  next_action = [];
  handoff = none;
}

-- The agreement fails, its GSSAPI bind does, and the clocks differ.
abbrev skewed : Chain
skewed = chain (
    link "REPLICATION" "agreement-status"
    ∷ link "KERBEROS" "status-gssapi"
    ∷ link "TIME" "kerberos-clock-skew"
    ∷ [])

skewed_accepted : check_chain skewed ≡ none
unfolding check_chain check_link get discriminators string_eq contains
skewed_accepted = refl

-- A link that skips a step of the chain.
skips_refused :
    check_chain
      (chain (link "REPLICATION" "agreement-status" ∷ link "TIME" "kerberos-clock-skew" ∷ []))
    ≡ some (other_step, 1)
unfolding check_chain check_link get discriminators string_eq contains
skips_refused = refl

bare_refused :
    check_chain (chain (record (link "DNS" "peer-name-unresolved-now") { evidence = [] } ∷ []))
    ≡ some (no_evidence, 0)
unfolding check_chain check_link get discriminators string_eq contains
bare_refused = refl

check_chain_iff_example : (check_chain skewed ≡ none) ↔ IsProven symptom skewed.links
check_chain_iff_example = check_chain_iff skewed

check_chain_short_example : (length skewed.links ≤ 5) × Distinct skewed.links
check_chain_short_example = check_chain_short skewed skewed_accepted

check_chain-in_dag_example : check_chain skewed ≢ some (not_in_dag, 2)
check_chain-in_dag_example = check_chain-in_dag skewed 2
