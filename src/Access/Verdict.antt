-- ===== src/Access/Verdict.antt =====
-- The verdicts of ipa_diagnose/access/evaluate.py: what is said of authentication, of authorization and
-- of runtime access, from what was read and from FreeIPA's own evaluation.
pub mod Decision
use ipa_diagnose.Base.{
  ℕ, String, ◌<>◌, Bool, true, false, ◌&&◌, ◌||◌, not, Option, none, some, List, [], ◌∷◌, ◌++◌, map,
  ◌==◌, ltb, if◌then◌else◌, any, filter, length, take, string_eq,
}
use ipa_diagnose.Base.Value.{pos}
use ipa_diagnose.Resolution.Text.{show}

pub data State : Type 0 where
  passed failed unknown not_verified : State

pub record Verdict : Type 0 where
  pub state : State
  pub summary : String
  pub reasons : List String

pub record AccessFinding : Type 0 where
  pub code : String
  pub title : String
  pub detail : String
  -- it is part of why access is refused or undetermined
  pub blocking : Bool

-- FreeIPA's own answer, as received.
pub record Evaluation : Type 0 where
  pub ran : Bool
  pub granted : Option Bool
  pub matched : List String
  pub error_rules : List String
  pub truncated : Bool
  pub error : Option String

pub record AccountState : Type 0 where
  pub exists : Option Bool
  pub canonical : Option String
  pub disabled : Option Bool
  pub principal_expires : Option String
  pub principal_expired : Option Bool
  pub password_expires : Option String
  pub password_expired : Option Bool
  pub preserved : Option Bool

pub record HostState : Type 0 where
  pub exists : Option Bool
  pub canonical : Option String
  pub has_keytab : Option Bool

-- The two fields of a `RuleExplanation` that the verdict reads.
pub record Explained : Type 0 where
  pub rule : String
  pub status : String

-- What the verdicts read of the context, the targets and the run.
pub record Asked : Type 0 where
  -- why FreeIPA could not be queried
  pub unavailable : Option String
  pub user : String
  pub user_domain : Option String
  pub rules_unread : List String
  pub rules_cut : Bool

-- `bool(s)` of an optional text, `bool(b)` of an optional flag, `b is False`
abbrev pub is_set : Option String → Bool
is_set none = false
is_set (some s) = not (s == "")

abbrev pub is_yes : Option Bool → Bool
is_yes (some true) = true
is_yes _ = false

abbrev pub is_no : Option Bool → Bool
is_no (some false) = true
is_no _ = false

abbrev pub is_unread : Option Bool → Bool
is_unread none = true
is_unread (some b) = false

-- A text in an f-string.
abbrev pub shown : Option String → String
shown none = "None"
shown (some s) = s

abbrev pub or_blank : Option String → String
or_blank none = ""
or_blank (some s) = s

abbrev pub says : State → String → List String → Verdict
says state summary reasons = record { state = state; summary = summary; reasons = reasons }

abbrev pub noted : Bool → String → List String
noted true s = s ∷ []
noted false s = []

-- `sep.join(l)`
abbrev pub joined : String → List String → String
joined sep [] = ""
joined sep (x ∷ []) = x
joined sep (x ∷ y ∷ l) = x <> (sep <> joined sep (y ∷ l))

-- Why the account cannot authenticate.
unfoldable pub block_reasons : AccountState → List String
block_reasons a =
    noted (is_yes a.disabled) "the account is disabled"
    ++ noted (is_yes a.principal_expired)
        ("the Kerberos principal expired at " <> shown a.principal_expires)

abbrev pub if_blocked : List String → Verdict → Verdict
if_blocked [] v = v
if_blocked (r ∷ rs) v = says failed (joined "; " (r ∷ rs)) (r ∷ rs)

-- `_authentication`
unfoldable pub authentication : Asked → AccountState → Verdict
unfolding block_reasons
authentication q a =
    if is_set q.unavailable && is_unread a.exists
    then says unknown (q.user <> "'s account was not read: ipa-diagnose could not query FreeIPA")
        (or_blank q.unavailable ∷ [])
    else if is_set q.user_domain
    then says unknown "trusted-domain identity: not evaluated by this version" []
    else if is_no a.exists
    then says failed ("no IPA user named " <> q.user) []
    else if is_yes a.preserved
    then says failed (shown a.canonical <> " is a preserved (deleted) user") []
    else if is_unread a.exists
    then says unknown "the user could not be read" []
    else if_blocked (block_reasons a) (
        if is_unread a.disabled
        then says unknown "the account's enabled/disabled state is not readable by this identity" []
        else says not_verified "the IPA account exists and is enabled; no credential was tested" (
            noted (is_yes a.password_expired) (
              "the password expired at "
              <> (shown a.password_expires <> ": a password login must change it first"))))

-- The status of the explanation.
pub data Explanation : Type 0 where
  nothing contradicting incomplete whole : Explanation

abbrev pub finding : String → String → String → Bool → AccessFinding
finding code title detail blocking = record {
  code = code;
  title = title;
  detail = detail;
  blocking = blocking;
}

-- A verdict, the status of the explanation, and the findings of the run.
abbrev pub Decided : Type 0
Decided = Verdict × Explanation × List AccessFinding

-- The status of the explanation with its finding.
unfoldable pub explained : Asked → Evaluation → List Explained → Explanation × List AccessFinding
unfolding any filter
explained q ev rules =
    let against = filter (λ e. e.status == "CONTRADICTING") rules in
    if ltb 0 (length against)
    then (
      contradicting,
      finding "EXPLANATION_CONTRADICTS" "The explanation disagrees with FreeIPA's decision"
            ("The group and rule data read by ipa-diagnose does not reproduce FreeIPA's decision for: "
              <> (joined ", " (map (λ e. e.rule) against)
                  <> ". FreeIPA's decision stands; the data may have changed between calls, or this is a gap in ipa-diagnose's model (please report it)."))
            false
          ∷ [],
    )
    else if any (λ e. e.status == "INCOMPLETE") rules
        || (is_yes ev.granted && not (ltb 0 (length rules)))
        || ltb 0 (length q.rules_unread)
        || q.rules_cut
    then (
      incomplete,
      finding "RELATIONSHIP_INCOMPLETE" "The explanation is incomplete"
            "Some memberships or rules could not be read, or more rules applied than are explained, so part of the 'why' is missing. FreeIPA's decision is not affected."
            false
          ∷ [],
    )
    else (whole, [])

-- `MAX_RULES`
abbrev pub max_rules : ℕ
max_rules = 10

abbrev pub plural : List String → String
plural l = if ltb 1 (length l) then "s" else ""

-- FreeIPA's decision.
abbrev pub decision : Bool → Evaluation → Explanation × List AccessFinding → Decided
decision true ev why = (
  says passed
      ("FreeIPA HBAC policy allows this request (rule"
        <> (plural ev.matched <> (": " <> (joined ", " (take max_rules ev.matched) <> ")"))))
      [],
  why.0,
  why.1,
)
decision false ev why = (
  says failed "FreeIPA HBAC policy does not authorize this request" [],
  why.0,
  why.1
      ++ finding "HBAC_DENIED" "FreeIPA HBAC policy does not authorize this request"
          "FreeIPA's HBAC evaluation found no enabled rule that matches this user, host and service together. This is the policy as configured, not by itself a fault."
          true
        ∷ [],
)

abbrev pub undecided : String → List String → List AccessFinding → Decided
undecided summary reasons found = (says unknown summary reasons, nothing, found)

-- `_authorization`; the findings are those that it adds to the run.
unfoldable pub authorization :
    Asked → AccountState → HostState → Evaluation → List Explained → Decided
unfolding explained show
authorization q a h ev rules =
    if is_set q.unavailable
    then undecided "not evaluated: ipa-diagnose could not query FreeIPA"
        (or_blank q.unavailable ∷ []) []
    else if is_set q.user_domain
    then undecided "trusted-domain identity: not evaluated by this version" [] []
    else if is_yes a.preserved
    then undecided "not evaluated: a preserved (deleted) user has no policy decision" [] []
    else if is_no a.exists || is_no h.exists
    then undecided
        ("not evaluated: the "
          <> ((if is_no a.exists then "user" else "host")
              <> " does not exist in FreeIPA, so there is no policy decision about it"))
        [] []
    else if not ev.ran
    then undecided (if is_set ev.error then or_blank ev.error else "not evaluated") [] []
    else if is_set ev.error
    then undecided "FreeIPA's HBAC evaluation gave no usable answer" (or_blank ev.error ∷ []) (
        finding "EVALUATOR_FAILED" "FreeIPA's HBAC evaluation gave no usable answer"
          (or_blank ev.error) true
        ∷ [])
    else if ev.truncated
    then undecided "FreeIPA evaluated only part of the HBAC rules (size limit)" [] (
        finding "EVALUATOR_TRUNCATED" "FreeIPA evaluated a truncated rule list"
          "The HBAC rule search hit a size limit, so some rules were not evaluated. SSSD evaluates all of them; this answer cannot be trusted."
          true
        ∷ [])
    else if ltb 0 (length ev.error_rules)
    then undecided "FreeIPA reported HBAC rules it could not evaluate" [] (
        finding "EVALUATOR_RULE_ERRORS" "Some HBAC rules could not be evaluated"
          ("FreeIPA reported "
            <> (show (pos (length ev.error_rules))
                <> " rule(s) it could not evaluate. SSSD stops at such a rule and refuses access, depending on rule order, so the outcome on the host is not certain."))
          true
        ∷ [])
    else decision (is_yes ev.granted) ev (explained q ev rules)

abbrev pub is_failed : State → Bool
is_failed failed = true
is_failed _ = false

-- `_runtime`
unfoldable pub runtime : Verdict → Verdict → HostState → Verdict
runtime authn authz h =
    says not_verified
      (if is_failed authn.state || is_failed authz.state
        then "not tested; a login is expected to be refused where the host enforces FreeIPA through SSSD"
        else if is_no h.has_keytab
        then "not tested; the host has no keytab in FreeIPA, so it may not be enrolled"
        else "not tested: FreeIPA policy is only one part of a real login")
      ("no login was attempted; the host's SSSD, PAM configuration, network path and keytab were not checked"
        ∷ [])
