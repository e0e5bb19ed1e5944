-- ===== src/Access/Verdict/Decision.antt =====
-- The verdicts of ipa_diagnose/access/evaluate.py against the decision that they report.
use ipa_diagnose.Base.{
  ◌≡◌, ◌≢◌, refl, arith, Bool, true, false, ◌&&◌, ◌||◌, not, List, ltb, length, All,
}
use ipa_diagnose.Access.Verdict.{
  State, passed, failed, unknown, AccessFinding, Evaluation, AccountState, HostState, Explained,
  Asked, is_set, is_yes, is_no, block_reasons, authentication, explained, decision, authorization,
  is_failed,
}

-- FreeIPA was asked about a user and a host that exist, and gave an answer for its whole list of rules.
abbrev pub answered : Asked → AccountState → HostState → Evaluation → Bool
answered q a h ev =
    not (
      is_set q.unavailable
      || is_set q.user_domain
      || is_yes a.preserved
      || is_no a.exists
      || is_no h.exists)
    && ev.ran
    && not (is_set ev.error || ev.truncated || ltb 0 (length ev.error_rules))

-- The policy decision: unknown without an answer, and else the one that FreeIPA gave.
abbrev pub policy : Bool → Bool → State
policy false granted = unknown
policy true true = passed
policy true false = failed

decision_state :
    (b : Bool) (ev : Evaluation) (why : _) → (decision b ev why).0.state ≡ policy true b
decision_state true ev why = refl
decision_state false ev why = refl

-- The verdict on authorization is FreeIPA's decision wherever FreeIPA answered about a user and a host
-- that exist, for all of its rules, and UNKNOWN everywhere else. The rules and memberships that were read
-- to explain it never change it.
pub authorization-policy :
    (q : Asked) (a : AccountState) (h : HostState) (ev : Evaluation) (rules : List Explained)
    → (authorization q a h ev rules).0.state ≡ policy (answered q a h ev) (is_yes ev.granted)
unfolding authorization
authorization-policy q a h ev rules =
    ground (arith, decision_state (is_yes ev.granted) ev (explained q ev rules))

-- A finding that is context only.
abbrev pub IsContext : AccessFinding → Type 0
IsContext f = f.blocking ≡ false

explained-IsContext :
    (q : Asked) (ev : Evaluation) (rules : List Explained) → All IsContext (explained q ev rules).1
unfolding explained
explained-IsContext q ev rules = ground arith

decision-IsContext :
    (b : Bool) (q : Asked) (ev : Evaluation) (rules : List Explained)
    → (decision b ev (explained q ev rules)).0.state ≡ passed
    → All IsContext (decision b ev (explained q ev rules)).2
decision-IsContext true q ev rules h = explained-IsContext q ev rules
decision-IsContext false q ev rules h = absurd (ground (arith, h))

-- Where authorization passes, no finding of the run says that access is refused or undetermined.
pub authorization-IsContext :
    (q : Asked) (a : AccountState) (h : HostState) (ev : Evaluation) (rules : List Explained)
    → (authorization q a h ev rules).0.state ≡ passed
    → All IsContext (authorization q a h ev rules).2
unfolding authorization
authorization-IsContext q a h ev rules p =
    ground (arith, p, decision-IsContext (is_yes ev.granted) q ev rules)

-- FreeIPA says that the account cannot authenticate.
abbrev pub blocked : AccountState → Bool
blocked a = is_no a.exists || is_yes a.preserved || is_yes a.disabled || is_yes a.principal_expired

-- Authentication never passes, and it fails only for a user that does not exist, is preserved, is
-- disabled, or whose principal has expired.
pub authentication_never_passed :
    (q : Asked) (a : AccountState)
    → ((authentication q a).state ≢ passed)
      × ((not (is_failed (authentication q a).state) || blocked a) ≡ true)
unfolding authentication block_reasons
authentication_never_passed q a = (λ h. ground (arith, h), ground arith)
