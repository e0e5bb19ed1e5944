-- ===== src/Lib.antt =====
-- ipa-diagnose: a model of its core, and the theorems that make it correct.
--
-- ipa-diagnose collects evidence about a FreeIPA server or client, runs closed plans of read-only
-- checks, and reports diagnoses. The parts that are modelled, each in the module of its name:
--
-- TextSafe models src/ipa_diagnose/textsafe.py. Every text from outside passes through
-- `sanitize_text`. A text is the list of its characters; the four escape expressions are scanners
-- (TextSafe/Scan). `str.isprintable` and `str.isspace` are the parameter `Unicode`.
--
-- Environment models src/ipa_diagnose/environment/graph.py: the typed graph of entities, facts and
-- relations that the modes share. A graph is the record of its dicts, and a method takes a graph and
-- answers a graph or the error that it raises. The bounds are the source's: 400 entities, 3000 facts
-- and 1500 relations.
--
-- Planner models src/ipa_diagnose/planner/core.py: `validate_plan` (Planner/Validate; its
-- errors as values are Planner/Errors), the gates of a
-- step (Planner/Decide), `_Run.visit` (Planner/Visit), `_subjects` (Planner/Subjects) and `run_plan`
-- (Planner/Run). The mutable attributes of a run are `RunState` and those of the loop `PlanState`;
-- they are passed from step to step. The runner that executes checks, the clocks and the validators of
-- src/ipa_diagnose/resolution/types.py are the parameter `Host`, over a world that it may change at
-- each call; a validator, and the runner when it validates the parameters of a check, may raise
-- ValueError, which nothing in `run_plan` catches. A visit that ends so is marked as raised, with the
-- run as it was left, and its caller raises. A gate, a classifier or a stop rule is a function of the
-- plan that may raise (`none`).
-- The texts of skip reasons are data: the leading words, and what they quote.
--
-- Diagnosis models src/ipa_diagnose/engine/correlate.py with the data of
-- src/ipa_diagnose/engine/model.py and src/ipa_diagnose/evidence/model.py: `_score` (Diagnosis/Rank, in
-- double-precision arithmetic as Base/Double computes it), the causes of a diagnosis
-- (Diagnosis/Causes), `_demote_via_causality` (Diagnosis/Demote), `_undiagnosed_findings`
-- (Diagnosis/Undiagnosed), the completeness and the overall status (Diagnosis/Status), and
-- `build_report` (Diagnosis/Report). A diagnosis that the source changes in place is a new record here,
-- at the same place of the list. The parameter `Surroundings` holds what the report takes from
-- elsewhere: Python's `str`, `repr` and `lower`, `redact_text`, `==` of two diagnoses, the clock, the
-- diagnostic packs and the catalog of checks.
--
-- Access models src/ipa_diagnose/access/relations.py: `RelationshipIndex` (Access/Index), and
-- `HbacRule.from_api` and `explain_side` (Access/Explain), which passes on the index that it may add
-- nodes to. `str.lower` and `str.upper` are parameters, and a set of names is the list of its members.
-- The breadth-first search of `membership_path` runs on fuel, one more than the number of edges: each
-- pass but the first starts at a node that an edge of its own has reached.
--
-- Access/Verdict models the verdicts of src/ipa_diagnose/access/evaluate.py on authentication,
-- authorization and runtime access, over what was read and FreeIPA's own evaluation; the API calls that
-- read it are not modelled. Access/Targets models src/ipa_diagnose/access/targets.py, which parses what
-- the administrator typed; `\d` of a regular expression is a parameter there.
--
-- Resolution models src/ipa_diagnose/resolution/types.py: each validator of a value that may reach a
-- printed command (Resolution/Types), with its pattern as data (Resolution/Patterns) and `fullmatch`
-- as a stepwise match (Resolution/Regex, with the parts of a text that a pattern matches in
-- Resolution/Regex/Parts). `str.lower`, `str.isdigit`, the digits that `int()` reads and
-- `os.path.normpath` are the parameter `Runtime`. Resolution/Subjects puts the validators under the
-- planner, as its `Host`.
--
-- Replication models src/ipa_diagnose/replication/causal.py: the capability DAG, the registry of
-- discriminators and `check_chain` (Replication/Causal); and src/ipa_diagnose/replication/ldif.py, the
-- bounded reader of LDIF, whose base64 decoder is a parameter (Replication/Ldif).
--
-- Verify models src/ipa_diagnose/verify.py: the saved report as a JSON dict with what it says of itself
-- (Verify/Baseline), `compare` with the guards of its loop in order (Verify/Compare), and what a plain
-- run carries on (Verify/Carry). The resolution engine's `rebuild_verify` and `evaluate_verify` are the
-- parameter `Runner`, which passes on the state of the host; the packs are the parameter
-- `Surroundings`. The message of an item is data: its kind, and what it quotes. Reading and writing the
-- state file is not modelled.
--
-- The other loops are structural recursion on a list of the input or on the number of attempts left.
-- Dicts are association lists in insertion order (Base/Dict). Floats are left out of the values, though
-- not of the scores; times are whole units of a clock that never goes back, so a difference of two
-- times is subtraction on natural numbers. The rendering methods, the collectors, which call other
-- programs, and the command line are not modelled.
pub mod Base
pub mod TextSafe
pub mod Environment
pub mod Planner
pub mod Resolution
pub mod Replication
pub mod Verify
pub mod Diagnosis
pub mod Access
pub mod Tests
