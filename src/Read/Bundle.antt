-- ===== src/Read/Bundle.antt =====
-- `QivenContext::build_bundle` (src/persistence.cpp): the floors and constraints of a cognition,
-- candidates within a budget, omissions, and the evaluation of obligations.
use qiven_context_draft.Prelude.{
  ℕ, ℤ, ◌+◌, ◌/◌, ◌%◌, ◌^◌, Bool, not, ◌&&◌, ◌||◌, List, [], ◌∷◌, ◌++◌, Option, none, some, Text,
  text, ◌==◌, nat_eq, is_empty, length, map, leb, to_string, stoll, if◌then◌else◌,
}
use qiven_context_draft.Cognition.Policy.{Handoff, handoff_eq}
use qiven_context_draft.Cognition.Lifecycles.{
  Lifecycle, MemoryKind, MemoryStatus, ObligationStatus, ConflictStatus, lifecycle_eq,
  memory_kind_eq, memory_status_eq, conflict_status_eq,
}
use qiven_context_draft.Cognition.Records.{
  RevisionId, Snapshot, Decision, MemoryRecord, Obligation, Conflict, HandoffPolicy,
}
use qiven_context_draft.Transaction.Find.{find_obligation}
use qiven_context_draft.Service.State.{Handle}

pub record Query : Type 0 where
  pub task_scope : Text
  pub token_budget : ℕ

pub record BundleCandidate : Type 0 where
  pub kind : Text
  pub id : Text
  pub summary : Text

pub data Evaluation : Type 0 where
  met unknown unmet : Evaluation

pub record ObligationEvaluation : Type 0 where
  pub id : ℤ
  pub evaluation : Evaluation

pub record BundleOmission : Type 0 where
  pub what : Text
  pub reason : Text

pub record ContextBundle : Type 0 where
  pub snapshot : RevisionId
  pub mandatory_inputs : List Text
  pub protected_constraints : List Text
  pub candidates : List BundleCandidate
  pub obligations : List ObligationEvaluation
  pub omissions : List BundleOmission

-- The floors, in the order in which they are pushed.
abbrev pub boundary_line : Text → Option Obligation → List Text
boundary_line ref none = []
boundary_line ref (some boundary) =
    (text "next boundary: obligation " ++ (ref ++ (text ": " ++ boundary.statement))) ∷ []

-- `none` is the exception that `std::stoll` throws.
abbrev pub boundary_at : Text → List Obligation → Option ℤ → Option (List Text)
boundary_at ref obligations none = none
boundary_at ref obligations (some id) = some (boundary_line ref (find_obligation obligations id))

unfoldable pub boundary_floor : Snapshot → Option (List Text)
boundary_floor snapshot =
    let ref = snapshot.state.next_boundary_ref in
    if is_empty ref then some [] else boundary_at ref snapshot.obligations (stoll ref)

abbrev pub push_if : Bool → Text → List Text → List Text
push_if test line lines = if test then line ∷ lines else lines

abbrev pub conflict_line : Conflict → Text
conflict_line conflict =
    text "OPEN CONFLICT " ++ (conflict.id ++ (text ": " ++ conflict.description))

unfoldable pub open_conflicts : List Conflict → List Text
open_conflicts [] = []
open_conflicts (conflict ∷ conflicts) =
    push_if (conflict.status == ConflictStatus.opened) (conflict_line conflict)
      (open_conflicts conflicts)

abbrev pub negative_line : MemoryRecord → Text
negative_line r = text "negative knowledge: " ++ r.statement

unfoldable pub negative_knowledge : List MemoryRecord → List Text
negative_knowledge [] = []
negative_knowledge (r ∷ rs) =
    push_if (r.kind == MemoryKind.negative_knowledge && r.status == MemoryStatus.active)
      (negative_line r) (negative_knowledge rs)

abbrev pub article_line : Text → Text
article_line article = text "constitution: " ++ article

abbrev pub floors : Snapshot → List Text → List Text
floors snapshot boundary =
    (text "governance: " ++ snapshot.governance.root_principal)
    ∷ (map article_line snapshot.constitution.articles
        ++ (text "objective: " ++ snapshot.state.objective)
          ∷ (boundary ++ (open_conflicts snapshot.conflicts ++ negative_knowledge snapshot.memory)))

abbrev pub review_line : Text
review_line = text "H2 review evidence is mandatory for this operation class"

abbrev pub class_line : Text
class_line = text "root-principal governance class"

abbrev pub attended_line : Text
attended_line = text "unattended automation is read-only (ADR-0036)"

unfoldable pub row_constraints : List HandoffPolicy → List Text
row_constraints [] = []
row_constraints (row ∷ rows) =
    push_if (row.required == Handoff.h2_review) review_line
      (push_if row.root_principal_only class_line (row_constraints rows))

unfoldable pub constraints : Snapshot → List Text
constraints snapshot =
    row_constraints snapshot.policy.handoff
    ++ text "typed handoffs are never verbally waived (ADR-0036)" ∷ attended_line ∷ []

-- What the two loops over candidates have between them. `used` is a `std::size_t`.
pub record Selection : Type 0 where
  pub used : ℕ
  pub candidates : List BundleCandidate
  pub omissions : List BundleOmission

abbrev pub estimate : Text → ℕ
estimate t = (length t + 3) / 4

abbrev pub spent : ℕ → BundleCandidate → ℕ
spent used candidate = (used + estimate candidate.summary) % 2 ^ 64

abbrev pub over_budget : Text → BundleOmission
over_budget what = record {
  what = what;
  reason = text "token budget; floors and constraints were never touched";
}

unfoldable pub offer : ℕ → BundleCandidate → Text → Selection → Selection
offer budget candidate what sel =
    if leb (spent sel.used candidate) budget
    then record sel {
      used = spent sel.used candidate;
      candidates = sel.candidates ++ candidate ∷ [];
    }
    else record sel { omissions = sel.omissions ++ over_budget what ∷ [] }

abbrev pub decision_candidate : Decision → BundleCandidate
decision_candidate d = record {
  kind = text "decision";
  id = to_string d.id;
  summary =
      if d.status == Lifecycle.accepted
      then text "accepted: " ++ d.title
      else text "lifecycle: " ++ d.title;
}

abbrev pub decision_name : Decision → Text
decision_name d = text "decision " ++ to_string d.id

unfoldable pub offer_decisions : ℕ → List Decision → Selection → Selection
offer_decisions budget [] sel = sel
offer_decisions budget (d ∷ ds) sel =
    offer_decisions budget ds (offer budget (decision_candidate d) (decision_name d) sel)

abbrev pub memory_candidate : MemoryRecord → BundleCandidate
memory_candidate r = record { kind = text "memory"; id = r.title; summary = r.statement }

abbrev pub memory_name : MemoryRecord → Text
memory_name r = text "memory " ++ r.title

abbrev pub is_passed_over : MemoryRecord → Bool
is_passed_over r = not (r.status == MemoryStatus.active) || r.kind == MemoryKind.negative_knowledge

unfoldable pub offer_memory : ℕ → List MemoryRecord → Selection → Selection
offer_memory budget [] sel = sel
offer_memory budget (r ∷ rs) sel =
    offer_memory budget rs
      (if is_passed_over r then sel else offer budget (memory_candidate r) (memory_name r) sel)

abbrev pub evaluation_of : ObligationStatus → Evaluation
evaluation_of ObligationStatus.done = Evaluation.met
evaluation_of ObligationStatus.cancelled = Evaluation.met
evaluation_of ObligationStatus.superseded = Evaluation.met
evaluation_of ObligationStatus.opened = Evaluation.unknown
evaluation_of ObligationStatus.deferred = Evaluation.unknown
evaluation_of ObligationStatus.blocked = Evaluation.unmet

abbrev pub evaluated : Obligation → ObligationEvaluation
evaluated o = record { id = o.id; evaluation = evaluation_of o.status }

-- A budget of zero is the default.
abbrev pub budget_of : Query → ℕ
budget_of query = if query.token_budget == 0 then 512 else query.token_budget

unfoldable pub selected : Snapshot → Query → Selection
selected snapshot query = offer_memory (budget_of query) snapshot.memory (
    offer_decisions (budget_of query) snapshot.decisions
      (record { used = 0; candidates = []; omissions = [] }))

abbrev pub assembled : Handle → Query → List Text → ContextBundle
assembled handle query boundary =
    let snapshot = handle.body.state in
    let sel = selected snapshot query in
    record {
      snapshot = handle.body.revision;
      mandatory_inputs = floors snapshot boundary;
      protected_constraints = constraints snapshot;
      candidates = sel.candidates;
      obligations = map evaluated snapshot.obligations;
      omissions = sel.omissions;
    }

abbrev pub bundle_over : Handle → Query → Option (List Text) → Option ContextBundle
bundle_over handle query none = none
bundle_over handle query (some boundary) = some (assembled handle query boundary)

unfoldable pub build_bundle : Handle → Query → Option ContextBundle
build_bundle handle query = bundle_over handle query (boundary_floor handle.body.state)
