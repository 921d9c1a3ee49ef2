-- ===== src/Codec/Fits.antt =====
-- What the format can hold: texts that a 32-bit size counts, vectors within the reader's cap, and
-- 64-bit ids. `restored` is what a snapshot is after it was written and read.
use qiven_context_draft.Prelude.{[], List, All, IsI64, map}
use qiven_context_draft.Cognition.Lifecycles.{EpistemicType}
use qiven_context_draft.Cognition.Records.{
  SourceType, Conflict, InvocationRule, RoleSpec, Decision, MemoryRecord, Obligation,
  EvidenceRecord, StateView, ProfileRecord, ViewSpec, Snapshot,
}
use qiven_context_draft.Codec.Fields.{IsShort, IsCapped, AreShort}

abbrev pub Fit : {A : Type 0} → (A → Type 0) → List A → Type 0
Fit P xs = IsCapped xs × All P xs

pub record SourceFits (s : SourceType) : Type 0 where
  pub reference : IsShort s.reference
  pub note : IsShort s.note

pub record StateFits (s : StateView) : Type 0 where
  pub objective : IsShort s.objective
  pub current : IsShort s.current
  pub checkpoint_ref : IsShort s.checkpoint_ref
  pub candidate_ref : IsShort s.candidate_ref
  pub next_boundary_ref : IsShort s.next_boundary_ref
  pub repositories : IsShort s.repositories
  pub roadmap : IsShort s.roadmap

pub record DecisionFits (d : Decision) : Type 0 where
  pub id : IsI64 d.id
  pub title : IsShort d.title
  pub content : IsShort d.content
  pub supersedes : Fit IsI64 d.supersedes
  pub superseded_by : Fit IsI64 d.superseded_by
  pub sources : Fit SourceFits d.provenance.sources

pub record MemoryFits (m : MemoryRecord) : Type 0 where
  pub title : IsShort m.title
  pub statement : IsShort m.statement
  pub sources : Fit SourceFits m.provenance.sources

pub record ObligationFits (o : Obligation) : Type 0 where
  pub id : IsI64 o.id
  pub statement : IsShort o.statement
  pub completion_criteria : IsShort o.completion_criteria

pub record EvidenceFits (e : EvidenceRecord) : Type 0 where
  pub bound_to : IsShort e.bound_to
  pub content : IsShort e.content

pub record ConflictFits (c : Conflict) : Type 0 where
  pub id : IsShort c.id
  pub scope : IsShort c.scope
  pub description : IsShort c.description
  pub resolution : IsShort c.resolution

pub record ProfileFits (p : ProfileRecord) : Type 0 where
  pub id : IsShort p.id
  pub kind : IsShort p.kind
  pub summary : IsShort p.summary

pub record ViewFits (v : ViewSpec) : Type 0 where
  pub id : IsShort v.id
  pub agent : IsShort v.agent
  pub human : IsShort v.human
  pub summary : IsShort v.summary
  pub profile_refs : AreShort v.profile_refs

abbrev pub RuleFits : InvocationRule → Type 0
RuleFits rule = IsShort rule.subject

pub record RoleFits (r : RoleSpec) : Type 0 where
  pub authorities : IsCapped r.authorities
  pub duties : AreShort r.duties
  pub sources : Fit SourceFits r.provenance.sources

pub record Fits (s : Snapshot) : Type 0 where
  pub root_principal : IsShort s.governance.root_principal
  pub articles : AreShort s.constitution.articles
  pub handoff : IsCapped s.policy.handoff
  pub recovery : IsCapped s.policy.recovery
  pub rules : Fit RuleFits s.invocation.rules
  pub state : StateFits s.state
  pub decisions : Fit DecisionFits s.decisions
  pub memory : Fit MemoryFits s.memory
  pub obligations : Fit ObligationFits s.obligations
  pub evidence : Fit EvidenceFits s.evidence
  pub conflicts : Fit ConflictFits s.conflicts
  pub profiles : Fit ProfileFits s.profiles
  pub views : Fit ViewFits s.views
  pub roles : Fit RoleFits s.roles

-- The members that the format drops come back as their defaults.
unfoldable pub restored_memory : MemoryRecord → MemoryRecord
restored_memory m = record m { epistemic = EpistemicType.observation }

unfoldable pub restored_obligation : Obligation → Obligation
restored_obligation o = record o { trigger_value = [] }

unfoldable pub restored : Snapshot → Snapshot
restored s = record s {
  memory = map restored_memory s.memory;
  obligations = map restored_obligation s.obligations;
}
