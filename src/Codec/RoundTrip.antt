-- ===== src/Codec/RoundTrip.antt =====
-- `serializeImpl` and `deserializeImpl` of src/persistence.cpp together: what is written is read
-- back, and nothing shorter or longer is accepted.
use qiven_context_draft.Prelude.{
  ◌≡◌, sym, ap, ◌∙◌, [], ◌++◌, append-nil, text, is_empty, if◌then◌else◌,
}
use qiven_context_draft.Foundation.{Bytes, Foundation, FoundationLaws}
use qiven_context_draft.Cognition.Records.{Snapshot}
use qiven_context_draft.Codec.Encode.{put_body, serialize_snapshot}
use qiven_context_draft.Codec.Decode.{get_body, get_snapshot, deserialize, unsupported}
use qiven_context_draft.Codec.Reader.{ok, err, error, DeserializeErrorKind}
use qiven_context_draft.Codec.Fits.{
  Fits, DecisionFits, MemoryFits, ObligationFits, EvidenceFits, ConflictFits, ProfileFits, ViewFits,
  RoleFits, restored_memory, restored_obligation, restored,
}
use qiven_context_draft.Codec.Rules.{Reads, Reads-bind, Reads-last}
use qiven_context_draft.Codec.Fields.{
  Reads-u8, Reads-str, Reads-many, Reads-many-map, Reads-string_vector,
}
use qiven_context_draft.Codec.RecordRoundTrip.{
  Reads-policy, Reads-state, Reads-decision, Reads-memory, Reads-obligation, Reads-evidence,
  Reads-conflict, Reads-profile, Reads-view, Reads-invocation, Reads-role,
}

module _ ⦃F : Foundation⦄ ⦃L : FoundationLaws F⦄ where
  Reads-body : (s : Snapshot) → Fits s → Reads (get_body 8) (put_body s) (restored s)
  unfolding get_body put_body restored
  Reads-body s h = Reads-bind _ (Reads-str _ s.governance.root_principal h.root_principal) (
      Reads-bind _ (Reads-string_vector _ s.constitution.articles h.articles) (
        Reads-bind _ (Reads-policy s.policy h.handoff h.recovery) (
          Reads-bind _ (Reads-state s.state h.state) (
            Reads-bind _
              (Reads-many DecisionFits _ _ Reads-decision _ s.decisions h.decisions.0 h.decisions.1)
              (Reads-bind _
                (Reads-many-map MemoryFits _ _ restored_memory Reads-memory _ s.memory h.memory.0
                  h.memory.1)
                (Reads-bind _
                  (Reads-many-map ObligationFits _ _ restored_obligation Reads-obligation _
                    s.obligations h.obligations.0 h.obligations.1)
                  (Reads-bind _
                    (Reads-many EvidenceFits _ _ Reads-evidence _ s.evidence h.evidence.0
                      h.evidence.1)
                    (Reads-bind _
                      (Reads-many ConflictFits _ _ Reads-conflict _ s.conflicts h.conflicts.0
                        h.conflicts.1)
                      (Reads-bind _
                        (Reads-many ProfileFits _ _ Reads-profile _ s.profiles h.profiles.0
                          h.profiles.1)
                        (Reads-bind _
                          (Reads-many ViewFits _ _ Reads-view _ s.views h.views.0 h.views.1)
                          (Reads-bind _ (Reads-invocation s.invocation h.rules) (
                            Reads-last _ (
                              Reads-many RoleFits _ _ Reads-role _ s.roles h.roles.0
                                h.roles.1)))))))))))))

  pub Reads-snapshot :
      (s : Snapshot) → Fits s → Reads get_snapshot (serialize_snapshot s) (restored s)
  unfolding get_snapshot serialize_snapshot unsupported
  Reads-snapshot s h = Reads-bind _ (Reads-u8 _ 8) (Reads-body s h)

  finished-read :
      (s : Snapshot) (bytes rest : Bytes)
      → Reads get_snapshot bytes s
      → deserialize (bytes ++ rest) ≡ (
          if is_empty rest
          then ok s
          else err (error DeserializeErrorKind.truncated (text "trailing bytes after snapshot")))
  unfolding deserialize
  finished-read s bytes rest h =
      let (c, e, u) = h.at (F.cursor (bytes ++ rest)) rest (L.unread-cursor _) in
      rw (e, L.empty_lem c, u)

  -- A snapshot that fits the format is read back from its bytes, except that each memory record's
  -- epistemic type is reset to observation and each obligation's trigger value is emptied.
  pub deserialize-serialize_snapshot :
      (s : Snapshot) → Fits s → deserialize (serialize_snapshot s) ≡ ok (restored s)
  deserialize-serialize_snapshot s h =
      ap deserialize (sym (append-nil _)) ∙ finished-read (restored s) _ [] (Reads-snapshot s h)
