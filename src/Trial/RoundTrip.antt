-- ===== src/Trial/RoundTrip.antt =====
-- What `verify` of apps/artifact_trial.cpp makes of the file that `produce` wrote.
use qiven_context_draft.Prelude.{
  ℕ, ◌+◌, ◌^◌, ◌<◌, ◌≡◌, refl, ap, subst, ◌∙◌, ◌⊎◌, inl, inr, true, false, List, [], ◌∷◌, ◌++◌,
  some, Text, text, ◌==◌, nat_eq, length, All, arith,
}
use qiven_context_draft.Foundation.{Bytes, Foundation, FoundationLaws}
use qiven_context_draft.Cognition.Records.{Snapshot}
use qiven_context_draft.Codec.Encode.{serialize_snapshot}
use qiven_context_draft.Transaction.Digest.{draft_content_id, draft_snapshot_digest}
use qiven_context_draft.Service.State.{Handle}
use qiven_context_draft.Trial.Strings.{take_text, drop_text, substr, minus, between, scan}
use qiven_context_draft.Trial.Artifact.{
  Field, Manifest, count_fields, then_fields, byte_text, byte_section, trial_marker, artifact_of,
  read_manifest,
}
use qiven_context_draft.Trial.Find.{
  Skips, first_avoided, second_avoided, second_missing, is_clear, is_clear-Skips, Reaches,
  Reaches-here, Reaches-skip, take_text-append, drop_text-drop_text, drop_text-append,
}
use qiven_context_draft.Trial.Numbers.{IsByte, scan-byte_text, byte_text-All}
use qiven_context_draft.Trial.Lines.{
  IsIdentity, Reaches-fields, count_values, value_at, digit_differs, fields_length, lacks,
  lacks-Avoids, digest-IsIdentity, content_id-IsIdentity,
}

abbrev digest_key : Text
digest_key = text "snapshot-digest: "

abbrev id_key : Text
id_key = text "content-id: "

abbrev data_key : Text
data_key = text "bytes-begin\n"

abbrev end_key : Text
end_key = text "\nbytes-end\n"

manifest_same :
    {d d' i i' : Text} {b b' : Bytes}
    → d ≡ d'
    → i ≡ i'
    → b ≡ b'
    → ◌≡◌ {A = Manifest}
        (record { digest = d; content_id = i; bytes = b })
        (record { digest = d'; content_id = i'; bytes = b' })
manifest_same e f g = cc

-- A file with these identities, counts and bytes.
abbrev file : Text → Text → List Field → Bytes → Text
file digest id counts bytes =
    text "qiven-artifact v1"
    ++ then_fields ((text "\nsnapshot-digest: ", digest) ∷ (text "\ncontent-id: ", id) ∷ counts)
        (byte_section bytes)

module _ (digest id : Text) (state : Snapshot) (bytes : Bytes) (d : IsIdentity digest)
    (i : IsIdentity id) where
  abbrev whole : Text
  whole = file digest id (count_fields state) bytes

  abbrev behind_id : Text
  behind_id = then_fields (count_fields state) (byte_section bytes)

  abbrev behind_digest : Text
  behind_digest = text "\ncontent-id: " ++ (id ++ behind_id)

  digest_reached : Reaches digest_key whole 18 (digest ++ behind_digest)
  unfolding text then_fields is_clear
  digest_reached =
      Reaches-skip digest_key (text "qiven-artifact v1\n") _ 0 (digest ++ behind_digest)
        (is_clear-Skips digest_key (text "qiven-artifact v1\n") _ refl)
        (Reaches-here _ _ (digest ++ behind_digest))

  id_reached : Reaches id_key whole (35 + (length digest + 1)) (id ++ behind_id)
  unfolding text then_fields is_clear
  id_reached =
      Reaches-skip id_key (text "qiven-artifact v1\nsnapshot-digest: ") _ _ (id ++ behind_id)
        (is_clear-Skips id_key (text "qiven-artifact v1\nsnapshot-digest: ") _ refl)
        (Reaches-skip id_key digest _ 1 (id ++ behind_id) (second_missing _ _ _ digest _ refl d.1) (
          Reaches-skip id_key (text "\n") _ 0 (id ++ behind_id)
            (is_clear-Skips id_key (text "\n") _ refl) (Reaches-here _ _ (id ++ behind_id))))

  abbrev before_section : ℕ
  before_section = 35 + (length digest + (13 + (length id + fields_length (count_fields state))))

  section_reached :
      (k : ℕ) (ks : Text) (pos : ℕ) (after : Text)
      → is_clear (k ∷ ks) (text "qiven-artifact v1\nsnapshot-digest: ") ≡ true
      → is_clear (k ∷ ks) (text "\ncontent-id: ") ≡ true
      → All (λ (f : Field). is_clear (k ∷ ks) f.0 ≡ true) (count_fields state)
      → (k < 48) ⊎ (57 < k)
      → Skips (k ∷ ks) digest behind_digest
      → Skips (k ∷ ks) id behind_id
      → Reaches (k ∷ ks) (byte_section bytes) pos after
      → Reaches (k ∷ ks) whole (before_section + pos) after
  unfolding text then_fields
  section_reached k ks pos after first second labels other skips_digest skips_id r =
      let key = k ∷ ks in
      subst (λ p. Reaches key whole p after) (omega arith)
        (Reaches-skip key (text "qiven-artifact v1\nsnapshot-digest: ") (digest ++ behind_digest) _
          after (is_clear-Skips key _ _ first)
          (Reaches-skip key digest behind_digest _ after skips_digest (
            Reaches-skip key (text "\ncontent-id: ") (id ++ behind_id) _ after
              (is_clear-Skips key _ _ second)
              (Reaches-skip key id behind_id _ after skips_id (
                Reaches-fields k ks (count_fields state) (byte_section bytes) pos after labels
                  (count_values k state other) r)))))

  data_reached :
      Reaches data_key whole (before_section + 85) (byte_text bytes ++ text "\nbytes-end\n")
  unfolding text then_fields is_clear
  data_reached =
      section_reached _ _ 85 _ refl refl
        (refl, (refl, (refl, (refl, (refl, (refl, (refl, (refl, tt)))))))) (inr (omega arith))
        (second_missing _ _ _ digest _ refl d.2) (second_missing _ _ _ id _ refl i.2)
        (Reaches-skip data_key (text "\nmarker: " ++ (trial_marker ++ text "\n")) _ 0 _
          (is_clear-Skips data_key (text "\nmarker: " ++ (trial_marker ++ text "\n")) _ refl)
          (Reaches-here _ _ _))

  end_reached : Reaches end_key whole (before_section + (96 + (1 + length (byte_text bytes)))) []
  unfolding text then_fields is_clear
  end_reached =
      let head = text "\nmarker: " ++ (trial_marker ++ text "\nbytes-begin") in
      section_reached _ _ (96 + (1 + length (byte_text bytes))) [] refl refl
        (refl, (refl, (refl, (refl, (refl, (refl, (refl, (refl, tt)))))))) (inl (omega arith))
        (first_avoided _ _ digest _ d.0) (first_avoided _ _ id _ i.0)
        (subst (λ p. Reaches end_key (byte_section bytes) p []) (omega arith)
          (Reaches-skip end_key head (10 ∷ (byte_text bytes ++ end_key)) _ []
            (is_clear-Skips end_key head _ refl)
            (Reaches-skip end_key (10 ∷ byte_text bytes) end_key 0 []
              (second_avoided _ _ _ 10 (byte_text bytes) _ refl (
                byte_text-All (λ c. (b'b' == c) ≡ false)
                  (λ c h. digit_differs b'b' c (inr (omega arith)) h) refl bytes))
              (Reaches-here _ _ []))))

  -- The bytes between the two keys.
  section_at :
      length whole < 2 ^ 64
      → substr
          (before_section + 85 + 12)
          (minus
            (before_section + (96 + (1 + length (byte_text bytes))))
            (before_section + 85 + 12))
          whole
        ≡ byte_text bytes
  unfolding text
  section_at small =
      let p = before_section + 85 in
      let behind : drop_text (p + 12) whole ≡ byte_text bytes ++ end_key =
        drop_text-drop_text p 12 whole
        ∙ ap (drop_text 12) data_reached.there
        ∙ drop_text-append data_key (byte_text bytes ++ end_key) in
      let within : before_section + (96 + (1 + length (byte_text bytes))) < 2 ^ 64 =
        omega (arith, end_reached.size, small) in
      let span : minus (before_section + (96 + (1 + length (byte_text bytes)))) (p + 12)
          ≡ length (byte_text bytes) =
        omega (arith, within) in
      ap (λ n. substr (p + 12) n whole) span
      ∙ ap (λ t. take_text (length (byte_text bytes)) t) behind
      ∙ take_text-append (byte_text bytes) end_key

  -- A file is read back as the identities and the bytes that it was written with.
  pub read_manifest-file :
      length whole < 2 ^ 64
      → All IsByte bytes
      → read_manifest whole ≡ some (record { digest = digest; content_id = id; bytes = bytes })
  unfolding read_manifest text then_fields lacks
  read_manifest-file small h =
      rw (digest_reached.found, id_reached.found, data_reached.found, end_reached.found)
        (ap (λ m. some m)
          (manifest_same
            (value_at digest_key whole 18 digest _ digest_reached (lacks-Avoids 10 digest_key refl)
              d.0 small)
            (value_at id_key whole _ id _ id_reached (lacks-Avoids 10 id_key refl) i.0 small)
            (ap (scan between) (section_at small) ∙ scan-byte_text bytes h)))

-- What `produce` writes for a head with the digest of its own bytes is read back: both identities,
-- and every byte of the snapshot.
pub read_manifest-artifact_of :
    ⦃F : Foundation⦄ ⦃L : FoundationLaws F⦄ (head : Handle)
    → let bytes = serialize_snapshot head.body.state in
      head.body.digest ≡ draft_snapshot_digest bytes
      → All IsByte bytes
      → length (artifact_of head) < 2 ^ 64
      → read_manifest (artifact_of head)
        ≡ some (record {
          digest = (draft_snapshot_digest bytes).value;
          content_id = draft_content_id bytes;
          bytes = bytes;
        })
unfolding artifact_of
read_manifest-artifact_of head same h small =
    let bytes = serialize_snapshot head.body.state in
    ap
      (λ x.
        read_manifest (file x.value (draft_content_id bytes) (count_fields head.body.state) bytes))
      same
    ∙ read_manifest-file (draft_snapshot_digest bytes).value (draft_content_id bytes)
        head.body.state bytes (digest-IsIdentity bytes) (content_id-IsIdentity bytes)
        (subst
          (λ x.
            length (file x.value (draft_content_id bytes) (count_fields head.body.state) bytes)
            < 2 ^ 64)
          same small)
        h
