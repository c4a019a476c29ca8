-- ===== src/Publication/Promotion.antt =====
-- internal/registry/publication.go: when a tag is promoted.
use image_factory.Prelude.{
  String, ◌≡◌, refl, ◌∙◌, ◌⊎◌, inl, inr, Bool, true, false, Option, none, some,
}
use image_factory.Publication.{
  context_or, or_return, verify_published, sign_and_promote, with_evidence, publish_installer_index,
  Calls, digest, tag, PublishError, failed_stage, failed_evidence, failed_evidence_verification,
  failed_signature, failed_signature_verification, failed_promotion,
}

-- What the loop of retries promises: when it returns no error, a call of its function did.
abbrev pub RetriesUntil : {W E : Type 0} → Calls W E → Type 0
RetriesUntil {W} {E} calls =
    (verify : W → W × Option E) (w : W)
    → (calls.retry verify w).1 ≡ none
    → (before : W) × ((verify before).1 ≡ none)

-- The calls other than the promotion leave the tag of the installer alone.
pub record LeaveTag {W E : Type 0} (calls : Calls W E) (tagged : W → String → Option String)
    (final : String) : Type 0 where
  pub push_digest :
      (index : String) (w : W) → tagged (calls.push (digest index) w).0 final ≡ tagged w final
  pub publish_evidence : (w : W) → tagged (calls.publish_evidence w).0 final ≡ tagged w final
  pub verify_evidence : (w : W) → tagged (calls.verify_evidence w).0 final ≡ tagged w final
  pub sign_image :
      (index : String) (w : W) → tagged (calls.sign_image (digest index) w).0 final ≡ tagged w final
  pub verify_image :
      (index : String) (w : W)
      → tagged (calls.verify_image (digest index) w).0 final ≡ tagged w final
  pub retry :
      (verify : W → W × Option E) (w : W)
      → ((v : W) → tagged (verify v).0 final ≡ tagged v final)
      → tagged (calls.retry verify w).0 final ≡ tagged w final

-- What has verified when the promotion is tried: with an evidence publisher its evidence, and the
-- signature of the staged index.
abbrev pub HasVerified : {W E : Type 0} → Calls W E → String → Bool → Type 0
HasVerified {W} calls index evidence =
    (evidence ≡ true → (before : W) × ((calls.verify_evidence before).1 ≡ none))
    × ((before : W) × ((calls.verify_image (digest index) before).1 ≡ none))

module _ {W E : Type 0} (calls : Calls W E) (retries : RetriesUntil calls)
    (tagged : W → String → Option String) (index final : String)
    (leave : LeaveTag calls tagged final) where
  verify_published-eq-none :
      (verify : W → W × Option E) (w : W)
      → (verify_published calls verify w).1 ≡ none
      → (before : W) × ((verify before).1 ≡ none)
  unfolding verify_published
  verify_published-eq-none verify w h = by_context (calls.context_error (calls.retry verify w).0) h
    where
      by_context :
          (ended : Option E)
          → context_or ended (calls.retry verify w).1 ≡ none
          → (before : W) × ((verify before).1 ≡ none)
      by_context (some e) k = cc
      by_context none k = retries verify w k

  verify_published-tagged :
      (verify : W → W × Option E) (w : W)
      → ((v : W) → tagged (verify v).0 final ≡ tagged v final)
      → tagged (verify_published calls verify w).0 final ≡ tagged w final
  unfolding verify_published
  verify_published-tagged verify w h = leave.retry verify w h

  -- The outcome of a part of the publication: the tag stands as it did, or the promotion was tried
  -- after everything had verified; and success is a promotion.
  pub record IsCareful (Verified : Type 0) (w : W) (out : W × Option (PublishError E))
      : Type 0 where
    pub tag_kept : (tagged out.0 final ≡ tagged w final) ⊎ Verified
    pub success : out.1 ≡ none → Verified

  or_return-IsCareful :
      {V : Type 0} (w : W) (step : W × Option E) (wrap : E → PublishError E)
      (rest : W → W × Option (PublishError E))
      → tagged step.0 final ≡ tagged w final
      → ((v : W) → tagged v final ≡ tagged w final → step ≡ (v, none) → IsCareful V w (rest v))
      → IsCareful V w (or_return step wrap rest)
  or_return-IsCareful w (v, some e) wrap rest kept next = record {
    tag_kept = inl kept;
    success = λ h. cc;
  }
  or_return-IsCareful w (v, none) wrap rest kept next = next v kept refl

  promote-IsCareful :
      {V : Type 0} (w v : W)
      → V
      → IsCareful V w
          (or_return (calls.push (tag final) v) failed_promotion λ promoted. (promoted, none))
  promote-IsCareful w v verified = record { tag_kept = inr verified; success = λ h. verified }

  sign_and_promote-IsCareful :
      (evidence : Bool) (w v : W)
      → tagged v final ≡ tagged w final
      → (evidence ≡ true → (before : W) × ((calls.verify_evidence before).1 ≡ none))
      → IsCareful (HasVerified calls index evidence) w (sign_and_promote calls index final v)
  unfolding sign_and_promote
  sign_and_promote-IsCareful evidence w v kept proven =
      or_return-IsCareful w (calls.sign_image (digest index) v) failed_signature _
        (leave.sign_image index v ∙ kept)
        λ s s_kept signed.
          or_return-IsCareful w (verify_published calls (calls.verify_image (digest index)) s)
            failed_signature_verification _
            (verify_published-tagged (calls.verify_image (digest index)) s
                (leave.verify_image index)
              ∙ s_kept)
            λ t t_kept verified. promote-IsCareful w t (
              proven,
              verify_published-eq-none (calls.verify_image (digest index)) s λ i. (verified i).1,
            )

  with_evidence-IsCareful :
      (evidence : Bool) (w v : W)
      → tagged v final ≡ tagged w final
      → IsCareful
          (HasVerified calls index evidence)
          w
          (with_evidence calls evidence (sign_and_promote calls index final) v)
  unfolding with_evidence
  with_evidence-IsCareful false w v kept = sign_and_promote-IsCareful false w v kept (λ h. cc)
  with_evidence-IsCareful true w v kept =
      or_return-IsCareful w (calls.publish_evidence v) failed_evidence _
        (leave.publish_evidence v ∙ kept)
        λ s s_kept published.
          or_return-IsCareful w (verify_published calls calls.verify_evidence s)
            failed_evidence_verification _
            (verify_published-tagged calls.verify_evidence s leave.verify_evidence ∙ s_kept)
            λ t t_kept verified.
              sign_and_promote-IsCareful true w t t_kept
                (λ h. verify_published-eq-none calls.verify_evidence s λ i. (verified i).1)

  -- The publication leaves the tag of the installer as it stood unless its signature and, with an
  -- evidence publisher, its evidence have verified; and it succeeds only then.
  pub publish_installer_index-IsCareful :
      (evidence : Bool) (w : W)
      → IsCareful
          (HasVerified calls index evidence)
          w
          (publish_installer_index calls index final evidence w)
  unfolding publish_installer_index
  publish_installer_index-IsCareful evidence w =
      or_return-IsCareful w (calls.push (digest index) w) failed_stage _ (leave.push_digest index w)
        λ v kept staged. with_evidence-IsCareful evidence w v kept
