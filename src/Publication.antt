-- ===== src/Publication.antt =====
-- internal/registry/publication.go: how the index of an installer image is published.
pub mod Promotion
use image_factory.Prelude.{String, Bool, true, false, Option, none, some}

-- A reference to an image: by its digest, or by a tag.
pub data Reference : Type 0 where
  digest : String → Reference
  tag : String → Reference

-- An error of a call that the publication makes, with the wrapping that names the stage.
pub data PublishError (E : Type 0) : Type 0 where
  failed_stage : E → PublishError E
  failed_evidence : E → PublishError E
  failed_evidence_verification : E → PublishError E
  failed_signature : E → PublishError E
  failed_signature_verification : E → PublishError E
  failed_promotion : E → PublishError E

-- What the publication calls, over the states of the world: `Pusher.Push` of an index,
-- `EvidencePublisher` for one input, `ImageSigner`, the loop of `retry.Exponential`, and `ctx.Err()`.
-- `none` is a nil error.
pub record Calls (W E : Type 0) : Type 0 where
  pub push : Reference → W → W × Option E
  pub publish_evidence : W → W × Option E
  pub verify_evidence : W → W × Option E
  pub sign_image : Reference → W → W × Option E
  pub verify_image : Reference → W → W × Option E
  pub retry : (W → W × Option E) → W → W × Option E
  pub context_error : W → Option E

abbrev pub context_or : {E : Type 0} → Option E → Option E → Option E
context_or (some e) error = some e
context_or none error = error

module _ {W E : Type 0} where
  -- `if err := ...; err != nil { return fmt.Errorf(..., err) }`
  abbrev pub or_return :
      W × Option E
      → (E → PublishError E)
      → (W → W × Option (PublishError E))
      → W × Option (PublishError E)
  or_return (w, some e) wrap rest = (w, some (wrap e))
  or_return (w, none) wrap rest = rest w

module _ {W E : Type 0} (calls : Calls W E) where
  -- `verifyPublished`
  unfoldable pub verify_published : (W → W × Option E) → W → W × Option E
  verify_published verify w =
      let (w', error) = calls.retry verify w in (w', context_or (calls.context_error w') error)

  -- From the signature on.
  unfoldable pub sign_and_promote : String → String → W → W × Option (PublishError E)
  unfolding verify_published
  sign_and_promote index final w =
      or_return (calls.sign_image (digest index) w) failed_signature λ signed.
        or_return (verify_published (calls.verify_image (digest index)) signed)
          failed_signature_verification
          λ verified.
            or_return (calls.push (tag final) verified) failed_promotion
              λ promoted. (promoted, none)

  -- The evidence, where there is a publisher.
  unfoldable pub with_evidence :
      Bool → (W → W × Option (PublishError E)) → W → W × Option (PublishError E)
  unfolding verify_published
  with_evidence false rest w = rest w
  with_evidence true rest w = or_return (calls.publish_evidence w) failed_evidence λ published.
      or_return (verify_published calls.verify_evidence published) failed_evidence_verification rest

  -- `PublishInstallerIndex`, with an evidence publisher or without.
  unfoldable pub publish_installer_index : String → String → Bool → W → W × Option (PublishError E)
  unfolding with_evidence sign_and_promote
  publish_installer_index index final evidence w =
      or_return (calls.push (digest index) w) failed_stage
        (with_evidence evidence (sign_and_promote index final))
