-- ===== src/Token/Errors.antt =====
-- The errors of internal/apitoken, one constructor for each message.
use image_factory.Prelude.{String, List}

pub data TokenError : Type 0 where
  ttl_out_of_range no_administrative_ttl : TokenError
  empty_subject no_scopes delegation_without_issue signing_failed : TokenError
  unknown_scope : String → TokenError
  unstorable_scope : List String → TokenError
  missing_scope : TokenError
  not_a_token ambiguous_key unverified not_current : TokenError
  unknown_key : String → TokenError
  missing_subject missing_id missing_stored : TokenError
  signing_key_not_p256 verification_key_not_p256 no_thumbprint no_signer no_jwks : TokenError
  duplicate_key : String → TokenError
