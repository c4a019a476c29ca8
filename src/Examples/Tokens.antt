-- ===== src/Examples/Tokens.antt =====
-- Runs of enterprise/tokens: one token is recorded, listed and revoked.
use image_factory.Prelude.{String, ◌≡◌, refl, Bool, true, false, [], ◌∷◌, pos, All, ok}
use image_factory.Tokens.Storage.{
  insert_sorted, sort, is_hidden, read_record, push_record, bury, revoke, valid, read_tags, list,
  Faults, acknowledged,
}
use image_factory.Token.Scope.{scope_image_read}
use image_factory.Tokens.Registry.{Registry, is_at, get, put, tags, Record, StoredRecord}
use image_factory.Tokens.Storage.Revocation.{revoke-valid, here}
use image_factory.Tokens.Storage.Listing.{list-IsShown, IsShown}

abbrev pub no_faults : Faults
no_faults = record { lists = false; pushes = acknowledged; reads = λ _. false }

-- Every organization has the same repository here, the worst case of the hash.
abbrev pub one_path : String → String
one_path org = "tokens"

abbrev pub ci_record : Record
ci_record = record {
  created_at = pos 100;
  expires_at = pos 200;
  id = "id";
  name = "ci";
  scopes = scope_image_read ∷ [];
  issuable_scopes = [];
}

abbrev pub stored_ci : Bool → StoredRecord
stored_ci buried = record { org_id = "org"; record_of = ci_record; revoked = buried }

abbrev pub with_ci : Bool → Registry
with_ci buried = record { repository = "tokens"; tag = "id"; stored = stored_ci buried } ∷ []

revoke-valid_example : valid one_path no_faults (with_ci true) "org" "id" (pos 150) ≡ ok false
unfolding revoke read_record get is_at bury push_record put
revoke-valid_example =
    revoke-valid one_path no_faults no_faults (with_ci false) (with_ci true) (with_ci true) "org"
      "id" (pos 150) refl here

list-IsShown_example : All (IsShown one_path (with_ci false) "org" (pos 150)) (ci_record ∷ [])
unfolding list read_tags tags read_record get is_at sort is_hidden insert_sorted
list-IsShown_example =
    list-IsShown one_path no_faults (with_ci false) "org" (pos 150) (ci_record ∷ []) refl
