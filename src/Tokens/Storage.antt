-- ===== src/Tokens/Storage.antt =====
-- enterprise/tokens/storage.go. The directory that an organization's name is hashed to is a
-- parameter, `org_path_component`; what fails on the way to the registry and back is the choice of
-- the environment, one value for each call. The clock is an argument.
pub mod Revocation
pub mod Listing
use Prim.Native.Nat.{Ordering}
use Prim.Native.String.{compare}
use image_factory.Prelude.{
  String, Bool, true, false, not, ◌&&◌, ◌||◌, Option, none, some, List, [], ◌∷◌, ltb_ℤ, ℤ, ◌==◌,
  if◌then◌else◌, ◌>>=◌, Result, ok, err,
}
use image_factory.Tokens.Registry.{Registry, get, put, tags, Record, StoredRecord}

pub data StorageError : Type 0 where
  not_found : StorageError
  read_failed push_failed list_failed : StorageError

-- How a push ends: with success, or with an error, before or after the registry has moved the tag.
pub data PushEnd : Type 0 where
  acknowledged lost unacknowledged : PushEnd

-- Which calls of the registry fail: the listing, the push, and the read of a tag.
pub record Faults : Type 0 where
  pub lists : Bool
  pub pushes : PushEnd
  pub reads : String → Bool

-- Go's `slices.SortFunc` by creation time, then by ID.
unfoldable pub comes_first : Record → Record → Bool
comes_first a b =
    if ltb_ℤ a.created_at b.created_at
    then true
    else if ltb_ℤ b.created_at a.created_at
    then false
    else elim (compare a.id b.id) [ Ordering.gt ↦ false | _ ↦ true ]

unfoldable pub insert_sorted : Record → List Record → List Record
insert_sorted a [] = a ∷ []
insert_sorted a (b ∷ bs) =
    let rest = insert_sorted a bs in if comes_first a b then a ∷ b ∷ bs else b ∷ rest

unfoldable pub sort : List Record → List Record
sort [] = []
sort (a ∷ rest) = insert_sorted a (sort rest)

-- `stored.OrgID != orgID || stored.Revoked || !stored.Record.ExpiresAt.After(time.Now())`
unfoldable pub is_hidden : String → ℤ → StoredRecord → Bool
is_hidden org now s = not (s.org_id == org) || s.revoked || not (ltb_ℤ now s.record_of.expires_at)

module _ (org_path_component : String → String) where
  -- `readRecord`; a tag that is not there is the registry's 404.
  unfoldable pub read_record :
      Faults → Registry → String → String → Result StorageError StoredRecord
  read_record f reg repository tag =
      if f.reads tag
      then err read_failed
      else elim (get repository tag reg) [ none ↦ err not_found | some s ↦ ok s ]

  -- The registry behind a push, and its error.
  abbrev pub pushed : PushEnd → Registry → Registry → Registry × Option StorageError
  pushed acknowledged reg reg' = (reg', none)
  pushed lost reg reg' = (reg, some push_failed)
  pushed unacknowledged reg reg' = (reg', some push_failed)

  unfoldable pub push_record :
      Faults → Registry → String → Record → Bool → Registry × Option StorageError
  push_record f reg org r revoked = pushed f.pushes reg (
      put (org_path_component org) r.id (record { org_id = org; record_of = r; revoked = revoked })
        reg)

  unfoldable pub create : Faults → Registry → String → Record → Registry × Option StorageError
  create f reg org r = push_record f reg org r false

  -- The test of `Revoke` on the record that it read, and the tombstone.
  unfoldable pub bury :
      Faults → Registry → String → String → StoredRecord → Registry × Option StorageError
  bury f reg org id s =
      if not (s.org_id == org) || not (s.record_of.id == id) || s.revoked
      then (reg, some not_found)
      else push_record f reg org s.record_of true

  abbrev pub revoke_read :
      Faults
      → Registry
      → String
      → String
      → Result StorageError StoredRecord
      → Registry × Option StorageError
  revoke_read f reg org id (err e) = (reg, some e)
  revoke_read f reg org id (ok s) = bury f reg org id s

  unfoldable pub revoke : Faults → Registry → String → String → Registry × Option StorageError
  revoke f reg org id = revoke_read f reg org id (read_record f reg (org_path_component org) id)

  -- `Valid`: a missing tag is `false`, another failure is an error.
  unfoldable pub valid : Faults → Registry → String → String → ℤ → Result StorageError Bool
  valid f reg org jti now = elim (read_record f reg (org_path_component org) jti) [
    | err e ↦ elim e [ not_found ↦ ok false | _ ↦ err read_failed ]
    | ok s ↦ ok (
        s.org_id == org
        && s.record_of.id == jti
        && not s.revoked
        && ltb_ℤ now s.record_of.expires_at)
  ]

  -- The loop of `readRecords` over the tags of the repository.
  unfoldable pub read_tags :
      Faults → Registry → String → ℤ → List String → Result StorageError (List Record)
  read_tags f reg org now [] = ok []
  read_tags f reg org now (tag ∷ rest) = do
    s ← read_record f reg (org_path_component org) tag
    more ← read_tags f reg org now rest
    ok (if is_hidden org now s then more else s.record_of ∷ more)

  -- `List`, with `readRecords`
  unfoldable pub list : Faults → Registry → String → ℤ → Result StorageError (List Record)
  list f reg org now =
      if f.lists
      then err list_failed
      else (do found ← read_tags f reg org now (tags (org_path_component org) reg); ok (sort found))
