-- ===== src/Tokens/Storage/Revocation.antt =====
-- Revocation: what a tombstone does, and what becomes of it.
use image_factory.Prelude.{
  String, ◌≡◌, refl, sym, ap, ◌∙◌, subst, ◌≢◌, ◌⊎◌, inl, inr, Bool, true, false, not, ◌||◌,
  false≢true, Option, none, some, some-injective, arith, eq_iff, eq_refl, ltb_ℤ, ℤ, ◌==◌,
  if◌then◌else◌, Bool-cases, Result, ok, err,
}
use image_factory.Tokens.Registry.{
  Registry, get, put, same_key, get-put_self, get-put_ne, same_key-eq, Record, StoredRecord,
}
use image_factory.Tokens.Storage.{
  read_record, pushed, push_record, create, bury, revoke_read, revoke, valid, Faults, StorageError,
  read_failed, push_failed, PushEnd, acknowledged, lost, unacknowledged,
}

module _ (org_path_component : String → String) where
  -- The tag of a token holds a tombstone.
  pub record IsBuried (reg : Registry) (org jti : String) : Type 0 where
    pub stored : StoredRecord
    pub at_tag : get (org_path_component org) jti reg ≡ some stored
    pub buried : stored.revoked ≡ true

  -- A change that some organization makes to the registry, whether it is
  -- told of its success or not. The `jti` is a token's
  -- ID that is never minted again: IDs are fresh UUIDs.
  pub data Step (jti : String) (reg : Registry) : Registry → Type 0 where
    created :
        (f : Faults) (org : String) (r : Record) {reg' : Registry}
        → r.id ≢ jti
        → (create org_path_component f reg org r).0 ≡ reg'
        → Step jti reg reg'
    revoked :
        (f : Faults) (org id : String) {reg' : Registry}
        → (revoke org_path_component f reg org id).0 ≡ reg'
        → Step jti reg reg'

  pub data Steps (jti : String) (reg : Registry) : Registry → Type 0 where
    here : Steps jti reg reg
    next : {mid reg' : Registry} → Steps jti reg mid → Step jti mid reg' → Steps jti reg reg'

  -- A push has moved its tag, or fails and has not.
  pub push_record-cases :
      (f : Faults) (reg : Registry) (org : String) (r : Record) (b : Bool)
      → ((push_record org_path_component f reg org r b).0
          ≡ put
              (org_path_component org)
              r.id
              (record { org_id = org; record_of = r; revoked = b })
              reg)
        ⊎ (((push_record org_path_component f reg org r b).0 ≡ reg)
            × ((push_record org_path_component f reg org r b).1 ≡ some push_failed))
  unfolding push_record
  push_record-cases f reg org r b = by_end f.pushes
    where
      by_end :
          (end : PushEnd) {reg' : Registry}
          → ((pushed org_path_component end reg reg').0 ≡ reg')
            ⊎ (((pushed org_path_component end reg reg').0 ≡ reg)
                × ((pushed org_path_component end reg reg').1 ≡ some push_failed))
      by_end acknowledged = inl refl
      by_end lost = inr (refl, refl)
      by_end unacknowledged = inl refl

  pub push_record-eq-none :
      (f : Faults) (reg : Registry) (org : String) (r : Record) (b : Bool) {reg' : Registry}
      → push_record org_path_component f reg org r b ≡ (reg', none)
      → reg'
        ≡ put
            (org_path_component org)
            r.id
            (record { org_id = org; record_of = r; revoked = b })
            reg
  push_record-eq-none f reg org r b h = elim (push_record-cases f reg org r b) [
    | inl moved ↦ ap (λ (x : Registry × Option StorageError). x.0) (sym h) ∙ moved
    | inr (kept, failed) ↦
        let gone = sym (ap (λ (x : Registry × Option StorageError). x.1) h) ∙ failed in cc
  ]

  pub push_record-fails :
      (f : Faults) (reg : Registry) (org : String) (r : Record) (b : Bool) {e : StorageError}
      → (push_record org_path_component f reg org r b).1 ≡ some e
      → e ≡ push_failed
  unfolding push_record
  push_record-fails f reg org r b h = by_end f.pushes _ h
    where
      by_end :
          (end : PushEnd) (reg' : Registry) {e : StorageError}
          → (pushed org_path_component end reg reg').1 ≡ some e
          → e ≡ push_failed
      by_end acknowledged reg' k = cc
      by_end lost reg' k = sym (some-injective _ _ k)
      by_end unacknowledged reg' k = sym (some-injective _ _ k)

  -- A revocation that took effect: it has found a live record of the organization under the ID.
  pub record Revoked (reg : Registry) (org id : String) (reg' : Registry) : Type 0 where
    pub stored : StoredRecord
    pub at_tag : get (org_path_component org) id reg ≡ some stored
    pub owned : stored.org_id ≡ org
    pub same_id : stored.record_of.id ≡ id
    pub live : stored.revoked ≡ false
    pub after :
        reg'
        ≡ put
            (org_path_component org)
            id
            (record { org_id = org; record_of = stored.record_of; revoked = true })
            reg

  pub read_record-eq-ok :
      (f : Faults) (reg : Registry) (repository tag : String) {s : StoredRecord}
      → read_record org_path_component f reg repository tag ≡ ok s
      → get repository tag reg ≡ some s
  unfolding read_record
  read_record-eq-ok f reg repository tag h = ground arith

  bury-cases :
      (f : Faults) (reg : Registry) (org id : String) (s : StoredRecord)
      → (((bury org_path_component f reg org id s).0 ≡ reg)
          × ((bury org_path_component f reg org id s).1 ≢ none))
        ⊎ ((s.org_id ≡ org)
            × (s.record_of.id ≡ id)
            × (s.revoked ≡ false)
            × ((bury org_path_component f reg org id s).0
                ≡ put
                    (org_path_component org)
                    s.record_of.id
                    (record { org_id = org; record_of = s.record_of; revoked = true })
                    reg))
  unfolding bury
  bury-cases f reg org id s =
      elim (Bool-cases (not (s.org_id == org) || not (s.record_of.id == id) || s.revoked)) [
        | inl refused ↦ rw refused (inl (refl, λ e. cc))
        | inr accepted ↦ rw accepted (elim (push_record-cases f reg org s.record_of true) [
          | inl moved ↦ inr (
            (eq_iff s.org_id org).0 (ground (arith, accepted)),
            (eq_iff s.record_of.id id).0 (ground (arith, accepted)),
            ground (arith, accepted),
            moved,
          )
          | inr (kept, failed) ↦ inl (kept, λ e. cc (e, failed))
        ])
      ]

  -- A revocation takes effect, or fails and leaves the registry.
  pub revoke-cases :
      (f : Faults) (reg : Registry) (org id : String)
      → (((revoke org_path_component f reg org id).0 ≡ reg)
          × ((revoke org_path_component f reg org id).1 ≢ none))
        ⊎ Revoked reg org id (revoke org_path_component f reg org id).0
  unfolding revoke
  revoke-cases f reg org id =
      by_read (read_record org_path_component f reg (org_path_component org) id) refl
    where
      by_read :
          (read : Result StorageError StoredRecord)
          → read_record org_path_component f reg (org_path_component org) id ≡ read
          → (((revoke_read org_path_component f reg org id read).0 ≡ reg)
              × ((revoke_read org_path_component f reg org id read).1 ≢ none))
            ⊎ Revoked reg org id (revoke_read org_path_component f reg org id read).0
      by_read (err e) k = inl (refl, λ x. cc)
      by_read (ok s) k = elim (bury-cases f reg org id s) [
        | inl kept ↦ inl kept
        | inr (owned, same_id, live, moved) ↦ inr (record {
          stored = s;
          at_tag = read_record-eq-ok f reg (org_path_component org) id k;
          owned = owned;
          same_id = same_id;
          live = live;
          after =
              moved
              ∙ ap
                  (λ i.
                    put (org_path_component org) i
                      (record { org_id = org; record_of = s.record_of; revoked = true }) reg)
                  same_id;
        })
      ]

  pub revoke-Revoked :
      (f : Faults) (reg : Registry) (org id : String) {reg' : Registry}
      → revoke org_path_component f reg org id ≡ (reg', none)
      → Revoked reg org id reg'
  revoke-Revoked f reg org id {reg'} h = elim (revoke-cases f reg org id) [
    | inl (kept, fails) ↦ absurd (fails (ap (λ (x : Registry × Option StorageError). x.1) h))
    | inr done ↦
        subst (Revoked reg org id) (ap (λ (x : Registry × Option StorageError). x.0) h) done
  ]

  -- The tombstone that a revocation leaves.
  pub revoke-IsBuried :
      (f : Faults) (reg : Registry) (org id : String) {reg' : Registry}
      → revoke org_path_component f reg org id ≡ (reg', none)
      → IsBuried reg' org id
  revoke-IsBuried f reg org id {reg'} h =
      let r = revoke-Revoked f reg org id {reg' = reg'} h in
      record {
        stored = record { org_id = org; record_of = r.stored.record_of; revoked = true };
        at_tag =
            ap (get (org_path_component org) id) r.after
            ∙ get-put_self (org_path_component org) id
                (record { org_id = org; record_of = r.stored.record_of; revoked = true }) reg;
        buried = refl;
      }

  -- A push under another tag or repository leaves the tombstone.
  put-IsBuried :
      (reg : Registry) (org jti repository tag : String) (s : StoredRecord)
      → same_key repository tag (org_path_component org) jti ≡ false
      → IsBuried reg org jti
      → IsBuried (put repository tag s reg) org jti
  put-IsBuried reg org jti repository tag s h b = record {
    stored = b.stored;
    at_tag = get-put_ne repository tag (org_path_component org) jti s reg h ∙ b.at_tag;
    buried = b.buried;
  }

  Revoked-IsBuried :
      (reg : Registry) (org' id org jti : String) {reg' : Registry}
      → Revoked reg org' id reg'
      → IsBuried reg org jti
      → IsBuried reg' org jti
  Revoked-IsBuried reg org' id org jti r b =
      elim (Bool-cases (same_key (org_path_component org') id (org_path_component org) jti)) [
        | inr other ↦
            subst (λ g. IsBuried g org jti) (sym r.after)
              (put-IsBuried reg org jti (org_path_component org') id _ other b)
        | inl same ↦
            let (repository, tag) =
              same_key-eq (org_path_component org') id (org_path_component org) jti same in
            let found : get (org_path_component org) jti reg ≡ some r.stored =
              rw (← repository, ← tag) r.at_tag in
            let one : b.stored ≡ r.stored = some-injective _ _ (sym b.at_tag ∙ found) in
            let dead : r.stored.revoked ≡ true = rw (← one) b.buried in
            absurd (false≢true (sym r.live ∙ dead))
      ]

  Step-IsBuried :
      {reg reg' : Registry} (org jti : String)
      → Step jti reg reg'
      → IsBuried reg org jti
      → IsBuried reg' org jti
  unfolding create
  Step-IsBuried {reg} org jti (created f org' r {reg'} fresh h) b =
      let other : same_key (org_path_component org') r.id (org_path_component org) jti ≡ false =
        ground (arith, eq_iff r.id jti) in
      elim (push_record-cases f reg org' r false) [
        | inl moved ↦
            subst (λ g. IsBuried g org jti) (sym moved ∙ h)
              (put-IsBuried reg org jti (org_path_component org') r.id _ other b)
        | inr (kept, failed) ↦ subst (λ g. IsBuried g org jti) (sym kept ∙ h) b
      ]
  Step-IsBuried {reg} org jti (revoked f org' id {reg'} h) b = elim (revoke-cases f reg org' id) [
    | inl (kept, fails) ↦ subst (λ g. IsBuried g org jti) (sym kept ∙ h) b
    | inr r ↦
        subst (λ g. IsBuried g org jti) h (Revoked-IsBuried reg org' id org jti {reg' = _} r b)
  ]

  Steps-IsBuried :
      (org jti : String) {reg reg' : Registry}
      → Steps jti reg reg'
      → IsBuried reg org jti
      → IsBuried reg' org jti
  Steps-IsBuried org jti here b = b
  Steps-IsBuried org jti (next steps step) b =
      Step-IsBuried org jti step (Steps-IsBuried org jti steps b)

  valid-IsBuried :
      (f : Faults) (reg : Registry) (org jti : String) (now : ℤ)
      → IsBuried reg org jti
      → valid org_path_component f reg org jti now
        ≡ (if f.reads jti then err read_failed else ok false)
  unfolding valid read_record
  valid-IsBuried f reg org jti now b = let found = b.at_tag in let dead = b.buried in ground arith

  -- A token that was revoked is never valid again, at any time, whatever any organization creates
  -- and revokes meanwhile, as long as its ID is not minted again: a check of it answers no, or
  -- fails because the registry does.
  pub revoke-valid :
      (f f' : Faults) (reg reg' reg'' : Registry) (org jti : String) (now : ℤ)
      → revoke org_path_component f reg org jti ≡ (reg', none)
      → Steps jti reg' reg''
      → valid org_path_component f' reg'' org jti now
        ≡ (if f'.reads jti then err read_failed else ok false)
  revoke-valid f f' reg reg' reg'' org jti now h steps =
      valid-IsBuried f' reg'' org jti now
        (Steps-IsBuried org jti steps (revoke-IsBuried f reg org jti {reg' = reg'} h))

  -- A token that was recorded is valid until it expires; a failing read is an error.
  pub create-valid :
      (f f' : Faults) (reg reg' : Registry) (org : String) (r : Record) (now : ℤ)
      → create org_path_component f reg org r ≡ (reg', none)
      → valid org_path_component f' reg' org r.id now
        ≡ (if f'.reads r.id then err read_failed else ok (ltb_ℤ now r.expires_at))
  unfolding valid read_record create
  create-valid f f' reg reg' org r now h =
      let moved = push_record-eq-none f reg org r false {reg' = reg'} h in
      let found : get (org_path_component org) r.id reg'
          ≡ some (record { org_id = org; record_of = r; revoked = false }) =
        ap (get (org_path_component org) r.id) moved
        ∙ get-put_self (org_path_component org) r.id _ reg in
      ground (arith, eq_refl org, eq_refl r.id)
