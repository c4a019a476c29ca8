-- ===== src/Tokens/Storage/Listing.antt =====
-- What a listing shows.
use image_factory.Prelude.{
  String, ◌≡◌, refl, sym, ◌∙◌, subst, ◌⊎◌, inl, inr, true, false, some, some-injective, List, [],
  ◌∷◌, arith, eq_iff, ltb_ℤ, ℤ, ◌==◌, if◌then◌else◌, Bool-cases, All, contains, ◌>>=◌, ok-injective,
  >>=-eq-ok, unless-eq-ok, ok,
}
use image_factory.Tokens.Registry.{Registry, get, tags, Record, StoredRecord}
use image_factory.Tokens.Storage.{
  comes_first, insert_sorted, sort, is_hidden, read_record, read_tags, list, Faults, list_failed,
}
use image_factory.Tokens.Storage.Revocation.{read_record-eq-ok}

abbrev pub Holds : Record → List Record → Type 0
Holds r [] = ⊥
Holds r (x ∷ xs) = (x ≡ r) ⊎ Holds r xs

-- A record that the registry holds for the organization: live, not expired, under its own tag.
pub record IsShown (org_path_component : String → String) (reg : Registry) (org : String) (now : ℤ)
    (r : Record) : Type 0 where
  pub tag : String
  pub stored : StoredRecord
  pub at_tag : get (org_path_component org) tag reg ≡ some stored
  pub same : stored.record_of ≡ r
  pub owned : stored.org_id ≡ org
  pub live : stored.revoked ≡ false
  pub current : ltb_ℤ now r.expires_at ≡ true

module _ (P : Record → Type 0) where
  insert_sorted-All : (a : Record) (bs : List Record) → P a → All P bs → All P (insert_sorted a bs)
  unfolding insert_sorted
  insert_sorted-All a [] p h = (p, tt)
  insert_sorted-All a (b ∷ bs) p (q, h) = elim (Bool-cases (comes_first a b)) [
    | inl first ↦ rw first (p, (q, h))
    | inr later ↦ rw later (q, insert_sorted-All a bs p h)
  ]

  sort-All : (rs : List Record) → All P rs → All P (sort rs)
  unfolding sort
  sort-All [] h = tt
  sort-All (r ∷ rs) (p, h) = insert_sorted-All r (sort rs) p (sort-All rs h)

module _ (r : Record) where
  insert_sorted-Holds-tail :
      (a : Record) (bs : List Record) → Holds r bs → Holds r (insert_sorted a bs)
  unfolding insert_sorted
  insert_sorted-Holds-tail a [] h = absurd h
  insert_sorted-Holds-tail a (b ∷ bs) h = elim (Bool-cases (comes_first a b)) [
    | inl first ↦ rw first (inr h)
    | inr later ↦
        rw later (elim h [ inl e ↦ inl e | inr k ↦ inr (insert_sorted-Holds-tail a bs k) ])
  ]

  insert_sorted-Holds-head : (bs : List Record) → Holds r (insert_sorted r bs)
  unfolding insert_sorted
  insert_sorted-Holds-head [] = inl refl
  insert_sorted-Holds-head (b ∷ bs) = elim (Bool-cases (comes_first r b)) [
    | inl first ↦ rw first (inl refl)
    | inr later ↦ rw later (inr (insert_sorted-Holds-head bs))
  ]

  sort-Holds : (rs : List Record) → Holds r rs → Holds r (sort rs)
  unfolding sort
  sort-Holds [] h = h
  sort-Holds (a ∷ rs) (inl e) = rw e (insert_sorted-Holds-head (sort rs))
  sort-Holds (a ∷ rs) (inr h) = insert_sorted-Holds-tail a (sort rs) (sort-Holds rs h)

module _ (org_path_component : String → String) (f : Faults) (reg : Registry) (org : String)
    (now : ℤ) where
  -- What one round of the loop returns, from what it read and the rest.
  abbrev step : StoredRecord → List Record → List Record
  step s more = if is_hidden org now s then more else s.record_of ∷ more

  read_tags-cons :
      (tag : String) (rest : List String) {out : List Record}
      → read_tags org_path_component f reg org now (tag ∷ rest) ≡ ok out
      → (s : StoredRecord) × (more : List Record) × (get (org_path_component org) tag reg ≡ some s)
        × (read_tags org_path_component f reg org now rest ≡ ok more)
        × (step s more ≡ out)
  unfolding read_tags
  read_tags-cons tag rest h =
      let (s, read, h1) =
        >>=-eq-ok (read_record org_path_component f reg (org_path_component org) tag)
          (λ s. read_tags org_path_component f reg org now rest >>= λ more. ok (step s more)) h in
      let (more, later, h2) =
        >>=-eq-ok (read_tags org_path_component f reg org now rest) (λ more. ok (step s more)) h1 in
      (
        s,
        more,
        read_record-eq-ok org_path_component f reg (org_path_component org) tag {s = s} read,
        later,
        ok-injective h2,
      )

  read_tags-nil :
      {out : List Record} → read_tags org_path_component f reg org now [] ≡ ok out → [] ≡ out
  unfolding read_tags
  read_tags-nil h = ok-injective h

  step-here :
      (s : StoredRecord) (more : List Record)
      → is_hidden org now s ≡ false
      → Holds s.record_of (step s more)
  step-here s more shown = rw shown (inl refl)

  step-there :
      (r : Record) (s : StoredRecord) (more : List Record) → Holds r more → Holds r (step s more)
  step-there r s more h = elim (Bool-cases (is_hidden org now s)) [
    | inl hidden ↦ rw hidden h
    | inr shown ↦ rw shown (inr h)
  ]

  step-IsShown :
      (tag : String) (s : StoredRecord) (more : List Record)
      → get (org_path_component org) tag reg ≡ some s
      → All (IsShown org_path_component reg org now) more
      → All (IsShown org_path_component reg org now) (step s more)
  unfolding is_hidden
  step-IsShown tag s more found h = elim (Bool-cases (is_hidden org now s)) [
    | inl hidden ↦ rw (hidden, is_hidden) h
    | inr shown ↦
        rw (shown, is_hidden)
          (
            record {
              tag = tag;
              stored = s;
              at_tag = found;
              same = refl;
              owned = ground (arith, eq_iff s.org_id org);
              live = ground arith;
              current = ground arith;
            },
            h,
          )
  ]

  read_tags-IsShown :
      (ts : List String) {out : List Record}
      → read_tags org_path_component f reg org now ts ≡ ok out
      → All (IsShown org_path_component reg org now) out
  read_tags-IsShown [] {out} h =
      subst (All (IsShown org_path_component reg org now)) (read_tags-nil {out = out} h) tt
  read_tags-IsShown (tag ∷ rest) {out} h =
      let (s, more, found, later, e) = read_tags-cons tag rest {out = out} h in
      subst (All (IsShown org_path_component reg org now)) e
        (step-IsShown tag s more found (read_tags-IsShown rest {out = more} later))

  read_tags-Holds :
      (ts : List String) {out : List Record} (tag : String) (s : StoredRecord)
      → read_tags org_path_component f reg org now ts ≡ ok out
      → contains ts tag ≡ true
      → get (org_path_component org) tag reg ≡ some s
      → is_hidden org now s ≡ false
      → Holds s.record_of out
  read_tags-Holds [] tag s h k found shown = cc
  read_tags-Holds (t ∷ ts) {out} tag s h k found shown =
      let (s', more, found', later, e) = read_tags-cons t ts {out = out} h in
      subst (Holds s.record_of) e (elim (Bool-cases (t == tag)) [
        | inl same ↦
            let read : get (org_path_component org) tag reg ≡ some s' =
              subst (λ u. get (org_path_component org) u reg ≡ some s') ((eq_iff t tag).0 same)
                found' in
            let one : s' ≡ s = some-injective _ _ (sym read ∙ found) in
            subst (λ u. Holds u.record_of (step s' more)) one (step-here s' more (rw one shown))
        | inr other ↦
            step-there s.record_of s' more
              (read_tags-Holds ts {out = more} tag s later (rw other at k) found shown)
      ])

  read_listing :
      {out : List Record}
      → list org_path_component f reg org now ≡ ok out
      → (found : List Record) × (read_tags org_path_component f reg org now
            (tags (org_path_component org) reg)
          ≡ ok found)
        × (sort found ≡ out)
  unfolding list
  read_listing {out} h =
      let (answers, h1) = unless-eq-ok f.lists list_failed _ h in
      let (found, read, e) =
        >>=-eq-ok (read_tags org_path_component f reg org now (tags (org_path_component org) reg))
          (λ found. ok (sort found)) h1 in
      (found, read, ok-injective e)

  -- Every token that a listing shows was recorded for that very organization, is not revoked and
  -- has not expired, whatever the organizations' names are hashed to.
  pub list-IsShown :
      (out : List Record)
      → list org_path_component f reg org now ≡ ok out
      → All (IsShown org_path_component reg org now) out
  list-IsShown out h =
      let (found, read, e) = read_listing {out = out} h in
      subst (All (IsShown org_path_component reg org now)) e (
        sort-All (IsShown org_path_component reg org now) found
          (read_tags-IsShown (tags (org_path_component org) reg) {out = found} read))

  -- A listing shows each record that the registry holds for the organization under one of the
  -- repository's tags, unless it is revoked or expired.
  pub list-Holds :
      (out : List Record) (tag : String) (s : StoredRecord)
      → list org_path_component f reg org now ≡ ok out
      → contains (tags (org_path_component org) reg) tag ≡ true
      → get (org_path_component org) tag reg ≡ some s
      → is_hidden org now s ≡ false
      → Holds s.record_of out
  list-Holds out tag s h k found shown =
      let (all_found, read, e) = read_listing {out = out} h in
      subst (Holds s.record_of) e (
        sort-Holds s.record_of all_found (
          read_tags-Holds (tags (org_path_component org) reg) {out = all_found} tag s read k found
            shown))
