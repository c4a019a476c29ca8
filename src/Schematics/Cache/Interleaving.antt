-- ===== src/Schematics/Cache/Interleaving.antt =====
-- internal/schematic/storage/cache/cache.go: calls that overlap. A `Get` reads the storage below and
-- later records the answer; a `Put` writes below and later sets the entry; entries leave at any time.
pub mod Negatives
use image_factory.Prelude.{
  String, ◌≡◌, sym, ap, ◌∙◌, subst, ◌⊎◌, inl, inr, Bool, false, Option, none, some, some-injective,
  arith, eq_iff, ◌==◌, if◌then◌else◌, Bool-cases, Result, ok,
}
use image_factory.Schematics.{Error}
use image_factory.Schematics.Storage.{Storage, IsStorage}
use image_factory.Schematics.Cache.Entries.{set_entry-AreHeld, record_answer-AreHeld}
use image_factory.Schematics.Cache.{Entries, set_entry, record_answer}

abbrev pub at_key : {A : Type 0} → (String → Option A) → String → Option A → String → Option A
at_key f id value key = if key == id then value else f key

-- The cache; the answers that flights have read and not recorded, one flight to an identifier; the
-- texts that puts have written below and not set; and those of the puts that have returned.
pub record Machine (S : Type 0) : Type 0 where
  pub entries : Entries
  pub underlying : S
  pub reading : String → Option (Result Error String)
  pub writing : String → Option String
  pub stored : String → Option String

module _ {S : Type 0} (below : Storage S) (content : S → String → Option String)
    (Valid : S → Type 0) (denies : S → String → Bool) where
  -- A flight reads the storage below at any time: a `Get` has seen no entry before it, and one may be
  -- there by now. An eviction is for a full table or an entry that expires; `MayEvict` says when
  -- there is one.
  pub data Step (MayEvict : Machine S → String → Type 0) : Machine S → Machine S → Type 0 where
    reads :
        (m : Machine S) (id : String)
        → m.reading id ≡ none
        → Step MayEvict m (record m {
          underlying = (below.get m.underlying id).0;
          reading = at_key m.reading id (some (below.get m.underlying id).1);
        })
    records :
        (m : Machine S) (id : String) (answer : Result Error String)
        → m.reading id ≡ some answer
        → Step MayEvict m (record m {
          entries = (record_answer m.entries id answer).0;
          reading = at_key m.reading id none;
        })
    writes :
        (m : Machine S) (id bytes : String)
        → (content m.underlying id ≡ none) ⊎ (content m.underlying id ≡ some bytes)
        → (below.put m.underlying id bytes).1 ≡ none
        → Step MayEvict m (record m {
          underlying = (below.put m.underlying id bytes).0;
          writing = at_key m.writing id (some bytes);
        })
    fails :
        (m : Machine S) (id bytes : String)
        → (content m.underlying id ≡ none) ⊎ (content m.underlying id ≡ some bytes)
        → Step MayEvict m (record m { underlying = (below.put m.underlying id bytes).0 })
    settles :
        (m : Machine S) (id bytes : String)
        → m.writing id ≡ some bytes
        → Step MayEvict m (record m {
          entries = set_entry m.entries id (some bytes);
          writing = at_key m.writing id none;
          stored = at_key m.stored id (some bytes);
        })
    evicts :
        (m : Machine S) (id : String)
        → MayEvict m id
        → Step MayEvict m (record m { entries = at_key m.entries id none })

  pub data Reach (MayEvict : Machine S → String → Type 0) (m : Machine S) : Machine S → Type 0 where
    here : Reach MayEvict m m
    next : {n o : Machine S} → Reach MayEvict m n → Step MayEvict n o → Reach MayEvict m o

  -- No text that is held or on its way differs from what the storage below holds.
  pub record IsFaithful (m : Machine S) : Type 0 where
    pub valid : Valid m.underlying
    pub entry_held :
        (id bytes : String)
        → m.entries id ≡ some (some bytes)
        → content m.underlying id ≡ some bytes
    pub reading_held :
        (id bytes : String) → m.reading id ≡ some (ok bytes) → content m.underlying id ≡ some bytes
    pub writing_held :
        (id bytes : String)
        → m.writing id ≡ some bytes
        → (content m.underlying id ≡ some bytes) × (denies m.underlying id ≡ false)
    pub stored_held :
        (id bytes : String)
        → m.stored id ≡ some bytes
        → (content m.underlying id ≡ some bytes) × (denies m.underlying id ≡ false)

  module _ (is : IsStorage below content Valid denies) where
    put_holds :
        (s : S) (id bytes key b : String)
        → (content s id ≡ none) ⊎ (content s id ≡ some bytes)
        → content s key ≡ some b
        → content (below.put s id bytes).0 key ≡ some b
    put_holds s id bytes key b fits held = elim (is.put_content s id bytes key) [
      | inl same ↦ same ∙ held
      | inr (same, now) ↦
          let old : content s id ≡ some b = ap (content s) (sym same) ∙ held in
          let kept : bytes ≡ b = ground arith in now ∙ ap some kept
    ]

    put_keeps_held :
        (s : S) (id bytes key b : String)
        → (content s id ≡ none) ⊎ (content s id ≡ some bytes)
        → (content s key ≡ some b) × (denies s key ≡ false)
        → (content (below.put s id bytes).0 key ≡ some b)
          × (denies (below.put s id bytes).0 key ≡ false)
    put_keeps_held s id bytes key b fits (held, served) =
        (put_holds s id bytes key b fits held, is.put_serves s id bytes key served)

    get_keeps_held :
        (s : S) (id key b : String)
        → Valid s
        → (content s key ≡ some b) × (denies s key ≡ false)
        → (content (below.get s id).0 key ≡ some b) × (denies (below.get s id).0 key ≡ false)
    get_keeps_held s id key b valid (held, served) =
        (is.get_content s id key ∙ held, is.get_serves s id key valid held served)

    at_key-held :
        {A : Type 0} (f : String → Option A) (id : String) (value : Option A) (key : String) {a : A}
        → at_key f id value key ≡ some a
        → ((key ≡ id) × (value ≡ some a)) ⊎ (f key ≡ some a)
    at_key-held f id value key h = elim (Bool-cases (key == id)) [
      | inl same ↦ inl ((eq_iff key id).0 same, rw same at h)
      | inr other ↦ inr (rw other at h)
    ]

    -- Every step keeps it.
    pub Step-IsFaithful :
        {MayEvict : Machine S → String → Type 0} {m n : Machine S}
        → Step MayEvict m n
        → IsFaithful m
        → IsFaithful n
    Step-IsFaithful (reads m id q) h = record {
      valid = is.get_keeps m.underlying id h.valid;
      entry_held = λ key b p. is.get_content m.underlying id key ∙ h.entry_held key b p;
      reading_held = λ key b p.
          is.get_content m.underlying id key ∙ elim (at_key-held m.reading id _ key p) [
            | inl (same, now) ↦
                ap (content m.underlying) same
                ∙ (is.get_found m.underlying id h.valid (some-injective _ _ now)).0
            | inr before ↦ h.reading_held key b before
          ];
      writing_held =
          λ key b p. get_keeps_held m.underlying id key b h.valid (h.writing_held key b p);
      stored_held = λ key b p. get_keeps_held m.underlying id key b h.valid (h.stored_held key b p);
    }
    Step-IsFaithful (records m id answer q) h = record {
      valid = h.valid;
      entry_held =
          record_answer-AreHeld (content m.underlying) m.entries id answer h.entry_held
            (λ b e. h.reading_held id b (q ∙ ap some e));
      reading_held = λ key b p. elim (at_key-held m.reading id none key p) [
        | inl (same, now) ↦ cc
        | inr before ↦ h.reading_held key b before
      ];
      writing_held = h.writing_held;
      stored_held = h.stored_held;
    }
    Step-IsFaithful (writes m id bytes fits done) h = record {
      valid = is.put_keeps m.underlying id bytes h.valid fits;
      entry_held = λ key b p. put_holds m.underlying id bytes key b fits (h.entry_held key b p);
      reading_held = λ key b p. put_holds m.underlying id bytes key b fits (h.reading_held key b p);
      writing_held = λ key b p. elim (at_key-held m.writing id (some bytes) key p) [
        | inl (same, now) ↦
            let s = (below.put m.underlying id bytes).0 in
            subst (λ k. (content s k ≡ some b) × (denies s k ≡ false)) (sym same)
              (subst (λ t. (content s id ≡ some t) × (denies s id ≡ false)) (some-injective _ _ now)
                (is.put_stored m.underlying id bytes done))
        | inr before ↦ put_keeps_held m.underlying id bytes key b fits (h.writing_held key b before)
      ];
      stored_held =
          λ key b p. put_keeps_held m.underlying id bytes key b fits (h.stored_held key b p);
    }
    Step-IsFaithful (fails m id bytes fits) h = record {
      valid = is.put_keeps m.underlying id bytes h.valid fits;
      entry_held = λ key b p. put_holds m.underlying id bytes key b fits (h.entry_held key b p);
      reading_held = λ key b p. put_holds m.underlying id bytes key b fits (h.reading_held key b p);
      writing_held =
          λ key b p. put_keeps_held m.underlying id bytes key b fits (h.writing_held key b p);
      stored_held =
          λ key b p. put_keeps_held m.underlying id bytes key b fits (h.stored_held key b p);
    }
    Step-IsFaithful (settles m id bytes q) h = record {
      valid = h.valid;
      entry_held =
          set_entry-AreHeld (content m.underlying) m.entries id bytes h.entry_held
            (h.writing_held id bytes q).0;
      reading_held = h.reading_held;
      writing_held = λ key b p. elim (at_key-held m.writing id none key p) [
        | inl (same, now) ↦ cc
        | inr before ↦ h.writing_held key b before
      ];
      stored_held = λ key b p. elim (at_key-held m.stored id (some bytes) key p) [
        | inl (same, now) ↦
            subst (λ k. (content m.underlying k ≡ some b) × (denies m.underlying k ≡ false))
              (sym same) (h.writing_held id b (q ∙ now))
        | inr before ↦ h.stored_held key b before
      ];
    }
    Step-IsFaithful (evicts m id may) h = record {
      valid = h.valid;
      entry_held = λ key b p. elim (at_key-held m.entries id none key p) [
        | inl (same, now) ↦ cc
        | inr before ↦ h.entry_held key b before
      ];
      reading_held = h.reading_held;
      writing_held = h.writing_held;
      stored_held = h.stored_held;
    }

    -- Through every interleaving and whatever leaves the table, a text in an entry is what the storage
    -- below holds.
    pub Reach-IsFaithful :
        {MayEvict : Machine S → String → Type 0} {m n : Machine S}
        → IsFaithful m
        → Reach MayEvict m n
        → IsFaithful n
    Reach-IsFaithful h here = h
    Reach-IsFaithful h (next r step) = Step-IsFaithful step (Reach-IsFaithful h r)
