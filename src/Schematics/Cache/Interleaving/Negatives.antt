-- ===== src/Schematics/Cache/Interleaving/Negatives.antt =====
-- internal/schematic/storage/cache/cache.go: "never overwrite a present value, as Put might have been
-- called": the negative entries of overlapping calls.
use image_factory.Prelude.{
  String, ◌≡◌, refl, sym, ap, ◌∙◌, subst, ◌⊎◌, inl, inr, Bool, false, Option, none, some,
  some-injective, arith, eq_iff, eq_refl, ◌==◌, Bool-cases, Result, ok, err,
}
use image_factory.Schematics.{is_storage_not_found, Error}
use image_factory.Schematics.Storage.{Storage, IsStorage}
use image_factory.Schematics.Cache.{Entries, set_entry, get_or_set, record_answer}
use image_factory.Schematics.Cache.Interleaving.{
  Reach-IsFaithful, Machine, IsFaithful, Step, reads, records, writes, fails, settles, evicts, here,
  next, Reach,
}

-- A flight that is under way will not deny the identifier.
abbrev IsHarmless : Option (Result Error String) → Type 0
IsHarmless reading = (e : Error) → reading ≡ some (err e) → is_storage_not_found e ≡ false

-- The entry of a text that is stored: the text, or none while no flight denies it.
abbrev pub IsServed : Option (Option String) → Option (Result Error String) → String → Type 0
IsServed entry reading bytes = (entry ≡ some (some bytes)) ⊎ ((entry ≡ none) × IsHarmless reading)

record_answer-IsServed :
    (entries : Entries) (id : String) (answer : Result Error String) (bytes : String)
    → IsServed (entries id) (some answer) bytes
    → ((b : String) → answer ≡ ok b → b ≡ bytes)
    → IsServed ((record_answer entries id answer).0 id) none bytes
unfolding record_answer get_or_set set_entry
record_answer-IsServed entries id (ok b) bytes (inl there) same = inl (ground (arith, eq_refl id))
record_answer-IsServed entries id (ok b) bytes (inr (missing, safe)) same =
    inl (ground (arith, eq_refl id, same b refl))
record_answer-IsServed entries id (err e) bytes (inl there) same = inl (ground (arith, eq_refl id))
record_answer-IsServed entries id (err e) bytes (inr (missing, safe)) same =
    inr (ground (arith, safe e refl), λ x h. cc)

record_answer_other :
    (entries : Entries) (id : String) (answer : Result Error String) (key : String)
    → (key == id) ≡ false
    → (record_answer entries id answer).0 key ≡ entries key
unfolding record_answer get_or_set set_entry
record_answer_other entries id (ok b) key other = rw other refl
record_answer_other entries id (err e) key other = ground arith

module _ {S : Type 0} (below : Storage S) (content : S → String → Option String)
    (Valid : S → Type 0) (denies : S → String → Bool)
    (is : IsStorage below content Valid denies) where
  -- No entry leaves the table while a flight for its identifier is under way.
  abbrev pub NotUnderFlight : Machine S → String → Type 0
  NotUnderFlight m id = m.reading id ≡ none

  -- What puts have stored is served.
  abbrev pub AreServed : Machine S → Type 0
  AreServed m =
      (key bytes : String)
      → m.stored key ≡ some bytes
      → IsServed (m.entries key) (m.reading key) bytes

  Step-AreServed :
      {m n : Machine S}
      → Step below content Valid denies NotUnderFlight m n
      → IsFaithful below content Valid denies m
      → AreServed m
      → AreServed n
  unfolding set_entry
  Step-AreServed (reads m id free) f h key bytes p = elim (Bool-cases (key == id)) [
    | inl same ↦
        let k≡ : key ≡ id = (eq_iff key id).0 same in
        let (held, served) = f.stored_held key bytes p in
        rw same (elim (h key bytes p) [
          | inl there ↦ inl there
          | inr (missing, safe) ↦ inr (
            missing,
            λ e r.
                is.get_held m.underlying id {bytes = bytes} f.valid
                  (ap (content m.underlying) (sym k≡) ∙ held)
                  (ap (denies m.underlying) (sym k≡) ∙ served) (some-injective _ _ r),
          )
        ])
    | inr other ↦ rw other (h key bytes p)
  ]
  Step-AreServed (records m id answer q) f h key bytes p = elim (Bool-cases (key == id)) [
    | inl same ↦
        let k≡ : key ≡ id = (eq_iff key id).0 same in
        rw same (
          subst (λ k. IsServed ((record_answer m.entries id answer).0 k) none bytes) (sym k≡)
            (record_answer-IsServed m.entries id answer bytes
              (subst (λ r. IsServed (m.entries id) r bytes) q
                (subst (λ k. IsServed (m.entries k) (m.reading k) bytes) k≡ (h key bytes p)))
              λ b e. some-injective _ _ (
                sym (f.reading_held id b (q ∙ ap some e))
                ∙ ap (content m.underlying) (sym k≡)
                ∙ (f.stored_held key bytes p).0)))
    | inr other ↦ rw other (
        subst (λ x. IsServed x (m.reading key) bytes)
          (sym (record_answer_other m.entries id answer key other)) (h key bytes p))
  ]
  Step-AreServed (writes m id b fits done) f h key bytes p = h key bytes p
  Step-AreServed (fails m id b fits) f h key bytes p = h key bytes p
  Step-AreServed (settles m id b q) f h key bytes p = elim (Bool-cases (key == id)) [
    | inl same ↦ rw same (inl (ap some (rw same at p)))
    | inr other ↦ rw other (h key bytes (rw other at p))
  ]
  Step-AreServed (evicts m id free) f h key bytes p = elim (Bool-cases (key == id)) [
    | inl same ↦
        let k≡ : key ≡ id = (eq_iff key id).0 same in
        rw same (inr (refl, λ e r. ground (arith, ap m.reading k≡)))
    | inr other ↦ rw other (h key bytes p)
  ]

  -- Through every interleaving in which no entry leaves the table under a flight, what a `Put` has
  -- stored never gets a negative entry, and no flight is about to make one.
  pub Reach-AreServed :
      {m n : Machine S}
      → IsFaithful below content Valid denies m
      → AreServed m
      → Reach below content Valid denies NotUnderFlight m n
      → AreServed n
  Reach-AreServed f h here = h
  Reach-AreServed f h (next r step) =
      Step-AreServed step (Reach-IsFaithful below content Valid denies is f r)
        (Reach-AreServed f h r)
