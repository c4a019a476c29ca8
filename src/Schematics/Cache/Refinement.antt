-- ===== src/Schematics/Cache/Refinement.antt =====
-- internal/schematic/storage/cache/cache.go: the contract of the cache, by that of the storage below.
use image_factory.Prelude.{
  String, ◌≡◌, refl, sym, ap, ◌∙◌, subst, ◌⊎◌, Bool, true, false, Option, none, some, arith, eq_iff,
  eq_refl, Result, ok, err,
}
use image_factory.Schematics.{is_storage_not_found, Error}
use image_factory.Schematics.Storage.{Storage, IsStorage}
use image_factory.Schematics.Cache.Entries.{set_entry-AreHeld, record_answer-AreHeld}
use image_factory.Schematics.Cache.{
  Entries, set_entry, get_or_set, reply_of, record_answer, error_of, fly, get_entry, get,
  head_entry, head, settle_put, put, cached, Cached,
}

module _ {S : Type 0} (below : Storage S) (content : S → String → Option String)
    (Valid : S → Type 0) (denies : S → String → Bool)
    (is : IsStorage below content Valid denies) where
  -- What is held under an identifier is what the storage below holds.
  abbrev pub cached_content : Cached S → String → Option String
  cached_content c id = content c.underlying id

  -- A present entry is a copy of what the storage below holds.
  pub record IsCoherent (c : Cached S) : Type 0 where
    pub valid : Valid c.underlying
    pub present :
        (id bytes : String)
        → c.entries id ≡ some (some bytes)
        → content c.underlying id ≡ some bytes

  abbrev denies_entry : S → String → Option (Option String) → Bool
  denies_entry s id none = denies s id
  denies_entry s id (some none) = true
  denies_entry s id (some (some bytes)) = false

  -- A negative entry denies what stands below.
  abbrev pub cached_denies : Cached S → String → Bool
  cached_denies c id = denies_entry c.underlying id (c.entries id)

  fly-IsCoherent : (c : Cached S) (id : String) → IsCoherent c → IsCoherent (fly below c id).0
  unfolding fly
  fly-IsCoherent c id h =
      let u = c.underlying in
      let u' = (below.get u id).0 in
      let same = is.get_content u id in
      record {
        valid = is.get_keeps u id h.valid;
        present =
            record_answer-AreHeld (content u') c.entries id (below.get u id).1
              (λ key b e. same key ∙ h.present key b e)
              (λ b e. same id ∙ (is.get_found u id h.valid e).0);
      }

  get_entry-IsCoherent :
      (c : Cached S) (id : String) (entry : Option (Option String))
      → IsCoherent c
      → IsCoherent (get_entry below none c id entry).0
  get_entry-IsCoherent c id none h = fly-IsCoherent c id h
  get_entry-IsCoherent c id (some value) h = h

  get_entry_content :
      (c : Cached S) (id key : String) (entry : Option (Option String))
      → cached_content (get_entry below none c id entry).0 key ≡ cached_content c key
  unfolding fly
  get_entry_content c id key none = is.get_content c.underlying id key
  get_entry_content c id key (some value) = refl

  record_answer-ok :
      (entries : Entries) (id : String) (answer : Result Error String) {bytes : String}
      → entries id ≡ none
      → (record_answer entries id answer).1 ≡ ok bytes
      → answer ≡ ok bytes
  unfolding record_answer get_or_set
  record_answer-ok entries id (ok b) e h = rw e at h
  record_answer-ok entries id (err x) e h = ground arith

  record_answer_stores :
      (s : S) (entries : Entries) (id : String) (answer : Result Error String) {bytes : String}
      → entries id ≡ none
      → answer ≡ ok bytes
      → denies_entry s id ((record_answer entries id answer).0 id) ≡ false
  unfolding record_answer get_or_set set_entry
  record_answer_stores s entries id (ok b) e h = ground (arith, eq_refl id)
  record_answer_stores s entries id (err x) e h = cc

  record_answer-err :
      (entries : Entries) (id : String) (answer : Result Error String) {x : Error}
      → (record_answer entries id answer).1 ≡ err x
      → answer ≡ err x
  unfolding record_answer get_or_set
  record_answer-err entries id (ok b) h = cc
  record_answer-err entries id (err x) h = ground arith

  get_entry_found :
      (c : Cached S) (id : String) (entry : Option (Option String)) {bytes : String}
      → IsCoherent c
      → c.entries id ≡ entry
      → (get_entry below none c id entry).1 ≡ ok bytes
      → (cached_content c id ≡ some bytes)
        × (cached_denies (get_entry below none c id entry).0 id ≡ false)
  unfolding fly reply_of
  get_entry_found c id none h e r =
      let u' = (below.get c.underlying id).0 in
      let answer = (below.get c.underlying id).1 in
      let found = record_answer-ok c.entries id answer e r in
      (
        (is.get_found c.underlying id h.valid found).0,
        record_answer_stores u' c.entries id answer e found,
      )
  get_entry_found c id (some none) h e r = cc
  get_entry_found c id (some (some b)) h e r = (h.present id _ (cc), ground arith)

  get_entry_held :
      (c : Cached S) (id : String) (entry : Option (Option String)) {bytes : String} {x : Error}
      → IsCoherent c
      → cached_content c id ≡ some bytes
      → denies_entry c.underlying id entry ≡ false
      → (get_entry below none c id entry).1 ≡ err x
      → is_storage_not_found x ≡ false
  unfolding fly reply_of
  get_entry_held c id none h held d r =
      is.get_held c.underlying id h.valid held d (record_answer-err c.entries id _ r)
  get_entry_held c id (some none) h held d r = cc
  get_entry_held c id (some (some b)) h held d r = cc

  -- A flight for what is held never leaves a negative entry.
  record_answer-serves :
      (s : S) (entries : Entries) (id key : String) (answer : Result Error String)
      → entries id ≡ none
      → ((e : Error) → answer ≡ err e → key ≡ id → is_storage_not_found e ≡ false)
      → denies_entry s key (entries key) ≡ false
      → denies_entry s key ((record_answer entries id answer).0 key) ≡ false
  unfolding record_answer get_or_set set_entry
  record_answer-serves s entries id key (ok b) missing k h = ground (arith, eq_iff key id)
  record_answer-serves s entries id key (err e) missing k h =
      ground (arith, eq_iff key id, k e refl)

  denies_entry_keeps :
      (s t : S) (key : String) (entry : Option (Option String))
      → (denies s key ≡ false → denies t key ≡ false)
      → denies_entry s key entry ≡ false
      → denies_entry t key entry ≡ false
  denies_entry_keeps s t key none k h = k h
  denies_entry_keeps s t key (some none) k h = h
  denies_entry_keeps s t key (some (some b)) k h = h

  get_entry_serves :
      (c : Cached S) (id key : String) (entry : Option (Option String)) {bytes : String}
      → IsCoherent c
      → c.entries id ≡ entry
      → cached_content c key ≡ some bytes
      → cached_denies c key ≡ false
      → cached_denies (get_entry below none c id entry).0 key ≡ false
  unfolding fly
  get_entry_serves c id key (some value) h e held d = d
  get_entry_serves c id key none {bytes} h e held d =
      let u = c.underlying in
      let u' = (below.get u id).0 in
      record_answer-serves u' c.entries id key (below.get u id).1 e
        (λ x r same.
          is.get_held u id {bytes = bytes} h.valid
            (subst (λ k. cached_content c k ≡ some bytes) same held)
            (subst (λ w. denies_entry u id w ≡ false) e
              (subst (λ k. denies_entry u k (c.entries k) ≡ false) same d))
            r)
        (denies_entry_keeps u u' key (c.entries key) (is.get_serves u id key h.valid held) d)

  head_entry-state :
      (c : Cached S) (id : String) (entry : Option (Option String))
      → c.entries id ≡ entry
      → (head_entry below none c id entry).0 ≡ (get_entry below none c id entry).0
  unfolding get
  head_entry-state c id none e = rw e
  head_entry-state c id (some value) e = refl

  head_entry-reply :
      (c : Cached S) (id : String) (entry : Option (Option String))
      → c.entries id ≡ entry
      → (head_entry below none c id entry).1 ≡ error_of (get_entry below none c id entry).1
  unfolding get
  head_entry-reply c id none e = rw e
  head_entry-reply c id (some value) e = refl

  error_of-none : (r : Result Error String) → error_of r ≡ none → (b : String) × (r ≡ ok b)
  error_of-none (ok b) h = (b, refl)
  error_of-none (err e) h = cc

  settle_put-IsCoherent :
      (c : Cached S) (id bytes : String) (reply : S × Option Error)
      → IsCoherent c
      → Valid reply.0
      → ((key : String)
          → (content reply.0 key ≡ content c.underlying key)
            ⊎ ((key ≡ id) × (content reply.0 key ≡ some bytes)))
      → ((content c.underlying id ≡ none) ⊎ (content c.underlying id ≡ some bytes))
      → (reply.1 ≡ none → content reply.0 id ≡ some bytes)
      → IsCoherent (settle_put below c.entries id bytes reply).0
  settle_put-IsCoherent c id bytes (s, some e) h v moves fits stored = record {
    valid = v;
    present = kept;
  }
    where
      kept : (key b : String) → c.entries key ≡ some (some b) → content s key ≡ some b
      kept key b p = ground (arith, h.present key b p, moves key)
  settle_put-IsCoherent c id bytes (s, none) h v moves fits stored = record {
    valid = v;
    present = set_entry-AreHeld (content s) c.entries id bytes kept (stored refl);
  }
    where
      kept : (key b : String) → c.entries key ≡ some (some b) → content s key ≡ some b
      kept key b p = ground (arith, h.present key b p, moves key)

  settle_put_serves :
      (c : Cached S) (id bytes key : String) (reply : S × Option Error)
      → (denies c.underlying key ≡ false → denies reply.0 key ≡ false)
      → cached_denies c key ≡ false
      → cached_denies (settle_put below c.entries id bytes reply).0 key ≡ false
  unfolding set_entry
  settle_put_serves c id bytes key (s, some e) k h =
      denies_entry_keeps c.underlying s key (c.entries key) k h
  settle_put_serves c id bytes key (s, none) k h =
      let kept = denies_entry_keeps c.underlying s key (c.entries key) k h in ground arith

  settle_put-underlying :
      (c : Cached S) (id bytes : String) (reply : S × Option Error)
      → (settle_put below c.entries id bytes reply).0.underlying ≡ reply.0
  settle_put-underlying c id bytes (s, some e) = refl
  settle_put-underlying c id bytes (s, none) = refl

  settle_put_stored :
      (c : Cached S) (id bytes : String) (reply : S × Option Error)
      → (reply.1 ≡ none → content reply.0 id ≡ some bytes)
      → (settle_put below c.entries id bytes reply).1 ≡ none
      → (cached_content (settle_put below c.entries id bytes reply).0 id ≡ some bytes)
        × (cached_denies (settle_put below c.entries id bytes reply).0 id ≡ false)
  unfolding set_entry
  settle_put_stored c id bytes (s, some e) stored h = cc
  settle_put_stored c id bytes (s, none) stored h = (stored refl, ground (arith, eq_refl id))

  -- The cache keeps the contract of the storage below it: it holds what that holds, a present entry
  -- never differs from it, and what a `Put` has stored is found until it is denied below.
  pub cached-IsStorage : IsStorage (cached below) cached_content IsCoherent cached_denies
  unfolding cached head get put
  cached-IsStorage = record {
    head_keeps = λ c id h.
        subst IsCoherent (sym (head_entry-state c id (c.entries id) refl))
          (get_entry-IsCoherent c id (c.entries id) h);
    head_content = λ c id key.
        ap (λ t. cached_content t key) (head_entry-state c id (c.entries id) refl)
        ∙ get_entry_content c id key (c.entries id);
    head_found = λ c id h r.
        let (b, found) = error_of-none _ (sym (head_entry-reply c id (c.entries id) refl) ∙ r) in
        let (held, served) = get_entry_found c id (c.entries id) h refl found in
        (
          b,
          held,
          subst (λ t. cached_denies t id ≡ false) (sym (head_entry-state c id (c.entries id) refl))
              served,
        );
    head_serves = λ c id key h held d.
        subst (λ t. cached_denies t key ≡ false) (sym (head_entry-state c id (c.entries id) refl))
          (get_entry_serves c id key (c.entries id) h refl held d);
    get_keeps = λ c id h. get_entry-IsCoherent c id (c.entries id) h;
    get_content = λ c id key. get_entry_content c id key (c.entries id);
    get_found = λ c id h r. get_entry_found c id (c.entries id) h refl r;
    get_held = λ c id h held d r. get_entry_held c id (c.entries id) h held d r;
    get_serves = λ c id key h held d. get_entry_serves c id key (c.entries id) h refl held d;
    put_keeps = λ c id bytes h fits.
        settle_put-IsCoherent c id bytes (below.put c.underlying id bytes) h
          (is.put_keeps c.underlying id bytes h.valid fits) (is.put_content c.underlying id bytes)
          fits (λ r. (is.put_stored c.underlying id bytes r).0);
    put_content = λ c id bytes key.
        subst
          (λ t.
            (content t key ≡ content c.underlying key)
            ⊎ ((key ≡ id) × (content t key ≡ some bytes)))
          (sym (settle_put-underlying c id bytes (below.put c.underlying id bytes)))
          (is.put_content c.underlying id bytes key);
    put_stored = λ c id bytes r.
        settle_put_stored c id bytes (below.put c.underlying id bytes)
          (λ q. (is.put_stored c.underlying id bytes q).0) r;
    put_serves = λ c id bytes key d.
        settle_put_serves c id bytes key (below.put c.underlying id bytes)
          (is.put_serves c.underlying id bytes key) d;
  }
