-- ===== src/Token/Issuer/Keys.antt =====
-- What the constructor of an issuer establishes about its keys.
use image_factory.Prelude.{
  String, ◌≡◌, refl, sym, ap, ◌∙◌, subst, inl, inr, true, false, Option, none, some, some-injective,
  List, [], ◌∷◌, ◌++◌, append_assoc, append-nil, arith, eq_refl, Bool-cases, Option-cases, All,
  All-append, contains, is_nodup, is_nodup-concat, ok-injective, >>=-eq-ok, ok,
}
use image_factory.Token.Jose.{Jose}
use image_factory.Token.Scope.{lookup}
use image_factory.Token.Ttl.{Ttl, StorageTtl}
use image_factory.Token.Issuer.{add_key, add_keys, assemble, new_issuer, Issuer}

abbrev kids : {K : Type 0} → List (String × K) → List String
kids [] = []
kids ((kid, key) ∷ keys) = kid ∷ kids keys

kids-concat :
    {K : Type 0} (keys : List (String × K)) (kid : String) (key : K)
    → kids (keys ++ (kid, key) ∷ []) ≡ kids keys ++ kid ∷ []
kids-concat [] kid key = refl
kids-concat ((k, v) ∷ keys) kid key = rw (kids-concat keys kid key)

lookup-none :
    {K : Type 0} (kid : String) (keys : List (String × K))
    → lookup kid keys ≡ none
    → contains (kids keys) kid ≡ false
unfolding lookup
lookup-none kid [] h = refl
lookup-none kid ((k, v) ∷ keys) h = ground (arith, lookup-none kid keys)

module _ {PrivateKey PublicKey SignedToken : Type 0}
    (jose : Jose PrivateKey PublicKey SignedToken) where
  open jose use {public_key, is_p256, thumbprint}

  -- An accepted key goes to the end, under its thumbprint, which no key before it has.
  pub record Added (keys : List (String × PublicKey)) (given : Option PublicKey)
      (more : List (String × PublicKey)) : Type 0 where
    pub kid : String
    pub key : PublicKey
    pub given_eq : given ≡ some key
    pub curve : is_p256 key ≡ true
    pub print : thumbprint key ≡ some kid
    pub fresh : contains (kids keys) kid ≡ false
    pub more_eq : more ≡ keys ++ (kid, key) ∷ []

  add_key-Added :
      (keys : List (String × PublicKey)) (key : Option PublicKey) {more : List (String × PublicKey)}
      → add_key jose keys key ≡ ok more
      → Added keys key more
  unfolding add_key
  add_key-Added keys none h = cc
  add_key-Added keys (some key) h = elim (Bool-cases (is_p256 key)) [
    | inr other ↦ cc (rw other at h)
    | inl curve ↦ elim (Option-cases (thumbprint key)) [
      | inl missing ↦ cc (rw (curve, missing) at h)
      | inr (kid, print) ↦ elim (Option-cases (lookup kid keys)) [
        | inr (old, found) ↦ cc (rw (curve, print, found) at h)
        | inl absent ↦ record {
          kid = kid;
          key = key;
          given_eq = refl;
          curve = curve;
          print = print;
          fresh = lookup-none kid keys absent;
          more_eq = sym (ok-injective (rw (curve, print, absent) at h));
        }
      ]
    ]
  ]

  -- Every key is on the curve and stands under its thumbprint, no thumbprint stands twice, and the
  -- keys that were there stay in front.
  pub record KeysOk (keys : List (String × PublicKey)) : Type 0 where
    pub distinct : is_nodup (kids keys) ≡ true
    pub each : All (λ e. (is_p256 e.1 ≡ true) × (thumbprint e.1 ≡ some e.0)) keys

  Added-KeysOk :
      (keys : List (String × PublicKey)) (given : Option PublicKey)
      (more : List (String × PublicKey))
      → Added keys given more
      → KeysOk keys
      → KeysOk more
  Added-KeysOk keys given more a h = subst KeysOk (sym a.more_eq) (record {
    distinct =
        rw (kids-concat keys a.kid a.key) (is_nodup-concat (kids keys) a.kid h.distinct a.fresh);
    each =
        All-append (λ e. (is_p256 e.1 ≡ true) × (thumbprint e.1 ≡ some e.0)) keys
          ((a.kid, a.key) ∷ []) h.each ((a.curve, a.print), tt);
  })

  add_keys-KeysOk :
      (keys : List (String × PublicKey)) (rest : List (Option PublicKey))
      {out : List (String × PublicKey)}
      → KeysOk keys
      → add_keys jose keys rest ≡ ok out
      → KeysOk out × ((tail : List (String × PublicKey)) × (out ≡ keys ++ tail))
  unfolding add_keys
  add_keys-KeysOk keys [] {out} h e =
      (subst KeysOk (ok-injective e) h, ([], sym (ok-injective e) ∙ sym (append-nil keys)))
  add_keys-KeysOk keys (key ∷ rest) {out} h e =
      let (more, added, later) =
        >>=-eq-ok (add_key jose keys key) (λ more. add_keys jose more rest) e in
      let a = add_key-Added keys key {more = more} added in
      let (good, (tail, eq)) =
        add_keys-KeysOk more rest {out = out} (Added-KeysOk keys key more a h) later in
      (
        good,
        (
          (a.kid, a.key) ∷ tail,
          eq ∙ ap (λ m. m ++ tail) a.more_eq ∙ append_assoc keys ((a.kid, a.key) ∷ []) tail,
        ),
      )

  -- The active key signs, and the key set verifies what it signs.
  pub record IsIssuer (i : Issuer PrivateKey PublicKey) : Type 0 where
    pub keys_ok : KeysOk i.verification_keys
    pub active : lookup i.signing_kid i.verification_keys ≡ some (public_key i.signing_key)

  assemble-active :
      (private_key : PrivateKey) (bootstrap : Ttl) (storage : StorageTtl)
      (keys tail : List (String × PublicKey)) (kid : String) {i : Issuer PrivateKey PublicKey}
      → keys ≡ (kid, public_key private_key) ∷ tail
      → KeysOk keys
      → assemble jose private_key bootstrap storage keys ≡ ok i
      → IsIssuer i
  unfolding assemble lookup
  assemble-active private_key bootstrap storage [] tail kid e h made = cc
  assemble-active private_key bootstrap storage ((k, v) ∷ keys) tail kid {i} e h made =
      elim (Bool-cases (jose.new_signer private_key k)) [
        | inr refused ↦ cc (rw refused at made)
        | inl signs ↦ elim (Option-cases (jose.marshal ((k, v) ∷ keys))) [
          | inl failed ↦ cc (rw (signs, failed) at made)
          | inr (json, encoded) ↦
              subst IsIssuer (ok-injective (rw (signs, encoded) at made)) (record {
                keys_ok = h;
                active = rw (eq_refl k) (ap some (ap (λ p. p.1) (head-eq e)));
              })
        ]
      ]
    where
      head-eq :
          {a b : String × PublicKey} {xs ys : List (String × PublicKey)} → a ∷ xs ≡ b ∷ ys → a ≡ b
      head-eq q = cc

  first_key :
      (key : PublicKey) (rest : List (Option PublicKey)) {out : List (String × PublicKey)}
      → add_keys jose [] (some key ∷ rest) ≡ ok out
      → (kid : String) × (tail : List (String × PublicKey)) × (out ≡ (kid, key) ∷ tail) × KeysOk out
  unfolding add_keys
  first_key key rest {out} e =
      let (more, added, later) =
        >>=-eq-ok (add_key jose [] (some key)) (λ more. add_keys jose more rest) e in
      let a = add_key-Added [] (some key) {more = more} added in
      let (good, (tail, eq)) =
        add_keys-KeysOk more rest {out = out}
          (Added-KeysOk [] (some key) more a (record { distinct = refl; each = tt })) later in
      let same : a.key ≡ key = sym (some-injective _ _ a.given_eq) in
      (a.kid, tail, eq ∙ ap (λ m. m ++ tail) a.more_eq ∙ ap (λ k. (a.kid, k) ∷ tail) same, good)

  -- An issuer that the constructor returns verifies with the public half of its signing key, and
  -- every key of it is on the curve and stands once, under its own thumbprint.
  pub new_issuer-IsIssuer :
      (private_key : Option PrivateKey) (verification_keys : List (Option PublicKey))
      (bootstrap : Ttl) (storage : StorageTtl) (i : Issuer PrivateKey PublicKey)
      → new_issuer jose private_key verification_keys bootstrap storage ≡ ok i
      → IsIssuer i
  unfolding new_issuer
  new_issuer-IsIssuer none verification_keys bootstrap storage i made = cc
  new_issuer-IsIssuer (some private_key) verification_keys bootstrap storage i made =
      elim (Bool-cases (is_p256 (public_key private_key))) [
        | inr other ↦ cc (rw other at made)
        | inl curve ↦
            let (keys, added, made') =
              >>=-eq-ok (add_keys jose [] (some (public_key private_key) ∷ verification_keys))
                (assemble jose private_key bootstrap storage) (rw curve at made) in
            let (kid, tail, eq, good) =
              first_key (public_key private_key) verification_keys {out = keys} added in
            assemble-active private_key bootstrap storage keys tail kid {i = i} eq good made'
      ]
