-- ===== src/Tokens/Frontend/Replies.antt =====
-- What the replies of the token frontend say about the registry.
use image_factory.Prelude.{
  ℕ, ◌<◌, String, ◌≡◌, refl, sym, ap, ◌∙◌, subst, ◌⊎◌, inl, inr, Bool, true, false, false≢true,
  Option, none, some, List, arith, ℤ, leb, ◌==◌, Bool-cases, Option-cases, length, Result-cases,
  Result, ok, err,
}
use image_factory.Token.Errors.{TokenError, ttl_out_of_range, unknown_scope}
use image_factory.Token.Jose.{Jose}
use image_factory.Token.Issuer.{issue_with_delegation, Issuer, ApiToken}
use image_factory.Tokens.Registry.{Registry, Record}
use image_factory.Tokens.Storage.{create, list, Faults, StorageError, push_failed}
use image_factory.Tokens.Manager.{
  record_for, kept, keep_issued, create_token, ManagerError, not_issued, not_stored,
}
use image_factory.Tokens.Requests.{decode_create_body, CreateRequest, CreateParams}
use image_factory.Tokens.Frontend.{
  may_not_grant, mint_subject, answer_created, mint, mint_below_cap, create_with, handle_create,
  handle, Setting, Response, created, failed,
}
use image_factory.Tokens.Storage.Revocation.{push_record-cases, push_record-fails}
use image_factory.Tokens.Frontend.Grants.{IsRecorded, mint-created, mint_below_cap-created}

abbrev pub is_created : Response → Bool
is_created (created text subject r stored) = true
is_created _ = false

module _ {PrivateKey PublicKey SignedToken : Type 0} (jose : Jose PrivateKey PublicKey SignedToken)
    (org_path_component : String → String) (i : Issuer PrivateKey PublicKey) (max_per_org : ℕ) where
  -- A push that was answered with an error after it had moved the tag: the answer is that error, and
  -- the registry holds the record of a token.
  abbrev pub IsUnacknowledged : Registry → Registry × Response → Type 0
  IsUnacknowledged reg x =
      (x.1 ≡ failed (not_stored push_failed))
      × ((subject : String) × (r : Record) × IsRecorded org_path_component reg subject r x.0)

  -- What is left of the registry behind an answer.
  abbrev pub IsSettled : Registry → Registry × Response → Type 0
  IsSettled reg x = (x.0 ≡ reg) ⊎ IsUnacknowledged reg x

  -- What is left of it behind `Create`.
  abbrev MayStore : Registry → Registry × Result ManagerError (Record × String) → Type 0
  MayStore reg x =
      ((rt : Record × String) × (x.1 ≡ ok rt))
      ⊎ ((x.0 ≡ reg)
          ⊎ ((x.1 ≡ err (not_stored push_failed))
              × ((subject : String) × (r : Record) × IsRecorded org_path_component reg subject r
                    x.0)))

  kept-MayStore :
      (reg : Registry) (org name : String) (token : ApiToken) (x : Registry × Option StorageError)
      → ((x.0 ≡ reg) ⊎ IsRecorded org_path_component reg org (record_for token name) x.0)
      → ((e : StorageError) → x.1 ≡ some e → e ≡ push_failed)
      → MayStore reg (kept jose org_path_component i name token x)
  kept-MayStore reg org name token (g, none) left fails =
      inl ((record_for token name, token.signed), refl)
  kept-MayStore reg org name token (g, some e) (inl same) fails = inr (inl same)
  kept-MayStore reg org name token (g, some e) (inr recorded) fails =
      inr
        (inr (ap (λ x. err (not_stored x)) (fails e refl), (org, record_for token name, recorded)))

  create_token-MayStore :
      (f : Faults) (reg : Registry) (org name : String) (issued : Result TokenError ApiToken)
      → MayStore reg (keep_issued jose org_path_component i f reg org name issued)
  unfolding create record_for
  create_token-MayStore f reg org name (err e) = inr (inl refl)
  create_token-MayStore f reg org name (ok token) = elim (Bool-cases token.stored) [
    | inr ephemeral ↦ rw ephemeral (inl ((record_for token name, token.signed), refl))
    | inl recorded ↦ rw recorded (
        kept-MayStore reg org name token
          (create org_path_component f reg org (record_for token name))
          (elim (push_record-cases org_path_component f reg org (record_for token name) false) [
            | inl moved ↦ inr moved
            | inr (same, failing) ↦ inl same
          ])
          (λ e h. push_record-fails org_path_component f reg org (record_for token name) false h))
  ]

  answer_created-registry :
      (subject : String) (stored : Bool) (m : Registry × Result ManagerError (Record × String))
      → (answer_created jose org_path_component i max_per_org subject stored m).0 ≡ m.0
  unfolding answer_created
  answer_created-registry subject stored (g, ok (r, text)) = refl
  answer_created-registry subject stored (g, err (not_issued ttl_out_of_range)) = refl
  answer_created-registry subject stored (g, err (not_issued (unknown_scope s))) = refl
  answer_created-registry subject stored (g, err e) = refl

  answer_created-ok :
      (subject : String) (stored : Bool) (m : Registry × Result ManagerError (Record × String))
      {rt : Record × String}
      → m.1 ≡ ok rt
      → is_created (answer_created jose org_path_component i max_per_org subject stored m).1 ≡ true
  unfolding answer_created
  answer_created-ok subject stored (g, ok (r, text)) k = refl
  answer_created-ok subject stored (g, err e) k = cc

  answer_created-push_failed :
      (subject : String) (stored : Bool) (m : Registry × Result ManagerError (Record × String))
      → m.1 ≡ err (not_stored push_failed)
      → (answer_created jose org_path_component i max_per_org subject stored m).1
        ≡ failed (not_stored push_failed)
  unfolding answer_created
  answer_created-push_failed subject stored (g, q) k =
      ap (λ x. (answer_created jose org_path_component i max_per_org subject stored (g, x)).1) k

  answer_created-IsSettled :
      (reg : Registry) (subject : String) (stored : Bool)
      (m : Registry × Result ManagerError (Record × String))
      → MayStore reg m
      → is_created (answer_created jose org_path_component i max_per_org subject stored m).1 ≡ false
      → IsSettled reg (answer_created jose org_path_component i max_per_org subject stored m)
  answer_created-IsSettled reg subject stored m (inl (rt, k)) h =
      absurd (false≢true (sym h ∙ answer_created-ok subject stored m k))
  answer_created-IsSettled reg subject stored m (inr (inl same)) h =
      inl (answer_created-registry subject stored m ∙ same)
  answer_created-IsSettled reg subject stored m (inr (inr (k, (org, r, recorded)))) h = inr (
    answer_created-push_failed subject stored m k,
    (org, r, answer_created-registry subject stored m ∙ recorded),
  )

  mint-IsSettled :
      (e : Setting) (reg : Registry) (subject : String) (p : CreateParams)
      → is_created (mint jose org_path_component i max_per_org e reg subject p).1 ≡ false
      → IsSettled reg (mint jose org_path_component i max_per_org e reg subject p)
  unfolding mint create_token
  mint-IsSettled e reg subject p h =
      answer_created-IsSettled reg subject p.stored _
        (create_token-MayStore e.writing reg subject p.name (
          issue_with_delegation jose i subject p.scopes
            (record { issuable_scopes = p.issuable_scopes; any_subject = false }) p.stored p.ttl
            e.jti e.now))
        h

  mint_below_cap-cases :
      (e : Setting) (reg : Registry) (subject : String) (p : CreateParams)
      → ((mint_below_cap jose org_path_component i max_per_org e reg subject p).0 ≡ reg)
        ⊎ (mint_below_cap jose org_path_component i max_per_org e reg subject p
            ≡ mint jose org_path_component i max_per_org e reg subject p)
  unfolding mint_below_cap
  mint_below_cap-cases e reg subject p = elim (Bool-cases p.stored) [
    | inr ephemeral ↦ inr (ground arith)
    | inl recorded ↦ elim (Result-cases (list org_path_component e.listing reg subject e.now)) [
      | inr (x, failing) ↦ inl (ground arith)
      | inl (existing, found) ↦ elim (Bool-cases (leb max_per_org (length existing))) [
        | inl full ↦ inl (ground arith)
        | inr room ↦ inr (ground arith)
      ]
    ]
  ]

  mint_below_cap-IsSettled :
      (e : Setting) (reg : Registry) (subject : String) (p : CreateParams)
      → is_created (mint_below_cap jose org_path_component i max_per_org e reg subject p).1 ≡ false
      → IsSettled reg (mint_below_cap jose org_path_component i max_per_org e reg subject p)
  mint_below_cap-IsSettled e reg subject p h = elim (mint_below_cap-cases e reg subject p) [
    | inl same ↦ inl same
    | inr mints ↦ subst (IsSettled reg) (sym mints) (
        mint-IsSettled e reg subject p
          (ap (λ (x : Registry × Response). is_created x.1) (sym mints) ∙ h))
  ]

  create_with-cases :
      (e : Setting) (reg : Registry) (org : String) (p : CreateParams)
      → ((create_with jose org_path_component i max_per_org e reg org p).0 ≡ reg)
        ⊎ ((s : String) × (create_with jose org_path_component i max_per_org e reg org p
              ≡ mint_below_cap jose org_path_component i max_per_org e reg s p))
  unfolding create_with
  create_with-cases e reg org p = elim (Bool-cases (may_not_grant e.claims p)) [
    | inl refused ↦ inl (ground arith)
    | inr granted ↦ elim (Option-cases (mint_subject e.claims org p.subject)) [
      | inl unnamed ↦ inl (ground arith)
      | inr (s, named) ↦ inr (s, ground arith)
    ]
  ]

  create_with-IsSettled :
      (e : Setting) (reg : Registry) (org : String) (p : CreateParams)
      → is_created (create_with jose org_path_component i max_per_org e reg org p).1 ≡ false
      → IsSettled reg (create_with jose org_path_component i max_per_org e reg org p)
  create_with-IsSettled e reg org p h = elim (create_with-cases e reg org p) [
    | inl same ↦ inl same
    | inr (s, goes_on) ↦ subst (IsSettled reg) (sym goes_on) (
        mint_below_cap-IsSettled e reg s p
          (ap (λ (x : Registry × Response). is_created x.1) (sym goes_on) ∙ h))
  ]

  handle_create-cases :
      (parse_duration : String → Option ℤ) (e : Setting) (reg : Registry) (org : String)
      (body : Option CreateRequest)
      → ((handle_create jose org_path_component i max_per_org parse_duration e reg org body).0
          ≡ reg)
        ⊎ ((p : CreateParams) × (handle_create jose org_path_component i max_per_org parse_duration
                e reg org body
              ≡ create_with jose org_path_component i max_per_org e reg org p))
  unfolding handle_create
  handle_create-cases parse_duration e reg org body =
      elim (Result-cases (decode_create_body parse_duration body)) [
        | inr (reason, bad) ↦ inl (ground arith)
        | inl (p, good) ↦ inr (p, ground arith)
      ]

  handle_create-IsSettled :
      (parse_duration : String → Option ℤ) (e : Setting) (reg : Registry) (org : String)
      (body : Option CreateRequest)
      → is_created
          (handle_create jose org_path_component i max_per_org parse_duration e reg org body).1
        ≡ false
      → IsSettled reg
          (handle_create jose org_path_component i max_per_org parse_duration e reg org body)
  handle_create-IsSettled parse_duration e reg org body h =
      elim (handle_create-cases parse_duration e reg org body) [
        | inl same ↦ inl same
        | inr (p, goes_on) ↦ subst (IsSettled reg) (sym goes_on) (
            create_with-IsSettled e reg org p
              (ap (λ (x : Registry × Response). is_created x.1) (sym goes_on) ∙ h))
      ]

  -- A request for a creation or a listing that does not answer with a new token leaves the registry
  -- as it was (no caller, a bad body, a refused scope or subject, a full organization, a failure of
  -- the issuer, of a listing or of a push, and every method but POST), unless it answers with the
  -- failure of a push that has moved its tag all the same: then the registry holds the record of one
  -- more token.
  pub handle-unchanged :
      (parse_duration : String → Option ℤ) (e : Setting) (reg : Registry) (caller : Option String)
      (method : String) (body : Option CreateRequest)
      → is_created
          (handle jose org_path_component i max_per_org parse_duration e reg caller method body).1
        ≡ false
      → IsSettled reg
          (handle jose org_path_component i max_per_org parse_duration e reg caller method body)
  unfolding handle
  handle-unchanged parse_duration e reg none method body h = inl refl
  handle-unchanged parse_duration e reg (some org) method body h =
      elim (Bool-cases (method == "POST")) [
        | inl posts ↦
            rw posts (handle_create-IsSettled parse_duration e reg org body (rw posts at h))
        | inr lists ↦ rw lists (inl refl)
      ]

  -- A recorded token is minted only while its subject's listing shows fewer tokens than the cap.
  pub create_with-below_cap :
      (e : Setting) (reg : Registry) (org : String) (p : CreateParams) (text subject : String)
      (r : Record) (stored : Bool)
      → p.stored ≡ true
      → (create_with jose org_path_component i max_per_org e reg org p).1
        ≡ created text subject r stored
      → (existing : List Record) × (list org_path_component e.listing reg subject e.now
          ≡ ok existing)
        × (length existing < max_per_org)
  unfolding create_with
  create_with-below_cap e reg org p text subject r stored recorded h =
      elim (Option-cases (mint_subject e.claims org p.subject)) [
        | inl refused ↦ ground arith
        | inr (s, named) ↦
            let below : (mint_below_cap jose org_path_component i max_per_org e reg s p).1
                ≡ created text subject r stored =
              ground arith in
            let (minted, room) =
              mint_below_cap-created jose org_path_component i max_per_org e reg s p {text = text}
                {subject' = subject} {r = r} {stored = stored} below in
            let same =
              (mint-created jose org_path_component i max_per_org e reg s p {text = text}
                {subject' = subject} {r = r} {stored = stored}
                (ap (λ (x : Registry × Response). x.1) (sym minted) ∙ below)).1 in
            elim room [
              | inl ephemeral ↦ absurd (false≢true (sym ephemeral ∙ recorded))
              | inr found ↦
                  subst
                    (λ u.
                      (existing : List Record) × (list org_path_component e.listing reg u e.now
                        ≡ ok existing)
                      × (length existing < max_per_org))
                    same found
            ]
      ]
