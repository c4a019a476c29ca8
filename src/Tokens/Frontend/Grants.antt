-- ===== src/Tokens/Frontend/Grants.antt =====
-- The authority of a created token, beside that of the token that created it.
use image_factory.Prelude.{
  ℕ, ◌<◌, String, ◌≡◌, refl, sym, ap, ◌∙◌, subst, ◌≢◌, ◌⊎◌, inl, inr, Bool, true, false, Option,
  none, some, List, arith, ℤ, Bool-cases, Option-cases, length, any, Result-cases, ok-injective,
  Result, ok, err,
}
use image_factory.Token.Errors.{ttl_out_of_range, unknown_scope}
use image_factory.Token.Jose.{Jose}
use image_factory.Token.Issuer.{issue_with_delegation, Issuer, ApiToken, Claims, Delegation}
use image_factory.Token.Issuer.Issue.{issue_with_delegation-IsMade}
use image_factory.Tokens.Registry.{Registry, put, Record}
use image_factory.Tokens.Storage.{create, list, Faults, StorageError}
use image_factory.Tokens.Manager.{
  record_for, kept, keep_token, create_token, ManagerError, not_issued,
}
use image_factory.Tokens.Requests.{CreateParams}
use image_factory.Tokens.Frontend.{
  may_not_grant, bound_to_itself, mint_subject, answer_created, mint, mint_below_cap, create_with,
  Setting, Response, created,
}
use image_factory.Tokens.Storage.Revocation.{push_record-eq-none}
use image_factory.Token.Scope.{Scope, allows, can_grant}
use image_factory.Token.Scope.Delegated.{allows-can_grant}

-- The registry holds the record of a subject's token, beside what it held before.
abbrev pub IsRecorded : (String → String) → Registry → String → Record → Registry → Type 0
IsRecorded org_path_component reg subject r reg' =
    reg'
    ≡ put (org_path_component subject) r.id
        (record { org_id = subject; record_of = r; revoked = false }) reg

module _ {PrivateKey PublicKey SignedToken : Type 0} (jose : Jose PrivateKey PublicKey SignedToken)
    (org_path_component : String → String) (i : Issuer PrivateKey PublicKey) where
  kept-ok :
      (name : String) (token : ApiToken) (x : Registry × Option StorageError) {reg' : Registry}
      {r : Record} {text : String}
      → kept jose org_path_component i name token x ≡ (reg', ok (r, text))
      → (x ≡ (reg', none)) × (r ≡ record_for token name) × (text ≡ token.signed)
  kept-ok name token (g, none) h =
      let same = ap (λ (y : Registry × Result ManagerError (Record × String)). y.0) h in
      let out =
        ok-injective (ap (λ (y : Registry × Result ManagerError (Record × String)). y.1) h) in
      (
        ap (λ (y : Registry). (y, none)) same,
        ap (λ (y : Record × String). y.0) (sym out),
        ap (λ (y : Record × String). y.1) (sym out),
      )
  kept-ok name token (g, some e) h =
      let out = ap (λ (y : Registry × Result ManagerError (Record × String)). y.1) h in cc

  keep_token-ok :
      (f : Faults) (reg : Registry) (org name : String) (token : ApiToken) {reg' : Registry}
      {r : Record} {text : String}
      → keep_token jose org_path_component i f reg org name token ≡ (reg', ok (r, text))
      → (r ≡ record_for token name)
        × (text ≡ token.signed)
        × (((token.stored ≡ false) × (reg' ≡ reg)) ⊎ IsRecorded org_path_component reg org r reg')
  unfolding create record_for
  keep_token-ok f reg org name token {reg'} {r} {text} h = elim (Bool-cases token.stored) [
    | inr ephemeral ↦
        let k = rw ephemeral at h in
        let out =
          ok-injective (ap (λ (y : Registry × Result ManagerError (Record × String)). y.1) k) in
        (
          ap (λ (y : Record × String). y.0) (sym out),
          ap (λ (y : Record × String). y.1) (sym out),
          inl (
            ephemeral,
            ap (λ (y : Registry × Result ManagerError (Record × String)). y.0) (sym k),
          ),
        )
    | inl recorded ↦
        let (made, record_eq, text_eq) =
          kept-ok name token (create org_path_component f reg org (record_for token name))
            {reg' = reg'} {r = r} {text = text} (rw recorded at h) in
        (
          record_eq,
          text_eq,
          inr (
              subst (λ q. IsRecorded org_path_component reg org q reg') (sym record_eq)
                (push_record-eq-none org_path_component f reg org (record_for token name) false
                  {reg' = reg'} made)),
        )
  ]

  -- What `Create` has done when it returns a token.
  pub record IsCreated (reg : Registry) (org name : String) (scopes : List Scope) (d : Delegation)
      (stored : Bool) (requested : ℤ) (jti : String) (now : ℤ) (reg' : Registry) (r : Record)
      (text : String) : Type 0 where
    pub token : ApiToken
    pub issued : issue_with_delegation jose i org scopes d stored requested jti now ≡ ok token
    pub record_eq : r ≡ record_for token name
    pub text_eq : text ≡ token.signed
    pub recorded :
        ((token.stored ≡ false) × (reg' ≡ reg)) ⊎ IsRecorded org_path_component reg org r reg'

  create_token-IsCreated :
      (f : Faults) (reg : Registry) (org name : String) (scopes : List Scope) (d : Delegation)
      (stored : Bool) (requested : ℤ) (jti : String) (now : ℤ) {reg' : Registry} {r : Record}
      {text : String}
      → create_token jose org_path_component i f reg org name scopes d stored requested jti now
        ≡ (reg', ok (r, text))
      → IsCreated reg org name scopes d stored requested jti now reg' r text
  unfolding create_token
  create_token-IsCreated f reg org name scopes d stored requested jti now {reg'} {r} {text} h =
      elim (Result-cases (issue_with_delegation jose i org scopes d stored requested jti now)) [
        | inr (e, refused) ↦
            let k = rw refused at h in
            let out = ap (λ (y : Registry × Result ManagerError (Record × String)). y.1) k in cc
        | inl (token, issued) ↦
            let (record_eq, text_eq, recorded) =
              keep_token-ok f reg org name token {reg' = reg'} {r = r} {text = text}
                (rw issued at h) in
            record {
              token = token;
              issued = issued;
              record_eq = record_eq;
              text_eq = text_eq;
              recorded = recorded;
            }
      ]

  -- The record of a token that was created holds what was asked for.
  pub IsCreated-record :
      {reg : Registry} {org name : String} {scopes : List Scope} {d : Delegation} {stored : Bool}
      {requested : ℤ} {jti : String} {now : ℤ} {reg' : Registry} {r : Record} {text : String}
      → IsCreated reg org name scopes d stored requested jti now reg' r text
      → (r.scopes ≡ scopes) × (r.issuable_scopes ≡ d.issuable_scopes)
  unfolding record_for
  IsCreated-record {reg} {org} {name} {scopes} {d} {stored} {requested} {jti} {now} made =
      let good =
        issue_with_delegation-IsMade jose i org scopes d stored requested jti now made.token
          made.issued in
      (
        ap (λ (x : Record). x.scopes) made.record_eq
            ∙ ap (λ (x : ApiToken). x.scopes) good.token_eq,
        ap (λ (x : Record). x.issuable_scopes) made.record_eq
            ∙ ap (λ (x : ApiToken). x.issuable_scopes) good.token_eq,
      )

module _ {PrivateKey PublicKey SignedToken : Type 0} (jose : Jose PrivateKey PublicKey SignedToken)
    (org_path_component : String → String) (i : Issuer PrivateKey PublicKey) (max_per_org : ℕ) where
  -- The token that a creation has made, for its subject and with what was asked for.
  abbrev pub IsMade :
      Setting → Registry → String → CreateParams → Registry → Record → String → Type 0
  IsMade e reg subject p reg' r text =
      IsCreated jose org_path_component i reg subject p.name p.scopes
        (record { issuable_scopes = p.issuable_scopes; any_subject = false }) p.stored p.ttl e.jti
        e.now reg' r text

  -- What a creation has established when it answers with a token.
  pub record IsMinted (e : Setting) (reg : Registry) (org : String) (p : CreateParams)
      (subject text : String) (r : Record) (reg' : Registry) : Type 0 where
    pub made : IsMade e reg subject p reg' r text
    pub within : (c : Claims) → e.claims ≡ some c → can_grant c.issuable_scopes r.scopes ≡ true
    pub issuable_within :
        (c : Claims) → e.claims ≡ some c → can_grant c.issuable_scopes r.issuable_scopes ≡ true
    pub subject_ok : (subject ≡ org) ⊎ ((c : Claims) × (e.claims ≡ some c) × (c.any_subject ≡ true))

  answer_created-created :
      (subject : String) (stored : Bool) (m : Registry × Result ManagerError (Record × String))
      {text subject' : String} {r : Record} {stored' : Bool}
      → (answer_created jose org_path_component i max_per_org subject stored m).1
        ≡ created text subject' r stored'
      → (m ≡ (
        (answer_created jose org_path_component i max_per_org subject stored m).0,
        ok (r, text),
      ))
        × (subject ≡ subject')
  unfolding answer_created
  answer_created-created subject stored (g, ok (r, text)) h = (ground arith, ground arith)
  answer_created-created subject stored (g, err (not_issued ttl_out_of_range)) h = cc
  answer_created-created subject stored (g, err (not_issued (unknown_scope s))) h = cc
  answer_created-created subject stored (g, err e) h = cc

  pub mint-created :
      (e : Setting) (reg : Registry) (subject : String) (p : CreateParams) {text subject' : String}
      {r : Record} {stored : Bool}
      → (mint jose org_path_component i max_per_org e reg subject p).1
        ≡ created text subject' r stored
      → IsMade e reg subject p (mint jose org_path_component i max_per_org e reg subject p).0 r text
        × (subject ≡ subject')
  unfolding mint
  mint-created e reg subject p {text} {subject'} {r} {stored} h =
      let (made, same) =
        answer_created-created subject p.stored _ {text = text} {subject' = subject'} {r = r}
          {stored' = stored} h in
      (
        create_token-IsCreated jose org_path_component i e.writing reg subject p.name p.scopes
            (record { issuable_scopes = p.issuable_scopes; any_subject = false }) p.stored p.ttl
            e.jti e.now {reg' = _} {r = r} {text = text} made,
        same,
      )

  -- Below the cap, and no more: the tokens that are listed leave room for one.
  pub mint_below_cap-created :
      (e : Setting) (reg : Registry) (subject : String) (p : CreateParams) {text subject' : String}
      {r : Record} {stored : Bool}
      → (mint_below_cap jose org_path_component i max_per_org e reg subject p).1
        ≡ created text subject' r stored
      → (mint_below_cap jose org_path_component i max_per_org e reg subject p
          ≡ mint jose org_path_component i max_per_org e reg subject p)
        × ((p.stored ≡ false)
            ⊎ ((existing : List Record) × (list org_path_component e.listing reg subject e.now
                  ≡ ok existing)
                × (length existing < max_per_org)))
  unfolding mint_below_cap
  mint_below_cap-created e reg subject p h = elim (Bool-cases p.stored) [
    | inr ephemeral ↦ (ground arith, inl ephemeral)
    | inl recorded ↦ elim (Result-cases (list org_path_component e.listing reg subject e.now)) [
      | inr (x, failing) ↦ ground arith
      | inl (existing, found) ↦ ground arith
    ]
  ]

  -- The subject that `mint_subject` lets through is the caller's own, or the caller may name any.
  mint_subject-own :
      (claims : Option Claims) (org requested : String) {subject : String}
      → mint_subject claims org requested ≡ some subject
      → (subject ≡ org) ⊎ ((c : Claims) × (claims ≡ some c) × (c.any_subject ≡ true))
  unfolding mint_subject bound_to_itself
  mint_subject-own none org requested h = ground arith
  mint_subject-own (some c) org requested {subject} h = elim (Bool-cases c.any_subject) [
    | inl any ↦ inr (c, refl, any)
    | inr own ↦ inl (ground arith)
  ]

  may_not_grant-within :
      (claims : Option Claims) (p : CreateParams) (c : Claims)
      → may_not_grant claims p ≡ false
      → claims ≡ some c
      → (can_grant c.issuable_scopes p.scopes ≡ true)
        × (can_grant c.issuable_scopes p.issuable_scopes ≡ true)
  unfolding may_not_grant
  may_not_grant-within none p c h e = cc
  may_not_grant-within (some c') p c h e = ground arith

  refused-created :
      (e : Setting) (reg : Registry) (org : String) (p : CreateParams) {text subject : String}
      {r : Record} {stored : Bool}
      → may_not_grant e.claims p ≡ true
      → (create_with jose org_path_component i max_per_org e reg org p).1
        ≢ created text subject r stored
  unfolding create_with
  refused-created e reg org p refused h = cc (rw refused at h)

  unnamed-created :
      (e : Setting) (reg : Registry) (org : String) (p : CreateParams) {text subject : String}
      {r : Record} {stored : Bool}
      → may_not_grant e.claims p ≡ false
      → mint_subject e.claims org p.subject ≡ none
      → (create_with jose org_path_component i max_per_org e reg org p).1
        ≢ created text subject r stored
  unfolding create_with
  unnamed-created e reg org p granted unnamed h = cc (rw (granted, unnamed) at h)

  create_with-mint_below_cap :
      (e : Setting) (reg : Registry) (org : String) (p : CreateParams) (s : String)
      → may_not_grant e.claims p ≡ false
      → mint_subject e.claims org p.subject ≡ some s
      → create_with jose org_path_component i max_per_org e reg org p
        ≡ mint_below_cap jose org_path_component i max_per_org e reg s p
  unfolding create_with
  create_with-mint_below_cap e reg org p s granted named = rw (granted, named) refl

  -- A creation that answers with a token has minted it within the caller's ceiling: if a token
  -- authenticated the request, the new token's scopes and what it may issue in turn are among the
  -- scopes that the caller's token may issue. The text that is answered is the token that the issuer
  -- has signed for the subject of the answer, with the scopes, the delegation, the storage and the
  -- lifetime that were asked for; it is recorded for that subject if it is stored; and the subject is
  -- the caller's own organization unless the caller's token carries the authority over any subject.
  pub create_with-IsMinted :
      (e : Setting) (reg : Registry) (org : String) (p : CreateParams) (text subject : String)
      (r : Record) (stored : Bool)
      → (create_with jose org_path_component i max_per_org e reg org p).1
        ≡ created text subject r stored
      → IsMinted e reg org p subject text r
          (create_with jose org_path_component i max_per_org e reg org p).0
  create_with-IsMinted e reg org p text subject r stored h =
      elim (Bool-cases (may_not_grant e.claims p)) [
        | inl refused ↦ absurd (refused-created e reg org p refused h)
        | inr granted ↦ elim (Option-cases (mint_subject e.claims org p.subject)) [
          | inl unnamed ↦ absurd (unnamed-created e reg org p granted unnamed h)
          | inr (s, named) ↦
              let step = create_with-mint_below_cap e reg org p s granted named in
              let below = ap (λ (x : Registry × Response). x.1) (sym step) ∙ h in
              let whole =
                step
                ∙ (mint_below_cap-created e reg s p {text = text} {subject' = subject} {r = r}
                    {stored = stored} below).0 in
              let (made, same) =
                mint-created e reg s p {text = text} {subject' = subject} {r = r} {stored = stored}
                  (ap (λ (x : Registry × Response). x.1) (sym whole) ∙ h) in
              let (scopes_eq, issuable_eq) = IsCreated-record jose org_path_component i made in
              record {
                made =
                    subst (λ x. IsMade e reg subject p x r text)
                      (ap (λ (x : Registry × Response). x.0) (sym whole))
                      (subst
                        (λ u.
                          IsMade e reg u p (mint jose org_path_component i max_per_org e reg s p).0
                            r text)
                        same made);
                within = λ c k. rw scopes_eq (may_not_grant-within e.claims p c granted k).0;
                issuable_within =
                    λ c k. rw issuable_eq (may_not_grant-within e.claims p c granted k).1;
                subject_ok =
                    subst
                      (λ u.
                        (u ≡ org) ⊎ ((c : Claims) × (e.claims ≡ some c) × (c.any_subject ≡ true)))
                      same (mint_subject-own e.claims org p.subject {subject = s} named);
              }
        ]
      ]

  -- So no request is open to the new token that the caller's ceiling would not open.
  pub create_with-allows :
      (e : Setting) (reg : Registry) (org : String) (p : CreateParams) (text subject : String)
      (r : Record) (stored : Bool) (c : Claims) (method path : String)
      → e.claims ≡ some c
      → (create_with jose org_path_component i max_per_org e reg org p).1
        ≡ created text subject r stored
      → allows r.scopes method path ≡ true
      → allows c.issuable_scopes method path ≡ true
  create_with-allows e reg org p text subject r stored c method path k h a =
      let minted = create_with-IsMinted e reg org p text subject r stored h in
      allows-can_grant c.issuable_scopes r.scopes method path (minted.within c k) a
