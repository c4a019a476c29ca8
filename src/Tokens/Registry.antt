-- ===== src/Tokens/Registry.antt =====
-- The OCI registry as the token storage uses it (go-containerregistry behind internal/remotewrap):
-- repositories with tags, each tag holding one image, whose one layer is the JSON text of a
-- record. A tag holds the record itself here: `encoding/json` reads back what it wrote.
use image_factory.Prelude.{
  String, ◌≡◌, refl, ◌∙◌, Bool, true, false, ◌&&◌, Option, none, some, List, [], ◌∷◌, arith, eq_iff,
  eq_refl, ℤ, ◌==◌, if◌then◌else◌,
}
use image_factory.Token.Scope.{Scope}

-- `Record`; instants are numbers of nanoseconds.
pub record Record : Type 0 where
  pub created_at : ℤ
  pub expires_at : ℤ
  pub id : String
  pub name : String
  pub scopes : List Scope
  pub issuable_scopes : List Scope

-- `storedRecord`: a record, or its tombstone.
pub record StoredRecord : Type 0 where
  pub org_id : String
  pub record_of : Record
  pub revoked : Bool

pub record Entry : Type 0 where
  pub repository : String
  pub tag : String
  pub stored : StoredRecord

abbrev pub Registry : Type 0
Registry = List Entry

unfoldable pub is_at : String → String → Entry → Bool
is_at repository tag e = e.repository == repository && e.tag == tag

unfoldable pub get : String → String → Registry → Option StoredRecord
get repository tag [] = none
get repository tag (e ∷ es) =
    if is_at repository tag e then some e.stored else get repository tag es

-- A push moves the tag, or makes it.
unfoldable pub put : String → String → StoredRecord → Registry → Registry
put repository tag stored [] = record { repository = repository; tag = tag; stored = stored } ∷ []
put repository tag stored (e ∷ es) =
    if is_at repository tag e
    then record { repository = repository; tag = tag; stored = stored } ∷ es
    else e ∷ put repository tag stored es

-- `remote.List`
unfoldable pub tags : String → Registry → List String
tags repository [] = []
tags repository (e ∷ es) =
    if e.repository == repository then e.tag ∷ tags repository es else tags repository es

abbrev pub same_key : String → String → String → String → Bool
same_key r t r' t' = r == r' && t == t'

pub get-put :
    (r t r' t' : String) (s : StoredRecord) (reg : Registry)
    → get r' t' (put r t s reg) ≡ (if same_key r t r' t' then some s else get r' t' reg)
unfolding get put is_at
get-put r t r' t' s [] = refl
get-put r t r' t' s (e ∷ es) = ground (
  arith,
  get-put r t r' t' s es,
  eq_iff e.repository r,
  eq_iff e.tag t,
  eq_iff e.repository r',
  eq_iff e.tag t',
  eq_iff r r',
  eq_iff t t',
)

pub get-put_self :
    (r t : String) (s : StoredRecord) (reg : Registry) → get r t (put r t s reg) ≡ some s
get-put_self r t s reg = get-put r t r t s reg ∙ ground (arith, eq_refl r, eq_refl t)

pub get-put_ne :
    (r t r' t' : String) (s : StoredRecord) (reg : Registry)
    → same_key r t r' t' ≡ false
    → get r' t' (put r t s reg) ≡ get r' t' reg
get-put_ne r t r' t' s reg h = get-put r t r' t' s reg ∙ (rw h)

pub same_key-eq : (r t r' t' : String) → same_key r t r' t' ≡ true → (r ≡ r') × (t ≡ t')
same_key-eq r t r' t' h = ground (arith, eq_iff r r', eq_iff t t')
