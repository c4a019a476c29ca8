-- ===== src/Transport/Errors/Replies.antt =====
-- What the responses to errors say, and what they keep to themselves.
use Prim.Native.String.{len}
use text.Mathlib.TextPositions.{len-append}
use text.Mathlib.TextLemmas.{nil-append}
use image_factory.Prelude.{
  ℕ, String, ◌≡◌, refl, sym, ap, ◌∙◌, subst, ◌≢◌, inl, inr, Bool, true, false, ◌||◌, some, arith,
  eq_iff, ◌==◌, ◌⧺◌, if◌then◌else◌, Bool-cases, ne_of_test, test_of_ne, any,
}
use image_factory.Transport.Route.{protocol_browser_auth}
use image_factory.Transport.Errors.{
  not_found_tags, bad_request_tags, classify_error, challenge, with_challenge, head_error,
  http_error, render_error, ErrorClassification, Writer, Tag, enterprise_not_enabled,
  proxy_unavailable, method_not_allowed,
}

module _ {Err : Type 0} (text_of : Err → String) (tag_is : Err → Tag → Bool)
    (is_canceled : Err → Bool) where
  -- The tags of an error whose text the client may read.
  unfoldable pub is_public_tagged : Err → Bool
  is_public_tagged e =
      tag_is e enterprise_not_enabled
      || tag_is e proxy_unavailable
      || any (tag_is e) not_found_tags
      || tag_is e method_not_allowed
      || any (tag_is e) bad_request_tags

  -- The text of an error that carries none of the public tags has no part in its classification:
  -- `ClassifyError` gives the same for any two errors with these tags and another text.
  pub classify_error-keeps :
      (other_text : Err → String) (e : Err)
      → is_public_tagged e ≡ false
      → classify_error text_of tag_is is_canceled (some e)
        ≡ classify_error other_text tag_is is_canceled (some e)
  unfolding classify_error is_public_tagged
  classify_error-keeps other_text e h = ground arith

-- What a rendered error is written by.
render_error-by :
    (method : String) (protocol : ℕ) (c : ErrorClassification) (w : Writer)
    → c.is_rendered ≡ true
    → render_error method protocol c w ≡ (
        if method == "HEAD"
        then head_error c (with_challenge c protocol w)
        else http_error c (with_challenge c protocol w))
unfolding render_error
render_error-by method protocol c w shown = ground arith

with_challenge-body :
    (c : ErrorClassification) (protocol : ℕ) (w : Writer)
    → (with_challenge c protocol w).body ≡ w.body
unfolding with_challenge
with_challenge-body c protocol w = ground arith

with_challenge-set :
    (c : ErrorClassification) (protocol : ℕ) (w : Writer)
    → c.status ≡ 401
    → protocol ≢ protocol_browser_auth
    → ((with_challenge c protocol w).www_authenticate ≢ "")
      × (w.www_authenticate ≢ ""
          → (with_challenge c protocol w).www_authenticate ≡ w.www_authenticate)
unfolding with_challenge
with_challenge-set c protocol w status browser = elim (Bool-cases (w.www_authenticate == "")) [
  | inl unset ↦
      let becomes : (with_challenge c protocol w).www_authenticate ≡ challenge =
        ground (arith, unset) in
      let was : w.www_authenticate ≡ "" = (eq_iff w.www_authenticate "").0 unset in
      ((λ e. ne_of_test refl (sym becomes ∙ e)), λ set. absurd (set was))
  | inr set ↦ ground (arith, eq_iff w.www_authenticate "")
]

-- Either way of writing keeps the challenge.
render_error-www :
    (method : String) (protocol : ℕ) (c : ErrorClassification) (w : Writer)
    → c.is_rendered ≡ true
    → (render_error method protocol c w).www_authenticate
      ≡ (with_challenge c protocol w).www_authenticate
unfolding head_error http_error
render_error-www method protocol c w shown =
    ap (λ x. x.www_authenticate) (render_error-by method protocol c w shown)
    ∙ elim (method == "HEAD")
        as (λ b.
          (if b
            then head_error c (with_challenge c protocol w)
            else http_error c (with_challenge c protocol w)).www_authenticate
          ≡ (with_challenge c protocol w).www_authenticate) [ true ↦ refl | false ↦ refl ]

-- A reply of status 401 that `RenderError` writes names a challenge, whatever the method, unless
-- the route belongs to the browser's login; a challenge that the handler has set is kept.
pub render_error-challenge :
    (method : String) (protocol : ℕ) (c : ErrorClassification) (w : Writer)
    → c.is_rendered ≡ true
    → c.status ≡ 401
    → protocol ≢ protocol_browser_auth
    → ((render_error method protocol c w).www_authenticate ≢ "")
      × (w.www_authenticate ≢ ""
          → (render_error method protocol c w).www_authenticate ≡ w.www_authenticate)
render_error-challenge method protocol c w shown status browser =
    subst (λ s. (s ≢ "") × (w.www_authenticate ≢ "" → s ≡ w.www_authenticate))
      (sym (render_error-www method protocol c w shown))
      (with_challenge-set c protocol w status browser)

-- On a writer without a body, HEAD and any other method are answered with the same status and
-- headers; HEAD leaves the body empty, and its Content-Length is the number of bytes of the body
-- that the other method is sent.
pub render_error-head :
    (method : String) (protocol : ℕ) (c : ErrorClassification) (w : Writer)
    → c.is_rendered ≡ true
    → method ≢ "HEAD"
    → w.body ≡ ""
    → ((render_error "HEAD" protocol c w).content_length
        ≡ some (len (render_error method protocol c w).body))
      × ((render_error "HEAD" protocol c w).body ≡ "")
      × ((render_error "HEAD" protocol c w).status ≡ (render_error method protocol c w).status)
      × ((render_error "HEAD" protocol c w).www_authenticate
          ≡ (render_error method protocol c w).www_authenticate)
unfolding head_error http_error
render_error-head method protocol c w shown other fresh =
    let w' = with_challenge c protocol w in
    let empty : w'.body ≡ "" = with_challenge-body c protocol w ∙ fresh in
    let by_head : render_error "HEAD" protocol c w ≡ head_error c w' =
      render_error-by "HEAD" protocol c w shown in
    let by_other : render_error method protocol c w ≡ http_error c w' =
      render_error-by method protocol c w shown ∙ ground (arith, test_of_ne other) in
    subst {A = Writer × Writer}
      (λ (x, y).
        (x.content_length ≡ some (len y.body))
        × (x.body ≡ "")
        × (x.status ≡ y.status)
        × (x.www_authenticate ≡ y.www_authenticate))
      (λ i. (sym by_head i, sym by_other i))
      (
        ap some (
            sym (
              ap len (ap (λ b. b ⧺ c.message ⧺ "\n") empty ∙ nil-append (c.message ⧺ "\n"))
              ∙ len-append c.message "\n")),
        empty,
        refl,
        refl,
      )
