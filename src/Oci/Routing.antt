-- ===== src/Oci/Routing.antt =====
-- What the router recognises.
use Prim.Native.Char.{code}
use text.Mathlib.TextLemmas.{nil-append, cons-append, append_assoc, cons-ne-nil}
use image_factory.Strings.Trimming.{append-ne-nil, trim-append, trim-cons}
use image_factory.Prelude.{
  String, ◌≡◌, refl, sym, ap, ◌∙◌, ◌≢◌, ◌⊎◌, inl, inr, Bool, true, ◌||◌, some, List, [], ◌∷◌, arith,
  ◌==◌, ◌⧺◌, nat_eq_of_ne, test_of_ne, All,
}
use image_factory.Strings.{split, trim}
use image_factory.Strings.Cutting.{Lacks}
use image_factory.Oci.{
  target_of, schematic_route, repo_route, split_tail, route_tail, route_trimmed, route_v2, V2Route,
  target_manifest, target_blob, target_referrers,
}

-- The path that a route stands for, without its slashes at the ends.
unfoldable pub segments_of : V2Route → List String
segments_of r = r.image ∷ r.schematic ∷ r.resource ∷ r.reference ∷ []

-- A segment: some text without a slash.
abbrev pub IsSegment : String → Type 0
IsSegment s = (s ≢ "") × Lacks b'/' s

-- A resource of a schematic's image.
abbrev pub is_resource : String → Bool
is_resource resource = resource == "manifests" || resource == "blobs" || resource == "referrers"

split-segment : (s : String) → Lacks b'/' s → split b'/' s ≡ s ∷ []
unfolding split
split-segment String.[] h = refl
split-segment (String.◌∷◌ c s) (h, hs) = rw (nat_eq_of_ne (code c) b'/' h, split-segment s hs)

split-join : (s t : String) → Lacks b'/' s → split b'/' (s ⧺ "/" ⧺ t) ≡ s ∷ split b'/' t
unfolding split
split-join String.[] t h = rw (nil-append ("/" ⧺ t), cons-append, nil-append)
split-join (String.◌∷◌ c s) t (h, hs) =
    rw (cons-append c s ("/" ⧺ t), nat_eq_of_ne (code c) b'/' h) (rw (split-join s t hs))

-- The path of a schematic's image.
abbrev pub path_of : V2Route → String
path_of r = r.image ⧺ "/" ⧺ r.schematic ⧺ "/" ⧺ r.resource ⧺ "/" ⧺ r.reference

split-path_of :
    (r : V2Route) → All IsSegment (segments_of r) → split b'/' (path_of r) ≡ segments_of r
unfolding segments_of
split-path_of r (i, (s, (o, (f, u)))) =
    split-join r.image _ i.1
    ∙ ap (λ l. r.image ∷ l) (split-join r.schematic _ s.1)
    ∙ ap (λ l. r.image ∷ r.schematic ∷ l) (split-join r.resource _ o.1)
    ∙ ap (λ l. r.image ∷ r.schematic ∷ r.resource ∷ l) (split-segment r.reference f.1)

trim-path_of : (r : V2Route) → All IsSegment (segments_of r) → trim b'/' (path_of r) ≡ path_of r
unfolding segments_of
trim-path_of r (i, (s, (o, (f, u)))) =
    let middle : String = "/" ⧺ r.schematic ⧺ "/" ⧺ r.resource ⧺ "/" in
    let apart : path_of r ≡ r.image ⧺ middle ⧺ r.reference = simp append_assoc in
    ap (trim b'/') apart ∙ trim-append b'/' r.image middle r.reference i.1 i.0 f.1 f.0 ∙ sym apart

trim-slash : (s : String) → trim b'/' ("/" ⧺ s) ≡ trim b'/' s
trim-slash s =
    ap (trim b'/') (cons-append "/" "" s ∙ ap (λ t. String.◌∷◌ "/" t) (nil-append s))
    ∙ trim-cons "/" s

schematic_route-target :
    (r : V2Route)
    → is_resource r.resource ≡ true
    → r.target ≡ target_of r.resource
    → schematic_route (r.image ∷ r.schematic ∷ []) r.resource r.reference ≡ some r
unfolding schematic_route
schematic_route-target r known target = ground (arith, known, target)

-- A resource of a schematic's image, with what answers it.
abbrev pub IsTarget : V2Route → Type 0
IsTarget r =
    ((r.resource ≡ "manifests") × (r.target ≡ target_manifest))
    ⊎ (((r.resource ≡ "blobs") × (r.target ≡ target_blob))
        ⊎ ((r.resource ≡ "referrers") × (r.target ≡ target_referrers)))

target_of-IsTarget :
    (r : V2Route) → IsTarget r → (is_resource r.resource ≡ true) × (r.target ≡ target_of r.resource)
unfolding target_of
target_of-IsTarget r (inl (resource, target)) = (rw resource refl, rw resource target)
target_of-IsTarget r (inr (inl (resource, target))) = (rw resource refl, rw resource target)
target_of-IsTarget r (inr (inr (resource, target))) = (rw resource refl, rw resource target)

-- The path of a schematic's image, `/<image>/<schematic>/<resource>/<reference>` with four
-- segments that are some text without a slash, an image that is not `siderolabs` and the resource
-- `manifests`, `blobs` or `referrers`, is routed to just these four, with the target for manifests,
-- blobs or referrers.
pub route_v2-path_of :
    (r : V2Route)
    → All IsSegment (segments_of r)
    → r.image ≢ "siderolabs"
    → IsTarget r
    → route_v2 ("/" ⧺ path_of r) ≡ some r
unfolding route_v2 route_trimmed split_tail repo_route segments_of
route_v2-path_of r segments other kind =
    let (known, target) = target_of-IsTarget r kind in
    let (i, (s, (o, (f, u)))) = segments in
    let text : path_of r ≢ "" =
      append-ne-nil r.image _ (λ e. cons-ne-nil "/" _ (sym (cons-append "/" "" _) ∙ e)) in
    ap route_trimmed (trim-slash (path_of r) ∙ trim-path_of r segments)
    ∙ rw (test_of_ne text) (
        ap (λ l. route_tail (split_tail l)) (split-path_of r segments)
        ∙ rw (test_of_ne f.0, test_of_ne other) (schematic_route-target r known target))
