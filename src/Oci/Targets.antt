-- ===== src/Oci/Targets.antt =====
-- What the routes stand for that the router returns.
use image_factory.Prelude.{
  String, ◌≡◌, refl, sym, ap, ◌∙◌, subst, ◌≢◌, ◌⊎◌, inl, inr, true, false, Option, none, some, List,
  [], ◌∷◌, ◌++◌, arith, eq_iff, ◌==◌, Bool-cases, ne_of_test,
}
use image_factory.Strings.{split, join, trim}
use image_factory.Oci.{
  is_proxied, proxy_route, target_of, schematic_route, repo_route, split_tail, route_tail,
  route_trimmed, route_v2, V2Route, target_ping, target_proxy,
}
use image_factory.Oci.Routing.{segments_of, is_resource, IsTarget}

abbrev route_or : V2Route → Option V2Route → V2Route
route_or d (some r) = r
route_or d none = d

some-route : {r s : V2Route} → ◌≡◌ {A = Option V2Route} (some r) (some s) → r ≡ s
some-route {r} h = ap (route_or r) h

-- A path of the mirrored images: a manifest or blob, the list of tags, or the referrers.
abbrev pub IsProxied : String → String → Type 0
IsProxied resource reference =
    (resource ≡ "manifests")
    ⊎ ((resource ≡ "blobs")
        ⊎ (((resource ≡ "tags") × (reference ≡ "list")) ⊎ (resource ≡ "referrers")))

is_proxied-IsProxied :
    (resource reference : String)
    → is_proxied resource reference ≡ true
    → IsProxied resource reference
unfolding is_proxied
is_proxied-IsProxied resource reference h = ground (
  arith,
  h,
  eq_iff resource "manifests",
  eq_iff resource "blobs",
  eq_iff resource "tags",
  eq_iff reference "list",
  eq_iff resource "referrers",
)

abbrev head_or : String → List String → String
head_or d [] = d
head_or d (s ∷ ss) = s

-- Below `siderolabs`, by the components of the path.
abbrev pub IsProxy : List String → V2Route → Type 0
IsProxy components r =
    (r.target ≡ target_proxy)
    × (r.image ≢ "")
    × (r.schematic ≡ "")
    × IsProxied r.resource r.reference
    × ((rest : List String) × (r.image ≡ join "/" rest)
        × (components ≡ "siderolabs" ∷ rest ++ r.resource ∷ r.reference ∷ []))

-- A path of a schematic's image.
abbrev pub IsSchematic : List String → V2Route → Type 0
IsSchematic components r = IsTarget r × (r.image ≢ "siderolabs") × (components ≡ segments_of r)

IsTarget-target_of :
    (r : V2Route) → is_resource r.resource ≡ true → r.target ≡ target_of r.resource → IsTarget r
unfolding target_of
IsTarget-target_of r known target = ground (
  arith,
  known,
  target,
  eq_iff r.resource "manifests",
  eq_iff r.resource "blobs",
  eq_iff r.resource "referrers",
)

proxy_route-IsProxy :
    (rest : List String) (resource reference : String) (r : V2Route)
    → proxy_route rest resource reference ≡ some r
    → IsProxy ("siderolabs" ∷ rest ++ resource ∷ reference ∷ []) r × (r.reference ≡ reference)
unfolding proxy_route
proxy_route-IsProxy rest resource reference r h =
    elim (Bool-cases (is_proxied resource reference)) [
      | inr other ↦ cc (rw other at h)
      | inl known ↦ elim (Bool-cases (join "/" rest == "")) [
        | inl unnamed ↦ cc (rw (known, unnamed) at h)
        | inr named ↦
            subst
              (λ t.
                IsProxy ("siderolabs" ∷ rest ++ resource ∷ reference ∷ []) t
                × (t.reference ≡ reference))
              (some-route (rw (known, named) at h))
              (
                (
                  refl,
                  ne_of_test named,
                  refl,
                  is_proxied-IsProxied resource reference known,
                  (rest, refl, refl),
                ),
                refl,
              )
      ]
    ]

schematic_route-IsSchematic :
    (repo : List String) (resource reference : String) (r : V2Route)
    → (head_or "" repo == "siderolabs") ≡ false
    → schematic_route repo resource reference ≡ some r
    → IsSchematic (repo ++ resource ∷ reference ∷ []) r × (r.reference ≡ reference)
unfolding schematic_route segments_of
schematic_route-IsSchematic (image ∷ schematic ∷ []) resource reference r other h =
    elim (Bool-cases (is_resource resource)) [
      | inr strange ↦ ground (arith, h, strange)
      | inl known ↦
          let route : V2Route = record {
            image = image;
            schematic = schematic;
            resource = resource;
            reference = reference;
            target = target_of resource;
          } in
          let same : ◌≡◌ {A = Option V2Route} (some route) (some r) = ground (arith, h, known) in
          subst
            (λ t.
              IsSchematic (image ∷ schematic ∷ resource ∷ reference ∷ []) t
              × (t.reference ≡ reference))
            (some-route same) ((IsTarget-target_of route known refl, ne_of_test other, refl), refl)
    ]
schematic_route-IsSchematic [] resource reference r other h = cc
schematic_route-IsSchematic (a ∷ []) resource reference r other h = cc
schematic_route-IsSchematic (a ∷ b ∷ c ∷ rest) resource reference r other h = cc

repo_route-IsRoute :
    (repo : List String) (resource reference : String) (r : V2Route)
    → repo_route repo resource reference ≡ some r
    → (r.reference ≡ reference)
      × (IsProxy (repo ++ resource ∷ reference ∷ []) r
          ⊎ IsSchematic (repo ++ resource ∷ reference ∷ []) r)
unfolding repo_route
repo_route-IsRoute [] resource reference r h = cc
repo_route-IsRoute (first ∷ rest) resource reference r h =
    elim (Bool-cases (first == "siderolabs")) [
      | inl proxied ↦
          let (is_proxy, same) = proxy_route-IsProxy rest resource reference r (rw proxied at h) in
          (
            same,
            inl (
                subst (λ f. IsProxy (f ∷ rest ++ resource ∷ reference ∷ []) r)
                  (sym ((eq_iff first "siderolabs").0 proxied)) is_proxy),
          )
      | inr other ↦
          let (is_schematic, same) =
            schematic_route-IsSchematic (first ∷ rest) resource reference r other (rw other at h) in
          (same, inr is_schematic)
    ]

abbrev joined : Option (List String × String × String) → List String
joined none = []
joined (some (repo, resource, reference)) = repo ++ resource ∷ reference ∷ []

split_tail-append :
    (components : List String) {repo : List String} {resource reference : String}
    → split_tail components ≡ some (repo, resource, reference)
    → components ≡ repo ++ resource ∷ reference ∷ []
unfolding split_tail
split_tail-append [] h = cc
split_tail-append (a ∷ []) h = cc
split_tail-append (a ∷ b ∷ []) h = cc
split_tail-append (a ∷ b ∷ c ∷ []) h = cc
split_tail-append (a ∷ b ∷ c ∷ d ∷ rest) {repo} {resource} {reference} h =
    by_rest (split_tail (b ∷ c ∷ d ∷ rest)) refl h (λ before x y e.
      split_tail-append (b ∷ c ∷ d ∷ rest) {repo = before} {resource = x} {reference = y} e)
  where
    by_rest :
        (found : Option (List String × String × String))
        → split_tail (b ∷ c ∷ d ∷ rest) ≡ found
        → ◌≡◌ {A = Option (List String × String × String)}
            (elim found as (λ x. Option (List String × String × String)) [
              | none ↦ none
              | some (repo, resource, reference) ↦ some (a ∷ repo, resource, reference)
            ])
            (some (repo, resource, reference))
        → ((before : List String) (x y : String)
            → split_tail (b ∷ c ∷ d ∷ rest) ≡ some (before, x, y)
            → b ∷ c ∷ d ∷ rest ≡ before ++ x ∷ y ∷ [])
        → a ∷ b ∷ c ∷ d ∷ rest ≡ repo ++ resource ∷ reference ∷ []
    by_rest none e k ih = cc
    by_rest (some (before, x, y)) e k ih = ap (λ l. a ∷ l) (ih before x y e) ∙ ap joined k

route_tail-IsRoute :
    (components : List String) (m : Option (List String × String × String)) (r : V2Route)
    → split_tail components ≡ m
    → route_tail m ≡ some r
    → (r.reference ≢ "") × (IsProxy components r ⊎ IsSchematic components r)
route_tail-IsRoute components none r e h = cc
route_tail-IsRoute components (some (repo, resource, reference)) r e h =
    elim (Bool-cases (reference == "")) [
      | inl missing ↦ cc (rw missing at h)
      | inr given ↦
          let (same, kind) = repo_route-IsRoute repo resource reference r (rw given at h) in
          (
            (λ q. ne_of_test given (sym same ∙ q)),
            subst (λ l. IsProxy l r ⊎ IsSchematic l r)
                (sym (
                  split_tail-append components {repo = repo} {resource = resource}
                    {reference = reference} e))
                kind,
          )
    ]

-- A path that is routed to anything but the ping names a reference, and its components are either
-- `siderolabs`, those of a mirrored image, and a manifest, a blob, the list of tags or the referrers;
-- or they are the four of a schematic's image with a manifest, a blob or the referrers, its target
-- is that of its resource, and its image is not named `siderolabs`.
pub route_v2-IsProxy :
    (path : String) (r : V2Route)
    → route_v2 path ≡ some r
    → r.target ≢ target_ping
    → (r.reference ≢ "")
      × (IsProxy (split b'/' (trim b'/' path)) r ⊎ IsSchematic (split b'/' (trim b'/' path)) r)
unfolding route_v2 route_trimmed
route_v2-IsProxy path r h served = elim (Bool-cases (trim b'/' path == "")) [
  | inl bare ↦ absurd (served (ap (λ (s : V2Route). s.target) (sym (some-route (rw bare at h)))))
  | inr named ↦ route_tail-IsRoute (split b'/' (trim b'/' path)) _ r refl (rw named at h)
]
