-- ===== src/Artifacts/Offered.antt =====
-- internal/artifacts/versions.go: which versions are offered, and in which order.
use image_factory.Prelude.{
  ℕ, ◌+◌, String, ◌≡◌, refl, sym, ap, ◌∙◌, subst, ◌↔◌, ◌⊎◌, inl, inr, Bool, true, false, not, ◌&&◌,
  ◌||◌, Option, none, some, some-injective, List, [], ◌∷◌, arith, eq_iff, nat_eq, ◌==◌,
  if◌then◌else◌, nat_eq_iff, Bool-cases, all, any, is_empty, All, ok,
}
use image_factory.Artifacts.{
  filter, count, parse_candidates, max_from, max_func, sort_in, sort_func, allows_parts, allows_pre,
  is_offered, select_offered, fetch_talos_versions, PreRelease, Semver, IsOrder, Fetched, listed,
  failed, panicked,
}

module _ {A : Type 0} where
  count-filter : (p q : A → Bool) (xs : List A) → count p (filter q xs) ≡ count (λ x. p x && q x) xs
  count-filter p q [] = refl
  count-filter p q (x ∷ xs) = ground (arith, count-filter p q xs)

  count-same : (p q : A → Bool) (xs : List A) → ((x : A) → p x ≡ q x) → count p xs ≡ count q xs
  count-same p q [] h = refl
  count-same p q (x ∷ xs) h = ground (arith, h x, count-same p q xs h)

  pub All-filter {κ} :
      {P : A → Type κ} (q : A → Bool) (xs : List A)
      → ((x : A) → q x ≡ true → P x)
      → All P (filter q xs)
  All-filter q [] h = tt
  All-filter {P} q (x ∷ xs) h = elim (Bool-cases (q x)) [
    | inl kept ↦ rw kept (h x kept, All-filter {P = P} q xs h)
    | inr dropped ↦ rw dropped (All-filter {P = P} q xs h)
  ]

module _ {V : Type 0} (semver : Semver V) (order : IsOrder semver) where
  -- Nothing that comes later is older.
  abbrev pub IsSorted : List V → Type 0
  IsSorted [] = Unit
  IsSorted (v ∷ vs) = All (λ w. semver.lt w v ≡ false) vs × IsSorted vs

  count-sort_in :
      (p : V → Bool) (v : V) (ws : List V) → count p (sort_in semver v ws) ≡ count p (v ∷ ws)
  count-sort_in p v [] = refl
  count-sort_in p v (w ∷ ws) = ground (arith, count-sort_in p v ws)

  count-sort_func : (p : V → Bool) (vs : List V) → count p (sort_func semver vs) ≡ count p vs
  unfolding sort_func
  count-sort_func p [] = refl
  count-sort_func p (v ∷ vs) =
      count-sort_in p v (sort_func semver vs)
      ∙ ap (λ (n : ℕ). (if p v then 1 else 0) + n) (count-sort_func p vs)

  All-sort_in :
      (P : V → Type 0) (v : V) (ws : List V) → P v → All P ws → All P (sort_in semver v ws)
  All-sort_in P v [] pv h = (pv, tt)
  All-sort_in P v (w ∷ ws) pv (pw, h) = elim (Bool-cases (semver.lt w v)) [
    | inl behind ↦ rw behind (pw, All-sort_in P v ws pv h)
    | inr before ↦ rw before (pv, (pw, h))
  ]

  All-sort_func : (P : V → Type 0) (vs : List V) → All P vs → All P (sort_func semver vs)
  unfolding sort_func
  All-sort_func P [] h = tt
  All-sort_func P (v ∷ vs) (pv, h) = All-sort_in P v (sort_func semver vs) pv (All-sort_func P vs h)

  not_older_trans :
      (v w : V) (us : List V)
      → semver.lt w v ≡ false
      → All (λ u. semver.lt u w ≡ false) us
      → All (λ u. semver.lt u v ≡ false) us
  not_older_trans v w [] h all_w = tt
  not_older_trans v w (u ∷ us) h (k, all_w) =
      (order.ge_trans u w v k h, not_older_trans v w us h all_w)

  lt_asym : (v w : V) → semver.lt w v ≡ true → semver.lt v w ≡ false
  lt_asym v w h = ground (arith, order.lt_trans w v w, order.lt_irrefl w)

  sort_in-IsSorted : (v : V) (ws : List V) → IsSorted ws → IsSorted (sort_in semver v ws)
  sort_in-IsSorted v [] h = (tt, tt)
  sort_in-IsSorted v (w ∷ ws) (all_w, h) = elim (Bool-cases (semver.lt w v)) [
    | inl behind ↦ rw behind (
      All-sort_in (λ u. semver.lt u w ≡ false) v ws (lt_asym v w behind) all_w,
      sort_in-IsSorted v ws h,
    )
    | inr before ↦ rw before ((before, not_older_trans v w ws before all_w), (all_w, h))
  ]

  sort_func-IsSorted : (vs : List V) → IsSorted (sort_func semver vs)
  unfolding sort_func
  sort_func-IsSorted [] = tt
  sort_func-IsSorted (v ∷ vs) = sort_in-IsSorted v (sort_func semver vs) (sort_func-IsSorted vs)

  max_from-best : (best : V) (vs : List V) → semver.lt (max_from semver best vs) best ≡ false
  unfolding max_from
  max_from-best best [] = order.lt_irrefl best
  max_from-best best (v ∷ vs) = elim (Bool-cases (semver.lt best v)) [
    | inl newer ↦
        rw newer
          (order.ge_trans (max_from semver v vs) v best (max_from-best v vs) (lt_asym v best newer))
    | inr older ↦ rw older (max_from-best best vs)
  ]

  max_from-All :
      (best : V) (vs : List V) → All (λ v. semver.lt (max_from semver best vs) v ≡ false) vs
  unfolding max_from
  max_from-All best [] = tt
  max_from-All best (v ∷ vs) = elim (Bool-cases (semver.lt best v)) [
    | inl newer ↦
        let same : max_from semver best (v ∷ vs) ≡ max_from semver v vs = rw newer refl in
        subst (λ m. All (λ w. semver.lt m w ≡ false) (v ∷ vs)) (sym same)
          (max_from-best v vs, max_from-All v vs)
    | inr older ↦
        let same : max_from semver best (v ∷ vs) ≡ max_from semver best vs = rw older refl in
        subst (λ m. All (λ w. semver.lt m w ≡ false) (v ∷ vs)) (sym same)
          (
            order.ge_trans (max_from semver best vs) best v (max_from-best best vs) older,
            max_from-All best vs,
          )
  ]

  max_func-All :
      (vs : List V) {max : V}
      → max_func semver vs ≡ some max
      → All (λ v. semver.lt max v ≡ false) vs
  unfolding max_func
  max_func-All [] h = cc
  max_func-All (v ∷ vs) {max} h =
      subst (λ m. All (λ w. semver.lt m w ≡ false) (v ∷ vs)) (some-injective _ _ h)
        (max_from-best v vs, max_from-All v vs)

  -- The tests that an offered version passes, beside the newest one of the candidates.
  abbrev pub IsAllowed : List PreRelease → Type 0
  IsAllowed parts =
      (kind : PreRelease) × (number : PreRelease) × (parts ≡ kind ∷ number ∷ [])
      × ((kind.text ≡ "alpha") ⊎ ((kind.text ≡ "beta") ⊎ (kind.text ≡ "rc")))
      × (number.is_numeric ≡ true)

  pub record IsOffered (min : V) (broken : List V) (max v : V) : Type 0 where
    pub recent : semver.lt v min ≡ false
    pub sound : All (λ b. semver.eq v b ≡ false) broken
    pub released :
        (semver.pre v ≡ [])
        ⊎ ((semver.major v ≡ semver.major max)
            × (semver.minor v ≡ semver.minor max)
            × IsAllowed (semver.pre v))

  -- The same tests by Boolean ones.
  abbrev pub passes : List PreRelease → Bool
  passes (kind ∷ number ∷ []) =
      number.is_numeric && (kind.text == "rc" || kind.text == "beta" || kind.text == "alpha")
  passes _ = false

  abbrev pub offers : V → List V → V → V → Bool
  offers min broken max v =
      not (semver.lt v min)
      && all (λ b. not (semver.eq v b)) broken
      && (is_empty (semver.pre v)
          || (passes (semver.pre v)
              && nat_eq (semver.minor v) (semver.minor max)
              && nat_eq (semver.major v) (semver.major max)))

  all-not : (q : V → Bool) (vs : List V) → all (λ b. not (q b)) vs ≡ not (any q vs)
  all-not q [] = refl
  all-not q (v ∷ vs) = ground (arith, all-not q vs)

  passes-allows : (parts : List PreRelease) → allows_parts semver parts ≡ passes parts
  unfolding allows_parts
  passes-allows [] = refl
  passes-allows (a ∷ []) = refl
  passes-allows (a ∷ b ∷ []) = ground arith
  passes-allows (a ∷ b ∷ c ∷ rest) = refl

  offers-is_offered :
      (min : V) (broken : List V) (max v : V)
      → is_offered semver min broken max v ≡ offers min broken max v
  unfolding is_offered allows_pre
  offers-is_offered min broken max v =
      ground (arith, all-not (semver.eq v) broken, passes-allows (semver.pre v))

  all-All :
      (q : V → Bool) (vs : List V) → all (λ b. not (q b)) vs ≡ true → All (λ b. q b ≡ false) vs
  all-All q [] h = tt
  all-All q (v ∷ vs) h = (ground arith, all-All q vs (ground arith))

  passes-IsAllowed : (parts : List PreRelease) → passes parts ≡ true → IsAllowed parts
  passes-IsAllowed [] h = cc
  passes-IsAllowed (a ∷ []) h = cc
  passes-IsAllowed (a ∷ b ∷ []) h = (
    a,
    b,
    refl,
    ground (arith, h, eq_iff a.text "alpha", eq_iff a.text "beta", eq_iff a.text "rc"),
    ground (arith, h),
  )
  passes-IsAllowed (a ∷ b ∷ c ∷ rest) h = cc

  is_empty-nil : (parts : List PreRelease) → is_empty parts ≡ true → parts ≡ []
  is_empty-nil [] h = refl
  is_empty-nil (a ∷ parts) h = cc

  offers-IsOffered :
      (min : V) (broken : List V) (max v : V)
      → offers min broken max v ≡ true
      → IsOffered min broken max v
  offers-IsOffered min broken max v h = record {
    recent = ground (arith, h);
    sound = all-All (semver.eq v) broken (ground (arith, h));
    released = elim (Bool-cases (is_empty (semver.pre v))) [
      | inl stable ↦ inl (is_empty-nil (semver.pre v) stable)
      | inr pre_release ↦ inr (
        (nat_eq_iff (semver.major v) (semver.major max)).0 (ground (arith, h, pre_release)),
        (nat_eq_iff (semver.minor v) (semver.minor max)).0 (ground (arith, h, pre_release)),
        passes-IsAllowed (semver.pre v) (ground (arith, h, pre_release)),
      )
    ];
  }

  -- What a successful fetch lists, for the newest version `max` of the candidates: it is in order,
  -- it has offered versions only, and of those that parse each one as often as it stands there.
  abbrev pub Lists : V → List V → List V → V → List V → Type 0
  Lists min broken versions max out =
      All (λ v. semver.lt max v ≡ false) versions
      × IsSorted out
      × All (IsOffered min broken max) out
      × ((p : V → Bool) → count p out ≡ count (λ v. p v && offers min broken max v) versions)

  listed_or : {E : Type 0} → List V → Fetched semver E → List V
  listed_or d (listed vs) = vs
  listed_or d (failed e) = d
  listed_or d panicked = d

  select_offered-Lists :
      {E : Type 0} (min : V) (broken versions : List V) (newest : Option V) {out : List V}
      → max_func semver versions ≡ newest
      → ◌≡◌ {A = Fetched semver E} (select_offered semver min broken versions newest) (listed out)
      → (max : V) × (newest ≡ some max) × Lists min broken versions max out
  unfolding listed_or
  select_offered-Lists min broken versions none e h = cc
  select_offered-Lists {E} min broken versions (some max) {out} e h =
      let offered = filter (is_offered semver min broken max) versions in
      let same : sort_func semver offered ≡ out = ap (listed_or {E = E} []) h in
      (
        max,
        refl,
        (
          max_func-All versions e,
          subst IsSorted same (sort_func-IsSorted offered),
          subst (All (IsOffered min broken max)) same (
              All-sort_func (IsOffered min broken max) offered (
                All-filter {P = IsOffered min broken max} (is_offered semver min broken max)
                  versions
                  (λ v kept.
                    offers-IsOffered min broken max v
                      (sym (offers-is_offered min broken max v) ∙ kept)))),
          λ p.
              subst (λ vs. count p vs ≡ count (λ v. p v && offers min broken max v) versions) same
                (count-sort_func p offered
                  ∙ count-filter p (is_offered semver min broken max) versions
                  ∙ count-same (λ v. p v && is_offered semver min broken max v)
                      (λ v. p v && offers min broken max v) versions
                      (λ v. ap (λ b. p v && b) (offers-is_offered min broken max v))),
        ),
      )

  -- A fetch that lists versions lists in order those of the parsed candidates that are no older than
  -- the minimum, not broken, and stable or an alpha, beta or release candidate with a number, of the
  -- major and minor version of the newest candidate; and no other.
  pub fetch_talos_versions-Lists :
      {E : Type 0} (min : V) (broken : List V) (candidates : List String) {out : List V}
      → ◌≡◌ {A = Fetched semver E}
          (fetch_talos_versions semver min broken (ok candidates))
          (listed out)
      → (max : V) × (max_func semver (parse_candidates semver candidates) ≡ some max)
        × Lists min broken (parse_candidates semver candidates) max out
  unfolding fetch_talos_versions
  fetch_talos_versions-Lists min broken candidates {out} h =
      select_offered-Lists min broken (parse_candidates semver candidates) _ {out = out} refl h

  -- A fetch whose listing succeeds panics exactly when no candidate parses.
  pub fetch_talos_versions-panicked :
      {E : Type 0} (min : V) (broken : List V) (candidates : List String)
      → (◌≡◌ {A = Fetched semver E}
          (fetch_talos_versions semver min broken (ok candidates))
          panicked)
        ↔ (parse_candidates semver candidates ≡ [])
  unfolding fetch_talos_versions
  fetch_talos_versions-panicked {E} min broken candidates =
      by_versions (parse_candidates semver candidates)
    where
      by_versions :
          (versions : List V)
          → (◌≡◌ {A = Fetched semver E}
              (select_offered semver min broken versions (max_func semver versions))
              panicked)
            ↔ (versions ≡ [])
      by_versions [] = ((λ h. refl), λ h. refl)
      by_versions (v ∷ vs) = ((λ h. cc), λ h. cc)
