-- ===== src/Artifacts/Fetching/Recent.antt =====
-- internal/artifacts/manager.go: how old a list of versions is.
use image_factory.Prelude.{
  ℕ, ◌+◌, ◌<◌, ◌≡◌, refl, ◌∙◌, subst, ◌⊎◌, inl, inr, Bool, true, false, Option, none, some, List,
  [], ◌∷◌, if◌then◌else◌, ltb→lt, Bool-cases, ok-injective, Result, ok, err,
}
use image_factory.Artifacts.Fetching.{
  is_recent, new_lists, refresh, awaited_list, get_talos_versions, run, Lists, Call,
}

module _ {V E : Type 0} (interval : ℕ) (fetch : ℕ → Result E (List V)) where
  -- The list of the manager is what the fetch at its instant answered.
  abbrev pub IsFetched : List V → Option ℕ → Type 0
  IsFetched versions none = Unit
  IsFetched versions (some t) = fetch t ≡ ok versions

  -- A list that a fetch answered within the interval before a call, or for the call itself.
  pub record IsRecent (call : Call E) (versions : List V) : Type 0 where
    pub instant : ℕ
    pub fetched : fetch instant ≡ ok versions
    pub recent : (call.now < instant + interval) ⊎ (instant ≡ call.finished)

  refresh-IsFetched :
      (finished : ℕ) (fetched : Result E (List V)) (lists : Lists V)
      → fetch finished ≡ fetched
      → IsFetched lists.talos_versions lists.timestamp
      → IsFetched
          (refresh interval fetch finished fetched lists).talos_versions
          (refresh interval fetch finished fetched lists).timestamp
  unfolding refresh
  refresh-IsFetched finished (ok versions) lists p h = p
  refresh-IsFetched finished (err e) lists p h = h

  get_talos_versions-IsFetched :
      (call : Call E) (lists : Lists V)
      → IsFetched lists.talos_versions lists.timestamp
      → IsFetched
          (get_talos_versions interval fetch call lists).0.talos_versions
          (get_talos_versions interval fetch call lists).0.timestamp
  unfolding get_talos_versions
  get_talos_versions-IsFetched call lists h =
      elim (Bool-cases (is_recent interval call.now lists.timestamp)) [
        | inl recent ↦ rw recent h
        | inr stale ↦ rw stale (refresh-IsFetched call.finished (fetch call.finished) lists refl h)
      ]

  pub run-IsFetched :
      (calls : List (Call E)) (lists : Lists V)
      → IsFetched lists.talos_versions lists.timestamp
      → IsFetched
          (run interval fetch calls lists).talos_versions
          (run interval fetch calls lists).timestamp
  unfolding run
  run-IsFetched [] lists h = h
  run-IsFetched (call ∷ calls) lists h =
      run-IsFetched calls _ (get_talos_versions-IsFetched call lists h)

  kept-IsRecent :
      (call : Call E) (versions : List V) (timestamp : Option ℕ)
      → is_recent interval call.now timestamp ≡ true
      → IsFetched versions timestamp
      → IsRecent call versions
  unfolding is_recent
  kept-IsRecent call versions none recent h = cc
  kept-IsRecent call versions (some t) recent h = record {
    instant = t;
    fetched = h;
    recent = inl (ltb→lt _ _ recent);
  }

  awaited-IsRecent :
      (call : Call E) (ended : Option E) (fetched : Result E (List V)) (lists : Lists V)
      {versions : List V}
      → fetch call.finished ≡ fetched
      → awaited_list interval fetch ended fetched
          (refresh interval fetch call.finished fetched lists)
        ≡ ok versions
      → IsRecent call versions
  unfolding refresh
  awaited-IsRecent call (some e) fetched lists p h = cc
  awaited-IsRecent call none (err e) lists p h = cc
  awaited-IsRecent call none (ok versions) lists p h = record {
    instant = call.finished;
    fetched = p ∙ h;
    recent = inr refl;
  }

  branch-IsRecent :
      (call : Call E) (lists : Lists V) (b : Bool) {versions : List V}
      → IsFetched lists.talos_versions lists.timestamp
      → is_recent interval call.now lists.timestamp ≡ b
      → (if b
          then ok lists.talos_versions
          else awaited_list interval fetch call.ended
              (fetch call.finished)
              (refresh interval fetch call.finished (fetch call.finished) lists))
        ≡ ok versions
      → IsRecent call versions
  branch-IsRecent call lists true fresh recent h =
      subst (IsRecent call) (ok-injective h)
        (kept-IsRecent call lists.talos_versions lists.timestamp recent fresh)
  branch-IsRecent call lists false fresh stale h =
      awaited-IsRecent call call.ended (fetch call.finished) lists refl h

  pub listed-IsRecent :
      (call : Call E) (lists : Lists V) {versions : List V}
      → IsFetched lists.talos_versions lists.timestamp
      → (get_talos_versions interval fetch call lists).1 ≡ ok versions
      → IsRecent call versions
  unfolding get_talos_versions
  listed-IsRecent call lists fresh h =
      elim (Bool-cases (is_recent interval call.now lists.timestamp)) [
        | inl recent ↦ branch-IsRecent call lists true fresh recent cc
        | inr stale ↦ branch-IsRecent call lists false fresh stale cc
      ]

  -- A manager answers with a list of versions that was fetched within the interval before the call,
  -- or for the call itself, after any calls before it.
  pub get_talos_versions-IsRecent :
      (calls : List (Call E)) (call : Call E) {versions : List V}
      → (get_talos_versions interval fetch call
          (run interval fetch calls (new_lists interval fetch))).1
        ≡ ok versions
      → IsRecent call versions
  get_talos_versions-IsRecent calls call h =
      listed-IsRecent call (run interval fetch calls (new_lists interval fetch))
        (run-IsFetched calls (new_lists interval fetch) tt) h
