-- ===== src/Token/Scope/Requests.antt =====
-- Which requests a set of scopes authenticates.
use image_factory.Prelude.{
  String, ◌≡◌, sym, ◌≢◌, inl, inr, true, false, List, [], ◌∷◌, arith, eq_iff, Bool-cases,
  test_of_ne, contains,
}
use image_factory.Strings.{has_prefix}
use image_factory.Strings.Cutting.{code_at, code_at-prefix, code_at-eq}
use image_factory.Token.Scope.{
  Scope, scope_source_pull, scope_token_issue, scope_token_read, scope_token_revoke, registry_ping,
  registry_path, source_path, token_revoke_path, allows_image_read, allows_source_pull,
  allows_schematic_create, allows_schematic_read, allows_report_read, allows_token_issue,
  allows_token_read, allows_token_revoke, scope_routes, lookup, scope_allows, allows, url_safe,
}

-- A path below "/tokens" has a `t` behind its slash, and no other route of the catalog has.
module _ (method path : String) where
  not_tokens : code_at 1 path ≢ b't' → has_prefix path "/tokens" ≡ false
  not_tokens h = ground (arith, code_at-prefix 1 path "/tokens")

  image_read-not_tokens : allows_image_read method path ≡ true → has_prefix path "/tokens" ≡ false
  unfolding allows_image_read registry_path registry_ping
  image_read-not_tokens h = not_tokens λ e. ground (
    arith,
    code_at-eq 1 path "/v2",
    code_at-eq 1 path "/v2/",
    code_at-prefix 1 path "/image/",
    code_at-prefix 1 path "/pxe/",
    code_at-prefix 1 path "/v2/",
  )

  source_pull-not_tokens : allows_source_pull method path ≡ true → has_prefix path "/tokens" ≡ false
  unfolding allows_source_pull source_path registry_ping
  source_pull-not_tokens h = not_tokens λ e. ground (
    arith,
    code_at-eq 1 path "/v2",
    code_at-eq 1 path "/v2/",
    code_at-prefix 1 path "/v2/siderolabs/",
  )

  schematic_create-not_tokens :
      allows_schematic_create method path ≡ true → has_prefix path "/tokens" ≡ false
  unfolding allows_schematic_create
  schematic_create-not_tokens h = not_tokens λ e. ground (arith, code_at-eq 1 path "/schematics")

  schematic_read-not_tokens :
      allows_schematic_read method path ≡ true → has_prefix path "/tokens" ≡ false
  unfolding allows_schematic_read
  schematic_read-not_tokens h = not_tokens λ e. ground (arith, code_at-prefix 1 path "/schematics/")

  report_read-not_tokens : allows_report_read method path ≡ true → has_prefix path "/tokens" ≡ false
  unfolding allows_report_read
  report_read-not_tokens h = not_tokens λ e. ground (
    arith,
    code_at-prefix 1 path "/spdx/",
    code_at-prefix 1 path "/vex/",
    code_at-prefix 1 path "/scans/",
  )

  -- A scope that allows a request is one of the catalog, and its own test passes.
  scope_allows-not_tokens :
      (scope : Scope)
      → scope ≢ scope_token_issue
      → scope ≢ scope_token_read
      → scope ≢ scope_token_revoke
      → scope_allows scope method path ≡ true
      → has_prefix path "/tokens" ≡ false
  unfolding scope_allows scope_routes lookup
  scope_allows-not_tokens scope a b c h = ground (
    arith,
    test_of_ne {s = scope_token_issue} {t = scope} (λ e. a (sym e)),
    test_of_ne {s = scope_token_read} {t = scope} (λ e. b (sym e)),
    test_of_ne {s = scope_token_revoke} {t = scope} (λ e. c (sym e)),
    image_read-not_tokens,
    source_pull-not_tokens,
    schematic_create-not_tokens,
    schematic_read-not_tokens,
    report_read-not_tokens,
  )

  -- A token that may travel in a query string authenticates no request below "/tokens".
  pub allows-url_safe :
      (scopes : List Scope)
      → url_safe scopes ≡ true
      → allows scopes method path ≡ true
      → has_prefix path "/tokens" ≡ false
  unfolding allows url_safe
  allows-url_safe [] safe h = cc
  allows-url_safe (scope ∷ scopes) safe h = elim (Bool-cases (scope_allows scope method path)) [
    | inl here ↦
        scope_allows-not_tokens scope (λ e. ground (arith, (eq_iff scope scope_token_issue).1 e))
          (λ e. ground (arith, (eq_iff scope scope_token_read).1 e))
          (λ e. ground (arith, (eq_iff scope scope_token_revoke).1 e)) here
    | inr later ↦ allows-url_safe scopes (ground arith) (rw later at h)
  ]

-- Only `source:pull` reaches the mirrored sources.
module _ (method path : String) where
  not_source : code_at 1 path ≢ b'v' → source_path path ≡ false
  unfolding source_path
  not_source h = ground (arith, code_at-prefix 1 path "/v2/siderolabs/")

  not_source_report : code_at 2 path ≢ b'2' → source_path path ≡ false
  unfolding source_path
  not_source_report h = ground (arith, code_at-prefix 2 path "/v2/siderolabs/")

  image_read-not_source : allows_image_read method path ≡ true → source_path path ≡ false
  unfolding allows_image_read
  image_read-not_source h =
      ground (arith, not_source, code_at-prefix 1 path "/image/", code_at-prefix 1 path "/pxe/")

  schematics-not_source : has_prefix path "/schematics" ≡ true → source_path path ≡ false
  schematics-not_source h = not_source λ e. ground (arith, code_at-prefix 1 path "/schematics")

  schematic_create-not_source :
      allows_schematic_create method path ≡ true → source_path path ≡ false
  unfolding allows_schematic_create
  schematic_create-not_source h = not_source λ e. ground (arith, code_at-eq 1 path "/schematics")

  schematic_read-not_source : allows_schematic_read method path ≡ true → source_path path ≡ false
  unfolding allows_schematic_read
  schematic_read-not_source h = not_source λ e. ground (arith, code_at-prefix 1 path "/schematics/")

  report_read-not_source : allows_report_read method path ≡ true → source_path path ≡ false
  unfolding allows_report_read
  report_read-not_source h = not_source_report λ e. ground (
    arith,
    code_at-prefix 2 path "/spdx/",
    code_at-prefix 2 path "/vex/",
    code_at-prefix 2 path "/scans/",
  )

  token_issue-not_source : allows_token_issue method path ≡ true → source_path path ≡ false
  unfolding allows_token_issue
  token_issue-not_source h = not_source λ e. ground (arith, code_at-eq 1 path "/tokens")

  token_read-not_source : allows_token_read method path ≡ true → source_path path ≡ false
  unfolding allows_token_read
  token_read-not_source h = not_source λ e. ground (arith, code_at-eq 1 path "/tokens")

  revoke_path-prefix : token_revoke_path path ≡ true → has_prefix path "/tokens/" ≡ true
  unfolding token_revoke_path has_prefix
  revoke_path-prefix h = ground arith

  token_revoke-not_source : allows_token_revoke method path ≡ true → source_path path ≡ false
  unfolding allows_token_revoke
  token_revoke-not_source h =
      not_source λ e. ground (arith, revoke_path-prefix, code_at-prefix 1 path "/tokens/")

  scope_allows-not_source :
      (scope : Scope)
      → scope ≢ scope_source_pull
      → scope_allows scope method path ≡ true
      → source_path path ≡ false
  unfolding scope_allows scope_routes lookup
  scope_allows-not_source scope a h = ground (
    arith,
    test_of_ne {s = scope_source_pull} {t = scope} (λ e. a (sym e)),
    image_read-not_source,
    schematic_create-not_source,
    schematic_read-not_source,
    report_read-not_source,
    token_issue-not_source,
    token_read-not_source,
    token_revoke-not_source,
  )

  -- Without `source:pull`, a set of scopes authenticates no request of the mirrored sources.
  pub allows-not_source :
      (scopes : List Scope)
      → contains scopes scope_source_pull ≡ false
      → allows scopes method path ≡ true
      → source_path path ≡ false
  unfolding allows
  allows-not_source [] lacks h = cc
  allows-not_source (scope ∷ scopes) lacks h = elim (Bool-cases (scope_allows scope method path)) [
    | inl here ↦
        scope_allows-not_source scope (λ e. ground (arith, (eq_iff scope scope_source_pull).1 e))
          here
    | inr later ↦ allows-not_source scopes (ground arith) (rw later at h)
  ]
