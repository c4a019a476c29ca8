-- ===== src/Examples/Scopes.antt =====
-- Runs of internal/apitoken/scope.go, actors.go and the lifetimes.
use image_factory.Prelude.{◌≡◌, refl, false, [], ◌∷◌, pos}
use image_factory.Token.Scope.{scope_image_read, run}
use image_factory.Token.Scope.Requests.{allows-url_safe}
use image_factory.Token.Ttl.{Ttl}
use image_factory.Strings.{has_prefix}

allows-url_safe_example : has_prefix "/image/x" "/tokens" ≡ false
unfolding run
allows-url_safe_example = allows-url_safe "GET" "/image/x" (scope_image_read ∷ []) refl refl

abbrev day_ttl : Ttl
day_ttl = record { default = pos 86400; min = pos 60; max = pos 604800 }
