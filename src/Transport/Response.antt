-- ===== src/Transport/Response.antt =====
-- internal/frontend/http/transport/response.go: what is recorded of a response, and the cache policy
-- that is pinned to it.
pub mod Pinned
use image_factory.Prelude.{
  ℕ, String, Bool, not, Option, none, some, List, [], ◌∷◌, leb, nat_eq, ◌==◌, if◌then◌else◌,
}
use image_factory.Strings.{join}

pub record ResponseState : Type 0 where
  pub pinned_cache_control : String
  pub status : ℕ

-- `NewResponseState`
unfoldable pub new_response_state : ResponseState
new_response_state = record { pinned_cache_control = ""; status = 0 }

-- `PinCacheControl`, of the values of the header `Cache-Control`.
unfoldable pub pin_cache_control : List String → ResponseState → ResponseState
pin_cache_control values state = record state { pinned_cache_control = join ", " values }

-- `ApplyCacheControlPin`: the values behind it.
unfoldable pub apply_cache_control_pin : ResponseState → List String → List String
apply_cache_control_pin state values =
    if not (state.pinned_cache_control == "") then state.pinned_cache_control ∷ [] else values

-- A response under way: its state, the values of its header `Cache-Control`, and the status and
-- values that the server has sent; a server sends them with the first final status or body.
pub record Exchange : Type 0 where
  pub state : ResponseState
  pub cache_control : List String
  pub sent : Option (ℕ × List String)

-- `commit`
unfoldable pub commit : ℕ → Exchange → Exchange
unfolding apply_cache_control_pin
commit status x = if not (nat_eq x.state.status 0) then x else record x {
  state = record (x.state) { status = status };
  cache_control = apply_cache_control_pin x.state x.cache_control;
}

-- The writer of the server: `next`.
abbrev pub sent_by : ℕ → Exchange → Option (ℕ × List String) → Option (ℕ × List String)
sent_by status x none = some (status, x.cache_control)
sent_by status x (some reply) = some reply

unfoldable pub send : ℕ → Exchange → Exchange
send status x = record x { sent = sent_by status x x.sent }

-- What a handler does with its response; a body is written by `Write` or `ReadFrom`, whose source may
-- end before its first byte: then the server sends nothing yet.
pub data Action : Type 0 where
  write_header : ℕ → Action
  write_body : Action
  read_from : Bool → Action
  flush : Action
  set_cache_control : List String → Action
  pin : Action

-- The hooks of `ObserveResponse` in front of the server, for which 101 is final, and the calls that they do not see.
unfoldable pub act : Action → Exchange → Exchange
unfolding commit send pin_cache_control
act (write_header status) x =
    if leb 200 status
    then send status (commit status x)
    else if nat_eq status 101
    then send status x
    else x
act write_body x = send 200 (commit 200 x)
act (read_from some_bytes) x = let y = commit 200 x in if some_bytes then send 200 y else y
act flush x = send 200 (commit 200 x)
act (set_cache_control values) x = record x { cache_control = values }
act pin x = record x { state = pin_cache_control x.cache_control x.state }

unfoldable pub act_all : List Action → Exchange → Exchange
unfolding act
act_all [] x = x
act_all (a ∷ actions) x = act_all actions (act a x)
