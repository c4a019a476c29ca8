-- ===== src/Transport/Response/Pinned.antt =====
-- internal/frontend/http/transport/response.go: the recorded status and the pinned cache policy,
-- beside what is sent.
use image_factory.Prelude.{
  ℕ, ◌≤◌, String, ◌≡◌, refl, sym, subst, ◌≢◌, inl, inr, Bool, true, false, not, Option, none, some,
  List, [], ◌∷◌, arith, leb, nat_eq, leb→le, nat_eq_iff, nat_eq_of_ne, Bool-cases, test_of_ne, any,
}
use image_factory.Transport.Response.{
  apply_cache_control_pin, commit, send, act, act_all, ResponseState, Exchange, Action,
  write_header, write_body, read_from, flush, set_cache_control, pin,
}

-- Nothing is recorded and nothing is sent, or the status that is sent is recorded.
abbrev pub IsRecorded : ℕ → Option (ℕ × List String) → Type 0
IsRecorded status none = status ≡ 0
IsRecorded status (some (code, values)) = (status ≡ code) × (200 ≤ status)

-- The policy that has been sent is the pinned one.
abbrev pub IsPinned : String → Option (ℕ × List String) → Type 0
IsPinned policy none = Unit
IsPinned policy (some (code, values)) = values ≡ policy ∷ []

-- What the state does not follow: another pin, a source without bytes, and the status 101.
abbrev pub is_excluded : Action → Bool
is_excluded pin = true
is_excluded (read_from some_bytes) = not some_bytes
is_excluded (write_header status) = nat_eq status 101
is_excluded _ = false

pub record IsObserved (policy : String) (x : Exchange) : Type 0 where
  pub recorded : IsRecorded x.state.status x.sent
  pub policy_kept : x.state.pinned_cache_control ≡ policy
  pub pinned : IsPinned policy x.sent

commit-first :
    (status : ℕ) (x : Exchange)
    → x.state.status ≡ 0
    → commit status x ≡ record x {
      state = record (x.state) { status = status };
      cache_control = apply_cache_control_pin x.state x.cache_control;
    }
unfolding commit
commit-first status x h = ground (arith, nat_eq_iff x.state.status 0)

commit-later : (status : ℕ) (x : Exchange) → x.state.status ≢ 0 → commit status x ≡ x
unfolding commit
commit-later status x h = rw (nat_eq_of_ne x.state.status 0 h) refl

apply-nonempty :
    (policy : String) (state : ResponseState) (values : List String)
    → policy ≢ ""
    → state.pinned_cache_control ≡ policy
    → apply_cache_control_pin state values ≡ policy ∷ []
unfolding apply_cache_control_pin
apply-nonempty policy state values nonempty same = rw (same, test_of_ne nonempty) refl

-- A final status commits once.
final_at :
    (policy : String) (status : ℕ) (x : Exchange) (sent : Option (ℕ × List String))
    → policy ≢ ""
    → 200 ≤ status
    → IsObserved policy (record x { sent = sent })
    → IsObserved policy (send status (commit status (record x { sent = sent })))
unfolding send
final_at policy status x none nonempty final h =
    subst (λ y. IsObserved policy (send status y))
      (sym (commit-first status (record x { sent = none }) h.recorded))
      (record {
        recorded = (refl, final);
        policy_kept = h.policy_kept;
        pinned = apply-nonempty policy x.state x.cache_control nonempty h.policy_kept;
      })
final_at policy status x (some (code, values)) nonempty final h =
    let committed : x.state.status ≢ 0 = λ e. ground (arith, h.recorded.0, h.recorded.1) in
    subst (λ y. IsObserved policy (send status y))
      (sym (commit-later status (record x { sent = some (code, values) }) committed))
      (record { recorded = h.recorded; policy_kept = h.policy_kept; pinned = h.pinned })

final-IsObserved :
    (policy : String) (status : ℕ) (x : Exchange)
    → policy ≢ ""
    → 200 ≤ status
    → IsObserved policy x
    → IsObserved policy (send status (commit status x))
final-IsObserved policy status x nonempty final h = final_at policy status x x.sent nonempty final h

act-IsObserved :
    (policy : String) (a : Action) (x : Exchange)
    → policy ≢ ""
    → is_excluded a ≡ false
    → IsObserved policy x
    → IsObserved policy (act a x)
unfolding act
act-IsObserved policy (write_header status) x nonempty other h =
    elim (Bool-cases (leb 200 status)) [
      | inl final ↦ rw final (final-IsObserved policy status x nonempty (leb→le 200 status final) h)
      | inr informational ↦ rw (informational, other) h
    ]
act-IsObserved policy write_body x nonempty other h =
    final-IsObserved policy 200 x nonempty (omega arith) h
act-IsObserved policy (read_from true) x nonempty other h =
    final-IsObserved policy 200 x nonempty (omega arith) h
act-IsObserved policy (read_from false) x nonempty other h = cc
act-IsObserved policy flush x nonempty other h =
    final-IsObserved policy 200 x nonempty (omega arith) h
act-IsObserved policy (set_cache_control values) x nonempty other h = record {
  recorded = h.recorded;
  policy_kept = h.policy_kept;
  pinned = h.pinned;
}
act-IsObserved policy pin x nonempty other h = cc

-- Whatever a handler does after it has pinned a cache policy, short of pinning another, of answering
-- 101 and of `ReadFrom` a source without bytes, the status that is sent is the recorded one, and the
-- policy that is sent is the pinned one.
pub act_all-IsObserved :
    (policy : String) (actions : List Action) (x : Exchange)
    → policy ≢ ""
    → any is_excluded actions ≡ false
    → IsObserved policy x
    → IsObserved policy (act_all actions x)
unfolding act_all
act_all-IsObserved policy [] x nonempty others h = h
act_all-IsObserved policy (a ∷ actions) x nonempty others h =
    act_all-IsObserved policy actions (act a x) nonempty (ground arith)
      (act-IsObserved policy a x nonempty (ground arith) h)
