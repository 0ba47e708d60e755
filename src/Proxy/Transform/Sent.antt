-- ===== src/Proxy/Transform/Sent.antt =====
-- The bytes that go to the backend (src/proxy/pipeline/transform.rs): those of the rewritten body, or
-- the client's own if nothing was rewritten.
use anycode.Base.{ℕ, ◌≡◌, true, Option, none, some, Bytes, is_some}
use anycode.Proxy.Json.{Json}
use anycode.Proxy.Edit.{JsonEdit}
use anycode.Proxy.Transform.Reasons.{Consistent}

module _ {V : Type 0} {json : Json V} (edit : JsonEdit json) where
  -- The bytes that are sent for a body: its own; the client's if it cannot be printed; or the client's
  -- if nothing was rewritten, which leaves model and thinking as they are, removes no block, and keeps
  -- a member `thinking`.
  pub data Sent (to_vec : V → Option Bytes) (client : Bytes) (received ready filtered sent : V)
      (removed : ℕ) : Bytes → Type 0 where
    printed :
        {bytes : Bytes}
        → to_vec sent ≡ some bytes
        → Sent to_vec client received ready filtered sent removed bytes
    unprinted : to_vec sent ≡ none → Sent to_vec client received ready filtered sent removed client
    unchanged :
        ready ≡ received
        → removed ≡ 0
        → Consistent edit filtered removed
        → sent ≡ filtered
        → is_some (json.get sent "thinking") ≡ true
        → Sent to_vec client received ready filtered sent removed client
