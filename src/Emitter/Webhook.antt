-- ===== src/Emitter/Webhook.antt =====
-- emitter/webhook.py: delivery with retries, and the fan-out. What the transport answers is the
-- environment's: `post url position attempt` for an attempt at the subscriber in that position.
pub mod Delivery
use ai_quantum.Common.{ℕ, zero, suc, ◌+◌, Bool, true, false, List, [], ◌∷◌}
use ai_quantum.Common.Text.{Text}
use ai_quantum.Common.Eq.{text_eq_instance}
use ai_quantum.Common.Dict.{put}

-- The awaited poster: truthy, falsy, or an exception (a timeout, a connection error).
pub data Post : Type 0 where
  truthy falsy raises : Post

-- The attempts from number `k` on: whether one succeeded, and how many were made.
unfoldable pub deliver_from : ℕ → ℕ → (ℕ → Post) → Bool × ℕ
deliver_from zero k post = (false, k)
deliver_from (suc left) k post = elim (post k) [
  | truthy ↦ (true, k + 1)
  | falsy ↦ deliver_from left (k + 1) post
  | raises ↦ deliver_from left (k + 1) post
]

-- `_deliver`.
unfoldable pub deliver : ℕ → (ℕ → Post) → Bool × ℕ
unfolding deliver_from
deliver retries post = deliver_from (retries + 1) 0 post

-- The deliveries do not wait for one another; the result is `dict(zip(subscribers, outcomes))`.
unfoldable pub emit_from :
    (Text → ℕ → ℕ → Post) → ℕ → ℕ → List (Text × Bool) → List Text → List (Text × Bool)
unfolding deliver
emit_from post retries i results [] = results
emit_from post retries i results (url ∷ urls) =
    emit_from post retries (i + 1) (put url (deliver retries (post url i)).0 results) urls

unfoldable pub emit : (Text → ℕ → ℕ → Post) → ℕ → List Text → List (Text × Bool)
unfolding emit_from
emit post retries subscribers = emit_from post retries 0 [] subscribers
