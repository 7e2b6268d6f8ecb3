-- ===== src/Emitter/Webhook/Delivery.antt =====
-- What a delivery reports, and what the fan-out reports of each subscriber.
use ai_quantum.Common.{
  ℕ, zero, suc, ◌+◌, ◌≤◌, ◌<◌, ◌≡◌, ◌≢◌, refl, ◌∙◌, ap, ◌⊎◌, inl, inr, Bool, true, false, List, [],
  ◌∷◌, ◌++◌, none, some, ◌-◌, arith, length, if◌then◌else◌,
}
use native.Mathlib.Decide.{ℕ_discrete}
use ai_quantum.Common.Text.{Text}
use ai_quantum.Common.Eq.{text_eq_instance, eqb}
use ai_quantum.Common.Dict.{get, get-put, get-put_self}
use ai_quantum.Emitter.Webhook.{Post, truthy, falsy, raises, deliver_from, deliver, emit_from, emit}

-- What the report of a delivery says of the attempts from number `k` on, at most `left` of them:
-- a success at the last attempt made and at none before, or `left` attempts and no success.
abbrev pub Report : (ℕ → Post) → ℕ → ℕ → Bool × ℕ → Type 0
Report post k left (true, n) =
    (k < n)
    × (n ≤ k + left)
    × (post (n - 1) ≡ truthy)
    × ((j : ℕ) → k ≤ j → suc j < n → post j ≢ truthy)
Report post k left (false, n) = (n ≡ k + left) × ((j : ℕ) → k ≤ j → j < n → post j ≢ truthy)

Post-cases : (r : Post) → (r ≡ truthy) ⊎ (r ≢ truthy)
Post-cases truthy = inl refl
Post-cases falsy = inr λ e. cc
Post-cases raises = inr λ e. cc

deliver_from-retry :
    (left k : ℕ) (post : ℕ → Post)
    → post k ≢ truthy
    → deliver_from (suc left) k post ≡ deliver_from left (k + 1) post
unfolding deliver_from
deliver_from-retry left k post h = ground arith

-- One failed attempt in front of a report.
Report-retry :
    (post : ℕ → Post) (k left : ℕ) (r : Bool × ℕ)
    → post k ≢ truthy
    → Report post (k + 1) left r
    → Report post k (suc left) r
Report-retry post k left (true, n) h (a, b, c, d) = (
  omega arith,
  omega arith,
  c,
  λ j p q. elim (ℕ_discrete k j) [ yes e ↦ rw e at h | no ne ↦ d j (omega arith) q ],
)
Report-retry post k left (false, n) h (a, d) = (
  omega arith,
  λ j p q. elim (ℕ_discrete k j) [ yes e ↦ rw e at h | no ne ↦ d j (omega arith) q ],
)

deliver_from-won :
    (left k : ℕ) (post : ℕ → Post)
    → post k ≡ truthy
    → deliver_from (suc left) k post ≡ (true, k + 1)
unfolding deliver_from
deliver_from-won left k post h = ground arith

deliver_from-Report : (left k : ℕ) (post : ℕ → Post) → Report post k left (deliver_from left k post)
unfolding deliver_from
deliver_from-Report zero k post = (omega arith, λ j p q. absurd (omega arith))
deliver_from-Report (suc left) k post = elim (Post-cases (post k)) [
  | inl won ↦ rw (deliver_from-won left k post won) (
    omega arith,
    omega arith,
    rw (let e : k + 1 - 1 ≡ k = omega arith in e) won,
    λ j p q. absurd (omega arith),
  )
  | inr lost ↦ rw (deliver_from-retry left k post lost) (
      Report-retry post k left (deliver_from left (k + 1) post) lost
        (deliver_from-Report left (k + 1) post))
]

-- A delivery makes at most `retries + 1` attempts. It reports success exactly if one of them
-- succeeded, and then stopped at the first that did; an exception counts as a failed attempt.
pub deliver-Report :
    (retries : ℕ) (post : ℕ → Post) → Report post 0 (retries + 1) (deliver retries post)
unfolding deliver
deliver-Report retries post = deliver_from-Report (retries + 1) 0 post

-- No subscriber from position `i` of the list on is `url`.
abbrev pub Absent : Text → List Text → Type 0
Absent url [] = Unit
Absent url (u ∷ us) = (eqb u url ≡ false) × Absent url us

get-emit_from-Absent :
    (post : Text → ℕ → ℕ → Post) (retries i : ℕ) (results : List (Text × Bool)) (urls : List Text)
    (url : Text)
    → Absent url urls
    → get url (emit_from post retries i results urls) ≡ get url results
unfolding emit_from
get-emit_from-Absent post retries i results [] url h = refl
get-emit_from-Absent post retries i results (u ∷ us) url h =
    get-emit_from-Absent post retries (i + 1) _ us url h.1
    ∙ get-put u url (deliver retries (post u i)).0 results
    ∙ ap (λ (b : Bool). if b then some (deliver retries (post u i)).0 else get url results) h.0

get-emit_from :
    (post : Text → ℕ → ℕ → Post) (retries i : ℕ) (results : List (Text × Bool))
    (before after : List Text) (url : Text)
    → Absent url after
    → get url (emit_from post retries i results (before ++ url ∷ after))
      ≡ some (deliver retries (post url (i + length before))).0
unfolding emit_from
get-emit_from post retries i results [] after url h =
    get-emit_from-Absent post retries (i + 1) _ after url h
    ∙ get-put_self url (deliver retries (post url i)).0 results
    ∙ ap (λ (k : ℕ). some (deliver retries (post url k)).0) (omega arith)
get-emit_from post retries i results (u ∷ before) after url h =
    get-emit_from post retries (i + 1) _ before after url h
    ∙ ap (λ (k : ℕ). some (deliver retries (post url k)).0) (omega arith)

-- The fan-out reports for every subscriber what its own delivery did, whatever the deliveries to
-- the others did; where a URL is listed twice the report is that of its last place; and it
-- reports nothing of a URL that is not listed.
pub emit_lem :
    (post : Text → ℕ → ℕ → Post) (retries : ℕ) (before after : List Text) (url other : Text)
    → Absent url after
    → Absent other (before ++ url ∷ after)
    → (get url (emit post retries (before ++ url ∷ after))
        ≡ some (deliver retries (post url (length before))).0)
      × (get other (emit post retries (before ++ url ∷ after)) ≡ none)
unfolding emit get
emit_lem post retries before after url other h k = (
  get-emit_from post retries 0 [] before after url h
      ∙ ap (λ (n : ℕ). some (deliver retries (post url n)).0) (omega arith),
  get-emit_from-Absent post retries 0 [] (before ++ url ∷ after) other k,
)
