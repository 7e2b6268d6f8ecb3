-- ===== src/Ingestion/Streams/Own.antt =====
-- Which headers a stream yields.
use ai_quantum.Common.{
  ℕ, zero, suc, ◌≡◌, refl, ap, sym, List, [], ◌∷◌, Bool-cases, take, Option, Option-cases, none,
  some, if◌then◌else◌, inl, inr, true,
}
use ai_quantum.Common.Text.{Text, codes}
use ai_quantum.Ingestion.Client.{EthereumClient}
use ai_quantum.Ingestion.Streams.{
  Message, Header, header_of, is_own, closed, yielded, next_wanted, is_enough, consume, subscribe,
  unsubscribe, Stream, stream_new_heads,
}

module _ (subscription_id : Text) where
  -- The headers of the subscription's own messages up to the first without its keys.
  abbrev pub own_headers : List Message → List Header
  own_headers [] = []
  own_headers (m ∷ ms) =
      if is_own subscription_id m
      then elim (header_of m.result) [ none ↦ [] | some h ↦ h ∷ own_headers ms ]
      else own_headers ms

  -- All of them, or as many as are wanted; one is always taken.
  abbrev pub as_wanted : Option ℕ → List Header → List Header
  as_wanted none headers = headers
  as_wanted (some zero) headers = take 1 headers
  as_wanted (some (suc n)) headers = take (suc n) headers

  as_wanted-none : (wanted : Option ℕ) → as_wanted wanted [] ≡ []
  as_wanted-none none = refl
  as_wanted-none (some zero) = refl
  as_wanted-none (some (suc n)) = refl

  as_wanted-next :
      (wanted : Option ℕ) (h : Header) (ms : List Message) (headers : List Header)
      → ((more : Option ℕ) → (consume subscription_id more ms).0 ≡ as_wanted more headers)
      → (yielded h (
          if is_enough (next_wanted wanted)
          then ([], closed)
          else consume subscription_id (next_wanted wanted) ms)).0
        ≡ as_wanted wanted (h ∷ headers)
  as_wanted-next none h ms headers ih = ap (λ (hs : List Header). h ∷ hs) (ih none)
  as_wanted-next (some zero) h ms headers ih = refl
  as_wanted-next (some (suc zero)) h ms headers ih = refl
  as_wanted-next (some (suc (suc n))) h ms headers ih =
      ap (λ (hs : List Header). h ∷ hs) (ih (some (suc n)))

  consume-as_wanted :
      (ms : List Message) (wanted : Option ℕ)
      → (consume subscription_id wanted ms).0 ≡ as_wanted wanted (own_headers ms)
  unfolding consume
  consume-as_wanted [] wanted = sym (as_wanted-none wanted)
  consume-as_wanted (m ∷ ms) wanted = elim (Bool-cases (is_own subscription_id m)) [
    | inl own ↦ elim (Option-cases (header_of m.result)) [
      | inl missing ↦ rw (own, missing) (sym (as_wanted-none wanted))
      | inr (h, found) ↦
          rw (own, found)
            (as_wanted-next wanted h ms (own_headers ms) (λ more. consume-as_wanted ms more))
    ]
    | inr other ↦ rw other (consume-as_wanted ms wanted)
  ]

-- A connected client streams the headers of the subscription that the node granted.
pub stream_new_heads-own_headers :
    (client : EthereumClient) (granted : Text) (wanted : Option ℕ) (ms : List Message)
    → client.w3 ≡ true
    → (s : Stream) × (stream_new_heads client granted wanted ms ≡ some s)
      × (s.streamed.0 ≡ as_wanted granted wanted (own_headers granted ms))
unfolding stream_new_heads
stream_new_heads-own_headers client granted wanted ms h =
    let s : Stream = record {
      calls = subscribe (codes "newHeads") ∷ unsubscribe granted ∷ [];
      streamed = consume granted wanted ms;
    } in
    (s, rw h refl, consume-as_wanted granted ms wanted)
