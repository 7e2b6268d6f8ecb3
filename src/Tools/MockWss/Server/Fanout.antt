-- ===== src/Tools/MockWss/Server/Fanout.antt =====
-- What a fan-out leaves in the queues, and what it counts.
use ai_quantum.Common.{
  ℕ, ◌+◌, ◌-◌, ◌≤◌, ◌<◌, ◌≡◌, refl, ◌∙◌, sym, ap, List, [], ◌∷◌, ◌++◌, arith, if◌then◌else◌,
  Bool-cases, inl, inr, length, drop, last, length-append, append_assoc, append-nil, drop-append,
  ltb, map, drop-drop, length-drop,
}
use ai_quantum.Common.Text.{Text}
use ai_quantum.Tools.MockWss.Server.{
  Content, Outgoing, notification, Subscription, Client, Server, max_queue_per_client, enqueue,
  is_for, fanout_to, fanout_all, fanout,
}

-- The notifications that a client's subscriptions ask for.
unfoldable pub notifications : Content → List (Text × Subscription) → List Outgoing
notifications content [] = []
notifications content ((sub_id, sub) ∷ subs) =
    let rest = notifications content subs in
    if is_for content sub then notification sub_id content ∷ rest else rest

-- A client, and the evictions counted, after some messages were put: its queue is the newest of what
-- it held and got, and every message past the maximum was evicted.
pub record Got (c : Client) (messages : List Outgoing) (evictions : ℕ) (c' : Client) : Type 0 where
  pub queue : c'.queue ≡ last max_queue_per_client (c.queue ++ messages)
  pub dropped : c'.dropped ≡ c.dropped + evictions
  pub evicted : evictions ≡ length (c.queue ++ messages) - max_queue_per_client
  pub subs : c'.subs ≡ c.subs

Got-none : (c : Client) → length c.queue ≤ max_queue_per_client → Got c [] 0 c
Got-none c h =
    let none_past : length (c.queue ++ []) - max_queue_per_client ≡ 0 =
      omega (arith, length-append c.queue []) in
    record {
      queue = sym (rw none_past (append-nil c.queue));
      dropped = omega arith;
      evicted = sym none_past;
      subs = refl;
    }

last-drop : {A : Type 0} (n : ℕ) (xs : List A) → n < length xs → last n (drop 1 xs) ≡ last n xs
last-drop n xs h =
    drop-drop (length (drop 1 xs) - n) 1 xs
    ∙ ap (λ (k : ℕ). drop k xs) (omega (arith, length-drop 1 xs))

Got-room :
    (m : Outgoing) (ms : List Outgoing) (n : ℕ) (c c' : Client)
    → Got (record c { queue = c.queue ++ m ∷ [] }) ms n c'
    → Got c (m ∷ ms) (0 + n) c'
Got-room m ms n c c' g =
    let e = append_assoc c.queue (m ∷ []) ms in
    record {
      queue = g.queue ∙ ap (last max_queue_per_client) e;
      dropped = omega (arith, g.dropped);
      evicted = omega (arith, g.evicted, ap length e);
      subs = g.subs;
    }

Got-full :
    (m : Outgoing) (ms : List Outgoing) (n : ℕ) (c c' : Client)
    → length c.queue ≡ max_queue_per_client
    → Got (record c { queue = drop 1 c.queue ++ m ∷ []; dropped = c.dropped + 1 }) ms n c'
    → Got c (m ∷ ms) (1 + n) c'
Got-full m ms n c c' h g =
    let e : (drop 1 c.queue ++ m ∷ []) ++ ms ≡ drop 1 (c.queue ++ m ∷ ms) =
      append_assoc (drop 1 c.queue) (m ∷ []) ms
      ∙ sym (drop-append 1 c.queue (m ∷ ms) (omega arith)) in
    let long : max_queue_per_client < length (c.queue ++ m ∷ ms) =
      omega (arith, length-append c.queue (m ∷ ms)) in
    record {
      queue =
          g.queue
          ∙ ap (last max_queue_per_client) e
          ∙ last-drop max_queue_per_client (c.queue ++ m ∷ ms) long;
      dropped = omega (arith, g.dropped);
      evicted = omega (arith, g.evicted, ap length e, length-drop 1 (c.queue ++ m ∷ ms));
      subs = g.subs;
    }

-- A queue stays within its maximum.
pub length-enqueue :
    (m : Outgoing) (c : Client)
    → length c.queue ≤ max_queue_per_client
    → length (enqueue m c).1.queue ≤ max_queue_per_client
unfolding enqueue
length-enqueue m c h = ground (
  arith,
  length-append c.queue (m ∷ []),
  length-append (drop 1 c.queue) (m ∷ []),
  length-drop 1 c.queue,
)

-- One more message, in front of the others.
Got-enqueue :
    (m : Outgoing) (ms : List Outgoing) (n : ℕ) (c c' : Client)
    → length c.queue ≤ max_queue_per_client
    → Got (enqueue m c).1 ms n c'
    → Got c (m ∷ ms) ((if (enqueue m c).0 then 1 else 0) + n) c'
unfolding enqueue
Got-enqueue m ms n c c' h g = elim (Bool-cases (ltb (length c.queue) max_queue_per_client)) [
  | inl room ↦ rw (room, enqueue) (Got-room m ms n c c' (rw (room, enqueue) at g))
  | inr full ↦
      rw (full, enqueue) (Got-full m ms n c c' (ground (arith, full)) (rw (full, enqueue) at g))
]

fanout_to-Got :
    (content : Content) (subs : List (Text × Subscription)) (c : Client)
    → length c.queue ≤ max_queue_per_client
    → Got c (notifications content subs) (fanout_to content subs c).0 (fanout_to content subs c).1
unfolding fanout_to notifications
fanout_to-Got content [] c h = Got-none c h
fanout_to-Got content ((sub_id, sub) ∷ subs) c h = elim (Bool-cases (is_for content sub)) [
  | inl asked ↦ rw asked (
      Got-enqueue (notification sub_id content) (notifications content subs) _ c _ h (
        fanout_to-Got content subs (enqueue (notification sub_id content) c).1
          (length-enqueue _ c h)))
  | inr other ↦ rw other (fanout_to-Got content subs c h)
]

-- What a client gets, in one equation.
abbrev pub after : Content → Client → Client
after content c = record c {
  queue = last max_queue_per_client (c.queue ++ notifications content c.subs);
  dropped = c.dropped + (length (c.queue ++ notifications content c.subs) - max_queue_per_client);
}

abbrev pub evictions : Content → List Client → ℕ
evictions content [] = 0
evictions content (c ∷ cs) =
    (length (c.queue ++ notifications content c.subs) - max_queue_per_client) + evictions content cs

abbrev pub AreBounded : List Client → Type 0
AreBounded [] = Unit
AreBounded (c ∷ cs) = (length c.queue ≤ max_queue_per_client) × AreBounded cs

after-Got :
    (content : Content) (c c' : Client) (n : ℕ)
    → Got c (notifications content c.subs) n c'
    → c' ≡ after content c
after-Got content c c' n g = cc (g.queue, g.dropped, g.evicted, g.subs)

fanout_all-after :
    (content : Content) (cs : List Client)
    → AreBounded cs
    → fanout_all content cs ≡ (evictions content cs, map (after content) cs)
unfolding fanout_all
fanout_all-after content [] h = refl
fanout_all-after content (c ∷ cs) h =
    let g = fanout_to-Got content c.subs c h.0 in
    let e = after-Got content c (fanout_to content c.subs c).1 (fanout_to content c.subs c).0 g in
    let ih = fanout_all-after content cs h.1 in cc (g.evicted, e, ih)

-- A fan-out, where no queue is longer than its maximum: every client's queue becomes the newest
-- messages, at most 10000, of what it held followed by a notification for each of its matching
-- subscriptions; its own counter and `dropped_total` count the messages that did not fit.
pub fanout_lem :
    (content : Content) (s : Server)
    → AreBounded s.clients
    → fanout content s ≡ record s {
      clients = map (after content) s.clients;
      dropped_total = s.dropped_total + evictions content s.clients;
    }
unfolding fanout
fanout_lem content s h =
    ap (λ (r : ℕ × List Client). record s { clients = r.1; dropped_total = s.dropped_total + r.0 })
      (fanout_all-after content s.clients h)
