-- ===== src/Tools/MockWss/Replay/Served.antt =====
-- What a sequence of broadcasts leaves in the queues.
use ai_quantum.Common.{
  ℕ, ◌+◌, ◌-◌, ◌≤◌, ◌≡◌, refl, ap, ap₂, sym, ◌∙◌, List, [], ◌∷◌, ◌++◌, map, length, last, drop,
  drop-append, drop-drop, length-append, length-drop, append_assoc, append-nil, arith,
}
use ai_quantum.Common.Text.{Text}
use ai_quantum.Tools.MockWss.Server.{
  Content, Outgoing, Subscription, Client, Server, max_queue_per_client,
}
use ai_quantum.Tools.MockWss.Server.Fanout.{notifications, after, AreBounded}

-- All that the subscriptions ask for of what is sent.
abbrev pub all_notifications : List Content → List (Text × Subscription) → List Outgoing
all_notifications [] subs = []
all_notifications (x ∷ xs) subs = notifications x subs ++ all_notifications xs subs

-- A client after the contents, where none of its messages is taken meanwhile.
abbrev pub served : List Content → Client → Client
served contents c = record c {
  queue = last max_queue_per_client (c.queue ++ all_notifications contents c.subs);
  dropped =
      c.dropped + (length (c.queue ++ all_notifications contents c.subs) - max_queue_per_client);
}

last-append : {A : Type 0} (n : ℕ) (xs ys : List A) → last n (last n xs ++ ys) ≡ last n (xs ++ ys)
last-append n xs ys =
    let k = length xs - n in
    let e : drop k xs ++ ys ≡ drop k (xs ++ ys) = sym (drop-append k xs ys (omega arith)) in
    ap (last n) e
    ∙ drop-drop (length (drop k (xs ++ ys)) - n) k (xs ++ ys)
    ∙ ap (λ (j : ℕ). drop j (xs ++ ys))
        (omega (arith, length-drop k (xs ++ ys), length-append xs ys))

-- How many items of a list are past the newest `n`, in one go or in two.
past-append :
    {A : Type 0} (n : ℕ) (xs ys : List A)
    → (length xs - n) + (length (last n xs ++ ys) - n) ≡ length (xs ++ ys) - n
past-append n xs ys =
    omega (arith, length-append (last n xs) ys, length-append xs ys, length-drop (length xs - n) xs)

all_notifications-append :
    (xs ys : List Content) (subs : List (Text × Subscription))
    → all_notifications (xs ++ ys) subs ≡ all_notifications xs subs ++ all_notifications ys subs
all_notifications-append [] ys subs = refl
all_notifications-append (x ∷ xs) ys subs =
    ap (λ (l : List Outgoing). notifications x subs ++ l) (all_notifications-append xs ys subs)
    ∙ sym (
        append_assoc (notifications x subs) (all_notifications xs subs) (all_notifications ys subs))

served-append : (xs ys : List Content) (c : Client) → served ys (served xs c) ≡ served (xs ++ ys) c
served-append xs ys c =
    let first = all_notifications xs c.subs in
    let second = all_notifications ys c.subs in
    let both : (c.queue ++ first) ++ second ≡ c.queue ++ all_notifications (xs ++ ys) c.subs =
      append_assoc c.queue first second
      ∙ ap (λ (l : List Outgoing). c.queue ++ l) (sym (all_notifications-append xs ys c.subs)) in
    ap₂ (λ (q : List Outgoing) (n : ℕ). record c { queue = q; dropped = n })
      (last-append max_queue_per_client (c.queue ++ first) second
        ∙ ap (last max_queue_per_client) both)
      (omega (arith, past-append max_queue_per_client (c.queue ++ first) second, ap length both))

served-one : (x : Content) (c : Client) → after x c ≡ served (x ∷ []) c
served-one x c =
    ap
      (λ (l : List Outgoing). record c {
        queue = last max_queue_per_client (c.queue ++ l);
        dropped = c.dropped + (length (c.queue ++ l) - max_queue_per_client);
      })
      (sym (append-nil (notifications x c.subs)))

served-none : (c : Client) → length c.queue ≤ max_queue_per_client → served [] c ≡ c
served-none c h =
    let none_past : length (c.queue ++ []) - max_queue_per_client ≡ 0 =
      omega (arith, h, length-append c.queue []) in
    ap₂ (λ (q : List Outgoing) (n : ℕ). record c { queue = q; dropped = n })
      (rw none_past (append-nil c.queue)) (omega (arith, none_past))

-- `s'` is the server after the contents were sent.
pub record Sends (contents : List Content) (s s' : Server) : Type 0 where
  pub clients : s'.clients ≡ map (served contents) s.clients
  pub events : s'.events_sent ≡ s.events_sent + length contents
  pub bounded : AreBounded s'.clients

map-served-none : (cs : List Client) → AreBounded cs → cs ≡ map (served []) cs
map-served-none [] h = refl
map-served-none (c ∷ cs) h =
    ap₂ (λ (x : Client) (xs : List Client). x ∷ xs) (sym (served-none c h.0))
      (map-served-none cs h.1)

map-served-append :
    (xs ys : List Content) (cs : List Client)
    → map (served ys) (map (served xs) cs) ≡ map (served (xs ++ ys)) cs
map-served-append xs ys [] = refl
map-served-append xs ys (c ∷ cs) =
    ap₂ (λ (x : Client) (l : List Client). x ∷ l) (served-append xs ys c)
      (map-served-append xs ys cs)

pub map-served-one : (x : Content) (cs : List Client) → map (after x) cs ≡ map (served (x ∷ [])) cs
map-served-one x [] = refl
map-served-one x (c ∷ cs) =
    ap₂ (λ (y : Client) (l : List Client). y ∷ l) (served-one x c) (map-served-one x cs)

pub Sends-none : (s : Server) → AreBounded s.clients → Sends [] s s
Sends-none s h = record { clients = map-served-none s.clients h; events = omega arith; bounded = h }

pub Sends-append :
    (xs ys : List Content) (s t u : Server) → Sends xs s t → Sends ys t u → Sends (xs ++ ys) s u
Sends-append xs ys s t u p q = record {
  clients = q.clients ∙ ap (map (served ys)) p.clients ∙ map-served-append xs ys s.clients;
  events = omega (arith, p.events, q.events, length-append xs ys);
  bounded = q.bounded;
}
