-- ===== src/Sockets/Lost.antt =====
-- What happens to a consumer whose connection is closed, and what each step does to the queues.
use boostpow_api.Base.{
  ℕ, ◌+◌, ◌<◌, String, Bool, false, not, Option, none, some, List, [], ◌∷◌, ◌++◌, ◌≡◌, ◌⊎◌, refl,
  inl, inr, nat_eq, Bool-cases, Option-cases, if◌then◌else◌, arith,
}
use boostpow_api.Base.Lists.{
  filter, get_elem?, find? as find_first, In, All, In-append_left, In-filter_of,
}
use boostpow_api.Base.Action.{Result, ok, Result-cases}
use boostpow_api.Sockets.{
  Route, chat, bmap, elsewhere, route_of, Feed, chats, transactions, messages, Connection, Consumer,
  Server, handle_route, connect, remove_at, channel_ready, subscribe, owns, is_socket, close,
}
use boostpow_api.Sockets.Events.{
  consume, reading_of, Event, emit, Step, connects, readies, closes, delivers, emits, deliver,
  cancel, step, run,
}
use boostpow_api.Sockets.Broadcast.{emit_lem}

-- The connection is closed.
abbrev pub IsClosed : ℕ → Server → Type 0
IsClosed socket s = find_first (is_socket socket) s.connected ≡ none

-- What the connections of a server, the subscriptions and the consumers keep when a message is sent.
abbrev pub SameQueues : Server → Server → Type 0
SameQueues s t =
    (s.sockets ≡ t.sockets)
    × (s.connected ≡ t.connected)
    × (s.pending ≡ t.pending)
    × (s.consumers ≡ t.consumers)

module _ (parse : String → Result String) where
  pub deliver-SameQueues :
      (queue : ℕ) (message : Option String) (s : Server)
      → SameQueues (deliver parse queue message s) s
  unfolding deliver consume
  deliver-SameQueues queue message s =
      elim (Option-cases (find_first (λ c. nat_eq c.queue queue) s.consumers)) [
        | inl e ↦ rw (e, deliver) (refl, refl, refl, refl)
        | inr (c, e) ↦ elim (Result-cases (reading_of parse c.feed message)) [
          | inr (x, r) ↦ simp (e, r, deliver, consume) (refl, refl, refl, refl)
          | inl (none, r) ↦ simp (e, r, deliver, consume) (refl, refl, refl, refl)
          | inl (some x, r) ↦ simp (e, r, deliver, consume) (refl, refl, refl, refl)
        ]
      ]

pub emit-SameQueues :
    (event : Event) (body : String) (s : Server) → SameQueues (emit event body s) s
emit-SameQueues event body s = rw (emit_lem event body s) (refl, refl, refl, refl)

-- What a consumer is when nothing deletes its queue any more.
pub record IsLost (c : Consumer) (s : Server) : Type 0 where
  pub there : In c s.consumers
  pub closed : IsClosed c.socket s
  pub made : c.socket < s.sockets

IsLost-of :
    (c : Consumer) (s t : Server)
    → IsLost c s
    → (IsClosed c.socket s → IsClosed c.socket t)
    → (In c s.consumers → In c t.consumers)
    → (c.socket < s.sockets → c.socket < t.sockets)
    → IsLost c t
IsLost-of c s t h closed there made = record {
  there = there h.there;
  closed = closed h.closed;
  made = made h.made;
}

same-IsLost : (c : Consumer) (s t : Server) → SameQueues t s → IsLost c s → IsLost c t
same-IsLost c s t (n, cs, ps, qs) h = IsLost-of c s t h (λ k. rw cs k) (λ k. rw qs k) (λ k. rw n k)

-- A new connection of another number, and connections that are taken away, leave it closed.
closed_last :
    (socket : ℕ) (c : Connection) (cs : List Connection)
    → is_socket socket c ≡ false
    → find_first (is_socket socket) cs ≡ none
    → find_first (is_socket socket) (cs ++ c ∷ []) ≡ none
closed_last socket c [] h k = rw h refl
closed_last socket c (d ∷ cs) h k = elim (Bool-cases (is_socket socket d)) [
  | inl e ↦ ground arith
  | inr e ↦ rw e (closed_last socket c cs h (rw (e, if◌then◌else◌) at k))
]

closed-filter :
    (socket : ℕ) (p : Connection → Bool) (cs : List Connection)
    → find_first (is_socket socket) cs ≡ none
    → find_first (is_socket socket) (filter p cs) ≡ none
closed-filter socket p [] k = refl
closed-filter socket p (d ∷ cs) k = elim (Bool-cases (is_socket socket d)) [
  | inl e ↦ ground arith
  | inr e ↦ elim (Bool-cases (p d)) [
    | inl t ↦ simp (t, e) (closed-filter socket p cs (rw (e, if◌then◌else◌) at k))
    | inr f ↦ rw f (closed-filter socket p cs (rw (e, if◌then◌else◌) at k))
  ]
]

-- What the handler of a URL does to them.
pub record Keeps (socket : ℕ) (s t : Server) : Type 0 where
  pub sockets : t.sockets ≡ s.sockets
  pub connected : t.connected ≡ s.connected
  pub consumers : t.consumers ≡ s.consumers
  pub pending :
      (t.pending ≡ s.pending)
      ⊎ ((feed : Feed) × (t.pending ≡ s.pending ++ record { socket = socket; feed = feed } ∷ []))

abbrev keeps : (socket : ℕ) (s t : Server) → SameQueues t s → Keeps socket s t
keeps socket s t (n, cs, ps, qs) = record {
  sockets = n;
  connected = cs;
  consumers = qs;
  pending = inl ps;
}

handle_route-keeps :
    (r : Route) (socket : ℕ) (s : Server) → Keeps socket s (handle_route r socket s)
unfolding handle_route
handle_route-keeps chat socket s = record {
  sockets = refl;
  connected = refl;
  consumers = refl;
  pending = inr (chats, refl);
}
handle_route-keeps bmap socket s = record {
  sockets = refl;
  connected = refl;
  consumers = refl;
  pending = inr (transactions, refl);
}
handle_route-keeps (elsewhere (some channel)) socket s = record {
  sockets = refl;
  connected = refl;
  consumers = refl;
  pending = inr (messages channel, refl);
}
handle_route-keeps (elsewhere none) socket s = record {
  sockets = refl;
  connected = refl;
  consumers = refl;
  pending = inl refl;
}
handle_route-keeps _ socket s = record {
  sockets = refl;
  connected = refl;
  consumers = refl;
  pending = inl refl;
}

-- The server that the handler of a new connection starts from.
abbrev pub accepted : String → Server → Server
accepted url s = record s {
  sockets = s.sockets + 1;
  connected = s.connected ++ record { socket = s.sockets; url = url } ∷ [];
}

pub connect-keeps : (url : String) (s : Server) → Keeps s.sockets (accepted url s) (connect url s)
unfolding connect
connect-keeps url s = handle_route-keeps (route_of url) s.sockets (accepted url s)

connect-IsLost : (c : Consumer) (url : String) (s : Server) → IsLost c s → IsLost c (connect url s)
connect-IsLost c url s h =
    let k = connect-keeps url s in
    let other : nat_eq s.sockets c.socket ≡ false = (let m = h.made in ground arith) in
    record {
      there = rw k.consumers h.there;
      closed = rw k.connected (
          closed_last c.socket (record { socket = s.sockets; url = url }) s.connected other
            h.closed);
      made = (let m = h.made in rw k.sockets (omega arith));
    }

ready-IsLost : (c : Consumer) (i : ℕ) (s : Server) → IsLost c s → IsLost c (channel_ready i s)
unfolding channel_ready
ready-IsLost c i s h = elim (Option-cases (get_elem? s.pending i)) [
  | inl e ↦ rw (e, channel_ready) h
  | inr (p, e) ↦
      rw (e, channel_ready)
        (IsLost-of c s (subscribe p (record s { pending = remove_at i s.pending })) h (λ k. k)
          (λ k. In-append_left c s.consumers _ k) (λ k. k))
]

close-IsLost : (c : Consumer) (socket : ℕ) (s : Server) → IsLost c s → IsLost c (close socket s)
unfolding close
close-IsLost c socket s h = elim (Option-cases (find_first (is_socket socket) s.connected)) [
  | inl e ↦ rw (e, close) h
  | inr (d, e) ↦ elim (Bool-cases (owns socket c)) [
    | inl o ↦
        let same : c.socket ≡ socket = ground arith in
        let k : find_first (is_socket socket) s.connected ≡ none = rw (← same) h.closed in cc
    | inr o ↦
        rw (e, close)
          (record {
            there = In-filter_of (λ d. not (owns socket d)) c s.consumers h.there (rw o refl);
            closed = closed-filter c.socket (λ d. not (is_socket socket d)) s.connected h.closed;
            made = h.made;
          })
  ]
]

module _ (parse : String → Result String) where
  -- The broker does not cancel the consumer of the queue, and a message that is delivered is read.
  abbrev pub Spares : ℕ → Step → Type 0
  Spares queue (delivers other none) = nat_eq queue other ≡ false
  Spares queue (delivers other (some message)) = (value : String) × (parse message ≡ ok value)
  Spares queue _ = Unit

  cancel-IsLost :
      (c : Consumer) (queue : ℕ) (s : Server)
      → nat_eq c.queue queue ≡ false
      → IsLost c s
      → IsLost c (cancel queue s)
  unfolding cancel
  cancel-IsLost c queue s other h =
      IsLost-of c s (cancel queue s) h (λ k. k)
        (λ k. In-filter_of (λ d. not (nat_eq d.queue queue)) c s.consumers k (rw other refl))
        (λ k. k)

  step-IsLost :
      (c : Consumer) (x : Step) (s : Server)
      → Spares c.queue x
      → IsLost c s
      → IsLost c (step parse x s)
  unfolding step
  step-IsLost c (connects url) s spared h = connect-IsLost c url s h
  step-IsLost c (readies i) s spared h = ready-IsLost c i s h
  step-IsLost c (closes socket) s spared h = close-IsLost c socket s h
  step-IsLost c (delivers queue none) s spared h =
      cancel-IsLost c queue (deliver parse queue none s) spared
        (same-IsLost c s _ (deliver-SameQueues parse queue none s) h)
  step-IsLost c (delivers queue (some message)) s spared h =
      same-IsLost c s _ (deliver-SameQueues parse queue (some message) s) h
  step-IsLost c (emits event body) s spared h = same-IsLost c s _ (emit-SameQueues event body s) h

  pub run-IsLost :
      (c : Consumer) (xs : List Step) (s : Server)
      → All (Spares c.queue) xs
      → IsLost c s
      → IsLost c (run parse xs s)
  unfolding run
  run-IsLost c [] s spared h = h
  run-IsLost c (x ∷ xs) s (spared, rest) h =
      run-IsLost c xs (step parse x s) rest (step-IsLost c x s spared h)
