-- ===== src/Sockets/Broadcast.antt =====
-- Who receives the boost events.
use boostpow_api.Base.{
  ℕ, ◌+◌, String, Bool, true, false, not, Option, none, some, List, [], ◌∷◌, ◌++◌, ◌≡◌, refl, sym,
  ◌∙◌, ap, inl, inr, map, nat_eq, Bool-cases, Option-cases, if◌then◌else◌,
}
use boostpow_api.Base.Lists.{filter, get_elem?, find? as find_first}
use boostpow_api.Base.Action.{Result, Result-cases}
use mathlib.Core.List.{append-nil, append_assoc}
use boostpow_api.Sockets.{
  Route, boost, elsewhere, route_of, json, Sent, Connection, Consumer, Server, start, send_message,
  handle_route, connect, channel_ready, is_socket, close,
}
use boostpow_api.Sockets.Events.{
  consume, reading_of, Event, question_created, job_created, proof_created, send_all, emit, Step,
  connects, readies, closes, delivers, emits, deliver, cancel, step, run, recover,
}

-- The URLs whose connections receive the boost events: every URL but those of five handlers.
abbrev pub is_boost_route : Route → Bool
is_boost_route boost = true
is_boost_route (elsewhere channel) = true
is_boost_route _ = false

abbrev pub receives : Connection → Bool
receives c = is_boost_route (route_of c.url)

abbrev pub socket_of : Connection → ℕ
socket_of c = c.socket

-- The open connections with such a URL, in the order in which they were made.
abbrev pub audience : Server → List ℕ
audience s = map socket_of (filter receives s.connected)

abbrev IsListening : Server → Type 0
IsListening s = s.listeners ≡ audience s

handle_route-listeners :
    (r : Route) (socket : ℕ) (s : Server)
    → (handle_route r socket s).listeners
      ≡ s.listeners ++ (if is_boost_route r then socket ∷ [] else [])
unfolding handle_route
handle_route-listeners boost socket s = refl
handle_route-listeners (elsewhere none) socket s = refl
handle_route-listeners (elsewhere (some channel)) socket s = refl
handle_route-listeners _ socket s = sym (append-nil s.listeners)

handle_route-connected :
    (r : Route) (socket : ℕ) (s : Server) → (handle_route r socket s).connected ≡ s.connected
unfolding handle_route
handle_route-connected boost socket s = refl
handle_route-connected (elsewhere none) socket s = refl
handle_route-connected (elsewhere (some channel)) socket s = refl
handle_route-connected _ socket s = refl

map_filter_last :
    (cs : List Connection) (c : Connection)
    → map socket_of (filter receives (cs ++ c ∷ []))
      ≡ map socket_of (filter receives cs) ++ (if receives c then c.socket ∷ [] else [])
map_filter_last [] c = elim (Bool-cases (receives c)) [ inl e ↦ rw e | inr e ↦ rw e ]
map_filter_last (d ∷ cs) c = elim (Bool-cases (receives d)) [
  | inl e ↦ rw e (ap (λ ks. d.socket ∷ ks) (map_filter_last cs c))
  | inr e ↦ rw e (map_filter_last cs c)
]

connect-IsListening : (url : String) (s : Server) → IsListening s → IsListening (connect url s)
unfolding connect
connect-IsListening url s h =
    let c : Connection = record { socket = s.sockets; url = url } in
    let s' : Server = record s { sockets = s.sockets + 1; connected = s.connected ++ c ∷ [] } in
    handle_route-listeners (route_of url) s.sockets s'
    ∙ ap (λ ks. ks ++ (if is_boost_route (route_of url) then s.sockets ∷ [] else [])) h
    ∙ sym (map_filter_last s.connected c)
    ∙ sym (
        ap (λ cs. map socket_of (filter receives cs))
          (handle_route-connected (route_of url) s.sockets s'))

channel_ready-IsListening : (i : ℕ) (s : Server) → IsListening s → IsListening (channel_ready i s)
unfolding channel_ready
channel_ready-IsListening i s h = elim (Option-cases (get_elem? s.pending i)) [
  | inl e ↦ rw (e, channel_ready) h
  | inr (p, e) ↦ rw (e, channel_ready) h
]

filter_map_filter :
    (socket : ℕ) (cs : List Connection)
    → filter (λ l. not (nat_eq l socket)) (map socket_of (filter receives cs))
      ≡ map socket_of (filter receives (filter (λ d. not (is_socket socket d)) cs))
filter_map_filter socket [] = refl
filter_map_filter socket (d ∷ cs) = elim (Bool-cases (receives d)) [
  | inl e ↦ elim (Bool-cases (not (nat_eq d.socket socket))) [
    | inl k ↦ simp (e, k) (ap (λ ks. d.socket ∷ ks) (filter_map_filter socket cs))
    | inr k ↦ simp (e, k) (filter_map_filter socket cs)
  ]
  | inr e ↦ elim (Bool-cases (not (nat_eq d.socket socket))) [
    | inl k ↦ simp (e, k) (filter_map_filter socket cs)
    | inr k ↦ simp (e, k) (filter_map_filter socket cs)
  ]
]

close-IsListening : (socket : ℕ) (s : Server) → IsListening s → IsListening (close socket s)
unfolding close
close-IsListening socket s h = elim (Option-cases (find_first (is_socket socket) s.connected)) [
  | inl e ↦ rw (e, close) h
  | inr (c, e) ↦
      rw (e, close)
        (ap (λ ks. filter (λ l. not (nat_eq l socket)) ks) h ∙ filter_map_filter socket s.connected)
]

consume-IsListening :
    (parse : String → Result String) (c : Consumer) (message : Option String) (s : Server)
    → IsListening s
    → IsListening (recover s (consume parse c message s))
unfolding consume
consume-IsListening parse c message s h = elim (Result-cases (reading_of parse c.feed message)) [
  | inr (x, e) ↦ simp (e, consume) h
  | inl (none, e) ↦ simp (e, consume) h
  | inl (some (type, content), e) ↦ simp (e, consume) h
]

deliver-IsListening :
    (parse : String → Result String) (queue : ℕ) (message : Option String) (s : Server)
    → IsListening s
    → IsListening (deliver parse queue message s)
unfolding deliver
deliver-IsListening parse queue message s h =
    elim (Option-cases (find_first (λ c. nat_eq c.queue queue) s.consumers)) [
      | inl e ↦ rw (e, deliver) h
      | inr (c, e) ↦ rw (e, deliver) (consume-IsListening parse c message s h)
    ]

-- What an event sends to a connection.
abbrev pub sent_to : String → String → ℕ → Sent
sent_to type body k = record { socket = k; type = type; content = json body }

send_all_lem :
    (type body : String) (ls : List ℕ) (s : Server)
    → send_all type (json body) ls s ≡ record s { sent = s.sent ++ map (sent_to type body) ls }
unfolding send_all
send_all_lem type body [] s = ap (λ xs. record s { sent = xs }) (sym (append-nil s.sent))
send_all_lem type body (l ∷ ls) s =
    send_all_lem type body ls (send_message l type (json body) s)
    ∙ ap (λ xs. record s { sent = xs })
        (append_assoc s.sent (sent_to type body l ∷ []) (map (sent_to type body) ls))

-- The messages of an event for the connections that receive it.
abbrev pub messages_for : Event → String → List ℕ → List Sent
messages_for question_created body ks = []
messages_for job_created body ks = map (sent_to "boostpow.job.created" body) ks
messages_for proof_created body ks = map (sent_to "boostpow.proof.created" body) ks

pub emit_lem :
    (event : Event) (body : String) (s : Server)
    → emit event body s ≡ record s { sent = s.sent ++ messages_for event body s.listeners }
unfolding emit
emit_lem question_created body s = ap (λ xs. record s { sent = xs }) (sym (append-nil s.sent))
emit_lem job_created body s = send_all_lem "boostpow.job.created" body s.listeners s
emit_lem proof_created body s = send_all_lem "boostpow.proof.created" body s.listeners s

emit-IsListening :
    (event : Event) (body : String) (s : Server) → IsListening s → IsListening (emit event body s)
emit-IsListening event body s h = rw (emit_lem event body s) h

module _ (parse : String → Result String) where
  step-IsListening : (x : Step) (s : Server) → IsListening s → IsListening (step parse x s)
  unfolding step cancel
  step-IsListening (connects url) s h = connect-IsListening url s h
  step-IsListening (readies i) s h = channel_ready-IsListening i s h
  step-IsListening (closes socket) s h = close-IsListening socket s h
  step-IsListening (delivers queue none) s h = deliver-IsListening parse queue none s h
  step-IsListening (delivers queue (some message)) s h =
      deliver-IsListening parse queue (some message) s h
  step-IsListening (emits event body) s h = emit-IsListening event body s h

  run-IsListening : (xs : List Step) (s : Server) → IsListening s → IsListening (run parse xs s)
  unfolding run
  run-IsListening [] s h = h
  run-IsListening (x ∷ xs) s h = run-IsListening xs (step parse x s) (step-IsListening x s h)

  -- Whatever happened to the server, a boost event is sent exactly to the open connections whose URL
  -- is none of those of the five other handlers, once to each and in the order of the connections; a
  -- question is sent to none; and nothing else of the server changes.
  pub emit-audience :
      (xs : List Step) (event : Event) (body : String)
      → let s = run parse xs start in
        emit event body s ≡ record s { sent = s.sent ++ messages_for event body (audience s) }
  emit-audience xs event body =
      let s = run parse xs start in
      emit_lem event body s
      ∙ ap (λ ks. record s { sent = s.sent ++ messages_for event body ks })
          (run-IsListening xs start refl)
