-- ===== src/Sockets.antt =====
-- src/ws/plugin.ts: the connections of the websocket server, their subscriptions to the message
-- broker, and what is sent to them.
pub mod Events
pub mod Broadcast
pub mod Lost
pub mod Leaks
pub mod Announced
use Prim.Native.Char.{code}
use Prim.Native.String.{◌++◌ as text_append}
use text.Mathlib.Text.{find?}
use boostpow_api.Base.{
  ℕ, zero, suc, ◌+◌, String, Bool, true, false, not, Option, none, some, List, [], ◌∷◌, ◌++◌, map,
  nat_eq, str_eq, is_some, if◌then◌else◌,
}
use boostpow_api.Base.Lists.{filter, get_elem?, find? as find_first}
use boostpow_api.Base.Action.{type_error, Result, ok, err}

-- What a connection's URL selects; any other URL may name a channel.
pub data Route : Type 0 where
  chat posts replies superchats bmap boost : Route
  elsewhere : Option String → Route

-- `url.split('/').slice(-1)`
unfoldable pub last_segment : String → String → String
last_segment current String.[] = current
last_segment current (String.◌∷◌ c s) =
    last_segment
      (if nat_eq (code c) b'/' then String.[] else text_append current (String.◌∷◌ c String.[])) s

unfoldable pub route_of : String → Route
route_of url =
    if str_eq url "/websockets/chat"
    then chat
    else if str_eq url "/websockets/posts"
    then posts
    else if str_eq url "/websockets/replies"
    then replies
    else if str_eq url "/websockets/superchats"
    then superchats
    else if str_eq url "/websockets/bmap"
    then bmap
    else if str_eq url "/websockets/boost"
    then boost
    else if is_some (find? url "/websockets/chat/channels/")
    then elsewhere (some (last_segment "" url))
    else elsewhere none

-- The queues that a connection consumes.
pub data Feed : Type 0 where
  chats transactions : Feed
  messages : String → Feed

pub data Content : Type 0 where
  success : Content
  plain json : String → Content

pub record Sent : Type 0 where
  pub socket : ℕ
  pub type : String
  pub content : Content

-- The calls of the broker's channel, in their order.
pub data Call : Type 0 where
  declare : ℕ → Bool → Call
  bind : ℕ → String → Call
  remove : ℕ → Call
  acknowledge : ℕ → Call

pub record Connection : Type 0 where
  pub socket : ℕ
  pub url : String

-- A subscription that waits for `getChannel`.
pub record Pending : Type 0 where
  pub socket : ℕ
  pub feed : Feed

-- A queue with the callback that `consume` registers and the handler of `close` that deletes it.
pub record Consumer : Type 0 where
  pub queue : ℕ
  pub socket : ℕ
  pub feed : Feed

-- A connection is known by its number; `uuid` gives a number that it has not given before. A listener
-- stands for the two that `handleConnectionBoost` adds.
pub record Server : Type 0 where
  pub sockets : ℕ
  pub connected : List Connection
  pub pending : List Pending
  pub consumers : List Consumer
  pub listeners : List ℕ
  pub names : ℕ
  pub calls : List Call
  pub sent : List Sent

abbrev pub start : Server
start = record {
  sockets = 0;
  connected = [];
  pending = [];
  consumers = [];
  listeners = [];
  names = 0;
  calls = [];
  sent = [];
}

unfoldable pub send_message : ℕ → String → Content → Server → Server
send_message socket type content s = record s {
  sent = s.sent ++ record { socket = socket; type = type; content = content } ∷ [];
}

-- `await getChannel()`: the rest of the handler runs later.
unfoldable pub await_channel : ℕ → Feed → Server → Server
await_channel socket feed s = record s {
  pending = s.pending ++ record { socket = socket; feed = feed } ∷ [];
}

unfoldable pub handle_chat_channel : ℕ → String → Server → Server
unfolding send_message await_channel
handle_chat_channel socket channel s = await_channel socket (messages channel) (
    send_message socket (text_append "websockets.chat.channels." (text_append channel ".connected"))
      success s)

unfoldable pub handle_chats : ℕ → Server → Server
unfolding send_message await_channel
handle_chats socket s = await_channel socket chats (
    send_message socket "websockets.bmap.connected" success
      (send_message socket "websockets.chats.connected" success s))

unfoldable pub handle_bmap : ℕ → Server → Server
unfolding send_message await_channel
handle_bmap socket s =
    await_channel socket transactions (send_message socket "websockets.bmap.connected" success s)

unfoldable pub handle_boost : ℕ → Server → Server
unfolding send_message
handle_boost socket s =
    let s' = send_message socket "websockets.boostpow.connected" success s in
    record s' { listeners = s'.listeners ++ socket ∷ [] }

unfoldable pub handle_posts : ℕ → Server → Server
unfolding send_message
handle_posts socket s = send_message socket "websockets.posts.connected" success s

unfoldable pub handle_replies : ℕ → Server → Server
unfolding send_message
handle_replies socket s = send_message socket "websockets.replies.connected." success s

unfoldable pub handle_superchats : ℕ → Server → Server
unfolding send_message
handle_superchats socket s = send_message socket "websockets.superchats.connected" success s

-- The callback of `connection`: the switch returns, and what follows it does not.
unfoldable pub handle_route : Route → ℕ → Server → Server
unfolding handle_chat_channel handle_chats handle_posts handle_replies handle_superchats handle_bmap
    handle_boost
handle_route chat socket s = handle_chats socket s
handle_route posts socket s = handle_posts socket s
handle_route replies socket s = handle_replies socket s
handle_route superchats socket s = handle_superchats socket s
handle_route bmap socket s = handle_bmap socket s
handle_route boost socket s = handle_boost socket s
handle_route (elsewhere none) socket s = handle_boost socket s
handle_route (elsewhere (some channel)) socket s =
    handle_boost socket (handle_chat_channel socket channel s)

unfoldable pub connect : String → Server → Server
unfolding handle_route
connect url s = handle_route (route_of url) s.sockets (record s {
  sockets = s.sockets + 1;
  connected = s.connected ++ record { socket = s.sockets; url = url } ∷ [];
})

abbrev pub routing_key : Feed → String
routing_key chats = "chat.message"
routing_key transactions = "bmap.transaction.discovered"
routing_key (messages channel) = text_append "chat.channels." (text_append channel ".message")

-- `autoDelete` is asked for by one handler only.
abbrev pub auto_delete : Feed → Bool
auto_delete transactions = true
auto_delete _ = false

abbrev pub remove_at {ℓ} : {A : Type ℓ} → ℕ → List A → List A
remove_at i [] = []
remove_at zero (x ∷ xs) = xs
remove_at (suc i) (x ∷ xs) = x ∷ remove_at i xs

-- The rest of a handler, after `getChannel`: the queue, its binding, and the consumer.
unfoldable pub subscribe : Pending → Server → Server
subscribe p s = record s {
  names = s.names + 1;
  consumers = s.consumers ++ record { queue = s.names; socket = p.socket; feed = p.feed } ∷ [];
  calls = s.calls ++ declare s.names (auto_delete p.feed) ∷ bind s.names (routing_key p.feed) ∷ [];
}

-- The channel is there for the subscription at a place of the list.
unfoldable pub channel_ready : ℕ → Server → Server
unfolding subscribe
channel_ready i s = elim (get_elem? s.pending i) [
  | none ↦ s
  | some p ↦ subscribe p (record s { pending = remove_at i s.pending })
]

abbrev pub owns : ℕ → Consumer → Bool
owns socket c = nat_eq c.socket socket

abbrev pub is_socket : ℕ → Connection → Bool
is_socket socket c = nat_eq c.socket socket

-- The socket's event `close`, which comes once: every handler that was added until then runs.
unfoldable pub close : ℕ → Server → Server
close socket s = elim (find_first (is_socket socket) s.connected) [
  | none ↦ s
  | some c ↦ record s {
    connected = filter (λ d. not (is_socket socket d)) s.connected;
    consumers = filter (λ d. not (owns socket d)) s.consumers;
    listeners = filter (λ l. not (nat_eq l socket)) s.listeners;
    calls = s.calls ++ map (λ d. remove d.queue) (filter (owns socket) s.consumers);
  }
]
