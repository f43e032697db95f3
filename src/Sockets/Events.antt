-- ===== src/Sockets/Events.antt =====
-- What the server receives and sends: the messages of the queues, the events of the actors, and the
-- steps of a run.
use boostpow_api.Base.{ℕ, String, not, Option, none, some, List, [], ◌∷◌, ◌++◌, nat_eq}
use boostpow_api.Base.Lists.{filter, find? as find_first}
use boostpow_api.Base.Action.{type_error, Result, ok, err}
use boostpow_api.Sockets.{
  Content, plain, json, Feed, chats, transactions, messages, Consumer, Server, acknowledge,
  send_message, routing_key, connect, channel_ready, close,
}

-- What a message of a queue is sent as; only one of the callbacks looks for null, and `parse` is
-- `JSON.parse`.
unfoldable pub reading_of :
    (String → Result String) → Feed → Option String → Result (Option (String × Content))
reading_of parse (messages channel) none = ok none
reading_of parse _ none = err type_error
reading_of parse chats (some body) = ok (some ("bitchat.transaction.discovered", plain body))
reading_of parse transactions (some body) = elim (parse body) [
  | err e ↦ err e
  | ok value ↦ ok (some ("bmap.transaction", json value))
]
reading_of parse (messages channel) (some body) = elim (parse body) [
  | err e ↦ err e
  | ok value ↦ ok (some (routing_key (messages channel), json value))
]

-- The callback of a consumer.
unfoldable pub consume :
    (String → Result String) → Consumer → Option String → Server → Result Server
unfolding send_message
consume parse c message s = elim (reading_of parse c.feed message) [
  | err e ↦ err e
  | ok none ↦ ok s
  | ok (some (type, content)) ↦
      let s' = send_message c.socket type content s in
      ok (record s' { calls = s'.calls ++ acknowledge c.queue ∷ [] })
]

-- The messages of the three actors; nothing listens to the questions.
pub data Event : Type 0 where
  question_created job_created proof_created : Event

-- `events.emit`: every listener in turn.
unfoldable pub send_all : String → Content → List ℕ → Server → Server
unfolding send_message
send_all type content [] s = s
send_all type content (l ∷ ls) s = send_all type content ls (send_message l type content s)

unfoldable pub emit : Event → String → Server → Server
unfolding send_all
emit question_created body s = s
emit job_created body s = send_all "boostpow.job.created" (json body) s.listeners s
emit proof_created body s = send_all "boostpow.proof.created" (json body) s.listeners s

-- What happens to the server. A queue delivers to the consumer that has it; with null the broker
-- cancels the consumer.
pub data Step : Type 0 where
  connects : String → Step
  readies closes : ℕ → Step
  delivers : ℕ → Option String → Step
  emits : Event → String → Step

-- An error of a callback: the server's own state stays as it is. What the broker's client does then
-- is not modelled.
abbrev pub recover : Server → Result Server → Server
recover s (ok s') = s'
recover s (err e) = s

-- The consumer is no more; its queue and its connection stay.
unfoldable pub cancel : ℕ → Server → Server
cancel queue s = record s { consumers = filter (λ c. not (nat_eq c.queue queue)) s.consumers }

module _ (parse : String → Result String) where
  unfoldable pub deliver : ℕ → Option String → Server → Server
  unfolding consume
  deliver queue message s = elim (find_first (λ c. nat_eq c.queue queue) s.consumers) [
    | none ↦ s
    | some c ↦ recover s (consume parse c message s)
  ]

  unfoldable pub step : Step → Server → Server
  unfolding connect channel_ready close deliver cancel emit
  step (connects url) s = connect url s
  step (readies i) s = channel_ready i s
  step (closes socket) s = close socket s
  step (delivers queue none) s = cancel queue (deliver queue none s)
  step (delivers queue (some message)) s = deliver queue (some message) s
  step (emits event body) s = emit event body s

  unfoldable pub run : List Step → Server → Server
  run [] s = s
  run (x ∷ xs) s = run xs (step x s)
