-- ===== src/Content/Cache.antt =====
-- src/content.ts: `cacheContent`.
use text.Mathlib.Text.{find?}
use boostpow_api.Base.{
  ℕ, ◌+◌, String, Bool, true, false, not, ◌&&◌, Option, none, some, List, [], ◌∷◌, ◌++◌, str_eq,
  nat_eq, is_some, if◌then◌else◌,
}
use boostpow_api.Base.Lists.{find? as find_row, head?}
use boostpow_api.Base.Action.{
  type_error, external, Result, ok, err, pure, throw, lift, gets, modify, catch, ◌>>=◌, ◌>>◌,
}
use boostpow_api.Boost.Store.{update_row}
use boostpow_api.Content.{
  given, equals, Event, BFile, MapEntry, Bmap, Row, Channel, Message, channel_message, chat_message,
  player_message, Head, headers, failed, Env, ContentAction,
}
use boostpow_api.Content.Outputs.{parse_event_outputs, parse_b_outputs, parse_bmap_transaction}

unfoldable pub has_txid : String → Row → Bool
has_txid txid r = str_eq r.txid txid

abbrev pub blank : String → ℕ → Row
blank txid id = record {
  id = id;
  txid = txid;
  content_type = none;
  content_json = none;
  content_text = none;
  content_bytes = none;
  map = none;
  bmap = none;
  context_txid = none;
  bitchat_channel = none;
}

-- `create(Content, …)`: the table's index on `txid` is unique.
unfoldable pub create : String → (Row → Row) → ContentAction Row
create txid fill w = elim (find_row (has_txid txid) w.contents) [
  | some r ↦ (err (external "SequelizeUniqueConstraintError"), w)
  | none ↦
      let row = record (fill (blank txid w.next_id)) { id = w.next_id; txid = txid } in
      (ok row, record w { contents = w.contents ++ row ∷ []; next_id = w.next_id + 1 })
]

-- `content.set(key, value)`: the object and its row; the id and the transaction are never set.
unfoldable pub set : (Row → Row) → Row → ContentAction Row
set change row w =
    let row' = record (change row) { id = row.id; txid = row.txid } in
    (
      ok row',
      record w {
        contents =
            update_row (λ r. nat_eq r.id row.id)
              (λ r. record (change r) { id = r.id; txid = r.txid }) w.contents;
      },
    )

unfoldable pub create_b_file : String → Option BFile → ContentAction (Option Row)
create_b_file txid none = pure none
create_b_file txid (some file) = do
  row ←
      create txid
        (λ r. record r { content_type = some file.media_type; content_text = file.content })
  pure (some row)

-- A second row for the same transaction takes the place of the first in the variable.
unfoldable pub create_event : String → Option Row → Option Event → ContentAction (Option Row)
create_event txid content none = pure content
create_event txid content (some event) = do
  row ← create txid (λ r. record r {
    content_json = some event.content;
    content_type = some "application/json";
    map = some (event.app, event.type);
  })
  pure (some row)

-- The two requests to pow.co; every error is caught.
unfoldable pub create_from :
    String → String → Result (Option String) → Option Row → ContentAction (Option Row)
create_from txid type reply (some row) = pure (some row)
create_from txid type (err e) none = pure none
create_from txid type (ok none) none = pure none
create_from txid type (ok (some json)) none =
    catch
      (do
        row ← create txid (λ r. record r { content_type = some type; content_json = some json })
        pure (some row))
      (λ e. pure none)

-- `content_type.match('text/markdown')`, which throws for undefined, and what it guards.
unfoldable pub is_markdown : Option String → Bool
is_markdown none = false
is_markdown (some type) = is_some (find? type "text/markdown")

unfoldable pub text_of : Option String → Result String → Option String
text_of type reply =
    if is_markdown type then elim reply [ ok text ↦ some text | err e ↦ none ] else none

-- The file server is the last to be asked. The handler of an error reads `error.response.error`,
-- which throws where the error has no response.
unfoldable pub create_from_server :
    String → Head → Result String → Option Row → ContentAction (Row × Bool)
create_from_server txid head reply (some row) = pure (row, false)
create_from_server txid (failed false) reply none = throw type_error
create_from_server txid (failed true) reply none = do row ← create txid (λ r. r); pure (row, true)
create_from_server txid (headers type) reply none = do
  row ← create txid (λ r. record r {
    content_type = type;
    content_text = text_of type reply;
    content_bytes = text_of type reply;
  })
  pure (row, true)

unfoldable pub set_bmap : Option Bmap → Row → ContentAction Row
set_bmap none row = pure row
set_bmap (some bmap) row =
    if is_some row.bmap then pure row else set (λ r. record r { bmap = some bmap }) row

-- `bmap.MAP[0]`, where `bmap` and `bmap.MAP` are given; an empty `MAP` throws.
unfoldable pub first_entry : Option Bmap → Result (Option MapEntry)
first_entry none = ok none
first_entry (some bmap) = elim bmap.entries [
  | none ↦ ok none
  | some entries ↦ elim (head? entries) [ none ↦ err type_error | some entry ↦ ok (some entry) ]
]

-- `tx != 'null'`
abbrev pub is_reply : MapEntry → Bool
is_reply entry = equals entry.context "tx" && not (equals entry.tx "null")

module _ (env : Env) where
  -- The post that a reply is to; a condition with an undefined value is rejected by sequelize.
  unfoldable pub link_reply : Option String → Row → ContentAction Row
  link_reply none row = throw (external "WHERE parameter has invalid undefined value")
  link_reply (some tx) row = do
    original ← gets (λ w. env.find_one (has_txid tx) w.contents)
    elim original [
      | none ↦ pure row
      | some post ↦ set (λ r. record r { context_txid = some tx }) row
    ]

  unfoldable pub index_reply : Option Bmap → Row → ContentAction Row
  index_reply bmap row = elim (given row.context_txid) [
    | some context ↦ pure row
    | none ↦ do
      entry ← lift (first_entry bmap)
      elim entry [ none ↦ pure row | some m ↦ if is_reply m then link_reply m.tx row else pure row ]
  ]

  -- `ChatChannel.findOrCreate`, and the assignments that are saved.
  unfoldable pub touch_channel : String → Option Bmap → ℕ → List Channel → List Channel
  touch_channel name bmap id [] =
      record { channel = name; last_message = bmap; last_message_of = some id } ∷ []
  touch_channel name bmap id (c ∷ cs) =
      if str_eq c.channel name
      then record c { last_message = bmap; last_message_of = some id } ∷ cs
      else c ∷ touch_channel name bmap id cs

  unfoldable pub messages_of : MapEntry → Row → List Message
  messages_of m row =
      channel_message m.channel row
      ∷ chat_message row
      ∷ elim (given m.paymail) [ none ↦ [] | some paymail ↦ player_message paymail row ∷ [] ]

  unfoldable pub post_message : Option Bmap → MapEntry → Row → ContentAction Row
  post_message bmap m row = do
    row' ← set (λ r. record r { bitchat_channel = m.channel }) row
    modify (λ w. record w { published = w.published ++ messages_of m row' })
    elim m.channel [
      | none ↦ throw (external "WHERE parameter has invalid undefined value")
      | some name ↦ do
        modify (λ w. record w { channels = touch_channel name bmap row.id w.channels })
        pure row'
    ]

  abbrev pub is_chat : MapEntry → Bool
  is_chat m = equals m.context "channel" && equals m.type "message"

  unfoldable pub index_chat : Option Bmap → Row → ContentAction Row
  index_chat bmap row = elim (given row.bitchat_channel) [
    | some channel ↦ pure row
    | none ↦ do
      entry ← lift (first_entry bmap)
      elim entry [
        | none ↦ pure row
        | some m ↦ if is_chat m then post_message bmap m row else pure row
      ]
  ]

  -- A transaction that is not in the table is fetched and read.
  unfoldable pub read_transaction : String → ContentAction (Option Row × Option Bmap)
  read_transaction txid = do
    hex ← lift (env.fetch txid)
    files ← lift (parse_b_outputs env hex)
    content ← create_b_file txid (head? files)
    events ← lift (parse_event_outputs env hex)
    content' ← create_event txid content (head? events)
    pure (content', parse_bmap_transaction env hex)

  unfoldable pub find_or_read : String → ContentAction (Option Row × Option Bmap)
  find_or_read txid = do
    content ← gets (λ w. env.find_one (has_txid txid) w.contents)
    elim content [ some row ↦ pure (some row, none) | none ↦ read_transaction txid ]

  unfoldable pub index_content : Option Bmap → Row → ContentAction Row
  index_content bmap row = do
    row₁ ← set_bmap bmap row
    row₂ ← index_reply bmap row₁
    index_chat bmap row₂

  unfoldable pub fall_back : String → Option Row → ContentAction (Row × Bool)
  fall_back txid content = do
    content₁ ← create_from txid "video" (env.video txid) content
    content₂ ← create_from txid "text/calendar" (env.meeting txid) content₁
    create_from_server txid (env.head txid) (env.get_text txid) content₂

  unfoldable pub cache_content : String → ContentAction (Row × Bool)
  cache_content txid = do
    (content, bmap) ← find_or_read txid
    (row, is_new) ← fall_back txid content
    row' ← index_content bmap row
    pure (row', is_new)
