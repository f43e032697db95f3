-- ===== src/Content/Held.antt =====
-- After a call of `cacheContent` that is not rejected the table has a row of the transaction.
use boostpow_api.Base.{
  String, Bool, true, false, Option, none, some, List, ◌≡◌, refl, inl, inr, str_eq_refl, nat_eq,
  is_some, Bool-cases, Option-cases, if◌then◌else◌,
}
use boostpow_api.Base.Lists.{In, In-append_right, In-map, head?, find? as find_row}
use boostpow_api.Base.Action.{
  Result, ok, err, Result-cases, pure, lift, ◌>>=◌, Ensures, >>=-Ensures, catch-Ensures,
  lift-Ensures,
}
use boostpow_api.Boost.Network.{IsLookup}
use boostpow_api.Content.{
  given, Row, World, Bmap, BFile, Event, MapEntry, Head, headers, failed, Env, ContentAction,
}
use boostpow_api.Content.Outputs.{parse_event_outputs, parse_b_outputs, parse_bmap_transaction}
use boostpow_api.Content.Cache.{
  has_txid, create, set, create_b_file, create_event, create_from, create_from_server, set_bmap,
  first_entry, is_reply, link_reply, index_reply, is_chat, post_message, index_chat,
  read_transaction, find_or_read, index_content, fall_back, cache_content,
}

module _ (env : Env) (lookup : IsLookup env.find_one) (txid : String) where
  -- The table has a row of the transaction.
  abbrev pub IsCached : World → Type 0
  IsCached w = (r : Row) × In r w.contents × (has_txid txid r ≡ true)

  abbrev pub Anything : World → Type 0
  Anything w = Unit

  -- If there is content, the table has its row.
  abbrev IsHeld : Option Row → World → Type 0
  IsHeld none w = Unit
  IsHeld (some row) w = IsCached w

  abbrev pub Holds : {A : Type 0} → A → World → Type 0
  Holds a w = IsCached w

  create-IsCached : (fill : Row → Row) → Ensures Anything (create txid fill) Holds
  unfolding create has_txid
  create-IsCached fill w h = elim (Option-cases (find_row (has_txid txid) w.contents)) [
    | inr (r, e) ↦ rw (e, create) tt
    | inl e ↦ rw (e, create) (_, In-append_right _ w.contents _ (inl refl), str_eq_refl txid)
  ]

  created-IsHeld :
      (fill : Row → Row) → Ensures Anything (create txid fill >>= λ row. pure (some row)) IsHeld
  created-IsHeld fill =
      >>=-Ensures Anything Holds IsHeld (create txid fill) (λ row. pure (some row))
        (create-IsCached fill) (λ row w h. h)

  set-IsCached : (change : Row → Row) (row : Row) → Ensures IsCached (set change row) Holds
  unfolding set has_txid
  set-IsCached change row w (r, here, same) =
      let f : Row → Row =
        λ x. if nat_eq x.id row.id then record (change x) { id = x.id; txid = x.txid } else x in
      (
        f r,
        In-map f r w.contents here,
        elim (Bool-cases (nat_eq r.id row.id)) [ inl e ↦ rw e same | inr e ↦ rw e same ],
      )

  create_b_file-IsHeld : (file : Option BFile) → Ensures Anything (create_b_file txid file) IsHeld
  unfolding create_b_file
  create_b_file-IsHeld none w h = tt
  create_b_file-IsHeld (some file) w h = created-IsHeld _ w h

  create_event-IsHeld :
      (content : Option Row) (event : Option Event)
      → Ensures (IsHeld content) (create_event txid content event) IsHeld
  unfolding create_event
  create_event-IsHeld content none w h = h
  create_event-IsHeld content (some event) w h = created-IsHeld _ w tt

  create_from-IsHeld :
      (type : String) (reply : Result (Option String)) (content : Option Row)
      → Ensures (IsHeld content) (create_from txid type reply content) IsHeld
  unfolding create_from
  create_from-IsHeld type reply (some row) w h = h
  create_from-IsHeld type (err e) none w h = tt
  create_from-IsHeld type (ok none) none w h = tt
  create_from-IsHeld type (ok (some json)) none w h =
      catch-Ensures Anything IsHeld _ (λ e. pure none) (created-IsHeld _) (λ e v k. tt) w h

  create_from_server-IsCached :
      (head : Head) (reply : Result String) (content : Option Row)
      → Ensures (IsHeld content) (create_from_server txid head reply content) Holds
  unfolding create_from_server
  create_from_server-IsCached head reply (some row) w h = h
  create_from_server-IsCached (failed false) reply none w h = tt
  create_from_server-IsCached (failed true) reply none w h =
      >>=-Ensures Anything Holds Holds (create txid _) (λ row. pure (row, true)) (create-IsCached _)
        (λ row v k. k) w h
  create_from_server-IsCached (headers type) reply none w h =
      >>=-Ensures Anything Holds Holds (create txid _) (λ row. pure (row, true)) (create-IsCached _)
        (λ row v k. k) w h

  set_bmap-IsCached : (bmap : Option Bmap) (row : Row) → Ensures IsCached (set_bmap bmap row) Holds
  unfolding set_bmap
  set_bmap-IsCached none row w h = h
  set_bmap-IsCached (some bmap) row w h = elim (Bool-cases (is_some row.bmap)) [
    | inl e ↦ rw (e, set_bmap) h
    | inr e ↦ rw (e, set_bmap) (set-IsCached _ row w h)
  ]

  link_reply-IsCached :
      (tx : Option String) (row : Row) → Ensures IsCached (link_reply env tx row) Holds
  unfolding link_reply
  link_reply-IsCached none row w h = tt
  link_reply-IsCached (some tx) row w h =
      elim (Option-cases (env.find_one (has_txid tx) w.contents)) [
        | inl e ↦ rw (e, link_reply) h
        | inr (post, e) ↦ rw (e, link_reply) (set-IsCached _ row w h)
      ]

  index_reply-IsCached :
      (bmap : Option Bmap) (row : Row) → Ensures IsCached (index_reply env bmap row) Holds
  unfolding index_reply
  index_reply-IsCached bmap row w h = elim (Option-cases (given row.context_txid)) [
    | inr (context, e) ↦ rw (e, index_reply) h
    | inl e ↦ elim (Result-cases (first_entry bmap)) [
      | inr (x, k) ↦ rw (e, index_reply, k) tt
      | inl (none, k) ↦ rw (e, index_reply, k) h
      | inl (some m, k) ↦ elim (Bool-cases (is_reply m)) [
        | inl t ↦ rw (e, index_reply, k, t) (link_reply-IsCached m.tx row w h)
        | inr f ↦ rw (e, index_reply, k, f) h
      ]
    ]
  ]

  post_message-IsCached :
      (bmap : Option Bmap) (m : MapEntry) (row : Row)
      → Ensures IsCached (post_message env bmap m row) Holds
  unfolding post_message set
  post_message-IsCached bmap m row w h = elim (Option-cases m.channel) [
    | inl e ↦ rw (e, post_message) tt
    | inr (name, e) ↦
        rw (e, post_message) (set-IsCached (λ r. record r { bitchat_channel = some name }) row w h)
  ]

  index_chat-IsCached :
      (bmap : Option Bmap) (row : Row) → Ensures IsCached (index_chat env bmap row) Holds
  unfolding index_chat
  index_chat-IsCached bmap row w h = elim (Option-cases (given row.bitchat_channel)) [
    | inr (channel, e) ↦ rw (e, index_chat) h
    | inl e ↦ elim (Result-cases (first_entry bmap)) [
      | inr (x, k) ↦ rw (e, index_chat, k) tt
      | inl (none, k) ↦ rw (e, index_chat, k) h
      | inl (some m, k) ↦ elim (Bool-cases (is_chat env m)) [
        | inl t ↦ rw (e, index_chat, k, t) (post_message-IsCached bmap m row w h)
        | inr f ↦ rw (e, index_chat, k, f) h
      ]
    ]
  ]

  index_content-IsCached :
      (bmap : Option Bmap) (row : Row) → Ensures IsCached (index_content env bmap row) Holds
  unfolding index_content
  index_content-IsCached bmap row =
      >>=-Ensures IsCached Holds Holds (set_bmap bmap row)
        (λ row₁. index_reply env bmap row₁ >>= λ row₂. index_chat env bmap row₂)
        (set_bmap-IsCached bmap row)
        (λ row₁.
          >>=-Ensures IsCached Holds Holds (index_reply env bmap row₁)
            (λ row₂. index_chat env bmap row₂) (index_reply-IsCached bmap row₁)
            (index_chat-IsCached bmap))

  fall_back-IsCached :
      (content : Option Row) → Ensures (IsHeld content) (fall_back env txid content) Holds
  unfolding fall_back
  fall_back-IsCached content =
      >>=-Ensures (IsHeld content) IsHeld Holds (create_from txid "video" (env.video txid) content)
        (λ c. create_from txid "text/calendar" (env.meeting txid) c >>= λ d.
          create_from_server txid (env.head txid) (env.get_text txid) d)
        (create_from-IsHeld "video" (env.video txid) content)
        (λ c.
          >>=-Ensures (IsHeld c) IsHeld Holds
            (create_from txid "text/calendar" (env.meeting txid) c)
            (λ d. create_from_server txid (env.head txid) (env.get_text txid) d)
            (create_from-IsHeld "text/calendar" (env.meeting txid) c)
            (create_from_server-IsCached (env.head txid) (env.get_text txid)))

  abbrev HeldFirst : Option Row × Option Bmap → World → Type 0
  HeldFirst (content, bmap) w = IsHeld content w

  create_found-IsHeld :
      (hex : String) (c : Option Row) (events : List Event)
      → Ensures
          (IsHeld c)
          (create_event txid c (head? events) >>= λ c'. pure (c', parse_bmap_transaction env hex))
          HeldFirst
  create_found-IsHeld hex c events =
      >>=-Ensures (IsHeld c) IsHeld HeldFirst (create_event txid c (head? events))
        (λ c'. pure (c', parse_bmap_transaction env hex)) (create_event-IsHeld c (head? events))
        (λ c' v p. p)

  read_transaction-IsHeld : Ensures Anything (read_transaction env txid) HeldFirst
  unfolding read_transaction
  read_transaction-IsHeld =
      >>=-Ensures Anything (λ a. Anything) HeldFirst (lift (env.fetch txid)) _
        (lift-Ensures Anything (env.fetch txid))
        (λ hex.
          >>=-Ensures Anything (λ a. Anything) HeldFirst (lift (parse_b_outputs env hex)) _
            (lift-Ensures Anything (parse_b_outputs env hex))
            (λ files.
              >>=-Ensures Anything IsHeld HeldFirst (create_b_file txid (head? files)) _
                (create_b_file-IsHeld (head? files))
                (λ c.
                  >>=-Ensures (IsHeld c) (λ a. IsHeld c) HeldFirst
                    (lift (parse_event_outputs env hex)) _
                    (lift-Ensures (IsHeld c) (parse_event_outputs env hex))
                    (create_found-IsHeld hex c))))

  find_or_read-IsHeld : Ensures Anything (find_or_read env txid) HeldFirst
  unfolding find_or_read
  find_or_read-IsHeld w h = elim (Option-cases (env.find_one (has_txid txid) w.contents)) [
    | inl e ↦ rw (e, find_or_read) (read_transaction-IsHeld w tt)
    | inr (row, e) ↦
        let (here, meets) = lookup.found (has_txid txid) w.contents e in
        rw (e, find_or_read) (row, here, meets)
  ]

  abbrev pub index_found : Option Bmap → Row × Bool → ContentAction (Row × Bool)
  index_found bmap found = index_content env bmap found.0 >>= λ row'. pure (row', found.1)

  index_found-IsCached :
      (bmap : Option Bmap) (found : Row × Bool) → Ensures IsCached (index_found bmap found) Holds
  index_found-IsCached bmap (row, is_new) =
      >>=-Ensures IsCached Holds Holds (index_content env bmap row) (λ row'. pure (row', is_new))
        (index_content-IsCached bmap row) (λ row' w h. h)

  pub cache_content-IsCached : Ensures Anything (cache_content env txid) Holds
  unfolding cache_content
  cache_content-IsCached =
      >>=-Ensures Anything HeldFirst Holds (find_or_read env txid) _ find_or_read-IsHeld
        (λ (content, bmap).
          >>=-Ensures (IsHeld content) Holds Holds (fall_back env txid content) (index_found bmap)
            (fall_back-IsCached content) (index_found-IsCached bmap))
