-- ===== src/Content/Again.antt =====
-- What a second call of `cacheContent` answers.
use boostpow_api.Base.{
  String, Bool, false, Option, none, some, ◌≡◌, ◌∙◌, inl, inr, str_eq_iff, Option-cases,
}
use mathlib.Core.Bool.{false≢true}
use mathlib.Core.Path.{sym, subst}
use boostpow_api.Base.Lists.{In, All-In}
use boostpow_api.Base.Action.{ok, pure, ◌>>=◌, >>=-ok, Outcome}
use boostpow_api.Boost.Network.{IsLookup}
use boostpow_api.Content.{given, Row, World, Bmap, Env}
use boostpow_api.Content.Cache.{
  has_txid, create_from, create_from_server, set_bmap, first_entry, index_reply, index_chat,
  find_or_read, index_content, fall_back, cache_content,
}
use boostpow_api.Content.Held.{Holds, index_found, cache_content-IsCached}

module _ (env : Env) (lookup : IsLookup env.find_one) (txid : String) where
  index_reply-none : (row : Row) (w : World) → index_reply env none row w ≡ (ok row, w)
  unfolding index_reply first_entry
  index_reply-none row w = elim (Option-cases (given row.context_txid)) [
    | inl e ↦ rw (e, index_reply)
    | inr (context, e) ↦ rw (e, index_reply)
  ]

  index_chat-none : (row : Row) (w : World) → index_chat env none row w ≡ (ok row, w)
  unfolding index_chat first_entry
  index_chat-none row w = elim (Option-cases (given row.bitchat_channel)) [
    | inl e ↦ rw (e, index_chat)
    | inr (channel, e) ↦ rw (e, index_chat)
  ]

  index_content-none : (row : Row) (w : World) → index_content env none row w ≡ (ok row, w)
  unfolding index_content set_bmap
  index_content-none row w =
      >>=-ok (index_reply env none row) w (λ row₂. index_chat env none row₂)
        (index_reply-none row w)
      ∙ index_chat-none row w

  cache_content_found :
      (row : Row) (w : World)
      → env.find_one (has_txid txid) w.contents ≡ some row
      → cache_content env txid w ≡ (ok (row, false), w)
  unfolding cache_content find_or_read fall_back create_from create_from_server
  cache_content_found row w e =
      >>=-ok (find_or_read env txid) w
        (λ (x : Option Row × Option Bmap).
          fall_back env txid x.0 >>= index_found env lookup txid x.1)
        find_or_read_found
      ∙ >>=-ok (index_content env none row) w (λ row'. pure (row', false))
          (index_content-none row w)
    where
      find_or_read_found : find_or_read env txid w ≡ (ok (some row, none), w)
      find_or_read_found = rw (e, find_or_read)

  -- If content is cached, then a second call answers with a row of the transaction that is in the
  -- table, says that it is not new, and changes nothing. `findOne` is taken to answer with a row
  -- that meets the condition, and with null only where there is none.
  pub cache_content_again :
      (w w' : World) (answer : Row × Bool)
      → cache_content env txid w ≡ (ok answer, w')
      → (row : Row) × In row w'.contents
        × (row.txid ≡ txid)
        × (cache_content env txid w' ≡ (ok (row, false), w'))
  unfolding has_txid
  cache_content_again w w' answer h =
      let (r, here, same) =
        subst (Outcome {A = Row × Bool} (Holds env lookup txid)) h
          (cache_content-IsCached env lookup txid w tt) in
      elim (Option-cases (env.find_one (has_txid txid) w'.contents)) [
        | inl e ↦ absurd (
            false≢true (
              sym (
                All-In (λ x. has_txid txid x ≡ false) r w'.contents
                  (lookup.missed (has_txid txid) w'.contents e) here)
              ∙ same))
        | inr (row, e) ↦
            let (there, meets) = lookup.found (has_txid txid) w'.contents e in
            (row, there, (str_eq_iff row.txid txid).0 meets, cache_content_found row w' e)
      ]
