-- ===== src/Feed.antt =====
-- src/feeds/multi_day_feed.ts: the rankings of the last days, each content only once.
pub mod Laws
use boostpow_api.Base.{
  ℕ, zero, suc, ◌+◌, String, Bool, true, false, ◌||◌, Option, none, some, List, [], ◌∷◌, str_eq,
  if◌then◌else◌,
}
use boostpow_api.Rankings.{RankContent, Ranked, Queries, rank_content}

-- `txids[txid]` on the object of the content seen so far.
unfoldable pub contains : List String → String → Bool
contains [] txid = false
contains (t ∷ ts) txid = str_eq t txid || contains ts txid

-- `rankedContent.filter(…)`: what is new, and the object with it added.
unfoldable pub filter_new : List String → List Ranked → List Ranked × List String
filter_new seen [] = ([], seen)
filter_new seen (r ∷ rs) = elim (contains seen r.content_txid) [
  | true ↦ filter_new seen rs
  | false ↦ let (kept, seen') = filter_new (r.content_txid ∷ seen) rs in (r ∷ kept, seen')
]

-- The loop from day `i` on; `rank i` is the ranking between `i + 1` and `i` days ago.
unfoldable pub feed_from : (ℕ → List Ranked) → ℕ → ℕ → List String → List (List Ranked)
unfolding filter_new
feed_from rank zero i seen = []
feed_from rank (suc left) i seen =
    let (kept, seen') = filter_new seen (rank i) in kept ∷ feed_from rank left (i + 1) seen'

-- `days_ago n` is moment's clock with `n` days subtracted.
abbrev pub rank_day : Queries → (ℕ → ℕ) → ℕ → List Ranked
rank_day db days_ago i = rank_content db (record {
  start_date = some (days_ago (i + 1));
  end_date = some (days_ago i);
  tag = none;
  images = false;
})

unfoldable pub get_multi_day_feed : Queries → (ℕ → ℕ) → ℕ → List (List Ranked)
unfolding feed_from
get_multi_day_feed db days_ago days = feed_from (rank_day db days_ago) days 0 []

-- The key `multi_day_feed` of redis; null is `none`.
unfoldable pub cache_multi_day_feed :
    Queries → (ℕ → ℕ) → Option (List (List Ranked)) → Option (List (List Ranked))
cache_multi_day_feed db days_ago stored = some (get_multi_day_feed db days_ago 7)

-- The second `const result` is another variable: after a miss the answer is `JSON.parse(null)`.
unfoldable pub get_cached_multi_day_feed :
    Queries
    → (ℕ → ℕ)
    → Option (List (List Ranked))
    → Option (List (List Ranked)) × Option (List (List Ranked))
get_cached_multi_day_feed db days_ago none = (none, cache_multi_day_feed db days_ago none)
get_cached_multi_day_feed db days_ago (some feed) = (some feed, some feed)
