-- ===== src/Rankings/Caching.antt =====
-- The cache of the rankings by timeframe.
use boostpow_api.Base.{ℕ, String, Option, none, some, List, ◌∷◌, ◌≡◌, str_eq_refl}
use boostpow_api.Rankings.{
  Period, Cache, Ranked, read_cache, Queries, cache_timeframe, rank_content_with_cache,
}

pub read_cache_self :
    (timeframe : String) (v : List Ranked) (cache : Cache)
    → read_cache timeframe ((timeframe, v) ∷ cache) ≡ some v
unfolding read_cache
read_cache_self timeframe v cache = rw (str_eq_refl timeframe)

module _ (db : Queries) (before : Period → ℕ) where
  pub rank_content_with_cache_miss :
      (timeframe : String) (tag : Option String) (cache : Cache)
      → read_cache timeframe cache ≡ none
      → rank_content_with_cache db before timeframe tag cache
        ≡ cache_timeframe db before timeframe cache
  unfolding rank_content_with_cache
  rank_content_with_cache_miss timeframe tag cache e = rw (e, rank_content_with_cache)

  pub rank_content_with_cache_hit :
      (timeframe : String) (tag : Option String) (cache : Cache) (v : List Ranked)
      → read_cache timeframe cache ≡ some v
      → rank_content_with_cache db before timeframe tag cache ≡ (v, cache)
  unfolding rank_content_with_cache
  rank_content_with_cache_hit timeframe tag cache v e = rw (e, rank_content_with_cache)
