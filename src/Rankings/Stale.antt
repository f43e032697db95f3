-- ===== src/Rankings/Stale.antt =====
-- What the cache by timeframe answers as time goes by.
use boostpow_api.Base.{ℕ, ◌≤◌, String, Option, none, some, List, [], ◌∷◌, ◌≡◌, false}
use boostpow_api.Base.Tests.{str_eq}
use boostpow_api.Base.Lists.{take, length, All, In}
use boostpow_api.Rankings.{
  Period, Cache, Ranked, read_cache, Queries, rank_content_with_cache, rank_content, period_of,
  refresh, refreshed,
}

-- A request, or the job of a minute, which finds the database and the clock at its own times; its
-- queries are taken to succeed.
pub data Event : Type 0 where
  asks : Queries → (Period → ℕ) → String → Option String → Event
  ticks : (String → Queries) → (String → Period → ℕ) → Event

unfoldable pub serve : Event → Cache → Cache
unfolding rank_content_with_cache refresh
serve (asks db before timeframe tag) cache =
    (rank_content_with_cache db before timeframe tag cache).1
serve (ticks db before) cache = refresh db before refreshed cache

unfoldable pub serve_all : List Event → Cache → Cache
unfolding serve
serve_all [] cache = cache
serve_all (e ∷ es) cache = serve_all es (serve e cache)

-- The event refreshes nothing of this timeframe.
abbrev pub Leaves : String → Event → Type 0
Leaves timeframe (asks db before other tag) = Unit
Leaves timeframe (ticks db before) = All (λ other. str_eq other timeframe ≡ false) refreshed

-- The ranking that `cacheTimeframe` computes.
abbrev pub ranking : Queries → (Period → ℕ) → String → List Ranked
ranking db before timeframe = rank_content db (record {
  start_date = some (before (period_of timeframe));
  end_date = none;
  tag = none;
  images = false;
})

-- No timeframe comes twice.
abbrev AreDistinct : List String → Type 0
AreDistinct [] = Unit
AreDistinct (t ∷ ts) = All (λ other. str_eq other t ≡ false) ts × AreDistinct ts

-- The request that comes after these events is answered by the first hundred entries of the ranking,
-- which are at most a hundred, and writes nothing.
abbrev pub AnswersBy :
    List Ranked → Queries → (Period → ℕ) → String → Option String → Cache → Type 0
AnswersBy result db before timeframe tag now =
    (rank_content_with_cache db before timeframe tag now ≡ (take 100 result, now))
    × (length (take 100 result) ≤ 100)

-- The event computes the ranking of this timeframe: the job of a minute, if it refreshes it, or a
-- request that does not find it.
abbrev pub Computes : Event → Cache → String → List Ranked → Type 0
Computes (ticks db before) cache timeframe result =
    In timeframe refreshed × (result ≡ ranking (db timeframe) (before timeframe) timeframe)
Computes (asks db before other tag) cache timeframe result =
    (other ≡ timeframe)
    × (read_cache timeframe cache ≡ none)
    × (result ≡ ranking db before timeframe)
