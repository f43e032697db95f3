-- ===== src/Rankings.antt =====
-- src/rankings.ts: the conditions of the queries, the join of proofs and contents, and the cache by
-- timeframe. What the database and redis answer is an argument.
pub mod Conditions
pub mod Join
pub mod Caching
pub mod Stale
pub mod Handled
use boostpow_api.Base.{
  ℕ, zero, suc, String, Bool, true, false, not, ◌&&◌, ◌||◌, Option, none, some, List, [], ◌∷◌, map,
  str_eq, nat_eq, is_some, leb, if◌then◌else◌,
}
use boostpow_api.Base.Lists.{cons_option, take}
use text.Mathlib.Text.{find?}

-- Dates are milliseconds; a tag is truthy if it is not empty.
pub record RankContent : Type 0 where
  pub start_date : Option ℕ
  pub end_date : Option ℕ
  pub tag : Option String
  pub images : Bool

-- The object `where` of a query on BoostWork: `timestamp[gte]`, `timestamp[lte]` and `tag`.
pub record Where : Type 0 where
  pub gte : Option ℕ
  pub lte : Option ℕ
  pub tag : Option String

abbrev pub no_condition : Where
no_condition = record { gte = none; lte = none; tag = none }

abbrev pub truthy_tag : Option String → Option String
truthy_tag none = none
truthy_tag (some t) = if str_eq t "" then none else some t

-- `if (params.start_date) { where['timestamp'][Op.gte] = params.start_date }`, into what is there.
unfoldable pub add_start : Option ℕ → Where → Where
add_start none w = w
add_start (some t) w = record w { gte = some t }

unfoldable pub add_end : Option ℕ → Where → Where
add_end none w = w
add_end (some t) w = record w { lte = some t }

unfoldable pub add_tag : Option String → Where → Where
add_tag none w = w
add_tag (some t) w = record w { tag = some t }

-- The conditions of `rankContent`.
unfoldable pub content_where : RankContent → Where
unfolding add_start add_end add_tag
content_where params =
    add_tag (truthy_tag params.tag)
      (add_end params.end_date (add_start params.start_date no_condition))

-- `where['timestamp'] = { [Op.gte]: … }` puts a new object in the place of the old one.
unfoldable pub set_start : Option ℕ → Where → Where
set_start none w = w
set_start (some t) w = record w { gte = some t; lte = none }

unfoldable pub set_end : Option ℕ → Where → Where
set_end none w = w
set_end (some t) w = record w { gte = none; lte = some t }

-- The conditions of `rankTags`.
unfoldable pub tags_where : RankContent → Where
unfolding set_start set_end
tags_where params = set_end params.end_date (set_start params.start_date no_condition)

-- What `findAll` gives for a group of proofs, with the sum of the difficulties (the bit pattern of a
-- double) and their number.
pub record Group : Type 0 where
  pub content : String
  pub difficulty : ℕ
  pub count : ℕ

pub record ContentType : Type 0 where
  pub txid : String
  pub content_type : String

-- The ranked content; an undefined type is `none`.
pub record Ranked : Type 0 where
  pub content_txid : String
  pub content_type : Option String
  pub difficulty : ℕ
  pub count : ℕ

-- `contents.reduce(…)[txid]`: the last row with this key.
unfoldable pub contents_map : List ContentType → String → Option ContentType
contents_map [] txid = none
contents_map (c ∷ cs) txid = elim (contents_map cs txid) [
  | some later ↦ some later
  | none ↦ if str_eq c.txid txid then some c else none
]

-- `content_type.match(/image/)`
unfoldable pub matches_image : String → Bool
matches_image content_type = is_some (find? content_type "image")

abbrev pub type_of : Option ContentType → Option String
type_of none = none
type_of (some c) = some c.content_type

-- `!content || !content.content_type.match(/image/)`
abbrev pub lacks_image : Option ContentType → Bool
lacks_image none = true
lacks_image (some c) = not (matches_image c.content_type)

-- The callback of `proofs.map`; undefined is dropped by the filter behind it.
unfoldable pub rank_group : Bool → Option ContentType → Group → Option Ranked
rank_group images content group =
    if images && lacks_image content
    then none
    else some (record {
      content_txid = group.content;
      content_type = type_of content;
      difficulty = group.difficulty;
      count = group.count;
    })

unfoldable pub rank_groups : Bool → List ContentType → List Group → List Ranked
rank_groups images contents [] = []
rank_groups images contents (g ∷ gs) =
    cons_option (rank_group images (contents_map contents g.content) g)
      (rank_groups images contents gs)

-- The two queries of `rankContent`: the groups by content in falling order of difficulty, and the
-- rows of Content of these ids, with any type or with an image's.
pub record Queries : Type 0 where
  pub find_proofs : Where → List Group
  pub find_contents : List String → Bool → List ContentType

unfoldable pub rank_content : Queries → RankContent → List Ranked
rank_content db params =
    let proofs = db.find_proofs (content_where params) in
    let contents = db.find_contents (map (λ g. g.content) proofs) params.images in
    rank_groups params.images contents proofs

-- The periods that the code hands to moment's `subtract`.
pub data Period : Type 0 where
  hours days weeks months years : ℕ → Period

unfoldable pub period_of : String → Period
period_of timeframe =
    if str_eq timeframe "last-hour"
    then hours 1
    else if str_eq timeframe "last-day"
    then days 1
    else if str_eq timeframe "2-days"
    then days 2
    else if str_eq timeframe "3-days"
    then days 3
    else if str_eq timeframe "last-week"
    then weeks 1
    else if str_eq timeframe "last-month"
    then months 1
    else if str_eq timeframe "last-year"
    then years 1
    else if str_eq timeframe "all-time"
    then years 100
    else days 1

-- The keys `rankings_by_timeframe:…` of redis with their rankings, newest write first. What is
-- stored is JSON, which gives the ranking back.
abbrev pub Cache : Type 0
Cache = List (String × List Ranked)

unfoldable pub read_cache : String → Cache → Option (List Ranked)
read_cache timeframe [] = none
read_cache timeframe ((k, v) ∷ cache) =
    if str_eq k timeframe then some v else read_cache timeframe cache

-- `before` is moment's clock with a period subtracted; only the start date is given.
module _ (db : Queries) (before : Period → ℕ) where
  unfoldable pub cache_timeframe : String → Cache → List Ranked × Cache
  cache_timeframe timeframe cache =
      let result = rank_content db (record {
        start_date = some (before (period_of timeframe));
        end_date = none;
        tag = none;
        images = false;
      }) in
      (result, (timeframe, take 100 result) ∷ cache)

  -- The tag is a parameter that is not read.
  unfoldable pub rank_content_with_cache : String → Option String → Cache → List Ranked × Cache
  rank_content_with_cache timeframe tag cache = elim (read_cache timeframe cache) [
    | some cached ↦ (cached, cache)
    | none ↦ cache_timeframe timeframe cache
  ]

  -- `await cacheTimeframe['last-hour']` and so on: each line reads a property of the function, which
  -- has none of these, and calls nothing.
  unfoldable pub cache_all_timeframes : Cache → Cache
  cache_all_timeframes cache = cache

-- What the job of each minute refreshes, in its order.
abbrev pub refreshed : List String
refreshed = "last-hour" ∷ "last-day" ∷ "last-week" ∷ "last-month" ∷ "last-year" ∷ "all-time" ∷ []

-- The calls of `cacheTimeframe` in turn; each finds the database and the clock at its own time.
unfoldable pub refresh : (String → Queries) → (String → Period → ℕ) → List String → Cache → Cache
unfolding cache_timeframe
refresh db before [] cache = cache
refresh db before (timeframe ∷ more) cache =
    refresh db before more (cache_timeframe (db timeframe) (before timeframe) timeframe cache).1
