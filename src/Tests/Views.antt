-- ===== src/Tests/Views.antt =====
-- Runs of the rankings and of the feed.
use boostpow_api.Base.{ℕ, ◌<◌, true, none, some, List, [], ◌∷◌, ◌≡◌, ◌↔◌, inl, inr}
use boostpow_api.Base.Lists.{In, length}
use boostpow_api.Rankings.{
  truthy_tag, RankContent, Ranked, Queries, Period, rank_content, content_where, tags_where,
}
use boostpow_api.Rankings.Conditions.{Work, Selects, IsWanted, HasTag, content_where_iff}
use boostpow_api.Rankings.Join.{OneEach, Ranks, rank_content_lem}
use boostpow_api.Rankings.Stale.{Event, asks}
use boostpow_api.Rankings.Handled.{RankQuery, params_of, Since, Until, LastSecond, params_of_iff}
use boostpow_api.Feed.{rank_day, get_multi_day_feed}
use boostpow_api.Feed.Laws.{entries, IsFresh, ComeFrom, Lists, get_multi_day_feed_lem}

abbrev params : RankContent
params = record { start_date = some 10; end_date = some 20; tag = some "t"; images = true }

abbrev db : Queries
db = record {
  find_proofs = λ w.
      record { content = "a"; difficulty = 9; count = 2 }
      ∷ record { content = "b"; difficulty = 4; count = 1 }
      ∷ [];
  find_contents = λ ids images. record { txid = "a"; content_type = "image/png" } ∷ [];
}

abbrev work : Work
work = record { timestamp = 15; tag = "t" }

abbrev before : Period → ℕ
before period = 0

content_where_iff_example : Selects (content_where params) work ↔ IsWanted params work
content_where_iff_example = content_where_iff params work

abbrev rank_query : RankQuery
rank_query = record { start_date = some 1; end_date = some 2; tag = some "t" }

params_of_iff_example :
    (Selects (content_where (params_of true rank_query)) work
      ↔ (Since (some 1) 15 × Until (some 2) 15 × HasTag (truthy_tag (some "t")) "t"))
    × (Selects (tags_where (params_of true (record rank_query { tag = none }))) work
        ↔ LastSecond (some 1) (some 2) 15)
params_of_iff_example = params_of_iff true rank_query work

one_row : OneEach (db.find_contents ("a" ∷ "b" ∷ []) true)
one_row c d (inl e) (inl k) same = cc
one_row c d (inl e) (inr k) same = elim k [ ]
one_row c d (inr h) _ same = elim h [ ]

rank_content_lem_example :
    let proofs = db.find_proofs (content_where params) in
    Ranks true (db.find_contents ("a" ∷ "b" ∷ []) true) proofs (rank_content db params)
rank_content_lem_example = rank_content_lem db params one_row

-- The job runs, and two days and the last week are asked for.
abbrev events : List Event
events = asks db before "2-days" none ∷ asks db before "last-week" none ∷ []

get_multi_day_feed_lem_example :
    let feed = get_multi_day_feed db (λ n. 100) 2 in
    let rank = rank_day db (λ n. 100) in
    (length feed ≡ 2)
    × IsFresh [] (entries feed)
    × ComeFrom rank 0 feed
    × ((j : ℕ) (r : Ranked) → j < 2 → In r (rank j) → Lists (entries feed) r.content_txid)
get_multi_day_feed_lem_example = get_multi_day_feed_lem db (λ n. 100) 2
