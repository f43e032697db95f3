-- ===== src/Rankings/Handled.antt =====
-- src/server/handlers/rankings.ts. What the queries of the issues and the meetings give is an argument.
use boostpow_api.Base.{
  ℕ, zero, suc, ◌*◌, ◌≤◌, String, Bool, true, false, Option, none, some, List, ◌≡◌, ◌↔◌, refl,
}
use boostpow_api.Handlers.{milliseconds, truthy_number}
use boostpow_api.Rankings.{
  RankContent, Where, truthy_tag, content_where, tags_where, Group, Ranked, Queries, rank_content,
  Period, Cache, rank_content_with_cache,
}
use boostpow_api.Rankings.Conditions.{
  Work, Selects, HasTag, AtLeast, AtMost, LastBound, content_where_iff, tags_where_iff,
}

-- `req.query`, whose dates are unix timestamps.
pub record RankQuery : Type 0 where
  pub start_date : Option ℕ
  pub end_date : Option ℕ
  pub tag : Option String

-- `new Date(start_date * 1000)`, if the date is truthy; 0 is handed on and is not truthy there.
unfoldable pub params_of : Bool → RankQuery → RankContent
params_of images q = record {
  start_date = milliseconds (truthy_number q.start_date);
  end_date = milliseconds (truthy_number q.end_date);
  tag = q.tag;
  images = images;
}

module _ (db : Queries) where
  unfoldable pub index : RankQuery → List Ranked
  unfolding params_of
  index q = rank_content db (params_of false q)

  unfoldable pub images : RankQuery → List Ranked
  unfolding params_of
  images q = rank_content db (params_of true q)

  unfoldable pub by_timeframe : (Period → ℕ) → String → Option String → Cache → List Ranked × Cache
  by_timeframe before timeframe tag cache = rank_content_with_cache db before timeframe tag cache

-- A group of proofs by tag.
pub record TagGroup : Type 0 where
  pub tag : String
  pub difficulty : ℕ
  pub count : ℕ

-- `rankTags`, and the handler over it, which hands on no tag.
unfoldable pub tags : (Where → List TagGroup) → RankQuery → List TagGroup
unfolding params_of
tags find_tags q = find_tags (tags_where (params_of false (record q { tag = none })))

-- A date as it is handed on: 0 stays 0.
abbrev pub handed_on : Option ℕ → Option ℕ
handed_on none = none
handed_on (some s) = some (s * 1000)

unfoldable pub issues : (Option ℕ → Option ℕ → List Group) → RankQuery → List Group
issues rank_issues q = rank_issues (handed_on q.start_date) (handed_on q.end_date)

unfoldable pub meetings : (Option ℕ → Option ℕ → List Group) → RankQuery → List Group
meetings rank_meetings q = rank_meetings (handed_on q.start_date) (handed_on q.end_date)

-- A bound in seconds, of which 0 is none, on a time in milliseconds.
abbrev pub Since : Option ℕ → ℕ → Type 0
Since none t = Unit
Since (some zero) t = Unit
Since (some (suc s)) t = suc s * 1000 ≤ t

abbrev pub Until : Option ℕ → ℕ → Type 0
Until none t = Unit
Until (some zero) t = Unit
Until (some (suc s)) t = t ≤ suc s * 1000

-- The last bound that is given counts alone.
abbrev pub LastSecond : Option ℕ → Option ℕ → ℕ → Type 0
LastSecond start none t = Since start t
LastSecond start (some zero) t = Since start t
LastSecond start (some (suc s)) t = t ≤ suc s * 1000

Since-eq : (s : Option ℕ) (t : ℕ) → AtLeast (milliseconds (truthy_number s)) t ≡ Since s t
unfolding truthy_number
Since-eq none t = refl
Since-eq (some zero) t = refl
Since-eq (some (suc s)) t = refl

Until-eq : (s : Option ℕ) (t : ℕ) → AtMost (milliseconds (truthy_number s)) t ≡ Until s t
Until-eq none t = refl
Until-eq (some zero) t = refl
Until-eq (some (suc s)) t = refl

LastSecond-eq :
    (start stop : Option ℕ) (t : ℕ)
    → LastBound (milliseconds (truthy_number start)) (milliseconds (truthy_number stop)) t
      ≡ LastSecond start stop t
LastSecond-eq start none t = Since-eq start t
LastSecond-eq start (some zero) t = Since-eq start t
LastSecond-eq start (some (suc s)) t = refl

-- The query of a request for the ranking, of all contents or of images, selects a proof exactly if
-- its time is not before the start, not after the end, which are seconds and count unless they are
-- 0, and its tag the one that is given and not empty. That of a request for the tags selects by one
-- bound: the end if it counts, and else the start.
pub params_of_iff :
    (all : Bool) (q : RankQuery) (row : Work)
    → (Selects (content_where (params_of all q)) row ↔ (
        Since q.start_date row.timestamp
        × Until q.end_date row.timestamp
        × HasTag (truthy_tag q.tag) row.tag))
      × (Selects (tags_where (params_of all (record q { tag = none }))) row
          ↔ LastSecond q.start_date q.end_date row.timestamp)
unfolding params_of
params_of_iff all q row = (
  rw (← Since-eq q.start_date row.timestamp, ← Until-eq q.end_date row.timestamp)
      (content_where_iff (params_of all q) row),
  rw (← LastSecond-eq q.start_date q.end_date row.timestamp)
      (tags_where_iff (params_of all (record q { tag = none })) row),
)
