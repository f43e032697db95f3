-- ===== src/Rankings/Conditions.antt =====
-- Which proofs the conditions of the rankings select.
use boostpow_api.Base.{ℕ, ◌≤◌, String, Option, none, some, ◌≡◌, ◌↔◌, refl}
use boostpow_api.Rankings.{
  RankContent, Where, no_condition, truthy_tag, add_start, add_end, add_tag, content_where,
  set_start, set_end, tags_where,
}

-- The columns of a proof that the conditions read.
pub record Work : Type 0 where
  pub timestamp : ℕ
  pub tag : String

-- What the operators `gte`, `lte` and the plain equation of the query mean.
abbrev pub AtLeast : Option ℕ → ℕ → Type 0
AtLeast none t = Unit
AtLeast (some b) t = b ≤ t

abbrev pub AtMost : Option ℕ → ℕ → Type 0
AtMost none t = Unit
AtMost (some b) t = t ≤ b

abbrev pub HasTag : Option String → String → Type 0
HasTag none tag = Unit
HasTag (some wanted) tag = tag ≡ wanted

abbrev pub Selects : Where → Work → Type 0
Selects w row = AtLeast w.gte row.timestamp × AtMost w.lte row.timestamp × HasTag w.tag row.tag

-- What a client of the rankings asks for: each given bound and a tag that is not empty count.
abbrev pub IsWanted : RankContent → Work → Type 0
IsWanted params row =
    AtLeast params.start_date row.timestamp
    × AtMost params.end_date row.timestamp
    × HasTag (truthy_tag params.tag) row.tag

content_where_lem :
    (start stop : Option ℕ) (tag : Option String)
    → add_tag tag (add_end stop (add_start start no_condition))
      ≡ record { gte = start; lte = stop; tag = tag }
unfolding add_tag add_end add_start
content_where_lem none none none = refl
content_where_lem none none (some t) = refl
content_where_lem none (some e) none = refl
content_where_lem none (some e) (some t) = refl
content_where_lem (some s) none none = refl
content_where_lem (some s) none (some t) = refl
content_where_lem (some s) (some e) none = refl
content_where_lem (some s) (some e) (some t) = refl

-- The condition of `rankContent` selects a proof exactly if its time is not before the start, not
-- after the end, and its tag is the wanted one, each as far as it is given.
pub content_where_iff :
    (params : RankContent) (row : Work) → Selects (content_where params) row ↔ IsWanted params row
unfolding content_where
content_where_iff params row =
    let e = content_where_lem params.start_date params.end_date (truthy_tag params.tag) in
    rw e (λ h. h, λ h. h)

-- One bound: the end date if there is one, else the start date.
abbrev pub LastBound : Option ℕ → Option ℕ → ℕ → Type 0
LastBound start none t = AtLeast start t
LastBound start (some stop) t = t ≤ stop

LastBound-iff :
    (start stop : Option ℕ) (row : Work)
    → Selects (set_end stop (set_start start no_condition)) row ↔ LastBound start stop row.timestamp
unfolding set_end set_start
LastBound-iff none none row = (λ h. tt, λ h. (tt, tt, tt))
LastBound-iff (some s) none row = (λ h. h.0, λ h. (h, tt, tt))
LastBound-iff none (some e) row = (λ h. h.1, λ h. (tt, h, tt))
LastBound-iff (some s) (some e) row = (λ h. h.1, λ h. (tt, h, tt))

-- The condition of `rankTags` selects by one bound: with an end date that alone, so that proofs
-- before the start date are selected, and else by the start date. No tag is asked for.
pub tags_where_iff :
    (params : RankContent) (row : Work)
    → Selects (tags_where params) row ↔ LastBound params.start_date params.end_date row.timestamp
unfolding tags_where
tags_where_iff params row = LastBound-iff params.start_date params.end_date row
