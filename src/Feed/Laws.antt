-- ===== src/Feed/Laws.antt =====
-- What the feed of several days lists.
use boostpow_api.Base.{
  ℕ, zero, suc, ◌+◌, ◌<◌, String, true, false, List, [], ◌∷◌, ◌++◌, ◌≡◌, ◌⊎◌, refl, ap, inl, inr,
  Bool-cases, str_eq, str_eq_refl, str_eq_iff, arith,
}
use mathlib.Core.Bool.{false≢true}
use mathlib.Core.Path.{subst}
use native.Mathlib.Nat.{add-zero}
use boostpow_api.Base.Lists.{In, In-append_left, In-append_right, All, All-In, length}
use boostpow_api.Rankings.{Ranked, Queries}
use boostpow_api.Feed.{contains, filter_new, feed_from, rank_day, get_multi_day_feed}

-- Every day's entries, one after the other.
abbrev pub entries : List (List Ranked) → List Ranked
entries [] = []
entries (day ∷ days) = day ++ entries days

-- No entry has a content that was seen, or that an earlier entry has.
abbrev pub IsFresh : List String → List Ranked → Type 0
IsFresh seen [] = Unit
IsFresh seen (r ∷ rs) = (contains seen r.content_txid ≡ false) × IsFresh (r.content_txid ∷ seen) rs

-- The days' entries come from the rankings of day `i` and the following.
abbrev pub ComeFrom : (ℕ → List Ranked) → ℕ → List (List Ranked) → Type 0
ComeFrom rank i [] = Unit
ComeFrom rank i (day ∷ days) = All (λ r. In r (rank i)) day × ComeFrom rank (i + 1) days

-- Some entry has this content.
abbrev pub Lists : List Ranked → String → Type 0
Lists rs txid = (r : Ranked) × In r rs × (r.content_txid ≡ txid)

abbrev pushed : List Ranked → List String → List String
pushed [] seen = seen
pushed (r ∷ rs) seen = pushed rs (r.content_txid ∷ seen)

IsFresh-append :
    (rs ss : List Ranked) (seen : List String)
    → IsFresh seen rs
    → IsFresh (pushed rs seen) ss
    → IsFresh seen (rs ++ ss)
IsFresh-append [] ss seen h k = k
IsFresh-append (r ∷ rs) ss seen (f, h) k = (f, IsFresh-append rs ss (r.content_txid ∷ seen) h k)

-- What is known of the content seen so far: it was there before, or an entry has it.
contains-pushed :
    (rs : List Ranked) (seen : List String) (txid : String)
    → contains (pushed rs seen) txid ≡ true
    → (contains seen txid ≡ true) ⊎ Lists rs txid
unfolding contains
contains-pushed [] seen txid h = inl h
contains-pushed (r ∷ rs) seen txid h = elim (contains-pushed rs (r.content_txid ∷ seen) txid h) [
  | inr (s, here, same) ↦ inr (s, inr here, same)
  | inl k ↦ elim (Bool-cases (str_eq r.content_txid txid)) [
    | inl e ↦ inr (r, inl refl, (str_eq_iff r.content_txid txid).0 e)
    | inr e ↦ inl (rw (e, contains) at k)
  ]
]

contains-pushed_mono :
    (rs : List Ranked) (seen : List String) (txid : String)
    → contains seen txid ≡ true
    → contains (pushed rs seen) txid ≡ true
unfolding contains
contains-pushed_mono [] seen txid h = h
contains-pushed_mono (r ∷ rs) seen txid h =
    contains-pushed_mono rs (r.content_txid ∷ seen) txid (ground arith)

contains_self : (txid : String) (seen : List String) → contains (txid ∷ seen) txid ≡ true
unfolding contains
contains_self txid seen = rw (str_eq_refl txid)

not_seen : (txid : String) → contains [] txid ≡ true → ⊥
unfolding contains
not_seen txid h = false≢true h

record IsFiltered (seen : List String) (rs kept : List Ranked) (seen' : List String) : Type 0 where
  grown : seen' ≡ pushed kept seen
  fresh : IsFresh seen kept
  taken : All (λ r. In r rs) kept
  complete : All (λ r. contains seen' r.content_txid ≡ true) rs

All-inr :
    (r : Ranked) (rs kept : List Ranked) → All (λ x. In x rs) kept → All (λ x. In x (r ∷ rs)) kept
All-inr r rs [] h = tt
All-inr r rs (k ∷ ks) (h, hs) = (inr h, All-inr r rs ks hs)

filter_new-IsFiltered :
    (seen : List String) (rs : List Ranked)
    → let (kept, seen') = filter_new seen rs in IsFiltered seen rs kept seen'
unfolding filter_new
filter_new-IsFiltered seen [] = record { grown = refl; fresh = tt; taken = tt; complete = tt }
filter_new-IsFiltered seen (r ∷ rs) = elim (Bool-cases (contains seen r.content_txid)) [
  | inl old ↦
      let h = filter_new-IsFiltered seen rs in
      rw (old, filter_new)
        (record {
          grown = h.grown;
          fresh = h.fresh;
          taken = All-inr r rs (filter_new seen rs).0 h.taken;
          complete = (
            rw h.grown (contains-pushed_mono (filter_new seen rs).0 seen r.content_txid old),
            h.complete,
          );
        })
  | inr new ↦
      let h = filter_new-IsFiltered (r.content_txid ∷ seen) rs in
      rw (new, filter_new)
        (record {
          grown = h.grown;
          fresh = (new, h.fresh);
          taken = (inl refl, All-inr r rs (filter_new (r.content_txid ∷ seen) rs).0 h.taken);
          complete = (
            rw h.grown (
                contains-pushed_mono (filter_new (r.content_txid ∷ seen) rs).0
                  (r.content_txid ∷ seen) r.content_txid (contains_self r.content_txid seen)),
            h.complete,
          );
        })
]

-- What the days from `i` on add to what was seen.
record IsFed (rank : ℕ → List Ranked) (left i : ℕ) (seen : List String) (feed : List (List Ranked))
    : Type 0 where
  as_long : length feed ≡ left
  distinct : IsFresh seen (entries feed)
  sourced : ComeFrom rank i feed
  covers :
      (j : ℕ) (r : Ranked)
      → j < left
      → In r (rank (i + j))
      → (contains seen r.content_txid ≡ true) ⊎ Lists (entries feed) r.content_txid

Lists-append :
    (rs ss : List Ranked) (txid : String) → Lists rs txid ⊎ Lists ss txid → Lists (rs ++ ss) txid
Lists-append rs ss txid (inl (r, here, same)) = (r, In-append_left r rs ss here, same)
Lists-append rs ss txid (inr (r, here, same)) = (r, In-append_right r rs ss here, same)

-- One day in front of the others.
module _ (rank : ℕ → List Ranked) (i : ℕ) (seen : List String) (day : List Ranked)
    (seen' : List String) (h : IsFiltered seen (rank i) day seen') where
  covered_day :
      (rest : List Ranked) (r : Ranked)
      → In r (rank i)
      → (contains seen r.content_txid ≡ true) ⊎ Lists (day ++ rest) r.content_txid
  covered_day rest r here =
      let known = All-In (λ x. contains seen' x.content_txid ≡ true) r (rank i) h.complete here in
      elim (contains-pushed day seen r.content_txid (rw h.grown at known)) [
        | inl old ↦ inl old
        | inr listed ↦ inr (Lists-append day rest r.content_txid (inl listed))
      ]

  covered_later :
      (rest : List Ranked) (txid : String)
      → (contains seen' txid ≡ true) ⊎ Lists rest txid
      → (contains seen txid ≡ true) ⊎ Lists (day ++ rest) txid
  covered_later rest txid (inr listed) = inr (Lists-append day rest txid (inr listed))
  covered_later rest txid (inl known) = elim (contains-pushed day seen txid (rw h.grown at known)) [
    | inl old ↦ inl old
    | inr listed ↦ inr (Lists-append day rest txid (inl listed))
  ]

  covers_day :
      (rest : List Ranked) (left : ℕ)
      → ((j : ℕ) (r : Ranked)
          → j < left
          → In r (rank (i + 1 + j))
          → (contains seen' r.content_txid ≡ true) ⊎ Lists rest r.content_txid)
      → (j : ℕ) (r : Ranked) → j < suc left
      → In r (rank (i + j))
      → (contains seen r.content_txid ≡ true) ⊎ Lists (day ++ rest) r.content_txid
  covers_day rest left later zero r lt here =
      let e : i + 0 ≡ i = add-zero i in covered_day rest r (rw e at here)
  covers_day rest left later (suc j) r lt here =
      let e : i + suc j ≡ i + 1 + j = omega arith in
      covered_later rest r.content_txid (later j r (omega arith) (rw e at here))

feed_from-IsFed :
    (rank : ℕ → List Ranked) (left i : ℕ) (seen : List String)
    → IsFed rank left i seen (feed_from rank left i seen)
unfolding feed_from
feed_from-IsFed rank zero i seen = record {
  as_long = refl;
  distinct = tt;
  sourced = tt;
  covers = λ j r h. elim h [ ];
}
feed_from-IsFed rank (suc left) i seen =
    let day : List Ranked = (filter_new seen (rank i)).0 in
    let seen' : List String = (filter_new seen (rank i)).1 in
    let h : IsFiltered seen (rank i) day seen' = filter_new-IsFiltered seen (rank i) in
    let rest = feed_from rank left (i + 1) seen' in
    let later : IsFed rank left (i + 1) seen' rest = feed_from-IsFed rank left (i + 1) seen' in
    record {
      as_long = ap suc later.as_long;
      distinct =
          IsFresh-append day (entries rest) seen h.fresh
            (subst (λ s. IsFresh s (entries rest)) h.grown later.distinct);
      sourced = (h.taken, later.sourced);
      covers = covers_day rank i seen day seen' h (entries rest) left later.covers;
    }

-- The feed has one list for each day. No content stands in it twice, each entry comes from the
-- ranking of its own day, and every content that some day's ranking lists stands in the feed.
pub get_multi_day_feed_lem :
    (db : Queries) (days_ago : ℕ → ℕ) (days : ℕ)
    → let feed = get_multi_day_feed db days_ago days in
      let rank = rank_day db days_ago in
      (length feed ≡ days)
      × IsFresh [] (entries feed)
      × ComeFrom rank 0 feed
      × ((j : ℕ) (r : Ranked) → j < days → In r (rank j) → Lists (entries feed) r.content_txid)
unfolding get_multi_day_feed
get_multi_day_feed_lem db days_ago days =
    let fed = feed_from-IsFed (rank_day db days_ago) days 0 [] in
    (
      fed.as_long,
      fed.distinct,
      fed.sourced,
      λ j r lt here.
          let e : 0 + j ≡ j = omega arith in
          elim (fed.covers j r lt (rw e here)) [
            | inl seen ↦ absurd (not_seen r.content_txid seen)
            | inr listed ↦ listed
          ],
    )
