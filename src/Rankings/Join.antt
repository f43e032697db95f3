-- ===== src/Rankings/Join.antt =====
-- src/rankings.ts, rankContent: the join of proofs and contents, what it lists and in what order.
use boostpow_api.Base.{
  String, Bool, true, false, not, Option, none, some, List, [], ◌∷◌, ◌≡◌, ◌⊎◌, refl, ap, sym, ◌∙◌,
  inl, inr, map, str_eq, str_eq_iff, Bool-cases, Option-cases, arith,
}
use boostpow_api.Base.Lists.{All, In, All-In}
use boostpow_api.Rankings.{
  RankContent, Group, ContentType, Ranked, contents_map, type_of, lacks_image, matches_image,
  rank_group, rank_groups, content_where, Queries, rank_content,
}

-- One row for each transaction.
abbrev pub OneEach : List ContentType → Type 0
OneEach contents = (c d : ContentType) → In c contents → In d contents → c.txid ≡ d.txid → c ≡ d

-- The type of a transaction's content, or that there is no content.
abbrev pub IsTypeOf : List ContentType → String → Option String → Type 0
IsTypeOf contents txid none = All (λ c. str_eq c.txid txid ≡ false) contents
IsTypeOf contents txid (some content_type) =
    (c : ContentType) × In c contents × (c.txid ≡ txid) × (c.content_type ≡ content_type)

abbrev pub IsImage : Option String → Type 0
IsImage none = true ≡ false
IsImage (some content_type) = matches_image content_type ≡ true

-- The entry of a group of proofs.
abbrev pub IsEntry : Bool → List ContentType → Group → Ranked → Type 0
IsEntry images contents g r =
    (r.content_txid ≡ g.content)
    × (r.difficulty ≡ g.difficulty)
    × (r.count ≡ g.count)
    × IsTypeOf contents g.content r.content_type
    × (images ≡ true → IsImage r.content_type)

-- Images are asked for, and no content of the group is one.
abbrev pub IsLeftOut : Bool → List ContentType → Group → Type 0
IsLeftOut images contents g =
    (images ≡ true)
    × ((c : ContentType)
        → In c contents
        → c.txid ≡ g.content
        → matches_image c.content_type ≡ false)

-- The ranking goes through the groups in their order.
abbrev pub Ranks : Bool → List ContentType → List Group → List Ranked → Type 0
Ranks images contents [] rs = rs ≡ []
Ranks images contents (g ∷ gs) rs =
    (IsLeftOut images contents g × Ranks images contents gs rs)
    ⊎ ((r : Ranked) × (rest : List Ranked) × (rs ≡ r ∷ rest)
        × IsEntry images contents g r
        × Ranks images contents gs rest)

contents_map-some :
    (contents : List ContentType) (txid : String) {c : ContentType}
    → contents_map contents txid ≡ some c
    → In c contents × (c.txid ≡ txid)
unfolding contents_map
contents_map-some [] txid e = cc
contents_map-some (d ∷ contents) txid {c} e = elim (Option-cases (contents_map contents txid)) [
  | inr (x, k) ↦
      let same : x ≡ c = (let h = rw (k, contents_map) at e in cc) in
      let (there, named) = contents_map-some contents txid (k ∙ ap some same) in (inr there, named)
  | inl k ↦ elim (Bool-cases (str_eq d.txid txid)) [
    | inl t ↦
        let same : d ≡ c = (let h = simp (k, t, contents_map) at e in cc) in
        rw (← same) (inl refl, (str_eq_iff d.txid txid).0 t)
    | inr f ↦ (let h = simp (k, f, contents_map) at e in cc)
  ]
]

contents_map-none :
    (contents : List ContentType) (txid : String)
    → contents_map contents txid ≡ none
    → All (λ c. str_eq c.txid txid ≡ false) contents
unfolding contents_map
contents_map-none [] txid e = tt
contents_map-none (d ∷ contents) txid e = elim (Option-cases (contents_map contents txid)) [
  | inr (x, k) ↦ (let h = rw (k, contents_map) at e in cc)
  | inl k ↦ elim (Bool-cases (str_eq d.txid txid)) [
    | inl t ↦ (let h = simp (k, t, contents_map) at e in cc)
    | inr f ↦ (f, contents_map-none contents txid k)
  ]
]

not-true : (b : Bool) → not b ≡ true → b ≡ false
not-true b h = ground arith

not-false : (b : Bool) → not b ≡ false → b ≡ true
not-false b h = ground arith

module _ (images : Bool) (contents : List ContentType) (one : OneEach contents) where
  left_out :
      (g : Group) (content : Option ContentType)
      → contents_map contents g.content ≡ content
      → lacks_image content ≡ true
      → images ≡ true
      → IsLeftOut images contents g
  left_out g none e lacks asked = (
    asked,
    λ c there named.
        let absent =
          All-In (λ d. str_eq d.txid g.content ≡ false) c contents
            (contents_map-none contents g.content e) there in
        let found = (str_eq_iff c.txid g.content).1 named in cc,
  )
  left_out g (some d) e lacks asked = (
    asked,
    λ c there named.
        let (here, same) = contents_map-some contents g.content e in
        let c_is_d = one c d there here (named ∙ sym same) in
        rw c_is_d (not-true (matches_image d.content_type) lacks),
  )

  entry_of : Group → Option ContentType → Ranked
  entry_of g content = record {
    content_txid = g.content;
    content_type = type_of content;
    difficulty = g.difficulty;
    count = g.count;
  }

  is_entry :
      (g : Group) (content : Option ContentType)
      → contents_map contents g.content ≡ content
      → (images ≡ true → lacks_image content ≡ false)
      → IsEntry images contents g (entry_of g content)
  unfolding entry_of
  is_entry g none e has =
      (refl, refl, refl, contents_map-none contents g.content e, λ asked. has asked)
  is_entry g (some d) e has =
      let (here, same) = contents_map-some contents g.content e in
      (
        refl,
        refl,
        refl,
        (d, here, same, refl),
        λ asked. not-false (matches_image d.content_type) (has asked),
      )

  rank_group_cases :
      (g : Group)
      → let content = contents_map contents g.content in
        ((images ≡ true) × (lacks_image content ≡ true) × (rank_group images content g ≡ none))
        ⊎ ((images ≡ true → lacks_image content ≡ false)
            × (rank_group images content g ≡ some (entry_of g content)))
  unfolding rank_group entry_of
  rank_group_cases g =
      let content = contents_map contents g.content in
      elim (Bool-cases images) [
        | inr f ↦ inr (λ asked. absurd (cc), rw (f, rank_group) refl)
        | inl t ↦ elim (Bool-cases (lacks_image content)) [
          | inl l ↦ inl (t, l, simp (t, l, rank_group) refl)
          | inr l ↦ inr (λ asked. l, simp (t, l, rank_group) refl)
        ]
      ]

  Ranks-rank_groups : (gs : List Group) → Ranks images contents gs (rank_groups images contents gs)
  unfolding rank_groups
  Ranks-rank_groups [] = refl
  Ranks-rank_groups (g ∷ gs) =
      let content = contents_map contents g.content in
      elim (rank_group_cases g) [
        | inl (asked, lacks, e) ↦
            rw e (inl (left_out g content refl lacks asked, Ranks-rank_groups gs))
        | inr (has, e) ↦ rw e (
            inr (
              entry_of g content,
              rank_groups images contents gs,
              refl,
              is_entry g content refl has,
              Ranks-rank_groups gs,
            ))
      ]

-- With at most one row of Content for each transaction, the ranking goes through the groups of proofs
-- that the database answers with, in their order: each has one entry, with its content, its difficulty
-- and its count, and with the type of the content if there is a row of it and none if there is not;
-- and with images asked for a group has no entry if and only if it has no content that is an image.
pub rank_content_lem :
    (db : Queries) (params : RankContent)
    → let proofs = db.find_proofs (content_where params) in
      let contents = db.find_contents (map (λ g. g.content) proofs) params.images in
      OneEach contents → Ranks params.images contents proofs (rank_content db params)
unfolding rank_content
rank_content_lem db params one =
    let proofs = db.find_proofs (content_where params) in
    let contents = db.find_contents (map (λ g. g.content) proofs) params.images in
    Ranks-rank_groups params.images contents one proofs
