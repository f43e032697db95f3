-- ===== src/Crawler/Position.antt =====
-- What a crawl asks for, and the position that it stores.
use boostpow_api.Base.{
  ℕ, zero, suc, ◌<◌, ◌≤◌, String, Bool, Option, none, some, List, [], ◌∷◌, ◌++◌, ◌≡◌, ◌⊎◌, refl,
  ◌∙◌, ap, inl, inr, Bool-cases, Option-cases, arith,
}
use boostpow_api.Base.Lists.{All, All-append}
use boostpow_api.Base.Action.{Result, ok, Result-cases}
use boostpow_api.Crawler.{
  BitbusBlock, BitbusMessage, Crawler, new_crawler, Signal, chunk, latest_block, synced, Reply,
  refused, streamed, State, block_index, emit, transform, transform_all, run_once_from_start, crawl,
  PlanariaSync, save_blocks,
}

-- The messages that were handed to the crawler's callback.
abbrev pub handled : {A : Type 0} → List (Signal A) → List BitbusMessage
handled [] = []
handled (chunk m ∷ xs) = m ∷ handled xs
handled (_ ∷ xs) = handled xs

pub handled-append :
    {A : Type 0} (xs ys : List (Signal A)) → handled (xs ++ ys) ≡ handled xs ++ handled ys
handled-append [] ys = refl
handled-append (chunk m ∷ xs) ys = ap (λ ms. m ∷ ms) (handled-append xs ys)
handled-append (latest_block b ∷ xs) ys = handled-append xs ys
handled-append (synced rs ∷ xs) ys = handled-append xs ys

abbrev pub IsAfter : ℕ → BitbusMessage → Type 0
IsAfter n m = n < m.blk.i

-- A crawler before its first request.
abbrev pub fresh : {A : Type 0} → Crawler → State A
fresh c = record { crawler = c; signals = [] }

-- The row has the position of the crawler, once there is one.
abbrev IsSaved : {A : Type 0} → PlanariaSync → State A → Type 0
IsSaved row s =
    (s.crawler.latest_block ≡ none)
    ⊎ ((b : BitbusBlock) × (s.crawler.latest_block ≡ some b)
        × ((save_blocks s.signals row).block_index ≡ some b.i))

save_blocks-append :
    {A : Type 0} (xs ys : List (Signal A)) (row : PlanariaSync)
    → save_blocks (xs ++ ys) row ≡ save_blocks ys (save_blocks xs row)
save_blocks-append [] ys row = refl
save_blocks-append (latest_block b ∷ xs) ys row =
    save_blocks-append xs ys (record row { block_index = some b.i })
save_blocks-append (chunk m ∷ xs) ys row = save_blocks-append xs ys row
save_blocks-append (synced rs ∷ xs) ys row = save_blocks-append xs ys row

module _ (parse : String → Result BitbusMessage) where
  abbrev pub AreAfter : ℕ → List String → Type 0
  AreAfter n lines = All (λ line. (m : BitbusMessage) → parse line ≡ ok m → IsAfter n m) lines

  -- The service answers with messages of blocks after the one that it is asked for.
  abbrev pub IsHonest : (ℕ → Reply) → Type 0
  IsHonest service =
      (n : ℕ) (lines : List String) (ended : Bool)
      → service n ≡ streamed lines ended
      → AreAfter n lines

  AreAfter-le : (n k : ℕ) (lines : List String) → n ≤ k → AreAfter k lines → AreAfter n lines
  AreAfter-le n k [] le h = tt
  AreAfter-le n k (line ∷ lines) le (h, hs) =
      (λ m e. (let l = h m e in omega arith), AreAfter-le n k lines le hs)

pub Reply-cases :
    (r : Reply)
    → (r ≡ refused) ⊎ ((lines : List String) × (ended : Bool) × (r ≡ streamed lines ended))
Reply-cases refused = inl refl
Reply-cases (streamed lines ended) = inr (lines, ended, refl)

-- What holds of a state that was reached from a position.
record IsAbove {A : Type 0} (n : ℕ) (row : PlanariaSync) (s : State A) : Type 0 where
  position : n ≤ block_index s.crawler
  messages : All (IsAfter n) (handled s.signals)
  saved : IsSaved row s

abbrev pub moved : {A : Type 0} → BitbusBlock → State A → State A
moved b s =
    emit (latest_block b) (record s { crawler = record s.crawler { latest_block = some b } })

saved_block :
    {A : Type 0} (row : PlanariaSync) (s : State A) {b : BitbusBlock}
    → IsSaved row s
    → s.crawler.latest_block ≡ some b
    → (save_blocks s.signals row).block_index ≡ some b.i
saved_block row s (inl k) e = cc
saved_block row s (inr (d, k, p)) e = cc

module _ {A : Type 0} (n : ℕ) (row : PlanariaSync) (s : State A) where
  emit-IsAbove :
      (x : Signal A)
      → All (IsAfter n) (handled (x ∷ []))
      → ((r : PlanariaSync) → save_blocks (x ∷ []) r ≡ r)
      → IsAbove n row s
      → IsAbove n row (emit x s)
  emit-IsAbove x after same h = record {
    position = h.position;
    messages =
        rw (handled-append s.signals (x ∷ []))
          (All-append (IsAfter n) (handled s.signals) (handled (x ∷ [])) h.messages after);
    saved = elim h.saved [
      | inl e ↦ inl e
      | inr (b, e, k) ↦ inr (
        b,
        e,
        ap (λ (r : PlanariaSync). r.block_index)
              (save_blocks-append s.signals (x ∷ []) row ∙ same (save_blocks s.signals row))
            ∙ k,
      )
    ];
  }

  moved-IsAbove : (b : BitbusBlock) → n < b.i → IsAbove n row s → IsAbove n row (moved b s)
  moved-IsAbove b later h = record {
    position = omega arith;
    messages =
        rw (handled-append s.signals (latest_block b ∷ []))
          (All-append (IsAfter n) (handled s.signals) [] h.messages tt);
    saved = inr (
      b,
      refl,
      ap (λ (r : PlanariaSync). r.block_index)
          (save_blocks-append s.signals (latest_block b ∷ []) row),
    );
  }

module _ {A : Type 0} (parse : String → Result BitbusMessage)
    (on_transaction : BitbusMessage → Result A) where
  module _ (n : ℕ) (row : PlanariaSync) where
    transform-IsAbove :
        (line : String) (s : State A)
        → ((m : BitbusMessage) → parse line ≡ ok m → IsAfter n m)
        → IsAbove n row s
        → IsAbove n row (transform parse on_transaction line s).1
    unfolding transform
    transform-IsAbove line s after h = elim (Result-cases (parse line)) [
      | inr (x, e) ↦ rw (e, transform) h
      | inl (m, e) ↦
          let seen = emit-IsAbove n row s (chunk m) (after m e, tt) (λ r. refl) h in
          elim (Result-cases (on_transaction m)) [
            | inr (x, k) ↦ simp (e, k, transform) seen
            | inl (a, k) ↦
                simp (e, k, transform)
                  (moved-IsAbove n row (emit (chunk m) s) m.blk (after m e) seen)
          ]
    ]

    transform_all-IsAbove :
        (lines : List String) (rs : List A) (s : State A)
        → AreAfter parse n lines
        → IsAbove n row s
        → IsAbove n row (transform_all parse on_transaction lines rs s).1
    unfolding transform_all
    transform_all-IsAbove [] rs s after h = h
    transform_all-IsAbove (line ∷ lines) rs s (after, afters) h =
        let (result, s') = transform parse on_transaction line s in
        let h' = transform-IsAbove line s after h in
        elim (Option-cases result) [
          | inl e ↦ rw (e, transform_all) h'
          | inr (a, e) ↦
              rw (e, transform_all) (transform_all-IsAbove lines (rs ++ a ∷ []) s' afters h')
        ]

    run-IsAbove :
        (service : ℕ → Reply) (s : State A)
        → IsHonest parse service
        → IsAbove n row s
        → IsAbove n row (run_once_from_start parse on_transaction service s).1
    unfolding run_once_from_start
    run-IsAbove service s honest h = elim (Reply-cases (service (block_index s.crawler))) [
      | inl e ↦ rw (e, run_once_from_start) h
      | inr (lines, ended, e) ↦
          let after =
            AreAfter-le parse n (block_index s.crawler) lines h.position
              (honest (block_index s.crawler) lines ended e) in
          let (results, s') = transform_all parse on_transaction lines [] s in
          let h' = transform_all-IsAbove lines [] s after h in
          elim (Option-cases results) [
            | inl k ↦ simp (e, k, run_once_from_start) h'
            | inr (rs, k) ↦ elim (Bool-cases ended) [
              | inl t ↦
                  simp (e, k, t, run_once_from_start)
                    (emit-IsAbove n row s' (synced rs) tt (λ r. refl) h')
              | inr f ↦ simp (e, k, f, run_once_from_start) h'
            ]
          ]
    ]

    crawl-IsAbove :
        (services : List (ℕ → Reply)) (s : State A)
        → All (IsHonest parse) services
        → IsAbove n row s
        → IsAbove n row (crawl parse on_transaction services s).1
    unfolding crawl
    crawl-IsAbove [] s honest h = h
    crawl-IsAbove (service ∷ services) s (honest, rest) h =
        let (results, s') = run_once_from_start parse on_transaction service s in
        let h' = run-IsAbove service s honest h in
        elim (Option-cases results) [
          | inl e ↦ rw (e, crawl) h'
          | inr (a, e) ↦ rw (e, crawl) (crawl-IsAbove services s' rest h')
        ]

  fresh-IsAbove :
      (interval : Option ℕ) (n : ℕ) (row : PlanariaSync)
      → IsAbove n row (fresh {A = A} (new_crawler interval (some n)))
  fresh-IsAbove interval zero row = record {
    position = omega arith;
    messages = tt;
    saved = inl refl;
  }
  fresh-IsAbove interval (suc n) row = record {
    position = omega arith;
    messages = tt;
    saved = inl refl;
  }

  -- If the service only answers with messages of later blocks than it is asked for, then a crawl from
  -- a block hands on only messages of later blocks, whatever fails; and a crawl that is restored from
  -- the row that the first one saved hands on only messages of later blocks than the last that the
  -- first one got through, so that no other message of that block is handed on, even if the first
  -- crawl stopped within it.
  pub crawl-AreLater :
      (row : PlanariaSync) (n : ℕ) (services later : List (ℕ → Reply)) (b : BitbusBlock)
      → All (IsHonest parse) services
      → All (IsHonest parse) later
      → let s =
          (crawl parse on_transaction services (fresh (new_crawler row.interval (some n)))).1 in
        s.crawler.latest_block ≡ some b
        → let saved = save_blocks s.signals row in
          let t =
            (crawl parse on_transaction later
              (fresh (new_crawler saved.interval saved.block_index))).1 in
          All (IsAfter n) (handled s.signals) × All (IsAfter b.i) (handled t.signals)
  crawl-AreLater row n services later b honest honest' e =
      let h =
        crawl-IsAbove n row services (fresh (new_crawler row.interval (some n))) honest
          (fresh-IsAbove row.interval n row) in
      let s = (crawl parse on_transaction services (fresh (new_crawler row.interval (some n)))).1 in
      let saved = save_blocks s.signals row in
      let position = saved_block row s h.saved e in
      (
        h.messages,
        rw position
            (crawl-IsAbove b.i saved later (fresh (new_crawler saved.interval (some b.i))) honest'
              (fresh-IsAbove saved.interval b.i saved)).messages,
      )
