-- ===== src/Crawler/Batches.antt =====
-- A crawl of a chain that grows between the requests.
use boostpow_api.Base.{
  ℕ, ◌≤◌, String, Bool, true, false, Option, none, some, List, [], ◌∷◌, ◌++◌, map, ◌≡◌, refl, sym,
  ◌∙◌, ap, ltb, arith,
}
use boostpow_api.Base.Lists.{All, All-append, filter, filter-append}
use boostpow_api.Base.Action.{Result, ok}
use mathlib.Core.List.{append-nil, append_assoc}
use boostpow_api.Crawler.{
  BitbusMessage, chunk, synced, Reply, streamed, State, block_index, emit, transform, transform_all,
  run_once_from_start, crawl, new_crawler,
}
use boostpow_api.Crawler.Position.{handled, handled-append, IsAfter, fresh, moved}

-- The blocks do not go back.
abbrev pub IsOrdered : ℕ → List BitbusMessage → Type 0
IsOrdered n [] = Unit
IsOrdered n (m ∷ ms) = (n ≤ m.blk.i) × IsOrdered m.blk.i ms

-- The last block of the messages.
abbrev pub last : ℕ → List BitbusMessage → ℕ
last n [] = n
last n (m ∷ ms) = last m.blk.i ms

-- Each batch has blocks after those of the batches before, in their order.
abbrev pub Grows : ℕ → List (List BitbusMessage) → Type 0
Grows n [] = Unit
Grows n (b ∷ bs) = All (IsAfter n) b × IsOrdered n b × Grows (last n b) bs

abbrev pub concat : List (List BitbusMessage) → List BitbusMessage
concat [] = []
concat (b ∷ bs) = b ++ concat bs

abbrev pub IsUntil : ℕ → BitbusMessage → Type 0
IsUntil n m = m.blk.i ≤ n

last-le : (n : ℕ) (ms : List BitbusMessage) → IsOrdered n ms → n ≤ last n ms
last-le n [] h = omega arith
last-le n (m ∷ ms) (h, hs) = omega (arith, last-le m.blk.i ms hs)

All-IsUntil-le :
    (n k : ℕ) (ms : List BitbusMessage) → n ≤ k → All (IsUntil n) ms → All (IsUntil k) ms
All-IsUntil-le n k [] le h = tt
All-IsUntil-le n k (m ∷ ms) le (h, hs) = (omega arith, All-IsUntil-le n k ms le hs)

last-IsUntil : (n : ℕ) (ms : List BitbusMessage) → IsOrdered n ms → All (IsUntil (last n ms)) ms
last-IsUntil n [] h = tt
last-IsUntil n (m ∷ ms) (h, hs) = (last-le m.blk.i ms hs, last-IsUntil m.blk.i ms hs)

-- The query's condition on the block.
abbrev pub after : ℕ → BitbusMessage → Bool
after n m = ltb n m.blk.i

filter-until : (n : ℕ) (ms : List BitbusMessage) → All (IsUntil n) ms → filter (after n) ms ≡ []
filter-until n [] h = refl
filter-until n (m ∷ ms) (h, hs) = ground (arith, filter-until n ms hs)

filter-after : (n : ℕ) (ms : List BitbusMessage) → All (IsAfter n) ms → filter (after n) ms ≡ ms
filter-after n [] h = refl
filter-after n (m ∷ ms) (h, hs) =
    let t : after n m ≡ true = ground arith in rw t (ap (λ xs. m ∷ xs) (filter-after n ms hs))

module _ (print : BitbusMessage → String) where
  -- The service at a state of the chain: a line for each message after the block that is asked for.
  abbrev pub serving : List BitbusMessage → ℕ → Reply
  serving chain n = streamed (map print (filter (after n) chain)) true

  -- The services of the rounds: the chain has a further batch in each.
  abbrev pub serving_all : List BitbusMessage → List (List BitbusMessage) → List (ℕ → Reply)
  serving_all seen [] = []
  serving_all seen (b ∷ bs) = serving (seen ++ b) ∷ serving_all (seen ++ b) bs

module _ (parse : String → Result BitbusMessage) (print : BitbusMessage → String) where
  -- The message is read back from its line.
  abbrev pub IsReadable : BitbusMessage → Type 0
  IsReadable m = parse (print m) ≡ ok m

module _ {A : Type 0} (parse : String → Result BitbusMessage) (print : BitbusMessage → String)
    (f : BitbusMessage → A) where
  abbrev handler : BitbusMessage → Result A
  handler m = ok (f m)

  -- The state after the messages.
  abbrev walk : List BitbusMessage → State A → State A
  walk [] s = s
  walk (m ∷ ms) s = walk ms (moved m.blk (emit (chunk m) s))

  transform-walk :
      (m : BitbusMessage) (s : State A)
      → IsReadable parse print m
      → transform parse handler (print m) s ≡ (some (f m), moved m.blk (emit (chunk m) s))
  unfolding transform
  transform-walk m s read = rw (read, transform) refl

  transform_all-walk :
      (ms : List BitbusMessage) (rs : List A) (s : State A)
      → All (IsReadable parse print) ms
      → transform_all parse handler (map print ms) rs s ≡ (some (rs ++ map f ms), walk ms s)
  unfolding transform_all
  transform_all-walk [] rs s tt = rw (append-nil rs) refl
  transform_all-walk (m ∷ ms) rs s (read, reads) =
      ap
        (λ (x : Option A × State A). elim x.0 [
          | none ↦ (none, x.1)
          | some a ↦ transform_all parse handler (map print ms) (rs ++ a ∷ []) x.1
        ])
        (transform-walk m s read)
      ∙ transform_all-walk ms (rs ++ f m ∷ []) (moved m.blk (emit (chunk m) s)) reads
      ∙ ap (λ (xs : List A). (some xs, walk ms (moved m.blk (emit (chunk m) s))))
          (append_assoc rs (f m ∷ []) (map f ms))

  handled-walk :
      (ms : List BitbusMessage) (s : State A)
      → handled (walk ms s).signals ≡ handled s.signals ++ ms
  handled-walk [] s = sym (append-nil (handled s.signals))
  handled-walk (m ∷ ms) s =
      handled-walk ms (moved m.blk (emit (chunk m) s))
      ∙ ap (λ xs. xs ++ ms)
          (handled-append (s.signals ++ chunk m ∷ []) _
            ∙ append-nil _
            ∙ handled-append s.signals (chunk m ∷ []))
      ∙ append_assoc (handled s.signals) (m ∷ []) ms

  block_index-walk :
      (ms : List BitbusMessage) (s : State A)
      → block_index (walk ms s).crawler ≡ last (block_index s.crawler) ms
  block_index-walk [] s = refl
  block_index-walk (m ∷ ms) s = block_index-walk ms (moved m.blk (emit (chunk m) s))

  filter-chain :
      (n : ℕ) (seen b : List BitbusMessage)
      → All (IsUntil n) seen
      → All (IsAfter n) b
      → filter (after n) (seen ++ b) ≡ b
  filter-chain n seen b h k =
      filter-append (after n) seen b ∙ rw (filter-until n seen h) (filter-after n b k)

  serving-new :
      (n : ℕ) (seen b : List BitbusMessage)
      → All (IsUntil n) seen
      → All (IsAfter n) b
      → serving print (seen ++ b) n ≡ streamed (map print b) true
  serving-new n seen b h k = ap (λ ms. streamed (map print ms) true) (filter-chain n seen b h k)

  -- A round.
  run-streamed :
      (service : ℕ → Reply) (ms : List BitbusMessage) (s : State A)
      → All (IsReadable parse print) ms
      → service (block_index s.crawler) ≡ streamed (map print ms) true
      → run_once_from_start parse handler service s
        ≡ (some (map f ms), emit (synced (map f ms)) (walk ms s))
  unfolding run_once_from_start
  run-streamed service ms s reads e =
      rw (e, run_once_from_start)
        (ap
          (λ (x : Option (List A) × State A). elim x.0 as (λ _. Option (List A) × State A) [
            | none ↦ (none, x.1)
            | some rs ↦ (some rs, emit (synced rs) x.1)
          ])
          (transform_all-walk ms [] s reads))

  pub run-results :
      (service : ℕ → Reply) (ms : List BitbusMessage) (s : State A)
      → All (IsReadable parse print) ms
      → service (block_index s.crawler) ≡ streamed (map print ms) true
      → (run_once_from_start parse handler service s).0 ≡ some (map f ms)
  run-results service ms s reads e =
      ap (λ (x : Option (List A) × State A). x.0) (run-streamed service ms s reads e)

  crawl-cons :
      (service : ℕ → Reply) (services : List (ℕ → Reply)) (s : State A) {rs : List A} {s' : State A}
      → run_once_from_start parse handler service s ≡ (some rs, s')
      → crawl parse handler (service ∷ services) s ≡ crawl parse handler services s'
  unfolding crawl
  crawl-cons service services s e =
      ap
        (λ (x : Option (List A) × State A). elim x.0 as (λ _. Bool × State A) [
          | none ↦ (false, x.1)
          | some rs ↦ crawl parse handler services x.1
        ])
        e

  crawl-serving :
      (seen : List BitbusMessage) (bs : List (List BitbusMessage)) (s : State A)
      → All (All (IsReadable parse print)) bs
      → All (IsUntil (block_index s.crawler)) seen
      → Grows (block_index s.crawler) bs
      → let (running, t) = crawl parse handler (serving_all print seen bs) s in
        (running ≡ true) × (handled t.signals ≡ handled s.signals ++ concat bs)
  unfolding crawl
  crawl-serving seen [] s reads h g = (refl, sym (append-nil (handled s.signals)))
  crawl-serving seen (b ∷ bs) s (read, reads) h (new, ordered, g) =
      let n = block_index s.crawler in
      let s' = emit (synced (map f b)) (walk b s) in
      let position : block_index s'.crawler ≡ last n b = block_index-walk b s in
      let seen' : All (IsUntil (block_index s'.crawler)) (seen ++ b) = rw position (
        All-append (IsUntil (last n b)) seen b
          (All-IsUntil-le n (last n b) seen (last-le n b ordered) h) (last-IsUntil n b ordered)) in
      let (running, all) = crawl-serving (seen ++ b) bs s' reads seen' (rw position g) in
      rw
        (crawl-cons (serving print (seen ++ b)) (serving_all print (seen ++ b) bs) s
          (run-streamed (serving print (seen ++ b)) b s read (serving-new n seen b h new)))
        (
          running,
          all
              ∙ ap (λ xs. xs ++ concat bs)
                  (handled-append (walk b s).signals (synced (map f b) ∷ [])
                    ∙ append-nil _
                    ∙ handled-walk b s)
              ∙ append_assoc (handled s.signals) b (concat bs),
        )

  -- If the chain grows between the requests by later blocks, and the service answers each request with
  -- what the chain then has after the block that is asked for, in the order of the blocks and read
  -- without an error, and no callback fails, then the loop goes on, and it hands on every message
  -- after its first block exactly once and in order, and none before.
  pub crawl_complete :
      (interval : Option ℕ) (n : ℕ) (seen : List BitbusMessage) (bs : List (List BitbusMessage))
      → All (All (IsReadable parse print)) bs
      → All (IsUntil (block_index (new_crawler interval (some n)))) seen
      → Grows (block_index (new_crawler interval (some n))) bs
      → let (running, t) =
          crawl parse handler (serving_all print seen bs) (fresh (new_crawler interval (some n))) in
        (running ≡ true) × (handled t.signals ≡ concat bs)
  crawl_complete interval n seen bs reads h g =
      crawl-serving seen bs (fresh (new_crawler interval (some n))) reads h g
