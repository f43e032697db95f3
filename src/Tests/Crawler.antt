-- ===== src/Tests/Crawler.antt =====
-- Runs of the crawler.
use boostpow_api.Base.{
  ℕ, String, Bool, true, false, Option, none, some, List, [], ◌∷◌, ◌≡◌, refl, inl, inr, ltb,
  Bool-cases, if◌then◌else◌, arith,
}
use boostpow_api.Base.Tests.{str_eq}
use boostpow_api.Base.Lists.{All}
use boostpow_api.Base.Action.{Result, ok, err, type_error}
use boostpow_api.Crawler.{
  BitbusMessage, Script, Input, new_crawler, Reply, streamed, transform, transform_all,
  run_once_from_start, crawl, PlanariaSync, save_blocks, Spending, get_spending_transaction,
}
use boostpow_api.Crawler.Position.{handled, AreAfter, IsHonest, IsAfter, fresh, crawl-AreLater}
use boostpow_api.Crawler.Batches.{serving_all, crawl_complete}
use boostpow_api.Crawler.Spends.{Answers, get_spending_transaction_lem}

abbrev output : Script
output = record { hash = "ff"; index = 1 }

abbrev input : Input
input = record { i = 3; e = output }

abbrev early : BitbusMessage
early = record { tx = "aa"; inputs = []; blk = record { i = 7; h = "h7"; t = 70 } }

abbrev late : BitbusMessage
late = record { tx = "bb"; inputs = input ∷ []; blk = record { i = 8; h = "h8"; t = 80 } }

abbrev print : BitbusMessage → String
print m = m.tx

abbrev parse : String → Result BitbusMessage
parse s = if str_eq s "aa" then ok early else if str_eq s "bb" then ok late else err type_error

abbrev hash_of : BitbusMessage → String
hash_of m = m.tx

reads : (parse (print early) ≡ ok early) × (parse (print late) ≡ ok late)
unfolding str_eq
reads = (refl, refl)

crawl_complete_example :
    let (running, t) =
      crawl parse
        (λ m. ok (hash_of m))
        (serving_all print [] ((early ∷ []) ∷ [] ∷ (late ∷ []) ∷ []))
        (fresh (new_crawler none (some 5))) in
    (running ≡ true) × (handled t.signals ≡ early ∷ late ∷ [])
crawl_complete_example =
    crawl_complete parse print hash_of none 5 [] ((early ∷ []) ∷ [] ∷ (late ∷ []) ∷ [])
      ((reads.0, tt), (tt, ((reads.1, tt), tt))) tt
      ((omega arith, tt), (omega arith, tt), (tt, tt, ((omega arith, tt), (omega arith, tt), tt)))

abbrev row : PlanariaSync
row = record { name = "jobs"; query = some "{}"; interval = none; block_index = some 0 }

-- The service has one message, and then the stream breaks.
abbrev breaking : ℕ → Reply
breaking n = if ltb n 8 then streamed ("bb" ∷ []) false else streamed [] true

AreAfter-lines :
    (n : ℕ) (xs lines : List String) {b ended : Bool}
    → AreAfter parse n xs
    → streamed xs b ≡ streamed lines ended
    → AreAfter parse n lines
AreAfter-lines n xs lines h e = (let k : xs ≡ lines = cc in rw (← k) h)

late_read : (n : ℕ) (m : BitbusMessage) → ltb n 8 ≡ true → parse "bb" ≡ ok m → IsAfter n m
late_read n m t k = let read = reads.1 in let same : late ≡ m = cc in rw (← same) (ground arith)

breaking-IsHonest : IsHonest parse breaking
breaking-IsHonest n lines ended e = elim (Bool-cases (ltb n 8)) [
  | inl t ↦ AreAfter-lines n ("bb" ∷ []) lines ((λ m k. late_read n m t k), tt) (rw t at e)
  | inr f ↦ AreAfter-lines n [] lines tt (rw f at e)
]

found :
    (crawl parse
      (λ m. ok (hash_of m))
      (breaking ∷ [])
      (fresh (new_crawler none (some 0)))).1.crawler.latest_block
    ≡ some late.blk
unfolding crawl run_once_from_start transform_all transform str_eq
found = refl

crawl-AreLater_example :
    let s =
      (crawl parse (λ m. ok (hash_of m)) (breaking ∷ []) (fresh (new_crawler none (some 0)))).1 in
    let saved = save_blocks s.signals row in
    let t =
      (crawl parse
        (λ m. ok (hash_of m))
        (breaking ∷ [])
        (fresh (new_crawler saved.interval saved.block_index))).1 in
    All (IsAfter 0) (handled s.signals) × All (IsAfter 8) (handled t.signals)
crawl-AreLater_example =
    crawl-AreLater parse (λ m. ok (hash_of m)) row 0 (breaking ∷ []) (breaking ∷ []) late.blk
      (breaking-IsHonest, tt) (breaking-IsHonest, tt) found

abbrev silent : ℕ → Reply
silent n = streamed [] true

get_spending_transaction_lem_example :
    (answer : Option Spending) × (get_spending_transaction parse
        (λ n. streamed ("bb" ∷ []) true)
        output
      ≡ some answer)
    × Answers output (some late) answer
get_spending_transaction_lem_example =
    get_spending_transaction_lem parse print (λ n. streamed ("bb" ∷ []) true) output (late ∷ [])
      (reads.1, tt) refl
