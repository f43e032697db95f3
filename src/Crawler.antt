-- ===== src/Crawler.antt =====
-- planaria/crawler.ts: the crawl of the chain by blocks; src/crawlers.ts: a crawl whose position is
-- stored; src/spends.ts: the search for a spend by one request.
pub mod Position
pub mod Batches
pub mod Spends
use boostpow_api.Base.{
  ℕ, zero, suc, String, Bool, true, false, not, ◌&&◌, or_else, Option, none, some, List, [], ◌∷◌,
  ◌++◌, nat_eq, str_eq, is_some, if◌then◌else◌,
}
use boostpow_api.Base.Lists.{filter, head?, find? as find_first}
use boostpow_api.Base.Action.{Result, ok, err, type_error, message}

pub record BitbusBlock : Type 0 where
  pub i : ℕ
  pub h : String
  pub t : ℕ

-- The output that an input spends.
pub record Script : Type 0 where
  pub hash : String
  pub index : ℕ

pub record Input : Type 0 where
  pub i : ℕ
  pub e : Script

-- What is read of a message: its transaction, the transaction's inputs, and its block.
pub record BitbusMessage : Type 0 where
  pub tx : String
  pub inputs : List Input
  pub blk : BitbusBlock

-- `value || d` for a number.
abbrev pub number_or : ℕ → Option ℕ → ℕ
number_or d none = d
number_or d (some zero) = d
number_or d (some (suc n)) = suc n

pub record Crawler : Type 0 where
  pub interval : ℕ
  pub latest_block : Option BitbusBlock
  pub block_index_start : ℕ

-- The constructor of the class.
abbrev pub new_crawler : (interval block_index_start : Option ℕ) → Crawler
new_crawler interval block_index_start = record {
  interval = number_or 5200 interval;
  latest_block = none;
  block_index_start = number_or 0 block_index_start;
}

-- The events of a crawler.
pub data Signal (A : Type 0) : Type 0 where
  chunk : BitbusMessage → Signal A
  latest_block : BitbusBlock → Signal A
  synced : List A → Signal A

-- How the service answers a request: not at all, or by lines, after which the stream ends or breaks.
pub data Reply : Type 0 where
  refused : Reply
  streamed : List String → Bool → Reply

-- A crawler with what it has emitted.
pub record State (A : Type 0) : Type 0 where
  pub crawler : Crawler
  pub signals : List (Signal A)

abbrev pub block_index : Crawler → ℕ
block_index c = elim c.latest_block [ none ↦ c.block_index_start | some b ↦ b.i ]

abbrev pub emit : {A : Type 0} → Signal A → State A → State A
emit x s = record s { signals = s.signals ++ x ∷ [] }

module _ {A : Type 0} (parse : String → Result BitbusMessage)
    (on_transaction : BitbusMessage → Result A) where
  -- The transform of a line: none where it throws, and then the stream waits for it for ever.
  unfoldable pub transform : String → State A → Option A × State A
  transform line s = elim (parse line) [
    | err e ↦ (none, s)
    | ok json ↦
        let s' = emit (chunk json) s in
        elim (on_transaction json) [
          | err e ↦ (none, s')
          | ok result ↦ (
            some result,
            emit (latest_block json.blk)
                (record s' { crawler = record s'.crawler { latest_block = some json.blk } }),
          )
        ]
  ]

  -- The lines in turn: the results, or none where a transform throws.
  unfoldable pub transform_all : List String → List A → State A → Option (List A) × State A
  unfolding transform
  transform_all [] results s = (some results, s)
  transform_all (line ∷ lines) results s =
      let (result, s') = transform line s in
      elim result [ none ↦ (none, s') | some a ↦ transform_all lines (results ++ a ∷ []) s' ]

  -- The promise of `runOnceFromStart`, for the answer of the service: none where it is never settled.
  unfoldable pub run_once_from_start : (ℕ → Reply) → State A → Option (List A) × State A
  unfolding transform_all
  run_once_from_start service s = elim (service (block_index s.crawler)) [
    | refused ↦ (none, s)
    | streamed lines ended ↦
        let (results, s') = transform_all lines [] s in
        elim results [
          | none ↦ (none, s')
          | some rs ↦ if ended then (some rs, emit (synced rs) s') else (none, s')
        ]
  ]

  -- The loop of `start`, for the services that it finds in its rounds: whether it still runs.
  unfoldable pub crawl : List (ℕ → Reply) → State A → Bool × State A
  unfolding run_once_from_start
  crawl [] s = (true, s)
  crawl (service ∷ services) s =
      let (results, s') = run_once_from_start service s in
      elim results [ none ↦ (false, s') | some rs ↦ crawl services s' ]

-- A stored position; a fresh row has the defaults of the table.
pub record PlanariaSync : Type 0 where
  pub name : String
  pub query : Option String
  pub interval : Option ℕ
  pub block_index : Option ℕ

-- What `startCrawler` requires of `./crawlers`.
pub record CrawlerModule : Type 0 where
  pub query : Option String
  pub has_handler : Bool

unfoldable pub find_or_create : PlanariaSync → List PlanariaSync → PlanariaSync × List PlanariaSync
find_or_create row rows = elim (find_first (λ r. str_eq r.name row.name) rows) [
  | none ↦ (row, rows ++ row ∷ [])
  | some r ↦ (r, rows)
]

-- `startCrawler` behind its guards, up to the start: the row and the crawler. `interval` and `start`
-- are the table's own defaults for a new row.
unfoldable pub restore :
    (interval start : Option ℕ) (name : String)
    → CrawlerModule
    → List PlanariaSync
    → (PlanariaSync × Crawler) × List PlanariaSync
unfolding find_or_create
restore interval start name crawler_module rows =
    let (row, rows') =
      find_or_create
        (record {
          name = name;
          query = crawler_module.query;
          interval = interval;
          block_index = start;
        })
        rows in
    ((row, new_crawler row.interval row.block_index), rows')

-- A query and a handler of the parameters pass the guards, and are not used.
unfoldable pub start_crawler :
    (interval start : Option ℕ) (name : String) (query : Option String) (on_transaction : Bool)
    → CrawlerModule
    → List PlanariaSync
    → Result (PlanariaSync × Crawler) × List PlanariaSync
unfolding restore
start_crawler interval start name query on_transaction crawler_module rows =
    if not (is_some query) && not (is_some crawler_module.query)
    then (err (message "query parameter must be provided"), rows)
    else if not on_transaction && not crawler_module.has_handler
    then (err (message "onTransaction parameter must be provided"), rows)
    else (
      ok (restore interval start name crawler_module rows).0,
      (restore interval start name crawler_module rows).1,
    )

-- The listener of `latestBlock`, over what a crawler emits.
abbrev pub save_blocks : {A : Type 0} → List (Signal A) → PlanariaSync → PlanariaSync
save_blocks [] row = row
save_blocks (latest_block b ∷ xs) row = save_blocks xs (record row { block_index = some b.i })
save_blocks (_ ∷ xs) row = save_blocks xs row

-- What a transaction answers to the search: its first input that spends the output.
pub record Spending : Type 0 where
  pub input : Script
  pub output : Script

abbrev pub spends : Script → Input → Bool
spends output input = str_eq input.e.hash output.hash && nat_eq input.e.index output.index

unfoldable pub spending_of : Script → BitbusMessage → Option Spending
spending_of output transaction = elim (head? (filter (spends output) transaction.inputs)) [
  | none ↦ none
  | some input ↦
      some (record { input = record { hash = transaction.tx; index = input.i }; output = output })
]

-- `getSpendingTransaction`, none where it is never settled: `result[0]`, which may be undefined.
unfoldable pub get_spending_transaction :
    (String → Result BitbusMessage) → (ℕ → Reply) → Script → Option (Option Spending)
unfolding run_once_from_start spending_of
get_spending_transaction parse service output =
    let start : State (Option Spending) = record {
      crawler = new_crawler none (some 0);
      signals = [];
    } in
    let (results, s) = run_once_from_start parse (λ m. ok (spending_of output m)) service start in
    elim results [ none ↦ none | some rs ↦ some (elim (head? rs) [ none ↦ none | some r ↦ r ]) ]
