-- ===== src/Boost/Jobs.antt =====
-- src/boost.ts: `persistBoostJob` and the imports of jobs. `Promise.all` starts one task for each
-- job of a transaction. A task runs up to its next `await` on the database, the network or the
-- broker, so the tasks interleave: a schedule, which says what task moves next, is an argument.
pub mod Run
pub mod Settling
pub mod Failures
pub mod Answers
pub mod Rows
pub mod Stored
use boostpow_api.Base.{
  ℕ, zero, suc, ◌+◌, String, Bool, true, false, Option, none, some, List, [], ◌∷◌, ◌++◌, map,
  str_eq, nat_eq, is_some, if◌then◌else◌, or_else,
}
use boostpow_api.Base.Lists.{length, get_elem?}
use boostpow_api.Base.Action.{Error, Result, ok, err, Action, pure, lift, gets, ◌>>=◌, ◌>>◌}
use boostpow_api.Boost.Store.{
  Timestamp, number, date, JobRow, Message, job_created, World, has_txid, is_output,
}
use boostpow_api.Boost.Network.{Job, Env}
use boostpow_api.Boost.Fetch.{BoostAction, is_truthy, fetch, get_boost_jobs_from_tx_hex}

-- Where a task stands: before `findOne` by output, before the `findOne` of `persistBoostJob`,
-- before the question for the time, before `create`, before `publish`, or at its end.
pub data Stage : Type 0 where
  look_up look_up_txid ask_time : Stage
  create : Timestamp → Stage
  announce : JobRow → Stage
  settled : Result JobRow → Stage

pub record Task : Type 0 where
  pub job : Job
  pub stage : Stage

-- The tasks of one `Promise.all`, with the first rejection.
pub record Batch : Type 0 where
  pub tasks : List Task
  pub world : World
  pub failure : Option Error

-- `if (!timestamp) { timestamp = new Date() }`
unfoldable pub timestamp_of : Option ℕ → ℕ → Timestamp
timestamp_of none now = date now
timestamp_of (some zero) now = date now
timestamp_of (some (suc n)) now = number (suc n)

-- The row that `BoostJob.create(params)` stores, its hook `beforeCreate` and defaults included.
unfoldable pub job_row : (ℕ → ℕ → ℕ) → ℕ → Job → Option String → Timestamp → JobRow
job_row divide id job tx_hex timestamp = record {
  id = id;
  txid = job.txid;
  vout = job.vout;
  content = job.content;
  script = job.script;
  value = job.value;
  difficulty = job.difficulty;
  profitability = divide job.value job.difficulty;
  category = job.category;
  tag = job.tag;
  user_nonce = job.user_nonce;
  additional_data = job.additional_data;
  miner_pub_key_hash = or_else job.miner_pub_key_hash "";
  tx_hex = tx_hex;
  timestamp = timestamp;
  spent = false;
  spent_txid = none;
  spent_vout = none;
}

abbrev pub has_script : JobRow → Bool
has_script row = if str_eq row.script "" then false else true

abbrev pub failure_of : Stage → Option Error
failure_of (settled (err e)) = some e
failure_of _ = none

abbrev pub first_of_failures : Option Error → Option Error → Option Error
first_of_failures (some e) _ = some e
first_of_failures none f = f

abbrev pub set_task : List Task → ℕ → Task → List Task
set_task [] i t = []
set_task (u ∷ us) zero t = t ∷ us
set_task (u ∷ us) (suc i) t = u ∷ set_task us i t

-- Each of the first `n` tasks moves five times: more than it can still need.
unfoldable pub drain : ℕ → List ℕ
drain zero = []
drain (suc n) = n ∷ n ∷ n ∷ n ∷ n ∷ drain n

abbrev pub start : World → List Job → Batch
start w jobs = record {
  tasks = map (λ job. record { job = job; stage = look_up }) jobs;
  world = w;
  failure = none;
}

abbrev pub row_of_stage : Stage → Option JobRow
row_of_stage (settled (ok row)) = some row
row_of_stage _ = none

abbrev pub cons_rows : Option JobRow → Option (List JobRow) → Option (List JobRow)
cons_rows (some row) (some rows) = some (row ∷ rows)
cons_rows _ _ = none

-- What each task was settled with; `none` where one is not, or was rejected.
unfoldable pub rows_of : List Task → Option (List JobRow)
rows_of [] = some []
rows_of (t ∷ ts) = cons_rows (row_of_stage t.stage) (rows_of ts)

-- `Promise.all`: the first rejection, or the rows in the order of the jobs.
unfoldable pub outcome : Batch → Result (List JobRow)
unfolding rows_of
outcome b = elim b.failure [
  | some e ↦ err e
  | none ↦ elim (rows_of b.tasks) [ some rows ↦ ok rows | none ↦ err Error.type_error ]
]

module _ (env : Env) (txhex : Option String) where
  -- One move of a task: the body of the callback up to `persistBoostJob`, then `persistBoostJob`.
  unfoldable pub step : Job → Stage → World → Stage × World
  step job look_up w = elim (env.find_job (is_output job.txid job.vout) w.jobs) [
    | none ↦ (look_up_txid, w)
    | some row ↦ (if has_script row then settled (ok row) else look_up_txid, w)
  ]
  step job look_up_txid w = elim (env.find_job (has_txid job.txid) w.jobs) [
    | none ↦ (ask_time, w)
    | some row ↦ (settled (ok row), w)
  ]
  step job ask_time w =
      let w' = record w { clock = w.clock + 1 } in
      elim (env.get_time w.clock job.txid) [
        | err e ↦ (settled (err e), w')
        | ok time ↦ (create (timestamp_of time (env.now w.clock)), w')
      ]
  step job (create timestamp) w =
      let row = job_row env.divide w.next_id job txhex timestamp in
      (
        if env.amqp_enabled then announce row else settled (ok row),
        record w { jobs = w.jobs ++ row ∷ []; next_id = w.next_id + 1 },
      )
  step job (announce row) w = (
    elim (env.publish w.clock) [ ok _ ↦ settled (ok row) | err e ↦ settled (err e) ],
    record w { published = w.published ++ job_created row ∷ []; clock = w.clock + 1 },
  )
  step job (settled result) w = (settled result, w)

  -- The task at place `i` moves; a place that no task has moves nothing.
  unfoldable pub advance : Batch → ℕ → Batch
  unfolding step
  advance b i = elim (get_elem? b.tasks i) [
    | none ↦ b
    | some t ↦
        let (stage, w) = step t.job t.stage b.world in
        record {
          tasks = set_task b.tasks i (record t { stage = stage });
          world = w;
          failure = first_of_failures b.failure (failure_of stage);
        }
  ]

  unfoldable pub run : List ℕ → Batch → Batch
  run [] b = b
  run (i ∷ is) b = run is (advance b i)

  -- The world is taken when every task has ended, also where a task was rejected before.
  unfoldable pub persist_all : List ℕ → List Job → BoostAction (List JobRow)
  unfolding run drain advance outcome
  persist_all schedule jobs w =
      let b = run (schedule ++ drain (length jobs)) (start w jobs) in (outcome b, b.world)

pub data Imported : Type 0 where
  one : JobRow → Imported
  many : List JobRow → Imported

module _ (env : Env) (schedule : List ℕ) where
  unfoldable pub import_boost_job_from_tx_hex : Option String → BoostAction (List JobRow)
  import_boost_job_from_tx_hex txhex = do
    jobs ← lift (get_boost_jobs_from_tx_hex env txhex)
    persist_all env txhex schedule jobs

  -- After the fetch the code is that of `importBoostJobFromTxHex` once more.
  unfoldable pub import_boost_job_from_txid : String → BoostAction (List JobRow)
  import_boost_job_from_txid txid = do txhex ← fetch env txid; import_boost_job_from_tx_hex txhex

  -- `importBoostJob`; an empty or missing `txhex` is fetched.
  unfoldable pub import_boost_job : Job → Option String → BoostAction Imported
  import_boost_job job txhex = do
    record_found ← gets (λ w. env.find_job (is_output job.txid job.vout) w.jobs)
    elim record_found [
      | some row ↦ pure (one row)
      | none ↦ do
        hex ← (if is_truthy txhex then pure txhex else fetch env job.txid)
        rows ← import_boost_job_from_tx_hex hex
        pure (many rows)
    ]
