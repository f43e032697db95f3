-- ===== src/Ingest.antt =====
-- planaria/index.ts: the crawler whose callback stores the jobs of a transaction, over the table of
-- Boost.
pub mod Rows
pub mod Stored
use boostpow_api.Base.{
  ℕ, zero, suc, ◌+◌, String, Bool, true, false, Option, none, some, List, [], ◌∷◌, ◌++◌,
}
use boostpow_api.Base.Lists.{cons_option}
use boostpow_api.Base.Action.{Result, ok, err}
use boostpow_api.Boost.Store.{number, JobRow, is_output}
use boostpow_api.Boost.Network.{Job}
use boostpow_api.Crawler.{BitbusMessage, Crawler, new_crawler}

-- The remote services and the package boostpow: how many outputs a transaction has, the job at an
-- output with its texts in hex, the time of a transaction, which is in a block, the division of the hook
-- `beforeCreate`, and `findOne` of `findOrCreate`.
pub record Calls : Type 0 where
  pub outputs_of : String → Result ℕ
  pub job_at : String → ℕ → Result (Option Job)
  pub time : String → Result ℕ
  pub divide : ℕ → ℕ → ℕ
  pub find_job : (JobRow → Bool) → List JobRow → Option JobRow

-- The table, and the id of the next row.
pub record State : Type 0 where
  pub jobs : List JobRow
  pub next_id : ℕ

module _ (calls : Calls) where
  -- `entries.map(…)` and the filter behind it, for the outputs from an index on.
  unfoldable pub jobs_from : String → ℕ → ℕ → Result (List Job)
  jobs_from hash index zero = ok []
  jobs_from hash index (suc left) =
      let rest = jobs_from hash (index + 1) left in
      elim (calls.job_at hash index) [
        | err e ↦ err e
        | ok job ↦ elim rest [ err e ↦ err e | ok jobs ↦ ok (cons_option job jobs) ]
      ]

  -- The columns that are not set are empty.
  unfoldable pub row_for : ℕ → Job → ℕ → JobRow
  row_for time job id = record {
    id = id;
    txid = job.txid;
    vout = job.vout;
    content = job.content;
    script = job.script;
    value = job.value;
    difficulty = job.difficulty;
    profitability = calls.divide job.value job.difficulty;
    category = job.category;
    tag = job.tag;
    user_nonce = job.user_nonce;
    additional_data = job.additional_data;
    miner_pub_key_hash = "";
    tx_hex = none;
    timestamp = number time;
    spent = false;
    spent_txid = none;
    spent_vout = none;
  }

  unfoldable pub find_or_create_job : ℕ → Job → State → State
  unfolding row_for
  find_or_create_job time job s = elim (calls.find_job (is_output job.txid job.vout) s.jobs) [
    | some row ↦ s
    | none ↦ record { jobs = s.jobs ++ row_for time job s.next_id ∷ []; next_id = s.next_id + 1 }
  ]

  unfoldable pub store_jobs : ℕ → List Job → State → State
  unfolding find_or_create_job
  store_jobs time [] s = s
  store_jobs time (job ∷ jobs) s = store_jobs time jobs (find_or_create_job time job s)

  -- `handlePlanariaJSON`, which catches every error.
  unfoldable pub handle_planaria_json : BitbusMessage → State → State
  unfolding jobs_from store_jobs
  handle_planaria_json json s = elim (calls.outputs_of json.tx) [
    | err e ↦ s
    | ok count ↦ elim (calls.time json.tx) [
      | err e ↦ s
      | ok time ↦ elim (jobs_from json.tx 0 count) [ err e ↦ s | ok jobs ↦ store_jobs time jobs s ]
    ]
  ]

  -- The callback for the messages in turn.
  unfoldable pub handle_all : List BitbusMessage → State → State
  unfolding handle_planaria_json
  handle_all [] s = s
  handle_all (json ∷ messages) s = handle_all messages (handle_planaria_json json s)

-- The crawler of `sync`, and the answer of its callback.
abbrev pub sync_crawler : Crawler
sync_crawler = new_crawler none none

abbrev pub on_transaction : BitbusMessage → Unit {0}
on_transaction json = tt
