-- ===== src/Repairs.antt =====
-- find_spend_transaction.ts, the script that completes the faulty old jobs.
pub mod Latest
pub mod Rows
use Prim.Native.Char.{code}
use boostpow_api.Base.{
  ℕ, suc, ◌+◌, ◌*◌, String, Bool, true, false, ◌||◌, Option, none, some, List, [], ◌∷◌, ◌++◌, map,
  str_eq, nat_eq, if◌then◌else◌,
}
use boostpow_api.Base.Lists.{get_elem?}
use boostpow_api.Base.Action.{Result, ok, err, type_error}
use boostpow_api.Boost.Store.{number, JobRow, WorkRow, World, has_txid, spends_output, update_row}

-- What is read of a transaction: the scripts of its outputs, and the transactions that its inputs
-- spend from.
pub record Transaction : Type 0 where
  pub outputs : List String
  pub inputs : List String

pub record SpendTransaction : Type 0 where
  pub job_txid : String
  pub job_vout : ℕ
  pub spend_txid : String
  pub spend_vin : ℕ

-- The remote services, the reversed hash of a script, `parseInt`, and `findOne`. A transaction has a
-- time.
pub record Calls : Type 0 where
  pub get_transaction : String → Result Transaction
  pub history : String → Result (List String)
  pub time : String → Result ℕ
  pub fetch : String → Result String
  pub script_hash : String → String
  pub parse_int : String → ℕ
  pub find_job : (JobRow → Bool) → List JobRow → Option JobRow
  pub find_work : (WorkRow → Bool) → List WorkRow → Option WorkRow

-- The first input that spends from the transaction, counted from an index.
unfoldable pub input_from : String → ℕ → List String → Option ℕ
input_from job_txid vin [] = none
input_from job_txid vin (input ∷ inputs) =
    if str_eq input job_txid then some vin else input_from job_txid (vin + 1) inputs

-- The two parts of `outpoint.split(':')`, and `substring(2)`.
unfoldable pub before_colon : String → String
before_colon String.[] = String.[]
before_colon (String.◌∷◌ c s) =
    if nat_eq (code c) b':' then String.[] else String.◌∷◌ c (before_colon s)

unfoldable pub after_colon : String → String
after_colon String.[] = String.[]
after_colon (String.◌∷◌ c s) = if nat_eq (code c) b':' then s else after_colon s

unfoldable pub without_two : String → String
without_two (String.◌∷◌ c (String.◌∷◌ d s)) = s
without_two _ = String.[]

module _ (calls : Calls) where
  -- The loop over the history, with the transaction that was found so far.
  unfoldable pub search_history :
      String → ℕ → Option SpendTransaction → List String → Result (Option SpendTransaction)
  unfolding input_from
  search_history job_txid job_vout found [] = ok found
  search_history job_txid job_vout found (tx_hash ∷ history) =
      elim (calls.get_transaction tx_hash) [
        | err e ↦ err e
        | ok transaction ↦ elim (input_from job_txid 0 transaction.inputs) [
          | none ↦ search_history job_txid job_vout found history
          | some vin ↦
              search_history job_txid job_vout
                (some (record {
                  job_txid = job_txid;
                  job_vout = job_vout;
                  spend_txid = tx_hash;
                  spend_vin = vin;
                }))
                history
        ]
      ]

  unfoldable pub hash_of_output : String → ℕ → Result String
  hash_of_output job_txid job_vout = elim (calls.get_transaction job_txid) [
    | err e ↦ err e
    | ok transaction ↦ elim (get_elem? transaction.outputs job_vout) [
      | none ↦ err type_error
      | some script ↦ ok (calls.script_hash script)
    ]
  ]

  -- `findSpendTransaction` without a script hash, as `main` calls it.
  unfoldable pub find_spend_transaction : String → ℕ → Result (Option SpendTransaction)
  unfolding search_history hash_of_output
  find_spend_transaction job_txid job_vout = elim (hash_of_output job_txid job_vout) [
    | err e ↦ err e
    | ok script_hash ↦ elim (calls.history script_hash) [
      | err e ↦ err e
      | ok history ↦ search_history job_txid job_vout none history
    ]
  ]

  unfoldable pub set_spent : WorkRow → JobRow → JobRow
  set_spent proof job = record job {
    spent = true;
    spent_txid = some proof.spend_txid;
    spent_vout = some proof.spend_vout;
  }

  unfoldable pub work_of : JobRow → SpendTransaction → ℕ → String → ℕ → WorkRow
  work_of job spend time tx_hex id = record {
    id = id;
    job_txid = job.txid;
    job_vout = job.vout;
    spend_txid = spend.spend_txid;
    spend_vout = spend.spend_vin;
    content = job.content;
    difficulty = job.difficulty;
    profitability = job.profitability;
    tag = job.tag;
    timestamp = number (time * 1000);
    value = job.value;
    tx_hex = some tx_hex;
  }

  -- `BoostWork.findOrCreate` on the job's output.
  unfoldable pub find_or_create_work : JobRow → SpendTransaction → ℕ → String → World → World
  unfolding work_of
  find_or_create_work job spend time tx_hex w =
      elim (calls.find_work (spends_output job.txid job.vout) w.works) [
        | some proof ↦ w
        | none ↦ record w {
          works = w.works ++ work_of job spend time tx_hex w.next_id ∷ [];
          next_id = w.next_id + 1;
        }
      ]

  -- What follows the search; an error is caught and ends the redemption.
  unfoldable pub record_spend : JobRow → Result (Option SpendTransaction) → World → World
  unfolding find_or_create_work
  record_spend job (err e) w = w
  record_spend job (ok none) w = w
  record_spend job (ok (some spend)) w = elim (calls.time spend.spend_txid) [
    | err e ↦ w
    | ok time ↦ elim (calls.fetch spend.spend_txid) [
      | err e ↦ w
      | ok tx_hex ↦ find_or_create_work job spend time tx_hex w
    ]
  ]

  unfoldable pub redeem_job : String → ℕ → JobRow → World → World
  unfolding record_spend set_spent find_spend_transaction
  redeem_job txid vout job w =
      if job.spent then w else elim (calls.find_work (spends_output job.txid job.vout) w.works) [
        | some proof ↦ record w {
          jobs = update_row (λ r. nat_eq r.id job.id) (λ r. set_spent proof r) w.jobs;
        }
        | none ↦ record_spend job (find_spend_transaction txid vout) w
      ]

  -- The body of the loop of `main`, for the text of an outpoint.
  unfoldable pub redeem : String → World → World
  unfolding redeem_job before_colon after_colon without_two
  redeem outpoint w =
      let txid = without_two (before_colon outpoint) in
      elim (calls.find_job (has_txid txid) w.jobs) [
        | none ↦ w
        | some job ↦ redeem_job txid (calls.parse_int (before_colon (after_colon outpoint))) job w
      ]

  unfoldable pub redeem_all : List String → World → World
  unfolding redeem
  redeem_all [] w = w
  redeem_all (outpoint ∷ outpoints) w = redeem_all outpoints (redeem outpoint w)
