-- ===== src/Boost/Proofs.antt =====
-- src/boost.ts: the imports of proofs.
pub mod Recording
pub mod Imports
pub mod Unique
pub mod Entries
pub mod Ledger
use boostpow_api.Base.{
  ℕ, ◌+◌, ◌*◌, String, Bool, true, false, not, ◌&&◌, Option, none, some, List, [], ◌∷◌, ◌++◌,
  nat_eq, is_some, if◌then◌else◌,
}
use boostpow_api.Base.Action.{
  Error, type_error, Result, ok, err, Action, pure, throw, lift, gets, modify, when, ignore, ◌>>=◌,
  ◌>>◌,
}
use boostpow_api.Boost.Store.{
  Timestamp, date, JobRow, WorkRow, Message, proof_created, job_completed, World, is_output,
  spends_output, update_row,
}
use boostpow_api.Boost.Network.{Proof, Env}
use boostpow_api.Boost.Fetch.{BoostAction, ask, is_truthy, fetch, get_boost_proof}
use boostpow_api.Boost.Jobs.{import_boost_job_from_txid}

-- The attribute `spend_txid` that `importBoostProof` reads is none of the model BoostJob, whose
-- columns are `spent_txid` and `spent_vout`: a row that was read has it undefined.
unfoldable pub spend_txid_of : JobRow → Option String
spend_txid_of job = none

unfoldable pub proof_timestamp : Proof → ℕ → Timestamp
proof_timestamp proof now = elim proof.time [
  | some seconds ↦ date (seconds * 1000)
  | none ↦ date now
]

-- The row that `BoostWork.create` stores.
unfoldable pub work_row : (ℕ → ℕ → ℕ) → ℕ → Proof → JobRow → Timestamp → Option String → WorkRow
work_row divide id proof job timestamp tx_hex = record {
  id = id;
  job_txid = proof.spent_txid;
  job_vout = proof.spent_vout;
  spend_txid = proof.txid;
  spend_vout = proof.vin;
  content = job.content;
  difficulty = job.difficulty;
  profitability = divide job.value job.difficulty;
  tag = job.tag;
  timestamp = timestamp;
  value = job.value;
  tx_hex = tx_hex;
}

-- `job.spent = true; job.spent_txid = proof.txid; job.spent_vout = proof.vin`
unfoldable pub complete : Proof → JobRow → JobRow
complete proof job = record job {
  spent = true;
  spent_txid = some proof.txid;
  spent_vout = some proof.vin;
}

-- What `jobRecord.save()` stores of the last three assignments: only `spent` is a column.
unfoldable pub mark_spent : JobRow → JobRow
mark_spent job = record job { spent = true }

unfoldable pub save_job : JobRow → (JobRow → JobRow) → World → World
save_job job f w = record w { jobs = update_row (λ r. nat_eq r.id job.id) f w.jobs }

unfoldable pub emit : Bool → Message → World → World
emit enabled m w = record w { published = if enabled then w.published ++ m ∷ [] else w.published }

unfoldable pub note_broadcast : String → World → World
note_broadcast txhex w = record w { broadcasts = w.broadcasts ++ txhex ∷ [] }

module _ (env : Env) (schedule : List ℕ) where
  abbrev pub find_spent_job : Proof → BoostAction (Option JobRow)
  find_spent_job proof =
      gets (λ w. env.find_job (is_output proof.spent_txid proof.spent_vout) w.jobs)

  -- A missing job's transaction is imported, and the job is looked up again.
  unfoldable pub job_or_import : Proof → Option JobRow → BoostAction (Option JobRow)
  job_or_import proof (some row) = pure (some row)
  job_or_import proof none = do
    ignore (import_boost_job_from_txid env schedule proof.spent_txid)
    find_spent_job proof

  unfoldable pub find_or_import_job : Proof → BoostAction (Option JobRow)
  unfolding job_or_import
  find_or_import_job proof = do job ← find_spent_job proof; job_or_import proof job

  -- `BoostWork.create`, and the changes that go with it.
  unfoldable pub create_work : Proof → JobRow → Timestamp → Option String → World → WorkRow × World
  unfolding emit save_job
  create_work proof job timestamp tx_hex w =
      let row = work_row env.divide w.next_id proof job timestamp tx_hex in
      let w₁ = record w { works = w.works ++ row ∷ []; next_id = w.next_id + 1 } in
      let w₂ = emit env.amqp_enabled (proof_created row) w₁ in
      let w₃ = save_job job (complete proof) w₂ in
      (row, emit env.amqp_enabled (job_completed (complete proof job) row) w₃)

  -- The last lookup of the job, and its update.
  unfoldable pub finish_import : Proof → WorkRow → BoostAction WorkRow
  unfolding save_job
  finish_import proof row = do
    job_record ← find_spent_job proof
    elim job_record [
      | none ↦ throw type_error
      | some r ↦ do modify (save_job r mark_spent); pure row
    ]

  -- From the lookup of the proof's row to the end.
  unfoldable pub record_proof : Proof → JobRow → Timestamp → Option String → BoostAction WorkRow
  unfolding create_work finish_import spend_txid_of
  record_proof proof job timestamp tx_hex = do
    known ← gets (λ w. env.find_work (spends_output proof.spent_txid proof.spent_vout) w.works)
    elim known [
      | some row ↦ if is_truthy (spend_txid_of job) then pure row else finish_import proof row
      | none ↦ do
        row ← (λ w. let (row, w') = create_work proof job timestamp tx_hex w in (ok row, w'))
        finish_import proof row
    ]

  -- `importBoostProof` from where the job was looked for.
  unfoldable pub record_for :
      Proof → Timestamp → Option String → Option JobRow → BoostAction (Option WorkRow)
  record_for proof timestamp tx_hex none = pure none
  record_for proof timestamp tx_hex (some job) = do
    work ← record_proof proof job timestamp tx_hex
    pure (some work)

  -- `importBoostProof`; `none` is undefined.
  unfoldable pub import_boost_proof : Option Proof → Option String → BoostAction (Option WorkRow)
  import_boost_proof none tx_hex = pure none
  import_boost_proof (some proof) tx_hex = do
    now ← gets (λ w. env.now w.clock)
    job ← find_or_import_job proof
    record_for proof (proof_timestamp proof now) tx_hex job

  unfoldable pub import_boost_proof_by_txid : String → BoostAction (Option WorkRow)
  import_boost_proof_by_txid txid = do
    (proof, tx_hex) ← get_boost_proof env txid
    import_boost_proof proof tx_hex

  -- Whether the network knows the transaction; an error of `fetch` counts as not.
  unfoldable pub is_broadcast : String → World → Bool × World
  is_broadcast hash w =
      let (reply, w') = fetch env hash w in
      elim reply [ ok hex ↦ (is_truthy hex, w') | err e ↦ (false, w') ]

  -- `await broadcast(txhex)`; an error of it is thrown again.
  unfoldable pub broadcast_tx : String → BoostAction (Unit {0})
  broadcast_tx txhex = do ask (λ t. env.broadcast t txhex); modify (note_broadcast txhex)

  unfoldable pub broadcast_unless_known : String → BoostAction (Unit {0})
  unfolding is_broadcast broadcast_tx
  broadcast_unless_known txhex w =
      let (known, w') = is_broadcast (env.hash_of (some txhex)) w in
      if known then (ok tt, w') else broadcast_tx txhex w'

  -- `_importBoostProofFromTxHex` up to where the proof is read, with the transaction broadcast first
  -- if it is not trusted. Of what follows, `importBoostProof` is below; with an untrusted transaction
  -- the code starts `importBoostProofByTxid` beside it, which is not modelled.
  unfoldable pub read_proof_of : Bool → String → BoostAction (Option Proof)
  read_proof_of trusted txhex = do
    ignore (lift (env.outputs_of (some txhex)))
    when (not trusted) (broadcast_unless_known txhex)
    lift (env.proof_in (some txhex))

  -- `importBoostProofFromTxHexListener`, where the transaction is trusted.
  unfoldable pub import_boost_proof_from_tx_hex_listener : String → BoostAction (Option WorkRow)
  import_boost_proof_from_tx_hex_listener txhex = do
    proof ← read_proof_of true txhex
    import_boost_proof proof (some txhex)
