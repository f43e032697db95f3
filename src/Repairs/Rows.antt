-- ===== src/Repairs/Rows.antt =====
-- The rows that the script leaves.
use boostpow_api.Base.{
  String, ℕ, Option, none, some, List, [], ◌∷◌, inl, inr, Option-cases, Bool-cases,
}
use boostpow_api.Base.Action.{Result, ok, err, Result-cases}
use boostpow_api.Boost.Store.{JobRow, World, has_txid, spends_output}
use boostpow_api.Boost.Network.{IsLookup}
use boostpow_api.Boost.Proofs.Unique.{IsUnique, IsUnique-append}
use boostpow_api.Repairs.{
  SpendTransaction, Calls, find_spend_transaction, work_of, find_or_create_work, record_spend,
  redeem_job, redeem, redeem_all, before_colon, after_colon, without_two,
}

module _ (calls : Calls) (lookup : IsLookup calls.find_work) where
  find_or_create_work-IsUnique :
      (job : JobRow) (spend : SpendTransaction) (time : ℕ) (tx_hex : String) (w : World)
      → IsUnique w.works
      → IsUnique (find_or_create_work calls job spend time tx_hex w).works
  unfolding find_or_create_work work_of
  find_or_create_work-IsUnique job spend time tx_hex w h =
      elim (Option-cases (calls.find_work (spends_output job.txid job.vout) w.works)) [
        | inl e ↦
            rw (e, find_or_create_work)
              (IsUnique-append w.works (work_of calls job spend time tx_hex w.next_id)
                (lookup.missed _ w.works e) h)
        | inr (proof, e) ↦ rw (e, find_or_create_work) h
      ]

  record_spend-IsUnique :
      (job : JobRow) (found : Result (Option SpendTransaction)) (w : World)
      → IsUnique w.works
      → IsUnique (record_spend calls job found w).works
  unfolding record_spend
  record_spend-IsUnique job (err e) w h = h
  record_spend-IsUnique job (ok none) w h = h
  record_spend-IsUnique job (ok (some spend)) w h =
      elim (Result-cases (calls.time spend.spend_txid)) [
        | inr (x, e) ↦ rw (e, record_spend) h
        | inl (time, e) ↦ elim (Result-cases (calls.fetch spend.spend_txid)) [
          | inr (x, f) ↦ simp (e, f, record_spend) h
          | inl (tx_hex, f) ↦
              simp (e, f, record_spend) (find_or_create_work-IsUnique job spend time tx_hex w h)
        ]
      ]

  redeem_job-IsUnique :
      (txid : String) (vout : ℕ) (job : JobRow) (w : World)
      → IsUnique w.works
      → IsUnique (redeem_job calls txid vout job w).works
  unfolding redeem_job
  redeem_job-IsUnique txid vout job w h = elim (Bool-cases job.spent) [
    | inl s ↦ rw (s, redeem_job) h
    | inr s ↦ elim (Option-cases (calls.find_work (spends_output job.txid job.vout) w.works)) [
      | inl e ↦
          simp (s, e, redeem_job)
            (record_spend-IsUnique job (find_spend_transaction calls txid vout) w h)
      | inr (proof, e) ↦ simp (s, e, redeem_job) h
    ]
  ]

  redeem-IsUnique :
      (outpoint : String) (w : World) → IsUnique w.works → IsUnique (redeem calls outpoint w).works
  unfolding redeem
  redeem-IsUnique outpoint w h =
      let txid = without_two (before_colon outpoint) in
      elim (Option-cases (calls.find_job (has_txid txid) w.jobs)) [
        | inl e ↦ rw (e, redeem) h
        | inr (job, e) ↦
            rw (e, redeem)
              (redeem_job-IsUnique txid (calls.parse_int (before_colon (after_colon outpoint))) job
                w h)
      ]

  -- The script records no output of a transaction twice: if no output has two rows before, then none
  -- has two after it, whatever the outpoints are, which of them fail, and how often they come.
  -- `findOne` is taken to answer null only where no row meets the condition.
  pub redeem_all-IsUnique :
      (outpoints : List String) (w : World)
      → IsUnique w.works
      → IsUnique (redeem_all calls outpoints w).works
  unfolding redeem_all
  redeem_all-IsUnique [] w h = h
  redeem_all-IsUnique (outpoint ∷ outpoints) w h =
      redeem_all-IsUnique outpoints (redeem calls outpoint w) (redeem-IsUnique outpoint w h)
