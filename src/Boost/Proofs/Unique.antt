-- ===== src/Boost/Proofs/Unique.antt =====
-- No output of a transaction is recorded twice by the imports of proofs.
use boostpow_api.Base.{
  ℕ, ◌≤◌, String, Bool, true, false, Option, none, some, List, [], ◌∷◌, ◌++◌, ◌≡◌, refl, sym, inl,
  inr, Bool-cases, Option-cases, str_eq_iff, nat_eq_iff, arith,
}
use boostpow_api.Base.Lists.{All, length, filter, filter-append, length-append}
use boostpow_api.Base.Action.{Result-cases, Keeps, >>=-Keeps, pure, lift, ignore}
use boostpow_api.Boost.Store.{Timestamp, JobRow, WorkRow, World, is_output, spends_output}
use boostpow_api.Boost.Network.{Proof, Env, IsLookup}
use boostpow_api.Boost.Fetch.{BoostAction, fetch, get_boost_jobs_from_tx_hex}
use boostpow_api.Boost.Jobs.{persist_all, import_boost_job_from_tx_hex, import_boost_job_from_txid}
use boostpow_api.Boost.Jobs.Answers.{persist_all-Answers}
use boostpow_api.Boost.Proofs.{
  proof_timestamp, work_row, save_job, find_spent_job, job_or_import, find_or_import_job,
  finish_import, create_work, record_proof, record_for, import_boost_proof,
}
use boostpow_api.Boost.Proofs.Recording.{record_proof_known, record_proof_new, create_work_lem}

-- The rows that record the spending of an output.
abbrev pub works_of : String → ℕ → List WorkRow → List WorkRow
works_of txid vout rows = filter (spends_output txid vout) rows

-- No output has two rows.
abbrev pub IsUnique : List WorkRow → Type 0
IsUnique rows = (txid : String) (vout : ℕ) → length (works_of txid vout rows) ≤ 1

filter-none :
    (p : WorkRow → Bool) (rows : List WorkRow) → All (λ r. p r ≡ false) rows → filter p rows ≡ []
filter-none p [] h = refl
filter-none p (r ∷ rs) (h, hs) = rw h (filter-none p rs hs)

spends_output_eq :
    (txid : String) (vout : ℕ) (r : WorkRow)
    → spends_output txid vout r ≡ true
    → (txid ≡ r.job_txid) × (vout ≡ r.job_vout)
unfolding spends_output
spends_output_eq txid vout r h = (
  sym ((str_eq_iff r.job_txid txid).0 (ground arith)),
  sym ((nat_eq_iff r.job_vout vout).0 (ground arith)),
)

pub IsUnique-append :
    (rows : List WorkRow) (r : WorkRow)
    → All (λ x. spends_output r.job_txid r.job_vout x ≡ false) rows
    → IsUnique rows
    → IsUnique (rows ++ r ∷ [])
IsUnique-append rows r absent h txid vout =
    rw (filter-append (spends_output txid vout) rows (r ∷ []))
      (elim (Bool-cases (spends_output txid vout r)) [
        | inl e ↦
            let (same_txid, same_vout) = spends_output_eq txid vout r e in
            let empty : works_of txid vout rows ≡ [] =
              rw (same_txid, same_vout)
                (filter-none (spends_output r.job_txid r.job_vout) rows absent) in
            rw (empty, e) (omega arith)
        | inr e ↦
            rw (e) (rw (length-append (works_of txid vout rows) []) (omega (arith, h txid vout)))
      ])

module _ (env : Env) (schedule : List ℕ) where
  abbrev pub KeepsUnique : {A : Type 0} → BoostAction A → Type 0
  KeepsUnique m = Keeps (λ w. IsUnique w.works) m

  finish_import-works :
      (proof : Proof) (row : WorkRow) (w : World)
      → (finish_import env schedule proof row w).1.works ≡ w.works
  unfolding finish_import save_job
  finish_import-works proof row w =
      elim (Option-cases (env.find_job (is_output proof.spent_txid proof.spent_vout) w.jobs)) [
        | inl e ↦ rw (e, finish_import)
        | inr (j, e) ↦ rw (e, finish_import)
      ]

  record_proof-KeepsUnique :
      (works : IsLookup env.find_work) (proof : Proof) (job : JobRow) (ts : Timestamp)
      (hex : Option String)
      → KeepsUnique (record_proof env schedule proof job ts hex)
  unfolding work_row
  record_proof-KeepsUnique works proof job ts hex w h =
      elim (Option-cases
        (env.find_work (spends_output proof.spent_txid proof.spent_vout) w.works)) [
          | inr (row, e) ↦
              rw
                (
                  record_proof_known env schedule proof job ts hex w e,
                  finish_import-works proof row w,
                )
                h
          | inl e ↦
              let (same, added, told, updated) = create_work_lem env schedule proof job ts hex w in
              let absent =
                works.missed (spends_output proof.spent_txid proof.spent_vout) w.works e in
              rw
                (
                  record_proof_new env schedule proof job ts hex w e,
                  finish_import-works proof (create_work env schedule proof job ts hex w).0
                      (create_work env schedule proof job ts hex w).1,
                  added,
                )
                (IsUnique-append w.works (work_row env.divide w.next_id proof job ts hex) absent h)
        ]

  -- The property, as the argument of the rules.
  abbrev pub Unique : World → Type 0
  Unique w = IsUnique w.works

  pub fetch-works : (txid : String) (w : World) → (fetch env txid w).1.works ≡ w.works
  unfolding fetch
  fetch-works txid w = elim (Result-cases (env.get_hex w.clock txid)) [
    | inl (reply, e) ↦ rw (e, fetch)
    | inr (x, e) ↦ rw (e, fetch)
  ]

  pub fetch-KeepsUnique : (txid : String) → KeepsUnique (fetch env txid)
  fetch-KeepsUnique txid w h = rw (fetch-works txid w) h

  module _ (jobs : IsLookup env.find_job) (works : IsLookup env.find_work) where
    import_boost_job_from_txid-KeepsUnique :
        (txid : String) → KeepsUnique (import_boost_job_from_txid env schedule txid)
    unfolding import_boost_job_from_txid import_boost_job_from_tx_hex
    import_boost_job_from_txid-KeepsUnique txid =
        >>=-Keeps Unique (fetch env txid) (import_boost_job_from_tx_hex env schedule)
          (fetch-KeepsUnique txid)
          (λ hex.
            >>=-Keeps Unique (lift (get_boost_jobs_from_tx_hex env hex))
              (persist_all env hex schedule) (λ w h. h)
              (λ js w h.
                let grown = (persist_all-Answers env hex jobs schedule js w).0 in rw (grown.3) h))

    job_or_import-KeepsUnique :
        (proof : Proof) (job : Option JobRow) → KeepsUnique (job_or_import env schedule proof job)
    unfolding job_or_import
    job_or_import-KeepsUnique proof (some row) = λ w h. h
    job_or_import-KeepsUnique proof none =
        >>=-Keeps Unique (ignore (import_boost_job_from_txid env schedule proof.spent_txid))
          (λ _. find_spent_job env schedule proof)
          (>>=-Keeps Unique (import_boost_job_from_txid env schedule proof.spent_txid)
            (λ _. pure tt) (import_boost_job_from_txid-KeepsUnique proof.spent_txid)
            (λ rows w h. h))
          (λ _ w h. h)

    find_or_import_job-KeepsUnique :
        (proof : Proof) → KeepsUnique (find_or_import_job env schedule proof)
    unfolding find_or_import_job
    find_or_import_job-KeepsUnique proof =
        >>=-Keeps Unique (find_spent_job env schedule proof) (job_or_import env schedule proof)
          (λ w h. h) (job_or_import-KeepsUnique proof)

    record_for-KeepsUnique :
        (proof : Proof) (ts : Timestamp) (hex : Option String) (job : Option JobRow)
        → KeepsUnique (record_for env schedule proof ts hex job)
    unfolding record_for
    record_for-KeepsUnique proof ts hex none w h = h
    record_for-KeepsUnique proof ts hex (some job) w h =
        >>=-Keeps Unique (record_proof env schedule proof job ts hex) (λ work. pure (some work))
          (record_proof-KeepsUnique works proof job ts hex) (λ work v k. k) w h

    -- An import of a proof, whatever the proof, the network's answers and the schedule, and also one
    -- that is rejected, leaves at most one row for each output, if there was at most one before.
    pub import_boost_proof-IsUnique :
        (proof : Option Proof) (hex : Option String)
        → KeepsUnique (import_boost_proof env schedule proof hex)
    unfolding import_boost_proof
    import_boost_proof-IsUnique none hex w h = h
    import_boost_proof-IsUnique (some proof) hex w h =
        >>=-Keeps Unique (find_or_import_job env schedule proof)
          (record_for env schedule proof (proof_timestamp proof (env.now w.clock)) hex)
          (find_or_import_job-KeepsUnique proof)
          (record_for-KeepsUnique proof (proof_timestamp proof (env.now w.clock)) hex) w h
