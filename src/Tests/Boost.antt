-- ===== src/Tests/Boost.antt =====
-- Runs of src/boost.ts.
use boostpow_api.Base.{
  ℕ, zero, suc, ◌+◌, ◌<◌, true, false, none, some, List, [], ◌∷◌, ◌≡◌, ◌⊎◌, refl, inl, arith,
}
use boostpow_api.Base.Tests.{str_eq}
use boostpow_api.Base.Lists.{length}
use boostpow_api.Base.Action.{Error, ok, err}
use boostpow_api.Boost.Store.{JobRow, WorkRow, is_output, has_txid, spends_output}
use boostpow_api.Boost.Fetch.{is_truthy, fetch_with_retry}
use boostpow_api.Boost.Fetch.Retry.{at, answer, fetch_with_retry_first, fetch_with_retry_endless}
use boostpow_api.Boost.Jobs.{job_row, persist_all, step, advance, run, drain}
use boostpow_api.Boost.Jobs.Rows.{GrowsFrom, Answers}
use boostpow_api.Boost.Jobs.Failures.{HasRejected}
use boostpow_api.Boost.Jobs.Answers.{persist_all-Answers}
use boostpow_api.Boost.Jobs.Stored.{persist_all_known}
use boostpow_api.Boost.Proofs.{
  proof_timestamp, import_boost_proof, import_boost_proof_from_tx_hex_listener,
  import_boost_proof_by_txid,
}
use boostpow_api.Boost.Proofs.Recording.{IsSpentJob, IsWorkOf, WasRecorded, IsRecordedNow}
use boostpow_api.Boost.Proofs.Imports.{import_boost_proof-IsImported}
use boostpow_api.Boost.Proofs.Unique.{IsUnique}
use boostpow_api.Boost.Proofs.Ledger.{ledger, import_boost_proof-ledger}
use boostpow_api.Boost.Proofs.Entries.{imports-IsUnique}
use boostpow_api.Tests.Network.{
  two_jobs, proof, env, offline, find?-IsLookup, stored, empty, with_job,
}

-- Alternating, both tasks miss the lookups before either creates its row.
abbrev pub turns : List ℕ
turns = 0 ∷ 1 ∷ 0 ∷ 1 ∷ 0 ∷ 1 ∷ []

alternating : length (persist_all env (some "0100") turns two_jobs empty).1.jobs ≡ 2
unfolding persist_all run advance step drain
alternating = refl

-- One after the other, the second finds the row of the first by the transaction's id.
one_by_one : length (persist_all env (some "0100") [] two_jobs empty).1.jobs ≡ 1
unfolding persist_all run advance step drain has_txid is_output job_row str_eq
one_by_one = refl

persist_all-Answers_example :
    let (r, w') = persist_all env (some "0100") turns two_jobs empty in
    GrowsFrom env (some "0100") two_jobs empty w'
    × (((rows : List JobRow) × (r ≡ ok rows) × Answers w' two_jobs rows)
        ⊎ ((e : Error) × (r ≡ err e) × HasRejected env e))
persist_all-Answers_example =
    persist_all-Answers env (some "0100") find?-IsLookup turns two_jobs empty

persist_all_known_example :
    (rows : List JobRow) × (persist_all env (some "0100") turns two_jobs with_job
      ≡ (ok rows, with_job))
    × Answers with_job two_jobs rows
persist_all_known_example =
    persist_all_known env (some "0100") find?-IsLookup with_job turns two_jobs
      ((stored, (inl refl, refl)), ((stored, (inl refl, refl)), tt))

pub stored-IsSpentJob : IsSpentJob proof with_job stored
unfolding is_output str_eq
stored-IsSpentJob = (inl refl, refl)

import_boost_proof-IsImported_example :
    let (res, w') = import_boost_proof env turns (some proof) (some "0200") with_job in
    (work : WorkRow) × (res ≡ ok (some work))
    × IsWorkOf proof w' work
    × ((j : JobRow) × IsSpentJob proof w' j × (j.spent ≡ true))
    × (WasRecorded env turns with_job w' work
        ⊎ IsRecordedNow env turns proof (proof_timestamp proof 0) (some "0200") with_job w' work)
import_boost_proof-IsImported_example =
    import_boost_proof-IsImported env turns find?-IsLookup find?-IsLookup proof (some "0200")
      with_job stored stored-IsSpentJob

import_boost_proof-ledger_example :
    ledger
      (import_boost_proof env turns (some proof) (some "0200") with_job).1.works
      proof.spent_txid
      proof.spent_vout
    ≡ some (proof.txid, proof.vin)
unfolding spends_output str_eq
import_boost_proof-ledger_example =
    import_boost_proof-ledger env turns find?-IsLookup find?-IsLookup proof (some "0200") with_job
      stored stored-IsSpentJob proof.spent_txid proof.spent_vout

imports-IsUnique_example :
    IsUnique (import_boost_proof_from_tx_hex_listener env turns "0200" with_job).1.works
    × IsUnique (import_boost_proof_by_txid env turns "bb" with_job).1.works
imports-IsUnique_example =
    imports-IsUnique env turns find?-IsLookup find?-IsLookup "0200" "bb" with_job
      (λ txid vout. omega arith)

-- With a maximum of one attempt the loop still makes a third, which succeeds.
two_fail : (i : ℕ) → i < 2 → is_truthy (answer env "aa" (0 + i)) ≡ false
two_fail zero h = refl
two_fail (suc zero) h = refl
two_fail (suc (suc i)) h = absurd (omega arith)

third_succeeds : is_truthy (answer env "aa" 2) ≡ true
unfolding str_eq
third_succeeds = refl

fetch_with_retry_first_example :
    fetch_with_retry env 5 "aa" (some 1) none empty ≡ some (some "0100", at empty 3)
fetch_with_retry_first_example =
    fetch_with_retry_first env "aa" 2 5 (some 1) none empty refl (omega arith) two_fail
      third_succeeds

fetch_with_retry_endless_example : fetch_with_retry offline 50 "aa" (some 1) none empty ≡ none
fetch_with_retry_endless_example =
    fetch_with_retry_endless offline "aa" 50 (some 1) none empty refl (λ i. refl)
