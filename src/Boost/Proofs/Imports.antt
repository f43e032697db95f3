-- ===== src/Boost/Proofs/Imports.antt =====
-- The imports of proofs as wholes: what they answer, and that no output is recorded twice.
use boostpow_api.Base.{
  ℕ, String, true, false, Option, some, List, ◌≡◌, ◌⊎◌, ◌∙◌, ap, inl, inr, Option-cases,
}
use boostpow_api.Base.Lists.{All-In}
use boostpow_api.Base.Action.{ok, map_result, >>=-ok, >>=-pure}
use boostpow_api.Boost.Store.{JobRow, WorkRow, World, is_output}
use boostpow_api.Boost.Network.{Proof, Env, IsLookup}
use boostpow_api.Boost.Proofs.{
  proof_timestamp, find_or_import_job, record_proof, record_for, import_boost_proof,
}
use boostpow_api.Boost.Proofs.Recording.{
  IsSpentJob, IsWorkOf, WasRecorded, IsRecordedNow, record_proof-IsImported,
}

module _ (env : Env) (schedule : List ℕ) (jobs : IsLookup env.find_job) where
  find_or_import_job_known :
      (proof : Proof) (r : JobRow) (w : World)
      → IsSpentJob proof w r
      → (job : JobRow) × IsSpentJob proof w job
        × (find_or_import_job env schedule proof w ≡ (ok (some job), w))
  unfolding find_or_import_job
  find_or_import_job_known proof r w (here, meets) =
      elim (Option-cases (env.find_job (is_output proof.spent_txid proof.spent_vout) w.jobs)) [
        | inl e ↦ absurd (
            cc (
              All-In (λ x. is_output proof.spent_txid proof.spent_vout x ≡ false) r w.jobs
                (jobs.missed (is_output proof.spent_txid proof.spent_vout) w.jobs e) here))
        | inr (job, e) ↦ (
          job,
          jobs.found (is_output proof.spent_txid proof.spent_vout) w.jobs e,
          rw (e, find_or_import_job),
        )
      ]

  import_boost_proof_at :
      (proof : Proof) (hex : Option String) (w w₁ : World) (job : JobRow)
      → find_or_import_job env schedule proof w ≡ (ok (some job), w₁)
      → import_boost_proof env schedule (some proof) hex w ≡ (
          let (res, w₂) =
            record_proof env schedule proof job (proof_timestamp proof (env.now w.clock)) hex w₁ in
          (map_result some res, w₂))
  unfolding import_boost_proof record_for
  import_boost_proof_at proof hex w w₁ job e =
      >>=-ok (find_or_import_job env schedule proof) w
        (record_for env schedule proof (proof_timestamp proof (env.now w.clock)) hex) e
      ∙ >>=-pure (record_proof env schedule proof job (proof_timestamp proof (env.now w.clock)) hex)
          w₁ some

  -- The import of a proof whose job is in the table returns the work's row, which is stored and
  -- names the proof's output, and leaves a row of the job that is marked as spent. Either the
  -- output had a work before, and the table of proofs and the messages are the same; or it had
  -- none, and exactly one row is added, made of the proof and of a stored row of its job, and with
  -- the broker enabled exactly two messages are published: the new proof, then the completed job.
  -- `findOne` is taken to answer with a row that meets the condition, and with null only where
  -- there is none.
  pub import_boost_proof-IsImported :
      (works : IsLookup env.find_work) (proof : Proof) (hex : Option String) (w : World)
      (r : JobRow)
      → IsSpentJob proof w r
      → let (res, w') = import_boost_proof env schedule (some proof) hex w in
        (work : WorkRow) × (res ≡ ok (some work))
        × IsWorkOf proof w' work
        × ((j : JobRow) × IsSpentJob proof w' j × (j.spent ≡ true))
        × (WasRecorded env schedule w w' work
            ⊎ IsRecordedNow env schedule proof
                (proof_timestamp proof (env.now w.clock))
                hex
                w
                w'
                work)
  unfolding import_boost_proof
  import_boost_proof-IsImported works proof hex w r h =
      let (job, at_job, found) = find_or_import_job_known proof r w h in
      let (work, done, stored, spent, rest) =
        record_proof-IsImported env schedule jobs works proof job
          (proof_timestamp proof (env.now w.clock)) hex w at_job in
      rw (import_boost_proof_at proof hex w w job found)
        (work, ap (map_result some) done, stored, spent, rest)
