-- ===== src/Boost/Jobs/Stored.antt =====
-- An import of jobs whose transaction is in the table already.
use boostpow_api.Base.{
  ℕ, String, true, false, Option, none, List, [], ◌∷◌, ◌++◌, ◌≡◌, refl, inl, inr, Bool-cases,
  Option-cases, str_eq_iff,
}
use boostpow_api.Base.Lists.{All, All-In, get_elem?, length}
use boostpow_api.Base.Action.{ok, err}
use boostpow_api.Boost.Store.{JobRow, World, has_txid, is_output}
use boostpow_api.Boost.Network.{Job, Env, IsLookup}
use boostpow_api.Boost.Jobs.{
  has_script, failure_of, Stage, look_up, look_up_txid, settled, Batch, step, start, advance, run,
  drain, outcome, persist_all,
}
use boostpow_api.Boost.Jobs.Run.{All-get_elem?, All-set_task, advance_at, advance_missing}
use boostpow_api.Boost.Jobs.Rows.{IsStored, Answers}
use boostpow_api.Boost.Jobs.Answers.{start-All, last-outcome, last-Answers}

has_txid_of : (txid : String) (r : JobRow) → r.txid ≡ txid → has_txid txid r ≡ true
unfolding has_txid
has_txid_of txid r e = (str_eq_iff r.txid txid).1 e

module _ (env : Env) (txhex : Option String) (lookup : IsLookup env.find_job) (w₀ : World) where
  abbrev IsKnown : Job → Type 0
  IsKnown job = (r : JobRow) × IsStored w₀ job r

  -- A task that has only read.
  abbrev IsReading : Stage → Type 0
  IsReading look_up = Unit
  IsReading look_up_txid = Unit
  IsReading (settled (ok r)) = Unit
  IsReading _ = ⊥

  abbrev IsQuiet : Batch → Type 0
  IsQuiet b =
      (b.world ≡ w₀) × (b.failure ≡ none) × All (λ t. IsKnown t.job × IsReading t.stage) b.tasks

  IsReading-failure : (stage : Stage) → IsReading stage → failure_of stage ≡ none
  IsReading-failure look_up h = refl
  IsReading-failure look_up_txid h = refl
  IsReading-failure (settled (ok r)) h = refl
  IsReading-failure (settled (err e)) h = elim h [ ]
  IsReading-failure _ h = elim h [ ]

  step_reads :
      (job : Job) (stage : Stage)
      → IsKnown job
      → IsReading stage
      → ((step env txhex job stage w₀).1 ≡ w₀) × IsReading (step env txhex job stage w₀).0
  unfolding step
  step_reads job look_up k h =
      elim (Option-cases (env.find_job (is_output job.txid job.vout) w₀.jobs)) [
        | inl e ↦ rw (e, step) (refl, tt)
        | inr (r, e) ↦ elim (Bool-cases (has_script r)) [
          | inl s ↦ rw (e, step, s) (refl, tt)
          | inr s ↦ rw (e, step, s) (refl, tt)
        ]
      ]
  step_reads job look_up_txid (r, (here, same)) h =
      elim (Option-cases (env.find_job (has_txid job.txid) w₀.jobs)) [
        | inl e ↦
            let absent =
              All-In (λ x. has_txid job.txid x ≡ false) r w₀.jobs
                (lookup.missed (has_txid job.txid) w₀.jobs e) here in
            cc (has_txid_of job.txid r same)
        | inr (found, e) ↦ rw (e, step) (refl, tt)
      ]
  step_reads job (settled (ok r)) k h = (refl, tt)
  step_reads job (settled (err e)) k h = elim h [ ]
  step_reads job _ k h = elim h [ ]

  advance-IsQuiet : (b : Batch) (i : ℕ) → IsQuiet b → IsQuiet (advance env txhex b i)
  advance-IsQuiet b i (same, honest, ts) = elim (Option-cases (get_elem? b.tasks i)) [
    | inl e ↦ rw (advance_missing env txhex b i e) (same, honest, ts)
    | inr (t, e) ↦
        let h = All-get_elem? (λ u. IsKnown u.job × IsReading u.stage) b.tasks i ts e in
        let (quiet, reading) = step_reads t.job t.stage h.0 h.1 in
        rw (advance_at env txhex b i t e, same)
          (
            quiet,
            rw honest (IsReading-failure (step env txhex t.job t.stage w₀).0 reading),
            All-set_task (λ u. IsKnown u.job × IsReading u.stage) b.tasks i
                (record t { stage = (step env txhex t.job t.stage w₀).0 }) ts (h.0, reading),
          )
  ]

  run-IsQuiet : (is : List ℕ) (b : Batch) → IsQuiet b → IsQuiet (run env txhex is b)
  unfolding run
  run-IsQuiet [] b h = h
  run-IsQuiet (i ∷ is) b h = run-IsQuiet is (advance env txhex b i) (advance-IsQuiet b i h)

  -- If each job's transaction has some row in the table, whatever its output, an import changes
  -- nothing under any schedule, asks nothing of the network and resolves with a stored row of the
  -- transaction for each job. `findOne` is taken to answer with a row that meets the condition, and
  -- with null only where there is none.
  pub persist_all_known :
      (schedule : List ℕ) (jobs : List Job)
      → All (λ job. (r : JobRow) × IsStored w₀ job r) jobs
      → (rows : List JobRow) × (persist_all env txhex schedule jobs w₀ ≡ (ok rows, w₀))
        × Answers w₀ jobs rows
  unfolding persist_all outcome
  persist_all_known schedule jobs known =
      let (same, honest, ts) = run-IsQuiet (schedule ++ drain (length jobs)) (start w₀ jobs) (
        refl,
        refl,
        start-All w₀ jobs (λ t. IsKnown t.job × IsReading t.stage)
            (λ job h. (All-In IsKnown job jobs known h, tt)),
      ) in
      elim (last-outcome env txhex jobs w₀ schedule) [
        | inl (rows, e, r) ↦ (
          rows,
          λ i. (r i, same i),
          (rw same at (last-Answers env txhex jobs w₀ schedule lookup rows e)),
        )
        | inr (e, r, h, failed) ↦ absurd (cc)
      ]
