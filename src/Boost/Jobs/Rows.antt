-- ===== src/Boost/Jobs/Rows.antt =====
-- What an import adds to the table and what it answers with, whatever the schedule.
use boostpow_api.Base.{
  ℕ, String, true, Option, List, [], ◌∷◌, ◌++◌, ◌≡◌, refl, ◌∙◌, ap, inl, inr, Bool-cases,
  Option-cases, str_eq_iff, arith,
}
use mathlib.Core.List.{append-nil, append_assoc}
use boostpow_api.Base.Lists.{In, In-append_left, In-append_right, All, All-append}
use boostpow_api.Base.Action.{ok, err, Result-cases}
use boostpow_api.Boost.Store.{Timestamp, JobRow, World, has_txid, is_output}
use boostpow_api.Boost.Network.{Job, Env, IsLookup}
use boostpow_api.Boost.Jobs.{
  has_script, Stage, look_up, look_up_txid, ask_time, create, announce, settled, Task, Batch,
  job_row, step, run,
}
use boostpow_api.Boost.Jobs.Run.{after, run-Holds}

has_txid_lem : (txid : String) (r : JobRow) → has_txid txid r ≡ true → r.txid ≡ txid
unfolding has_txid
has_txid_lem txid r h = (str_eq_iff r.txid txid).0 h

is_output_txid :
    (txid : String) (vout : ℕ) (r : JobRow) → is_output txid vout r ≡ true → r.txid ≡ txid
unfolding is_output
is_output_txid txid vout r h = (str_eq_iff r.txid txid).0 (ground arith)

job_row-txid :
    (divide : ℕ → ℕ → ℕ) (id : ℕ) (job : Job) (tx_hex : Option String) (timestamp : Timestamp)
    → (job_row divide id job tx_hex timestamp).txid ≡ job.txid
unfolding job_row
job_row-txid divide id job tx_hex timestamp = refl

-- A stored row of the job's transaction.
abbrev pub IsStored : World → Job → JobRow → Type 0
IsStored w job r = In r w.jobs × (r.txid ≡ job.txid)

-- The row that a task carries is stored.
abbrev pub Found : World → Job → Stage → Type 0
Found w job (announce r) = IsStored w job r
Found w job (settled (ok r)) = IsStored w job r
Found w job _ = Unit

Found-mono :
    (w w' : World) (job : Job) (stage : Stage)
    → ((r : JobRow) → IsStored w job r → IsStored w' job r)
    → Found w job stage
    → Found w' job stage
Found-mono w w' job (announce r) f h = f r h
Found-mono w w' job (settled (ok r)) f h = f r h
Found-mono w w' job (settled (err e)) f h = h
Found-mono w w' job _ f h = h

-- For each job its row, in the same order.
abbrev pub Answers : World → List Job → List JobRow → Type 0
Answers w [] [] = Unit
Answers w (job ∷ jobs) (r ∷ rs) = IsStored w job r × Answers w jobs rs
Answers w _ _ = ⊥

module _ (env : Env) (txhex : Option String) (jobs : List Job) where
  -- A row made from one of the jobs of the transaction.
  abbrev pub IsNewRow : JobRow → Type 0
  IsNewRow r =
      (job : Job) × (id : ℕ) × (timestamp : Timestamp) × In job jobs
      × (r ≡ job_row env.divide id job txhex timestamp)

  -- The later table is the earlier one with new rows behind it; the proofs are the same.
  abbrev pub GrowsFrom : World → World → Type 0
  GrowsFrom w w' =
      (new : List JobRow) × (w'.jobs ≡ w.jobs ++ new) × All IsNewRow new × (w'.works ≡ w.works)

  -- The row that a move stores.
  abbrev added : Job → Stage → World → List JobRow
  added job (create timestamp) w = job_row env.divide w.next_id job txhex timestamp ∷ []
  added job _ w = []

  step-jobs :
      (job : Job) (stage : Stage) (w : World)
      → (step env txhex job stage w).1.jobs ≡ w.jobs ++ added job stage w
  unfolding step
  step-jobs job (create timestamp) w = refl
  step-jobs job look_up w = ground (arith, append-nil w.jobs)
  step-jobs job look_up_txid w = ground (arith, append-nil w.jobs)
  step-jobs job ask_time w = ground (arith, append-nil w.jobs)
  step-jobs job (announce r) w = ground (arith, append-nil w.jobs)
  step-jobs job (settled result) w = ground (arith, append-nil w.jobs)

  step-works :
      (job : Job) (stage : Stage) (w : World) → (step env txhex job stage w).1.works ≡ w.works
  unfolding step
  step-works job look_up w = ground arith
  step-works job _ w = ground arith

  added-IsNewRow :
      (job : Job) (stage : Stage) (w : World) → In job jobs → All IsNewRow (added job stage w)
  added-IsNewRow job (create timestamp) w h = ((job, w.next_id, timestamp, h, refl), tt)
  added-IsNewRow job _ w h = tt

  step-GrowsFrom :
      (w₀ w : World) (job : Job) (stage : Stage)
      → In job jobs
      → GrowsFrom w₀ w
      → GrowsFrom w₀ (step env txhex job stage w).1
  step-GrowsFrom w₀ w job stage h (new, e, all, same) = (
    new ++ added job stage w,
    step-jobs job stage w
        ∙ ap (λ rows. rows ++ added job stage w) e
        ∙ append_assoc w₀.jobs new (added job stage w),
    All-append IsNewRow new _ all (added-IsNewRow job stage w h),
    step-works job stage w ∙ same,
  )

  IsStored-after :
      (t : Task) (w : World) (job : Job) (r : JobRow)
      → IsStored w job r
      → IsStored (after env txhex t w) job r
  IsStored-after t w job r (here, same) =
      (rw (step-jobs t.job t.stage w) (In-append_left r w.jobs (added t.job t.stage w) here), same)

  -- What holds of a task: its job is one of the transaction's, and what it carries is stored.
  abbrev pub IsSound : World → Task → Type 0
  IsSound w t = In t.job jobs × Found w t.job t.stage

  module _ (lookup : IsLookup env.find_job) where
    step-Found :
        (job : Job) (stage : Stage) (w : World)
        → Found w job stage
        → let (stage', w') = step env txhex job stage w in Found w' job stage'
    unfolding step
    step-Found job look_up w h =
        elim (Option-cases (env.find_job (is_output job.txid job.vout) w.jobs)) [
          | inl e ↦ rw (e, step) tt
          | inr (r, e) ↦
              let (here, meets) = lookup.found (is_output job.txid job.vout) w.jobs e in
              elim (Bool-cases (has_script r)) [
                | inl s ↦ rw (e, step, s) (here, is_output_txid job.txid job.vout r meets)
                | inr s ↦ rw (e, step, s) tt
              ]
        ]
    step-Found job look_up_txid w h =
        elim (Option-cases (env.find_job (has_txid job.txid) w.jobs)) [
          | inl e ↦ rw (e, step) tt
          | inr (r, e) ↦
              let (here, meets) = lookup.found (has_txid job.txid) w.jobs e in
              rw (e, step) (here, has_txid_lem job.txid r meets)
        ]
    step-Found job ask_time w h = elim (Result-cases (env.get_time w.clock job.txid)) [
      | inl (time, e) ↦ rw (e, step) tt
      | inr (error, e) ↦ rw (e, step) tt
    ]
    step-Found job (create timestamp) w h =
        let row = job_row env.divide w.next_id job txhex timestamp in
        let here = In-append_right row w.jobs (row ∷ []) (inl refl) in
        elim (Bool-cases env.amqp_enabled) [
          | inl on ↦ rw (on, step) (here, job_row-txid env.divide w.next_id job txhex timestamp)
          | inr off ↦ rw (off, step) (here, job_row-txid env.divide w.next_id job txhex timestamp)
        ]
    step-Found job (announce r) w h = elim (Result-cases (env.publish w.clock)) [
      | inl (done, e) ↦ rw (e, step) h
      | inr (error, e) ↦ rw (e, step) tt
    ]
    step-Found job (settled result) w h = h

    Found-after :
        (t u : Task) (w : World) → Found w u.job u.stage → Found (after env txhex t w) u.job u.stage
    Found-after t u w h =
        Found-mono w (after env txhex t w) u.job u.stage (IsStored-after t w u.job) h

    pub run-IsSound :
        (w₀ : World) (is : List ℕ) (b : Batch)
        → GrowsFrom w₀ b.world
        → All (IsSound b.world) b.tasks
        → GrowsFrom w₀ (run env txhex is b).world
          × All (IsSound (run env txhex is b).world) (run env txhex is b).tasks
    run-IsSound w₀ is b g ts =
        run-Holds env txhex IsSound (GrowsFrom w₀)
          (λ t w h k. step-GrowsFrom w₀ w t.job t.stage h.0 k)
          (λ t w h k. (h.0, step-Found t.job t.stage w h.1))
          (λ t u w h k v. (v.0, Found-after t u w v.1)) is b (g, ts)
