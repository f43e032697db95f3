-- ===== src/Boost/Jobs/Answers.antt =====
-- What an import of jobs answers with and leaves in the database, for every schedule.
use boostpow_api.Base.{
  ℕ, zero, suc, String, Option, none, some, List, [], ◌∷◌, ◌++◌, ◌≡◌, ◌⊎◌, refl, sym, ◌∙◌, ap, inl,
  inr, map, Option-cases,
}
use mathlib.Core.List.{append-nil}
use boostpow_api.Base.Lists.{In, All, get_elem?, length}
use boostpow_api.Base.Action.{Error, ok, err}
use boostpow_api.Boost.Store.{JobRow, World}
use boostpow_api.Boost.Network.{Job, Env, IsLookup}
use boostpow_api.Boost.Jobs.{
  row_of_stage, cons_rows, failure_of, Stage, look_up, look_up_txid, ask_time, create, announce,
  settled, Task, Batch, set_task, start, advance, run, drain, rows_of, outcome, persist_all,
}
use boostpow_api.Boost.Jobs.Run.{All-imp, moved, advance_at, advance_missing, run-append}
use boostpow_api.Boost.Jobs.Settling.{
  SettledFrom, SettledFrom-length, SettledFrom-drain, rows_of-settled,
}
use boostpow_api.Boost.Jobs.Failures.{
  IsHonest, run-IsHonest, HasRejected, IsBlamed, AllBlamed, run-AllBlamed,
}
use boostpow_api.Boost.Jobs.Rows.{IsStored, Found, Answers, GrowsFrom, IsSound, run-IsSound}

abbrev pub jobs_of : List Task → List Job
jobs_of ts = map (λ t. t.job) ts

jobs_of-set_task :
    (ts : List Task) (i : ℕ) (t : Task) (stage : Stage)
    → get_elem? ts i ≡ some t
    → jobs_of (set_task ts i (record t { stage = stage })) ≡ jobs_of ts
jobs_of-set_task [] i t stage e = refl
jobs_of-set_task (u ∷ us) zero t stage e = let same : u ≡ t = cc in rw same
jobs_of-set_task (u ∷ us) (suc i) t stage e = ap (λ r. u.job ∷ r) (jobs_of-set_task us i t stage e)

length-jobs_of : (ts : List Task) → length (jobs_of ts) ≡ length ts
length-jobs_of [] = refl
length-jobs_of (t ∷ ts) = ap suc (length-jobs_of ts)

jobs_of-start : (jobs : List Job) (w : World) → jobs_of (start w jobs).tasks ≡ jobs
jobs_of-start [] w = refl
jobs_of-start (job ∷ jobs) w = ap (λ r. job ∷ r) (jobs_of-start jobs w)

pub start-All :
    (w : World) (jobs : List Job) (P : Task → Type 0)
    → ((job : Job) → In job jobs → P (record { job = job; stage = look_up }))
    → All P (start w jobs).tasks
start-All w [] P h = tt
start-All w (job ∷ jobs) P h = (h job (inl refl), start-All w jobs P (λ j k. h j (inr k)))

cons_rows-eq-some :
    (o : Option JobRow) (p : Option (List JobRow)) (rows : List JobRow)
    → cons_rows o p ≡ some rows
    → (row : JobRow) × (rest : List JobRow) × (o ≡ some row) × (p ≡ some rest) × (rows ≡ row ∷ rest)
cons_rows-eq-some (some row) (some rest) rows e = (row, rest, refl, refl, cc)
cons_rows-eq-some none p rows e = cc
cons_rows-eq-some (some row) none rows e = cc

Found-settled :
    (w : World) (job : Job) (stage : Stage) (row : JobRow)
    → row_of_stage stage ≡ some row
    → Found w job stage
    → IsStored w job row
Found-settled w job (settled (ok r)) row e h = let same : r ≡ row = cc in rw (← same) h
Found-settled w job (settled (err r)) row e h = cc
Found-settled w job look_up row e h = cc
Found-settled w job look_up_txid row e h = cc
Found-settled w job ask_time row e h = cc
Found-settled w job (create timestamp) row e h = cc
Found-settled w job (announce r) row e h = cc

pub rows_of-Answers :
    (w : World) (ts : List Task) (rows : List JobRow)
    → All (λ t. Found w t.job t.stage) ts
    → rows_of ts ≡ some rows
    → Answers w (jobs_of ts) rows
unfolding rows_of
rows_of-Answers w [] rows h e = let empty : [] ≡ rows = cc in rw (← empty) tt
rows_of-Answers w (t ∷ ts) rows (h, hs) e =
    let (row, rest, settled_ok, later, same) =
      cons_rows-eq-some (row_of_stage t.stage) (rows_of ts) rows e in
    rw same (Found-settled w t.job t.stage row settled_ok h, rows_of-Answers w ts rest hs later)

module _ (env : Env) (txhex : Option String) where
  jobs_of-run : (is : List ℕ) (b : Batch) → jobs_of (run env txhex is b).tasks ≡ jobs_of b.tasks
  unfolding run
  jobs_of-run [] b = refl
  jobs_of-run (i ∷ is) b =
      jobs_of-run is (advance env txhex b i) ∙ elim (Option-cases (get_elem? b.tasks i)) [
        | inl e ↦ ap (λ c. jobs_of c.tasks) (advance_missing env txhex b i e)
        | inr (t, e) ↦
            ap (λ c. jobs_of c.tasks) (advance_at env txhex b i t e)
            ∙ jobs_of-set_task b.tasks i t (moved env txhex t b.world).stage e
      ]

  module _ (jobs : List Job) (w : World) (schedule : List ℕ) where
    -- The state when every task has ended.
    abbrev pub last : Batch
    last = run env txhex (schedule ++ drain (length jobs)) (start w jobs)

    last-SettledFrom : SettledFrom 0 last.tasks
    last-SettledFrom =
        let middle = run env txhex schedule (start w jobs) in
        let same : length middle.tasks ≡ length jobs =
          sym (length-jobs_of middle.tasks)
          ∙ ap length (jobs_of-run schedule (start w jobs) ∙ jobs_of-start jobs w) in
        rw (run-append env txhex schedule (drain (length jobs)) (start w jobs)) (
          SettledFrom-drain env txhex (length jobs) middle
            (rw same at (SettledFrom-length middle.tasks)))

    last-IsHonest : IsHonest env txhex last
    last-IsHonest =
        run-IsHonest env txhex (schedule ++ drain (length jobs)) (start w jobs)
          (λ e. start-All w jobs (λ t. failure_of t.stage ≡ none) (λ job h. refl))

    last-AllBlamed : AllBlamed env txhex last
    last-AllBlamed =
        run-AllBlamed env txhex (schedule ++ drain (length jobs)) (start w jobs)
          (tt, start-All w jobs (λ t. IsBlamed env (failure_of t.stage)) (λ job h. tt))

    pub last-outcome :
        ((rows : List JobRow) × (rows_of last.tasks ≡ some rows) × (outcome last ≡ ok rows))
        ⊎ ((e : Error) × (outcome last ≡ err e) × HasRejected env e × (last.failure ≡ some e))
    unfolding outcome
    last-outcome = elim (Option-cases last.failure) [
      | inl same ↦
          let (rows, e) = rows_of-settled last.tasks last-SettledFrom (last-IsHonest same) in
          inl (rows, e, rw (same, outcome, e))
      | inr (e, failed) ↦ inr (e, rw (failed, outcome), rw failed at last-AllBlamed.0, failed)
    ]

    pub last-IsSound :
        IsLookup env.find_job
        → GrowsFrom env txhex jobs w last.world × All (IsSound env txhex jobs last.world) last.tasks
    last-IsSound lookup =
        run-IsSound env txhex jobs lookup w (schedule ++ drain (length jobs)) (start w jobs)
          ([], sym (append-nil w.jobs), tt, refl)
          (start-All w jobs (IsSound env txhex jobs w) (λ job h. (h, tt)))

    pub last-Answers :
        IsLookup env.find_job
        → (rows : List JobRow) → rows_of last.tasks ≡ some rows
        → Answers last.world jobs rows
    last-Answers lookup rows e =
        let same =
          jobs_of-run (schedule ++ drain (length jobs)) (start w jobs) ∙ jobs_of-start jobs w in
        let found =
          All-imp {P = IsSound env txhex jobs last.world} last.tasks (λ t h. h.1)
            (last-IsSound lookup).1 in
        rw same at (rows_of-Answers last.world last.tasks rows found e)

  -- A `Promise.all` over the jobs of a transaction ends under every schedule. The table has only
  -- gained rows made from these jobs, each job's columns and the transaction's text among them, and
  -- the proofs are the same. It resolves with one row for each job, in the order of the jobs, and
  -- each is a stored row of the job's transaction; or it rejects with an error with which the
  -- network or the broker rejected. `findOne` is taken to answer with a row that meets the
  -- condition, and with null only where there is none.
  pub persist_all-Answers :
      (lookup : IsLookup env.find_job) (schedule : List ℕ) (jobs : List Job) (w : World)
      → let (r, w') = persist_all env txhex schedule jobs w in
        GrowsFrom env txhex jobs w w'
        × (((rows : List JobRow) × (r ≡ ok rows) × Answers w' jobs rows)
            ⊎ ((e : Error) × (r ≡ err e) × HasRejected env e))
  unfolding persist_all
  persist_all-Answers lookup schedule jobs w = (
    (last-IsSound jobs w schedule lookup).0,
    elim (last-outcome jobs w schedule) [
      | inl (rows, e, r) ↦ inl (rows, r, last-Answers jobs w schedule lookup rows e)
      | inr (e, r, h, failed) ↦ inr (e, r, h)
    ],
  )
