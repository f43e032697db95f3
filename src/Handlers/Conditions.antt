-- ===== src/Handlers/Conditions.antt =====
-- Which rows the handlers' queries ask for.
use boostpow_api.Base.{
  ℕ, ◌≤◌, ◌<◌, Bool, true, false, is_some, String, Option, none, some, ◌≡◌, ◌↔◌, refl,
}
use boostpow_api.Handlers.{
  JobsQuery, JobsWhere, truthy_number, truthy_text, add_max, add_min, unspent_jobs, jobs_where,
  WorkQuery, WorkWhere, set_after, set_before, work_where, milliseconds, miners_where,
}

abbrev pub IsAtMost : Option ℕ → ℕ → Type 0
IsAtMost none n = Unit
IsAtMost (some most) n = n ≤ most

abbrev pub IsAtLeast : Option ℕ → ℕ → Type 0
IsAtLeast none n = Unit
IsAtLeast (some least) n = least ≤ n

-- A column that is empty has no tag.
abbrev pub IsTagged : Option String → Option String → Type 0
IsTagged none tag = Unit
IsTagged (some wanted) tag = tag ≡ some wanted

abbrev pub IsAbove : Option ℕ → ℕ → Type 0
IsAbove none n = Unit
IsAbove (some bound) n = bound < n

abbrev pub IsThere : Bool → Option String → Type 0
IsThere true column = is_some column ≡ true
IsThere false column = Unit

-- The columns of a job and of a work that the conditions read. A difficulty and a profitability are
-- counted here.
pub record JobColumns : Type 0 where
  pub spent : Bool
  pub script : Option String
  pub tag : Option String
  pub difficulty : ℕ
  pub profitability : ℕ

pub record WorkColumns : Type 0 where
  pub miner : Option String
  pub tag : Option String
  pub time : ℕ

abbrev pub SelectsJob : JobsWhere → JobColumns → Type 0
SelectsJob w r =
    (r.spent ≡ w.spent)
    × IsThere w.with_script r.script
    × IsTagged w.tag r.tag
    × IsAtMost w.lte r.difficulty
    × IsAtLeast w.gte r.difficulty
    × IsAbove w.profitability_gt r.profitability

abbrev pub SelectsWork : WorkWhere → WorkColumns → Type 0
SelectsWork w r =
    IsThere w.with_miner r.miner
    × IsTagged w.tag r.tag
    × IsAtLeast w.gte r.time
    × IsAtMost w.lte r.time

-- One bound of time: the end if it is given, else the start.
abbrev pub IsInTime : Option ℕ → Option ℕ → ℕ → Type 0
IsInTime start none time = IsAtLeast start time
IsInTime start (some stop) time = time ≤ stop

jobs_bounds :
    (tag : Option String) (least most : Option ℕ)
    → add_min least (add_max most (record unspent_jobs { tag = tag }))
      ≡ record unspent_jobs { tag = tag; lte = most; gte = least }
unfolding add_min add_max
jobs_bounds tag none none = refl
jobs_bounds tag none (some most) = refl
jobs_bounds tag (some least) none = refl
jobs_bounds tag (some least) (some most) = refl

jobs_where_iff :
    (q : JobsQuery) (r : JobColumns)
    → SelectsJob (jobs_where q) r ↔ (
        (r.spent ≡ false)
        × (is_some r.script ≡ true)
        × IsTagged (truthy_text q.tag) r.tag
        × IsAtMost (truthy_number q.max_difficulty) r.difficulty
        × IsAtLeast (truthy_number q.min_difficulty) r.difficulty
        × (0 < r.profitability))
unfolding jobs_where
jobs_where_iff q r =
    let e =
      jobs_bounds (truthy_text q.tag) (truthy_number q.min_difficulty)
        (truthy_number q.max_difficulty) in
    rw e (λ h. h, λ h. h)

times_iff :
    (with_miner : Bool) (start stop : Option ℕ) (wanted : Option String) (r : WorkColumns)
    → SelectsWork
        (set_before stop (
          set_after start
            (record { with_miner = with_miner; tag = wanted; gte = none; lte = none })))
        r
      ↔ (IsThere with_miner r.miner × IsTagged wanted r.tag × IsInTime start stop r.time)
unfolding set_before set_after
times_iff m none none wanted r = (λ (k, t, a, b). (k, t, a), λ (k, t, a). (k, t, a, tt))
times_iff m (some s) none wanted r = (λ (k, t, a, b). (k, t, a), λ (k, t, a). (k, t, a, tt))
times_iff m none (some e) wanted r = (λ (k, t, a, b). (k, t, b), λ (k, t, b). (k, t, tt, b))
times_iff m (some s) (some e) wanted r = (λ (k, t, a, b). (k, t, b), λ (k, t, b). (k, t, tt, b))

-- The query of `boost_jobs.index` asks for the jobs that are not spent, have a script and a positive
-- profitability, whose difficulty lies between both bounds and that have the tag, each of these three
-- as far as it is given and truthy: an empty tag and a bound of zero are not. The query of
-- `boost_work.index` asks for the works with the tag, if a truthy one is given, and by one bound of
-- time; the query of the miners for the works with a miner's key, with no tag, by one bound of time.
-- With an end date a start date is dropped.
pub queries_iff :
    (jobs : JobsQuery) (works : WorkQuery) (start_date end_date : Option ℕ) (job : JobColumns)
    (work : WorkColumns)
    → (SelectsJob (jobs_where jobs) job ↔ (
        (job.spent ≡ false)
        × (is_some job.script ≡ true)
        × IsTagged (truthy_text jobs.tag) job.tag
        × IsAtMost (truthy_number jobs.max_difficulty) job.difficulty
        × IsAtLeast (truthy_number jobs.min_difficulty) job.difficulty
        × (0 < job.profitability)))
      × (SelectsWork (work_where works) work ↔ (
          IsTagged (truthy_text works.tag) work.tag
          × IsInTime
              (milliseconds (truthy_number works.start))
              (milliseconds (truthy_number works.stop))
              work.time))
      × (SelectsWork (miners_where start_date end_date) work
          ↔ ((is_some work.miner ≡ true) × IsInTime start_date end_date work.time))
unfolding work_where miners_where
queries_iff jobs works start_date end_date job work =
    let stored =
      times_iff false (milliseconds (truthy_number works.start))
        (milliseconds (truthy_number works.stop)) (truthy_text works.tag) work in
    let mined = times_iff true start_date end_date none work in
    (
      jobs_where_iff jobs job,
      (λ h. (let (k, t, b) = stored.0 h in (t, b)), λ (t, b). stored.1 (tt, t, b)),
      (λ h. (let (k, t, b) = mined.0 h in (k, b)), λ (k, b). mined.1 (k, tt, b)),
    )
