-- ===== src/Tests/Handlers.antt =====
-- Runs of the handlers' queries.
use boostpow_api.Base.{
  ◌<◌, is_some, ℕ, String, Bool, true, false, none, some, [], ◌∷◌, ◌≡◌, ◌↔◌, refl, inl, nat_eq,
}
use boostpow_api.Base.Tests.{str_eq}
use boostpow_api.Base.Lists.{filter}
use boostpow_api.Base.Action.{ok}
use boostpow_api.Boost.Store.{JobRow}
use boostpow_api.Handlers.{
  JobsQuery, WorkQuery, truthy_text, jobs_where, work_where, miners_where, shown, matches, show,
}
use boostpow_api.Handlers.Conditions.{
  IsAtMost, IsAtLeast, IsTagged, SelectsJob, SelectsWork, JobColumns, WorkColumns, IsInTime,
  queries_iff,
}
use boostpow_api.Handlers.Shown.{IsAnswer, show-IsAnswer}
use boostpow_api.Tests.Network.{env, find?-IsLookup, stored, with_job}

abbrev jobs_query : JobsQuery
jobs_query = record { tag = none; max_difficulty = some 9; min_difficulty = some 0; limit = none }

abbrev work_query : WorkQuery
work_query = record { tag = none; limit = none; offset = none; start = some 1; stop = some 2 }

abbrev job_columns : JobColumns
job_columns = record {
  spent = false;
  script = some "51";
  tag = some "t";
  difficulty = 5;
  profitability = 7;
}

abbrev work_columns : WorkColumns
work_columns = record { miner = some "02ab"; tag = none; time = 1500 }

queries_iff_example :
    (SelectsJob (jobs_where jobs_query) job_columns ↔ (
      (false ≡ false)
      × (is_some job_columns.script ≡ true)
      × IsTagged none (some "t")
      × IsAtMost (some 9) 5
      × IsAtLeast none 5
      × (0 < 7)))
    × (SelectsWork (work_where work_query) work_columns
        ↔ (IsTagged none none × IsInTime (some 1000) (some 2000) 1500))
    × (SelectsWork (miners_where (some 3) none) work_columns
        ↔ ((is_some work_columns.miner ≡ true) × IsInTime (some 3) none 1500))
queries_iff_example = queries_iff jobs_query work_query (some 3) none job_columns work_columns

abbrev outputs : String → ℕ → Bool
outputs text vout = nat_eq vout 0

stored-matches : matches env [] outputs "aa" (truthy_text (some "0")) false stored ≡ true
unfolding matches str_eq
stored-matches = refl

show-IsAnswer_example :
    (job : JobRow) × (show env [] outputs "aa" (some "0") with_job ≡ (
      ok (
          shown job
            (filter (matches env [] outputs "aa" (truthy_text (some "0")) false) (stored ∷ []))),
      with_job,
    ))
    × IsAnswer env [] outputs find?-IsLookup "aa" (truthy_text (some "0")) with_job job
show-IsAnswer_example =
    show-IsAnswer env [] outputs find?-IsLookup "aa" (some "0") with_job stored (inl refl)
      stored-matches
