-- ===== src/Tests/Ingest.antt =====
-- A run of the crawl that stores jobs.
use boostpow_api.Base.{ℕ, List, String, true, some, [], ◌∷◌, ◌≡◌, refl, inl}
use boostpow_api.Base.Lists.{All, In, find?}
use boostpow_api.Base.Action.{Result, ok}
use boostpow_api.Boost.Store.{JobRow}
use boostpow_api.Crawler.{
  BitbusMessage, Reply, streamed, crawl, run_once_from_start, transform_all, transform,
}
use boostpow_api.Crawler.Position.{handled, fresh}
use boostpow_api.Ingest.{Calls, State, jobs_from, handle_all, sync_crawler, on_transaction}
use boostpow_api.Ingest.Rows.{HasRow, HasOutputs}
use boostpow_api.Ingest.Stored.{AnswersWith, crawl-HasRow}
use boostpow_api.Tests.Network.{job, find?-IsLookup}

abbrev mined : BitbusMessage
mined = record { tx = "aa"; inputs = []; blk = record { i = 7; h = "h7"; t = 70 } }

-- The transaction has one output, with a job.
abbrev calls : Calls
calls = record {
  outputs_of = λ hash. ok 1;
  job_at = λ hash i. ok (some (job 0));
  time = λ hash. ok 9;
  divide = λ a b. a;
  find_job = find?;
}

abbrev parse : String → Result BitbusMessage
parse line = ok mined

-- One round, in which the service sends one line.
abbrev services : List (ℕ → Reply)
services = (λ n. streamed ("line" ∷ []) true) ∷ []

abbrev none_stored : State
none_stored = record { jobs = []; next_id = 1 }

no_outputs : HasOutputs []
no_outputs a b l = elim l [ ]

one_job : AnswersWith calls find?-IsLookup mined (job 0 ∷ [])
unfolding jobs_from
one_job = (1, 9, refl, refl, refl)

hands_on :
    handled (crawl parse (λ m. ok (on_transaction m)) services (fresh sync_crawler)).1.signals
    ≡ mined ∷ []
unfolding crawl run_once_from_start transform_all transform
hands_on = refl

crawl-HasRow_example :
    let t = (crawl parse (λ m. ok (on_transaction m)) services (fresh sync_crawler)).1 in
    let rows = (handle_all calls (handled t.signals) none_stored).jobs in
    ((row : JobRow) → In row none_stored.jobs → In row rows)
    × HasOutputs rows
    × All (HasRow rows) (job 0 ∷ [])
crawl-HasRow_example =
    crawl-HasRow calls find?-IsLookup parse services none_stored mined (job 0 ∷ []) no_outputs
      (rw hands_on (inl refl)) one_job
