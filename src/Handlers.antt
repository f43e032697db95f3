-- ===== src/Handlers.antt =====
-- The handlers of the API over src/boost.ts and over the tables: src/server/handlers/boost_jobs.ts
-- and boost_work.ts, and the condition of src/miners.ts.
pub mod Conditions
pub mod Shown
use boostpow_api.Base.{
  ℕ, zero, suc, ◌*◌, String, Bool, true, false, not, ◌&&◌, Option, none, some, List, [], ◌∷◌, ◌++◌,
  map, str_eq, nat_eq, is_some, or_else, if◌then◌else◌,
}
use boostpow_api.Base.Lists.{filter, head?}
use boostpow_api.Base.Action.{
  Error, type_error, Result, ok, err, Action, pure, throw, lift, gets, catch, ◌>>=◌, ◌>>◌,
}
use boostpow_api.Boost.Store.{JobRow, WorkRow, World}
use boostpow_api.Boost.Network.{Job, Env}
use boostpow_api.Boost.Fetch.{BoostAction, is_truthy, get_boost_jobs_from_tx_hex}
use boostpow_api.Boost.Jobs.{Imported, one, many, import_boost_job_from_txid}

-- The query of `boost_jobs.index`; a number that is given and is not zero is truthy.
pub record JobsQuery : Type 0 where
  pub tag : Option String
  pub max_difficulty : Option ℕ
  pub min_difficulty : Option ℕ
  pub limit : Option ℕ

-- `where` of `boost_jobs.index`: `spent`, whether a script is needed, `tag`, the two bounds of the
-- difficulty, and what the profitability is above.
pub record JobsWhere : Type 0 where
  pub spent : Bool
  pub with_script : Bool
  pub tag : Option String
  pub lte : Option ℕ
  pub gte : Option ℕ
  pub profitability_gt : Option ℕ

abbrev pub truthy_number : Option ℕ → Option ℕ
truthy_number none = none
truthy_number (some zero) = none
truthy_number (some (suc n)) = some (suc n)

abbrev pub truthy_text : Option String → Option String
truthy_text none = none
truthy_text (some s) = if str_eq s "" then none else some s

unfoldable pub add_max : Option ℕ → JobsWhere → JobsWhere
add_max none w = w
add_max (some n) w = record w { lte = some n; gte = none }

-- `Object.assign` keeps what is there.
unfoldable pub add_min : Option ℕ → JobsWhere → JobsWhere
add_min none w = w
add_min (some n) w = record w { gte = some n }

abbrev pub unspent_jobs : JobsWhere
unspent_jobs = record {
  spent = false;
  with_script = true;
  tag = none;
  lte = none;
  gte = none;
  profitability_gt = none;
}

unfoldable pub jobs_where : JobsQuery → JobsWhere
unfolding add_max add_min
jobs_where q =
    let tagged = record unspent_jobs { tag = truthy_text q.tag } in
    let bounded =
      add_min (truthy_number q.min_difficulty) (add_max (truthy_number q.max_difficulty) tagged) in
    record bounded { profitability_gt = some 0 }

-- `request.query.limit || 25`
unfoldable pub limit_of : Option ℕ → ℕ
limit_of limit = or_else (truthy_number limit) 25

-- The rows that `findAll` gives for a condition, in falling order of profitability, and no more of
-- them than the limit.
unfoldable pub jobs_index : (JobsWhere → ℕ → List JobRow) → JobsQuery → List JobRow
jobs_index find_jobs q = find_jobs (jobs_where q) (limit_of q.limit)

-- The query of `boost_work.index`.
pub record WorkQuery : Type 0 where
  pub tag : Option String
  pub limit : Option ℕ
  pub offset : Option ℕ
  pub start : Option ℕ
  pub stop : Option ℕ

-- `where` of the queries of works; `with_miner` is `minerPubKey: { [Op.ne]: null }`.
pub record WorkWhere : Type 0 where
  pub with_miner : Bool
  pub tag : Option String
  pub gte : Option ℕ
  pub lte : Option ℕ

-- `where['timestamp'] = { [Op.gte]: … }` puts a new object in the place of the old one.
unfoldable pub set_after : Option ℕ → WorkWhere → WorkWhere
set_after none w = w
set_after (some t) w = record w { gte = some t; lte = none }

unfoldable pub set_before : Option ℕ → WorkWhere → WorkWhere
set_before none w = w
set_before (some t) w = record w { gte = none; lte = some t }

abbrev pub milliseconds : Option ℕ → Option ℕ
milliseconds none = none
milliseconds (some s) = some (s * 1000)

unfoldable pub work_where : WorkQuery → WorkWhere
unfolding set_after set_before
work_where q = set_before (milliseconds (truthy_number q.stop)) (
    set_after (milliseconds (truthy_number q.start))
      (record { with_miner = false; tag = truthy_text q.tag; gte = none; lte = none }))

unfoldable pub work_index : (WorkWhere → ℕ → ℕ → List WorkRow) → WorkQuery → List WorkRow
work_index find_works q =
    find_works (work_where q) (limit_of q.limit) (or_else (truthy_number q.offset) 0)

-- The condition of `listMiners`; dates are truthy.
unfoldable pub miners_where : Option ℕ → Option ℕ → WorkWhere
unfolding set_after set_before
miners_where start_date end_date =
    set_before end_date
      (set_after start_date (record { with_miner = true; tag = none; gte = none; lte = none }))

-- The dates that `listMiners` answers with.
unfoldable pub miners_dates : ℕ → Option ℕ → Option ℕ → ℕ × ℕ
miners_dates now start_date end_date = (or_else start_date 0, or_else end_date now)

-- What `show` answers with.
pub data Answer : Type 0 where
  shown : JobRow → List JobRow → Answer
  not_found : Answer
  bad_request : Error → Answer

-- What `createByTxid` answers with.
pub data Created : Type 0 where
  created : Option JobRow → List JobRow → Created
  refused : Error → Created

-- What is asked of the table: a transaction, an output if one is given, and `spent` if it is set.
-- `outputs` compares the column with a text.
module _ (env : Env) (schedule : List ℕ) (outputs : String → ℕ → Bool) where
  unfoldable pub matches : String → Option String → Bool → JobRow → Bool
  matches txid vout only_unspent row =
      str_eq row.txid txid
      && ((elim vout [ none ↦ true | some v ↦ outputs v row.vout ])
          && (if only_unspent then not row.spent else true))

  -- The rows of the table, or those of the import where it has none.
  unfoldable pub find_jobs : String → Option String → BoostAction (List JobRow)
  find_jobs txid vout = do
    rows ← gets (λ w. filter (matches txid vout false) w.jobs)
    elim rows [ [] ↦ import_boost_job_from_txid env schedule txid | row ∷ more ↦ pure (row ∷ more) ]

  -- A spent job gives way to one of the transaction that is not, if no output was asked for.
  unfoldable pub prefer_unspent : String → Option String → JobRow → BoostAction JobRow
  prefer_unspent txid (some vout) job = pure job
  prefer_unspent txid none job =
      if job.spent
      then (do
        unspent ← gets (λ w. env.find_job (matches txid none true) w.jobs)
        pure (or_else unspent job))
      else pure job

  unfoldable pub show_jobs : String → Option String → List JobRow → BoostAction Answer
  show_jobs txid vout [] = pure not_found
  show_jobs txid vout (job ∷ more) = do
    best ← prefer_unspent txid vout job
    pure (shown best (job ∷ more))

  -- `show`, of a location that is split into the transaction and the output; an empty output is not
  -- given.
  unfoldable pub show : String → Option String → BoostAction Answer
  show txid vout =
      catch (find_jobs txid (truthy_text vout) >>= show_jobs txid (truthy_text vout))
        (λ e. pure (bad_request e))

  -- `createByTxid` of the jobs: the rows and the first of them, or the error.
  unfoldable pub create_by_txid : String → BoostAction Created
  create_by_txid txid =
      catch
        (import_boost_job_from_txid env schedule txid >>= λ rows. pure (created (head? rows) rows))
        (λ e. pure (refused e))
