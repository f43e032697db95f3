-- ===== src/Handlers/Shown.antt =====
-- What the handler `show` of the jobs answers with.
use boostpow_api.Base.{
  ℕ, String, Bool, true, false, not, ◌&&◌, Option, none, some, List, [], ◌∷◌, ◌≡◌, ◌⊎◌, refl, ◌∙◌,
  ap, inl, inr, Bool-cases, Option-cases, or_else, if◌then◌else◌,
}
use mathlib.Core.Bool.{false≢true}
use boostpow_api.Base.Lists.{In, All, filter, In-filter, In-filter_of}
use boostpow_api.Base.Action.{Result, ok, err, pure, gets, ◌>>=◌, >>=-ok}
use boostpow_api.Boost.Store.{JobRow, World}
use boostpow_api.Boost.Network.{Env, IsLookup}
use boostpow_api.Boost.Fetch.{BoostAction}
use boostpow_api.Boost.Jobs.{import_boost_job_from_txid}
use boostpow_api.Handlers.{
  truthy_text, Answer, shown, bad_request, matches, find_jobs, prefer_unspent, show_jobs, show,
}

split_unspent :
    (a spent : Bool)
    → (a && (true && not spent)) ≡ true
    → (spent ≡ false) × ((a && (true && true)) ≡ true)
split_unspent true true h = absurd (false≢true h)
split_unspent true false h = (refl, refl)
split_unspent false spent h = absurd (false≢true h)

module _ (env : Env) (schedule : List ℕ) (outputs : String → ℕ → Bool)
    (lookup : IsLookup env.find_job) (txid : String) where
  matches_unspent :
      (r : JobRow)
      → matches env schedule outputs txid none true r ≡ true
      → (r.spent ≡ false) × (matches env schedule outputs txid none false r ≡ true)
  unfolding matches
  matches_unspent r h = split_unspent _ r.spent h

  -- With no output asked for, the job is not spent, or every job of the transaction is.
  abbrev pub IsPreferred : Option String → World → JobRow → Type 0
  IsPreferred (some vout) w job = Unit
  IsPreferred none w job =
      (job.spent ≡ false) ⊎ All (λ r. matches env schedule outputs txid none true r ≡ false) w.jobs

  -- The job is in the table and is what was asked for.
  abbrev pub IsAnswer : Option String → World → JobRow → Type 0
  IsAnswer vout w job =
      In job w.jobs
      × (matches env schedule outputs txid vout false job ≡ true)
      × IsPreferred vout w job

  prefer_unspent-IsAnswer :
      (vout : Option String) (job : JobRow) (w : World)
      → In job w.jobs
      → matches env schedule outputs txid vout false job ≡ true
      → (best : JobRow) × (prefer_unspent env schedule outputs txid vout job w ≡ (ok best, w))
        × IsAnswer vout w best
  unfolding prefer_unspent
  prefer_unspent-IsAnswer (some vout) job w here h = (job, refl, (here, h, tt))
  prefer_unspent-IsAnswer none job w here h = elim (Bool-cases job.spent) [
    | inr e ↦ (job, ap (choose job) e, (here, h, inl e))
    | inl e ↦
        elim (Option-cases (env.find_job (matches env schedule outputs txid none true) w.jobs)) [
          | inl missing ↦ (
            job,
            ap (choose job) e ∙ ap (λ o. (ok (or_else o job), w)) missing,
            (
              here,
              h,
              inr (lookup.missed (matches env schedule outputs txid none true) w.jobs missing),
            ),
          )
          | inr (u, found) ↦
              let (there, meets) =
                lookup.found (matches env schedule outputs txid none true) w.jobs found in
              let (unspent, same) = matches_unspent u meets in
              (
                u,
                ap (choose job) e ∙ ap (λ o. (ok (or_else o job), w)) found,
                (there, same, inl unspent),
              )
        ]
  ]
    where
      choose : JobRow → Bool → Result JobRow × World
      choose r spent =
          (if spent
              then (gets (λ (v : World).
                    env.find_job (matches env schedule outputs txid none true) v.jobs)
                  >>= λ unspent. pure (or_else unspent r))
              else pure r)
            w

  show_of :
      (vout : Option String) (w : World) (job : JobRow) (more : List JobRow)
      → filter (matches env schedule outputs txid (truthy_text vout) false) w.jobs ≡ job ∷ more
      → (best : JobRow) × (show env schedule outputs txid vout w
          ≡ (ok (shown best (job ∷ more)), w))
        × IsAnswer (truthy_text vout) w best
  unfolding show find_jobs show_jobs
  show_of vout w job more e =
      let asked = truthy_text vout in
      let (here, meets) =
        In-filter (matches env schedule outputs txid asked false) job w.jobs (rw e (inl refl)) in
      let (best, got, is) = prefer_unspent-IsAnswer asked job w here meets in
      let found : find_jobs env schedule outputs txid asked w ≡ (ok (job ∷ more), w) =
        ap
          (λ (rows : List JobRow).
            (elim rows as (λ _. BoostAction (List JobRow)) [
              | [] ↦ import_boost_job_from_txid env schedule txid
              | r ∷ rs ↦ pure (r ∷ rs)
            ])
              w)
          e in
      let listed : (find_jobs env schedule outputs txid asked
              >>= show_jobs env schedule outputs txid asked)
            w
          ≡ (ok (shown best (job ∷ more)), w) =
        >>=-ok (find_jobs env schedule outputs txid asked) w
          (show_jobs env schedule outputs txid asked) found
        ∙ >>=-ok (prefer_unspent env schedule outputs txid asked job) w
            (λ b. pure (shown b (job ∷ more))) got in
      (
        best,
        ap
            (λ (x : Result Answer × World). elim x.0 as (λ _. Result Answer × World) [
              | ok a ↦ (ok a, x.1)
              | err x' ↦ (ok (bad_request x'), x.1)
            ])
            listed,
        is,
      )

  -- If the table has a job of the transaction, of the output if one is asked for, then `show`
  -- changes nothing and answers with all such jobs and with one of them: with no output asked for,
  -- one that is not spent, unless every job of the transaction is. `findOne` is taken to answer
  -- with a row that meets the condition, and with null only where there is none.
  pub show-IsAnswer :
      (vout : Option String) (w : World) (row : JobRow)
      → In row w.jobs
      → matches env schedule outputs txid (truthy_text vout) false row ≡ true
      → (job : JobRow) × (show env schedule outputs txid vout w ≡ (
        ok (shown job (filter (matches env schedule outputs txid (truthy_text vout) false) w.jobs)),
        w,
      ))
        × IsAnswer (truthy_text vout) w job
  show-IsAnswer vout w row here h =
      from (filter (matches env schedule outputs txid (truthy_text vout) false) w.jobs) refl (
        In-filter_of (matches env schedule outputs txid (truthy_text vout) false) row w.jobs here h)
    where
      from :
          (rows : List JobRow)
          → filter (matches env schedule outputs txid (truthy_text vout) false) w.jobs ≡ rows
          → In row rows
          → (job : JobRow) × (show env schedule outputs txid vout w ≡ (ok (shown job rows), w))
            × IsAnswer (truthy_text vout) w job
      from [] e k = elim k [ ]
      from (r ∷ more) e k = show_of vout w r more e
