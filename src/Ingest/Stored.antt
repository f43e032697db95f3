-- ===== src/Ingest/Stored.antt =====
-- What a crawl stores.
use boostpow_api.Base.{ℕ, String, List, [], ◌∷◌, ◌≡◌, refl, inl, inr, Option-cases}
use boostpow_api.Base.Lists.{All, In, In-append_left, In-append_right}
use boostpow_api.Base.Action.{Result, ok, Result-cases}
use boostpow_api.Boost.Store.{JobRow, is_output}
use boostpow_api.Boost.Network.{Job, IsLookup}
use boostpow_api.Crawler.{BitbusMessage, Reply, crawl}
use boostpow_api.Crawler.Position.{handled, fresh}
use boostpow_api.Ingest.Rows.{HasRow, HasOutputs, is_output_lem, HasOutputs-last}
use boostpow_api.Ingest.{
  Calls, State, jobs_from, row_for, find_or_create_job, store_jobs, handle_planaria_json,
  handle_all, sync_crawler, on_transaction,
}

abbrev Grown : State → State → Type 0
Grown s t = (row : JobRow) → In row s.jobs → In row t.jobs

module _ (calls : Calls) (lookup : IsLookup calls.find_job) where
  -- A job is stored: the rows stay, it has a row, and no output gets two.
  record Stores (s t : State) : Type 0 where
    kept : Grown s t
    unique : HasOutputs s.jobs → HasOutputs t.jobs

  Stores-trans : (s t u : State) → Stores s t → Stores t u → Stores s u
  Stores-trans s t u h k = record {
    kept = λ row there. k.kept row (h.kept row there);
    unique = λ o. k.unique (h.unique o);
  }

  Stores-same : (s : State) → Stores s s
  Stores-same s = record { kept = λ row there. there; unique = λ o. o }

  find_or_create_job_lem :
      (time : ℕ) (job : Job) (s : State)
      → let t = find_or_create_job calls time job s in Stores s t × HasRow t.jobs job
  unfolding find_or_create_job row_for
  find_or_create_job_lem time job s =
      elim (Option-cases (calls.find_job (is_output job.txid job.vout) s.jobs)) [
        | inr (row, e) ↦
            let (there, meets) = lookup.found (is_output job.txid job.vout) s.jobs e in
            rw (e, find_or_create_job)
              (Stores-same s, (row, there, is_output_lem job.txid job.vout row meets))
        | inl e ↦
            let row = row_for calls time job s.next_id in
            let absent = lookup.missed (is_output job.txid job.vout) s.jobs e in
            rw (e, find_or_create_job)
              (
                record {
                  kept = λ r there. In-append_left r s.jobs (row ∷ []) there;
                  unique = λ o. HasOutputs-last s.jobs row o absent;
                },
                (row, In-append_right row s.jobs (row ∷ []) (inl refl), (refl, refl)),
              )
      ]

  HasRow-Grown : (s t : State) (job : Job) → Grown s t → HasRow s.jobs job → HasRow t.jobs job
  HasRow-Grown s t job kept (row, there, same) = (row, kept row there, same)

  store_jobs_lem :
      (time : ℕ) (jobs : List Job) (s : State)
      → let t = store_jobs calls time jobs s in Stores s t × All (HasRow t.jobs) jobs
  unfolding store_jobs
  store_jobs_lem time [] s = (Stores-same s, tt)
  store_jobs_lem time (job ∷ jobs) s =
      let t = find_or_create_job calls time job s in
      let u = store_jobs calls time jobs t in
      let (first, has) = find_or_create_job_lem time job s in
      let (rest, have) = store_jobs_lem time jobs t in
      (Stores-trans s t u first rest, (HasRow-Grown t u job rest.kept has, have))

  -- The services answer for the transaction, with these jobs.
  abbrev pub AnswersWith : BitbusMessage → List Job → Type 0
  AnswersWith json jobs =
      (count : ℕ) × (time : ℕ) × (calls.outputs_of json.tx ≡ ok count)
      × (calls.time json.tx ≡ ok time)
      × (jobs_from calls json.tx 0 count ≡ ok jobs)

  handle-Stores : (json : BitbusMessage) (s : State) → Stores s (handle_planaria_json calls json s)
  unfolding handle_planaria_json
  handle-Stores json s = elim (Result-cases (calls.outputs_of json.tx)) [
    | inr (x, e) ↦ rw (e, handle_planaria_json) (Stores-same s)
    | inl (count, e) ↦ elim (Result-cases (calls.time json.tx)) [
      | inr (x, f) ↦ simp (e, f, handle_planaria_json) (Stores-same s)
      | inl (time, f) ↦ elim (Result-cases (jobs_from calls json.tx 0 count)) [
        | inr (x, g) ↦ simp (e, f, g, handle_planaria_json) (Stores-same s)
        | inl (jobs, g) ↦ simp (e, f, g, handle_planaria_json) (store_jobs_lem time jobs s).0
      ]
    ]
  ]

  handle_has :
      (json : BitbusMessage) (jobs : List Job) (s : State)
      → AnswersWith json jobs
      → All (HasRow (handle_planaria_json calls json s).jobs) jobs
  unfolding handle_planaria_json
  handle_has json jobs s (count, time, e, f, g) =
      simp (e, f, g, handle_planaria_json) (store_jobs_lem time jobs s).1

  handle_all-Stores : (ms : List BitbusMessage) (s : State) → Stores s (handle_all calls ms s)
  unfolding handle_all
  handle_all-Stores [] s = Stores-same s
  handle_all-Stores (m ∷ ms) s =
      let t = handle_planaria_json calls m s in
      Stores-trans s t (handle_all calls ms t) (handle-Stores m s) (handle_all-Stores ms t)

  All-Grown :
      (s t : State) (jobs : List Job)
      → Grown s t
      → All (HasRow s.jobs) jobs
      → All (HasRow t.jobs) jobs
  All-Grown s t [] kept h = tt
  All-Grown s t (job ∷ jobs) kept (h, hs) =
      (HasRow-Grown s t job kept h, All-Grown s t jobs kept hs)

  handle_all_has :
      (ms : List BitbusMessage) (m : BitbusMessage) (jobs : List Job) (s : State)
      → In m ms
      → AnswersWith m jobs
      → All (HasRow (handle_all calls ms s).jobs) jobs
  unfolding handle_all
  handle_all_has [] m jobs s there h = elim there [ ]
  handle_all_has (x ∷ ms) m jobs s (inl same) h =
      let t = handle_planaria_json calls x s in
      All-Grown t (handle_all calls ms t) jobs (handle_all-Stores ms t).kept
        (rw (← same) (handle_has m jobs s h))
  handle_all_has (x ∷ ms) m jobs s (inr there) h =
      handle_all_has ms m jobs (handle_planaria_json calls x s) there h

  -- Whatever the service answers in each round of a crawl, if the messages that were handed on are
  -- handled one after the other, and no output had two rows, then every row of the table stays, no
  -- output gets two rows, and for every message that was handed on and whose transaction the other
  -- services answer for, each of its jobs has a row of its output, whatever they answer for the other
  -- messages. `findOne` is taken to answer with a row that meets the condition, and with null only
  -- where none does.
  pub crawl-HasRow :
      (parse : String → Result BitbusMessage) (services : List (ℕ → Reply)) (s : State)
      (m : BitbusMessage) (jobs : List Job)
      → let t = (crawl parse (λ m. ok (on_transaction m)) services (fresh sync_crawler)).1 in
        let rows = (handle_all calls (handled t.signals) s).jobs in
        HasOutputs s.jobs
        → In m (handled t.signals)
        → AnswersWith m jobs
        → ((row : JobRow) → In row s.jobs → In row rows) × HasOutputs rows × All (HasRow rows) jobs
  crawl-HasRow parse services s m jobs unique there answers =
      let t = (crawl parse (λ m. ok (on_transaction m)) services (fresh sync_crawler)).1 in
      let stores = handle_all-Stores (handled t.signals) s in
      (stores.kept, stores.unique unique, handle_all_has (handled t.signals) m jobs s there answers)
