-- ===== src/Boost/Proofs/Recording.antt =====
-- Recording a proof: what `importBoostProof` stores once the job's row is there.
use boostpow_api.Base.{
  ℕ, String, Bool, true, false, Option, none, some, List, [], ◌∷◌, ◌++◌, ◌≡◌, ◌⊎◌, refl, sym, ◌∙◌,
  ap, inl, inr, nat_eq, nat_eq_iff, str_eq_iff, Bool-cases, Option-cases, if◌then◌else◌, arith,
}
use mathlib.Core.List.{append-nil, append_assoc}
use boostpow_api.Base.Lists.{In, In-append_right, All, All-In}
use boostpow_api.Base.Action.{Result, ok}
use boostpow_api.Boost.Store.{
  Timestamp, JobRow, WorkRow, Message, proof_created, job_completed, World, is_output,
  spends_output, update_row,
}
use boostpow_api.Boost.Network.{Proof, Env, IsLookup}
use boostpow_api.Boost.Proofs.{
  work_row, complete, mark_spent, save_job, emit, finish_import, create_work, record_proof,
}

-- A row of the job that the proof spends.
abbrev pub IsSpentJob : Proof → World → JobRow → Type 0
IsSpentJob proof w r = In r w.jobs × (is_output proof.spent_txid proof.spent_vout r ≡ true)

-- The recorded work of the proof's output.
abbrev pub IsWorkOf : Proof → World → WorkRow → Type 0
IsWorkOf proof w r =
    In r w.works × (r.job_txid ≡ proof.spent_txid) × (r.job_vout ≡ proof.spent_vout)

In-update_row :
    {R : Type 0} (is_row : R → Bool) (f : R → R) (rows : List R) (r : R)
    → In r rows
    → In (if is_row r then f r else r) (update_row is_row f rows)
In-update_row is_row f (x ∷ xs) r (inl e) = inl (ap (λ y. if is_row y then f y else y) e)
In-update_row is_row f (x ∷ xs) r (inr h) = inr (In-update_row is_row f xs r h)
In-update_row is_row f [] r h = elim h [ ]

In-save_job_self :
    (f : JobRow → JobRow) (r : JobRow) (w : World) → In r w.jobs → In (f r) (save_job r f w).jobs
unfolding save_job
In-save_job_self f r w h =
    rw ((nat_eq_iff r.id r.id).1 refl) at (In-update_row (λ x. nat_eq x.id r.id) f w.jobs r h)

-- An update that leaves the output alone keeps a row of the job.
IsSpentJob-save_job :
    (proof : Proof) (f : JobRow → JobRow) (job r : JobRow) (w : World)
    → ((x : JobRow)
        → is_output proof.spent_txid proof.spent_vout (f x)
          ≡ is_output proof.spent_txid proof.spent_vout x)
    → IsSpentJob proof w r
    → (x : JobRow) × IsSpentJob proof (save_job job f w) x
unfolding save_job
IsSpentJob-save_job proof f job r w keep (here, meets) = elim (Bool-cases (nat_eq r.id job.id)) [
  | inl e ↦
      (f r, ((rw e at (In-update_row (λ x. nat_eq x.id job.id) f w.jobs r here)), keep r ∙ meets))
  | inr e ↦ (r, ((rw e at (In-update_row (λ x. nat_eq x.id job.id) f w.jobs r here)), meets))
]

complete-is_output :
    (proof : Proof) (txid : String) (vout : ℕ) (x : JobRow)
    → is_output txid vout (complete proof x) ≡ is_output txid vout x
unfolding is_output complete
complete-is_output proof txid vout x = refl

mark_spent-is_output :
    (txid : String) (vout : ℕ) (x : JobRow)
    → (is_output txid vout (mark_spent x) ≡ is_output txid vout x) × ((mark_spent x).spent ≡ true)
unfolding is_output mark_spent
mark_spent-is_output txid vout x = (refl, refl)

spends_output_lem :
    (txid : String) (vout : ℕ) (r : WorkRow)
    → spends_output txid vout r ≡ true
    → (r.job_txid ≡ txid) × (r.job_vout ≡ vout)
unfolding spends_output
spends_output_lem txid vout r h =
    ((str_eq_iff r.job_txid txid).0 (ground arith), (nat_eq_iff r.job_vout vout).0 (ground arith))

module _ (env : Env) (schedule : List ℕ) where
  -- The job's row is marked as spent, and the work's row is the answer.
  finish_import_lem :
      (jobs : IsLookup env.find_job) (proof : Proof) (row : WorkRow) (r : JobRow) (w : World)
      → IsSpentJob proof w r
      → (j : JobRow) × IsSpentJob proof w j
        × (finish_import env schedule proof row w ≡ (ok row, save_job j mark_spent w))
  unfolding finish_import
  finish_import_lem jobs proof row r w (here, meets) =
      elim (Option-cases (env.find_job (is_output proof.spent_txid proof.spent_vout) w.jobs)) [
        | inl e ↦ absurd (
            cc (
              All-In (λ x. is_output proof.spent_txid proof.spent_vout x ≡ false) r w.jobs
                (jobs.missed (is_output proof.spent_txid proof.spent_vout) w.jobs e) here))
        | inr (j, e) ↦ (
          j,
          jobs.found (is_output proof.spent_txid proof.spent_vout) w.jobs e,
          rw (e, finish_import),
        )
      ]

  pub record_proof_known :
      (proof : Proof) (job : JobRow) (ts : Timestamp) (hex : Option String) (w : World)
      {row : WorkRow}
      → env.find_work (spends_output proof.spent_txid proof.spent_vout) w.works ≡ some row
      → record_proof env schedule proof job ts hex w ≡ finish_import env schedule proof row w
  unfolding record_proof
  record_proof_known proof job ts hex w e = rw (e, record_proof)

  pub record_proof_new :
      (proof : Proof) (job : JobRow) (ts : Timestamp) (hex : Option String) (w : World)
      → env.find_work (spends_output proof.spent_txid proof.spent_vout) w.works ≡ none
      → let (row, w') = create_work env schedule proof job ts hex w in
        record_proof env schedule proof job ts hex w ≡ finish_import env schedule proof row w'
  unfolding record_proof
  record_proof_new proof job ts hex w e = rw (e, record_proof)

  -- The two messages of a new proof, in their order.
  abbrev pub announcements : Proof → JobRow → WorkRow → List Message
  announcements proof job row =
      if env.amqp_enabled
      then proof_created row ∷ job_completed (complete proof job) row ∷ []
      else []

  pub create_work_lem :
      (proof : Proof) (job : JobRow) (ts : Timestamp) (hex : Option String) (w : World)
      → let row = work_row env.divide w.next_id proof job ts hex in
        let (row', w') = create_work env schedule proof job ts hex w in
        (row' ≡ row)
        × (w'.works ≡ w.works ++ row ∷ [])
        × (w'.published ≡ w.published ++ announcements proof job row)
        × (w'.jobs ≡ update_row (λ r. nat_eq r.id job.id) (complete proof) w.jobs)
  unfolding create_work save_job emit
  create_work_lem proof job ts hex w = (
    refl,
    refl,
    elim (Bool-cases env.amqp_enabled) [
      | inl on ↦ rw on (append_assoc w.published _ _)
      | inr off ↦ rw off (sym (append-nil w.published))
    ],
    refl,
  )

  -- A job's row r₀ at the proof's output, once a proof of it is recorded.
  create_work-IsSpentJob :
      (proof : Proof) (job : JobRow) (ts : Timestamp) (hex : Option String) (w : World) (r : JobRow)
      → IsSpentJob proof w r
      → (x : JobRow) × IsSpentJob proof (create_work env schedule proof job ts hex w).1 x
  unfolding create_work emit
  create_work-IsSpentJob proof job ts hex w r h =
      IsSpentJob-save_job proof (complete proof) job r w
        (complete-is_output proof proof.spent_txid proof.spent_vout) h

  -- The work was recorded before, and no table of proofs and no message changes.
  abbrev pub WasRecorded : World → World → WorkRow → Type 0
  WasRecorded w w' work = In work w.works × (w'.works ≡ w.works) × (w'.published ≡ w.published)

  -- The work is new: a row made of the proof and of a row of its job is added and announced.
  abbrev pub IsRecordedNow : Proof → Timestamp → Option String → World → World → WorkRow → Type 0
  IsRecordedNow proof ts hex w w' work =
      All (λ x. spends_output proof.spent_txid proof.spent_vout x ≡ false) w.works
      × ((job : JobRow) × IsSpentJob proof w job
          × (work ≡ work_row env.divide w.next_id proof job ts hex)
          × (w'.works ≡ w.works ++ work ∷ [])
          × (w'.published ≡ w.published ++ announcements proof job work))

  abbrev pub IsImported :
      Proof → Timestamp → Option String → World → Result WorkRow × World → Type 0
  IsImported proof ts hex w (res, w') =
      (work : WorkRow) × (res ≡ ok work)
      × IsWorkOf proof w' work
      × ((j : JobRow) × IsSpentJob proof w' j × (j.spent ≡ true))
      × (WasRecorded w w' work ⊎ IsRecordedNow proof ts hex w w' work)

  spent_after :
      (proof : Proof) (j : JobRow) (w : World)
      → IsSpentJob proof w j
      → (x : JobRow) × IsSpentJob proof (save_job j mark_spent w) x × (x.spent ≡ true)
  spent_after proof j w (here, meets) =
      let (keep, spent) = mark_spent-is_output proof.spent_txid proof.spent_vout j in
      (mark_spent j, (In-save_job_self mark_spent j w here, keep ∙ meets), spent)

  work_row-IsWorkOf :
      (id : ℕ) (proof : Proof) (job : JobRow) (ts : Timestamp) (hex : Option String)
      → let row = work_row env.divide id proof job ts hex in
        (row.job_txid ≡ proof.spent_txid) × (row.job_vout ≡ proof.spent_vout)
  unfolding work_row
  work_row-IsWorkOf id proof job ts hex = (refl, refl)

  pub record_proof-IsImported :
      (jobs : IsLookup env.find_job) (works : IsLookup env.find_work) (proof : Proof) (job : JobRow)
      (ts : Timestamp) (hex : Option String) (w : World)
      → IsSpentJob proof w job
      → IsImported proof ts hex w (record_proof env schedule proof job ts hex w)
  unfolding save_job
  record_proof-IsImported jobs works proof job ts hex w h =
      elim (Option-cases
        (env.find_work (spends_output proof.spent_txid proof.spent_vout) w.works)) [
          | inr (row, e) ↦
              let (j, at_j, done) = finish_import_lem jobs proof row job w h in
              let (here, meets) =
                works.found (spends_output proof.spent_txid proof.spent_vout) w.works e in
              let (same_txid, same_vout) =
                spends_output_lem proof.spent_txid proof.spent_vout row meets in
              rw (record_proof_known proof job ts hex w e, done)
                (
                  row,
                  refl,
                  (here, same_txid, same_vout),
                  spent_after proof j w at_j,
                  inl (here, refl, refl),
                )
          | inl e ↦
              let w₁ : World = (create_work env schedule proof job ts hex w).1 in
              let row : WorkRow = (create_work env schedule proof job ts hex w).0 in
              let (same, added, told, updated) = create_work_lem proof job ts hex w in
              let (x, at_x) = create_work-IsSpentJob proof job ts hex w job h in
              let (j, at_j, done) = finish_import_lem jobs proof row x w₁ at_x in
              let (same_txid, same_vout) = work_row-IsWorkOf w.next_id proof job ts hex in
              rw (record_proof_new proof job ts hex w e, done)
                (
                  row,
                  refl,
                  (
                    rw (added, same) (In-append_right _ w.works _ (inl refl)),
                    rw same same_txid,
                    rw same same_vout,
                  ),
                  spent_after proof j w₁ at_j,
                  inr (
                    works.missed (spends_output proof.spent_txid proof.spent_vout) w.works e,
                    (job, h, same, rw same added, rw same told),
                  ),
                )
        ]
