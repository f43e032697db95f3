-- ===== src/Boost/Jobs/Failures.antt =====
-- Which failures a `Promise.all` reports, and that it loses none.
use boostpow_api.Base.{
  ℕ, String, Option, none, some, List, [], ◌∷◌, ◌≡◌, refl, ◌⊎◌, inl, inr, Bool-cases, Option-cases,
}
use boostpow_api.Base.Lists.{get_elem?, All}
use boostpow_api.Base.Action.{Error, err, Result-cases}
use boostpow_api.Boost.Store.{World, is_output, has_txid}
use boostpow_api.Boost.Network.{Job, Env}
use boostpow_api.Boost.Jobs.{
  has_script, Stage, look_up, look_up_txid, ask_time, create, announce, settled, Batch,
  first_of_failures, failure_of, step, advance, run,
}
use boostpow_api.Boost.Jobs.Run.{moved, advance_at, advance_missing, All-set_task, All-get_elem?}

none_of_first : (f g : Option Error) → first_of_failures f g ≡ none → (f ≡ none) × (g ≡ none)
none_of_first none g e = (refl, e)
none_of_first (some f) g e = cc

module _ (env : Env) where
  -- The network or the broker rejected with this error.
  abbrev pub HasRejected : Error → Type 0
  HasRejected e =
      ((t : ℕ) × (txid : String) × (env.get_time t txid ≡ err e))
      ⊎ ((t : ℕ) × (env.publish t ≡ err e))

  abbrev pub IsBlamed : Option Error → Type 0
  IsBlamed none = Unit
  IsBlamed (some e) = HasRejected e

module _ (env : Env) (txhex : Option String) where
  -- No rejection is lost: where no failure is recorded, no task was rejected.
  abbrev pub IsHonest : Batch → Type 0
  IsHonest b = b.failure ≡ none → All (λ t. failure_of t.stage ≡ none) b.tasks

  advance-IsHonest : (b : Batch) (i : ℕ) → IsHonest b → IsHonest (advance env txhex b i)
  advance-IsHonest b i h = elim (Option-cases (get_elem? b.tasks i)) [
    | inl e ↦ rw (advance_missing env txhex b i e) h
    | inr (t, e) ↦ rw (advance_at env txhex b i t e) (λ same.
        let (old, new) =
          none_of_first b.failure (failure_of (moved env txhex t b.world).stage) same in
        All-set_task (λ u. failure_of u.stage ≡ none) b.tasks i (moved env txhex t b.world) (h old)
          new)
  ]

  pub run-IsHonest : (is : List ℕ) (b : Batch) → IsHonest b → IsHonest (run env txhex is b)
  unfolding run
  run-IsHonest [] b h = h
  run-IsHonest (i ∷ is) b h = run-IsHonest is (advance env txhex b i) (advance-IsHonest b i h)

  IsBlamed-step :
      (job : Job) (stage : Stage) (w : World)
      → IsBlamed env (failure_of stage)
      → IsBlamed env (failure_of (step env txhex job stage w).0)
  unfolding step
  IsBlamed-step job look_up w h =
      elim (Option-cases (env.find_job (is_output job.txid job.vout) w.jobs)) [
        | inl e ↦ rw (e, step) tt
        | inr (r, e) ↦ elim (Bool-cases (has_script r)) [
          | inl s ↦ rw (e, step, s) tt
          | inr s ↦ rw (e, step, s) tt
        ]
      ]
  IsBlamed-step job look_up_txid w h =
      elim (Option-cases (env.find_job (has_txid job.txid) w.jobs)) [
        | inl e ↦ rw (e, step) tt
        | inr (r, e) ↦ rw (e, step) tt
      ]
  IsBlamed-step job ask_time w h = elim (Result-cases (env.get_time w.clock job.txid)) [
    | inl (time, e) ↦ rw (e, step) tt
    | inr (error, e) ↦ rw (e, step) (inl (w.clock, job.txid, e))
  ]
  IsBlamed-step job (create timestamp) w h = elim (Bool-cases env.amqp_enabled) [
    | inl on ↦ rw (on, step) tt
    | inr off ↦ rw (off, step) tt
  ]
  IsBlamed-step job (announce r) w h = elim (Result-cases (env.publish w.clock)) [
    | inl (done, e) ↦ rw (e, step) tt
    | inr (error, e) ↦ rw (e, step) (inr (w.clock, e))
  ]
  IsBlamed-step job (settled result) w h = h

  IsBlamed-first :
      (f g : Option Error) → IsBlamed env f → IsBlamed env g → IsBlamed env (first_of_failures f g)
  IsBlamed-first none g h k = k
  IsBlamed-first (some e) g h k = h

  -- Each recorded failure, of the batch and of a task, was the network's or the broker's.
  abbrev pub AllBlamed : Batch → Type 0
  AllBlamed b = IsBlamed env b.failure × All (λ t. IsBlamed env (failure_of t.stage)) b.tasks

  AllBlamed-advance : (b : Batch) (i : ℕ) → AllBlamed b → AllBlamed (advance env txhex b i)
  AllBlamed-advance b i (f, ts) = elim (Option-cases (get_elem? b.tasks i)) [
    | inl e ↦ rw (advance_missing env txhex b i e) (f, ts)
    | inr (t, e) ↦
        let old = All-get_elem? (λ u. IsBlamed env (failure_of u.stage)) b.tasks i ts e in
        let new = IsBlamed-step t.job t.stage b.world old in
        rw (advance_at env txhex b i t e) (
          IsBlamed-first b.failure (failure_of (moved env txhex t b.world).stage) f new,
          All-set_task (λ u. IsBlamed env (failure_of u.stage)) b.tasks i
              (moved env txhex t b.world) ts new,
        )
  ]

  pub run-AllBlamed : (is : List ℕ) (b : Batch) → AllBlamed b → AllBlamed (run env txhex is b)
  unfolding run
  run-AllBlamed [] b h = h
  run-AllBlamed (i ∷ is) b h = run-AllBlamed is (advance env txhex b i) (AllBlamed-advance b i h)
