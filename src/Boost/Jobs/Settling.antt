-- ===== src/Boost/Jobs/Settling.antt =====
-- Every task of a `Promise.all` comes to its end: the moves that it can still make.
use boostpow_api.Base.{
  ℕ, zero, suc, ◌-◌, ◌≤◌, String, Option, none, some, List, [], ◌∷◌, ◌≡◌, refl, inl, inr,
  Option-cases, arith,
}
use boostpow_api.Base.Lists.{get_elem?, All, length}
use boostpow_api.Base.Action.{ok, err}
use boostpow_api.Boost.Store.{JobRow, World}
use boostpow_api.Boost.Network.{Job, Env}
use boostpow_api.Boost.Jobs.{
  Stage, look_up, look_up_txid, ask_time, create, announce, settled, Task, Batch, set_task,
  failure_of, step, advance, run, drain, rows_of,
}
use boostpow_api.Boost.Jobs.Run.{moved, advance_at, advance_missing}

-- The moves that a task can still make.
abbrev pub moves_left : Stage → ℕ
moves_left look_up = 5
moves_left look_up_txid = 4
moves_left ask_time = 3
moves_left (create _) = 2
moves_left (announce _) = 1
moves_left (settled _) = 0

moves_left-le : (stage : Stage) → moves_left stage ≤ 5
moves_left-le look_up = omega arith
moves_left-le _ = omega arith

abbrev moves_at : List Task → ℕ → ℕ
moves_at [] i = 0
moves_at (t ∷ ts) zero = moves_left t.stage
moves_at (t ∷ ts) (suc i) = moves_at ts i

moves_at-le : (ts : List Task) (i : ℕ) → moves_at ts i ≤ 5
moves_at-le [] i = omega arith
moves_at-le (t ∷ ts) zero = moves_left-le t.stage
moves_at-le (t ∷ ts) (suc i) = moves_at-le ts i

-- The tasks from place `n` on are settled.
abbrev pub SettledFrom : ℕ → List Task → Type 0
SettledFrom n [] = Unit
SettledFrom zero (t ∷ ts) = (moves_left t.stage ≡ 0) × SettledFrom zero ts
SettledFrom (suc n) (t ∷ ts) = SettledFrom n ts

pub SettledFrom-length : (ts : List Task) → SettledFrom (length ts) ts
SettledFrom-length [] = tt
SettledFrom-length (t ∷ ts) = SettledFrom-length ts

SettledFrom-set_task :
    (i : ℕ) (ts : List Task) (t : Task)
    → SettledFrom (suc i) ts
    → SettledFrom (suc i) (set_task ts i t)
SettledFrom-set_task i [] t h = tt
SettledFrom-set_task zero (u ∷ us) t h = h
SettledFrom-set_task (suc i) (u ∷ us) t h = SettledFrom-set_task i us t h

SettledFrom-down :
    (i : ℕ) (ts : List Task) → moves_at ts i ≡ 0 → SettledFrom (suc i) ts → SettledFrom i ts
SettledFrom-down i [] e h = tt
SettledFrom-down zero (u ∷ us) e h = (e, h)
SettledFrom-down (suc i) (u ∷ us) e h = SettledFrom-down i us e h

moves_at-set_task :
    (ts : List Task) (i : ℕ) (t u : Task)
    → get_elem? ts i ≡ some u
    → (moves_at ts i ≡ moves_left u.stage) × (moves_at (set_task ts i t) i ≡ moves_left t.stage)
moves_at-set_task [] i t u e = cc
moves_at-set_task (v ∷ vs) zero t u e = let same : v ≡ u = cc in (rw same, refl)
moves_at-set_task (v ∷ vs) (suc i) t u e = moves_at-set_task vs i t u e

moves_at_missing : (ts : List Task) (i : ℕ) → get_elem? ts i ≡ none → moves_at ts i ≡ 0
moves_at_missing [] i e = refl
moves_at_missing (v ∷ vs) zero e = cc
moves_at_missing (v ∷ vs) (suc i) e = moves_at_missing vs i e

module _ (env : Env) (txhex : Option String) where
  moves_left-step :
      (job : Job) (stage : Stage) (w : World)
      → moves_left (step env txhex job stage w).0 ≤ moves_left stage - 1
  unfolding step
  moves_left-step job look_up w = ground arith
  moves_left-step job look_up_txid w = ground arith
  moves_left-step job ask_time w = ground arith
  moves_left-step job (create timestamp) w = ground arith
  moves_left-step job (announce r) w = ground arith
  moves_left-step job (settled result) w = ground arith

  moves_at-advance :
      (b : Batch) (i : ℕ) → moves_at (advance env txhex b i).tasks i ≤ moves_at b.tasks i - 1
  moves_at-advance b i = elim (Option-cases (get_elem? b.tasks i)) [
    | inl e ↦ rw (advance_missing env txhex b i e) (omega (arith, moves_at_missing b.tasks i e))
    | inr (t, e) ↦
        let (before, behind) = moves_at-set_task b.tasks i (moved env txhex t b.world) t e in
        rw (advance_at env txhex b i t e)
          (omega (arith, before, behind, moves_left-step t.job t.stage b.world))
  ]

  SettledFrom-advance :
      (b : Batch) (i : ℕ)
      → SettledFrom (suc i) b.tasks
      → SettledFrom (suc i) (advance env txhex b i).tasks
  SettledFrom-advance b i h = elim (Option-cases (get_elem? b.tasks i)) [
    | inl e ↦ rw (advance_missing env txhex b i e) h
    | inr (t, e) ↦
        rw (advance_at env txhex b i t e)
          (SettledFrom-set_task i b.tasks (moved env txhex t b.world) h)
  ]

  -- The moves of place `i`, taken `k` times.
  abbrev repeat : ℕ → ℕ → Batch → Batch
  repeat i zero b = b
  repeat i (suc k) b = repeat i k (advance env txhex b i)

  SettledFrom-repeat :
      (i k : ℕ) (b : Batch)
      → moves_at b.tasks i ≤ k
      → SettledFrom (suc i) b.tasks
      → SettledFrom i (repeat i k b).tasks
  SettledFrom-repeat i zero b h s = SettledFrom-down i b.tasks (omega arith) s
  SettledFrom-repeat i (suc k) b h s =
      SettledFrom-repeat i k (advance env txhex b i) (omega (arith, moves_at-advance b i))
        (SettledFrom-advance b i s)

  pub SettledFrom-drain :
      (n : ℕ) (b : Batch) → SettledFrom n b.tasks → SettledFrom 0 (run env txhex (drain n) b).tasks
  unfolding run drain
  SettledFrom-drain zero b s = s
  SettledFrom-drain (suc n) b s =
      SettledFrom-drain n (repeat n 5 b) (SettledFrom-repeat n 5 b (moves_at-le b.tasks n) s)

settled_row :
    (stage : Stage)
    → moves_left stage ≡ 0
    → failure_of stage ≡ none
    → (row : JobRow) × (stage ≡ settled (ok row))
settled_row (settled (ok row)) m f = (row, refl)
settled_row (settled (err e)) m f = cc
settled_row look_up m f = absurd (omega arith)
settled_row look_up_txid m f = absurd (omega arith)
settled_row ask_time m f = absurd (omega arith)
settled_row (create timestamp) m f = absurd (omega arith)
settled_row (announce row) m f = absurd (omega arith)

pub rows_of-settled :
    (ts : List Task)
    → SettledFrom 0 ts
    → All (λ t. failure_of t.stage ≡ none) ts
    → (rows : List JobRow) × (rows_of ts ≡ some rows)
unfolding rows_of
rows_of-settled [] s h = ([], refl)
rows_of-settled (t ∷ ts) (s, ss) (h, hs) =
    let (rows, e) = rows_of-settled ts ss hs in
    let (row, done) = settled_row t.stage s h in (row ∷ rows, rw (done, e))
