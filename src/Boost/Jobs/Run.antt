-- ===== src/Boost/Jobs/Run.antt =====
-- Every schedule of the tasks of a `Promise.all`: what each single move keeps, all of them keep.
use boostpow_api.Base.{
  ℕ, zero, suc, Option, none, some, List, [], ◌∷◌, ◌++◌, ◌≡◌, refl, inl, inr, Option-cases, String,
}
use boostpow_api.Base.Lists.{get_elem?, All}
use boostpow_api.Boost.Store.{World}
use boostpow_api.Boost.Network.{Env}
use boostpow_api.Boost.Jobs.{
  Task, Batch, set_task, first_of_failures, failure_of, step, advance, run,
}

pub All-get_elem? {κ} :
    (P : Task → Type κ) (ts : List Task) (i : ℕ) {t : Task}
    → All P ts
    → get_elem? ts i ≡ some t
    → P t
All-get_elem? P [] i h e = cc
All-get_elem? P (u ∷ us) zero {t} (h, hs) e = let same : u ≡ t = cc in rw (← same) h
All-get_elem? P (u ∷ us) (suc i) (h, hs) e = All-get_elem? P us i hs e

pub All-set_task {κ} :
    (P : Task → Type κ) (ts : List Task) (i : ℕ) (t : Task)
    → All P ts
    → P t
    → All P (set_task ts i t)
All-set_task P [] i t h p = tt
All-set_task P (u ∷ us) zero t (h, hs) p = (p, hs)
All-set_task P (u ∷ us) (suc i) t (h, hs) p = (h, All-set_task P us i t hs p)

pub All-imp {κ ℓ} :
    {P : Task → Type κ} {Q : Task → Type ℓ} (ts : List Task)
    → ((t : Task) → P t → Q t)
    → All P ts
    → All Q ts
All-imp [] f h = tt
All-imp (u ∷ us) f (h, hs) = (f u h, All-imp us f hs)

module _ (env : Env) (txhex : Option String) where
  abbrev pub after : Task → World → World
  after t w = (step env txhex t.job t.stage w).1

  abbrev pub moved : Task → World → Task
  moved t w = record t { stage = (step env txhex t.job t.stage w).0 }

  pub advance_at :
      (b : Batch) (i : ℕ) (t : Task)
      → get_elem? b.tasks i ≡ some t
      → advance env txhex b i ≡ record {
        tasks = set_task b.tasks i (moved t b.world);
        world = after t b.world;
        failure = first_of_failures b.failure (failure_of (moved t b.world).stage);
      }
  unfolding advance
  advance_at b i t e = rw (e, advance)

  pub advance_missing : (b : Batch) (i : ℕ) → get_elem? b.tasks i ≡ none → advance env txhex b i ≡ b
  unfolding advance
  advance_missing b i e = rw (e, advance)

  pub run-append :
      (is js : List ℕ) (b : Batch)
      → run env txhex (is ++ js) b ≡ run env txhex js (run env txhex is b)
  unfolding run
  run-append [] js b = refl
  run-append (i ∷ is) js b = run-append is js (advance env txhex b i)

  -- `G` holds of the world and `T` of each task in it; a move keeps `G`, the mover's `T` and the
  -- others' `T`.
  module _ (T : World → Task → Type 0) (G : World → Type 0)
      (keep_world : (t : Task) (w : World) → T w t → G w → G (after t w))
      (keep_task : (t : Task) (w : World) → T w t → G w → T (after t w) (moved t w))
      (keep_others : (t u : Task) (w : World) → T w t → G w → T w u → T (after t w) u) where
    abbrev pub Holds : Batch → Type 0
    Holds b = G b.world × All (T b.world) b.tasks

    advance-Holds : (b : Batch) (i : ℕ) → Holds b → Holds (advance env txhex b i)
    advance-Holds b i (g, ts) = elim (Option-cases (get_elem? b.tasks i)) [
      | inl missing ↦ rw (advance_missing b i missing) (g, ts)
      | inr (t, there) ↦
          let h = All-get_elem? (T b.world) b.tasks i ts there in
          rw (advance_at b i t there) (
            keep_world t b.world h g,
            All-set_task (T (after t b.world)) b.tasks i (moved t b.world)
                (All-imp b.tasks (λ u. keep_others t u b.world h g) ts) (keep_task t b.world h g),
          )
    ]

    pub run-Holds : (is : List ℕ) (b : Batch) → Holds b → Holds (run env txhex is b)
    unfolding run
    run-Holds [] b h = h
    run-Holds (i ∷ is) b h = run-Holds is (advance env txhex b i) (advance-Holds b i h)
