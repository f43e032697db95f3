-- ===== src/Boost/Fetch.antt =====
-- src/boost.ts: fetching transactions and reading the jobs and proofs in them.
pub mod Retry
use boostpow_api.Base.{
  ℕ, zero, suc, ◌+◌, String, Bool, true, false, Option, none, some, List, [], ◌∷◌, ◌≡◌, nat_eq,
  str_eq, is_some, if◌then◌else◌,
}
use boostpow_api.Base.Action.{
  Error, external, Result, ok, err, Action, pure, lift, catch, modify, ◌>>=◌, ◌>>◌,
}
use boostpow_api.Boost.Store.{World}
use boostpow_api.Boost.Network.{Job, Proof, HttpReply, Env}

abbrev pub BoostAction : Type 0 → Type 0
BoostAction A = Action World A

-- A call of the network takes the answer of this moment and moves the clock on.
abbrev pub ask : {A : Type 0} → (ℕ → Result A) → BoostAction A
ask answer w = (answer w.clock, record w { clock = w.clock + 1 })

-- Only a reply with status 200 has a value; any other gives undefined.
abbrev pub body_of : HttpReply → Option String
body_of reply = if nat_eq reply.status 200 then some reply.text else none

-- JavaScript's truth of a string that may be undefined.
abbrev pub is_truthy : Option String → Bool
is_truthy none = false
is_truthy (some s) = if str_eq s "" then false else true

module _ (env : Env) where
  unfoldable pub fetch : String → BoostAction (Option String)
  fetch txid = do reply ← ask (λ t. env.get_hex t txid); pure (body_of reply)

  -- One round of the loop of `fetchWithRetry`; an error is caught and leaves `txhex` undefined.
  unfoldable pub fetch_round : String → Option String → World → Option String × World
  fetch_round txid txhex w =
      let (reply, w') = fetch txid w in elim reply [ ok hex ↦ (hex, w') | err e ↦ (txhex, w') ]

  -- The loop on fuel. Its condition `i<maxRetries || 10` is always true, so `maxRetries` is not
  -- read, and `none` means that the fuel ran out.
  unfoldable pub fetch_with_retry :
      ℕ → String → Option ℕ → Option String → World → Option (Option String × World)
  fetch_with_retry zero txid max_retries txhex w = none
  fetch_with_retry (suc fuel) txid max_retries txhex w =
      let (hex, w') = fetch_round txid txhex w in
      let rest = fetch_with_retry fuel txid max_retries hex w' in
      if is_truthy hex then some (hex, w') else rest

  -- The loop of `getBoostJobsFromTxHex` over the outputs that are left.
  unfoldable pub collect_jobs : ℕ → ℕ → Option String → Result (List Job)
  collect_jobs zero index txhex = ok []
  collect_jobs (suc left) index txhex = elim (env.job_at txhex index) [
    | err e ↦ err e
    | ok found ↦ elim (collect_jobs left (index + 1) txhex) [
      | err e ↦ err e
      | ok jobs ↦ ok (elim found [ some job ↦ job ∷ jobs | none ↦ jobs ])
    ]
  ]

  unfoldable pub get_boost_jobs_from_tx_hex : Option String → Result (List Job)
  unfolding collect_jobs
  get_boost_jobs_from_tx_hex txhex = elim (env.outputs_of txhex) [
    | err e ↦ err e
    | ok count ↦ collect_jobs count 0 txhex
  ]

  unfoldable pub get_boost_jobs_from_txid : String → BoostAction (List Job)
  unfolding fetch get_boost_jobs_from_tx_hex
  get_boost_jobs_from_txid txid = do txhex ← fetch txid; lift (get_boost_jobs_from_tx_hex txhex)

  unfoldable pub read_proof : Option String → BoostAction (Option Proof × Option String)
  read_proof tx_hex = do proof ← lift (env.proof_in tx_hex); pure (proof, tx_hex)

  unfoldable pub get_boost_proof : String → BoostAction (Option Proof × Option String)
  unfolding fetch read_proof
  get_boost_proof txid = do tx_hex ← fetch txid; read_proof tx_hex
