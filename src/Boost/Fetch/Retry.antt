-- ===== src/Boost/Fetch/Retry.antt =====
-- How often `fetchWithRetry` asks, and what it answers.
use boostpow_api.Base.{
  ℕ, zero, suc, ◌+◌, ◌<◌, String, true, false, Option, none, some, ◌≡◌, refl, sym, ◌∙◌, ap, inl,
  inr, arith,
}
use mathlib.Core.Bool.{false≢true}
use native.Mathlib.Nat.{add-zero}
use boostpow_api.Base.Action.{Error, pure, >>=-ok, >>=-err, Result, ok, err, Result-cases}
use boostpow_api.Boost.Store.{World}
use boostpow_api.Boost.Network.{HttpReply, Env}
use boostpow_api.Boost.Fetch.{ask, body_of, is_truthy, fetch, fetch_round, fetch_with_retry}

abbrev pub at : World → ℕ → World
at w n = record w { clock = n }

-- An error, or another status than 200, is undefined.
abbrev pub answer_of : Result HttpReply → Option String
answer_of (ok reply) = body_of reply
answer_of (err e) = none

module _ (env : Env) (txid : String) where
  -- What one attempt gives at a moment.
  abbrev pub answer : ℕ → Option String
  answer t = answer_of (env.get_hex t txid)

  fetch_ok :
      (w : World) (reply : HttpReply)
      → env.get_hex w.clock txid ≡ ok reply
      → fetch env txid w ≡ (ok (body_of reply), at w (w.clock + 1))
  unfolding fetch
  fetch_ok w reply e =
      >>=-ok (ask (λ t. env.get_hex t txid)) w (λ r. pure (body_of r))
        (λ i. (e i, at w (w.clock + 1)))

  fetch_err :
      (w : World) (x : Error)
      → env.get_hex w.clock txid ≡ err x
      → fetch env txid w ≡ (err x, at w (w.clock + 1))
  unfolding fetch
  fetch_err w x e =
      >>=-err (ask (λ t. env.get_hex t txid)) w (λ r. pure (body_of r))
        (λ i. (e i, at w (w.clock + 1)))

  fetch_round_eq :
      (txhex : Option String) (w : World) (x : Result (Option String) × World)
      → fetch env txid w ≡ x
      → fetch_round env txid txhex w ≡ elim x.0 [ ok hex ↦ (hex, x.1) | err e ↦ (txhex, x.1) ]
  unfolding fetch_round
  fetch_round_eq txhex w x e =
      ap
        (λ (y : Result (Option String) × World). elim y.0 as (λ _. Option String × World) [
          | ok hex ↦ (hex, y.1)
          | err h ↦ (txhex, y.1)
        ])
        e

  -- The round's value is the answer, or it is falsy as the answer is.
  fetch_round_lem :
      (txhex : Option String) (w : World)
      → is_truthy txhex ≡ false
      → ((fetch_round env txid txhex w).1 ≡ at w (w.clock + 1))
        × (is_truthy (fetch_round env txid txhex w).0 ≡ is_truthy (answer w.clock))
        × (is_truthy (answer w.clock) ≡ true → (fetch_round env txid txhex w).0 ≡ answer w.clock)
  fetch_round_lem txhex w h = elim (Result-cases (env.get_hex w.clock txid)) [
    | inl (reply, e) ↦
        rw (fetch_round_eq txhex w _ (fetch_ok w reply e))
          (refl, ap (λ r. is_truthy (answer_of r)) (sym e), λ _. ap answer_of (sym e))
    | inr (x, e) ↦ rw (fetch_round_eq txhex w _ (fetch_err w x e)) (
      refl,
      h ∙ ap (λ r. is_truthy (answer_of r)) (sym e),
      λ t. absurd (false≢true (ap (λ r. is_truthy (answer_of r)) (sym e) ∙ t)),
    )
  ]

  retry_step :
      (fuel : ℕ) (max : Option ℕ) (txhex : Option String) (w : World)
      → is_truthy txhex ≡ false
      → is_truthy (answer w.clock) ≡ false
      → (hex : Option String) × (is_truthy hex ≡ false)
        × (fetch_with_retry env (suc fuel) txid max txhex w
            ≡ fetch_with_retry env fuel txid max hex (at w (w.clock + 1)))
  unfolding fetch_with_retry
  retry_step fuel max txhex w h failed =
      let (moved, falsy, _) = fetch_round_lem txhex w h in
      ((fetch_round env txid txhex w).0, falsy ∙ failed, rw (falsy ∙ failed, moved))

  retry_done :
      (fuel : ℕ) (max : Option ℕ) (txhex : Option String) (w : World)
      → is_truthy txhex ≡ false
      → is_truthy (answer w.clock) ≡ true
      → fetch_with_retry env (suc fuel) txid max txhex w ≡ some (answer w.clock, at w (w.clock + 1))
  unfolding fetch_with_retry
  retry_done fuel max txhex w h done =
      let (moved, truthy, same) = fetch_round_lem txhex w h in rw (truthy ∙ done, moved, same done)

  -- If the first `k` attempts fail and the next one succeeds, the loop answers with that attempt's
  -- text after exactly `k + 1` questions, whatever `maxRetries` is: more than `maxRetries` or fewer.
  pub fetch_with_retry_first :
      (k fuel : ℕ) (max : Option ℕ) (txhex : Option String) (w : World)
      → is_truthy txhex ≡ false
      → k < fuel
      → ((i : ℕ) → i < k → is_truthy (answer (w.clock + i)) ≡ false)
      → is_truthy (answer (w.clock + k)) ≡ true
      → fetch_with_retry env fuel txid max txhex w
        ≡ some (answer (w.clock + k), at w (w.clock + k + 1))
  fetch_with_retry_first k zero max txhex w h lt fails done = absurd (omega arith)
  fetch_with_retry_first zero (suc fuel) max txhex w h lt fails done =
      let e : w.clock + 0 ≡ w.clock = add-zero w.clock in
      rw e (retry_done fuel max txhex w h (rw e at done))
  fetch_with_retry_first (suc k) (suc fuel) max txhex w h lt fails done =
      let e : w.clock + 0 ≡ w.clock = add-zero w.clock in
      let (hex, falsy, step) = retry_step fuel max txhex w h (rw e at (fails 0 (omega arith))) in
      let shift : (i : ℕ) → w.clock + 1 + i ≡ w.clock + suc i = λ i. omega arith in
      step
      ∙ fetch_with_retry_first k fuel max hex (at w (w.clock + 1)) falsy (omega arith)
          (λ i below. rw (shift i) (fails (suc i) (omega arith))) (rw (shift k) done)
      ∙ ap (λ n. some (answer n, at w (n + 1))) (shift k)

  -- While every attempt fails the loop goes on, whatever `maxRetries` is: no fuel is enough.
  pub fetch_with_retry_endless :
      (fuel : ℕ) (max : Option ℕ) (txhex : Option String) (w : World)
      → is_truthy txhex ≡ false
      → ((i : ℕ) → is_truthy (answer (w.clock + i)) ≡ false)
      → fetch_with_retry env fuel txid max txhex w ≡ none
  unfolding fetch_with_retry
  fetch_with_retry_endless zero max txhex w h fails = refl
  fetch_with_retry_endless (suc fuel) max txhex w h fails =
      let e : w.clock + 0 ≡ w.clock = add-zero w.clock in
      let (hex, falsy, step) = retry_step fuel max txhex w h (rw e at (fails 0)) in
      let shift : (i : ℕ) → w.clock + 1 + i ≡ w.clock + suc i = λ i. omega arith in
      step
      ∙ fetch_with_retry_endless fuel max hex (at w (w.clock + 1)) falsy
          (λ i. rw (shift i) (fails (suc i)))
