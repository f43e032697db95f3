-- ===== src/Interests/Imports/Detected.antt =====
-- The outputs that are found to be interests.
use boostpow_api.Base.{ℕ, zero, suc, ◌+◌, ◌<◌, some, List, [], ◌∷◌, ◌≡◌, refl, inl, inr, arith}
use boostpow_api.Base.Lists.{In, get_elem?, length}
use boostpow_api.Base.Action.{ok, Result-cases}
use boostpow_api.Interests.{Env}
use boostpow_api.Interests.Imports.{
  Output, Transaction, PersonalInterest, DetectedInterest, Calls, detected, detect_from,
  detect_interests,
}

module _ (env : Env) (calls : Calls) (tx : Transaction) where
  -- What is found at an output, counted from an index.
  record IsFrom (i : ℕ) (outputs : List Output) (d : DetectedInterest) : Type 0 where
    position : ℕ
    output : Output
    interest : PersonalInterest
    there : get_elem? outputs position ≡ some output
    accepted : calls.from_tx tx (i + position) ≡ ok interest
    found : d ≡ detected env calls tx (i + position) output interest

  shift :
      (i : ℕ) (output : Output) (outputs : List Output) (d : DetectedInterest)
      → IsFrom (i + 1) outputs d
      → IsFrom i (output ∷ outputs) d
  shift i output outputs d h =
      let k : i + suc h.position ≡ i + 1 + h.position = omega arith in
      record {
        position = suc h.position;
        output = h.output;
        interest = h.interest;
        there = h.there;
        accepted = rw k h.accepted;
        found = rw k h.found;
      }

  detect_from_sound :
      (i : ℕ) (outputs : List Output) (d : DetectedInterest)
      → In d (detect_from env calls tx i outputs)
      → IsFrom i outputs d
  unfolding detect_from
  detect_from_sound i [] d h = elim h [ ]
  detect_from_sound i (output ∷ outputs) d h = elim (Result-cases (calls.from_tx tx i)) [
    | inr (x, e) ↦
        shift i output outputs d (detect_from_sound (i + 1) outputs d (rw (e, detect_from) at h))
    | inl (interest, e) ↦ elim (rw (e, detect_from) at h) [
      | inr r ↦ shift i output outputs d (detect_from_sound (i + 1) outputs d r)
      | inl f ↦
          let k : i + 0 ≡ i = omega arith in
          record {
            position = 0;
            output = output;
            interest = interest;
            there = refl;
            accepted = rw k e;
            found = rw k f;
          }
    ]
  ]

  detect_from_complete :
      (i j : ℕ) (outputs : List Output) {output : Output} {interest : PersonalInterest}
      → get_elem? outputs j ≡ some output
      → calls.from_tx tx (i + j) ≡ ok interest
      → In (detected env calls tx (i + j) output interest) (detect_from env calls tx i outputs)
  unfolding detect_from
  detect_from_complete i j [] h e = cc
  detect_from_complete i zero (o ∷ outputs) {output} {interest} h e =
      let k : i + 0 ≡ i = omega arith in
      let same : o ≡ output = cc in rw (k, rw k at e, same, detect_from) (inl refl)
  detect_from_complete i (suc j) (o ∷ outputs) {output} {interest} h e =
      let k : i + suc j ≡ i + 1 + j = omega arith in
      let rest = detect_from_complete (i + 1) j outputs h (rw k at e) in
      elim (Result-cases (calls.from_tx tx i)) [
        | inr (x, f) ↦ rw (k, f, detect_from) rest
        | inl (other, f) ↦ rw (k, f, detect_from) (inr rest)
      ]

  get_elem?-lt :
      (outputs : List Output) (j : ℕ) {output : Output}
      → get_elem? outputs j ≡ some output
      → j < length outputs
  get_elem?-lt [] j h = cc
  get_elem?-lt (o ∷ os) zero h = omega arith
  get_elem?-lt (o ∷ os) (suc j) h = (let l = get_elem?-lt os j h in omega arith)

  -- The index of an interest that is found is one of an output of the transaction, which the contract
  -- accepts as this interest; the script is that output's, the script hash is computed from it, and
  -- the transaction's id is the transaction's hash. And for every output that the contract accepts its
  -- interest is found, with the index.
  pub detect_interests_lem :
      ((d : DetectedInterest)
        → In d (detect_interests env calls tx)
        → (d.vout < length tx.outputs)
          × (calls.from_tx tx d.vout ≡ ok d.interest)
          × ((output : Output) × (get_elem? tx.outputs d.vout ≡ some output)
              × (d.script ≡ output.script)
              × (d.script_hash ≡ calls.script_hash output.script)
              × (d.txid ≡ tx.hash)))
      × ((i : ℕ) (output : Output) (interest : PersonalInterest)
          → get_elem? tx.outputs i ≡ some output
          → calls.from_tx tx i ≡ ok interest
          → (d : DetectedInterest) × In d (detect_interests env calls tx)
            × (d.vout ≡ i)
            × (d.interest ≡ interest))
  unfolding detect_interests detected
  detect_interests_lem = (
    λ d h.
        let r = detect_from_sound 0 tx.outputs d h in
        let k : 0 + r.position ≡ r.position = omega arith in
        let found = rw k at r.found in
        let accepted = rw k at r.accepted in
        rw found (
          get_elem?-lt tx.outputs r.position r.there,
          accepted,
          (r.output, r.there, refl, refl, refl),
        ),
    λ i output interest h e.
        let k : 0 + i ≡ i = omega arith in
        let e' : calls.from_tx tx (0 + i) ≡ ok interest = rw k e in
        (
          detected env calls tx i output interest,
          rw k at (detect_from_complete 0 i tx.outputs h e'),
          refl,
          refl,
        ),
  )
