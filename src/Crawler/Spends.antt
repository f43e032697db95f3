-- ===== src/Crawler/Spends.antt =====
-- What the search for a spend answers.
use boostpow_api.Base.{
  ℕ, String, Bool, true, false, Option, none, some, List, [], ◌∷◌, map, ◌≡◌, ◌⊎◌, refl, ap, inl,
  inr, nat_eq_iff, str_eq, str_eq_iff, Bool-cases, Option-cases, if◌then◌else◌, arith,
}
use boostpow_api.Base.Lists.{All, In, In-filter, filter, head?}
use boostpow_api.Base.Action.{Result}
use boostpow_api.Crawler.{
  Script, Input, BitbusMessage, Reply, streamed, new_crawler, Spending, spends, spending_of,
  get_spending_transaction,
}
use boostpow_api.Crawler.Batches.{IsReadable, run-results}

-- The transaction has an input that spends the output, and the answer names both.
pub record IsSpending (output : Script) (m : BitbusMessage) (r : Spending) : Type 0 where
  pub input : Input
  pub there : In input m.inputs
  pub hash : input.e.hash ≡ output.hash
  pub index : input.e.index ≡ output.index
  pub answer : r ≡ record { input = record { hash = m.tx; index = input.i }; output = output }

head?-In : (xs : List Input) {x : Input} → head? xs ≡ some x → In x xs
head?-In [] h = cc
head?-In (y ∷ ys) h = inl (ground arith)

filter-none :
    (p : Input → Bool) (xs : List Input) → head? (filter p xs) ≡ none → All (λ x. p x ≡ false) xs
filter-none p [] h = tt
filter-none p (x ∷ xs) h = elim (Bool-cases (p x)) [
  | inl e ↦ (let k = rw (e, if◌then◌else◌) at h in cc)
  | inr e ↦ (e, filter-none p xs (rw (e, if◌then◌else◌) at h))
]

spends_iff :
    (output : Script) (input : Input)
    → spends output input ≡ true
    → (input.e.hash ≡ output.hash) × (input.e.index ≡ output.index)
spends_iff output input h = elim (Bool-cases (str_eq input.e.hash output.hash)) [
  | inl e ↦ (
    (str_eq_iff input.e.hash output.hash).0 e,
    (nat_eq_iff input.e.index output.index).0 (rw e at h),
  )
  | inr e ↦ cc
]

spending_of-IsSpending :
    (output : Script) (m : BitbusMessage) (r : Spending)
    → spending_of output m ≡ some r
    → IsSpending output m r
unfolding spending_of
spending_of-IsSpending output m r e =
    elim (Option-cases (head? (filter (spends output) m.inputs))) [
      | inl k ↦ (let h = rw (k, spending_of) at e in cc)
      | inr (input, k) ↦
          let (there, h) =
            In-filter (spends output) input m.inputs
              (head?-In (filter (spends output) m.inputs) k) in
          let (hash, index) = spends_iff output input h in
          let h' = rw (k, spending_of) at e in
          record { input = input; there = there; hash = hash; index = index; answer = ground arith }
    ]

spending_of-none :
    (output : Script) (m : BitbusMessage)
    → spending_of output m ≡ none
    → All (λ input. spends output input ≡ false) m.inputs
unfolding spending_of
spending_of-none output m e = elim (Option-cases (head? (filter (spends output) m.inputs))) [
  | inl k ↦ filter-none (spends output) m.inputs k
  | inr (input, k) ↦ (let h = rw (k, spending_of) at e in cc)
]

-- What an answer says of the first message, if there is one.
abbrev pub Answers : Script → Option BitbusMessage → Option Spending → Type 0
Answers output none answer = answer ≡ none
Answers output (some m) answer =
    ((r : Spending) × (answer ≡ some r) × IsSpending output m r)
    ⊎ ((answer ≡ none) × All (λ input. spends output input ≡ false) m.inputs)

-- `result[0]`
abbrev first : List (Option Spending) → Option Spending
first rs = elim (head? rs) [ none ↦ none | some r ↦ r ]

first-Answers :
    (output : Script) (ms : List BitbusMessage)
    → Answers output (head? ms) (first (map (spending_of output) ms))
first-Answers output [] = refl
first-Answers output (m ∷ ms) = elim (Option-cases (spending_of output m)) [
  | inl e ↦ inr (e, spending_of-none output m e)
  | inr (r, e) ↦ inl (r, e, spending_of-IsSpending output m r e)
]

module _ (parse : String → Result BitbusMessage) (print : BitbusMessage → String) where
  get-first :
      (service : ℕ → Reply) (output : Script) (ms : List BitbusMessage)
      → All (IsReadable parse print) ms
      → service 0 ≡ streamed (map print ms) true
      → get_spending_transaction parse service output ≡ some (first (map (spending_of output) ms))
  unfolding get_spending_transaction
  get-first service output ms reads e =
      ap
        (λ (x : Option (List (Option Spending))). elim x as (λ _. Option (Option Spending)) [
          | none ↦ none
          | some rs ↦ some (first rs)
        ])
        (run-results parse print (spending_of output) service ms
          (record { crawler = new_crawler none (some 0); signals = [] }) reads e)

  -- If the service answers with messages that can be read, then the search for the spend of an output
  -- is settled, and by the first message alone: by the transaction and the index of an input of it
  -- that spends the output, or by null if none of its inputs does, whatever the other messages are.
  pub get_spending_transaction_lem :
      (service : ℕ → Reply) (output : Script) (ms : List BitbusMessage)
      → All (IsReadable parse print) ms
      → service 0 ≡ streamed (map print ms) true
      → (answer : Option Spending) × (get_spending_transaction parse service output ≡ some answer)
        × Answers output (head? ms) answer
  get_spending_transaction_lem service output ms reads e = (
    first (map (spending_of output) ms),
    get-first service output ms reads e,
    first-Answers output ms,
  )
