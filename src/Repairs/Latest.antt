-- ===== src/Repairs/Latest.antt =====
-- Which transaction the script takes for the spend of a job.
use boostpow_api.Base.{
  ℕ, suc, ◌+◌, String, false, Option, none, some, List, [], ◌∷◌, ◌++◌, ◌≡◌, ◌⊎◌, refl, ap, inl, inr,
  Option-cases, Bool-cases, str_eq, str_eq_iff, arith,
}
use boostpow_api.Base.Lists.{All, length}
use boostpow_api.Base.Action.{ok}
use boostpow_api.Repairs.{
  Transaction, SpendTransaction, Calls, input_from, search_history, hash_of_output,
  find_spend_transaction,
}

module _ (job_txid : String) where
  -- No input is from the job's transaction.
  abbrev pub AreOther : List String → Type 0
  AreOther inputs = All (λ input. str_eq input job_txid ≡ false) inputs

  -- The first input from the job's transaction is at the index.
  pub record IsFirst (inputs : List String) (vin : ℕ) : Type 0 where
    pub before : List String
    pub after : List String
    pub split : inputs ≡ before ++ job_txid ∷ after
    pub at : vin ≡ length before
    pub others : AreOther before

  input_from-none :
      (i : ℕ) (inputs : List String) → input_from job_txid i inputs ≡ none → AreOther inputs
  unfolding input_from
  input_from-none i [] e = tt
  input_from-none i (x ∷ xs) e = elim (Bool-cases (str_eq x job_txid)) [
    | inl t ↦ (let k = rw (t, input_from) at e in cc)
    | inr f ↦ (f, input_from-none (i + 1) xs (rw (f, input_from) at e))
  ]

  input_from-some :
      (i : ℕ) (inputs : List String) {vin : ℕ}
      → input_from job_txid i inputs ≡ some vin
      → (k : ℕ) × (vin ≡ i + k) × IsFirst inputs k
  unfolding input_from
  input_from-some i [] e = cc
  input_from-some i (x ∷ xs) {vin} e = elim (Bool-cases (str_eq x job_txid)) [
    | inl t ↦
        let k = rw (t, input_from) at e in
        let same = (str_eq_iff x job_txid).0 t in
        (
          0,
          ground arith,
          record { before = []; after = xs; split = ap (λ y. y ∷ xs) same; at = refl; others = tt },
        )
    | inr f ↦
        let (n, e', h) = input_from-some (i + 1) xs (rw (f, input_from) at e) in
        (
          suc n,
          omega arith,
          record {
            before = x ∷ h.before;
            after = h.after;
            split = ap (λ ys. x ∷ ys) h.split;
            at = ap suc h.at;
            others = (f, h.others);
          },
        )
  ]

module _ (calls : Calls) (job_txid : String) (job_vout : ℕ) where
  abbrev pub IsReadable : String → Type 0
  IsReadable tx_hash =
      (transaction : Transaction) × (calls.get_transaction tx_hash ≡ ok transaction)

  abbrev pub IsOther : String → Type 0
  IsOther tx_hash =
      (transaction : Transaction) × (calls.get_transaction tx_hash ≡ ok transaction)
      × AreOther job_txid transaction.inputs

  -- The last transaction of the history that has an input from the job's transaction, and the first
  -- such input.
  pub record IsLast (history : List String) (spend : SpendTransaction) : Type 0 where
    pub before : List String
    pub after : List String
    pub split : history ≡ before ++ spend.spend_txid ∷ after
    pub transaction : Transaction
    pub read : calls.get_transaction spend.spend_txid ≡ ok transaction
    pub first : IsFirst job_txid transaction.inputs spend.spend_vin
    pub others : All IsOther after
    pub job : (spend.job_txid ≡ job_txid) × (spend.job_vout ≡ job_vout)

  abbrev found_at : String → ℕ → SpendTransaction
  found_at tx_hash vin = record {
    job_txid = job_txid;
    job_vout = job_vout;
    spend_txid = tx_hash;
    spend_vin = vin;
  }

  IsLast-cons :
      (h : String) (hs : List String) (spend : SpendTransaction)
      → IsLast hs spend
      → IsLast (h ∷ hs) spend
  IsLast-cons h hs spend l = record {
    before = h ∷ l.before;
    after = l.after;
    split = ap (λ xs. h ∷ xs) l.split;
    transaction = l.transaction;
    read = l.read;
    first = l.first;
    others = l.others;
    job = l.job;
  }

  search_history_lem :
      (found : Option SpendTransaction) (history : List String)
      → All IsReadable history
      → ((search_history calls job_txid job_vout found history ≡ ok found) × All IsOther history)
        ⊎ ((spend : SpendTransaction) × (search_history calls job_txid job_vout found history
              ≡ ok (some spend))
            × IsLast history spend)
  unfolding search_history
  search_history_lem found [] h = inl (refl, tt)
  search_history_lem found (h ∷ hs) ((transaction, k), ks) =
      elim (Option-cases (input_from job_txid 0 transaction.inputs)) [
        | inl n ↦ elim (search_history_lem found hs ks) [
          | inl (e, others) ↦ inl (
            simp (k, n, search_history) e,
            ((transaction, k, input_from-none job_txid 0 transaction.inputs n), others),
          )
          | inr (spend, e, l) ↦ inr (spend, simp (k, n, search_history) e, IsLast-cons h hs spend l)
        ]
        | inr (vin, n) ↦ elim (search_history_lem (some (found_at h vin)) hs ks) [
          | inl (e, others) ↦
              let (index, at, first) = input_from-some job_txid 0 transaction.inputs n in
              let same : index ≡ vin = omega arith in
              inr (
                found_at h vin,
                simp (k, n, search_history) e,
                record {
                  before = [];
                  after = hs;
                  split = refl;
                  transaction = transaction;
                  read = k;
                  first = rw same at first;
                  others = others;
                  job = (refl, refl);
                },
              )
          | inr (spend, e, l) ↦ inr (spend, simp (k, n, search_history) e, IsLast-cons h hs spend l)
        ]
      ]

  -- If the script of the job's output can be read and so can the transactions of its history, then the
  -- search answers: with the last of them that has an input from the job's transaction, whichever
  -- output of it that input spends, and with the first such input of it; and with null if none has.
  pub find_spend_transaction_lem :
      (script_hash : String) (history : List String)
      → hash_of_output calls job_txid job_vout ≡ ok script_hash
      → calls.history script_hash ≡ ok history
      → All IsReadable history
      → ((find_spend_transaction calls job_txid job_vout ≡ ok none) × All IsOther history)
        ⊎ ((spend : SpendTransaction) × (find_spend_transaction calls job_txid job_vout
              ≡ ok (some spend))
            × IsLast history spend)
  unfolding find_spend_transaction
  find_spend_transaction_lem script_hash history e f h =
      simp (e, f, find_spend_transaction) (search_history_lem none history h)
