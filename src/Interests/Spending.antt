-- ===== src/Interests/Spending.antt =====
-- `getSpend` finds a transaction that spends the interest's output exactly if the history has one.
use boostpow_api.Base.{
  ℕ, suc, ◌+◌, String, true, false, Option, none, some, List, [], ◌∷◌, ◌≡◌, ◌≢◌, ◌⊎◌, refl, sym,
  ◌∙◌, ap, inl, inr, Bool-cases, Option-cases, str_eq, str_eq_iff, arith,
}
use mathlib.Core.Bool.{false≢true}
use native.Mathlib.Nat.{add-zero}
use boostpow_api.Base.Lists.{In, All, get_elem?, head?, cons_option}
use boostpow_api.Base.Action.{Error, Result, ok, err, Result-cases, ok≢err, err_injective}
use boostpow_api.Interests.{Vin, Spend, Env, spends, match_from, spend_in, spends_in, get_spend}

-- The input at an index, counted from `base`, spends the output, or none does.
match_from_lem :
    (txid : String) (vout : Option ℕ) (base : ℕ) (vins : List Vin)
    → ((i : ℕ) × (v : Vin) × (match_from txid vout base vins ≡ some (base + i))
        × (get_elem? vins i ≡ some v)
        × (spends txid vout v ≡ true))
      ⊎ ((match_from txid vout base vins ≡ none) × All (λ v. spends txid vout v ≡ false) vins)
unfolding match_from
match_from_lem txid vout base [] = inr (refl, tt)
match_from_lem txid vout base (v ∷ vs) = elim (Bool-cases (spends txid vout v)) [
  | inl e ↦ inl (0, v, rw e (ap some (sym (add-zero base))), refl, e)
  | inr e ↦ elim (match_from_lem txid vout (base + 1) vs) [
    | inl (i, x, found, there, hit) ↦
        let shift : base + 1 + i ≡ base + suc i = omega arith in
        inl (suc i, x, rw (e, found) (ap some shift), there, hit)
    | inr (missing, misses) ↦ inr (rw e missing, (e, misses))
  ]
]

module _ (env : Env) (txid : String) (vout : Option ℕ) where
  -- The transaction is another one, and one of its inputs, at the index, spends the output.
  abbrev pub IsSpend : Spend → Type 0
  IsSpend s =
      (s.txid ≢ txid)
      × ((vins : List Vin) × (v : Vin) × (env.inputs_of s.txid ≡ ok vins)
          × (get_elem? vins s.vin ≡ some v)
          × (spends txid vout v ≡ true))

  -- It is the transaction itself, or no input of it spends the output.
  abbrev pub IsNoSpend : String → Type 0
  IsNoSpend h =
      (h ≡ txid)
      ⊎ ((vins : List Vin) × (env.inputs_of h ≡ ok vins)
          × All (λ v. spends txid vout v ≡ false) vins)

  -- What a result says of one transaction.
  abbrev Tells : String → Result (Option Spend) → Type 0
  Tells h (ok (some s)) = (s.txid ≡ h) × IsSpend s
  Tells h (ok none) = IsNoSpend h
  Tells h (err e) = Unit

  spend_in-Tells : (h : String) → Tells h (spend_in env txid vout h)
  unfolding spend_in
  spend_in-Tells h = elim (Bool-cases (str_eq h txid)) [
    | inl e ↦ rw e (inl ((str_eq_iff h txid).0 e))
    | inr e ↦ rw e (elim (Result-cases (env.inputs_of h)) [
      | inr (x, failed) ↦ rw failed tt
      | inl (vins, got) ↦ rw got (elim (match_from_lem txid vout 0 vins) [
        | inr (missing, misses) ↦ rw missing (inr (vins, got, misses))
        | inl (i, v, found, there, hit) ↦
            let at_i : 0 + i ≡ i = omega arith in
            rw (found, at_i)
              (
                refl,
                (
                  λ same. false≢true (sym e ∙ (str_eq_iff h txid).1 same),
                  (vins, v, got, there, hit),
                ),
              )
      ])
    ])
  ]

  -- A spend in the history, or none in it.
  abbrev pub Answers : List String → Option Spend → Type 0
  Answers hs (some s) = In s.txid hs × IsSpend s
  Answers hs none = All IsNoSpend hs

  abbrev AnswersHead : List String → Result (List Spend) → Type 0
  AnswersHead hs (ok found) = Answers hs (head? found)
  AnswersHead hs (err e) = Unit

  combine :
      (h : String) (hs : List String) (o : Option Spend) (later : List Spend)
      → Tells h (ok o)
      → Answers hs (head? later)
      → Answers (h ∷ hs) (head? (cons_option o later))
  combine h hs (some s) later (same, is) k = (inl same, is)
  combine h hs none [] t k = (t, k)
  combine h hs none (s ∷ ss) t k = (inr k.0, k.1)

  spends_in-Answers : (hs : List String) → AnswersHead hs (spends_in env txid vout hs)
  unfolding spends_in
  spends_in-Answers [] = tt
  spends_in-Answers (h ∷ hs) = elim (Result-cases (spend_in env txid vout h)) [
    | inr (x, failed) ↦ rw (failed, spends_in) tt
    | inl (o, e) ↦ elim (Result-cases (spends_in env txid vout hs)) [
      | inr (x, failed) ↦ rw (e, spends_in, failed) tt
      | inl (later, k) ↦
          rw (e, spends_in, k)
            (combine h hs o later (rw e at (spend_in-Tells h)) (rw k at (spends_in-Answers hs)))
    ]
  ]

  -- The network rejects the question for a transaction of the list.
  abbrev pub HasFailed : List String → Error → Type 0
  HasFailed hs x = (h : String) × In h hs × (env.inputs_of h ≡ err x)

  spend_in-HasFailed :
      (h : String) (x : Error) → spend_in env txid vout h ≡ err x → env.inputs_of h ≡ err x
  unfolding spend_in
  spend_in-HasFailed h x e = elim (Bool-cases (str_eq h txid)) [
    | inl t ↦ absurd (ok≢err (rw (t, spend_in) at e))
    | inr f ↦ elim (Result-cases (env.inputs_of h)) [
      | inr (y, failed) ↦ failed ∙ ap err (err_injective (rw (f, spend_in, failed) at e))
      | inl (vins, got) ↦ elim (Option-cases (match_from txid vout 0 vins)) [
        | inl missing ↦ absurd (ok≢err (rw (f, spend_in, got, missing) at e))
        | inr (i, found) ↦ absurd (ok≢err (rw (f, spend_in, got, found) at e))
      ]
    ]
  ]

  spends_in-HasFailed :
      (hs : List String) (x : Error) → spends_in env txid vout hs ≡ err x → HasFailed hs x
  unfolding spends_in
  spends_in-HasFailed [] x e = absurd (ok≢err e)
  spends_in-HasFailed (h ∷ hs) x e = elim (Result-cases (spend_in env txid vout h)) [
    | inr (y, failed) ↦ (
      h,
      inl refl,
      spend_in-HasFailed h x (failed ∙ ap err (err_injective (rw (failed, spends_in) at e))),
    )
    | inl (o, k) ↦ elim (Result-cases (spends_in env txid vout hs)) [
      | inl (found, j) ↦ absurd (ok≢err (rw (k, spends_in, j) at e))
      | inr (y, failed) ↦
          let (g, here, why) =
            spends_in-HasFailed hs x
              (failed ∙ ap err (err_injective (rw (k, spends_in, failed) at e))) in
          (g, inr here, why)
    ]
  ]

  -- `getSpend` answers, unless the network rejects the question for the script's history or for a
  -- transaction of it, with that error. An answer that is a spend names a transaction of the history,
  -- other than the interest's own, and an input of it that spends the interest's output; null is
  -- answered only if no other transaction of the history spends it.
  pub get_spend_lem :
      (script_hash : String)
      → ((e : Error) × (get_spend env script_hash txid vout ≡ err e)
          × (env.history script_hash ≡ err e))
        ⊎ ((history : List String) × (env.history script_hash ≡ ok history)
            × (((e : Error) × (get_spend env script_hash txid vout ≡ err e) × HasFailed history e)
                ⊎ ((answer : Option Spend) × (get_spend env script_hash txid vout ≡ ok answer)
                    × Answers history answer)))
  unfolding get_spend
  get_spend_lem script_hash = elim (Result-cases (env.history script_hash)) [
    | inr (x, failed) ↦ inl (x, rw (failed, get_spend), failed)
    | inl (hs, got) ↦ inr (
      hs,
      got,
      elim (Result-cases (spends_in env txid vout hs)) [
        | inr (x, failed) ↦ inl (x, rw (got, get_spend, failed), spends_in-HasFailed hs x failed)
        | inl (found, k) ↦ inr (head? found, rw (got, get_spend, k), rw k at (spends_in-Answers hs))
      ],
    )
  ]
