-- ===== src/Ingest/Rows.antt =====
-- Rows of jobs: of which output they are, and that no output has two.
use boostpow_api.Base.{
  ℕ, String, true, false, List, [], ◌∷◌, ◌++◌, ◌≡◌, refl, sym, ◌∙◌, ap, inl, inr, str_eq_iff,
  str_eq_refl, nat_eq_iff, arith,
}
use boostpow_api.Base.Lists.{All, In, All-In, In-append}
use boostpow_api.Boost.Store.{JobRow, is_output}
use boostpow_api.Boost.Network.{Job}

-- The row is of the job's output.
abbrev pub IsRowOf : Job → JobRow → Type 0
IsRowOf job row = (row.txid ≡ job.txid) × (row.vout ≡ job.vout)

abbrev pub HasRow : List JobRow → Job → Type 0
HasRow rows job = (row : JobRow) × In row rows × IsRowOf job row

-- No output has two rows.
abbrev pub HasOutputs : List JobRow → Type 0
HasOutputs rows = (a b : JobRow) → In a rows → In b rows → a.txid ≡ b.txid → a.vout ≡ b.vout → a ≡ b

pub is_output_lem :
    (txid : String) (vout : ℕ) (row : JobRow)
    → is_output txid vout row ≡ true
    → (row.txid ≡ txid) × (row.vout ≡ vout)
unfolding is_output
is_output_lem txid vout row h =
    ((str_eq_iff row.txid txid).0 (ground arith), (nat_eq_iff row.vout vout).0 (ground arith))

is_output_self : (row : JobRow) → is_output row.txid row.vout row ≡ true
unfolding is_output
is_output_self row =
    (let e = str_eq_refl row.txid in
      let k = (nat_eq_iff row.vout row.vout).1 refl in rw (e, k) refl)

-- A row of a table that has none of its output is another.
absent_differs :
    (rows : List JobRow) (row r : JobRow)
    → All (λ x. is_output row.txid row.vout x ≡ false) rows
    → In r rows
    → r.txid ≡ row.txid
    → r.vout ≡ row.vout
    → ⊥
absent_differs rows row r absent there e k =
    let no : is_output row.txid row.vout r ≡ false =
      All-In (λ x. is_output row.txid row.vout x ≡ false) r rows absent there in
    let yes : is_output row.txid row.vout r ≡ true = rw (← e, ← k) (is_output_self r) in cc

pub HasOutputs-last :
    (rows : List JobRow) (row : JobRow)
    → HasOutputs rows
    → All (λ x. is_output row.txid row.vout x ≡ false) rows
    → HasOutputs (rows ++ row ∷ [])
HasOutputs-last rows row h absent a b la lb e k = elim (In-append a rows (row ∷ []) la) [
  | inl l ↦ elim (In-append b rows (row ∷ []) lb) [
    | inl r ↦ h a b l r e k
    | inr (inl same) ↦
        elim (absent_differs rows row a absent l (e ∙ ap (λ (x : JobRow). x.txid) same)
          (k ∙ ap (λ (x : JobRow). x.vout) same)) [ ]
    | inr (inr x) ↦ elim x [ ]
  ]
  | inr (inl same) ↦ elim (In-append b rows (row ∷ []) lb) [
    | inl r ↦
        elim (absent_differs rows row b absent r (sym e ∙ ap (λ (x : JobRow). x.txid) same)
          (sym k ∙ ap (λ (x : JobRow). x.vout) same)) [ ]
    | inr (inl same') ↦ same ∙ sym same'
    | inr (inr x) ↦ elim x [ ]
  ]
  | inr (inr x) ↦ elim x [ ]
]
