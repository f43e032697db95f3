-- ===== src/Importer/Jobs.antt =====
-- What the map of open jobs holds.
use boostpow_api.Base.{
  ℕ, String, Bool, true, false, not, List, [], ◌∷◌, ◌≡◌, ◌≢◌, ◌⊎◌, ◌↔◌, refl, sym, ◌∙◌, ap, inl,
  inr, str_eq, str_eq_iff, str_eq_refl, Bool-cases,
}
use mathlib.Core.Bool.{false≢true}
use boostpow_api.Base.Lists.{In, filter, In-filter, In-filter_of}
use boostpow_api.Boost.Store.{JobRow}
use boostpow_api.Importer.{
  JobsMap, value_at, key_of, add_job, get_job, remove_job, add_rows, load_from_database,
}

module _ (print : ℕ → String) where
  abbrev HasKey : String → List JobRow → Type 0
  HasKey key rows = (row : JobRow) × In row rows × (key_of print row.txid row.vout ≡ key)

  add_rows_holds :
      (rows : List JobRow) (jobs : JobsMap) (key : String)
      → value_at key (add_rows print rows jobs) ≡ true
      → HasKey key rows ⊎ (value_at key jobs ≡ true)
  unfolding add_rows add_job
  add_rows_holds [] jobs key h = inr h
  add_rows_holds (row ∷ rows) jobs key h =
      elim (add_rows_holds rows (add_job print row.txid row.vout jobs) key h) [
        | inl (r, here, same) ↦ inl (r, inr here, same)
        | inr k ↦ elim (Bool-cases (str_eq (key_of print row.txid row.vout) key)) [
          | inl e ↦ inl (row, inl refl, (str_eq_iff (key_of print row.txid row.vout) key).0 e)
          | inr e ↦ inr (rw e at k)
        ]
      ]

  add_rows_keeps :
      (rows : List JobRow) (jobs : JobsMap) (key : String)
      → value_at key jobs ≡ true
      → value_at key (add_rows print rows jobs) ≡ true
  unfolding add_rows add_job
  add_rows_keeps [] jobs key h = h
  add_rows_keeps (row ∷ rows) jobs key h =
      add_rows_keeps rows (add_job print row.txid row.vout jobs) key
        (elim (Bool-cases (str_eq (key_of print row.txid row.vout) key)) [
          | inl e ↦ rw e
          | inr e ↦ rw e h
        ])

  add_rows_adds :
      (rows : List JobRow) (jobs : JobsMap) (row : JobRow)
      → In row rows
      → value_at (key_of print row.txid row.vout) (add_rows print rows jobs) ≡ true
  unfolding add_rows add_job
  add_rows_adds (r ∷ rows) jobs row (inl e) =
      add_rows_keeps rows (add_job print r.txid r.vout jobs) (key_of print row.txid row.vout)
        (rw (e, str_eq_refl (key_of print r.txid r.vout)))
  add_rows_adds (r ∷ rows) jobs row (inr h) =
      add_rows_adds rows (add_job print r.txid r.vout jobs) row h
  add_rows_adds [] jobs row h = elim h [ ]

  -- After the load a job is in the map exactly if the table has a row with its key that is not spent.
  pub get_job-load_from_database :
      (table : List JobRow) (txid : String) (index : ℕ)
      → (get_job print txid index (load_from_database print table) ≡ true) ↔ (
          (row : JobRow) × In row table
          × (row.spent ≡ false)
          × (key_of print row.txid row.vout ≡ key_of print txid index))
  unfolding get_job load_from_database
  get_job-load_from_database table txid index = (
    λ h.
        elim (add_rows_holds (filter (λ row. not row.spent) table) [] (key_of print txid index) h) [
          | inl (row, here, same) ↦
              let (there, open_row) = In-filter (λ x. not x.spent) row table here in
              (row, there, not_true row.spent open_row, same)
          | inr k ↦ absurd (false≢true k)
        ],
    λ (row, here, unspent, same).
        sym (ap (λ k. value_at k (add_rows print (filter (λ x. not x.spent) table) [])) same)
        ∙ add_rows_adds (filter (λ x. not x.spent) table) [] row
            (In-filter_of (λ x. not x.spent) row table here (ap not unspent)),
  )
    where
      not_true : (b : Bool) → not b ≡ true → b ≡ false
      not_true true h = absurd (false≢true h)
      not_true false h = refl

  -- A job that is removed is not in the map, and every job with another key is as before.
  pub get_job-remove_job :
      (jobs : JobsMap) (txid other : String) (index place : ℕ)
      → key_of print other place ≢ key_of print txid index
      → (get_job print txid index (remove_job print txid index jobs) ≡ false)
        × (get_job print other place (remove_job print txid index jobs)
            ≡ get_job print other place jobs)
  unfolding get_job remove_job
  get_job-remove_job jobs txid other index place ne = (
    rw (str_eq_refl (key_of print txid index)),
    elim (Bool-cases (str_eq (key_of print txid index) (key_of print other place))) [
      | inl e ↦
          absurd (ne (sym ((str_eq_iff (key_of print txid index) (key_of print other place)).0 e)))
      | inr e ↦ rw e
    ],
  )
