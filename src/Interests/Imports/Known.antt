-- ===== src/Interests/Imports/Known.antt =====
-- An import of a location that has rows already.
use boostpow_api.Base.{
  ℕ, ◌+◌, String, true, Option, none, some, List, [], ◌∷◌, ◌++◌, ◌≡◌, ◌⊎◌, refl, sym, ap, inl, inr,
  Option-cases, Bool-cases, if◌then◌else◌,
}
use boostpow_api.Base.Lists.{All, filter, get_elem?}
use boostpow_api.Base.Action.{Error, Result, ok, err, Result-cases, map_result}
use boostpow_api.Interests.{Interest, Env, World, is_given, first_part, at_location}
use boostpow_api.Interests.Imports.{
  Output, Transaction, detected, detect_from, DetectedInterest, Calls, detect_interests,
  detect_interests_from_tx_hex, row_of, store, create_all, import_new, complete, rescan, rescan_all,
  find_or_import_personal_interests,
}

module _ (env : Env) (calls : Calls) where
  complete_lem :
      (row : Interest) (ds : List DetectedInterest) (w : World)
      → complete env calls row ds w ≡ (row, w)
  unfolding complete
  complete_lem row [] w = refl
  complete_lem row (d ∷ ds) w = complete_lem row ds w

  -- What an action answers that changes nothing: the rows, or an error.
  abbrev pub IsIdle : {A : Type 0} → A → World → Result A × World → Type 0
  IsIdle a w x = (x.1 ≡ w) × ((x.0 ≡ ok a) ⊎ ((e : Error) × (x.0 ≡ err e)))

  rescan-IsIdle : (row : Interest) (w : World) → IsIdle row w (rescan env calls row w)
  unfolding rescan
  rescan-IsIdle row w = elim (Bool-cases (is_given row.script_hash)) [
    | inl e ↦ rw (e, rescan) (refl, inl refl)
    | inr e ↦ elim (Result-cases (calls.fetch_transaction (first_part row.location))) [
      | inr (x, f) ↦ simp (e, f, rescan) (refl, inr (x, refl))
      | inl (tx_hex, f) ↦ elim (Result-cases (detect_interests_from_tx_hex env calls tx_hex)) [
        | inr (x, g) ↦ simp (e, f, g, rescan) (refl, inr (x, refl))
        | inl (ds, g) ↦ simp (e, f, g, rescan, complete_lem row ds w) (refl, inl refl)
      ]
    ]
  ]

  rescan_all-IsIdle :
      (rows : List Interest) (w : World) → IsIdle rows w (rescan_all env calls rows w)
  unfolding rescan_all
  rescan_all-IsIdle [] w = (refl, inl refl)
  rescan_all-IsIdle (row ∷ rows) w =
      let (same, result) = rescan-IsIdle row w in
      let (same', results) = rescan_all-IsIdle rows w in
      elim result [
        | inr (x, e) ↦ rw (e, rescan_all) (same, inr (x, refl))
        | inl e ↦ elim results [
          | inl e' ↦ simp (e, same, rescan_all) (same', inl (ap (map_result (λ rs. row ∷ rs)) e'))
          | inr (x, e') ↦
              simp (e, same, rescan_all) (same', inr (x, ap (map_result (λ rs. row ∷ rs)) e'))
        ]
      ]

  -- An import of a location that has rows changes nothing, not even a row without a script hash, and
  -- answers with these rows or with an error.
  pub find_or_import_known :
      (location : String) (w : World) (row : Interest) (rows : List Interest)
      → filter (at_location location) w.interests ≡ row ∷ rows
      → IsIdle (row ∷ rows) w (find_or_import_personal_interests env calls location w)
  unfolding find_or_import_personal_interests
  find_or_import_known location w row rows e =
      rw (e, find_or_import_personal_interests) (rescan_all-IsIdle (row ∷ rows) w)

  -- The rows of a location all have a script hash.
  abbrev AreHashed : List Interest → Type 0
  AreHashed rows = All (λ row. is_given row.script_hash ≡ true) rows

  rescan_all-AreHashed :
      (rows : List Interest) (w : World)
      → AreHashed rows
      → rescan_all env calls rows w ≡ (ok rows, w)
  unfolding rescan_all rescan
  rescan_all-AreHashed [] w h = refl
  rescan_all-AreHashed (row ∷ rows) w (h, hs) =
      let rest = rescan_all-AreHashed rows w hs in simp (h, rest, rescan_all, rescan) refl

  abbrev hash_in : Result Interest → Option String
  hash_in (ok row) = row.script_hash
  hash_in (err e) = none

  module _ (given : (script : String) → is_given (some (calls.script_hash script)) ≡ true)
      (location : String) where
    abbrev HasHashes : DetectedInterest → Type 0
    HasHashes d = is_given (some d.script_hash) ≡ true

    row_of_hash :
        (tx : Transaction) (d : DetectedInterest) (id : ℕ) {row : Interest}
        → row_of env calls location tx d id ≡ ok row
        → row.script_hash ≡ some d.script_hash
    unfolding row_of
    row_of_hash tx d id e = elim (Result-cases (calls.address d.interest.owner)) [
      | inr (x, f) ↦ (let k = rw (f, row_of) at e in cc)
      | inl (owner, f) ↦ elim (Option-cases (get_elem? tx.outputs d.interest.output_index)) [
        | inl g ↦ (let k = simp (f, g, row_of) at e in cc)
        | inr (output, g) ↦ (let k = simp (f, g, row_of) at e in sym (ap hash_in k))
      ]
    ]

    filter-AreHashed :
        (rows : List Interest) (row : Interest)
        → AreHashed (filter (at_location location) rows)
        → is_given row.script_hash ≡ true
        → AreHashed (filter (at_location location) (rows ++ row ∷ []))
    filter-AreHashed [] row h g = elim (Bool-cases (at_location location row)) [
      | inl t ↦ rw t (g, tt)
      | inr f ↦ rw f tt
    ]
    filter-AreHashed (r ∷ rows) row h g = elim (Bool-cases (at_location location r)) [
      | inl t ↦ (let k = rw (t, if◌then◌else◌) at h in rw t (k.0, filter-AreHashed rows row k.1 g))
      | inr f ↦ rw f (filter-AreHashed rows row (rw (f, if◌then◌else◌) at h) g)
    ]

    create_all-AreHashed :
        (tx : Transaction) (ds : List DetectedInterest) (w : World)
        → All HasHashes ds
        → AreHashed (filter (at_location location) w.interests)
        → AreHashed
            (filter (at_location location) (create_all env calls location tx ds w).1.interests)
    unfolding create_all store
    create_all-AreHashed tx [] w hs h = h
    create_all-AreHashed tx (d ∷ ds) w (g, gs) h =
        elim (Result-cases (row_of env calls location tx d w.next_id)) [
          | inr (x, e) ↦ rw (e, create_all) h
          | inl (row, e) ↦
              let hash = row_of_hash tx d w.next_id e in
              rw (e, create_all)
                (create_all-AreHashed tx ds (store env calls row w) gs
                  (filter-AreHashed w.interests row h (rw hash g)))
        ]

    detect_from-HasHashes :
        (tx : Transaction) (i : ℕ) (outputs : List Output)
        → All HasHashes (detect_from env calls tx i outputs)
    unfolding detect_from detected
    detect_from-HasHashes tx i [] = tt
    detect_from-HasHashes tx i (output ∷ outputs) = elim (Result-cases (calls.from_tx tx i)) [
      | inr (x, e) ↦ rw (e, detect_from) (detect_from-HasHashes tx (i + 1) outputs)
      | inl (interest, e) ↦
          rw (e, detect_from) (given output.script, detect_from-HasHashes tx (i + 1) outputs)
    ]

    import_new-AreHashed :
        (w : World)
        → AreHashed (filter (at_location location) w.interests)
        → AreHashed (filter (at_location location) (import_new env calls location w).1.interests)
    unfolding import_new detect_interests
    import_new-AreHashed w h = elim (Result-cases (calls.fetch_transaction (first_part location))) [
      | inr (x, e) ↦ rw (e, import_new) h
      | inl (tx_hex, e) ↦ elim (Result-cases (calls.transaction tx_hex)) [
        | inr (x, f) ↦ simp (e, f, import_new) h
        | inl (tx, f) ↦
            simp (e, f, import_new)
              (create_all-AreHashed tx (detect_interests env calls tx) w
                (detect_from-HasHashes tx 0 tx.outputs) h)
      ]
    ]

    import_none :
        (w : World)
        → filter (at_location location) w.interests ≡ []
        → find_or_import_personal_interests env calls location w ≡ import_new env calls location w
    unfolding find_or_import_personal_interests
    import_none w h =
        ap
          (λ rows. elim rows as (λ _. Result (List Interest) × World) [
            | [] ↦ import_new env calls location w
            | row ∷ rest ↦ rescan_all env calls (row ∷ rest) w
          ])
          h

    -- If no row has a location, no hash of a script is empty, and an import of the location leaves
    -- rows there, whether it ends or fails at a later interest, then another import of it answers
    -- with exactly these rows and changes nothing: what the first one made is not made twice, and
    -- what it failed to make is never made.
    pub find_or_import_again :
        (w : World) (row : Interest) (rows : List Interest)
        → filter (at_location location) w.interests ≡ []
        → let w' = (find_or_import_personal_interests env calls location w).1 in
          filter (at_location location) w'.interests ≡ row ∷ rows
          → find_or_import_personal_interests env calls location w' ≡ (ok (row ∷ rows), w')
    unfolding find_or_import_personal_interests
    find_or_import_again w row rows none_there e =
        let w' = (find_or_import_personal_interests env calls location w).1 in
        let hashed = import_new-AreHashed w (rw none_there tt) in
        let hashed' : AreHashed (filter (at_location location) w'.interests) =
          rw (import_none w none_there) hashed in
        rw (e, find_or_import_personal_interests)
          (rescan_all-AreHashed (row ∷ rows) w' (rw e at hashed'))
