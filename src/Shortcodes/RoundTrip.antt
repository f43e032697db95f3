-- ===== src/Shortcodes/RoundTrip.antt =====
-- A code is found again.
use boostpow_api.Base.{
  String, Bool, true, false, Option, none, some, List, [], ◌∷◌, ◌++◌, ◌≡◌, refl, sym, ◌∙◌, ap, inl,
  inr, Option-cases, str_eq, str_eq_iff, str_eq_refl,
}
use boostpow_api.Base.Lists.{All, In, All-In, In-append, In-append_right}
use boostpow_api.Base.Action.{Result, ok}
use boostpow_api.Boost.Network.{IsLookup}
use boostpow_api.Shortcodes.{ScriptShortcode, has_script, has_uid, find_or_create, find}

-- No two rows have a code.
abbrev pub HasCodes : List ScriptShortcode → Type 0
HasCodes rows = (a b : ScriptShortcode) → In a rows → In b rows → a.uid ≡ b.uid → a ≡ b

module _ (find_one : (ScriptShortcode → Bool) → List ScriptShortcode → Option ScriptShortcode)
    (lookup : IsLookup find_one) where
  find-In :
      (rows : List ScriptShortcode) (row : ScriptShortcode)
      → HasCodes rows
      → In row rows
      → find find_one row.uid rows ≡ ok row
  unfolding find
  find-In rows row codes there = elim (Option-cases (find_one (has_uid row.uid) rows)) [
    | inl e ↦
        let absent : has_uid row.uid row ≡ false =
          All-In (λ r. has_uid row.uid r ≡ false) row rows (lookup.missed (has_uid row.uid) rows e)
            there in
        let same = str_eq_refl row.uid in cc
    | inr (r, e) ↦
        let (there', uid) = lookup.found (has_uid row.uid) rows e in
        let same = codes r row there' there ((str_eq_iff r.uid row.uid).0 uid) in
        rw (e, find, same) refl
  ]

  -- No row has the code.
  abbrev pub IsFresh : String → List ScriptShortcode → Type 0
  IsFresh uid rows = All (λ r. str_eq r.uid uid ≡ false) rows

  fresh_differs :
      (rows : List ScriptShortcode) (uid : String) (r : ScriptShortcode)
      → IsFresh uid rows
      → In r rows
      → r.uid ≡ uid
      → ⊥
  fresh_differs rows uid r fresh there e =
      let differs : str_eq r.uid uid ≡ false =
        All-In (λ x. str_eq x.uid uid ≡ false) r rows fresh there in
      let equal = (str_eq_iff r.uid uid).1 e in cc

  HasCodes-last :
      (rows : List ScriptShortcode) (row : ScriptShortcode)
      → HasCodes rows
      → IsFresh row.uid rows
      → HasCodes (rows ++ row ∷ [])
  HasCodes-last rows row codes fresh a b l r e = elim (In-append a rows (row ∷ []) l) [
    | inl la ↦ elim (In-append b rows (row ∷ []) r) [
      | inl lb ↦ codes a b la lb e
      | inr (inl same) ↦
          elim (fresh_differs rows row.uid a fresh la
            (e ∙ ap (λ (x : ScriptShortcode). x.uid) same)) [ ]
      | inr (inr x) ↦ elim x [ ]
    ]
    | inr (inl same) ↦ elim (In-append b rows (row ∷ []) r) [
      | inl lb ↦
          elim (fresh_differs rows row.uid b fresh lb
            (sym e ∙ ap (λ (x : ScriptShortcode). x.uid) same)) [ ]
      | inr (inl same') ↦ same ∙ sym same'
      | inr (inr x) ↦ elim x [ ]
    ]
    | inr (inr x) ↦ elim x [ ]
  ]

  -- Where a row of the script is chosen, the call answers with it and keeps the table.
  find_or_create_known :
      (from_hex : String → Result (Unit {0})) (uid script : String) (rows : List ScriptShortcode)
      {row : ScriptShortcode}
      → from_hex script ≡ ok tt
      → find_one (has_script script) rows ≡ some row
      → find_or_create find_one from_hex uid script rows ≡ (ok row, rows)
  unfolding find_or_create
  find_or_create_known from_hex uid script rows h e = simp (h, e, find_or_create) refl

  find_or_create_new :
      (from_hex : String → Result (Unit {0})) (uid script : String) (rows : List ScriptShortcode)
      → from_hex script ≡ ok tt
      → find_one (has_script script) rows ≡ none
      → let row : ScriptShortcode = record { script = script; uid = uid } in
        find_or_create find_one from_hex uid script rows ≡ (ok row, rows ++ row ∷ [])
  unfolding find_or_create
  find_or_create_new from_hex uid script rows h e = simp (h, e, find_or_create) refl

  chosen_last :
      (script uid : String) (rows : List ScriptShortcode)
      → find_one (has_script script) rows ≡ none
      → let row : ScriptShortcode = record { script = script; uid = uid } in
        find_one (has_script script) (rows ++ row ∷ []) ≡ some row
  chosen_last script uid rows e =
      let row : ScriptShortcode = record { script = script; uid = uid } in
      let absent = lookup.missed (has_script script) rows e in
      let equal : has_script script row ≡ true = str_eq_refl script in
      elim (Option-cases (find_one (has_script script) (rows ++ row ∷ []))) [
        | inl k ↦
            let missed = lookup.missed (has_script script) (rows ++ row ∷ []) k in
            let differs : has_script script row ≡ false =
              All-In (λ r. has_script script r ≡ false) row (rows ++ row ∷ []) missed
                (In-append_right row rows (row ∷ []) (inl refl)) in
            cc
        | inr (r, k) ↦
            let (there, h) = lookup.found (has_script script) (rows ++ row ∷ []) k in
            elim (In-append r rows (row ∷ []) there) [
              | inl l ↦
                  (let differs : has_script script r ≡ false =
                      All-In (λ x. has_script script x ≡ false) r rows absent l in
                    cc)
              | inr (inl same) ↦ k ∙ ap some same
              | inr (inr x) ↦ elim x [ ]
            ]
      ]

  -- If the script can be parsed, no two rows have one code and no row has the new one, then
  -- findOrCreate answers with a record of the script, the table has no code twice afterwards, `find`
  -- answers with that record for its code, and a further findOrCreate of the script answers with it
  -- and keeps the table, whatever code it draws. `findOne` is taken to answer with a row that meets
  -- the condition, and with null only where none does.
  pub find-find_or_create :
      (from_hex : String → Result (Unit {0})) (uid script : String) (rows : List ScriptShortcode)
      → from_hex script ≡ ok tt
      → HasCodes rows
      → IsFresh uid rows
      → let (answer, rows') = find_or_create find_one from_hex uid script rows in
        (row : ScriptShortcode) × (answer ≡ ok row)
        × (row.script ≡ script)
        × HasCodes rows'
        × (find find_one row.uid rows' ≡ ok row)
        × ((other : String) → find_or_create find_one from_hex other script rows' ≡ (ok row, rows'))
  find-find_or_create from_hex uid script rows h codes fresh =
      elim (Option-cases (find_one (has_script script) rows)) [
        | inr (row, e) ↦
            let (there, equal) = lookup.found (has_script script) rows e in
            rw (find_or_create_known from_hex uid script rows h e) (
              row,
              refl,
              (str_eq_iff row.script script).0 equal,
              codes,
              find-In rows row codes there,
              λ other. find_or_create_known from_hex other script rows h e,
            )
        | inl e ↦
            let row : ScriptShortcode = record { script = script; uid = uid } in
            let codes' = HasCodes-last rows row codes fresh in
            rw (find_or_create_new from_hex uid script rows h e) (
              row,
              refl,
              refl,
              codes',
              find-In (rows ++ row ∷ []) row codes'
                  (In-append_right row rows (row ∷ []) (inl refl)),
              λ other.
                  find_or_create_known from_hex other script (rows ++ row ∷ []) h
                    (chosen_last script uid rows e),
            )
      ]
