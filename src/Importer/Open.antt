-- ===== src/Importer/Open.antt =====
-- The map of open jobs after a load and any changes.
use boostpow_api.Base.{
  ℕ, String, Bool, true, false, List, [], ◌∷◌, ◌++◌, ◌≡◌, ◌⊎◌, ◌↔◌, refl, sym, ◌∙◌, ap, inl, inr,
  str_eq, str_eq_iff, Bool-cases, if◌then◌else◌,
}
use boostpow_api.Base.Lists.{In, All}
use boostpow_api.Boost.Store.{JobRow}
use boostpow_api.Importer.{
  JobsMap, value_at, key_of, add_job, get_job, remove_job, load_from_database,
}
use boostpow_api.Importer.Jobs.{get_job-load_from_database}

pub data Change : Type 0 where
  adds removes : String → ℕ → Change

module _ (print : ℕ → String) where
  abbrev pub key_in : Change → String
  key_in (adds txid index) = key_of print txid index
  key_in (removes txid index) = key_of print txid index

  abbrev pub is_add : Change → Bool
  is_add (adds txid index) = true
  is_add (removes txid index) = false

  unfoldable pub apply : Change → JobsMap → JobsMap
  unfolding add_job remove_job
  apply (adds txid index) jobs = add_job print txid index jobs
  apply (removes txid index) jobs = remove_job print txid index jobs

  unfoldable pub apply_all : List Change → JobsMap → JobsMap
  unfolding apply
  apply_all [] jobs = jobs
  apply_all (c ∷ cs) jobs = apply_all cs (apply c jobs)

  -- No change is of the key.
  abbrev pub Spare : String → List Change → Type 0
  Spare key cs = All (λ c. str_eq (key_in c) key ≡ false) cs

  -- The last change of the key adds it.
  pub record IsAdded (key : String) (cs : List Change) : Type 0 where
    pub before : List Change
    pub last : Change
    pub after : List Change
    pub split : cs ≡ before ++ last ∷ after
    pub added : is_add last ≡ true
    pub same : key_in last ≡ key
    pub spare : Spare key after

  IsAdded-cons :
      (key : String) (c : Change) (cs : List Change) → IsAdded key cs → IsAdded key (c ∷ cs)
  IsAdded-cons key c cs h = record {
    before = c ∷ h.before;
    last = h.last;
    after = h.after;
    split = ap (λ xs. c ∷ xs) h.split;
    added = h.added;
    same = h.same;
    spare = h.spare;
  }

  value_at-apply :
      (key : String) (c : Change) (jobs : JobsMap)
      → value_at key (apply c jobs)
        ≡ (if str_eq (key_in c) key then is_add c else value_at key jobs)
  unfolding apply add_job remove_job
  value_at-apply key (adds txid index) jobs = refl
  value_at-apply key (removes txid index) jobs = refl

  apply_all_sound :
      (key : String) (cs : List Change) (jobs : JobsMap)
      → value_at key (apply_all cs jobs) ≡ true
      → IsAdded key cs ⊎ (Spare key cs × (value_at key jobs ≡ true))
  unfolding apply_all
  apply_all_sound key [] jobs h = inr (tt, h)
  apply_all_sound key (c ∷ cs) jobs h = elim (apply_all_sound key cs (apply c jobs) h) [
    | inl added ↦ inl (IsAdded-cons key c cs added)
    | inr (spare, k) ↦ elim (Bool-cases (str_eq (key_in c) key)) [
      | inl t ↦ inl (record {
        before = [];
        last = c;
        after = cs;
        split = refl;
        added = (let v = value_at-apply key c jobs in rw (t, if◌then◌else◌) at (sym v ∙ k));
        same = (str_eq_iff (key_in c) key).0 t;
        spare = spare;
      })
      | inr f ↦ inr ((f, spare), rw (f, if◌then◌else◌) at (sym (value_at-apply key c jobs) ∙ k))
    ]
  ]

  apply_all-Spare :
      (key : String) (cs : List Change) (jobs : JobsMap)
      → Spare key cs
      → value_at key (apply_all cs jobs) ≡ value_at key jobs
  unfolding apply_all
  apply_all-Spare key [] jobs h = refl
  apply_all-Spare key (c ∷ cs) jobs (h, hs) =
      apply_all-Spare key cs (apply c jobs) hs ∙ value_at-apply key c jobs ∙ rw h refl

  apply_all-IsAdded :
      (key : String) (before : List Change) (last : Change) (after : List Change) (jobs : JobsMap)
      → is_add last ≡ true
      → str_eq (key_in last) key ≡ true
      → Spare key after
      → value_at key (apply_all (before ++ last ∷ after) jobs) ≡ true
  unfolding apply_all
  apply_all-IsAdded key [] last after jobs added same spare =
      apply_all-Spare key after (apply last jobs) spare
      ∙ value_at-apply key last jobs
      ∙ rw same added
  apply_all-IsAdded key (c ∷ before) last after jobs added same spare =
      apply_all-IsAdded key before last after (apply c jobs) added same spare

  -- After the load and any additions and removals, in their order, a job is in the map exactly if the
  -- last of them that has its key is an addition, or none has its key and the table has a row with it
  -- that is not spent.
  pub get_job-apply_all :
      (table : List JobRow) (cs : List Change) (txid : String) (index : ℕ)
      → let key = key_of print txid index in
        (get_job print txid index (apply_all cs (load_from_database print table)) ≡ true) ↔ (
          IsAdded key cs
          ⊎ (Spare key cs
              × ((row : JobRow) × In row table
                  × (row.spent ≡ false)
                  × (key_of print row.txid row.vout ≡ key))))
  unfolding get_job
  get_job-apply_all table cs txid index =
      let key = key_of print txid index in
      let jobs = load_from_database print table in
      let loaded = get_job-load_from_database print table txid index in
      (
        λ h. elim (apply_all_sound key cs jobs h) [
          | inl added ↦ inl added
          | inr (spare, k) ↦ inr (spare, loaded.0 k)
        ],
        λ h. elim h [
          | inl a ↦ rw a.split (
              apply_all-IsAdded key a.before a.last a.after jobs a.added
                ((str_eq_iff (key_in a.last) key).1 a.same) a.spare)
          | inr (spare, row) ↦ apply_all-Spare key cs jobs spare ∙ loaded.1 row
        ],
      )
