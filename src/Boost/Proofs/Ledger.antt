-- ===== src/Boost/Proofs/Ledger.antt =====
-- src/boost.ts: importBoostProof, seen as an insertion into a map from outputs to spends.
use boostpow_api.Base.{
  ℕ, String, Bool, false, ◌&&◌, Option, none, some, List, [], ◌∷◌, ◌++◌, ◌≡◌, refl, sym, ◌∙◌, inl,
  inr, Option-cases, Bool-cases, str_eq, nat_eq, if◌then◌else◌,
}
use boostpow_api.Base.Lists.{In, All-In, find?, find?-none}
use boostpow_api.Boost.Store.{Timestamp, JobRow, WorkRow, World, spends_output}
use boostpow_api.Boost.Network.{Proof, Env, IsLookup}
use boostpow_api.Boost.Proofs.{work_row, proof_timestamp, import_boost_proof}
use boostpow_api.Boost.Proofs.Recording.{IsSpentJob}
use boostpow_api.Boost.Proofs.Imports.{import_boost_proof-IsImported}

-- A transaction and the index of an input.
abbrev pub InputOf : Type 0
InputOf = String × ℕ

-- Which spend is known of an output.
abbrev pub Ledger : Type 0
Ledger = String → ℕ → Option InputOf

abbrev spend_of : Option WorkRow → Option InputOf
spend_of none = none
spend_of (some row) = some (row.spend_txid, row.spend_vout)

-- The table as a map: the first row of the output.
abbrev pub ledger : List WorkRow → Ledger
ledger rows txid vout = spend_of (find? (spends_output txid vout) rows)

abbrev is_spent_by : String → ℕ → Proof → Bool
is_spent_by txid vout proof = str_eq proof.spent_txid txid && nat_eq proof.spent_vout vout

-- The spend of the proof's output, unless one is known.
abbrev pub insert_absent : Proof → Ledger → Ledger
insert_absent proof m txid vout = elim (m txid vout) [
  | some known ↦ some known
  | none ↦ if is_spent_by txid vout proof then some (proof.txid, proof.vin) else none
]

find?-last :
    (p : WorkRow → Bool) (xs : List WorkRow) (y : WorkRow)
    → find? p (xs ++ y ∷ []) ≡ elim (find? p xs) as (λ _. Option WorkRow) [
      | some x ↦ some x
      | none ↦ if p y then some y else none
    ]
find?-last p [] y = refl
find?-last p (x ∷ xs) y = elim (Bool-cases (p x)) [
  | inl e ↦ rw e refl
  | inr e ↦ rw e (find?-last p xs y)
]

work-spends_output :
    (proof : Proof) (work : WorkRow)
    → work.job_txid ≡ proof.spent_txid
    → work.job_vout ≡ proof.spent_vout
    → (txid : String) (vout : ℕ) → spends_output txid vout work ≡ is_spent_by txid vout proof
unfolding spends_output
work-spends_output proof work e k txid vout = rw (e, k) refl

ledger-known :
    (proof : Proof) (rows : List WorkRow) (work : WorkRow)
    → In work rows
    → work.job_txid ≡ proof.spent_txid
    → work.job_vout ≡ proof.spent_vout
    → (txid : String) (vout : ℕ)
    → ledger rows txid vout ≡ insert_absent proof (ledger rows) txid vout
ledger-known proof rows work there e k txid vout =
    elim (Option-cases (find? (spends_output txid vout) rows)) [
      | inl missed ↦
          let fresh =
            All-In (λ x. spends_output txid vout x ≡ false) work rows
              (find?-none (spends_output txid vout) rows missed) there in
          let not_spent : is_spent_by txid vout proof ≡ false =
            sym (work-spends_output proof work e k txid vout) ∙ fresh in
          rw (missed, insert_absent, not_spent) refl
      | inr (r, found) ↦ rw (found, insert_absent) refl
    ]

ledger-new :
    (env : Env) (proof : Proof) (job : JobRow) (ts : Timestamp) (hex : Option String) (id : ℕ)
    (rows : List WorkRow) (txid : String) (vout : ℕ)
    → ledger (rows ++ work_row env.divide id proof job ts hex ∷ []) txid vout
      ≡ insert_absent proof (ledger rows) txid vout
unfolding work_row
ledger-new env proof job ts hex id rows txid vout =
    let row = work_row env.divide id proof job ts hex in
    let same : spends_output txid vout row ≡ is_spent_by txid vout proof =
      work-spends_output proof row refl refl txid vout in
    rw (find?-last (spends_output txid vout) rows row)
      (elim (Option-cases (find? (spends_output txid vout) rows)) [
        | inl e ↦ elim (Bool-cases (is_spent_by txid vout proof)) [
          | inl t ↦ let s = same ∙ t in rw (e, insert_absent, s, t) refl
          | inr f ↦ let s = same ∙ f in rw (e, insert_absent, s, f) refl
        ]
        | inr (r, e) ↦ rw (e, insert_absent) refl
      ])

-- Seen as a map from outputs to the spends that are known of them, the table of the proofs after an
-- import is the one before with the spend of the proof added, where its output had none: a later
-- proof of the same output changes nothing, and no other output is touched. The job of the proof is
-- taken to be in the table, and `findOne` to answer with a row that meets the condition, and with
-- null only where there is none.
pub import_boost_proof-ledger :
    (env : Env) (schedule : List ℕ) (jobs : IsLookup env.find_job) (works : IsLookup env.find_work)
    (proof : Proof) (hex : Option String) (w : World) (r : JobRow)
    → IsSpentJob proof w r
    → (txid : String) (vout : ℕ)
    → ledger (import_boost_proof env schedule (some proof) hex w).1.works txid vout
      ≡ insert_absent proof (ledger w.works) txid vout
import_boost_proof-ledger env schedule jobs works proof hex w r h txid vout =
    let (work, done, (here, e, k), spent, change) =
      import_boost_proof-IsImported env schedule jobs works proof hex w r h in
    elim change [
      | inl (there, same, quiet) ↦ rw same (ledger-known proof w.works work there e k txid vout)
      | inr (absent, (job, at_job, made, added, told)) ↦
          rw (added, made)
            (ledger-new env proof job (proof_timestamp proof (env.now w.clock)) hex w.next_id
              w.works txid vout)
    ]
