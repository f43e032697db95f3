-- ===== src/Importer.antt =====
-- src/importer.ts: the import of a proof, and the map of the jobs that are not spent.
pub mod Jobs
pub mod Open
use Prim.Native.String.{◌++◌ as text_append}
use boostpow_api.Base.{
  ℕ, String, Bool, true, false, not, Option, none, some, List, [], ◌∷◌, str_eq, if◌then◌else◌,
}
use boostpow_api.Base.Lists.{filter}
use boostpow_api.Base.Action.{type_error, Action, pure, throw, lift, ignore, ◌>>=◌, ◌>>◌}
use boostpow_api.Boost.Store.{JobRow}
use boostpow_api.Boost.Network.{Proof, Env}
use boostpow_api.Boost.Fetch.{BoostAction}
use boostpow_api.Boost.Proofs.{import_boost_proof}

-- `importProof`; its log line reads `result.toJSON`, which throws where there is no result.
unfoldable pub import_proof : Env → List ℕ → String → BoostAction (Option Proof)
import_proof env schedule tx_hex = do
  ignore (lift (env.outputs_of (some tx_hex)))
  proof ← lift (env.proof_in (some tx_hex))
  elim proof [
    | none ↦ pure none
    | some p ↦ do
      result ← import_boost_proof env schedule (some p) (some tx_hex)
      elim result [ none ↦ throw type_error | some work ↦ pure (some p) ]
  ]

-- The object `jobs` with its keys, newest assignment first; undefined is `false`.
abbrev pub JobsMap : Type 0
JobsMap = List (String × Bool)

abbrev pub value_at : String → JobsMap → Bool
value_at key [] = false
value_at key ((k, v) ∷ jobs) = if str_eq k key then v else value_at key jobs

-- `print` is the decimal text of a number.
module _ (print : ℕ → String) where
  -- `${txid}_${index}`
  unfoldable pub key_of : String → ℕ → String
  key_of txid index = text_append txid (text_append "_" (print index))

  unfoldable pub add_job : String → ℕ → JobsMap → JobsMap
  add_job txid index jobs = (key_of txid index, true) ∷ jobs

  unfoldable pub get_job : String → ℕ → JobsMap → Bool
  get_job txid index jobs = value_at (key_of txid index) jobs

  unfoldable pub remove_job : String → ℕ → JobsMap → JobsMap
  remove_job txid index jobs = (key_of txid index, false) ∷ jobs

  -- The loop over the rows.
  unfoldable pub add_rows : List JobRow → JobsMap → JobsMap
  add_rows [] jobs = jobs
  add_rows (row ∷ rows) jobs = add_rows rows (add_job row.txid row.vout jobs)

  -- The rows of the table that are not spent.
  unfoldable pub load_from_database : List JobRow → JobsMap
  unfolding add_rows
  load_from_database table = add_rows (filter (λ row. not row.spent) table) []
