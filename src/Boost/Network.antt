-- ===== src/Boost/Network.antt =====
-- What src/boost.ts calls and does not implement: the network, the message broker, the clock, the
-- packages boostpow and bsv, and the lookups of the database.
use boostpow_api.Base.{ℕ, String, Bool, true, false, Option, none, some, List, ◌≡◌}
use boostpow_api.Base.Lists.{In, All}
use boostpow_api.Base.Action.{Result}
use boostpow_api.Boost.Store.{JobRow, WorkRow}

-- The parts of a BoostPowJob of the package boostpow that the code reads, with the texts of
-- `toObject()`.
pub record Job : Type 0 where
  pub txid : String
  pub vout : ℕ
  pub value : ℕ
  pub difficulty : ℕ
  pub script : String
  pub content : String
  pub category : String
  pub tag : String
  pub user_nonce : String
  pub additional_data : String
  pub miner_pub_key_hash : Option String

-- The parts of a BoostPowJobProof that the code reads; `time` is `proof.time.number`.
pub record Proof : Type 0 where
  pub txid : String
  pub vin : ℕ
  pub spent_txid : String
  pub spent_vout : ℕ
  pub time : Option ℕ

pub record HttpReply : Type 0 where
  pub status : ℕ
  pub text : String

-- A network answer depends on how many answers came before it.
pub record Env : Type 0 where
  pub get_hex : ℕ → String → Result HttpReply
  pub get_time : ℕ → String → Result (Option ℕ)
  pub broadcast : ℕ → String → Result (Unit {0})
  pub publish : ℕ → Result (Unit {0})
  pub now : ℕ → ℕ
  pub amqp_enabled : Bool
  pub outputs_of : Option String → Result ℕ
  pub hash_of : Option String → String
  pub job_at : Option String → ℕ → Result (Option Job)
  pub job_in : Option String → Result (Option Job)
  pub proof_in : Option String → Result (Option Proof)
  pub divide : ℕ → ℕ → ℕ
  pub find_job : (JobRow → Bool) → List JobRow → Option JobRow
  pub find_work : (WorkRow → Bool) → List WorkRow → Option WorkRow

-- `findOne` answers with a row of the table that meets the condition, whichever it chooses, and
-- with null only where no row does.
pub record IsLookup {R : Type 0} (find : (R → Bool) → List R → Option R) : Type 0 where
  pub found :
      (p : R → Bool) (rows : List R) {r : R} → find p rows ≡ some r → In r rows × (p r ≡ true)
  pub missed : (p : R → Bool) (rows : List R) → find p rows ≡ none → All (λ r. p r ≡ false) rows
