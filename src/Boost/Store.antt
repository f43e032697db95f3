-- ===== src/Boost/Store.antt =====
-- The tables boost_jobs and boost_job_proofs (src/models/boost_job.js, src/models/boost_work.js),
-- the messages that are published, and the state that src/boost.ts works on.
use boostpow_api.Base.{ℕ, String, Bool, ◌&&◌, Option, List, map, nat_eq, str_eq, if◌then◌else◌}

-- What is written to a date column: a plain number, or a JavaScript `Date` in milliseconds.
pub data Timestamp : Type 0 where
  number : ℕ → Timestamp
  date : ℕ → Timestamp

-- A row of boost_jobs. A floating-point column (difficulty, profitability) holds its bit pattern.
pub record JobRow : Type 0 where
  pub id : ℕ
  pub txid : String
  pub vout : ℕ
  pub content : String
  pub script : String
  pub value : ℕ
  pub difficulty : ℕ
  pub profitability : ℕ
  pub category : String
  pub tag : String
  pub user_nonce : String
  pub additional_data : String
  pub miner_pub_key_hash : String
  pub tx_hex : Option String
  pub timestamp : Timestamp
  pub spent : Bool
  pub spent_txid : Option String
  pub spent_vout : Option ℕ

-- A row of boost_job_proofs.
pub record WorkRow : Type 0 where
  pub id : ℕ
  pub job_txid : String
  pub job_vout : ℕ
  pub spend_txid : String
  pub spend_vout : ℕ
  pub content : String
  pub difficulty : ℕ
  pub profitability : ℕ
  pub tag : String
  pub timestamp : Timestamp
  pub value : ℕ
  pub tx_hex : Option String

pub data Message : Type 0 where
  job_created : JobRow → Message
  proof_created : WorkRow → Message
  job_completed : JobRow → WorkRow → Message

-- The database, the messages published so far, the transactions broadcast so far, and the number
-- of answers that the network has given, which selects the next one.
pub record World : Type 0 where
  pub jobs : List JobRow
  pub works : List WorkRow
  pub next_id : ℕ
  pub published : List Message
  pub broadcasts : List String
  pub clock : ℕ

-- `where: { txid }`
unfoldable pub has_txid : String → JobRow → Bool
has_txid txid row = str_eq row.txid txid

-- `where: { txid, vout }`
unfoldable pub is_output : String → ℕ → JobRow → Bool
is_output txid vout row = str_eq row.txid txid && nat_eq row.vout vout

-- `where: { job_txid, job_vout }`
unfoldable pub spends_output : String → ℕ → WorkRow → Bool
spends_output txid vout row = str_eq row.job_txid txid && nat_eq row.job_vout vout

-- `record.save()`: the changed columns of the row with this id.
abbrev pub update_row {ℓ} : {R : Type ℓ} → (R → Bool) → (R → R) → List R → List R
update_row is_row f rows = map (λ r. if is_row r then f r else r) rows
