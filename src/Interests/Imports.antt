-- ===== src/Interests/Imports.antt =====
-- src/personal_interests/get_script_hashes.ts, the interests of a transaction; and
-- findOrImportPersonalInterests of src/personal_interests/index.ts.
pub mod Detected
pub mod Known
use Prim.Native.String.{◌++◌ as text_append}
use boostpow_api.Base.{
  not, ℕ, zero, suc, ◌+◌, String, Bool, true, false, Option, none, some, List, [], ◌∷◌, ◌++◌, map,
  str_eq, nat_eq, is_some, if◌then◌else◌,
}
use boostpow_api.Base.Lists.{head?, filter, get_elem?}
use boostpow_api.Base.Action.{
  Error, type_error, Result, ok, err, map_result, Action, pure, lift, gets, modify, ◌>>=◌, ◌>>◌,
}
use boostpow_api.Interests.{
  Interest, created, World, Env, InterestAction, is_given, first_part, second_part, at_location,
  save_interest, publish_if,
}

-- A transaction of bsv: its hash, and the scripts and the satoshis of its outputs.
pub record Output : Type 0 where
  pub script : String
  pub satoshis : ℕ

pub record Transaction : Type 0 where
  pub hash : String
  pub outputs : List Output

-- What is read of an instance of the contract.
pub record PersonalInterest : Type 0 where
  pub topic : String
  pub owner : String
  pub weight : ℕ
  pub output_index : ℕ

pub record DetectedInterest : Type 0 where
  pub interest : PersonalInterest
  pub vout : ℕ
  pub script : String
  pub script_hash : String
  pub txid : String

-- The calls of packages and of whatsonchain: `fetchTransaction`, `new bsv.Transaction`,
-- `PersonalInterest.fromTx`, the reversed hash of a script, the text of a hex string, and the address
-- of a public key.
pub record Calls : Type 0 where
  pub fetch_transaction : String → Result String
  pub transaction : String → Result Transaction
  pub from_tx : Transaction → ℕ → Result PersonalInterest
  pub script_hash : String → String
  pub utf8 : String → String
  pub address : String → Result String

-- A number and a text are never equal by `===`.
pub data Value : Type 0 where
  number : ℕ → Value
  text : String → Value

abbrev pub strict_equal : Value → Value → Bool
strict_equal (number a) (number b) = nat_eq a b
strict_equal (text s) (text t) = str_eq s t
strict_equal _ _ = false

module _ (env : Env) (calls : Calls) where
  unfoldable pub detected : Transaction → ℕ → Output → PersonalInterest → DetectedInterest
  detected tx i output interest = record {
    interest = interest;
    vout = i;
    script = output.script;
    script_hash = calls.script_hash output.script;
    txid = tx.hash;
  }

  -- The loop over the outputs, from an index: an output that is no interest throws and is passed over.
  unfoldable pub detect_from : Transaction → ℕ → List Output → List DetectedInterest
  unfolding detected
  detect_from tx i [] = []
  detect_from tx i (output ∷ outputs) =
      let rest = detect_from tx (i + 1) outputs in
      elim (calls.from_tx tx i) [
        | err e ↦ rest
        | ok interest ↦ detected tx i output interest ∷ rest
      ]

  unfoldable pub detect_interests : Transaction → List DetectedInterest
  unfolding detect_from
  detect_interests tx = detect_from tx 0 tx.outputs

  unfoldable pub detect_interests_from_tx_hex : String → Result (List DetectedInterest)
  unfolding detect_interests
  detect_interests_from_tx_hex tx_hex = map_result detect_interests (calls.transaction tx_hex)

  -- The columns of a new row but its id.
  unfoldable pub row_of : String → Transaction → DetectedInterest → ℕ → Result Interest
  row_of location tx d id = elim (calls.address d.interest.owner) [
    | err e ↦ err e
    | ok owner ↦ elim (get_elem? tx.outputs d.interest.output_index) [
      | none ↦ err type_error
      | some output ↦ ok (record {
        id = id;
        origin = location;
        location = location;
        topic = calls.utf8 d.interest.topic;
        owner = owner;
        weight = d.interest.weight;
        value = output.satoshis;
        active = true;
        script_hash = some d.script_hash;
        script = some d.script;
        removal_location = none;
      })
    ]
  ]

  unfoldable pub store : Interest → World → World
  unfolding publish_if
  store row w =
      publish_if env env.amqp_url (created row)
        (record w { interests = w.interests ++ row ∷ []; next_id = w.next_id + 1 })

  -- The loop over the interests that were found.
  unfoldable pub create_all :
      String → Transaction → List DetectedInterest → InterestAction (List Interest)
  unfolding row_of store
  create_all location tx [] w = (ok [], w)
  create_all location tx (d ∷ ds) w = elim (row_of location tx d w.next_id) [
    | err e ↦ (err e, w)
    | ok row ↦
        let (rows, w') = create_all location tx ds (store row w) in
        (map_result (λ rs. row ∷ rs) rows, w')
  ]

  unfoldable pub import_new : String → InterestAction (List Interest)
  unfolding create_all
  import_new location w = elim (calls.fetch_transaction (first_part location)) [
    | err e ↦ (err e, w)
    | ok tx_hex ↦ elim (calls.transaction tx_hex) [
      | err e ↦ (err e, w)
      | ok tx ↦ create_all location tx (detect_interests tx) w
    ]
  ]

  -- The loop over the interests that a record without a script hash is compared with.
  unfoldable pub complete : Interest → List DetectedInterest → World → Interest × World
  complete row [] w = (row, w)
  complete row (d ∷ ds) w =
      if strict_equal (number d.vout) (text (second_part row.location))
      then (let row' = record row { script = some d.script; script_hash = some d.script_hash } in
          complete row' ds (save_interest env row' w))
      else complete row ds w

  unfoldable pub rescan : Interest → InterestAction Interest
  unfolding complete
  rescan row w =
      if is_given row.script_hash
      then (ok row, w)
      else elim (calls.fetch_transaction (first_part row.location)) [
        | err e ↦ (err e, w)
        | ok tx_hex ↦ elim (detect_interests_from_tx_hex tx_hex) [
          | err e ↦ (err e, w)
          | ok ds ↦ let (row', w') = complete row ds w in (ok row', w')
        ]
      ]

  unfoldable pub rescan_all : List Interest → InterestAction (List Interest)
  unfolding rescan
  rescan_all [] w = (ok [], w)
  rescan_all (row ∷ rows) w =
      let (result, w') = rescan row w in
      elim result [
        | err e ↦ (err e, w')
        | ok row' ↦ let (rest, w'') = rescan_all rows w' in (map_result (λ rs. row' ∷ rs) rest, w'')
      ]

  unfoldable pub find_or_import_personal_interests : String → InterestAction (List Interest)
  unfolding import_new rescan_all
  find_or_import_personal_interests location w = elim (filter (at_location location) w.interests) [
    | [] ↦ import_new location w
    | row ∷ rows ↦ rescan_all (row ∷ rows) w
  ]

  unfoldable pub repaired : DetectedInterest → Interest → Interest
  repaired d row = record row {
    script = some d.script;
    script_hash = some d.script_hash;
    location = text_append d.txid (text_append "_" (env.print d.vout));
  }

  -- The loop of the script `main` over the rows without a script hash; `fetch` is of src/powco.ts.
  unfoldable pub repair_all : (String → Result String) → List Interest → InterestAction (Unit {0})
  unfolding detect_interests_from_tx_hex repaired
  repair_all fetch [] w = (ok tt, w)
  repair_all fetch (row ∷ rows) w = elim (fetch (first_part row.location)) [
    | err e ↦ (err e, w)
    | ok tx_hex ↦ elim (detect_interests_from_tx_hex tx_hex) [
      | err e ↦ (err e, w)
      | ok (d ∷ []) ↦ repair_all fetch rows (save_interest env (repaired d row) w)
      | ok _ ↦ repair_all fetch rows w
    ]
  ]

  unfoldable pub repair : (String → Result String) → InterestAction (Unit {0})
  unfolding repair_all
  repair fetch w = repair_all fetch (filter (λ row. not (is_some row.script_hash)) w.interests) w
