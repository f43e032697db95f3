-- ===== src/Interests.antt =====
-- src/personal_interests/index.ts and get_script_hashes.ts: the interests, the search for the transaction
-- that spends one, and its removal.
pub mod Spending
pub mod Removing
pub mod Imports
use Prim.Native.Char.{code}
use Prim.Native.String.{◌++◌ as text_append}
use boostpow_api.Base.{
  ℕ, zero, suc, ◌+◌, String, Bool, true, false, not, ◌&&◌, Option, none, some, List, [], ◌∷◌, ◌++◌,
  map, str_eq, nat_eq, is_some, or_else, if◌then◌else◌,
}
use boostpow_api.Base.Lists.{head?, filter, find?, cons_option}
use boostpow_api.Base.Action.{
  Error, type_error, message, Result, ok, err, Action, pure, throw, lift, gets, modify, ◌>>=◌, ◌>>◌,
}

-- A row of PersonalInterest; a column that may be null is an `Option`.
pub record Interest : Type 0 where
  pub id : ℕ
  pub origin : String
  pub location : String
  pub topic : String
  pub owner : String
  pub weight : ℕ
  pub value : ℕ
  pub active : Bool
  pub script_hash : Option String
  pub script : Option String
  pub removal_location : Option String

-- An input of a transaction, as whatsonchain describes it.
pub record Vin : Type 0 where
  pub txid : String
  pub vout : ℕ

pub record Spend : Type 0 where
  pub txid : String
  pub vin : ℕ

pub data Message : Type 0 where
  removed created : Interest → Message

pub record World : Type 0 where
  pub interests : List Interest
  pub next_id : ℕ
  pub published : List Message

-- The network, the configuration, and the language's conversions of
-- numbers and texts.
pub record Env : Type 0 where
  pub history : String → Result (List String)
  pub inputs_of : String → Result (List Vin)
  pub amqp_url : Bool
  pub find_one : (Interest → Bool) → List Interest → Option Interest
  pub parse_int : String → Option ℕ
  pub print : ℕ → String

abbrev pub InterestAction : Type 0 → Type 0
InterestAction A = Action World A

-- `!!text`
abbrev pub is_given : Option String → Bool
is_given none = false
is_given (some s) = if str_eq s "" then false else true

-- The two parts of `location.split('_')` that are read.
unfoldable pub first_part : String → String
first_part String.[] = String.[]
first_part (String.◌∷◌ c s) =
    if nat_eq (code c) b'_' then String.[] else String.◌∷◌ c (first_part s)

unfoldable pub rest_part : String → String
rest_part String.[] = String.[]
rest_part (String.◌∷◌ c s) = if nat_eq (code c) b'_' then s else rest_part s

unfoldable pub second_part : String → String
unfolding first_part rest_part
second_part location = first_part (rest_part location)

-- `vin.txid == args.txid && vin.vout == args.vout`; a vout that is not a number equals nothing.
unfoldable pub spends : String → Option ℕ → Vin → Bool
spends txid none vin = false
spends txid (some vout) vin = str_eq vin.txid txid && nat_eq vin.vout vout

-- The index of the first input that spends the output, counted from `index`.
unfoldable pub match_from : String → Option ℕ → ℕ → List Vin → Option ℕ
match_from txid vout index [] = none
match_from txid vout index (v ∷ vs) =
    if spends txid vout v then some index else match_from txid vout (index + 1) vs

abbrev pub at_location : String → Interest → Bool
at_location location row = str_eq row.location location

-- What `getRemoval` returns beside the row: of a row that has a removal location the fields `txid`
-- and `vin` of a text, which are undefined; else the spend that was found.
pub data Removal : Type 0 where
  undefined_fields : Removal
  spend_found : Option Spend → Removal

module _ (env : Env) where
  -- The callback of `history.map` for one transaction of the script's history.
  unfoldable pub spend_in : String → Option ℕ → String → Result (Option Spend)
  spend_in txid vout tx_hash =
      if str_eq tx_hash txid then ok none else elim (env.inputs_of tx_hash) [
        | err e ↦ err e
        | ok vins ↦ elim (match_from txid vout 0 vins) [
          | none ↦ ok none
          | some index ↦ ok (some (record { txid = tx_hash; vin = index }))
        ]
      ]

  -- `Promise.all(history.map(…))` and the filter behind it.
  unfoldable pub spends_in : String → Option ℕ → List String → Result (List Spend)
  spends_in txid vout [] = ok []
  spends_in txid vout (h ∷ hs) = elim (spend_in txid vout h) [
    | err e ↦ err e
    | ok found ↦ elim (spends_in txid vout hs) [
      | err e ↦ err e
      | ok later ↦ ok (cons_option found later)
    ]
  ]

  unfoldable pub get_spend : String → String → Option ℕ → Result (Option Spend)
  get_spend script_hash txid vout = elim (env.history script_hash) [
    | err e ↦ err e
    | ok history ↦ elim (spends_in txid vout history) [
      | err e ↦ err e
      | ok found ↦ ok (head? found)
    ]
  ]

  unfoldable pub removal_of : String → Option Interest → Result (Interest × Removal)
  removal_of location none = err type_error
  removal_of location (some row) =
      if is_given row.removal_location
      then ok (row, undefined_fields)
      else if is_given row.script_hash
      then elim (get_spend (or_else row.script_hash "") (first_part location)
          (env.parse_int (second_part location))) [
            | err e ↦ err e
            | ok spend ↦ ok (row, spend_found spend)
          ]
      else err (message "Interest Record Missing Script Hash")

  unfoldable pub get_removal : String → InterestAction (Interest × Removal)
  get_removal location w =
      (removal_of location (env.find_one (at_location location) w.interests), w)

  -- `${spend.txid}_${spend.vin}`
  unfoldable pub location_of : Spend → String
  location_of spend = text_append spend.txid (text_append "_" (env.print spend.vin))

  unfoldable pub deactivate : Spend → Interest → Interest
  deactivate spend row = record row { removal_location = some (location_of spend); active = false }

  unfoldable pub save_interest : Interest → World → World
  save_interest row w = record w {
    interests = map (λ r. if nat_eq r.id row.id then row else r) w.interests;
  }

  unfoldable pub publish_if : Bool → Message → World → World
  publish_if enabled m w = record w {
    published = if enabled then w.published ++ m ∷ [] else w.published;
  }

  -- `removeInterest` from where the removal is known.
  unfoldable pub apply_removal : Interest × Removal → InterestAction Interest
  apply_removal (row, undefined_fields) w = (ok row, w)
  apply_removal (row, spend_found none) w =
      (err (message "Transaction Does Not Remove Interest From Its Current Location"), w)
  apply_removal (row, spend_found (some spend)) w =
      let row' = deactivate spend row in
      (ok row', publish_if env.amqp_url (removed row') (save_interest row' w))

  unfoldable pub remove_interest : String → InterestAction Interest
  remove_interest location = get_removal location >>= apply_removal
