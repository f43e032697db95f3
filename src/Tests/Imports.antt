-- ===== src/Tests/Imports.antt =====
-- Runs of the import of personal interests.
use boostpow_api.Base.{ℕ, zero, suc, ◌<◌, true, false, none, some, [], ◌∷◌, ◌≡◌, refl}
use boostpow_api.Base.Tests.{str_eq}
use boostpow_api.Base.Lists.{In, filter, find?, get_elem?, length}
use boostpow_api.Base.Action.{ok, err, type_error}
use boostpow_api.Interests.{Interest, Env, World, is_given, at_location}
use boostpow_api.Interests.Imports.{
  Output, Transaction, PersonalInterest, DetectedInterest, Calls, detected, detect_interests,
  detect_from, import_new, create_all, row_of, store, find_or_import_personal_interests,
}
use boostpow_api.Interests.Imports.Detected.{detect_interests_lem}
use boostpow_api.Interests.Imports.Known.{IsIdle, find_or_import_known, find_or_import_again}

abbrev env : Env
env = record {
  history = λ hash. err type_error;
  inputs_of = λ txid. err type_error;
  amqp_url = false;
  find_one = find?;
  parse_int = λ s. some 0;
  print = λ n. "0";
}

abbrev tx : Transaction
tx = record {
  hash = "aa";
  outputs = record { script = "6a"; satoshis = 0 } ∷ record { script = "51"; satoshis = 10 } ∷ [];
}

abbrev interest : PersonalInterest
interest = record { topic = "74"; owner = "02"; weight = 1; output_index = 1 }

-- The second output is an interest.
abbrev calls : Calls
calls = record {
  fetch_transaction = λ txid. ok "00";
  transaction = λ tx_hex. ok tx;
  from_tx = λ t i. elim i [ zero ↦ err type_error | suc j ↦ ok interest ];
  script_hash = λ script. "ff";
  utf8 = λ s. s;
  address = λ key. ok "1A";
}

detect_interests_lem_example :
    ((d : DetectedInterest)
      → In d (detect_interests env calls tx)
      → (d.vout < length tx.outputs)
        × (calls.from_tx tx d.vout ≡ ok d.interest)
        × ((output : Output) × (get_elem? tx.outputs d.vout ≡ some output)
            × (d.script ≡ output.script)
            × (d.script_hash ≡ calls.script_hash output.script)
            × (d.txid ≡ tx.hash)))
    × ((i : ℕ) (output : Output) (interest : PersonalInterest)
        → get_elem? tx.outputs i ≡ some output
        → calls.from_tx tx i ≡ ok interest
        → (d : DetectedInterest) × In d (detect_interests env calls tx)
          × (d.vout ≡ i)
          × (d.interest ≡ interest))
detect_interests_lem_example = detect_interests_lem env calls tx

abbrev row : Interest
row = record {
  id = 1;
  origin = "aa_1";
  location = "aa_1";
  topic = "74";
  owner = "1A";
  weight = 1;
  value = 10;
  active = true;
  script_hash = some "ff";
  script = some "51";
  removal_location = none;
}

abbrev unhashed : Interest
unhashed = record row { script_hash = none; script = none }

abbrev world : World
world = record { interests = unhashed ∷ []; next_id = 2; published = [] }

there : filter (at_location "aa_1") world.interests ≡ unhashed ∷ []
unfolding str_eq
there = refl

find_or_import_known_example :
    IsIdle env calls
      (unhashed ∷ [])
      world
      (find_or_import_personal_interests env calls "aa_1" world)
find_or_import_known_example = find_or_import_known env calls "aa_1" world unhashed [] there

abbrev empty : World
empty = record { interests = []; next_id = 1; published = [] }

abbrev imported : World
imported = record { interests = row ∷ []; next_id = 2; published = [] }

hash_given : is_given (some "ff") ≡ true
unfolding str_eq
hash_given = refl

first_import : find_or_import_personal_interests env calls "aa_1" empty ≡ (ok (row ∷ []), imported)
unfolding find_or_import_personal_interests import_new create_all row_of store detect_interests
    detect_from detected
first_import = refl

made :
    filter
      (at_location "aa_1")
      (find_or_import_personal_interests env calls "aa_1" empty).1.interests
    ≡ row ∷ []
unfolding str_eq
made = rw first_import refl

find_or_import_again_example :
    let w' = (find_or_import_personal_interests env calls "aa_1" empty).1 in
    find_or_import_personal_interests env calls "aa_1" w' ≡ (ok (row ∷ []), w')
find_or_import_again_example =
    find_or_import_again env calls (λ script. hash_given) "aa_1" empty row [] refl made
