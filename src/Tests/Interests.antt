-- ===== src/Tests/Interests.antt =====
-- Runs of the removal of a personal interest.
use boostpow_api.Base.{String, true, false, Option, none, some, List, [], ◌∷◌, ◌≡◌, ◌⊎◌, refl}
use boostpow_api.Base.Tests.{str_eq}
use boostpow_api.Base.Lists.{find?}
use boostpow_api.Base.Action.{Error, ok, err}
use boostpow_api.Interests.{
  Interest, Spend, Env, World, removed, get_spend, spends_in, spend_in, match_from, spends,
}
use boostpow_api.Interests.Spending.{Answers, HasFailed, get_spend_lem}

-- The output `aa_0` is spent by the first input of `bb`.
abbrev env : Env
env = record {
  history = λ hash. ok ("aa" ∷ "bb" ∷ []);
  inputs_of = λ txid. ok (record { txid = "aa"; vout = 0 } ∷ []);
  amqp_url = true;
  find_one = find?;
  parse_int = λ s. some 0;
  print = λ n. "0";
}

abbrev interest : Interest
interest = record {
  id = 1;
  origin = "aa_0";
  location = "aa_0";
  topic = "t";
  owner = "1A";
  weight = 1;
  value = 10;
  active = true;
  script_hash = some "hash";
  script = some "51";
  removal_location = none;
}

abbrev world : World
world = record { interests = interest ∷ []; next_id = 2; published = [] }

abbrev spend : Spend
spend = record { txid = "bb"; vin = 0 }

finds_spend : get_spend env "hash" "aa" (some 0) ≡ ok (some spend)
unfolding get_spend spends_in spend_in match_from spends str_eq
finds_spend = refl

get_spend_lem_example :
    ((e : Error) × (get_spend env "hash" "aa" (some 0) ≡ err e) × (env.history "hash" ≡ err e))
    ⊎ ((history : List String) × (env.history "hash" ≡ ok history)
        × (((e : Error) × (get_spend env "hash" "aa" (some 0) ≡ err e)
              × HasFailed env "aa" (some 0) history e)
            ⊎ ((answer : Option Spend) × (get_spend env "hash" "aa" (some 0) ≡ ok answer)
                × Answers env "aa" (some 0) history answer)))
get_spend_lem_example = get_spend_lem env "aa" (some 0) "hash"

abbrev removed_row : Interest
removed_row = record interest { removal_location = some "bb_0"; active = false }

abbrev after : World
after = record { interests = removed_row ∷ []; next_id = 2; published = removed removed_row ∷ [] }
