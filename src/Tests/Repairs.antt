-- ===== src/Tests/Repairs.antt =====
-- Runs of the repair script, of shuffle and of the short codes of scripts.
use mathlib.Core.List.{Perm}
use boostpow_api.Base.{String, none, some, List, [], ◌∷◌, ◌≡◌, ◌⊎◌, refl, if◌then◌else◌, arith}
use boostpow_api.Base.Tests.{str_eq}
use boostpow_api.Base.Lists.{All, find?}
use boostpow_api.Base.Action.{Result, ok}
use boostpow_api.Boost.Proofs.Unique.{IsUnique}
use boostpow_api.Repairs.{
  SpendTransaction, Calls, hash_of_output, find_spend_transaction, redeem_all,
}
use boostpow_api.Repairs.Latest.{IsOther, IsLast, find_spend_transaction_lem}
use boostpow_api.Repairs.Rows.{redeem_all-IsUnique}
use boostpow_api.Shuffle.{shuffle, shuffle-Perm}
use boostpow_api.Shortcodes.{ScriptShortcode, find_or_create, find}
use boostpow_api.Shortcodes.RoundTrip.{HasCodes, find-find_or_create}
use boostpow_api.Tests.Network.{find?-IsLookup, with_job}

-- The job's transaction is spent by "cc".
abbrev calls : Calls
calls = record {
  get_transaction = λ txid.
      ok (record { outputs = "51" ∷ []; inputs = (if str_eq txid "cc" then "aa" else "00") ∷ [] });
  history = λ hash. ok ("aa" ∷ "cc" ∷ []);
  time = λ txid. ok 7;
  fetch = λ txid. ok "ff";
  script_hash = λ script. "hash";
  parse_int = λ s. 0;
  find_job = find?;
  find_work = find?;
}

hash_read : hash_of_output calls "aa" 0 ≡ ok "hash"
unfolding hash_of_output
hash_read = refl

find_spend_transaction_lem_example :
    ((find_spend_transaction calls "aa" 0 ≡ ok none)
      × All (IsOther calls "aa" 0) ("aa" ∷ "cc" ∷ []))
    ⊎ ((spend : SpendTransaction) × (find_spend_transaction calls "aa" 0 ≡ ok (some spend))
        × IsLast calls "aa" 0 ("aa" ∷ "cc" ∷ []) spend)
find_spend_transaction_lem_example =
    find_spend_transaction_lem calls "aa" 0 "hash" ("aa" ∷ "cc" ∷ []) hash_read refl
      ((_, refl), ((_, refl), tt))

none_twice : IsUnique []
none_twice txid vout = omega arith

redeem_all-IsUnique_example : IsUnique (redeem_all calls ("0xaa:0" ∷ "0xaa:0" ∷ []) with_job).works
redeem_all-IsUnique_example =
    redeem_all-IsUnique calls find?-IsLookup ("0xaa:0" ∷ "0xaa:0" ∷ []) with_job none_twice

abbrev letters : List String
letters = "a" ∷ "b" ∷ "c" ∷ []

shuffle-Perm_example : Perm (shuffle (λ n. 0) letters) letters
shuffle-Perm_example = shuffle-Perm (λ n. 0) letters

abbrev parse : String → Result (Unit {0})
parse script = ok tt

no_codes : HasCodes []
no_codes a b l = elim l [ ]

find-find_or_create_example :
    let (answer, rows) = find_or_create find? parse "u1" "51" [] in
    (row : ScriptShortcode) × (answer ≡ ok row)
    × (row.script ≡ "51")
    × HasCodes rows
    × (find find? row.uid rows ≡ ok row)
    × ((other : String) → find_or_create find? parse other "51" rows ≡ (ok row, rows))
find-find_or_create_example =
    find-find_or_create find? find?-IsLookup parse "u1" "51" [] refl no_codes tt
