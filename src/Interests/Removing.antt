-- ===== src/Interests/Removing.antt =====
-- src/personal_interests/index.ts: a removal that is asked for again.
use Prim.Native.String.{◌++◌ as text_append}
use Prim.Native.String.append
use Prim.Native.Char.{Char}
use boostpow_api.Base.{String, Bool, true, false, none, some, List, [], ◌∷◌, ◌≡◌}
use boostpow_api.Base.Lists.{In}
use boostpow_api.Base.Action.{Error, Result, ok, err}
use boostpow_api.Boost.Network.{IsLookup}
use boostpow_api.Interests.{
  Interest, Spend, Env, World, undefined_fields, spend_found, is_given, removal_of,
}

-- At most one row has the location.
abbrev pub OneRow : String → List Interest → Type 0
OneRow location rows =
    (x y : Interest) → In x rows → In y rows → x.location ≡ location → y.location ≡ location → x ≡ y

is_nil : String → Bool
is_nil String.[] = true
is_nil (String.◌∷◌ c s) = false

module _ (env : Env) (lookup : IsLookup env.find_one) (location : String) where
  -- The row of the location, the only one, is removed.
  record IsRemoved (row : Interest) (w : World) : Type 0 where
    there : In row w.interests
    here : row.location ≡ location
    done : is_given row.removal_location ≡ true
    one : OneRow location w.interests

  -- What is found for a row: nothing is searched, a spend, no spend, or an error.
  data Found (r : Interest) : Type 0 where
    before :
        is_given r.removal_location ≡ true
        → removal_of env location (some r) ≡ ok (r, undefined_fields)
        → Found r
    spent :
        (spend : Spend)
        → removal_of env location (some r) ≡ ok (r, spend_found (some spend))
        → Found r
    unspent : removal_of env location (some r) ≡ ok (r, spend_found none) → Found r
    failed : (e : Error) → removal_of env location (some r) ≡ err e → Found r

  -- An answer is a row that is removed; nothing is said of an error.
  Leaves : Result Interest × World → Type 0
  Leaves (ok row, w) = IsRemoved row w
  Leaves (err e, w) = Unit
