-- ===== src/Shortcodes.antt =====
-- src/script_shortcodes.ts.
pub mod RoundTrip
use Prim.Native.String.{◌++◌ as text_append}
use boostpow_api.Base.{
  ℕ, String, Bool, Option, none, some, List, [], ◌∷◌, ◌++◌, str_eq, if◌then◌else◌,
}
use boostpow_api.Base.Action.{Result, ok, err, message}

-- A row of the table, and what the functions return of it.
pub record ScriptShortcode : Type 0 where
  pub script : String
  pub uid : String

abbrev pub has_script : String → ScriptShortcode → Bool
has_script script row = str_eq row.script script

abbrev pub has_uid : String → ScriptShortcode → Bool
has_uid uid row = str_eq row.uid uid

-- `find_one` is the database's choice of a row, `from_hex` the package's parser of scripts.
module _ (find_one : (ScriptShortcode → Bool) → List ScriptShortcode → Option ScriptShortcode) where
  -- `uid` is what `v4` gives.
  unfoldable pub find_or_create :
      (from_hex : String → Result (Unit {0})) (uid script : String)
      → List ScriptShortcode
      → Result ScriptShortcode × List ScriptShortcode
  find_or_create from_hex uid script rows = elim (from_hex script) [
    | err e ↦ (err e, rows)
    | ok _ ↦ elim (find_one (has_script script) rows) [
      | some record' ↦ (ok record', rows)
      | none ↦ (
        ok (record { script = script; uid = uid }),
        rows ++ record { script = script; uid = uid } ∷ [],
      )
    ]
  ]

  unfoldable pub find : String → List ScriptShortcode → Result ScriptShortcode
  find uid rows = elim (find_one (has_uid uid) rows) [
    | none ↦ err (message (text_append "script short code " (text_append uid " not found")))
    | some record' ↦ ok record'
  ]
