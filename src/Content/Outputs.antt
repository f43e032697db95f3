-- ===== src/Content/Outputs.antt =====
-- src/content.ts: `parseEventOutputs`, `parseBOutputs` and `parseBMAPTransaction`.
use text.Mathlib.Text.{find?}
use boostpow_api.Base.{
  ℕ, ◌+◌, String, Bool, ◌&&◌, ◌||◌, Option, none, some, List, [], ◌∷◌, str_eq, is_some,
  if◌then◌else◌,
}
use boostpow_api.Base.Lists.{cons_option}
use boostpow_api.Base.Action.{type_error, Result, ok, err}
use boostpow_api.Content.{given, or_text, equals, Output, Event, BFile, Bmap, Env}

-- What a callback of `map` gives for an output: undefined is `none`, and an error rejects the whole.
abbrev pub Parsed : Type 0 → Type 0
Parsed A = Result (Option A)

-- `txo.out.map(callback).filter(output => !!output)`, from the output `index` on.
unfoldable pub parse_from :
    {A : Type 0} → (ℕ → Output → Parsed A) → ℕ → List Output → Result (List A)
parse_from callback index [] = ok []
parse_from callback index (output ∷ outputs) = elim (callback index output) [
  | err e ↦ err e
  | ok found ↦ elim (parse_from callback (index + 1) outputs) [
    | err e ↦ err e
    | ok later ↦ ok (cons_option found later)
  ]
]

module _ (env : Env) where
  unfoldable pub is_event_prefix : String → Bool
  is_event_prefix s2 =
      let s = env.trim (env.lower s2) in str_eq s "onchain.sv" || str_eq s "onchain"

  -- The prefix of a signature.
  unfoldable pub is_signed : Output → Bool
  is_signed o =
      equals o.s6 "|"
      && ((equals o.s7 "15PciHG22SNLQJXMoSUaWVi7WSqc7hCfva" || equals o.s7 "AIP")
          && equals o.s8 "BITCOIN_ECDSA")

  -- The author and the signature of a signed event.
  unfoldable pub author_of : Option String → Output → Result (Option (String × String))
  author_of message o =
      if is_signed o
      then elim (given o.s9) [
        | none ↦ ok none
        | some identity ↦ elim (given o.s10) [
          | none ↦ ok none
          | some signature ↦ elim (env.verify message signature identity) [
            | err e ↦ err e
            | ok verified ↦ ok (if verified then some (identity, signature) else none)
          ]
        ]
      ]
      else ok none

  abbrev pub event : String → String → String → Option (String × String) → ℕ → String → Event
  event app type content signed index hash = record {
    app = app;
    type = type;
    content = content;
    author = elim signed [ none ↦ none | some (identity, signature) ↦ some identity ];
    signature = elim signed [ none ↦ none | some (identity, signature) ↦ some signature ];
    tx_index = index;
    txid = hash;
  }

  -- From where `app` and `type` are known.
  unfoldable pub read_event : String → String → String → ℕ → Output → Parsed Event
  read_event hash app type index o =
      let s5 = or_text o.s5 o.ls5 in
      if env.is_json s5
      then elim (env.parse_json s5) [
        | err e ↦ err e
        | ok content ↦ elim (author_of s5 o) [
          | err e ↦ err e
          | ok signed ↦ ok (some (event app type content signed index hash))
        ]
      ]
      else ok none

  -- The callback of `parseEventOutputs`; an undefined `s2` throws.
  unfoldable pub parse_event : String → ℕ → Output → Parsed Event
  parse_event hash index o = elim o.s2 [
    | none ↦ err type_error
    | some s2 ↦
        if is_event_prefix s2
        then elim (given o.s3) [
          | none ↦ ok none
          | some app ↦ elim (given o.s4) [
            | none ↦ ok none
            | some type ↦ read_event hash app type index o
          ]
        ]
        else ok none
  ]

  unfoldable pub parse_event_outputs : String → Result (List Event)
  parse_event_outputs txhex = elim (env.txo_of txhex) [
    | err e ↦ err e
    | ok txo ↦ parse_from (parse_event txo.hash) 0 txo.out
  ]

  unfoldable pub is_b_prefix : String → Bool
  is_b_prefix s2 =
      let s = env.trim s2 in str_eq s "B" || str_eq s "19HxigV4QyBv3tHpQVcUEQyq1pzZVdoAut"

  -- `type.match('image')`
  unfoldable pub is_image : String → Bool
  is_image type = is_some (find? type "image")

  unfoldable pub app_of : Output → Option String
  app_of o =
      if equals o.s7 "1PuQa7K62MiKCtssSLKy1kh56WWU7MtUR5"
        && (equals o.s8 "SET" && equals o.s9 "app")
      then given o.s10
      else none

  -- From where `type` is known; `contents` is what the copy of easy-b finds in the transaction.
  unfoldable pub b_file : String → String → String → ℕ → Output → BFile
  b_file hash type contents index o = record {
    content = if is_image type then some contents else or_text o.s3 o.ls3;
    media_type = type;
    encoding = if is_image type then "base64" else "utf8";
    app = app_of o;
    tx_index = index;
    txid = hash;
  }

  -- The callback of `parseBOutputs`.
  unfoldable pub parse_b : String → String → ℕ → Output → Parsed BFile
  parse_b txhex hash index o = elim o.s2 [
    | none ↦ err type_error
    | some s2 ↦
        if is_b_prefix s2
        then elim (given o.s4) [
          | none ↦ ok none
          | some type ↦ elim (env.b_data txhex) [
            | err e ↦ err e
            | ok contents ↦ ok (some (b_file hash type contents index o))
          ]
        ]
        else ok none
  ]

  unfoldable pub parse_b_outputs : String → Result (List BFile)
  parse_b_outputs txhex = elim (env.txo_of txhex) [
    | err e ↦ err e
    | ok txo ↦ parse_from (parse_b txhex txo.hash) 0 txo.out
  ]

  unfoldable pub parse_bmap_transaction : String → Option Bmap
  parse_bmap_transaction hex = elim (env.transform hex) [ ok bmap ↦ some bmap | err e ↦ none ]
