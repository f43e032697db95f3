-- ===== src/Content.antt =====
-- src/content.ts: the rows of the table Contents, the outputs that are read from a transaction, and
-- what is called and not implemented there.
pub mod Outputs
pub mod Cache
pub mod Parsed
pub mod Held
pub mod Again
use boostpow_api.Base.{ℕ, String, Bool, Option, none, some, List, str_eq, if◌then◌else◌}
use boostpow_api.Base.Action.{Result, Action}

-- `if (text)` on a text that may be undefined: the text, if it is not empty.
unfoldable pub given : Option String → Option String
given none = none
given (some s) = if str_eq s "" then none else some s

-- `a || b` on texts that may be undefined, where only the truth of the result is used later.
unfoldable pub or_text : Option String → Option String → Option String
or_text none b = b
or_text (some s) b = if str_eq s "" then b else some s

-- `text === constant`
unfoldable pub equals : Option String → String → Bool
equals none t = Bool.false
equals (some s) t = str_eq s t

-- The cells of an output that are read, as the package txo gives them.
pub record Output : Type 0 where
  pub s2 : Option String
  pub s3 : Option String
  pub ls3 : Option String
  pub s4 : Option String
  pub s5 : Option String
  pub ls5 : Option String
  pub s6 : Option String
  pub s7 : Option String
  pub s8 : Option String
  pub s9 : Option String
  pub s10 : Option String

-- `txo.tx.h` and `txo.out`.
pub record Txo : Type 0 where
  pub hash : String
  pub out : List Output

-- An event; JSON is held as its text.
pub record Event : Type 0 where
  pub app : String
  pub type : String
  pub content : String
  pub author : Option String
  pub signature : Option String
  pub tx_index : ℕ
  pub txid : String

pub record BFile : Type 0 where
  pub content : Option String
  pub media_type : String
  pub encoding : String
  pub app : Option String
  pub tx_index : ℕ
  pub txid : String

-- An element of `bmap.MAP`.
pub record MapEntry : Type 0 where
  pub type : Option String
  pub context : Option String
  pub tx : Option String
  pub channel : Option String
  pub paymail : Option String

-- What bmapjs makes of a transaction; `MAP` may be undefined.
pub record Bmap : Type 0 where
  pub entries : Option (List MapEntry)

pub record Row : Type 0 where
  pub id : ℕ
  pub txid : String
  pub content_type : Option String
  pub content_json : Option String
  pub content_text : Option String
  pub content_bytes : Option String
  pub map : Option (String × String)
  pub bmap : Option Bmap
  pub context_txid : Option String
  pub bitchat_channel : Option String

-- A row of ChatChannels: the last message, and the row whose time of creation it takes.
pub record Channel : Type 0 where
  pub channel : String
  pub last_message : Option Bmap
  pub last_message_of : Option ℕ

pub data Message : Type 0 where
  channel_message : Option String → Row → Message
  chat_message : Row → Message
  player_message : String → Row → Message

pub record World : Type 0 where
  pub contents : List Row
  pub next_id : ℕ
  pub published : List Message
  pub channels : List Channel

-- The reply to a request for headers; an error has a response or has none.
pub data Head : Type 0 where
  headers : Option String → Head
  failed : Bool → Head

pub record Env : Type 0 where
  pub fetch : String → Result String
  pub txo_of : String → Result Txo
  pub lower : String → String
  pub trim : String → String
  pub is_json : Option String → Bool
  pub parse_json : Option String → Result String
  pub verify : Option String → String → String → Result Bool
  pub b_data : String → Result String
  pub transform : String → Result Bmap
  pub video : String → Result (Option String)
  pub meeting : String → Result (Option String)
  pub head : String → Head
  pub get_text : String → Result String
  pub find_one : (Row → Bool) → List Row → Option Row

abbrev pub ContentAction : Type 0 → Type 0
ContentAction A = Action World A
