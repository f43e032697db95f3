-- ===== src/Tests/Content.antt =====
-- Runs of the content cache, and of the importer's map.
use Prim.Native.String.{◌++◌ as text_append}
use boostpow_api.Base.{
  List, ◌⊎◌, ℕ, zero, suc, String, true, false, none, some, [], ◌∷◌, ◌≡◌, ◌↔◌, refl,
}
use boostpow_api.Base.Tests.{str_eq}
use boostpow_api.Base.Lists.{In, All, find?}
use boostpow_api.Base.Action.{message, ok, err}
use boostpow_api.Boost.Store.{JobRow}
use boostpow_api.Content.{given, or_text, equals, Output, Txo, Event, Row, World, Env, headers}
use boostpow_api.Content.Outputs.{
  parse_from, is_event_prefix, is_signed, author_of, read_event, parse_event, parse_event_outputs,
  parse_b_outputs, parse_b, is_b_prefix, parse_bmap_transaction,
}
use boostpow_api.Content.Parsed.{IsEventOf, parse_event_outputs-IsEventOf}
use boostpow_api.Content.Cache.{
  has_txid, create, set, create_b_file, create_event, create_from, create_from_server, set_bmap,
  first_entry, index_reply, index_chat, read_transaction, find_or_read, index_content, fall_back,
  cache_content,
}
use boostpow_api.Content.Again.{cache_content_again}
use boostpow_api.Importer.{key_of, get_job, load_from_database}
use boostpow_api.Importer.Open.{Change, adds, removes, apply_all, Spare, IsAdded, get_job-apply_all}
use boostpow_api.Tests.Network.{find?-IsLookup, stored}

-- A signed event, and no B file.
abbrev output : Output
output = record {
  s2 = some "onchain";
  s3 = some "app";
  ls3 = none;
  s4 = some "post";
  s5 = some "{}";
  ls5 = none;
  s6 = some "|";
  s7 = some "AIP";
  s8 = some "BITCOIN_ECDSA";
  s9 = some "1A";
  s10 = some "sig";
}

abbrev txo : Txo
txo = record { hash = "aa"; out = output ∷ [] }

abbrev env : Env
env = record {
  fetch = λ txid. ok "0100";
  txo_of = λ hex. ok txo;
  lower = λ s. s;
  trim = λ s. s;
  is_json = λ s. true;
  parse_json = λ s. ok "{}";
  verify = λ message signature identity. ok true;
  b_data = λ hex. err (message "no B file");
  transform = λ hex. ok (record { entries = none });
  video = λ txid. ok none;
  meeting = λ txid. ok none;
  head = λ txid. headers none;
  get_text = λ txid. err (message "offline");
  find_one = find?;
}

abbrev read : Event
read = record {
  app = "app";
  type = "post";
  content = "{}";
  author = some "1A";
  signature = some "sig";
  tx_index = 0;
  txid = "aa";
}

reads_event : parse_event_outputs env "0100" ≡ ok (read ∷ [])
unfolding parse_event_outputs parse_from parse_event is_event_prefix read_event author_of is_signed
    given or_text equals str_eq
reads_event = refl

parse_event_outputs-IsEventOf_example :
    (t : Txo) × (env.txo_of "0100" ≡ ok t) × All (IsEventOf env t) (read ∷ [])
parse_event_outputs-IsEventOf_example =
    parse_event_outputs-IsEventOf env "0100" (read ∷ []) reads_event

abbrev empty : World
empty = record { contents = []; next_id = 1; published = []; channels = [] }

abbrev cached : Row
cached = record {
  id = 1;
  txid = "aa";
  content_type = some "application/json";
  content_json = some "{}";
  content_text = none;
  content_bytes = none;
  map = some ("app", "post");
  bmap = some (record { entries = none });
  context_txid = none;
  bitchat_channel = none;
}

abbrev after : World
after = record empty { contents = cached ∷ []; next_id = 2 }

caches : cache_content env "aa" empty ≡ (ok (cached, false), after)
unfolding cache_content find_or_read read_transaction parse_b_outputs parse_b is_b_prefix
    parse_event_outputs parse_from parse_event is_event_prefix read_event author_of is_signed given
    or_text equals str_eq create_b_file create_event create has_txid parse_bmap_transaction
    fall_back create_from create_from_server index_content set_bmap set index_reply first_entry
    index_chat
caches = refl

cache_content_again_example :
    (row : Row) × In row after.contents
    × (row.txid ≡ "aa")
    × (cache_content env "aa" after ≡ (ok (row, false), after))
cache_content_again_example =
    cache_content_again env find?-IsLookup "aa" empty after (cached, false) caches

abbrev print : ℕ → String
print zero = "0"
print (suc n) = text_append "1" (print n)

abbrev changes : List Change
changes = removes "aa" 0 ∷ adds "bb" 1 ∷ []

get_job-apply_all_example :
    (get_job print "bb" 1 (apply_all print changes (load_from_database print (stored ∷ []))) ≡ true)
    ↔ (IsAdded print (key_of print "bb" 1) changes
        ⊎ (Spare print (key_of print "bb" 1) changes
            × ((row : JobRow) × In row (stored ∷ [])
                × (row.spent ≡ false)
                × (key_of print row.txid row.vout ≡ key_of print "bb" 1))))
get_job-apply_all_example = get_job-apply_all print (stored ∷ []) changes "bb" 1
