-- ===== src/Tests/Network.antt =====
-- A network, a database and a transaction with two boost jobs, for the runs of src/boost.ts.
use boostpow_api.Base.{ℕ, zero, suc, true, false, Option, none, some, List, [], ◌∷◌}
use boostpow_api.Base.Lists.{find?, find?-In, find?-none}
use boostpow_api.Base.Action.{message, Result, ok, err}
use boostpow_api.Boost.Store.{number, JobRow, World}
use boostpow_api.Boost.Network.{Job, Proof, HttpReply, Env, IsLookup}

abbrev pub job : ℕ → Job
job vout = record {
  txid = "aa";
  vout = vout;
  value = 1000;
  difficulty = 2;
  script = "51";
  content = "cc";
  category = "";
  tag = "tag";
  user_nonce = "";
  additional_data = "";
  miner_pub_key_hash = none;
}

abbrev pub two_jobs : List Job
two_jobs = job 0 ∷ job 1 ∷ []

abbrev pub proof : Proof
proof = record { txid = "bb"; vin = 0; spent_txid = "aa"; spent_vout = 0; time = some 7 }

-- Two calls of the network fail, the others succeed.
abbrev reply_at : ℕ → Result HttpReply
reply_at zero = err (message "timeout")
reply_at (suc zero) = ok (record { status = 404; text = "" })
reply_at (suc (suc n)) = ok (record { status = 200; text = "0100" })

abbrev job_of : ℕ → Option Job
job_of zero = some (job 0)
job_of (suc zero) = some (job 1)
job_of _ = none

abbrev pub env : Env
env = record {
  get_hex = λ t txid. reply_at t;
  get_time = λ t txid. ok none;
  broadcast = λ t hex. ok tt;
  publish = λ t. ok tt;
  now = λ t. t;
  amqp_enabled = true;
  outputs_of = λ hex. ok 3;
  hash_of = λ hex. "bb";
  job_at = λ hex index. ok (job_of index);
  job_in = λ hex. ok (some (job 0));
  proof_in = λ hex. ok (some proof);
  divide = λ value difficulty. value;
  find_job = find?;
  find_work = find?;
}

-- The same with no transaction known.
abbrev pub offline : Env
offline = record env { get_hex = λ t txid. err (message "offline") }

pub find?-IsLookup : {R : Type 0} → IsLookup (find? {A = R})
find?-IsLookup = record {
  found = λ p rows e. find?-In p rows e;
  missed = λ p rows e. find?-none p rows e;
}

abbrev pub stored : JobRow
stored = record {
  id = 1;
  txid = "aa";
  vout = 0;
  content = "cc";
  script = "51";
  value = 1000;
  difficulty = 2;
  profitability = 500;
  category = "";
  tag = "tag";
  user_nonce = "";
  additional_data = "";
  miner_pub_key_hash = "";
  tx_hex = some "0100";
  timestamp = number 5;
  spent = false;
  spent_txid = none;
  spent_vout = none;
}

abbrev pub empty : World
empty = record { jobs = []; works = []; next_id = 1; published = []; broadcasts = []; clock = 0 }

abbrev pub with_job : World
with_job = record empty { jobs = stored ∷ []; next_id = 2 }
