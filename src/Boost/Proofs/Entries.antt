-- ===== src/Boost/Proofs/Entries.antt =====
-- src/boost.ts: the imports of a proof, each by itself, keep the rows of the proofs unique.
use boostpow_api.Base.{ℕ, String, Bool, not, Option, some, List, ◌≡◌, true, inl, inr, Bool-cases}
use boostpow_api.Base.Action.{Result-cases, ◌>>◌, when-Keeps, >>=-Keeps, pure, lift, ignore, when}
use boostpow_api.Boost.Store.{World}
use boostpow_api.Boost.Network.{Proof, Env, IsLookup}
use boostpow_api.Boost.Fetch.{fetch, read_proof, get_boost_proof}
use boostpow_api.Boost.Proofs.{
  import_boost_proof, import_boost_proof_by_txid, is_broadcast, broadcast_tx, note_broadcast,
  broadcast_unless_known, read_proof_of, import_boost_proof_from_tx_hex_listener,
}
use boostpow_api.Boost.Proofs.Unique.{
  IsUnique, Unique, KeepsUnique, fetch-works, fetch-KeepsUnique, import_boost_proof-IsUnique,
}

module _ (env : Env) (schedule : List ℕ) where
  module _ (jobs : IsLookup env.find_job) (works : IsLookup env.find_work) where
    import_boost_proof_by_txid-IsUnique :
        (txid : String) → KeepsUnique env schedule (import_boost_proof_by_txid env schedule txid)
    unfolding import_boost_proof_by_txid get_boost_proof read_proof
    import_boost_proof_by_txid-IsUnique txid =
        >>=-Keeps (Unique env schedule) (get_boost_proof env txid)
          (λ found. import_boost_proof env schedule found.0 found.1)
          (>>=-Keeps (Unique env schedule) (fetch env txid) (read_proof env)
            (fetch-KeepsUnique env schedule txid)
            (λ hex.
              >>=-Keeps {B = Option Proof × Option String} (Unique env schedule)
                (lift (env.proof_in hex)) (λ proof. pure (proof, hex)) (λ w h. h) (λ proof w h. h)))
          (λ found. import_boost_proof-IsUnique env schedule jobs works found.0 found.1)

    broadcast_tx-KeepsUnique :
        (txhex : String) → KeepsUnique env schedule (broadcast_tx env schedule txhex)
    unfolding broadcast_tx note_broadcast
    broadcast_tx-KeepsUnique txhex w h = elim (Result-cases (env.broadcast w.clock txhex)) [
      | inl (done, e) ↦ rw (e, broadcast_tx) h
      | inr (x, e) ↦ rw (e, broadcast_tx) h
    ]

    is_broadcast-works :
        (hash : String) (w : World) → (is_broadcast env schedule hash w).1.works ≡ w.works
    unfolding is_broadcast
    is_broadcast-works hash w = elim (Result-cases (fetch env hash w).0) [
      | inl (hex, e) ↦ rw (e, is_broadcast) (fetch-works env schedule hash w)
      | inr (x, e) ↦ rw (e, is_broadcast) (fetch-works env schedule hash w)
    ]

    broadcast_unless_known-KeepsUnique :
        (txhex : String) → KeepsUnique env schedule (broadcast_unless_known env schedule txhex)
    unfolding broadcast_unless_known
    broadcast_unless_known-KeepsUnique txhex w h =
        let same = is_broadcast-works (env.hash_of (some txhex)) w in
        elim (Bool-cases (is_broadcast env schedule (env.hash_of (some txhex)) w).0) [
          | inl e ↦ rw (e, broadcast_unless_known) (rw same h)
          | inr e ↦
              rw (e, broadcast_unless_known)
                (broadcast_tx-KeepsUnique txhex
                  (is_broadcast env schedule (env.hash_of (some txhex)) w).1 (rw same h))
        ]

    pub read_proof_of-KeepsUnique :
        (trusted : Bool) (txhex : String)
        → KeepsUnique env schedule (read_proof_of env schedule trusted txhex)
    unfolding read_proof_of
    read_proof_of-KeepsUnique trusted txhex =
        >>=-Keeps (Unique env schedule) (ignore (lift (env.outputs_of (some txhex))))
          (λ _.
            when (not trusted) (broadcast_unless_known env schedule txhex)
            >> lift (env.proof_in (some txhex)))
          (>>=-Keeps (Unique env schedule) (lift (env.outputs_of (some txhex))) (λ _. pure tt)
            (λ w h. h) (λ n w h. h))
          (λ _.
            >>=-Keeps (Unique env schedule)
              (when (not trusted) (broadcast_unless_known env schedule txhex))
              (λ _. lift (env.proof_in (some txhex)))
              (when-Keeps (Unique env schedule) (not trusted)
                (broadcast_unless_known env schedule txhex)
                (broadcast_unless_known-KeepsUnique txhex))
              (λ _ w h. h))

    listener-KeepsUnique :
        (txhex : String)
        → KeepsUnique env schedule (import_boost_proof_from_tx_hex_listener env schedule txhex)
    unfolding import_boost_proof_from_tx_hex_listener
    listener-KeepsUnique txhex =
        >>=-Keeps (Unique env schedule) (read_proof_of env schedule true txhex)
          (λ proof. import_boost_proof env schedule proof (some txhex))
          (read_proof_of-KeepsUnique true txhex)
          (λ proof. import_boost_proof-IsUnique env schedule jobs works proof (some txhex))

    -- If no output has two recorded works, then none has after an import of a proof that nothing else
    -- runs beside: by the text of a trusted transaction, as the listener calls it, or by a
    -- transaction's id. This holds whatever the network answers, under every schedule of the tasks
    -- that import a missing job, and also where the import is rejected half way. `findOne` is taken to
    -- answer with a row that meets the condition, and with null only where there is none.
    pub imports-IsUnique :
        (txhex txid : String) (w : World)
        → IsUnique w.works
        → IsUnique (import_boost_proof_from_tx_hex_listener env schedule txhex w).1.works
          × IsUnique (import_boost_proof_by_txid env schedule txid w).1.works
    imports-IsUnique txhex txid w h =
        (listener-KeepsUnique txhex w h, import_boost_proof_by_txid-IsUnique txid w h)
