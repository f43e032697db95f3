-- ===== src/Sockets/Announced.antt =====
-- The messages of src/boost.ts that the three actors of src/ws/plugin.ts hand on to the listeners.
use boostpow_api.Base.{
  ℕ, String, true, false, Option, some, List, [], ◌∷◌, ◌++◌, map, ◌≡◌, ◌⊎◌, refl, sym, ◌∙◌, inl,
  inr,
}
use boostpow_api.Base.Lists.{All, In}
use boostpow_api.Base.Action.{Result, ok}
use mathlib.Core.List.{append-nil}
use boostpow_api.Boost.Store.{
  JobRow, WorkRow, Message, job_created, proof_created, job_completed, World, spends_output,
}
use boostpow_api.Boost.Network.{Proof, Env, IsLookup}
use boostpow_api.Boost.Proofs.{import_boost_proof}
use boostpow_api.Boost.Proofs.Recording.{IsSpentJob, announcements}
use boostpow_api.Boost.Proofs.Imports.{import_boost_proof-IsImported}
use boostpow_api.Sockets.{Server, start}
use boostpow_api.Sockets.Events.{Event, Step, emit, run}
use boostpow_api.Sockets.Events as Events
use boostpow_api.Sockets.Broadcast.{audience, sent_to, emit-audience}

-- By the routing keys, an actor takes a new job and a new proof; a completed job has none. `toJSON` of
-- the rows is what the listeners get.
module _ (print_job : JobRow → String) (print_work : WorkRow → String) where
  unfoldable pub hand_on : Message → Server → Server
  hand_on (job_created row) s = emit Events.job_created (print_job row) s
  hand_on (proof_created row) s = emit Events.proof_created (print_work row) s
  hand_on (job_completed job row) s = s

  unfoldable pub relay : List Message → Server → Server
  unfolding hand_on
  relay [] s = s
  relay (m ∷ ms) s = relay ms (hand_on m s)

  -- What the open connections are told of a work.
  abbrev pub told : WorkRow → Server → Server
  told work s = record s {
    sent = s.sent ++ map (sent_to "boostpow.proof.created" (print_work work)) (audience s);
  }

  module _ (env : Env) (schedule : List ℕ) (parse : String → Result String) (xs : List Step) where
    relay-announcements :
        (proof : Proof) (job : JobRow) (work : WorkRow)
        → env.amqp_enabled ≡ true
        → relay (announcements env schedule proof job work) (run parse xs start)
          ≡ told work (run parse xs start)
    unfolding relay hand_on
    relay-announcements proof job work on =
        rw on (emit-audience parse xs Events.proof_created (print_work work))

    -- With the broker enabled, the import of a proof whose job is in the table publishes messages
    -- that, handed on once and in order to a server that was reached by whatever steps, have this
    -- effect: nothing is sent if the proof's output was recorded before; else every open connection
    -- whose URL is none of those of the five other handlers is sent the new work, which the import
    -- answers with, once, and nothing else is sent or changed. `findOne` is taken to answer with a
    -- row that meets the condition, and with null only where there is none.
    pub relay-import_boost_proof :
        (jobs : IsLookup env.find_job) (works : IsLookup env.find_work) (proof : Proof)
        (hex : Option String) (w : World) (r : JobRow)
        → IsSpentJob proof w r
        → env.amqp_enabled ≡ true
        → let (res, w') = import_boost_proof env schedule (some proof) hex w in
          let s = run parse xs start in
          (work : WorkRow) × (messages : List Message) × (res ≡ ok (some work))
          × (w'.published ≡ w.published ++ messages)
          × ((In work w.works × (relay messages s ≡ s))
              ⊎ (All (λ x. spends_output proof.spent_txid proof.spent_vout x ≡ false) w.works
                  × (relay messages s ≡ told work s)))
    unfolding relay
    relay-import_boost_proof jobs works proof hex w r h on =
        let (work, done, stored, spent, change) =
          import_boost_proof-IsImported env schedule jobs works proof hex w r h in
        elim change [
          | inl (there, rows, published) ↦
              (work, [], done, published ∙ sym (append-nil w.published), inl (there, refl))
          | inr (absent, (job, at_job, row, rows, published)) ↦ (
            work,
            announcements env schedule proof job work,
            done,
            published,
            inr (absent, relay-announcements proof job work on),
          )
        ]
