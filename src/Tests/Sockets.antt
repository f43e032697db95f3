-- ===== src/Tests/Sockets.antt =====
-- Runs of the websocket server.
use boostpow_api.Base.{String, some, false, List, [], ◌∷◌, ◌++◌, ◌≡◌, ◌⊎◌, refl}
use boostpow_api.Base.Tests.{str_eq}
use boostpow_api.Base.Lists.{All, In}
use boostpow_api.Base.Action.{Result, ok}
use boostpow_api.Sockets.{
  chats, elsewhere, route_of, last_segment, Pending, start, connect, close, handle_route,
}
use boostpow_api.Sockets.Events.{emit, job_created, Step, connects, closes, step, run}
use boostpow_api.Sockets.Announced.{relay, told, relay-import_boost_proof}
use boostpow_api.Boost.Store.{WorkRow, Message, spends_output}
use boostpow_api.Boost.Proofs.{import_boost_proof}
use boostpow_api.Tests.Network.{env, proof, find?-IsLookup, stored, with_job}
use boostpow_api.Tests.Boost.{turns, stored-IsSpentJob}
use boostpow_api.Sockets.Broadcast.{audience, messages_for, emit-audience}

abbrev parse : String → Result String
parse s = ok s

abbrev visits : List Step
visits = connects "/websockets/boost" ∷ connects "/websockets/chat" ∷ connects "/" ∷ closes 0 ∷ []

audience-visits : audience (run parse visits start) ≡ 2 ∷ []
unfolding run step connect close handle_route route_of str_eq
audience-visits = refl

channel_of : route_of "/websockets/chat/channels/x" ≡ elsewhere (some "x")
unfolding route_of str_eq last_segment
channel_of = refl

emit-audience_example :
    let s = run parse visits start in
    emit job_created "{}" s
    ≡ record s { sent = s.sent ++ messages_for job_created "{}" (audience s) }
emit-audience_example = emit-audience parse visits job_created "{}"

abbrev left : List Step
left = connects "/websockets/chat" ∷ closes 0 ∷ []

abbrev waiting : Pending
waiting = record { socket = 0; feed = chats }

relay-import_boost_proof_example :
    let (res, w') = import_boost_proof env turns (some proof) (some "0200") with_job in
    let s = run parse visits start in
    (work : WorkRow) × (messages : List Message) × (res ≡ ok (some work))
    × (w'.published ≡ with_job.published ++ messages)
    × ((In work with_job.works × (relay (λ j. "j") (λ w. "w") messages s ≡ s))
        ⊎ (All (λ x. spends_output proof.spent_txid proof.spent_vout x ≡ false) with_job.works
            × (relay (λ j. "j") (λ w. "w") messages s ≡ told (λ j. "j") (λ w. "w") work s)))
relay-import_boost_proof_example =
    relay-import_boost_proof (λ j. "j") (λ w. "w") env turns parse visits find?-IsLookup
      find?-IsLookup proof (some "0200") with_job stored stored-IsSpentJob refl
