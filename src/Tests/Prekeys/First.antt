-- ===== src/Tests/Prekeys/First.antt =====
-- The first message of a new session, in both directions.
use mef.Prelude.{◌≡◌, refl, arith, codes, replicate}
use mef.Error.{ok}
use mef.Frame.Header.{message}
use mef.Handshake.Authenticated.{AuthenticatedHandshake}
use mef.Handshake.Agreement.{accept}
use mef.Handshake.Service.{perform, history}
use mef.Ratchet.First.{Talks, initiate-Talks}
use mef.Tests.Toy.{toy, toy-IsAead, toy-IsKdf, toy-IsHash, toy-IsDh, toy-IsSigning}
use mef.Tests.Prekeys.{
  bob_keys, bob_keys-IsMaterial, local_of, alice-IsLocal, first_message, alice_result,
  alice-initiates, busy, other_retired,
}

initiate-Talks_example :
    (r : AuthenticatedHandshake) × ((accept toy first_message
        (history (perform toy) busy bob_keys 5).1
        9).0
      ≡ ok r)
    × Talks toy toy-IsAead toy-IsKdf alice_result r message (codes "hello") 30
initiate-Talks_example =
    initiate-Talks toy toy-IsAead toy-IsKdf bob_keys (local_of 9) busy first_message alice_result
      1000 0 2 5 9 30 message (codes "hello") toy-IsHash toy-IsDh toy-IsSigning bob_keys-IsMaterial
      alice-IsLocal other_retired alice-initiates (omega arith) (replicate 24 31, refl, refl)
