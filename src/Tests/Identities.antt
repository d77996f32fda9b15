-- ===== src/Tests/Identities.antt =====
-- A signed prekey at the last second of its validity.
use mef.Prelude.{◌≡◌, replicate}
use mef.Keys.Identity.{from_seed}
use mef.Keys.Prekey.{issue, verify_prekey, verdict, verify_prekey-issue}
use mef.Tests.Toy.{toy, toy-IsSigning}

verify_prekey-issue_example :
    verify_prekey toy
      (issue toy (from_seed toy (replicate 32 1)) 7 (replicate 32 2) 2000)
      (from_seed toy (replicate 32 1)).public
      2000
    ≡ verdict 2000 2000
verify_prekey-issue_example =
    verify_prekey-issue toy (replicate 32 1) 7 (replicate 32 2) 2000 2000 toy-IsSigning
