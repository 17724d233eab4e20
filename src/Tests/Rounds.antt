-- ===== src/Tests/Rounds.antt =====
-- The theorem on the rounds of token.go Start, from the ninety-seventh on.
use cave.Base.{◌≡◌, refl, false, none, some, [], ◌∷◌, ◌++◌, map, Bytes, if◌then◌else◌, lookup}
use cave.Token.{TokenStore, entries}
use cave.Token.Expiry.{stale_at}
use cave.Token.Rounds.{Idle, idles, rounds}
use cave.Token.Rounds.Cycle.{rounds-cleanup}
use cave.Tests.Nodes.{json}
use cave.Tests.Token.{tokens, both, listing, distinct}

abbrev pub at_sixty : Idle
at_sixty = record { clock = λ k. 60; clock' = λ k. 60; id = 1 ∷ [] }

rounds-cleanup_example :
    (t' : TokenStore) × (rounds tokens json.messages
        (map idles (at_sixty ∷ at_sixty ∷ []) ++ idles at_sixty ∷ [])
        (97, both)
      ≡ some (0, t'))
    × (t'.locked ≡ false)
    × ((k : Bytes)
        → lookup k (entries t'.store)
          ≡ (if stale_at (λ k. 60) (λ k. 60) k (lookup k listing) then none else lookup k listing))
rounds-cleanup_example =
    rounds-cleanup tokens json.messages (at_sixty ∷ at_sixty ∷ []) at_sixty 97 both refl distinct
      refl
