-- ===== src/Tests/Start.antt =====
-- The theorems on cluster.go Start at concrete rounds.
use cave.Base.{◌≡◌, ◌≤◌, refl, true, false, none, some, [], ◌∷◌, ret, codes}
use cave.Types.{prod}
use cave.Cluster.Sync.{Network}
use cave.Cluster.Start.{Loop, Round, round, enter, discover, locate, signal, here, next, rounds}
use cave.Cluster.Start.Laws.{index-le, round-stuck}
use cave.Tests.Nodes.{cluster_of, json}

abbrev net : Network
net = record { sorted = λ l. l; send = λ a b. ret tt }

abbrev quiet : Round
quiet = record {
  discovered = record { id = 0 ∷ []; address = codes "you:1" } ∷ [];
  ping = λ p. some 4;
  key_id = 1 ∷ [];
  sync_id = 2 ∷ [];
  port = codes "1999";
  ready = none;
}

abbrev after_first : Loop
after_first = record {
  startup = true;
  first_node = true;
  index = 1;
  main_waits = false;
  cluster = record (cluster_of prod) {
    gen_rsa = true;
    location_table = record { id = 0 ∷ []; address = codes "you:1"; distance = 4 } ∷ [];
  };
}

first_round : round json.messages net quiet (enter true (cluster_of prod)) ≡ some after_first
unfolding round enter discover locate signal
first_round = refl

index-le_example : after_first.index ≤ 60
index-le_example = index-le json.messages net (next here (rounds quiet first_round))

round-stuck_example : round json.messages net quiet after_first ≡ none
round-stuck_example = round-stuck json.messages net quiet quiet (cluster_of prod) first_round
