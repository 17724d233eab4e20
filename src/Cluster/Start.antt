-- ===== src/Cluster/Start.antt =====
-- cluster.go newCluster and Start: how a node joins, and the rounds of its loop. What noise and the
-- clock give in a round is the input of the round. An error that is only logged is left out.
pub mod Laws
use cave.Base.{
  ℕ, suc, ◌≡◌, Bool, true, false, not, ◌&&◌, ◌||◌, ◌==◌, Option, none, some, List, [], ◌∷◌, ◌++◌,
  Bytes, codes, if◌then◌else◌, Err, Outcome, ret, fail, panic, ◌>>?◌, Exec,
}
use cave.Types.{Mode, dev, prod, Message, Codec}
use cave.Cluster.{Peer, Location, Cluster}
use cave.Cluster.Sync.{Network, request_shared_key, sync_request}

-- newCluster; `node` is the address of the node that noise.NewNode makes. In dev mode there is none,
-- and a method of the nil node panics.
unfoldable pub new_cluster : Mode → Bytes → Bytes → Outcome Bytes → Outcome Cluster
new_cluster mode host port node =
    let c : Outcome Bytes → Cluster = λ a. record {
      mode = mode;
      address = a;
      advertise_host = host ++ (codes ":" ++ port);
      epoch = 0;
      peers = [];
      location_table = [];
      gen_rsa = false;
      sent = [];
    } in
    elim mode [ dev ↦ ret (c panic) | prod ↦ node >>? λ a. ret (c (ret a)) ]

-- The local variables of Start, the cluster, and whether main still waits for clusterReady, which is
-- unbuffered and which main receives from once.
pub record Loop : Type 0 where
  pub startup : Bool
  pub first_node : Bool
  pub index : ℕ
  pub main_waits : Bool
  pub cluster : Cluster

-- The pings of the discovery host, in order, until one is answered; a node whose first ping fails
-- counts as the first. `none` is a node that is still waiting.
unfoldable pub wait_for_peer : List Bool → Bool → Option Bool
wait_for_peer [] first = none
wait_for_peer (true ∷ pings) first = some first
wait_for_peer (false ∷ pings) first = wait_for_peer pings true

unfoldable pub enter : Bool → Cluster → Loop
enter first c = record {
  startup = true;
  first_node = first;
  index = 0;
  main_waits = true;
  cluster = c;
}

-- clusterReady <- true: without a receiver the send waits for ever.
unfoldable pub signal : Loop → Option Loop
signal l = if l.main_waits then some (record l { main_waits = false }) else none

-- Start in dev mode: it signals once and returns.
unfoldable pub start_dev : Loop → Option Loop
unfolding signal
start_dev l = signal (record l { cluster = record l.cluster { gen_rsa = true } })

-- What a round reads from outside: the peers that noise discovers, the time in which each answers a
-- ping, the UUIDs of the two requests and what SyncHandle reports. SyncHandle itself signals
-- clusterReady when it ends; that is the constructor `synced` of the steps below.
pub record Round : Type 0 where
  pub discovered : List Peer
  pub ping : Peer → Option ℕ
  pub key_id : Bytes
  pub sync_id : Bytes
  pub port : Bytes
  pub ready : Option (Outcome (Unit {0}))

-- The table of the peers that answered.
unfoldable pub locate : (Peer → Option ℕ) → List Peer → List Location
locate ping [] = []
locate ping (p ∷ ps) =
    let rest = locate ping ps in
    elim (ping p) [
      | none ↦ rest
      | some d ↦ record { id = p.id; address = p.address; distance = d } ∷ rest
    ]

-- c.network.Discover and, every sixty rounds, the location table
unfoldable pub discover : Round → Loop → Loop
unfolding locate
discover x l =
    let c = record l.cluster { peers = x.discovered } in
    if l.index == 60 || l.index == 0
    then record l { index = 0; cluster = record c { location_table = locate x.ping x.discovered } }
    else record l { cluster = c }

module _ (messages : Codec Message) (net : Network) where
  -- The result of SyncRequest: an error goes on with the next round at once, without counting this one.
  after_sync : Loop → Option (Outcome (Unit {0}) × Cluster) → Option Loop
  after_sync l none = none
  after_sync l (some (ret u, c)) =
      some (record l { startup = false; cluster = c; index = suc l.index })
  after_sync l (some (fail e, c)) = some (record l { cluster = c })
  after_sync l (some (panic, c)) = none

  -- The join of a node that is not the first; the error of RequestSharedKey is only logged.
  after_request : Round → Loop → Outcome (Unit {0}) × Cluster → Option Loop
  unfolding after_sync
  after_request x l (panic, c) = none
  after_request x l (ret u, c) = after_sync l (sync_request messages net x.port x.sync_id x.ready c)
  after_request x l (fail e, c) =
      after_sync l (sync_request messages net x.port x.sync_id x.ready c)

  join : Round → Loop → Option Loop
  unfolding after_request
  join x l = after_request x l (request_shared_key messages net x.key_id l.cluster)

  count : Option Loop → Option Loop
  count none = none
  count (some l) = some (record l { index = suc l.index })

  -- The end of a round that does not join.
  settle : Bool → Loop → Option Loop
  unfolding count signal
  settle true l = count (signal (record l { cluster = record l.cluster { gen_rsa = true } }))
  settle false l = count (some l)

  -- A round of the loop; `none` is a loop that goes no further.
  unfoldable pub round : Round → Loop → Option Loop
  unfolding join settle discover
  round x l =
      let l' = discover x l in
      if l'.startup && not l'.first_node then join x l' else settle (l'.startup && l'.first_node) l'

  -- A round, or the signal that SyncHandle sends when it ends.
  pub data Step (l : Loop) : Loop → Type 0 where
    rounds : {m : Loop} (x : Round) → round x l ≡ some m → Step l m
    synced : {m : Loop} → signal l ≡ some m → Step l m

  -- What the loop of a node can come to.
  pub data Reach (first : Bool) (c : Cluster) : Loop → Type 0 where
    here : Reach first c (enter first c)
    next : {l m : Loop} → Reach first c l → Step l m → Reach first c m
