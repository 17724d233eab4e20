-- ===== src/Cluster/Sync.antt =====
-- cluster.go: what a node does on a message (registerHandlers), the requests for the database and
-- the shared key to the nearest neighbour, and the answers to them.
pub mod Laws
pub mod Transfer
pub mod Keys
pub mod Nearest
use cave.Base.{
  ℕ, ◌+◌, Bool, true, false, not, List, [], ◌∷◌, ◌++◌, Bytes, codes, eqb, length, ltb,
  if◌then◌else◌, Option, none, some, Err, message, Outcome, ret, fail, panic, Exec, ◌>>=◌, ◌>>◌,
  then_do, pure, lift, raise,
}
use cave.Path.{split}
use cave.Types.{Mode, dev, prod, Message, Codec}
use cave.Crypto.{AesKey, Ciphers, CryptoCodecs, KeyFile, seal_shared_key}
use cave.Cluster.{Cluster, Location, next_epoch}

-- Go's sort.Slice by distance, which leaves the order of equal distances open, and noise's Send.
pub record Network : Type 0 where
  pub sorted : List Location → List Location
  pub send : Bytes → Bytes → Outcome (Unit {0})

abbrev pub no_peers : Err
no_peers = message (codes "No peers available to sync with")

-- What registerHandlers does with a message: into the channel of updates or of tokens, a goroutine
-- of the cluster, or nothing but a line in the log.
pub data Route : Type 0 where
  to_updates to_tokens : Route
  sync_response send_shared_key handle_shared_key : Route
  ignored unknown_type : Route

abbrev pub sync_route : Bytes → Route
sync_route t =
    if eqb t (codes "sync:request")
    then sync_response
    else if eqb t (codes "sync:sharedkey")
    then send_shared_key
    else if eqb t (codes "sync:sendsharedkey")
    then handle_shared_key
    else ignored

unfoldable pub route : Message → Route
route m =
    if eqb m.typ (codes "update")
    then to_updates
    else if eqb m.typ (codes "sync")
    then sync_route m.data_type
    else if eqb m.typ (codes "token")
    then to_tokens
    else unknown_type

-- The handler on the data of a message; a request of noise's own is answered by nothing.
unfoldable pub handle : Codec Message → Bool → Bytes → Outcome (Option (Route × Message))
handle messages is_request b = if is_request then ret none else elim (messages.unmarshal b) [
  | ret m ↦ ret (some (route m, m))
  | fail e ↦ fail e
  | panic ↦ panic
]

-- A message of the sync protocol.
unfoldable pub sync_message : Bytes → Bytes → Bytes → Bytes → Cluster → Message
sync_message payload data_type id origin c = record {
  epoch = next_epoch c.epoch;
  id = id;
  typ = codes "sync";
  origin = origin;
  payload = payload;
  data_type = data_type;
}

module _ (messages : Codec Message) (net : Network) where
  -- c.node.Send
  unfoldable pub send_to : Bytes → Bytes → Exec Cluster (Unit {0})
  send_to address b c = (net.send address b, record c { sent = c.sent ++ (address, b) ∷ [] })

  -- c.locationTable[0], which panics where there is none
  unfoldable pub send_first : List Location → Bytes → Exec Cluster (Unit {0})
  unfolding send_to
  send_first [] b c = (panic, c)
  send_first (l ∷ ls) b c = send_to l.address b c

  -- The table is sorted in place, from two entries on.
  unfoldable pub sort_table : Cluster → Cluster
  sort_table c =
      if ltb 1 (length c.location_table)
      then record c { location_table = net.sorted c.location_table }
      else c

  unfoldable pub send_nearest : Bytes → Exec Cluster (Unit {0})
  unfolding send_first sort_table
  send_nearest b c = let c' = sort_table c in send_first c'.location_table b c'

  -- RequestSharedKey past the test of the mode
  unfoldable pub request_in : Bytes → Bytes → Bytes → List Location → Exec Cluster (Unit {0})
  unfolding send_nearest
  request_in payload data_type id [] c = (fail no_peers, c)
  request_in payload data_type id (l ∷ ls) c =
      then_do c.address
        (λ origin.
          then_do (messages.marshal (sync_message payload data_type id origin c)) send_nearest)
        c

  unfoldable pub request_shared_key : Bytes → Exec Cluster (Unit {0})
  unfolding request_in
  request_shared_key id c = elim c.mode [
    | dev ↦ (ret tt, c)
    | prod ↦ request_in [] (codes "sync:sharedkey") id c.location_table c
  ]

  -- SyncRequest in a cluster: `ready` is what SyncHandle reports when its socket is open, and `none`
  -- if it ends without a report, for which the call waits for ever.
  unfoldable pub sync_request_in :
      Bytes
      → Bytes
      → Option (Outcome (Unit {0}))
      → List Location
      → Cluster
      → Option (Outcome (Unit {0}) × Cluster)
  unfolding send_nearest
  sync_request_in address id ready [] c = some (fail no_peers, c)
  sync_request_in address id ready (l ∷ ls) c = elim (c.address) [
    | fail e ↦ some (fail e, c)
    | panic ↦ some (panic, c)
    | ret origin ↦
        elim (messages.marshal (sync_message address (codes "sync:request") id origin c)) [
          | fail e ↦ some (fail e, c)
          | panic ↦ some (panic, c)
          | ret b ↦ elim ready [ none ↦ none | some r ↦ some (then_do r (λ _. send_nearest b) c) ]
        ]
  ]

  -- The address of node.ID() is taken to be the one of node.Addr().
  -- fmt.Sprintf("%s:%v", strings.Split(address, ":")[0], port)
  abbrev pub sync_address : Bytes → Bytes → Bytes
  sync_address own port = elim (split 58 own) [ [] ↦ [] | h ∷ r ↦ h ++ (codes ":" ++ port) ]

  -- SyncRequest; `port` is the decimal text of the configured port.
  unfoldable pub sync_request :
      Bytes → Bytes → Option (Outcome (Unit {0})) → Cluster → Option (Outcome (Unit {0}) × Cluster)
  unfolding sync_request_in
  sync_request port id ready c = elim c.mode [
    | dev ↦ some (ret tt, c)
    | prod ↦ elim c.address [
      | ret own ↦ sync_request_in (sync_address own port) id ready c.location_table c
      | fail e ↦ some (fail e, c)
      | panic ↦ some (panic, c)
    ]
  ]

  -- SendSharedKey answers the node a request comes from. The key is Cave's field sharedKey, a pointer.
  unfoldable pub send_shared_key_to :
      Codec (Option AesKey) → Option AesKey → Message → Bytes → Exec Cluster (Unit {0})
  unfolding send_to
  send_shared_key_to keys key msg id c = elim c.mode [
    | dev ↦ (ret tt, c)
    | prod ↦
        then_do (keys.marshal key)
          (λ d. then_do c.address (λ origin.
            then_do (messages.marshal (sync_message d (codes "sync:sendsharedkey") id origin c))
              (λ b. send_to msg.origin b)))
          c
  ]
