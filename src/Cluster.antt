-- ===== src/Cluster.antt =====
-- cluster.go: the state of the Cluster and Emit, the broadcast of one message to every peer.
pub mod Emit
pub mod Sync
pub mod Start
use cave.Base.{
  ℕ, ◌+◌, ◌%◌, ◌^◌, Bool, List, ◌++◌, map, Bytes, Outcome, ret, Exec, ◌>>=◌, then_do, lift,
}
use cave.Types.{Mode, dev, prod, Message, Codec}

-- noise.ID
pub record Peer : Type 0 where
  pub id : Bytes
  pub address : Bytes

-- `node` of types.go: a peer and the time of its last answered ping
pub record Location : Type 0 where
  pub id : Bytes
  pub address : Bytes
  pub distance : ℕ

-- The channels are the events that the components exchange. `address` is what the noise node's
-- Addr gives, a panic where there is no node, and `sent` the sends that were started, in order.
pub record Cluster : Type 0 where
  pub mode : Mode
  pub address : Outcome Bytes
  pub advertise_host : Bytes
  pub epoch : ℕ
  pub peers : List Peer
  pub location_table : List Location
  pub gen_rsa : Bool
  pub sent : List (Bytes × Bytes)

-- c.epoch + 1, on uint64
abbrev pub next_epoch : ℕ → ℕ
next_epoch e = (e + 1) % 2 ^ 64

module _ (messages : Codec Message) where
  broadcast : Message → Exec Cluster (Unit {0})
  broadcast msg = do
    b ← lift (messages.marshal msg)
    λ c. (
      ret tt,
      record c { sent = c.sent ++ map (λ p. (p.address, b)) c.peers; epoch = next_epoch c.epoch },
    )

  emit_in : Mode → Bytes → Bytes → Bytes → Bytes → Exec Cluster (Unit {0})
  emit_in dev typ payload data_type id c = (ret tt, c)
  emit_in prod typ payload data_type id c =
      then_do c.address
        (λ origin. broadcast (record {
          epoch = next_epoch c.epoch;
          id = id;
          typ = typ;
          origin = origin;
          payload = payload;
          data_type = data_type;
        }))
        c

  -- Emit; `id` is the UUID that the message gets
  unfoldable pub emit : Bytes → Bytes → Bytes → Bytes → Exec Cluster (Unit {0})
  unfolding emit_in broadcast
  emit typ payload data_type id c = emit_in c.mode typ payload data_type id c
