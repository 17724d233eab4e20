-- ===== src/Types.antt =====
-- The records of types.go and kv.go that travel between the components, and the codecs that
-- encoding/json gives for them.
use cave.Base.{ℕ, ◌≡◌, Bool, false, List, [], Bytes, Outcome, ret}

-- A `time.Time` is its wall clock reading. `a.Sub(b)` is only compared with 0, and its sign is
-- that of the exact difference also where the Duration saturates.
abbrev pub Time : Type 0
Time = ℕ

pub record Lock : Type 0 where
  pub key : Bytes
  pub prefix : Bytes
  pub lock_id : Bytes
  pub node_id : Bytes
  pub node_address : Bytes
  pub claim_time : Time
  pub expire_time : Time

pub record KvObject : Type 0 where
  pub last_updated : Time
  pub secret : Bool
  pub value : Bytes
  pub locks : List Lock
  pub plaintext : Bool

-- KVObject{}
abbrev pub zero_object : KvObject
zero_object = record { last_updated = 0; secret = false; value = []; locks = []; plaintext = false }

pub record KvUpdate : Type 0 where
  pub update_type : Bytes
  pub key : Bytes
  pub value : KvObject

pub record Message : Type 0 where
  pub epoch : ℕ
  pub id : Bytes
  pub typ : Bytes
  pub origin : Bytes
  pub payload : Bytes
  pub data_type : Bytes

-- Config.Mode: getConfig lets only these two through.
pub data Mode : Type 0 where
  dev prod : Mode

-- json.Marshal and json.Unmarshal at one type
pub record Codec (A : Type 0) : Type 0 where
  pub marshal : A → Outcome Bytes
  pub unmarshal : Bytes → Outcome A

-- The value survives the trip through its encoding.
abbrev pub ReadsBack : {A : Type 0} → Codec A → A → Type 0
ReadsBack c a = (b : Bytes) → c.marshal a ≡ ret b → c.unmarshal b ≡ ret a
