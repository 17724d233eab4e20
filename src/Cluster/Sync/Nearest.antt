-- ===== src/Cluster/Sync/Nearest.antt =====
-- cluster.go RequestSharedKey and SyncRequest: which neighbour of its location table a node asks.
use mathlib.Core.List.{Pairwise-singleton, Mem, Perm, Pairwise, mem-cons_self, forall_mem-cons}
use mathlib.Core.List.Perm
use native.Mathlib.Bridge.{le_prop}
use cave.Base.{
  ◌∙◌, ◌≡◌, ◌≢◌, refl, sym, ap, subst, inl, inr, false, List, [], ◌∷◌, ◌++◌, Bytes, codes, length,
  ltb, ◌≤◌, Bool-cases, arith, Outcome, ret, Option, some,
}
use cave.Types.{Message, Codec, prod}
use cave.Cluster.{Cluster, Location}
use cave.Cluster.Sync.{
  Network, sync_message, send_to, send_first, sort_table, request_in, sync_request_in, sync_address,
  send_nearest, request_shared_key, sync_request,
}

abbrev pub Ascending : List Location → Type 0
Ascending = Pairwise (λ (l m : Location). l.distance ≤ m.distance)

-- What sort.Slice with this comparison promises: the same entries, in ascending order.
pub record IsSort (sorted : List Location → List Location) : Type 0 where
  pub same : (ls : List Location) → Perm (sorted ls) ls
  pub ascending : (ls : List Location) → Ascending (sorted ls)

-- The state after a message went to the address of an entry of the table than which none is nearer,
-- and to nobody else.
abbrev pub IsAsked : Network → Bytes → Cluster → Outcome (Unit {0}) × Cluster → Type 0
IsAsked net b c (r, d) =
    (l : Location) × Mem l c.location_table
    × ((m : Location) → Mem m c.location_table → l.distance ≤ m.distance)
    × (r ≡ net.send l.address b)
    × (d.sent ≡ c.sent ++ (l.address, b) ∷ [])

-- The head of an ascending list is a least entry.
head_le :
    (l : Location) (ls : List Location)
    → Ascending (l ∷ ls)
    → (m : Location) → Mem m (l ∷ ls)
    → l.distance ≤ m.distance
head_le l ls (Pairwise.cons h _) =
    (forall_mem-cons (λ (m : Location). le_prop {n = l.distance} {m = m.distance})).1
      (omega arith, h)

short-Ascending : (ls : List Location) → ltb 1 (length ls) ≡ false → Ascending ls
short-Ascending [] h = Pairwise.nil
short-Ascending (l ∷ []) h = Pairwise-singleton _ l
short-Ascending (l ∷ m ∷ ls) h = absurd (ground arith)

module _ (messages : Codec Message) (net : Network) (sort : IsSort net.sorted) where
  -- The table when the message is sent.
  sort_table-Ascending :
      (c : Cluster)
      → Perm (sort_table messages net c).location_table c.location_table
        × Ascending (sort_table messages net c).location_table
        × ((sort_table messages net c).sent ≡ c.sent)
  unfolding sort_table
  sort_table-Ascending c = elim (Bool-cases (ltb 1 (length c.location_table))) [
    | inl e ↦ rw e (sort.same c.location_table, sort.ascending c.location_table, refl)
    | inr e ↦ rw e (Perm.rfl, short-Ascending c.location_table e, refl)
  ]

  send_first-IsAsked :
      (t : List Location) (b : Bytes) (c d : Cluster)
      → Perm t c.location_table
      → Ascending t
      → d.sent ≡ c.sent
      → c.location_table ≢ []
      → IsAsked net b c (send_first messages net t b d)
  unfolding send_first send_to
  send_first-IsAsked [] b c d p asc e h = absurd (h (sym (Perm.nil-eq p)))
  send_first-IsAsked (l ∷ ls) b c d p asc e h = (
    l,
    (Perm.mem_iff p).0 mem-cons_self,
    λ m k. head_le l ls asc m ((Perm.mem_iff p).1 k),
    refl,
    ap (λ s. s ++ (l.address, b) ∷ []) e,
  )

  send_nearest-IsAsked :
      (b : Bytes) (c : Cluster)
      → c.location_table ≢ []
      → IsAsked net b c (send_nearest messages net b c)
  unfolding send_nearest
  send_nearest-IsAsked b c h =
      let (p, asc, e) = sort_table-Ascending c in
      send_first-IsAsked (sort_table messages net c).location_table b c (sort_table messages net c)
        p asc e h

  request_in-nearest :
      (payload data_type id : Bytes) (t : List Location) (c : Cluster) {origin b : Bytes}
      → t ≢ []
      → c.address ≡ ret origin
      → messages.marshal (sync_message payload data_type id origin c) ≡ ret b
      → request_in messages net payload data_type id t c ≡ send_nearest messages net b c
  unfolding request_in
  request_in-nearest payload data_type id [] c h a m = absurd (h refl)
  request_in-nearest payload data_type id (l ∷ ls) c {origin} {b} h a m = simp (a, m)

  request_in-prod :
      (id : Bytes) (c : Cluster)
      → c.mode ≡ prod
      → request_shared_key messages net id c
        ≡ request_in messages net [] (codes "sync:sharedkey") id c.location_table c
  unfolding request_shared_key
  request_in-prod id c p = rw p

  -- In a cluster, a node whose table has an entry sends its request for the shared key, if it encodes,
  -- to one entry of the table than which none is nearer, and to nobody else; what the call returns is
  -- what the send gives.
  pub request_shared_key-IsAsked :
      (id : Bytes) (c : Cluster) {origin b : Bytes}
      → c.mode ≡ prod
      → c.location_table ≢ []
      → c.address ≡ ret origin
      → messages.marshal (sync_message [] (codes "sync:sharedkey") id origin c) ≡ ret b
      → IsAsked net b c (request_shared_key messages net id c)
  request_shared_key-IsAsked id c {origin} {b} p h a m =
      subst (IsAsked net b c)
        (sym (
          request_in-prod id c p
          ∙ request_in-nearest [] (codes "sync:sharedkey") id c.location_table c h a m))
        (send_nearest-IsAsked b c h)

  sync_request_in-nearest :
      (own port id : Bytes) (t : List Location) (c : Cluster) {b : Bytes}
      → t ≢ []
      → c.address ≡ ret own
      → messages.marshal
          (sync_message (sync_address messages net own port) (codes "sync:request") id own c)
        ≡ ret b
      → sync_request_in messages net (sync_address messages net own port) id (some (ret tt)) t c
        ≡ some (send_nearest messages net b c)
  unfolding sync_request_in
  sync_request_in-nearest own port id [] c h a m = absurd (h refl)
  sync_request_in-nearest own port id (l ∷ ls) c {b} h a m = simp (sync_request_in, a, m)

  sync_request-prod :
      (port id : Bytes) (ready : Option (Outcome (Unit {0}))) (c : Cluster) {own : Bytes}
      → c.mode ≡ prod
      → c.address ≡ ret own
      → sync_request messages net port id ready c
        ≡ sync_request_in messages net
            (sync_address messages net own port)
            id
            ready
            c.location_table
            c
  unfolding sync_request
  sync_request-prod port id ready c p a = simp (sync_request, p, a)

  -- In a cluster, a node whose table has an entry, and whose socket for the database is open, sends its
  -- request for the database, if it encodes, to one entry of the table than which none is nearer, and
  -- to nobody else; what the call returns is what the send gives.
  pub sync_request-IsAsked :
      (port id : Bytes) (c : Cluster) {own b : Bytes}
      → c.mode ≡ prod
      → c.location_table ≢ []
      → c.address ≡ ret own
      → messages.marshal
          (sync_message (sync_address messages net own port) (codes "sync:request") id own c)
        ≡ ret b
      → (r : Outcome (Unit {0}) × Cluster) × (sync_request messages net port id (some (ret tt)) c
          ≡ some r)
        × IsAsked net b c r
  sync_request-IsAsked port id c {own} {b} p h a m = (
    send_nearest messages net b c,
    sync_request-prod port id (some (ret tt)) c p a
        ∙ sync_request_in-nearest own port id c.location_table c h a m,
    send_nearest-IsAsked b c h,
  )
