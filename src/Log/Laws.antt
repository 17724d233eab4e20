-- ===== src/Log/Laws.antt =====
-- What the logger keeps.
use cave.Base.{
  ℕ, ◌≤◌, ◌≡◌, ap, inl, inr, some, List, [], ◌∷◌, ◌++◌, Bytes, length, length-append, ltb, arith,
  Bool-cases, append_assoc, append-nil, map,
}
use cave.Log.{LogState, enqueue, log_one, log_all}

-- The queue for the API is there and holds at most `size` lines.
abbrev pub IsBounded : ℕ → LogState → Type 0
IsBounded size s = (q : List Bytes) × (s.log_queue ≡ some q) × (length q ≤ size)

enqueue-bounded :
    (size : ℕ) (m : Bytes) (q : List Bytes)
    → length q ≤ size
    → (r : List Bytes) × (enqueue size m (some q) ≡ some (some r)) × (length r ≤ size)
unfolding enqueue
enqueue-bounded size m q h = elim (Bool-cases (ltb (length q) size)) [
  | inl e ↦ (q ++ m ∷ [], rw e, rw length-append (ground arith))
  | inr e ↦ (q, rw e, h)
]

module _ (printed : Bytes → Bytes) where
  log_one-bounded :
      (size : ℕ) (m : Bytes) (w q : List Bytes)
      → length q ≤ size
      → (r : List Bytes) × (log_one printed size m (record { written = w; log_queue = some q })
          ≡ some (record { written = w ++ printed m ∷ []; log_queue = some r }))
        × (length r ≤ size)
  unfolding log_one
  log_one-bounded size m w q h = let (r, e, k) = enqueue-bounded size m q h in (r, rw e, k)

  -- With the HTTP logs enabled the rounds of Start never wait for the queue: they print every message,
  -- in order, each as Printf prints it as a format, and the queue stays within the size of the buffer.
  pub log_all-total :
      (size : ℕ) (ms w q : List Bytes)
      → length q ≤ size
      → (r : List Bytes) × (log_all printed size ms (record { written = w; log_queue = some q })
          ≡ some (record { written = w ++ map printed ms; log_queue = some r }))
        × (length r ≤ size)
  unfolding log_all
  log_all-total size [] w q h = (q, rw append-nil, h)
  log_all-total size (m ∷ ms) w q h =
      let (r, e, k) = log_one-bounded size m w q h in
      let (r', e', k') = log_all-total size ms (w ++ printed m ∷ []) r k in
      (
        r',
        rw (e, e')
            (ap (λ (x : List Bytes). some (record { written = x; log_queue = some r' }))
              (append_assoc w (printed m ∷ []) (map printed ms))),
        k',
      )
