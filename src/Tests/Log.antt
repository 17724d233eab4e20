-- ===== src/Tests/Log.antt =====
-- The theorems on the logger at two messages.
use cave.Base.{◌≤◌, ◌≡◌, some, List, [], ◌∷◌, ◌++◌, Bytes, length, map, arith}
use cave.Log.{log_all}
use cave.Log.Laws.{log_all-total}

abbrev messages : List Bytes
messages = (1 ∷ []) ∷ (2 ∷ []) ∷ []

log_all-total_example :
    (r : List Bytes) × (log_all (λ m. m) 1 messages (record { written = []; log_queue = some [] })
      ≡ some (record { written = [] ++ map (λ m. m) messages; log_queue = some r }))
    × (length r ≤ 1)
log_all-total_example = log_all-total (λ m. m) 1 messages [] [] (omega arith)
