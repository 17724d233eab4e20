-- ===== src/Log.antt =====
-- log.go: the queues of the logger, and api.go routeLogs, which empties one of them. The text of a
-- line is built by fmt and is an argument.
pub mod Laws
pub mod Ends
use cave.Base.{
  ℕ, Bool, true, false, not, ◌&&◌, Option, none, some, List, [], ◌∷◌, ◌++◌, Bytes, eqb, length,
  codes, take, drop, ltb, if◌then◌else◌,
}

-- The lines on the standard output and the queue for the API, which is the nil channel if the HTTP
-- logs are disabled.
pub record LogState : Type 0 where
  pub written : List Bytes
  pub log_queue : Option (List Bytes)

abbrev pub with_queue : List Bytes → Option (Option (List Bytes)) → Option LogState
with_queue w none = none
with_queue w (some q) = some (record { written = w; log_queue = q })

-- if len(l.logQueue) < size { l.logQueue <- m }: a send to the nil channel waits for ever, `none`.
unfoldable pub enqueue : ℕ → Bytes → Option (List Bytes) → Option (Option (List Bytes))
enqueue size m none = if ltb 0 size then none else some none
enqueue size m (some q) = if ltb (length q) size then some (some (q ++ m ∷ [])) else some (some q)

abbrev pub and_log : Option LogState → (LogState → Option LogState) → Option LogState
and_log none f = none
and_log (some s) f = f s

-- `printed` is what fmt.Printf writes when its format is the message and there are no arguments.
module _ (printed : Bytes → Bytes) where
  -- One round of Start that reads a message.
  unfoldable pub log_one : ℕ → Bytes → LogState → Option LogState
  unfolding enqueue
  log_one size m s = with_queue (s.written ++ printed m ∷ []) (enqueue size m s.log_queue)

  -- The rounds of Start on the messages of the channel, in order.
  unfoldable pub log_all : ℕ → List Bytes → LogState → Option LogState
  unfolding log_one
  log_all size [] s = some s
  log_all size (m ∷ ms) s = and_log (log_one size m s) (log_all size ms)

-- What Start still prints after the termination signal: `range` takes a message, and the body
-- another.
unfoldable pub last_lines : (Bytes → Bytes) → List Bytes → List Bytes
last_lines printed [] = []
last_lines printed (m ∷ []) = []
last_lines printed (m ∷ n ∷ ms) = printed n ∷ last_lines printed ms

-- The levels whose methods print and return. Debug is printed only if the environment has DEBUG.
pub data Level : Type 0 where
  debug info warn error : Level

abbrev pub level_name : Level → Bytes
level_name debug = codes "DEBUG"
level_name info = codes "INFO"
level_name warn = codes "WARN"
level_name error = codes "ERROR"

abbrev pub is_printed : Bool → Level → Bool
is_printed debug_on debug = debug_on
is_printed debug_on _ = true

abbrev pub source_name : Option Bytes → Bytes
source_name none = codes "MAIN"
source_name (some s) = s

-- print: a send to the full channel waits, `none`. `format` is fmt.Sprintf at the format of a line.
unfoldable pub print :
    (Bytes → Bytes → Bytes → Bytes → Bytes)
    → ℕ
    → Bytes
    → Bytes
    → Option Bytes
    → Bytes
    → List Bytes
    → Option (List Bytes)
print format size stamp lvl src msg c =
    if ltb (length c) size then some (c ++ format stamp lvl (source_name src) msg ∷ []) else none

-- Debug, Info, Warn and Error, and their variants that format the message themselves.
unfoldable pub log_at :
    (Bytes → Bytes → Bytes → Bytes → Bytes)
    → ℕ
    → Bool
    → Bytes
    → Level
    → Option Bytes
    → Bytes
    → List Bytes
    → Option (List Bytes)
unfolding print
log_at format size debug_on stamp level src msg c =
    if is_printed debug_on level
    then print format size stamp (level_name level) src msg c
    else some c

-- New: the queues are empty, and the one for the API is there if it is enabled.
unfoldable pub new_log : Bool → LogState
new_log http_logs = record { written = []; log_queue = if http_logs then some [] else none }

-- routeLogs: at most 101 lines, and the queue that is left. The `break` leaves only the select.
unfoldable pub route_logs : Option (List Bytes) → List Bytes × Option (List Bytes)
route_logs none = ([], none)
route_logs (some q) = (take 101 q, some (drop 101 q))

-- Whether the middleware logs a request with this URI.
unfoldable pub is_logged : List Bytes → Bytes → Bool
is_logged [] uri = true
is_logged (s ∷ skip) uri = not (eqb s uri) && is_logged skip uri
