-- ===== src/Plugins/Processes.antt =====
-- plugins.go Start and Logger: what they log of the plugin processes. The manager libsubrpc gives its
-- errors and the lines of its buffers.
use cave.Base.{Bool, Option, none, some, List, [], ◌∷◌, ◌++◌, Bytes, eqb, if◌then◌else◌, map}
use cave.Log.{Level, debug, warn, error}

-- A call of the logger, with the source PLUGIN.
abbrev pub Line : Type 0
Line = Level × Bytes

-- The errors of StartAllProcess, all of them.
abbrev pub start_lines : List Bytes → List Line
start_lines errs = map (λ e. (error, e)) errs

-- The errors of StopAll: the loop returns after the first.
abbrev pub stop_lines : List Bytes → List Line
stop_lines [] = []
stop_lines (e ∷ errs) = (error, e) ∷ []

-- What Start logs, from its start to its termination.
unfoldable pub start_all : List Bytes → List Bytes → List Line
start_all start_errors stop_errors = start_lines start_errors ++ stop_lines stop_errors

-- What ReadString gives: the text up to the end of a line, which may be cut, and the error with its
-- text; `at_eof` is whether it is io.EOF.
pub record Read : Type 0 where
  pub text : Bytes
  pub failed : Option Bytes
  pub at_eof : Bool

abbrev pub error_lines : Option Bytes → Bool → List Line
error_lines none at_eof = []
error_lines (some e) at_eof = if at_eof then [] else (error, e) ∷ []

abbrev pub text_lines : Level → Bytes → List Line
text_lines level t = if eqb t [] then [] else (level, t) ∷ []

abbrev pub read_lines : Level → Read → List Line
read_lines level r = error_lines r.failed r.at_eof ++ text_lines level r.text

-- A tick of Logger: one line of the output, and one of the error output.
unfoldable pub log_tick : Read → Read → List Line
log_tick out err = read_lines debug out ++ read_lines warn err

-- The ticks of Logger.
unfoldable pub log_ticks : List (Read × Read) → List Line
unfolding log_tick
log_ticks [] = []
log_ticks ((out, err) ∷ rs) = log_tick out err ++ log_ticks rs
