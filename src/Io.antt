-- ===== src/Io.antt =====
-- `std::io`: the kinds of error that the code tells apart.
use memoryd.Prelude.{Bool, true, false}

pub data IoError : Type 0 where
  would_block : IoError
  timed_out : IoError
  interrupted : IoError
  other : IoError

abbrev pub is_interrupted : IoError → Bool
is_interrupted interrupted = true
is_interrupted _ = false
