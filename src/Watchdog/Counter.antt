-- ===== src/Watchdog/Counter.antt =====
-- pkg/watchdog.go, WriterCounter: a writer that counts what goes through it.
pub mod Laws
use of_watchdog.Prelude.{Option, none, some, ℕ, ◌+◌}
use of_watchdog.Go.Http.{Error}
use of_watchdog.Executor.Streaming.{IoWriter}

-- The state of the underlying writer, and the number of bytes. (An `int64` that counts the bytes
-- of one response does not reach 2^63.)
pub record WriterCounter (W : Type 0) : Type 0 where
  pub w : W
  pub bytes : ℕ

-- `SetWriter`.
abbrev pub set_writer : {W : Type 0} → W → WriterCounter W
set_writer w = record { w = w; bytes = 0 }

-- What an erroneous write has written is not counted.
abbrev counted :
    {W : Type 0} → WriterCounter W → W × ℕ × Option Error → WriterCounter W × ℕ × Option Error
counted nc (w', n, some e) = (record nc { w = w' }, n, some e)
counted nc (w', n, none) = (record nc { w = w'; bytes = nc.bytes + n }, n, none)

-- `Write`.
unfoldable pub write : {W : Type 0} → IoWriter W → IoWriter (WriterCounter W)
write underlying nc p = counted nc (underlying nc.w p)
