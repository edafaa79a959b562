-- ===== src/Gdb.antt =====
-- The gdb server, sys161/gdb/gdb_fe.c and sys161/gdb/gdb_be.c: what it calls, and the text of its
-- packets. Text is the list of its bytes; a string of C may have more behind its end, a 0. The
-- messages to the console and the sockets are left out.
pub mod Text
pub mod Frames
pub mod Memory
pub mod Commands
use sys.Base.{ℕ, Bool, List, Option, Outcome}

-- `strtoul s 16` is the C library's `strtoul` in base 16: the number, and what is behind it. The
-- connection takes bytes by `write`; the cpus are reached by the entry points of
-- sys161/include/cpu.h, the fetches giving a `none` and the stores a false where they fail.
pub record GdbPort (W : Type 0) : Type 0 where
  pub strtoul : List ℕ → ℕ × List ℕ
  pub write : List ℕ → W → W
  pub fetch_byte : ℕ → ℕ → W → Option ℕ × W
  pub fetch_word : ℕ → ℕ → W → Option ℕ × W
  pub store_byte : ℕ → ℕ → ℕ → W → Bool × W
  pub store_word : ℕ → ℕ → ℕ → W → Bool × W
  pub getregs : ℕ → W → List ℕ
  pub numcpus : W → ℕ
  pub cpu_enabled : ℕ → W → Bool
  pub set_entrypoint : ℕ → ℕ → W → W
  pub onecycle : W → W
  pub leave_debugger : W → W
  pub reqdie : W → Outcome W
