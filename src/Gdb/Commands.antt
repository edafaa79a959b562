-- ===== src/Gdb/Commands.antt =====
-- What each packet does: `debug_exec`.
pub mod Accepted
use sys.Base.{
  ℕ, zero, suc, ◌+◌, ◌-◌, ◌%◌, Bool, true, false, not, ◌&&◌, List, [], ◌∷◌, ◌++◌, Option, none,
  some, drop, take, length, ◌/◌, ltb, ◌==◌, if◌then◌else◌, u32, Outcome, ok, ◌>>=◌,
}
use sys.Base.Ints.{pos, eqb_ℤ, int32, tmod}
use sys.Gdb.{GdbPort}
use sys.Gdb.Text.{
  c_string, hex_digits, hex_width, printbyte, printword, checksum, getthreadid, debug_send,
  debug_notsupp, mkthreadid, buflen,
}
use sys.Gdb.Frames.{memchr}
use sys.Gdb.Memory.{ok_text, memory_order, debug_read_mem, debug_write_mem}

-- "E00" and "E01".
abbrev pub no_cpu_text : List ℕ
no_cpu_text = b'E' ∷ (b'0' ∷ (b'0' ∷ []))

abbrev pub disabled_text : List ℕ
disabled_text = b'E' ∷ (b'0' ∷ (b'1' ∷ []))

-- Equal up to the end of the strings.
abbrev pub same_text : List ℕ → List ℕ → Bool
same_text [] [] = true
same_text [] (y ∷ t) = false
same_text (x ∷ s) [] = false
same_text (x ∷ s) (y ∷ t) = (x == y) && same_text s t

-- What is behind `prefix`, as `strncmp` finds it.
abbrev pub behind : List ℕ → List ℕ → Option (List ℕ)
behind [] s = some s
behind (x ∷ prefix) [] = none
behind (x ∷ prefix) (y ∷ s) = let rest = behind prefix s in if x == y then rest else none

-- "fThreadInfo", "sThreadInfo" and "ThreadExtraInfo,".
abbrev pub thread_info : List ℕ
thread_info =
    b'T' ∷ (b'h' ∷ (b'r' ∷ (b'e' ∷ (b'a' ∷ (b'd' ∷ (b'I' ∷ (b'n' ∷ (b'f' ∷ (b'o' ∷ [])))))))))

abbrev pub extra_info : List ℕ
extra_info =
    (b'T' ∷ (b'h' ∷ (b'r' ∷ (b'e' ∷ (b'a' ∷ (b'd' ∷ []))))))
    ++ ((b'E' ∷ (b'x' ∷ (b't' ∷ (b'r' ∷ (b'a' ∷ [])))))
        ++ (b'I' ∷ (b'n' ∷ (b'f' ∷ (b'o' ∷ (b',' ∷ []))))))

-- The decimal digits of a number, for "%u", with room for `n` of them.
unfoldable pub decimal : ℕ → ℕ → List ℕ
decimal zero v = []
decimal (suc n) v =
    let rest = decimal n (v / 10) in if ltb v 10 then (48 + v) ∷ [] else rest ++ (48 + v % 10) ∷ []

-- "%x" of a word.
abbrev pub hex_text : ℕ → List ℕ
hex_text v = if ltb v 16 then hex_digits 1 v else hex_digits (hex_width v) v

module _ {W : Type 0} (port : GdbPort W) (big : Bool) where
  open port use {
    strtoul, getregs, numcpus, cpu_enabled, set_entrypoint, onecycle, leave_debugger, reqdie,
  }

  -- "T05thread:%x;"
  unfoldable pub debug_send_stopinfo : ℕ → W → W
  unfolding debug_send
  debug_send_stopinfo debug_cpu w =
      debug_send port
        ((b'T' ∷ (b'0' ∷ (b'5' ∷ [])))
          ++ ((b't' ∷ (b'h' ∷ (b'r' ∷ (b'e' ∷ (b'a' ∷ (b'd' ∷ (b':' ∷ [])))))))
              ++ (hex_text (u32 (mkthreadid debug_cpu)) ++ (b';' ∷ []))))
        w

  -- `debug_register_print`, from the registers that are left.
  unfoldable pub print_registers : List ℕ → List ℕ → List ℕ
  unfolding printword
  print_registers [] buf = buf
  print_registers (r ∷ rest) buf = print_registers rest (printword buflen (memory_order big r) buf)

  unfoldable pub debug_register_print : ℕ → W → W
  unfolding print_registers debug_send
  debug_register_print debug_cpu w = debug_send port (print_registers (getregs debug_cpu w) []) w

  unfoldable pub debug_restart : ℕ → List ℕ → W → W
  debug_restart debug_cpu addr w = elim (c_string addr) [
    | [] ↦ w
    | c ∷ s ↦ set_entrypoint debug_cpu (u32 (strtoul addr).0) w
  ]

  unfoldable pub debug_checkthread : List ℕ → W → W
  unfolding getthreadid debug_send
  debug_checkthread threadid w =
      let cpunum = getthreadid port threadid in
      debug_send port
        (if not (ltb cpunum (numcpus w))
          then no_cpu_text
          else if not (cpu_enabled cpunum w)
          then disabled_text
          else ok_text)
        w

  -- The bytes of a text in hexadecimal, into a buffer of 256 bytes.
  unfoldable pub hex_coded : List ℕ → List ℕ → List ℕ
  unfolding printbyte
  hex_coded [] buf = buf
  hex_coded (c ∷ s) buf = hex_coded s (printbyte 256 c buf)

  unfoldable pub debug_getthreadinfo : List ℕ → W → W
  unfolding getthreadid debug_send hex_coded decimal
  debug_getthreadinfo threadid w =
      let cpunum = getthreadid port threadid in
      debug_send port
        (if not (ltb cpunum (numcpus w))
          then no_cpu_text
          else hex_coded ((b'C' ∷ (b'P' ∷ (b'U' ∷ (b' ' ∷ [])))) ++ decimal 10 cpunum) [])
        w

  -- The list of the threads, from cpu `i` on, with `left` cpus to go.
  unfoldable pub thread_list : ℕ → ℕ → List ℕ → W → List ℕ
  unfolding printbyte
  thread_list zero i buf w = buf
  thread_list (suc left) i buf w =
      let buf' = if ltb 0 i then buf ++ (b',' ∷ []) else buf in
      thread_list left (i + 1) (if cpu_enabled i w then printbyte 128 (mkthreadid i) buf' else buf)
        w

  -- The packets that begin with `H`.
  unfoldable pub set_thread : List ℕ → ℕ × W → ℕ × W
  unfolding debug_send debug_notsupp getthreadid
  set_thread [] (debug_cpu, w) = (debug_cpu, debug_send port ok_text w)
  set_thread (kind ∷ args) (debug_cpu, w) =
      let cpunum = getthreadid port args in
      if kind == b'c'
      then (debug_cpu, debug_notsupp port w)
      else if kind == b'g'
      then if ltb cpunum (numcpus w)
        then (cpunum, debug_send port ok_text w)
        else (debug_cpu, debug_send port no_cpu_text w)
      else (debug_cpu, debug_send port ok_text w)

  -- The queries, which begin with `q`.
  unfoldable pub query : List ℕ → ℕ → W → W
  unfolding debug_send debug_notsupp thread_list debug_getthreadinfo
  query args debug_cpu w =
      let name = c_string args in
      if same_text name (b'C' ∷ [])
      then debug_send port ((b'Q' ∷ (b'C' ∷ [])) ++ hex_text (u32 (mkthreadid debug_cpu))) w
      else if same_text name (b'f' ∷ thread_info)
      then debug_send port (thread_list (numcpus w) 0 (b'm' ∷ []) w) w
      else if same_text name (b's' ∷ thread_info)
      then debug_send port (b'l' ∷ []) w
      else elim (behind extra_info args) [
        | none ↦ debug_notsupp port w
        | some threadid ↦ debug_getthreadinfo threadid w
      ]

  -- The switch of `debug_exec`, on the character behind the `$`; `args` is what follows it.
  unfoldable pub run_command : ℕ → List ℕ → ℕ × W → Outcome (ℕ × W)
  unfolding debug_send debug_notsupp debug_send_stopinfo debug_restart debug_register_print
      set_thread debug_read_mem debug_write_mem query debug_checkthread
  run_command command args (debug_cpu, w) =
      if command == b'?'
      then ok (debug_cpu, debug_send_stopinfo debug_cpu w)
      else if command == b'c'
      then ok (debug_cpu, leave_debugger (debug_restart debug_cpu args w))
      else if command == b'D'
      then ok (debug_cpu, leave_debugger (debug_send port ok_text w))
      else if command == b'g'
      then ok (debug_cpu, debug_register_print debug_cpu w)
      else if command == b'H'
      then ok (set_thread args (debug_cpu, w))
      else if command == b'k'
      then (reqdie w >>= λ w'. ok (debug_cpu, w'))
      else if command == b'm'
      then ok (debug_cpu, debug_read_mem port big debug_cpu args w)
      else if command == b'M'
      then ok (debug_cpu, debug_write_mem port big debug_cpu args w)
      else if command == b'q'
      then ok (debug_cpu, query args debug_cpu w)
      else if command == b'R'
      then ok (debug_cpu, w)
      else if command == b's'
      then ok (debug_cpu, debug_send_stopinfo debug_cpu (onecycle (debug_restart debug_cpu args w)))
      else if command == b'T'
      then ok (debug_cpu, debug_checkthread args w)
      else ok (debug_cpu, debug_notsupp port w)

  -- The part of the packet in front of `hash`, with the 0 that is put in the place of the `#`.
  abbrev pub cut_at : List ℕ → List ℕ → List ℕ
  cut_at body hash = take (length (c_string body) - length hash) body

  -- `debug_exec` behind the `$`: the checksum, the answer to it, and the command. The arguments have
  -- the 0 and the digits of the checksum behind them.
  unfoldable pub exec_body : List ℕ → List ℕ → ℕ × W → Outcome (ℕ × W)
  unfolding run_command checksum
  exec_body body digits (debug_cpu, w) =
      let scheck = int32 (u32 (strtoul digits).0) in
      if not (eqb_ℤ scheck (tmod (checksum body) (pos 256)))
      then ok (debug_cpu, port.write (b'-' ∷ []) w)
      else elim (body ++ (0 ∷ digits)) [
        | [] ↦ ok (debug_cpu, w)
        | command ∷ args ↦ run_command command args (debug_cpu, port.write (b'+' ∷ []) w)
      ]

  unfoldable pub debug_exec : List ℕ → ℕ × W → Outcome (ℕ × W)
  unfolding exec_body memchr
  debug_exec [] s = ok s
  debug_exec (c ∷ body) s =
      if c == b'$'
      then elim (memchr b'#' (c_string body)) [
        | none ↦ ok s
        | some hash ↦ exec_body (cut_at body hash) (drop 1 hash) s
      ]
      else ok s
