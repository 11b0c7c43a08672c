-- ===== src/Process/Blocks.antt =====
-- Where the control blocks stand: one per process, found from any stack pointer into its stack.
use ece_391_fall.Prelude.{ℕ, ◌+◌, ◌-◌, ◌*◌, ◌^◌, ◌<◌, ◌≤◌, ◌≡◌, ap, arith, sub32, slt_zero}
use ece_391_fall.Process.{kernel_bottom_addr, get_pcb_ptr, get_pid, get_cur_pcb_ptr}

-- The size of `pcb`: eight descriptors of 28 bytes, five words, the arguments and five signals.
abbrev pub pcb_size : ℕ
pcb_size = 8 * 28 + 5 * 4 + 128 + 5 * 12

-- The control blocks of two of the six processes do not overlap, and each stands at the low end of
-- its own 8 KB block.
pub get_pcb_ptr-disjoint :
    (p q : ℕ)
    → p < q
    → q < 6
    → (get_pcb_ptr q + pcb_size ≤ get_pcb_ptr p)
      × (get_pcb_ptr p + 0x2000 ≡ kernel_bottom_addr - p * 0x2000)
unfolding get_pcb_ptr
get_pcb_ptr-disjoint p q h h' = (omega arith, omega arith)

get_pid_lem :
    (pid esp : ℕ)
    → pid < 6
    → get_pcb_ptr pid + pcb_size ≤ esp
    → esp + pid * 0x2000 + 4 ≤ kernel_bottom_addr
    → get_pid esp ≡ pid
unfolding get_pcb_ptr get_pid
get_pid_lem pid esp h low high =
    let bound : sub32 kernel_bottom_addr esp < 2 ^ 31 = omega arith in
    rw (slt_zero (sub32 kernel_bottom_addr esp) bound, get_pid) (omega arith)

-- For every stack pointer that an entry into the kernel leaves on the stack of process `pid`, below its
-- `esp0` and above its control block, get_pid returns `pid` and get_cur_pcb_ptr its block.
pub get_cur_pcb_ptr_lem :
    (pid esp : ℕ)
    → pid < 6
    → get_pcb_ptr pid + pcb_size ≤ esp
    → esp + pid * 0x2000 + 4 ≤ kernel_bottom_addr
    → (get_pid esp ≡ pid) × (get_cur_pcb_ptr esp ≡ get_pcb_ptr pid)
unfolding get_cur_pcb_ptr
get_cur_pcb_ptr_lem pid esp h low high =
    let own = get_pid_lem pid esp h low high in (own, ap get_pcb_ptr own)
