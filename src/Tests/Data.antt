-- ===== src/Tests/Data.antt =====
-- Buffers and a kernel for the tests.
use tp_so.Base.{
  ℕ, suc, ap, ◌*◌, List, [], ◌∷◌, ◌==◌, if◌then◌else◌, replicate, length-replicate, arith,
}
use tp_so.Base.Int.{pos}
use tp_so.Ipc.Buffer.{Buffer, BufferState, read, write, pipe, pd_size, buff_size}
use tp_so.Ipc.Buffer.Window.{IsValid}
use tp_so.Kernel.{Kernel, Pcb, ProcessState, ready, running, blocked}

pub zeros : List ℕ
zeros = replicate buff_size 0

pub no_references : List ℕ
no_references = replicate pd_size 0

abbrev pub empty_end : BufferState → ℕ → Buffer
empty_end st opposite = record {
  buffer = zeros;
  buffer_dim = 0;
  cursor = 0;
  buff_id = pipe;
  state = st;
  opposite_end = opposite;
  references = no_references;
}

-- 1024 bytes have gone through it.
abbrev pub worn_end : BufferState → ℕ → Buffer
worn_end st opposite = record (empty_end st opposite) { cursor = 1024 }

pub worn_end-IsValid : (st : BufferState) (opposite : ℕ) → IsValid (worn_end st opposite)
unfolding zeros no_references
worn_end-IsValid st opposite = record {
  size = length-replicate {A = ℕ} buff_size 0;
  dim_in = omega arith;
  cursor_in = omega arith;
  slots = length-replicate {A = ℕ} pd_size 0;
}

pub empty_end-IsValid : (st : BufferState) (opposite : ℕ) → IsValid (empty_end st opposite)
unfolding zeros no_references
empty_end-IsValid st opposite = record {
  size = length-replicate {A = ℕ} buff_size 0;
  dim_in = omega arith;
  cursor_in = omega arith;
  slots = length-replicate {A = ℕ} pd_size 0;
}

-- Full, so that nothing more is taken.
abbrev pub full_end : BufferState → ℕ → Buffer
full_end st opposite = record (empty_end st opposite) { buffer_dim = 1023 }

pub full_end-IsValid : (st : BufferState) (opposite : ℕ) → IsValid (full_end st opposite)
full_end-IsValid st opposite =
    let v = empty_end-IsValid st opposite in
    record { size = v.size; dim_in = omega arith; cursor_in = v.cursor_in; slots = v.slots }

abbrev pub process : ℕ → ProcessState → Pcb
process pid st = record {
  id = pid;
  foreground = 0;
  state = st;
  manual_blocked = 0;
  priority = 0;
  quantums = pos 1;
  aging_interval = 0;
  counter_init = 0;
  parent_id = 1;
  childs_ids = [];
  stack = 0;
  base_stack = 0;
  stack_size = 0;
  memory_from_mm = 0;
  first_alloc = 0;
  pd_table = [];
}

-- Process 4 runs (in the state given), 3 and 5 wait, 6 is blocked and 2 is idle; a process stands at
-- the address of its pid.
abbrev pub table : ProcessState → ℕ → Pcb
table st a = if a == 4 then process 4 st else if a == 6 then process 6 blocked else process a ready

abbrev pub machine : ProcessState → Kernel
machine st = record {
  pcb = table st;
  levels = (3 ∷ []) ∷ [] ∷ (5 ∷ []) ∷ [] ∷ [] ∷ [] ∷ [];
  blocked_list = 6 ∷ [];
  current = 4;
  idle = 2;
  foreground = 0;
  tsc_frequency = 1000;
  tsc = λ n. 1000 * n;
  tsc_reads = 1;
  timers = [];
  buffers = λ a. if a == 7 then empty_end write 8 else empty_end read 7;
  allocs = λ a. record { allocation = a; next = 0 };
  released = [];
}

-- Two bytes wait in it.
abbrev pub loaded_end : BufferState → ℕ → Buffer
loaded_end st opposite = record (empty_end st opposite) {
  buffer = 104 ∷ 105 ∷ replicate 1022 0;
  buffer_dim = 2;
}

pub loaded_end-IsValid : (st : BufferState) (opposite : ℕ) → IsValid (loaded_end st opposite)
loaded_end-IsValid st opposite =
    let v = empty_end-IsValid st opposite in
    record {
      size = ap (λ n. suc (suc n)) (length-replicate {A = ℕ} 1022 0);
      dim_in = omega arith;
      cursor_in = v.cursor_in;
      slots = v.slots;
    }

-- The machine with the ends given at the addresses 7 and 8.
abbrev pub piped : Buffer → Buffer → Kernel
piped w r = record (machine running) { buffers = λ a. if a == 7 then w else r }
