-- ===== src/Ipc/Buffer.antt =====
-- Kernel/ipcRelated/bufferManagement.c and its header: the byte buffers behind the standard streams
-- and the ends of pipes. A pointer is an address, 0 for NULL. `char` data is a list of bytes.
pub mod Window
pub mod Write
pub mod Read
use tp_so.Base.{
  ℕ, zero, suc, ◌+◌, ◌-◌, ◌%◌, ◌^◌, Bool, true, false, ◌&&◌, Option, none, some, List, [], ◌∷◌, ltb,
  ◌==◌, if◌then◌else◌, length, get_or, set, replicate,
}

pub data BufferState : Type 0 where
  read write read_write closed : BufferState

pub data BufferId : Type 0 where
  stdin stdout stderr pipe : BufferId

-- `PD_SIZE`
abbrev pub pd_size : ℕ
pd_size = 32

-- `BUFF_SIZE`
abbrev pub buff_size : ℕ
buff_size = 1024

abbrev pub null : ℕ
null = 0

-- `IPCBufferCDT`. `buffer_dim` and `cursor` are uint16_t.
pub record Buffer : Type 0 where
  pub buffer : List ℕ
  pub buffer_dim : ℕ
  pub cursor : ℕ
  pub buff_id : BufferId
  pub state : BufferState
  pub opposite_end : ℕ
  pub references : List ℕ

-- `x++` on a uint16_t
abbrev pub inc16 : ℕ → ℕ
inc16 x = (x + 1) % 2 ^ 16

abbrev pub can_read : BufferState → Bool
can_read read = true
can_read read_write = true
can_read _ = false

abbrev pub can_write : BufferState → Bool
can_write write = true
can_write read_write = true
can_write _ = false

-- The index that a store uses: `cursor + bufferDim % BUFF_SIZE`, where `%` binds tighter.
abbrev pub slot : Buffer → ℕ
slot b = b.cursor + b.buffer_dim % buff_size

abbrev pub put : Buffer → ℕ → Buffer
put b x = record b { buffer = set b.buffer (slot b) x; buffer_dim = inc16 b.buffer_dim }

-- The loop of `writeBuffer` and `copyToBuffer` over the bytes still to be copied, with the count of
-- those copied; `none` is a store outside the array `buffer`.
pub fill : List ℕ → ℕ → Buffer → Option (ℕ × Buffer)
fill [] written b = some (written, b)
fill (x ∷ xs) written b =
    let rest = fill xs (written + 1) (put b x) in
    if ltb b.buffer_dim buff_size
    then (if ltb (slot b) buff_size then rest else none)
    else some (written, b)

-- The list is `dataToWrite[0 .. count)`; the NULL pointers are the callers' (`Kernel.Pipes`).
pub write_buffer : Buffer → List ℕ → Option (ℕ × Buffer)
write_buffer b bytes =
    if ltb 0 (length bytes) && ltb b.buffer_dim (buff_size - 1) && can_write b.state
    then fill bytes 0 b
    else some (0, b)

pub copy_to_buffer : Buffer → List ℕ → Option (ℕ × Buffer)
copy_to_buffer b bytes =
    if ltb 0 (length bytes) && ltb b.buffer_dim (buff_size - 1) then fill bytes 0 b else some (0, b)

-- `cursor++; bufferDim--`, run only at `bufferDim > 0`
abbrev pub advance : Buffer → Buffer
advance b = record b { cursor = inc16 b.cursor; buffer_dim = b.buffer_dim - 1 }

abbrev pub front : Buffer → ℕ
front b = get_or b.buffer (b.cursor % buff_size) 0

abbrev pub prepend : ℕ → List ℕ × Buffer → List ℕ × Buffer
prepend x (out, b) = (x ∷ out, b)

-- The loop of `readBuffer`, `count - bytesRead` rounds from its end: the bytes stored in
-- `buffToFill`, and the buffer. A zero byte ends it, and is taken out only if it was all there was.
pub drain : ℕ → ℕ → Buffer → List ℕ × Buffer
drain zero dim b = ([], b)
drain (suc k) dim b =
    let rest = prepend (front b) (drain k dim (advance b)) in
    if ltb 0 b.buffer_dim
    then (if front b == 0 then ([], if dim == 1 then advance b else b) else rest)
    else ([], b)

pub read_buffer : Buffer → ℕ → List ℕ × Buffer
read_buffer b count =
    if ltb 0 count && ltb 0 b.buffer_dim && can_read b.state
    then drain count b.buffer_dim b
    else ([], b)

-- The loop of `copyFromBuffer`.
pub drain_all : ℕ → Buffer → List ℕ × Buffer
drain_all zero b = ([], b)
drain_all (suc k) b =
    let rest = prepend (front b) (drain_all k (advance b)) in
    if ltb 0 b.buffer_dim then rest else ([], b)

pub copy_from_buffer : Buffer → ℕ → List ℕ × Buffer
copy_from_buffer b count = if ltb 0 count && ltb 0 b.buffer_dim then drain_all count b else ([], b)

pub get_reference_by_index : Buffer → ℕ → ℕ
get_reference_by_index b index = if ltb index pd_size then get_or b.references index null else null

-- Whether no reference is left: the loop of `checkReferences`.
pub all_null : List ℕ → Bool
all_null [] = true
all_null (r ∷ rs) = r == null && all_null rs

abbrev pub is_pipe : BufferId → Bool
is_pipe pipe = true
is_pipe _ = false

pub check_references : Buffer → Bool
check_references b = if is_pipe b.buff_id then all_null b.references else false

pub set_reference_by_index : Buffer → ℕ → ℕ → Buffer × Bool
set_reference_by_index b process index =
    let b' =
      (if ltb index pd_size then record b { references = set b.references index process } else b) in
    (b', check_references b')

pub set_buffer_state : Buffer → BufferState → Buffer
set_buffer_state b status = record b { state = status }

pub set_buffer_id : Buffer → BufferId → Buffer
set_buffer_id b id = record b { buff_id = id }

pub set_buffer_opposite_end : Buffer → ℕ → Buffer
set_buffer_opposite_end b buff_end = record b { opposite_end = buff_end }

pub clear_buffer : Buffer → Buffer
clear_buffer b = record b { buffer = replicate buff_size 0; buffer_dim = 0; cursor = 0 }

-- `createEmptyBuffer` on the block that `allocBuffer` returned: it sets neither id nor state.
pub create_empty_buffer : Buffer → Buffer
unfolding clear_buffer
create_empty_buffer block = record (clear_buffer block) {
  references = replicate pd_size null;
  opposite_end = null;
}

-- `initStandardBuffers`, for one of the three. Its `oppositeEnd` stays what it was.
pub init_standard_buffer : BufferId → BufferState → Buffer → Buffer
init_standard_buffer id status b = record b {
  references = replicate pd_size null;
  buffer = replicate buff_size 0;
  buffer_dim = 0;
  cursor = 0;
  buff_id = id;
  state = status;
}
