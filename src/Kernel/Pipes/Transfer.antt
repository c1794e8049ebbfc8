-- ===== src/Kernel/Pipes/Transfer.antt =====
-- `writePipe` from end to end.
use mathlib.Core.Path.{ap₂}
use mathlib.Core.List.{append-nil}
use tp_so.Base.{
  ℕ, ◌-◌, ◌≤◌, ◌<◌, min, ◌≡◌, sym, ap, ◌∙◌, List, [], ◌++◌, Option, none, some, arith, true, lt→ltb,
  length, take, length-take,
}
use tp_so.Base.Maybe.{◌>>=◌, Returns, Returns-map}
use tp_so.Ipc.Buffer.{Buffer, buff_size, can_write, write_buffer}
use tp_so.Ipc.Buffer.Window.{contents, contents-empty, length-window}
use tp_so.Ipc.Buffer.Write.{Appended, Fits, write_buffer_appends}
use tp_so.Kernel.{Kernel, set_buffer}
use tp_so.Kernel.Pipes.{update_opposite_end, write_pipe}
use tp_so.Kernel.Pipes.Delivery.{
  Linked, Flushed, update_self, update_other, ne_false, update_opposite_end-Flushed,
  update_opposite_end-full,
}

-- A pipe that is ready for a write: nothing is left at the writing end.
pub record Writable (k : Kernel) (w r : ℕ) (bytes : List ℕ) : Type 0 where
  pub linked : Linked k w r
  pub may_write : can_write (k.buffers w).state ≡ true
  pub w_empty : (k.buffers w).buffer_dim ≡ 0
  pub some_bytes : 0 < length bytes
  pub w_fits : Fits (k.buffers w) (length bytes)

-- What a write of `bytes` has done when `given` of them have come out at the other end.
pub record Transferred (k : Kernel) (w r : ℕ) (bytes given : List ℕ) (out : ℕ × Kernel)
    : Type 0 where
  pub number : out.0 ≡ min (length bytes) buff_size
  pub arrived : contents (out.1.buffers r) ≡ contents (k.buffers r) ++ given
  pub emptied : contents (out.1.buffers w) ≡ []

module _ (k : Kernel) (w r : ℕ) (bytes : List ℕ) (h : Writable k w r bytes) where
  write_pipe-eq : write_pipe k w bytes ≡ (
      write_buffer (k.buffers w) bytes >>= λ out.
      update_opposite_end (set_buffer k w out.1) w >>= λ k1. some (out.0, k1))
  unfolding write_pipe
  write_pipe-eq = rw (
    ne_false h.linked.w_there,
    lt→ltb 0 (length bytes) h.some_bytes,
    lt→ltb (k.buffers w).buffer_dim 1023 (omega (arith, h.w_empty)),
    h.may_write,
  )

  written :
      (out : ℕ × Buffer)
      → Appended (k.buffers w) bytes 0 out
      → contents out.1 ≡ take buff_size bytes
  written out a =
      a.holds
      ∙ ap (λ c. c ++ take (buff_size - (k.buffers w).buffer_dim) bytes)
          (contents-empty (k.buffers w) h.w_empty)
      ∙ ap (λ n. take n bytes) {y = buff_size} (omega (arith, h.w_empty))

  written_dim :
      (out : ℕ × Buffer)
      → Appended (k.buffers w) bytes 0 out
      → out.1.buffer_dim ≡ min (length bytes) buff_size
  written_dim out a = omega (
    arith,
    length-window out.1.buffer out.1.cursor out.1.buffer_dim,
    ap length (written out a),
    length-take buff_size bytes,
  )

  relinked :
      (out : ℕ × Buffer) → Appended (k.buffers w) bytes 0 out → Linked (set_buffer k w out.1) w r
  relinked out a =
      let self = update_self k.buffers w out.1 in
      record {
        w_there = h.linked.w_there;
        r_there = h.linked.r_there;
        apart = h.linked.apart;
        w_valid = rw self a.valid;
        r_valid = rw (update_other k.buffers w r out.1 h.linked.apart) h.linked.r_valid;
        to_r = rw self (a.same_end ∙ h.linked.to_r);
      }

  after_write :
      (given : List ℕ)
      → ((out : ℕ × Buffer)
          → Appended (k.buffers w) bytes 0 out
          → Returns
              (λ k'.
                (contents (k'.buffers r) ≡ contents (k.buffers r) ++ given)
                × (contents (k'.buffers w) ≡ []))
              (update_opposite_end (set_buffer k w out.1) w))
      → Returns (Transferred k w r bytes given) (write_pipe k w bytes)
  after_write given flush = rw write_pipe-eq (
      go (write_buffer (k.buffers w) bytes) (
        write_buffer_appends (k.buffers w) bytes h.linked.w_valid h.may_write h.some_bytes
          (omega (arith, h.w_empty)) h.w_fits))
    where
      done :
          (n : ℕ)
          → n ≡ min (length bytes) buff_size
          → (m : Option Kernel)
          → Returns
              (λ k'.
                (contents (k'.buffers r) ≡ contents (k.buffers r) ++ given)
                × (contents (k'.buffers w) ≡ []))
              m
          → Returns (Transferred k w r bytes given) (m >>= λ k1. some (n, k1))
      done n e none f = f
      done n e (some k') f = record { number = e; arrived = f.0; emptied = f.1 }

      go :
          (m : Option (ℕ × Buffer))
          → Returns (Appended (k.buffers w) bytes 0) m
          → Returns
              (Transferred k w r bytes given)
              (m >>= λ out. update_opposite_end (set_buffer k w out.1) w >>= λ k1. some (out.0, k1))
      go none a = a
      go (some out) a = done out.0 (omega (arith, a.number, h.w_empty)) _ (flush out a)

  -- A write to a pipe whose writing end is empty, with stores that stay inside both arrays, returns
  -- the number of bytes that the writing end took (1024 at most); the reading end holds its bytes
  -- and then as many of those as it had room for, in order, and the writing end is empty again.
  pub write_pipe_delivers :
      (k.buffers r).buffer_dim < 1023
      → Fits (k.buffers r) (min (length bytes) buff_size)
      → Returns
          (Transferred k w r bytes
            (take (buff_size - (k.buffers r).buffer_dim) (take buff_size bytes)))
          (write_pipe k w bytes)
  write_pipe_delivers room fit = after_write _ flush
    where
      flush :
          (out : ℕ × Buffer)
          → Appended (k.buffers w) bytes 0 out
          → Returns
              (λ k'.
                (contents (k'.buffers r)
                  ≡ contents (k.buffers r)
                    ++ take (buff_size - (k.buffers r).buffer_dim) (take buff_size bytes))
                × (contents (k'.buffers w) ≡ []))
              (update_opposite_end (set_buffer k w out.1) w)
      flush out a =
          let k1 = set_buffer k w out.1 in
          let self = update_self k.buffers w out.1 in
          let other = update_other k.buffers w r out.1 h.linked.apart in
          let dim = written_dim out a in
          Returns-map (Flushed k1 w r) _ (update_opposite_end k1 w)
            (λ k' f. (
              f.arrived
                  ∙ ap₂ (λ (b : Buffer) xs. contents b ++ take (buff_size - b.buffer_dim) xs) other
                      (ap contents self ∙ written out a),
              f.emptied,
            ))
            (update_opposite_end-Flushed k1 w r (relinked out a)
              (rw self (omega (arith, dim, h.some_bytes))) (rw other room)
              (rw (other, self, dim) fit))

  -- The same write to a pipe whose reading end has fewer than two bytes free returns the same number
  -- and empties the writing end, but nothing comes out: the bytes are lost.
  pub write_pipe_loses :
      1023 ≤ (k.buffers r).buffer_dim → Returns (Transferred k w r bytes []) (write_pipe k w bytes)
  write_pipe_loses full = after_write [] flush
    where
      flush :
          (out : ℕ × Buffer)
          → Appended (k.buffers w) bytes 0 out
          → Returns
              (λ k'.
                (contents (k'.buffers r) ≡ contents (k.buffers r) ++ [])
                × (contents (k'.buffers w) ≡ []))
              (update_opposite_end (set_buffer k w out.1) w)
      flush out a =
          let k1 = set_buffer k w out.1 in
          let self = update_self k.buffers w out.1 in
          let other = update_other k.buffers w r out.1 h.linked.apart in
          Returns-map _ _ (update_opposite_end k1 w)
            (λ k' f. (f.0 ∙ ap contents other ∙ sym (append-nil (contents (k.buffers r))), f.1))
            (update_opposite_end-full k1 w r (relinked out a)
              (rw self (omega (arith, written_dim out a, h.some_bytes))) (rw other full))
