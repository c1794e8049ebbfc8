-- ===== src/Kernel/Pipes/Frame.antt =====
-- The functions on pipes change no queue: they move bytes, and make processes READY.
use tp_so.Base.{
  ℕ, zero, suc, ◌+◌, refl, List, [], ◌∷◌, Option, none, some, Bool, not, ◌&&◌, ◌==◌, if◌then◌else◌,
  replicate,
}
use tp_so.Base.Maybe.{◌>>=◌}
use tp_so.Ipc.Buffer.{
  Buffer, null, pd_size, is_pipe, can_write, check_references, copy_to_buffer,
  set_reference_by_index, get_reference_by_index,
}
use tp_so.Kernel.{Kernel, set_buffer, release, Release, buffer_block}
use tp_so.Kernel.Process.{clear_matching, remove_from_pds}
use tp_so.Kernel.Frame.{
  Frame, Framed, Frame-refl, Frame-trans, Frame-if, Framed-if, Framed-bind, Framed-trans,
  set_ready-Frame, set_pcb-Frame,
}
use tp_so.Kernel.Pipes.{
  is_closed, wake, wake_all, set_buffer_references_ready, forget_buffer, destroy_buffer, copy_to,
  shut_end, close_pipe, remove_reference, remove_references_from, remove_references,
}

pub release-Frame : (k : Kernel) (r : Release) → Frame k (release k r)
release-Frame k r = record {
  levels_same = refl;
  blocked_same = refl;
  current_same = refl;
  idle_same = refl;
  ids_same = λ b. refl;
  safe = λ s. s;
}

pub set_buffer-Frame : (k : Kernel) (a : ℕ) (b : Buffer) → Frame k (set_buffer k a b)
set_buffer-Frame k a b = record {
  levels_same = refl;
  blocked_same = refl;
  current_same = refl;
  idle_same = refl;
  ids_same = λ c. refl;
  safe = λ s. s;
}

wake-Frame : (any : Bool) (k : Kernel) (r : ℕ) → Frame k (wake any k r)
unfolding wake
wake-Frame any k r = Frame-if _ (set_ready-Frame k r) (Frame-refl k)

wake_all-Frame : (any : Bool) (rs : List ℕ) (k : Kernel) → Frame k (wake_all any rs k)
unfolding wake_all
wake_all-Frame any [] k = Frame-refl k
wake_all-Frame any (r ∷ rs) k =
    Frame-trans (wake-Frame any k r) (wake_all-Frame any rs (wake any k r))

pub references_ready-Frame : (k : Kernel) (b : ℕ) → Frame k (set_buffer_references_ready k b)
unfolding set_buffer_references_ready
references_ready-Frame k b =
    wake_all-Frame (is_pipe (k.buffers b).buff_id) (k.buffers b).references k

remove_from_pds-Frame : (k : Kernel) (a b : ℕ) → Frame k (remove_from_pds k a b)
unfolding remove_from_pds
remove_from_pds-Frame k a b =
    set_pcb-Frame k a (record (k.pcb a) { pd_table = clear_matching b (k.pcb a).pd_table }) refl
      (λ h. h)

forget_buffer-Frame : (b : ℕ) (rs : List ℕ) (k : Kernel) → Frame k (forget_buffer b rs k)
unfolding forget_buffer
forget_buffer-Frame b [] k = Frame-refl k
forget_buffer-Frame b (r ∷ rs) k =
    Frame-trans (Frame-if (r == null) (Frame-refl k) (remove_from_pds-Frame k r b))
      (forget_buffer-Frame b rs (if r == null then k else remove_from_pds k r b))

destroy_buffer-Frame : (k : Kernel) (b : ℕ) → Frame k (destroy_buffer k b)
unfolding destroy_buffer
destroy_buffer-Frame k b =
    Frame-trans
      (Frame-if (check_references (k.buffers b)) (Frame-refl k)
        (forget_buffer-Frame b (k.buffers b).references k))
      (release-Frame _ (buffer_block b))

pub copy_to-Frame : (k : Kernel) (b : ℕ) (bytes : List ℕ) → Framed k (copy_to k b bytes)
unfolding copy_to
copy_to-Frame k b bytes =
    Framed-if (b == null) k _ _ (Frame-refl k) (stored (copy_to_buffer (k.buffers b) bytes))
  where
    stored : (r : Option (ℕ × Buffer)) → Framed k (r >>= λ out. some (set_buffer k b out.1))
    stored none = tt
    stored (some out) = set_buffer-Frame k b out.1

shut_end-Frame : (k : Kernel) (e : ℕ) → Framed k (shut_end k e)
unfolding shut_end
shut_end-Frame k e =
    let k1 = set_buffer k e (record (k.buffers e) { references = replicate pd_size null }) in
    Framed-trans _ (set_buffer-Frame k e _) (
      Framed-bind k1 _ _
        (Framed-if (can_write (k1.buffers e).state) k1 _ _
          (copy_to-Frame k1 (k1.buffers e).opposite_end (0 ∷ [])) (Frame-refl k1))
        (λ k2 f. Frame-trans f (set_buffer-Frame k2 e _)))

close_pipe-Frame : (k : Kernel) (e : ℕ) → Framed k (close_pipe k e)
unfolding close_pipe
close_pipe-Frame k e =
    let other = (k.buffers e).opposite_end in
    Framed-bind k _ _ (shut_end-Frame k e) λ k1 f.
      let k2 = set_buffer_references_ready k1 other in
      Frame-trans f (
        Frame-trans (references_ready-Frame k1 other) (
          Frame-if (is_closed (k2.buffers other).state)
            (Frame-trans (destroy_buffer-Frame k2 e)
              (destroy_buffer-Frame (destroy_buffer k2 e) other))
            (Frame-refl k2)))

remove_reference-Frame : (k : Kernel) (b pid i : ℕ) → Framed k (remove_reference k b pid i)
unfolding remove_reference
remove_reference-Frame k b pid i =
    let r = get_reference_by_index (k.buffers b) i in
    let out = set_reference_by_index (k.buffers b) null i in
    let k' = set_buffer k b out.0 in
    Framed-if (not (r == null) && (k.pcb r).id == pid) k _ _
      (Framed-trans _ (set_buffer-Frame k b out.0) (
        Framed-if (out.1 && is_pipe (out.0).buff_id) k' _ _ (close_pipe-Frame k' b)
          (Frame-refl k')))
      (Frame-refl k)

remove_references_from-Frame :
    (n i : ℕ) (k : Kernel) (b pid : ℕ) → Framed k (remove_references_from n i k b pid)
unfolding remove_references_from
remove_references_from-Frame zero i k b pid = Frame-refl k
remove_references_from-Frame (suc n) i k b pid =
    Framed-bind k _ _ (remove_reference-Frame k b pid i)
      (λ l f. Framed-trans _ f (remove_references_from-Frame n (i + 1) l b pid))

pub remove_references-Frame : (k : Kernel) (b pid : ℕ) → Framed k (remove_references k b pid)
unfolding remove_references
remove_references-Frame k b pid = remove_references_from-Frame pd_size 0 k b pid
