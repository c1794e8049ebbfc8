-- ===== src/Kernel/Exit/Frame.antt =====
-- `deleteProcess` changes no queue: its caller has taken the node off its queue before.
use tp_so.Base.{
  ℕ, zero, suc, ◌+◌, refl, List, [], ◌∷◌, Option, none, some, ◌==◌, if◌then◌else◌, set, get_or,
}
use tp_so.Base.Maybe.{◌>>=◌}
use tp_so.Ipc.Buffer.{null, pd_size}
use tp_so.Kernel.{Kernel, set_pcb, release, memory, pcb_block}
use tp_so.Kernel.Process.{get_entry}
use tp_so.Kernel.Frame.{
  Frame, Framed, Frame-refl, Frame-trans, Frame-if, Framed-if, Framed-bind, Framed-trans,
  set_ready-Frame, set_pcb-Frame,
}
use tp_so.Kernel.Timers.{read_tsc, in_millis, update_timers}
use tp_so.Kernel.Timers.Frame.{read_tsc-Frame, update_timers-Frame}
use tp_so.Kernel.Pipes.Frame.{release-Frame, remove_references-Frame}
use tp_so.Kernel.Exit.{
  chain_limit, free_chain, close_pds_from, adopt, check_childs, drop_child, set_parent_ready,
  delete_process,
}

free_chain-Frame : (n a : ℕ) (k : Kernel) → Framed k (free_chain n a k)
unfolding free_chain
free_chain-Frame zero a k = Framed-if (a == null) k _ _ (Frame-refl k) tt
free_chain-Frame (suc n) a k = Framed-if (a == null) k _ _ (Frame-refl k) (
    Framed-trans _ (release-Frame k (memory a))
      (free_chain-Frame n (k.allocs a).next (release k (memory a))))

close_pds_from-Frame : (n i : ℕ) (k : Kernel) (a : ℕ) → Framed k (close_pds_from n i k a)
unfolding close_pds_from
close_pds_from-Frame zero i k a = Frame-refl k
close_pds_from-Frame (suc n) i k a =
    let aux = get_or (k.pcb a).pd_table i null in
    let p = record (k.pcb a) { pd_table = set (k.pcb a).pd_table i null } in
    let k' = set_pcb k a p in
    Framed-bind k _ _
      (Framed-if (aux == null) k _ _ (Frame-refl k) (
        Framed-trans _ (set_pcb-Frame k a p refl (λ h. h))
          (remove_references-Frame k' aux (k.pcb a).id)))
      (λ l f. Framed-trans _ f (close_pds_from-Frame n (i + 1) l a))

adopt-Frame : (parent : ℕ) (cs : List ℕ) (k : Kernel) → Frame k (adopt parent cs k)
unfolding adopt
adopt-Frame parent [] k = Frame-refl k
adopt-Frame parent (c ∷ cs) k =
    let child = get_entry k c in
    Frame-trans
      (Frame-if (c == 0) (Frame-refl k) (
        set_pcb-Frame k child (record (k.pcb child) { parent_id = (k.pcb parent).id }) refl
          (λ h. h)))
      (adopt-Frame parent cs _)

set_parent_ready-Frame : (k : Kernel) (a : ℕ) → Frame k (set_parent_ready k a)
unfolding set_parent_ready
set_parent_ready-Frame k a =
    let parent = get_entry k (k.pcb a).parent_id in
    let p = record (k.pcb parent) {
      childs_ids = drop_child (k.pcb a).id (k.pcb parent).childs_ids;
    } in
    Frame-trans (set_pcb-Frame k parent p refl (λ h. h))
      (set_ready-Frame (set_pcb k parent p) parent)

check_childs-Frame : (k : Kernel) (a : ℕ) → Frame k (check_childs k a)
unfolding check_childs
check_childs-Frame k a = adopt-Frame _ (k.pcb a).childs_ids k

drop_foreground-Frame : (k : Kernel) → Frame k (record k { foreground = null })
drop_foreground-Frame k = record {
  levels_same = refl;
  blocked_same = refl;
  current_same = refl;
  idle_same = refl;
  ids_same = λ b. refl;
  safe = λ s. s;
}

pub bind_millis-Framed :
    (k l : Kernel) (t : ℕ) (f : ℕ → Option Kernel)
    → ((now : ℕ) → Framed k (f now))
    → Framed k (in_millis l t >>= f)
bind_millis-Framed k l t f h = bound (in_millis l t)
  where
    bound : (r : Option ℕ) → Framed k (r >>= f)
    bound none = tt
    bound (some now) = h now

pub delete_process-Frame : (k : Kernel) (a : ℕ) → Framed k (delete_process k a)
unfolding delete_process
delete_process-Frame k a =
    let k1 = (if k.foreground == a then record k { foreground = null } else k) in
    let f1 = Frame-if (k.foreground == a) (drop_foreground-Frame k) (Frame-refl k) in
    let k2 = (read_tsc k1).1 in
    let f2 = Frame-trans f1 (read_tsc-Frame k1) in
    bind_millis-Framed k k2 _ _ λ now.
      let k3 = update_timers now k2 in
      let f3 = Frame-trans f2 (update_timers-Frame now k2) in
      Framed-bind k _ _ (Framed-trans _ f3 (free_chain-Frame chain_limit (k3.pcb a).first_alloc k3))
        λ k4 f4.
          Framed-bind k _ _ (Framed-trans _ f4 (close_pds_from-Frame pd_size 0 k4 a)) λ k5 f5.
            let k6 = set_parent_ready (check_childs k5 a) a in
            Frame-trans f5 (
              Frame-trans
                (Frame-trans (check_childs-Frame k5 a)
                  (set_parent_ready-Frame (check_childs k5 a) a))
                (Frame-trans (release-Frame k6 _) (release-Frame _ (pcb_block a))))
