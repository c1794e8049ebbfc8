-- ===== src/Kernel/Pipes/Delivery.antt =====
-- `writePipe` and `readPipe`: the bytes written at one end come out at the other, as far as the
-- other end has room.
use mathlib.Core.Path.{ap₂, subst₂}
use tp_so.Base.{
  ℕ, zero, suc, ◌-◌, ◌≤◌, ◌<◌, ◌≡◌, refl, sym, ap, ◌∙◌, ◌≢◌, List, [], ◌∷◌, ◌++◌, Option, none,
  some, arith, ◌==◌, Bool, false, not, ◌&&◌, ◌||◌, Bool-cases, inl, inr, length, take, drop,
  take_of_le,
}
use tp_so.Base.Maybe.{◌>>=◌, Returns, Returns-map}
use tp_so.Ipc.Buffer.{Buffer, null, buff_size, copy_to_buffer, copy_from_buffer}
use tp_so.Ipc.Buffer.Window.{IsValid, contents, length-window}
use tp_so.Ipc.Buffer.Write.{Appended, Fits, copy_to_buffer_appends, copy_to_buffer_refuses}
use tp_so.Ipc.Buffer.Read.{Removed, copy_from_buffer-Removed}
use tp_so.Kernel.{Kernel, set_buffer, update, ready}
use tp_so.Kernel.Process.{set_process_state, refuses_state}
use tp_so.Kernel.Pipes.{
  wake, wake_all, set_buffer_references_ready, copy_to, deliver, update_opposite_end,
}

set_ready-buffers : (k : Kernel) (a : ℕ) → (set_process_state k a ready).0.buffers ≡ k.buffers
unfolding set_process_state
set_ready-buffers k a = elim (Bool-cases (refuses_state k a ready)) [
  | inl e ↦ rw (e, set_process_state)
  | inr e ↦ rw (e, set_process_state)
]

wake-buffers : (any : Bool) (k : Kernel) (r : ℕ) → (wake any k r).buffers ≡ k.buffers
unfolding wake
wake-buffers any k r =
    elim (Bool-cases (not (r == null) && (any || not ((k.pcb r).foreground == 0)))) [
      | inl e ↦ rw (e, wake) (set_ready-buffers k r)
      | inr e ↦ rw (e, wake)
    ]

wake_all-buffers : (any : Bool) (rs : List ℕ) (k : Kernel) → (wake_all any rs k).buffers ≡ k.buffers
unfolding wake_all
wake_all-buffers any [] k = refl
wake_all-buffers any (r ∷ rs) k = wake_all-buffers any rs (wake any k r) ∙ wake-buffers any k r

-- Waking processes moves no bytes.
pub references_ready-buffers :
    (k : Kernel) (b : ℕ) → (set_buffer_references_ready k b).buffers ≡ k.buffers
unfolding set_buffer_references_ready
references_ready-buffers k b = wake_all-buffers _ (k.buffers b).references k

-- The ends of a pipe, the writing one linked to the reading one.
pub record Linked (k : Kernel) (w r : ℕ) : Type 0 where
  pub w_there : w ≢ null
  pub r_there : r ≢ null
  pub apart : w ≢ r
  pub w_valid : IsValid (k.buffers w)
  pub r_valid : IsValid (k.buffers r)
  pub to_r : (k.buffers w).opposite_end ≡ r

-- The reading end takes what it has room for, and the rest of the bytes is lost.
pub record Flushed (k : Kernel) (w r : ℕ) (k' : Kernel) : Type 0 where
  pub arrived :
      contents (k'.buffers r)
      ≡ contents (k.buffers r)
        ++ take (buff_size - (k.buffers r).buffer_dim) (contents (k.buffers w))
  pub emptied : contents (k'.buffers w) ≡ []

pub update_self : (f : ℕ → Buffer) (a : ℕ) (b : Buffer) → update f a b a ≡ b
update_self f a b = ground arith

pub update_other : (f : ℕ → Buffer) (a c : ℕ) (b : Buffer) → a ≢ c → update f a b c ≡ f c
update_other f a c b h = ground arith

pub ne_false : {a b : ℕ} → a ≢ b → (a == b) ≡ false
ne_false h = ground arith

drop_all : (n : ℕ) (xs : List ℕ) → length xs ≤ n → drop n xs ≡ []
drop_all zero [] h = refl
drop_all zero (x ∷ xs) h = absurd (omega arith)
drop_all (suc n) [] h = refl
drop_all (suc n) (x ∷ xs) h = drop_all n xs (omega arith)

pub zero_false : (n : ℕ) → 0 < n → (n == 0) ≡ false
zero_false n h = ground arith

pub copy_to-eq :
    (k : Kernel) (r : ℕ) (bytes : List ℕ)
    → r ≢ null
    → copy_to k r bytes
      ≡ (copy_to_buffer (k.buffers r) bytes >>= λ out. some (set_buffer k r out.1))
unfolding copy_to
copy_to-eq k r bytes h = rw (ne_false h)

-- What reaches a buffer, and that the others stay as they were.
record Received (k : Kernel) (r : ℕ) (bytes : List ℕ) (k' : Kernel) : Type 0 where
  arrived :
      contents (k'.buffers r)
      ≡ contents (k.buffers r) ++ take (buff_size - (k.buffers r).buffer_dim) bytes
  others : (c : ℕ) → r ≢ c → k'.buffers c ≡ k.buffers c

received :
    (k : Kernel) (r : ℕ) (bytes : List ℕ) (m : Option (ℕ × Buffer))
    → Returns (Appended (k.buffers r) bytes 0) m
    → Returns (Received k r bytes) (
        (m >>= λ out. some (set_buffer k r out.1)) >>= λ k2.
        some (set_buffer_references_ready k2 r))
received k r bytes none h = h
received k r bytes (some out) h = record {
  arrived =
      rw (references_ready-buffers (set_buffer k r out.1) r, update_self k.buffers r out.1) h.holds;
  others = λ c ne.
      rw (references_ready-buffers (set_buffer k r out.1) r) (update_other k.buffers r c out.1 ne);
}

deliver-Received :
    (k : Kernel) (r : ℕ) (bytes : List ℕ)
    → r ≢ null
    → IsValid (k.buffers r)
    → 0 < length bytes
    → (k.buffers r).buffer_dim < 1023
    → Fits (k.buffers r) (length bytes)
    → Returns (Received k r bytes) (deliver k r bytes)
unfolding deliver
deliver-Received k r bytes h v more room fit =
    rw (zero_false (length bytes) more, copy_to-eq k r bytes h)
      (received k r bytes (copy_to_buffer (k.buffers r) bytes)
        (copy_to_buffer_appends (k.buffers r) bytes v more room fit))

-- A buffer with fewer than two bytes free receives nothing.
deliver-full :
    (k : Kernel) (r : ℕ) (bytes : List ℕ)
    → r ≢ null
    → 0 < length bytes
    → 1023 ≤ (k.buffers r).buffer_dim
    → Returns
        (λ k'. (k'.buffers r ≡ k.buffers r) × ((c : ℕ) → r ≢ c → k'.buffers c ≡ k.buffers c))
        (deliver k r bytes)
unfolding deliver
deliver-full k r bytes h more full =
    rw
      (
        zero_false (length bytes) more,
        copy_to-eq k r bytes h,
        copy_to_buffer_refuses (k.buffers r) bytes (inr full),
      )
      (rw (references_ready-buffers (set_buffer k r (k.buffers r)) r) (
        update_self k.buffers r (k.buffers r),
        λ c ne. update_other k.buffers r c (k.buffers r) ne,
      ))

module _ (k : Kernel) (w r : ℕ) (l : Linked k w r) where
  w_size : length (contents (k.buffers w)) ≡ (k.buffers w).buffer_dim
  w_size = length-window (k.buffers w).buffer (k.buffers w).cursor (k.buffers w).buffer_dim

  pub taken-Removed :
      Removed (k.buffers w) (contents (k.buffers w)) [] (copy_from_buffer (k.buffers w) buff_size)
  taken-Removed =
      let small : length (contents (k.buffers w)) ≤ buff_size =
        omega (arith, w_size, l.w_valid.dim_in) in
      subst₂ (λ xs ys. Removed (k.buffers w) xs ys (copy_from_buffer (k.buffers w) buff_size))
        (take_of_le buff_size (contents (k.buffers w)) small)
        (drop_all buff_size (contents (k.buffers w)) small)
        (copy_from_buffer-Removed (k.buffers w) buff_size l.w_valid)

  unfoldable pub after_take : Kernel
  after_take = set_buffer k w (copy_from_buffer (k.buffers w) buff_size).1

  pub update_opposite_end-eq :
      update_opposite_end k w ≡ deliver after_take r (contents (k.buffers w))
  unfolding update_opposite_end after_take
  update_opposite_end-eq =
      let t = taken-Removed in
      rw (ne_false l.w_there) (ap₂ (deliver after_take) (t.same_end ∙ l.to_r) t.bytes_read)

  Received-Flushed :
      (k' : Kernel) → Received after_take r (contents (k.buffers w)) k' → Flushed k w r k'
  unfolding after_take
  Received-Flushed k' e =
      let t = taken-Removed in
      let r_same =
        update_other k.buffers w r (copy_from_buffer (k.buffers w) buff_size).1 l.apart in
      record {
        arrived = rw r_same at e.arrived;
        emptied =
            ap contents (
              e.others w (λ q. l.apart (sym q))
              ∙ update_self k.buffers w (copy_from_buffer (k.buffers w) buff_size).1)
            ∙ t.left_over;
      }

  -- `updateOppositeEnd` empties the writing end, and appends its bytes to the reading end as far as
  -- that has room.
  pub update_opposite_end-Flushed :
      0 < (k.buffers w).buffer_dim
      → (k.buffers r).buffer_dim < 1023
      → Fits (k.buffers r) (k.buffers w).buffer_dim
      → Returns (Flushed k w r) (update_opposite_end k w)
  unfolding after_take
  update_opposite_end-Flushed more room fit =
      let r_same =
        update_other k.buffers w r (copy_from_buffer (k.buffers w) buff_size).1 l.apart in
      rw update_opposite_end-eq (
        Returns-map (Received after_take r (contents (k.buffers w))) (Flushed k w r)
          (deliver after_take r (contents (k.buffers w))) Received-Flushed
          (deliver-Received after_take r (contents (k.buffers w)) l.r_there (rw r_same l.r_valid)
            (omega (arith, w_size)) (rw r_same room) (rw (r_same, w_size) fit)))

  -- With the reading end full the bytes go nowhere.
  pub update_opposite_end-full :
      0 < (k.buffers w).buffer_dim
      → 1023 ≤ (k.buffers r).buffer_dim
      → Returns
          (λ k'.
            (contents (k'.buffers r) ≡ contents (k.buffers r)) × (contents (k'.buffers w) ≡ []))
          (update_opposite_end k w)
  unfolding after_take
  update_opposite_end-full more full =
      let r_same =
        update_other k.buffers w r (copy_from_buffer (k.buffers w) buff_size).1 l.apart in
      let w_same = update_self k.buffers w (copy_from_buffer (k.buffers w) buff_size).1 in
      rw update_opposite_end-eq (
        Returns-map _ _ (deliver after_take r (contents (k.buffers w)))
          (λ k' f. (
            ap contents (f.0 ∙ r_same),
            ap contents (f.1 w (λ q. l.apart (sym q)) ∙ w_same) ∙ taken-Removed.left_over,
          ))
          (deliver-full after_take r (contents (k.buffers w)) l.r_there (omega (arith, w_size))
            (rw r_same full)))
