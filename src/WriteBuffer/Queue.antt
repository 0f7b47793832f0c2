-- ===== src/WriteBuffer/Queue.antt =====
-- The steps of the writers, of the readers and of the thread of ProcessingLoop, in any order: the
-- orders reach the storage engine in the order in which they were accepted.
use kingdb.Prelude.{
  ℕ, ◌≡◌, refl, sym, ap, ◌∙◌, Bool, true, false, not, List, [], ◌∷◌, ◌++◌, map, append_assoc,
  append-nil,
}
use mathlib.Core.Path.{subst}
use kingdb.Prelude.Int.{pos}
use kingdb.Options.{DatabaseOptions}
use kingdb.Order.{Order}
use kingdb.WriteBuffer.{
  WriteBuffer, Pair, Index, at, set_at, new_write_buffer, buffer_live, buffer_copy, is_large_for,
  write_part, start_flush, swap, mark_sync, clear_copy, is_zero,
}

-- Where the thread of ProcessingLoop is: before the call of the storage engine, or after it.
pub data Phase : Type 0 where
  waiting flushing : Phase

-- The buffer, with the history of what WritePart accepted and of what the storage engine was given.
pub record System : Type 0 where
  pub buffer : WriteBuffer
  pub phase : Phase
  pub accepted : List Order
  pub flushed : List Order

abbrev pub initial : System
initial = record { buffer = new_write_buffer; phase = waiting; accepted = []; flushed = [] }

-- The order that WritePart makes of its arguments, which are those of `o` but for its last field.
abbrev pub accept : DatabaseOptions → Order → Order
accept db_options o = record o { is_large = is_large_for db_options o.key o.size_value }

abbrev pub written : DatabaseOptions → Order → WriteBuffer → WriteBuffer
written db_options o w =
    (write_part db_options o.tid o.write_options o.type o.key o.chunk o.offset_chunk o.size_value
      o.size_value_compressed o.crc32 w).1

pub data Step : System → System → Type 0 where
  step_write :
      (db_options : DatabaseOptions) (o : Order) (s : System)
      → s.buffer.stop_requested ≡ false
      → Step s (record s {
        buffer = written db_options o s.buffer;
        accepted = s.accepted ++ (accept db_options o ∷ []);
      })
  step_refuse :
      (db_options : DatabaseOptions) (o : Order) (s : System)
      → s.buffer.stop_requested ≡ true
      → Step s (record s { buffer = written db_options o s.buffer })
  step_flush :
      (force_sync : Bool) (s : System)
      → s.phase ≡ waiting
      → is_zero (at s.buffer.im_live s.buffer.sizes) ≡ false
      → Step s (record s {
        buffer = start_flush force_sync s.buffer;
        phase = flushing;
        flushed = s.flushed ++ buffer_copy (start_flush force_sync s.buffer);
      })
  step_clear :
      (s : System)
      → s.phase ≡ flushing
      → s.buffer.num_readers ≡ 0
      → Step s (record s { buffer = clear_copy s.buffer; phase = waiting })
  step_readers :
      (n : ℕ) (s : System) → Step s (record s { buffer = record s.buffer { num_readers = n } })
  step_stop :
      (s : System) → Step s (record s { buffer = record s.buffer { stop_requested = true } })

pub data Reachable : System → Type 0 where
  reach_initial : Reachable initial
  reach_step : {s t : System} → Reachable s → Step s t → Reachable t

-- An order without its sync flag, which ProcessingLoop may set.
abbrev pub plain : Order → Order
plain o = record o { write_options = record { sync = false } }

abbrev pub plains : List Order → List Order
plains = map plain

-- The buffer that is being persisted, where the thread waits for work.
pub record IsEmptyCopy (w : WriteBuffer) : Type 0 where
  pub orders : buffer_copy w ≡ []
  pub size : at w.im_copy w.sizes ≡ pos 0

abbrev pub CopyFits : Phase → System → Type 0
CopyFits waiting s = IsEmptyCopy s.buffer
CopyFits flushing s = (before : List Order) × (s.flushed ≡ before ++ buffer_copy s.buffer)

pub record IsQueue (s : System) : Type 0 where
  pub two : s.buffer.im_copy ≡ not s.buffer.im_live
  pub order : plains s.accepted ≡ plains (s.flushed ++ buffer_live s.buffer)
  pub copy : CopyFits s.phase s

module _ {A : Type 0} where
  at-set_at : (i : Index) (a : A) (p : Pair A) → at i (set_at i a p) ≡ a
  at-set_at false a p = refl
  at-set_at true a p = refl

  at-set_at_other : (i j : Index) (a : A) (p : Pair A) → j ≡ not i → at j (set_at i a p) ≡ at j p
  at-set_at_other false j a p e = rw e refl
  at-set_at_other true j a p e = rw e refl

not-not : {i j : Index} → j ≡ not i → i ≡ not j
not-not {i = false} e = rw e refl
not-not {i = true} e = rw e refl

plains-append : (xs ys : List Order) → plains (xs ++ ys) ≡ plains xs ++ plains ys
plains-append [] ys = refl
plains-append (x ∷ xs) ys = ap (λ t. plain x ∷ t) (plains-append xs ys)

mark_sync-plains : (b : Bool) (os : List Order) → plains (mark_sync b os) ≡ plains os
unfolding mark_sync
mark_sync-plains true [] = refl
mark_sync-plains true (o ∷ os) = refl
mark_sync-plains false os = refl

-- What a write does to the two buffers.
pub written_buffers :
    (db_options : DatabaseOptions) (o : Order) (w : WriteBuffer)
    → w.stop_requested ≡ false
    → w.im_copy ≡ not w.im_live
    → let w' = written db_options o w in
      (w'.im_live ≡ w.im_live)
      × (w'.im_copy ≡ w.im_copy)
      × (buffer_live w' ≡ buffer_live w ++ (accept db_options o ∷ []))
      × (buffer_copy w' ≡ buffer_copy w)
      × (at w'.im_copy w'.sizes ≡ at w.im_copy w.sizes)
unfolding write_part
written_buffers db_options o w h e = rw h (
  refl,
  refl,
  at-set_at w.im_live _ w.buffers,
  at-set_at_other w.im_live w.im_copy _ w.buffers e,
  at-set_at_other w.im_live w.im_copy _ w.sizes e,
)

-- What the start of a flush does to the two buffers, where the one being persisted is empty.
start_flush_buffers :
    (force_sync : Bool) (w : WriteBuffer)
    → w.im_copy ≡ not w.im_live
    → IsEmptyCopy w
    → let w' = start_flush force_sync w in
      (w'.im_copy ≡ not w'.im_live)
      × (buffer_copy w' ≡ mark_sync force_sync (buffer_live w))
      × (buffer_live w' ≡ [])
unfolding start_flush swap
start_flush_buffers force_sync w e c = rw (c.size) (
  not-not e,
  at-set_at w.im_live _ w.buffers,
  at-set_at_other w.im_live w.im_copy _ w.buffers e ∙ c.orders,
)

clear_copy_buffers :
    (w : WriteBuffer)
    → w.im_copy ≡ not w.im_live
    → IsEmptyCopy (clear_copy w) × (buffer_live (clear_copy w) ≡ buffer_live w)
unfolding clear_copy
clear_copy_buffers w e = (
  record { orders = at-set_at w.im_copy [] w.buffers; size = at-set_at w.im_copy (pos 0) w.sizes },
  at-set_at_other w.im_copy w.im_live [] w.buffers (not-not e),
)

pub written_open :
    (db_options : DatabaseOptions) (o : Order) (w : WriteBuffer)
    → w.stop_requested ≡ false
    → (written db_options o w).stop_requested ≡ false
unfolding write_part
written_open db_options o w h = rw h refl

refused :
    (db_options : DatabaseOptions) (o : Order) (w : WriteBuffer)
    → w.stop_requested ≡ true
    → written db_options o w ≡ w
unfolding write_part
refused db_options o w h = rw h

waits : (s : System) → s.phase ≡ waiting → CopyFits s.phase s → IsEmptyCopy s.buffer
waits s h c = subst (λ p. CopyFits p s) h c

copy_keeps :
    (phase : Phase) (s t : System)
    → t.flushed ≡ s.flushed
    → buffer_copy t.buffer ≡ buffer_copy s.buffer
    → at t.buffer.im_copy t.buffer.sizes ≡ at s.buffer.im_copy s.buffer.sizes
    → CopyFits phase s
    → CopyFits phase t
copy_keeps waiting s t f c z e = record { orders = c ∙ e.orders; size = z ∙ e.size }
copy_keeps flushing s t f c z (before, e) = (before, f ∙ e ∙ ap (λ os. before ++ os) (sym c))

accepted_one :
    (accepted flushed live : List Order) (o : Order)
    → plains accepted ≡ plains (flushed ++ live)
    → plains (accepted ++ (o ∷ [])) ≡ plains (flushed ++ (live ++ (o ∷ [])))
accepted_one accepted flushed live o e =
    plains-append accepted (o ∷ [])
    ∙ ap (λ os. os ++ (plain o ∷ [])) e
    ∙ sym (plains-append (flushed ++ live) (o ∷ []))
    ∙ ap plains (append_assoc flushed live (o ∷ []))

Step-IsQueue : {s t : System} → Step s t → IsQueue s → IsQueue t
Step-IsQueue (step_write db_options o s h) q =
    let (l, c, live, copy, size) = written_buffers db_options o s.buffer h q.two in
    record {
      two = rw (l, c) q.two;
      order =
          accepted_one s.accepted s.flushed (buffer_live s.buffer) (accept db_options o) q.order
          ∙ ap (λ os. plains (s.flushed ++ os)) (sym live);
      copy = copy_keeps s.phase s _ refl copy size q.copy;
    }
Step-IsQueue (step_refuse db_options o s h) q = rw (refused db_options o s.buffer h) q
Step-IsQueue (step_flush force_sync s h busy) q =
    let (two, copy, live) = start_flush_buffers force_sync s.buffer q.two (waits s h q.copy) in
    record {
      two = two;
      order =
          q.order
          ∙ plains-append s.flushed (buffer_live s.buffer)
          ∙ ap (λ os. plains s.flushed ++ os)
              (sym (mark_sync-plains force_sync (buffer_live s.buffer)))
          ∙ sym (plains-append s.flushed (mark_sync force_sync (buffer_live s.buffer)))
          ∙ ap (λ os. plains (s.flushed ++ os)) (sym copy)
          ∙ ap plains (
              sym (append-nil _)
              ∙ ap (λ os. (s.flushed ++ buffer_copy (start_flush force_sync s.buffer)) ++ os)
                  (sym live));
      copy = (s.flushed, refl);
    }
Step-IsQueue (step_clear s h r) q =
    let (copy, live) = clear_copy_buffers s.buffer q.two in
    record {
      two = unfold clear_copy in q.two;
      order = q.order ∙ ap (λ os. plains (s.flushed ++ os)) (sym live);
      copy = copy;
    }
Step-IsQueue (step_readers n s) q = record {
  two = q.two;
  order = q.order;
  copy = copy_keeps s.phase s _ refl refl refl q.copy;
}
Step-IsQueue (step_stop s) q = record {
  two = q.two;
  order = q.order;
  copy = copy_keeps s.phase s _ refl refl refl q.copy;
}

Reachable-IsQueue : {s : System} → Reachable s → IsQueue s
Reachable-IsQueue reach_initial = record {
  two = refl;
  order = refl;
  copy = record { orders = refl; size = refl };
}
Reachable-IsQueue (reach_step r st) = Step-IsQueue st (Reachable-IsQueue r)

-- However the writers, the readers and the thread of ProcessingLoop interleave: the orders that the
-- storage engine was given, followed by those in the live buffer, are the orders that were accepted,
-- each once and in their order, sync flags aside. While the storage engine works, the other buffer
-- holds the last orders that it was given; before and after, that buffer is empty.
pub Reachable-order :
    (s : System)
    → Reachable s
    → (plains s.accepted ≡ plains (s.flushed ++ buffer_live s.buffer)) × CopyFits s.phase s
Reachable-order s r = let q = Reachable-IsQueue r in (q.order, q.copy)
