-- ===== src/Concurrent/Clients/Conserved.antt =====
-- The bounded queue of include/simlib/concurrent/bounded_queue.hh under any interleaving: slots, order
-- of the elements, and tokens of the second semaphore.
use simlib.Common.{
  ℕ, zero, suc, ◌+◌, ◌<◌, ◌≤◌, ◌≡◌, refl, sym, ap, List, [], ◌∷◌, ◌++◌, ◌⊎◌, inl, inr, Option, none,
  some, arith, length, length-append, append_assoc,
}
use simlib.Concurrent.{
  BoundedQueue, wait, enqueue, extract_elem_opt, pop_opt, signal_no_more_elems,
  increment_queue_size,
}
use simlib.Concurrent.Clients.{
  Clients, start, Step, Reach, push_waits, push_enters, pop_waits, pop_enters, pop_refused, signals,
  increments, at_start, later,
}

pub record Inv {ℓ} {Elem : Type ℓ} (s : Clients Elem) : Type ℓ where
  -- Each slot is free, held by a thread about to push, or filled.
  pub space : s.queue.free_slots + (length s.pushing + length s.queue.elems) ≡ s.slots
  -- Each element that is queued, and each signal, has its token, in the semaphore or in the hands of
  -- a thread about to pop.
  pub tokens : s.queue.queued_elems + s.popping ≡ length s.queue.elems + s.signalled
  pub order : s.came_in ≡ s.came_out ++ s.queue.elems
  pub refusals : (s.refused ≡ 0) ⊎ (0 < s.signalled)

pub wait-some : (n m : ℕ) → wait n ≡ some m → n ≡ suc m
wait-some zero m e = absurd (cc e)
wait-some (suc n) m e = ground arith

increment_queue_size-fields {ℓ} :
    {Elem : Type ℓ} (q : BoundedQueue Elem) (times : ℕ)
    → ((increment_queue_size q times).free_slots ≡ q.free_slots + times)
      × ((increment_queue_size q times).queued_elems ≡ q.queued_elems)
      × ((increment_queue_size q times).elems ≡ q.elems)
unfolding increment_queue_size
increment_queue_size-fields q zero = (omega arith, refl, refl)
increment_queue_size-fields q (suc times) =
    let ih = increment_queue_size-fields (record q { free_slots = suc q.free_slots }) times in
    (omega (arith, ih.0), ih.1, ih.2)

push_enters-length {ℓ} :
    {Elem : Type ℓ} (front back : List Elem) (elem : Elem)
    → length (front ++ elem ∷ back) ≡ suc (length (front ++ back))
push_enters-length front back elem =
    omega (arith, length-append front (elem ∷ back), length-append front back)

module _ {ℓ} {Elem : Type ℓ} where
  start-Inv : (max_size : ℕ) → Inv (start {Elem = Elem} max_size)
  start-Inv max_size = record {
    space = omega arith;
    tokens = refl;
    order = refl;
    refusals = inl refl;
  }

  -- What `extract_elem_opt` gives, taken apart.
  pub extract_some :
      (q q' : BoundedQueue Elem) (x : Elem)
      → extract_elem_opt q ≡ (some x, q')
      → (q'.free_slots ≡ suc q.free_slots)
        × (q'.queued_elems ≡ q.queued_elems)
        × (q.elems ≡ x ∷ q'.elems)
  unfolding extract_elem_opt
  extract_some q q' x e = (ground arith, ground arith, ground arith)

  pub extract_none :
      (q q' : BoundedQueue Elem)
      → extract_elem_opt q ≡ (none, q')
      → (q'.free_slots ≡ q.free_slots)
        × (q'.queued_elems ≡ suc q.queued_elems)
        × (q.elems ≡ [])
        × (q'.elems ≡ [])
  unfolding extract_elem_opt
  extract_none q q' e = (ground arith, ground arith, ground arith, ground arith)

  extract_nothing : (q : BoundedQueue Elem) → (extract_elem_opt q).0 ≡ none → q.elems ≡ []
  unfolding extract_elem_opt
  extract_nothing q e = ground arith

  abbrev pub first : List Elem → Option Elem
  first [] = none
  first (x ∷ xs) = some x

  pop_opt-first :
      (q : BoundedQueue Elem)
      → 0 < q.queued_elems
      → (q' : BoundedQueue Elem) × (pop_opt q ≡ some (first q.elems, q'))
  unfolding pop_opt
  pop_opt-first q h = go q.free_slots q.queued_elems q.elems h
    where
      go :
          (free queued : ℕ) (elems : List Elem)
          → 0 < queued
          → let q : BoundedQueue Elem = record {
            free_slots = free;
            queued_elems = queued;
            elems = elems;
          } in
            (q' : BoundedQueue Elem) × (pop_opt q ≡ some (first elems, q'))
      go free zero elems h = absurd (omega arith)
      go free (suc queued) [] h = (_, refl)
      go free (suc queued) (x ∷ xs) h = (_, refl)

  Step-Inv : {s t : Clients Elem} → Step s t → Inv s → Inv t
  Step-Inv {s} (push_waits elem value e) h = record {
    space = omega (arith, h.space, wait-some _ _ e);
    tokens = h.tokens;
    order = h.order;
    refusals = h.refusals;
  }
  Step-Inv {s} (push_enters front back elem e) h =
      unfold enqueue in
      record {
        space = omega (
          arith,
          h.space,
          ap length e,
          push_enters-length front back elem,
          length-append s.queue.elems (elem ∷ []),
        );
        tokens = omega (arith, h.tokens, length-append s.queue.elems (elem ∷ []));
        order = rw h.order (append_assoc s.came_out s.queue.elems (elem ∷ []));
        refusals = h.refusals;
      }
  Step-Inv {s} (pop_waits value e) h = record {
    space = h.space;
    tokens = omega (arith, h.tokens, wait-some _ _ e);
    order = h.order;
    refusals = h.refusals;
  }
  Step-Inv {s} (pop_enters others elem queue p e) h =
      let (free, queued, elems) = extract_some s.queue queue elem e in
      record {
        space = omega (arith, h.space, ap length elems, free);
        tokens = omega (arith, h.tokens, ap length elems, queued, p);
        order = rw h.order (rw elems (sym (append_assoc s.came_out (elem ∷ []) queue.elems)));
        refusals = h.refusals;
      }
  Step-Inv {s} (pop_refused others queue p e) h =
      let (free, queued, elems, elems') = extract_none s.queue queue e in
      record {
        space = omega (arith, h.space, ap length elems, ap length elems', free);
        tokens = omega (arith, h.tokens, ap length elems, ap length elems', queued, p);
        order = rw h.order (rw (elems, elems'));
        refusals = inr (omega (arith, h.tokens, ap length elems, p));
      }
  Step-Inv {s} signals h =
      unfold signal_no_more_elems in
      record {
        space = h.space;
        tokens = omega (arith, h.tokens);
        order = h.order;
        refusals = inr (omega arith);
      }
  Step-Inv {s} (increments times) h =
      let (free, queued, elems) = increment_queue_size-fields s.queue times in
      record {
        space = omega (arith, h.space, free, ap length elems);
        tokens = omega (arith, h.tokens, queued, ap length elems);
        order = rw elems h.order;
        refusals = h.refusals;
      }

  Reach-Inv : {max_size : ℕ} {s : Clients Elem} → Reach max_size s → Inv s
  Reach-Inv {max_size} at_start = start-Inv max_size
  Reach-Inv (later r step) = Step-Inv step (Reach-Inv r)

  -- However the threads at a bounded queue interleave, each of its slots is free, reserved by a thread
  -- that is about to push, or filled, so it never holds more elements than it has slots; and what came
  -- out of it, followed by what is in it, is what came in, in that order.
  pub Reach-fifo :
      {max_size : ℕ} {s : Clients Elem}
      → Reach max_size s
      → (s.queue.free_slots + (length s.pushing + length s.queue.elems) ≡ s.slots)
        × (length s.queue.elems ≤ s.slots)
        × (s.came_in ≡ s.came_out ++ s.queue.elems)
  Reach-fifo r = let h = Reach-Inv r in (h.space, omega (arith, h.space), h.order)

  -- However the threads at a bounded queue interleave: a pop that has waited finds no element only
  -- where signal_no_more_elems was called. Where it was called and no pop is between its wait and the
  -- mutex, a pop does not block: it gives the first element, and nothing where there is none.
  pub Reach-no_more :
      {max_size : ℕ} {s : Clients Elem}
      → Reach max_size s
      → (0 < s.popping → (extract_elem_opt s.queue).0 ≡ none → 0 < s.signalled)
        × (0 < s.signalled
            → s.popping ≡ 0
            → (q : BoundedQueue Elem) × (pop_opt s.queue ≡ some (first s.queue.elems, q)))
  Reach-no_more {s} r =
      let h = Reach-Inv r in
      (
        λ some_popping none_left.
            omega (arith, h.tokens, some_popping, ap length (extract_nothing s.queue none_left)),
        λ ended nobody. pop_opt-first s.queue (omega (arith, h.tokens)),
      )
