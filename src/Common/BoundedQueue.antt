-- ===== src/Common/BoundedQueue.antt =====
-- `BoundedQueue` (common/bounded_queue.h). Each method holds the lock for all that it does, so the
-- calls of several threads are one sequence of calls.
use cqupt_block_storage.Base.{
  ℕ, ◌≤◌, ◌≡◌, refl, ◌∙◌, List, [], ◌∷◌, ◌++◌, append_assoc, length, length-append, Bool, true,
  false, Option, none, some, leb, ◌==◌, if◌then◌else◌, arith,
}
use cqupt_block_storage.Common.Status.{Result, ok, err, ⊤, busy, resource_exhausted, retry_later}

module _ (A : Type 0) where
  pub record BoundedQueue : Type 0 where
    pub capacity : ℕ
    pub queue : List A
    pub closed : Bool

  -- `BoundedQueue(capacity)`
  abbrev pub new_queue : ℕ → BoundedQueue
  new_queue capacity = record { capacity = capacity; queue = []; closed = false }

  unfoldable pub push : A → BoundedQueue → Result ⊤ × BoundedQueue
  push value q =
      if q.closed
      then (err busy, q)
      else if q.capacity == 0
      then (err resource_exhausted, q)
      else if leb q.capacity (length q.queue)
      then (err resource_exhausted, q)
      else (ok tt, record q { queue = q.queue ++ (value ∷ []) })

  -- `none` while the call waits: the queue is open and empty
  unfoldable pub pop : BoundedQueue → Option (Result A × BoundedQueue)
  pop q = elim q.queue [
    | [] ↦ if q.closed then some (err retry_later, q) else none
    | a ∷ rest ↦ some (ok a, record q { queue = rest })
  ]

  unfoldable pub close : BoundedQueue → BoundedQueue
  close q = record q { closed = true }

  -- A call; a `pop` that waits is taken up again as a later call.
  pub data Call : Type 0 where
    push_call : A → Call
    pop_call close_call : Call

  -- The queue with the values that were accepted and the values that were handed out.
  pub record Trace : Type 0 where
    pub at_end : BoundedQueue
    pub accepted : List A
    pub handed_out : List A

  abbrev pushed : A → Result ⊤ × BoundedQueue → Trace → Trace
  pushed a (ok _, q) t = record {
    at_end = q;
    accepted = t.accepted ++ (a ∷ []);
    handed_out = t.handed_out;
  }
  pushed a (err e, q) t = record t { at_end = q }

  abbrev popped : Option (Result A × BoundedQueue) → Trace → Trace
  popped none t = t
  popped (some (ok a, q)) t = record {
    at_end = q;
    accepted = t.accepted;
    handed_out = t.handed_out ++ (a ∷ []);
  }
  popped (some (err e, q)) t = record t { at_end = q }

  unfoldable pub call : Call → Trace → Trace
  unfolding push pop close
  call (push_call a) t = pushed a (push a t.at_end) t
  call pop_call t = popped (pop t.at_end) t
  call close_call t = record t { at_end = close t.at_end }

  unfoldable pub calls : List Call → Trace → Trace
  unfolding call
  calls [] t = t
  calls (c ∷ cs) t = calls cs (call c t)

  -- What is handed out and what is left is what was accepted, in its order, and the queue is within
  -- its capacity.
  abbrev pub IsFifo : ℕ → Trace → Type 0
  IsFifo capacity t =
      (t.handed_out ++ t.at_end.queue ≡ t.accepted)
      × (t.at_end.capacity ≡ capacity)
      × (length t.at_end.queue ≤ capacity)

  pop-IsFifo :
      (n c : ℕ) (closed : Bool) (xs ys zs : List A)
      → let t : Trace = record {
        at_end = record { capacity = c; queue = xs; closed = closed };
        accepted = ys;
        handed_out = zs;
      } in
        IsFifo n t → IsFifo n (popped (pop t.at_end) t)
  unfolding pop
  pop-IsFifo n c true [] ys zs v = v
  pop-IsFifo n c false [] ys zs v = v
  pop-IsFifo n c closed (x ∷ xs) ys zs (e, d, l) =
      (append_assoc zs (x ∷ []) xs ∙ e, d, omega (arith, l))

  call-IsFifo : (n : ℕ) (c : Call) (t : Trace) → IsFifo n t → IsFifo n (call c t)
  unfolding call push pop close
  call-IsFifo n (push_call a) t (e, c, l) = (
    ground (arith, e, append_assoc t.handed_out t.at_end.queue (a ∷ [])),
    ground (arith, c),
    ground (arith, c, l, length-append t.at_end.queue (a ∷ [])),
  )
  call-IsFifo n pop_call t v =
      pop-IsFifo n t.at_end.capacity t.at_end.closed t.at_end.queue t.accepted t.handed_out v
  call-IsFifo n close_call t v = v

  calls-IsFifo : (n : ℕ) (cs : List Call) (t : Trace) → IsFifo n t → IsFifo n (calls cs t)
  unfolding calls
  calls-IsFifo n [] t v = v
  calls-IsFifo n (c ∷ cs) t v = calls-IsFifo n cs (call c t) (call-IsFifo n c t v)

-- After any calls on a queue that was made with a capacity, the values that were handed out,
-- followed by those in the queue, are the values that were accepted, in the order in which they
-- were; and the queue holds no more values than its capacity.
pub new_queue-IsFifo :
    (A : Type 0) (n : ℕ) (cs : List (Call A))
    → IsFifo A n (calls A cs (record { at_end = new_queue A n; accepted = []; handed_out = [] }))
new_queue-IsFifo A n cs =
    calls-IsFifo A n cs (record { at_end = new_queue A n; accepted = []; handed_out = [] })
      (refl, refl, omega arith)
