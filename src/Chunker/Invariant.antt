-- ===== src/Chunker/Invariant.antt =====
-- What holds of a writer, a reader and their queue after any calls in any order.
use http_serve.Base.{
  ℕ, ◌≤◌, ◌<◌, ◌≡◌, refl, ◌≢◌, ◌⊎◌, inl, Bool, true, false, Option, none, some, List, [], ◌∷◌, ◌++◌,
  Bytes, All, length, concat, total_length, ◌-◌, sym, ◌∙◌, inr, ◌||◌, append-nil, append_assoc,
  arith,
}
use http_serve.Chunker.{
  SharedState, live, failed, reader_fused, Shared, Writer, poll_state, abort_state, register,
}
use http_serve.Chunker.System.{System, wake, after_poll}

-- The vector holds a byte less than its capacity, or is new.
abbrev pub HasRoom : Writer → Type 0
HasRoom w = (length w.buf < w.capacity) ⊎ ((w.capacity ≡ 0) × (w.buf ≡ []))

-- `write` passes its assertions.
pub record WriterInv (w : Writer) : Type 0 where
  pub positive : 0 < w.cap
  pub reserved : (w.capacity ≡ 0) ⊎ (w.cap ≤ w.capacity)

-- A task that waits does so on an empty queue, and its waker is at hand.
abbrev pub Waits : List Bytes → Bool → Option ℕ → Option ℕ → Type 0
Waits queue dropped waker none = Unit
Waits queue dropped waker (some t) = (queue ≡ []) × (dropped ≡ false) × (waker ≡ some t)

-- A call of the waker leaves no task waiting.
pub woken_up :
    (queue : List Bytes) (d : Bool) (waker asleep : Option ℕ)
    → Waits queue d waker asleep
    → wake waker asleep ≡ none
woken_up queue d none none h = refl
woken_up queue d (some w) none h = refl
woken_up queue d none (some t) h = cc (h.2)
woken_up queue d (some w) (some t) h = ground (arith, h.2)

register-eq : (waker : Option ℕ) (cx : ℕ) → register waker cx ≡ some cx
register-eq none cx = refl
register-eq (some w) cx = ground arith

module _ {E : Type 0} where
  pub record LiveInv (queue : List Bytes) (bytes : ℕ) (dropped : Bool) (waker : Option ℕ)
      (s : System E) : Type 0 where
    pub conserved : s.accepted ≡ s.delivered ++ (concat queue ++ s.writer.buf)
    pub counted : bytes ≡ total_length queue
    pub nonempty : All (λ c. c ≢ []) queue
    pub told : dropped ≡ s.dropped
    pub emptied : s.dropped ≡ true → s.writer.buf ≡ []
    pub unbroken : s.aborted ≡ false
    pub waits : Waits queue dropped waker s.asleep

  -- The shared state is given apart from the system, so that it can be matched on.
  abbrev pub StateInv : SharedState E → Option ℕ → System E → Type 0
  StateInv (live queue bytes dropped) waker s =
      LiveInv queue bytes dropped waker s × HasRoom s.writer
  StateInv (failed e) waker s = (s.aborted ≡ true) × (s.asleep ≡ none)
  StateInv reader_fused waker s =
      ((s.aborted ≡ true) ⊎ ((s.accepted ≡ s.delivered) × (s.dropped ≡ true))) × (s.asleep ≡ none)

  pub record Inv (s : System E) : Type 0 where
    pub writer_ok : WriterInv s.writer
    pub state_ok : StateInv s.shared.state s.shared.waker s
    pub sound : s.crashed ≡ false

  -- The reader takes the first chunk.
  pop-LiveInv :
      (x : Bytes) (queue : List Bytes) (bytes : ℕ) (d : Bool) (waker : Option ℕ) (s : System E)
      (shared : Shared E)
      → LiveInv (x ∷ queue) bytes d waker s
      → LiveInv queue
          (bytes - length x)
          d
          waker
          (record s { shared = shared; delivered = s.delivered ++ x; asleep = none })
  pop-LiveInv x queue bytes d waker s shared i = record {
    conserved = i.conserved ∙ simp append_assoc;
    counted = omega (arith, i.counted);
    nonempty = i.nonempty.1;
    told = i.told;
    emptied = i.emptied;
    unbroken = i.unbroken;
    waits = tt;
  }

  -- With the writer dropped and nothing queued, everything was delivered.
  all_delivered :
      (bytes : ℕ) (waker : Option ℕ) (s : System E)
      → LiveInv [] bytes true waker s
      → (s.accepted ≡ s.delivered) × (s.dropped ≡ true)
  all_delivered bytes waker s i =
      (i.conserved ∙ rw (i.emptied (sym i.told)) (append-nil s.delivered), sym i.told)

  pub poll-Inv :
      (st : SharedState E) (waker : Option ℕ) (cx : ℕ) (s : System E)
      → WriterInv s.writer
      → s.crashed ≡ false
      → StateInv st waker s
      → Inv (after_poll s cx (poll_state st waker cx))
  unfolding poll_state
  poll-Inv (failed e) waker cx s w c (a, z) = record {
    writer_ok = w;
    state_ok = (inl a, refl);
    sound = c;
  }
  poll-Inv reader_fused waker cx s w c (a, z) = record {
    writer_ok = w;
    state_ok = (a, refl);
    sound = c;
  }
  poll-Inv (live [] bytes true) waker cx s w c (i, room) = record {
    writer_ok = w;
    state_ok = (inr (all_delivered bytes waker s i), refl);
    sound = c;
  }
  poll-Inv (live [] bytes false) waker cx s w c (i, room) = record {
    writer_ok = w;
    state_ok = (
      record {
        conserved = i.conserved;
        counted = i.counted;
        nonempty = tt;
        told = i.told;
        emptied = i.emptied;
        unbroken = i.unbroken;
        waits = (refl, refl, register-eq waker cx);
      },
      room,
    );
    sound = c;
  }
  poll-Inv (live (x ∷ []) bytes true) waker cx s w c (i, room) =
      let popped = pop-LiveInv x [] bytes true waker s s.shared i in
      record {
        writer_ok = w;
        state_ok = (inr (all_delivered (bytes - length x) waker _ popped), refl);
        sound = c;
      }
  poll-Inv (live (x ∷ []) bytes false) waker cx s w c (i, room) = record {
    writer_ok = w;
    state_ok = (pop-LiveInv x [] bytes false waker s _ i, room);
    sound = c;
  }
  poll-Inv (live (x ∷ y ∷ queue) bytes d) waker cx s w c (i, room) = record {
    writer_ok = w;
    state_ok = (pop-LiveInv x (y ∷ queue) bytes d waker s _ i, room);
    sound = c;
  }

  pub abort-Inv :
      (st : SharedState E) (waker : Option ℕ) (e : E) (s : System E)
      → WriterInv s.writer
      → s.crashed ≡ false
      → StateInv st waker s
      → Inv (record s {
        shared = (abort_state st waker e).0;
        asleep = wake (abort_state st waker e).1 s.asleep;
        crashed = s.crashed || false;
        aborted = true;
      })
  unfolding abort_state
  abort-Inv (failed _) waker e s w c (a, z) = record {
    writer_ok = w;
    state_ok = (refl, z);
    sound = ground arith;
  }
  abort-Inv reader_fused waker e s w c (a, z) = record {
    writer_ok = w;
    state_ok = (inl refl, z);
    sound = ground arith;
  }
  abort-Inv (live queue bytes d) waker e s w c (i, room) = record {
    writer_ok = w;
    state_ok = (refl, woken_up queue d waker s.asleep i.waits);
    sound = ground arith;
  }
