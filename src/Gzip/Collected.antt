-- ===== src/Gzip/Collected.antt =====
-- What a chunk writer leaves in its queue when it is dropped.
use http_serve.Base.{ℕ, ◌≡◌, ◌≤◌, refl, sym, ◌∙◌, subst, true, [], Bytes}
use http_serve.Chunker.{Shared, drop_writer, Writer}
use http_serve.Chunker.System.{after_call, System, drops, step}
use http_serve.Chunker.Invariant.{Inv}
use http_serve.Chunker.Calls.{step-Inv}
use http_serve.Chunker.Closed.{Closed, left, dropped-Closed}
use http_serve.Gzip.Progress.{Open, RawTaken}

module _ {E : Type 0} (reserve : ℕ → ℕ) (enough : (n : ℕ) → n ≤ reserve n) where
  -- The queue that a dropped writer leaves behind still has all the bytes.
  pub drop_writer-Closed :
      (w : Writer) (shared : Shared E) (plain : Bytes)
      → RawTaken w shared plain
      → Closed (drop_writer w shared).shared.state
        × (left (drop_writer w shared).shared.state ≡ plain)
  drop_writer-Closed w shared plain t =
      rw (t.writer_eq, t.shared_eq) (go t.system t.open_ok t.accepted_eq t.unread)
    where
      go :
          (s : System E)
          → Open s
          → s.accepted ≡ plain
          → s.delivered ≡ []
          → Closed (drop_writer s.writer s.shared).shared.state
            × (left (drop_writer s.writer s.shared).shared.state ≡ plain)
      go s o same unread =
          let after = record (after_call s (drop_writer s.writer s.shared)) { dropped = true } in
          let next : step reserve s drops ≡ after = unfold step in rw o.held refl in
          let inv = subst Inv next (step-Inv reserve enough s drops o.inv) in
          let (closed, conserved) =
            dropped-Closed after.shared.state after.shared.waker after inv.state_ok o.whole refl in
          (closed, sym (sym same ∙ conserved ∙ rw unread refl))
