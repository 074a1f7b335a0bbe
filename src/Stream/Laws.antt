-- ===== src/Stream/Laws.antt =====
-- tunnel.go: what the operations of a stream manager keep and change.
use mathlib.Core.Option
use message_boy.Base.{
  ℕ, ◌+◌, ◌%◌, ◌≤◌, ◌≡◌, refl, ◌∙◌, false, [], ◌∷◌, Option, none, some, arith, Bytes, ◌==◌,
  if◌then◌else◌, Map, nat_eq, lookup, insert, delete, lookup-insert, lookup-delete, Option-cases,
  inl, inr,
}
use message_boy.Stream.{
  Stream, StreamManager, close_stream, write_stream, update_ref, add_stream, new_stream,
  remove_stream, close_refs, close_all, close, write, fresh_stream,
}

-- Every entry of the map leads to an allocated stream with the entry's id.
pub record IsWellFormed (sm : StreamManager) : Type 0 where
  pub entries :
      (id r : ℕ)
      → lookup id sm.streams ≡ some r
      → Option.map (λ s. s.id) (lookup r sm.heap) ≡ some id
  pub allocated : (r : ℕ) → sm.next_ref ≤ r → lookup r sm.heap ≡ none

-- A change through one reference is seen through that reference only.
pub lookup-update_ref :
    (r q : ℕ) (f : Stream → Stream) (heap : Map ℕ Stream)
    → lookup q (update_ref r f heap)
      ≡ (if r == q then Option.map f (lookup q heap) else lookup q heap)
unfolding update_ref
lookup-update_ref r q f heap = go (lookup r heap) refl
  where
    go :
        (o : Option Stream)
        → lookup r heap ≡ o
        → lookup q (update_ref r f heap)
          ≡ (if r == q then Option.map f (lookup q heap) else lookup q heap)
    go none e = rw (e, update_ref) (ground (arith, e))
    go (some t) e = rw (e, update_ref, lookup-insert r q (f t) heap) (ground (arith, e))

pub add_stream-IsWellFormed :
    (s : Stream) (sm : StreamManager) → IsWellFormed sm → IsWellFormed (add_stream s sm).0
unfolding add_stream
add_stream-IsWellFormed s sm v = record {
  entries = λ id r h. ground (
    arith,
    lookup-insert s.id id sm.next_ref sm.streams,
    lookup-insert sm.next_ref r s sm.heap,
    v.entries id r,
    v.allocated r,
  );
  allocated = λ r h. ground (arith, lookup-insert sm.next_ref r s sm.heap, v.allocated r);
}

pub new_stream-IsWellFormed :
    (target : Bytes) (sm : StreamManager) → IsWellFormed sm → IsWellFormed (new_stream target sm).0
unfolding new_stream
new_stream-IsWellFormed target sm v =
    add_stream-IsWellFormed (fresh_stream ((sm.next_id + 1) % 4294967296) target)
      (record sm { next_id = (sm.next_id + 1) % 4294967296 })
      (record { entries = v.entries; allocated = v.allocated })

-- Closing an object leaves ids and references as they are.
close_id :
    (o : Option Stream)
    → Option.map (λ s. s.id) (Option.map close_stream o) ≡ Option.map (λ s. s.id) o
unfolding close_stream
close_id none = refl
close_id (some s) = ground arith

close_ref_id :
    (r q : ℕ) (heap : Map ℕ Stream)
    → Option.map (λ s. s.id) (lookup q (update_ref r close_stream heap))
      ≡ Option.map (λ s. s.id) (lookup q heap)
close_ref_id r q heap =
    rw (lookup-update_ref r q close_stream heap) (ground (arith, close_id (lookup q heap)))

pub close-IsWellFormed : (r : ℕ) (sm : StreamManager) → IsWellFormed sm → IsWellFormed (close r sm)
unfolding close
close-IsWellFormed r sm v = record {
  entries = λ id q h. close_ref_id r q sm.heap ∙ v.entries id q h;
  allocated = λ q h. ground (arith, lookup-update_ref r q close_stream sm.heap, v.allocated q h);
}

-- The two branches of `RemoveStream`.
pub remove_stream_found :
    (id r : ℕ) (sm : StreamManager)
    → lookup id sm.streams ≡ some r
    → remove_stream id sm ≡ record (close r sm) { streams = delete id sm.streams }
unfolding remove_stream close
remove_stream_found id r sm e = rw (e, remove_stream)

pub remove_stream_missing :
    (id : ℕ) (sm : StreamManager) → lookup id sm.streams ≡ none → remove_stream id sm ≡ sm
unfolding remove_stream
remove_stream_missing id sm e = rw (e, remove_stream)

delete-IsWellFormed :
    (id : ℕ) (sm : StreamManager)
    → IsWellFormed sm
    → IsWellFormed (record sm { streams = delete id sm.streams })
delete-IsWellFormed id sm v = record {
  entries = λ j q h. ground (arith, lookup-delete id j sm.streams, v.entries j q);
  allocated = v.allocated;
}

pub remove_stream-IsWellFormed :
    (id : ℕ) (sm : StreamManager) → IsWellFormed sm → IsWellFormed (remove_stream id sm)
unfolding close
remove_stream-IsWellFormed id sm v = elim (Option-cases (lookup id sm.streams)) [
  | inl e ↦ rw (remove_stream_missing id sm e) v
  | inr (r, e) ↦
      rw (remove_stream_found id r sm e)
        (delete-IsWellFormed id (close r sm) (close-IsWellFormed r sm v))
]

write_id : (bytes : Bytes) (s : Stream) → (write_stream bytes s).0.id ≡ s.id
unfolding write_stream
write_id bytes s = ground arith

pub write_found :
    (r : ℕ) (bytes : Bytes) (sm : StreamManager) (s : Stream)
    → lookup r sm.heap ≡ some s
    → write r bytes sm
      ≡ (record sm { heap = insert r (write_stream bytes s).0 sm.heap }, (write_stream bytes s).1)
unfolding write
write_found r bytes sm s e = rw (e, write)

pub write_missing :
    (r : ℕ) (bytes : Bytes) (sm : StreamManager)
    → lookup r sm.heap ≡ none
    → write r bytes sm ≡ (sm, false)
unfolding write
write_missing r bytes sm e = rw (e, write)

pub write-IsWellFormed :
    (r : ℕ) (bytes : Bytes) (sm : StreamManager)
    → IsWellFormed sm
    → IsWellFormed (write r bytes sm).0
write-IsWellFormed r bytes sm v = elim (Option-cases (lookup r sm.heap)) [
  | inl e ↦ rw (write_missing r bytes sm e) v
  | inr (s, e) ↦ rw (write_found r bytes sm s e) (record {
    entries = λ id q h. ground (
      arith,
      e,
      lookup-insert r q (write_stream bytes s).0 sm.heap,
      write_id bytes s,
      v.entries id q h,
    );
    allocated = λ q h.
        ground (arith, e, lookup-insert r q (write_stream bytes s).0 sm.heap, v.allocated q h);
  })
]

close_refs-IsWellFormed :
    (table : Map ℕ ℕ) (sm : StreamManager)
    → IsWellFormed sm
    → IsWellFormed (record sm { heap = close_refs table sm.heap })
unfolding close_refs close
close_refs-IsWellFormed [] sm v = v
close_refs-IsWellFormed ((id, r) ∷ rest) sm v =
    close_refs-IsWellFormed rest (close r sm) (close-IsWellFormed r sm v)

pub close_all-IsWellFormed : (sm : StreamManager) → IsWellFormed sm → IsWellFormed (close_all sm)
unfolding close_all lookup
close_all-IsWellFormed sm v = record {
  entries = λ id r h. absurd (cc h);
  allocated = (close_refs-IsWellFormed sm.streams sm v).allocated;
}
