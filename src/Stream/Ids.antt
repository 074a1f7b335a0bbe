-- ===== src/Stream/Ids.antt =====
-- tunnel.go, NewStream and AddStream: which object a stream id leads to.
use message_boy.Base.{
  ℕ, ◌+◌, ◌%◌, ◌<◌, ◌≡◌, ◌≢◌, refl, List, [], ◌∷◌, none, some, arith, Bytes, length, nat_eq, lookup,
  insert, delete, lookup-insert, lookup-delete,
}
use message_boy.Stream.{
  Stream, StreamManager, get_stream, add_stream, new_stream, remove_stream, close, close_stream,
}
use message_boy.Stream.Laws.{IsWellFormed, lookup-update_ref, remove_stream_found}

-- A run of `NewStream`, one for each target.
pub open_streams : List Bytes → StreamManager → StreamManager
open_streams [] sm = sm
open_streams (t ∷ ts) sm = open_streams ts (new_stream t sm).0

pub next_id-open_streams :
    (ts : List Bytes) (sm : StreamManager)
    → sm.next_id < 4294967296
    → (open_streams ts sm).next_id ≡ (sm.next_id + length ts) % 4294967296
unfolding open_streams new_stream add_stream
next_id-open_streams [] sm h = omega arith
next_id-open_streams (t ∷ ts) sm h =
    omega (arith, next_id-open_streams ts (new_stream t sm).0 (omega arith))

next_id_small : (t : Bytes) (sm : StreamManager) → (new_stream t sm).0.next_id < 4294967296
unfolding new_stream add_stream
next_id_small t sm = omega arith

new_stream_id :
    (t : Bytes) (sm : StreamManager) → (new_stream t sm).0.next_id ≡ (sm.next_id + 1) % 4294967296
unfolding new_stream add_stream
new_stream_id t sm = refl

-- Two streams of one manager have different ids if fewer than 2^32 were opened from the one to the
-- other: the stream opened for `t`, and the one opened for `u` after the targets `ts` in between.
pub new_stream_distinct :
    (t u : Bytes) (ts : List Bytes) (sm : StreamManager)
    → length ts + 1 < 4294967296
    → (new_stream t sm).0.next_id ≢ (new_stream u (open_streams ts (new_stream t sm).0)).0.next_id
new_stream_distinct t u ts sm few e =
    let later = next_id-open_streams ts (new_stream t sm).0 (next_id_small t sm) in
    let last = new_stream_id u (open_streams ts (new_stream t sm).0) in
    omega (arith, later, last, next_id_small t sm, e)

-- A stream that is added under an id in use takes the id over: the object that had it is as open as
-- it was, is not found by its id any more, and removing the id closes the new object and not it.
pub add_stream_takes_over :
    (s : Stream) (r : ℕ) (old : Stream) (sm : StreamManager)
    → IsWellFormed sm
    → get_stream s.id sm ≡ some r
    → lookup r sm.heap ≡ some old
    → (get_stream s.id (add_stream s sm).0 ≡ some sm.next_ref)
      × (r ≢ sm.next_ref)
      × (lookup r (remove_stream s.id (add_stream s sm).0).heap ≡ some old)
      × (lookup sm.next_ref (remove_stream s.id (add_stream s sm).0).heap ≡ some (close_stream s))
      × (get_stream s.id (remove_stream s.id (add_stream s sm).0) ≡ none)
unfolding close add_stream get_stream
add_stream_takes_over s r old sm v used e = (
  found,
  apart,
  rw removed (
      ground (
        arith,
        apart,
        lookup-update_ref sm.next_ref r close_stream (insert sm.next_ref s sm.heap),
        lookup-insert sm.next_ref r s sm.heap,
        e,
      )),
  rw removed (
      ground (
        arith,
        lookup-update_ref sm.next_ref sm.next_ref close_stream (insert sm.next_ref s sm.heap),
        lookup-insert sm.next_ref sm.next_ref s sm.heap,
      )),
  rw removed (ground (arith, lookup-delete s.id s.id (insert s.id sm.next_ref sm.streams))),
)
  where
    found : get_stream s.id (add_stream s sm).0 ≡ some sm.next_ref
    found = ground (arith, lookup-insert s.id s.id sm.next_ref sm.streams)

    apart : r ≢ sm.next_ref
    apart h = ground (arith, v.allocated r)

    removed :
        remove_stream s.id (add_stream s sm).0 ≡ record (close sm.next_ref (add_stream s sm).0) {
          streams = delete s.id (add_stream s sm).0.streams;
        }
    removed = remove_stream_found s.id sm.next_ref (add_stream s sm).0 found
