-- ===== src/Stream.antt =====
-- internal/relay/tunnel.go, StreamManager and Stream: the streams that one connection multiplexes.
-- The goroutines hold pointers to streams, so the objects live in a store under references, and the
-- manager's map leads from stream ids to references.
pub mod Laws
pub mod Ids
pub mod Channel
pub mod Closing
use message_boy.Base.{
  ℕ, ◌+◌, ◌%◌, Bool, true, false, List, [], ◌∷◌, ◌++◌, Option, none, some, Bytes, ltb,
  if◌then◌else◌, length, Map, nat_eq, lookup, insert, delete,
}

-- The capacity of `DataCh`.
abbrev pub data_ch_cap : ℕ
data_ch_cap = 1024

-- `CloseCh` is closed exactly when `closed` is 1.
pub record Stream : Type 0 where
  pub id : ℕ
  pub target : Bytes
  pub data_ch : List Bytes
  pub closed : Bool
  pub dropped_messages : ℕ

abbrev pub fresh_stream : ℕ → Bytes → Stream
fresh_stream id target = record {
  id = id;
  target = target;
  data_ch = [];
  closed = false;
  dropped_messages = 0;
}

pub record StreamManager : Type 0 where
  pub heap : Map ℕ Stream
  pub next_ref : ℕ
  pub streams : Map ℕ ℕ
  pub next_id : ℕ

abbrev pub new_stream_manager : StreamManager
new_stream_manager = record { heap = []; next_ref = 0; streams = []; next_id = 1 }

-- `Close` on the object: the first call closes, later ones find it closed.
unfoldable pub close_stream : Stream → Stream
close_stream s = if s.closed then s else record s { closed = true }

-- `Write`: refused once closed, or if the channel is full, which is counted.
unfoldable pub write_stream : Bytes → Stream → Stream × Bool
write_stream bytes s =
    if s.closed
    then (s, false)
    else if ltb (length s.data_ch) data_ch_cap
    then (record s { data_ch = s.data_ch ++ bytes ∷ [] }, true)
    else (record s { dropped_messages = (s.dropped_messages + 1) % 18446744073709551616 }, false)

-- An object is changed in place.
unfoldable pub update_ref : ℕ → (Stream → Stream) → Map ℕ Stream → Map ℕ Stream
update_ref r f heap = elim (lookup r heap) [ none ↦ heap | some s ↦ insert r (f s) heap ]

unfoldable pub get_stream : ℕ → StreamManager → Option ℕ
get_stream id sm = lookup id sm.streams

-- `new(Stream)`, and its entry in the map under the stream's id.
unfoldable pub add_stream : Stream → StreamManager → StreamManager × ℕ
add_stream s sm = (
  record sm {
    heap = insert sm.next_ref s sm.heap;
    next_ref = sm.next_ref + 1;
    streams = insert s.id sm.next_ref sm.streams;
  },
  sm.next_ref,
)

-- The counter is advanced before it is read, modulo 2^32.
pub new_stream : Bytes → StreamManager → StreamManager × ℕ
unfolding add_stream
new_stream target sm =
    let id = (sm.next_id + 1) % 4294967296 in
    add_stream (fresh_stream id target) (record sm { next_id = id })

unfoldable pub remove_stream : ℕ → StreamManager → StreamManager
unfolding update_ref close_stream
remove_stream id sm = elim (lookup id sm.streams) [
  | none ↦ sm
  | some r ↦ record sm { heap = update_ref r close_stream sm.heap; streams = delete id sm.streams }
]

close_refs : Map ℕ ℕ → Map ℕ Stream → Map ℕ Stream
unfolding update_ref close_stream
close_refs [] heap = heap
close_refs ((id, r) ∷ rest) heap = close_refs rest (update_ref r close_stream heap)

pub close_all : StreamManager → StreamManager
unfolding close_refs
close_all sm = record sm { heap = close_refs sm.streams sm.heap; streams = [] }

-- `Close` and `Write` through a pointer.
unfoldable pub close : ℕ → StreamManager → StreamManager
unfolding update_ref close_stream
close r sm = record sm { heap = update_ref r close_stream sm.heap }

unfoldable pub write : ℕ → Bytes → StreamManager → StreamManager × Bool
unfolding write_stream
write r bytes sm = elim (lookup r sm.heap) [
  | none ↦ (sm, false)
  | some s ↦
      let (s', done) = write_stream bytes s in (record sm { heap = insert r s' sm.heap }, done)
]
