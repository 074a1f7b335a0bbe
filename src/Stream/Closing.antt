-- ===== src/Stream/Closing.antt =====
-- tunnel.go: which streams are closed by Close, RemoveStream and CloseAll.
use mathlib.Core.Option
use message_boy.Base.{
  ℕ, ◌≡◌, ◌≢◌, refl, ◌∙◌, Bool, true, false, ◌||◌, [], ◌∷◌, Option, none, some, arith, ◌==◌,
  if◌then◌else◌, Map, nat_eq, lookup, lookup-delete,
}
use message_boy.Stream.{
  Stream, StreamManager, close_stream, update_ref, get_stream, remove_stream, close_refs, close_all,
  close,
}
use message_boy.Stream.Laws.{lookup-update_ref, remove_stream_found}

pub close_stream_closed : (s : Stream) → (close_stream s).closed ≡ true
unfolding close_stream
close_stream_closed s = ground arith

-- Closing twice is closing once.
pub close_stream_idem : (s : Stream) → close_stream (close_stream s) ≡ close_stream s
unfolding close_stream
close_stream_idem s = ground arith

-- Some entry of the map leads to the object.
pub refers : ℕ → Map ℕ ℕ → Bool
refers q [] = false
refers q ((id, r) ∷ rest) = r == q || refers q rest

refers-lookup : (id r : ℕ) (table : Map ℕ ℕ) → lookup id table ≡ some r → refers r table ≡ true
unfolding refers lookup
refers-lookup id r [] h = cc
refers-lookup id r ((j, q) ∷ rest) h = ground (arith, refers-lookup id r rest)

map_close_idem :
    (o : Option Stream)
    → Option.map close_stream (Option.map close_stream o) ≡ Option.map close_stream o
map_close_idem none = refl
map_close_idem (some s) = cc (close_stream_idem s)

lookup-close_refs :
    (q : ℕ) (table : Map ℕ ℕ) (heap : Map ℕ Stream)
    → lookup q (close_refs table heap)
      ≡ (if refers q table then Option.map close_stream (lookup q heap) else lookup q heap)
unfolding close_refs refers
lookup-close_refs q [] heap = refl
lookup-close_refs q ((id, r) ∷ rest) heap =
    rw
      (
        lookup-close_refs q rest (update_ref r close_stream heap),
        lookup-update_ref r q close_stream heap,
      )
      (ground (arith, map_close_idem (lookup q heap)))

-- CloseAll closes every stream that the manager has an entry for, leaves every other object as it
-- was, and leaves no id in use.
pub close_all_lem :
    (sm : StreamManager)
    → ((id r : ℕ) (s : Stream)
        → get_stream id sm ≡ some r
        → lookup r sm.heap ≡ some s
        → lookup r (close_all sm).heap ≡ some (close_stream s))
      × ((q : ℕ) → refers q sm.streams ≡ false → lookup q (close_all sm).heap ≡ lookup q sm.heap)
      × ((id : ℕ) → get_stream id (close_all sm) ≡ none)
unfolding close_all get_stream lookup
close_all_lem sm = (
  (λ id r s used e.
      lookup-close_refs r sm.streams sm.heap
      ∙ ground (arith, refers-lookup id r sm.streams used, e)),
  (λ q no_entry. lookup-close_refs q sm.streams sm.heap ∙ ground arith),
  (λ id. refl),
)

-- RemoveStream of an id in use closes its object and no other, and forgets the id and no other.
pub remove_stream_lem :
    (id r : ℕ) (sm : StreamManager) (s : Stream)
    → get_stream id sm ≡ some r
    → lookup r sm.heap ≡ some s
    → (lookup r (remove_stream id sm).heap ≡ some (close_stream s))
      × ((q : ℕ) → q ≢ r → lookup q (remove_stream id sm).heap ≡ lookup q sm.heap)
      × ((j : ℕ) → get_stream j (remove_stream id sm) ≡ (if id == j then none else get_stream j sm))
unfolding get_stream close
remove_stream_lem id r sm s used e = rw (remove_stream_found id r sm used) (
  ground (arith, lookup-update_ref r r close_stream sm.heap, e),
  (λ q ne. ground (arith, lookup-update_ref r q close_stream sm.heap)),
  (λ j. lookup-delete id j sm.streams),
)
