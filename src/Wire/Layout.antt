-- ===== src/Wire/Layout.antt =====
-- tunnel.go, MarshalTo: its writes through slices lay the frame over the front of the buffer.
use message_boy.Base.{
  ℕ, zero, suc, ◌+◌, ◌%◌, ◌≤◌, min, ◌≡◌, refl, ap, ◌∙◌, [], ◌∷◌, ◌++◌, append_assoc, append-nil,
  arith, Bytes, length, take, drop, length-append, length-take,
}
use message_boy.Wire.{
  TunnelMessage, Shape, raw, dial, report, empty, header_size, max_string_len, put_uint16,
  put_uint32, overlay, with_tail, write_string, string_size, write_header, write_body,
}

-- A string on the wire: its length in two bytes, then at most 4096 bytes of it.
unfoldable pub string_bytes : Bytes → Bytes
string_bytes s = let l = min (length s) max_string_len in put_uint16 (l % 65536) ++ take l s

unfoldable pub header_bytes : TunnelMessage → ℕ → Bytes
header_bytes m size = (m.type ∷ []) ++ (put_uint32 m.stream_id ++ put_uint32 (size % 4294967296))

unfoldable pub body_bytes : Shape → TunnelMessage → Bytes
body_bytes raw m = m.payload
body_bytes dial m = string_bytes m.target ++ (string_bytes m.rule_id ++ m.payload)
body_bytes report m = string_bytes m.error
body_bytes empty m = []

pub with_tail-overlay :
    (n : ℕ) (f : Bytes → Bytes) (xs ys buf : Bytes)
    → length xs ≡ n
    → ((t : Bytes) → f t ≡ overlay ys t)
    → with_tail n f (overlay xs buf) ≡ overlay (xs ++ ys) buf
unfolding with_tail overlay
with_tail-overlay zero f [] ys buf e h = h buf
with_tail-overlay zero f (x ∷ xs) ys buf e h = absurd (omega arith)
with_tail-overlay (suc n) f [] ys buf e h = absurd (omega arith)
with_tail-overlay (suc n) f (x ∷ xs) ys [] e h = refl
with_tail-overlay (suc n) f (x ∷ xs) ys (b ∷ buf) e h =
    ap (λ t. x ∷ t) (with_tail-overlay n f xs ys buf (omega arith) h)

pub write_string-overlay : (s t : Bytes) → write_string s t ≡ overlay (string_bytes s) t
unfolding write_string string_bytes put_uint16
write_string-overlay s t = with_tail-overlay 2 (overlay _) _ _ t refl (λ _. refl)

pub length-string_bytes : (s : Bytes) → length (string_bytes s) ≡ string_size s
unfolding string_bytes string_size put_uint16
length-string_bytes s = omega (arith, length-take (min (length s) max_string_len) s)

pub length-header_bytes :
    (m : TunnelMessage) (size : ℕ) → length (header_bytes m size) ≡ header_size
unfolding header_bytes put_uint32
length-header_bytes m size = refl

pub write_header-overlay :
    (m : TunnelMessage) (size : ℕ) (buf : Bytes)
    → write_header m size buf ≡ overlay (header_bytes m size) buf
unfolding write_header header_bytes put_uint32
write_header-overlay m size buf =
    let stream : Bytes = (m.type ∷ []) ++ put_uint32 m.stream_id in
    ap (with_tail 5 (overlay (put_uint32 (size % 4294967296))))
      (with_tail-overlay 1 (overlay (put_uint32 m.stream_id)) (m.type ∷ []) _ buf refl (λ _. refl))
    ∙ with_tail-overlay 5 (overlay (put_uint32 (size % 4294967296))) stream _ buf refl (λ _. refl)

write_body_dial :
    (m : TunnelMessage) (hdr buf : Bytes)
    → length hdr ≡ header_size
    → write_body dial m (overlay hdr buf) ≡ overlay (hdr ++ body_bytes dial m) buf
unfolding write_body body_bytes
write_body_dial m hdr buf e =
    rw
      (with_tail-overlay header_size (write_string m.target) hdr _ buf e
        (write_string-overlay m.target))
      (rw
        (with_tail-overlay (header_size + string_size m.target) (write_string m.rule_id)
          (hdr ++ string_bytes m.target) _ buf front (write_string-overlay m.rule_id))
        (rw
          (with_tail-overlay (header_size + string_size m.target + string_size m.rule_id)
            (overlay m.payload) ((hdr ++ string_bytes m.target) ++ string_bytes m.rule_id) _ buf
            both (λ _. refl))
          (simp append_assoc)))
  where
    front : length (hdr ++ string_bytes m.target) ≡ header_size + string_size m.target
    front = omega (arith, length-append hdr (string_bytes m.target), length-string_bytes m.target)

    both :
        length ((hdr ++ string_bytes m.target) ++ string_bytes m.rule_id)
        ≡ header_size + string_size m.target + string_size m.rule_id
    both = omega (
      arith,
      length-append (hdr ++ string_bytes m.target) (string_bytes m.rule_id),
      length-string_bytes m.rule_id,
      front,
    )

pub write_body-overlay :
    (k : Shape) (m : TunnelMessage) (hdr buf : Bytes)
    → length hdr ≡ header_size
    → write_body k m (overlay hdr buf) ≡ overlay (hdr ++ body_bytes k m) buf
unfolding write_body body_bytes
write_body-overlay raw m hdr buf e =
    with_tail-overlay header_size (overlay m.payload) hdr _ buf e (λ _. refl)
write_body-overlay dial m hdr buf e = write_body_dial m hdr buf e
write_body-overlay report m hdr buf e =
    with_tail-overlay header_size (write_string m.error) hdr _ buf e (write_string-overlay m.error)
write_body-overlay empty m hdr buf e = rw append-nil

pub take-overlay :
    (n : ℕ) (xs buf : Bytes) → length xs ≡ n → n ≤ length buf → take n (overlay xs buf) ≡ xs
unfolding overlay
take-overlay zero [] buf e h = refl
take-overlay zero (x ∷ xs) buf e h = absurd (omega arith)
take-overlay (suc n) [] buf e h = absurd (omega arith)
take-overlay (suc n) (x ∷ xs) [] e h = absurd (omega arith)
take-overlay (suc n) (x ∷ xs) (b ∷ buf) e h =
    ap (λ t. x ∷ t) (take-overlay n xs buf (omega arith) (omega arith))

-- `copy` into a long enough buffer replaces its front and keeps the rest.
pub overlay-append :
    (xs buf : Bytes) → length xs ≤ length buf → overlay xs buf ≡ xs ++ drop (length xs) buf
unfolding overlay
overlay-append [] buf h = refl
overlay-append (x ∷ xs) [] h = absurd (omega arith)
overlay-append (x ∷ xs) (b ∷ buf) h = ap (λ t. x ∷ t) (overlay-append xs buf (omega arith))
