-- ===== src/Hub/Keys.antt =====
-- ws_server.go, routeKey: the text under which a route is stored.
use native.Mathlib.Nat.{pow-suc}
use message_boy.Base.{
  ℕ, zero, suc, ◌+◌, ◌-◌, ◌*◌, ◌/◌, ◌%◌, ◌^◌, ◌<◌, ◌≡◌, ◌≢◌, refl, sym, ap, ◌∙◌, [], ◌∷◌, ◌++◌,
  arith, Bytes, ltb, if◌then◌else◌, All, All-append, Bool-cases, inl, inr, ltb→lt, str_eq,
  str_eq_iff, false,
}

-- `strconv.FormatUint(n, 10)` for a number below 10^fuel.
unfoldable pub digits : ℕ → ℕ → Bytes
digits zero n = []
digits (suc f) n =
    let rest = digits f (n / 10) ++ (48 + n % 10) ∷ [] in if ltb n 10 then (48 + n) ∷ [] else rest

-- A stream id has at most ten digits.
unfoldable pub format_uint : ℕ → Bytes
unfolding digits
format_uint n = digits 10 n

unfoldable pub route_key : Bytes → ℕ → Bytes
route_key client_id stream_id = client_id ++ 58 ∷ format_uint stream_id

-- The number that digits spell behind `n`.
value : ℕ → Bytes → ℕ
value n [] = n
value n (c ∷ s) = value (n * 10 + (c - 48)) s

value-append : (s : Bytes) (n c : ℕ) → value n (s ++ c ∷ []) ≡ value n s * 10 + (c - 48)
unfolding value
value-append [] n c = refl
value-append (b ∷ s) n c = value-append s (n * 10 + (b - 48)) c

value-digits : (f n : ℕ) → n < 10 ^ f → value 0 (digits f n) ≡ n
unfolding digits value
value-digits zero n h = omega arith
value-digits (suc f) n h =
    ground (
      arith,
      pow-suc 10 f,
      value-append (digits f (n / 10)) 0 (48 + n % 10),
      value-digits f (n / 10),
    )

-- A decimal text has no colon.
abbrev NoColon : Bytes → Type 0
NoColon = All (λ c. c ≢ 58)

digits-NoColon : (f n : ℕ) → NoColon (digits f n)
unfolding digits
digits-NoColon zero n = tt
digits-NoColon (suc f) n = elim (Bool-cases (ltb n 10)) [
  | inl small ↦ let lt = ltb→lt _ _ small in rw small ((λ e. omega arith), tt)
  | inr large ↦ rw large (
      All-append _ (digits f (n / 10)) ((48 + n % 10) ∷ []) (digits-NoColon f (n / 10))
        ((λ e. omega arith), tt))
]

not-NoColon : (s t : Bytes) → ¬ NoColon (s ++ 58 ∷ t)
not-NoColon [] t h = h.0 refl
not-NoColon (c ∷ s) t h = not-NoColon s t h.1

-- The last colon splits a key.
split_at_colon :
    (s t d e : Bytes) → NoColon d → NoColon e → s ++ 58 ∷ d ≡ t ++ 58 ∷ e → (s ≡ t) × (d ≡ e)
split_at_colon [] [] d e hd he h = (refl, cc)
split_at_colon [] (c ∷ t) d e hd he h =
    let same : d ≡ t ++ 58 ∷ e = cc in absurd (not-NoColon t e (rw same at hd))
split_at_colon (c ∷ s) [] d e hd he h =
    let same : s ++ 58 ∷ d ≡ e = cc in absurd (not-NoColon s d (rw (← same) at he))
split_at_colon (c ∷ s) (b ∷ t) d e hd he h =
    let (p, q) = split_at_colon s t d e hd he (cc) in let first : c ≡ b = cc in (cc, q)

-- Two routes have the same key only if they belong to the same client and stream, whatever bytes the
-- client's id holds: the stream ids are 32 bits.
pub route_key_injective :
    (c d : Bytes) (i j : ℕ)
    → i < 4294967296
    → j < 4294967296
    → route_key c i ≡ route_key d j
    → (c ≡ d) × (i ≡ j)
unfolding route_key digits format_uint
route_key_injective c d i j hi hj h =
    let (p, q) =
      split_at_colon c d (digits 10 i) (digits 10 j) (digits-NoColon 10 i) (digits-NoColon 10 j)
        h in
    (p, sym (value-digits 10 i (omega arith)) ∙ ap (value 0) q ∙ value-digits 10 j (omega arith))

-- The keys of two clients differ.
pub keys_apart :
    (a b : Bytes) (i : ℕ) → i < 4294967296 → a ≢ b → str_eq (route_key a i) (route_key b i) ≡ false
keys_apart a b i h ne = elim (Bool-cases (str_eq (route_key a i) (route_key b i))) [
  | inl same ↦
      absurd (
        ne
          (route_key_injective a b i i h h ((str_eq_iff (route_key a i) (route_key b i)).0 same)).0)
  | inr apart ↦ apart
]
