-- ===== src/Tunnel/Retry.antt =====
-- internal/client/client.go, registerWithRetry: ten attempts with delays that double. Delays are in
-- seconds; `register` answers whether the i-th attempt succeeds, and `stopped` whether `stopCh` is
-- closed before it.
use message_boy.Base.{
  ℕ, zero, suc, ◌+◌, ◌^◌, ◌≤◌, ◌<◌, ◌≡◌, inl, inr, refl, sym, ap, ◌∙◌, arith, Bool, true, false,
  Bool-cases, List, [], ◌∷◌, ltb, if◌then◌else◌,
}

abbrev pub max_retries : ℕ
max_retries = 10

-- The delay behind the attempt `i`: doubled each time, and 30 seconds at most.
unfoldable pub delay : ℕ → ℕ
delay i = if ltb 30 (2 ^ i) then 30 else 2 ^ i

pub data Registration : Type 0 where
  registered stopped exceeded : Registration

-- The attempts from `i` on, `left` of them, with the delays that were slept through.
unfoldable pub attempts : (ℕ → Bool) → (ℕ → Bool) → ℕ → ℕ → List ℕ × Registration
unfolding delay
attempts register stop zero i = ([], exceeded)
attempts register stop (suc left) i =
    let (delays, result) = attempts register stop left (i + 1) in
    if stop i
    then ([], stopped)
    else if register i
    then ([], registered)
    else (delay i ∷ delays, result)

unfoldable pub register_with_retry : (ℕ → Bool) → (ℕ → Bool) → List ℕ × Registration
unfolding attempts
register_with_retry register stop = attempts register stop max_retries 0

abbrev pub sum : List ℕ → ℕ
sum [] = 0
sum (n ∷ ns) = n + sum ns

-- The delays of `n` attempts that fail, from the attempt `i` on.
abbrev pub delays_from : ℕ → ℕ → List ℕ
delays_from i zero = []
delays_from i (suc n) = delay i ∷ delays_from (i + 1) n

abbrev pub AllFail : (ℕ → Bool) → (ℕ → Bool) → ℕ → ℕ → Type 0
AllFail register stop i zero = Unit
AllFail register stop i (suc n) =
    (stop i ≡ false) × (register i ≡ false) × AllFail register stop (i + 1) n

-- How it ends after `n` failures that began with `i`, of `left` attempts.
abbrev pub IsEnd : (ℕ → Bool) → (ℕ → Bool) → ℕ → ℕ → ℕ → Registration → Type 0
IsEnd register stop i left n registered =
    (n < left) × (stop (i + n) ≡ false) × (register (i + n) ≡ true)
IsEnd register stop i left n stopped = (n < left) × (stop (i + n) ≡ true)
IsEnd register stop i left n exceeded = n ≡ left

abbrev pub IsOutcome : (ℕ → Bool) → (ℕ → Bool) → ℕ → ℕ → List ℕ × Registration → Type 0
IsOutcome register stop i left (delays, result) =
    (n : ℕ) × (delays ≡ delays_from i n)
    × AllFail register stop i n
    × IsEnd register stop i left n result

later-IsEnd :
    (register stop : ℕ → Bool) (i left n : ℕ) (result : Registration)
    → IsEnd register stop (i + 1) left n result
    → IsEnd register stop i (suc left) (suc n) result
later-IsEnd register stop i left n registered (lt, live, done) =
    let e : i + 1 + n ≡ i + suc n = omega arith in
    (omega arith, ap stop (sym e) ∙ live, ap register (sym e) ∙ done)
later-IsEnd register stop i left n stopped (lt, halted) =
    let e : i + 1 + n ≡ i + suc n = omega arith in (omega arith, ap stop (sym e) ∙ halted)
later-IsEnd register stop i left n exceeded e = omega arith

attempts-IsOutcome :
    (register stop : ℕ → Bool) (left i : ℕ)
    → IsOutcome register stop i left (attempts register stop left i)
unfolding attempts
attempts-IsOutcome register stop zero i = (0, refl, tt, refl)
attempts-IsOutcome register stop (suc left) i =
    let now : i + 0 ≡ i = omega arith in
    elim (Bool-cases (stop i)) [
      | inl halted ↦ rw halted (0, refl, tt, (omega arith, ap stop now ∙ halted))
      | inr live ↦ elim (Bool-cases (register i)) [
        | inl done ↦
            rw (live, done) (0, refl, tt, (omega arith, ap stop now ∙ live, ap register now ∙ done))
        | inr bad ↦
            let (n, delays, fails, end) = attempts-IsOutcome register stop left (i + 1) in
            rw (live, bad)
              (
                suc n,
                ap (λ l. delay i ∷ l) delays,
                (live, bad, fails),
                later-IsEnd register stop i left n (attempts register stop left (i + 1)).1 end,
              )
      ]
    ]

sum_mono : (i n m : ℕ) → n ≤ m → sum (delays_from i n) ≤ sum (delays_from i m)
sum_mono i zero m h = omega arith
sum_mono i (suc n) zero h = absurd (omega arith)
sum_mono i (suc n) (suc m) h = let rest = sum_mono (i + 1) n m (omega arith) in omega arith

sum_ten : sum (delays_from 0 10) ≡ 181
unfolding delay
sum_ten = refl

-- registerWithRetry ends after at most ten attempts and 181 seconds of delays, which double from one
-- second up to 30. It ends with the first attempt that succeeds, with the first that finds the client
-- stopped, or after ten that failed.
pub register_with_retry_lem :
    (register stop : ℕ → Bool)
    → IsOutcome register stop 0 max_retries (register_with_retry register stop)
      × (sum (register_with_retry register stop).0 ≤ 181)
unfolding register_with_retry
register_with_retry_lem register stop =
    let outcome = attempts-IsOutcome register stop 10 0 in
    (outcome, rw outcome.1 (bounded outcome.0 (few outcome.0 _ outcome.3)))
  where
    few : (n : ℕ) (result : Registration) → IsEnd register stop 0 10 n result → n ≤ 10
    few n registered e = omega (arith, e.0)
    few n stopped e = omega (arith, e.0)
    few n exceeded e = omega (arith, e)

    bounded : (n : ℕ) → n ≤ 10 → sum (delays_from 0 n) ≤ 181
    bounded n h = let m = sum_mono 0 n 10 h in omega (arith, sum_ten)
