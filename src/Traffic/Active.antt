-- ===== src/Traffic/Active.antt =====
-- traffic_counter.go: the number of open connections of a rule.
use message_boy.Base.{
  ℕ, ◌+◌, ◌-◌, ◌%◌, ◌<◌, ◌≡◌, refl, ap, ◌∙◌, inl, inr, Bool, true, false, List, [], ◌∷◌, ◌++◌,
  arith, Bytes, if◌then◌else◌, Bool-cases, bytes_eq, lookup, lookup-insert, str_eq, str_eq_iff,
}
use message_boy.Traffic.{is_positive_int32}
use message_boy.Traffic.Counter.{
  RuleTraffic, TrafficReport, TrafficCounter, get_or_create, with_stat, more_in, more_out,
  opened_one, closed_one, add_bytes_in, add_bytes_out, increment_conn, decrement_conn, count_bytes,
  get_and_reset,
}
use message_boy.Traffic.Conservation.{Event, moved, opened, closed, reported, step, run}

abbrev pub active : Bytes → TrafficCounter → ℕ
active rule tc = (get_or_create rule tc).active_conns

-- Connections that are open after the events, if `n` are before: a close without one is ignored.
pub open_after : Bytes → List Event → ℕ → ℕ
open_after rule [] n = n
open_after rule (opened k ∷ es) n = open_after rule es (if str_eq k rule then n + 1 else n)
open_after rule (closed k ∷ es) n = open_after rule es (if str_eq k rule then n - 1 else n)
open_after rule (moved is_in k m ∷ es) n = open_after rule es n
open_after rule (reported ∷ es) n = open_after rule es n

-- How many of the events open a connection.
unfoldable pub opens : Bytes → List Event → ℕ
opens rule [] = 0
opens rule (opened k ∷ es) = (if str_eq k rule then 1 else 0) + opens rule es
opens rule (closed k ∷ es) = opens rule es
opens rule (moved is_in k m ∷ es) = opens rule es
opens rule (reported ∷ es) = opens rule es

get_or_create-with_stat :
    (rule k : Bytes) (f : RuleTraffic → RuleTraffic) (tc : TrafficCounter)
    → get_or_create rule (with_stat k f tc)
      ≡ (if str_eq k rule then f (get_or_create k tc) else get_or_create rule tc)
unfolding get_or_create with_stat
get_or_create-with_stat rule k f tc =
    rw (lookup-insert k rule (f (get_or_create k tc)) tc, get_or_create)
      (elim (Bool-cases (str_eq k rule)) [ inl here ↦ rw here refl | inr other ↦ rw other refl ])

active-with_stat :
    (rule k : Bytes) (f : RuleTraffic → RuleTraffic) (g : ℕ → ℕ) (tc : TrafficCounter)
    → ((s : RuleTraffic) → (f s).active_conns ≡ g s.active_conns)
    → active rule (with_stat k f tc)
      ≡ (if str_eq k rule then g (active rule tc) else active rule tc)
active-with_stat rule k f g tc h = elim (Bool-cases (str_eq k rule)) [
  | inl here ↦
      let same : k ≡ rule = (str_eq_iff k rule).0 here in
      ap (λ (s : RuleTraffic). s.active_conns) (get_or_create-with_stat rule k f tc)
      ∙ rw (here, same) (h (get_or_create rule tc))
  | inr other ↦
      ap (λ (s : RuleTraffic). s.active_conns) (get_or_create-with_stat rule k f tc) ∙ rw other refl
]

active-get_and_reset :
    (rule : Bytes) (tc : TrafficCounter) → active rule (get_and_reset tc).0 ≡ active rule tc
unfolding get_or_create get_and_reset lookup
active-get_and_reset rule [] = refl
active-get_and_reset rule ((k, s) ∷ tc) = elim (Bool-cases (str_eq k rule)) [
  | inl here ↦ rw (here, active, get_or_create) refl
  | inr other ↦ rw (other, active, get_or_create) (active-get_and_reset rule tc)
]

active-count_bytes :
    (is_in : Bool) (rule k : Bytes) (n : ℕ) (tc : TrafficCounter)
    → active rule (count_bytes is_in k n tc) ≡ active rule tc
unfolding count_bytes add_bytes_in add_bytes_out
active-count_bytes true rule k n tc =
    let kept = active-with_stat rule k (more_in n) (λ a. a) tc (λ s. refl) in ground arith
active-count_bytes false rule k n tc =
    let kept = active-with_stat rule k (more_out n) (λ a. a) tc (λ s. refl) in ground arith

active-increment :
    (rule k : Bytes) (tc : TrafficCounter)
    → active rule tc < 2147483648
    → active rule (increment_conn k tc)
      ≡ (if str_eq k rule then active rule tc + 1 else active rule tc)
unfolding increment_conn
active-increment rule k tc h =
    let same = active-with_stat rule k opened_one (λ a. (a + 1) % 4294967296) tc (λ s. refl) in
    ground arith

active-decrement :
    (rule k : Bytes) (tc : TrafficCounter)
    → active rule tc < 2147483648
    → active rule (decrement_conn k tc)
      ≡ (if str_eq k rule then active rule tc - 1 else active rule tc)
unfolding decrement_conn
active-decrement rule k tc h =
    let same =
      active-with_stat rule k closed_one (λ a. if is_positive_int32 a then a - 1 else a) tc
        (λ s. ground arith) in
    ground arith

-- The counter of open connections follows the connections: it is the number of those that are open,
-- never below zero, whatever is moved or reported in between, for fewer than 2^31 openings.
pub active-run :
    (rule : Bytes) (es : List Event) (tc : TrafficCounter) (reports : List TrafficReport)
    → active rule tc + opens rule es < 2147483648
    → active rule (run es (tc, reports)).0 ≡ open_after rule es (active rule tc)
unfolding run step opens open_after
active-run rule [] tc reports h = refl
active-run rule (opened k ∷ es) tc reports h =
    let same = active-increment rule k tc (omega arith) in
    active-run rule es (increment_conn k tc) reports (ground arith) ∙ ap (open_after rule es) same
active-run rule (closed k ∷ es) tc reports h =
    let same = active-decrement rule k tc (omega arith) in
    active-run rule es (decrement_conn k tc) reports (ground arith) ∙ ap (open_after rule es) same
active-run rule (moved is_in k n ∷ es) tc reports h =
    let same = active-count_bytes is_in rule k n tc in
    active-run rule es (count_bytes is_in k n tc) reports (omega arith)
    ∙ ap (open_after rule es) same
active-run rule (reported ∷ es) tc reports h =
    let same = active-get_and_reset rule tc in
    active-run rule es (get_and_reset tc).0 (reports ++ (get_and_reset tc).1) (omega arith)
    ∙ ap (open_after rule es) same
