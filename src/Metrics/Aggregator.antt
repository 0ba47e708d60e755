-- ===== src/Metrics/Aggregator.antt =====
-- The counters of a backend (src/metrics/aggregator.rs) and the ring of the last requests
-- (src/metrics/ring.rs). Of a record only what the counters read is kept; the averages are floats
-- and are left out. A `u64` counter wraps around; the sums saturate.
use anycode.Base.{
  ℕ, suc, ◌+◌, ◌-◌, ◌%◌, ◌≤◌, ◌<◌, ◌≡◌, refl, sym, ap, ◌∙◌, Bool, true, false, ◌&&◌, ◌||◌, Option,
  none, some, List, [], ◌∷◌, ◌++◌, ◌==◌, leb, ltb, min, length, length-append, append-nil,
  append_assoc, drop, arith, if◌then◌else◌,
}

pub record RequestRecord : Type 0 where
  pub status : Option ℕ
  pub timed_out : Bool
  pub latency_ms : Option ℕ
  pub ttfb_ms : Option ℕ

pub record BackendAccumulator : Type 0 where
  pub total : ℕ
  pub success_2xx : ℕ
  pub client_error_4xx : ℕ
  pub server_error_5xx : ℕ
  pub timeouts : ℕ
  pub latency_total_ms : ℕ
  pub latency_samples : ℕ
  pub ttfb_total_ms : ℕ
  pub ttfb_samples : ℕ

abbrev pub default : BackendAccumulator
default = record {
  total = 0;
  success_2xx = 0;
  client_error_4xx = 0;
  server_error_5xx = 0;
  timeouts = 0;
  latency_total_ms = 0;
  latency_samples = 0;
  ttfb_total_ms = 0;
  ttfb_samples = 0;
}

abbrev pub increment : ℕ → ℕ
increment n = (n + 1) % 18446744073709551616

abbrev saturating_add : ℕ → ℕ → ℕ
saturating_add a b = min (a + b) 18446744073709551615

-- `(low..high).contains(&status)`
abbrev pub within : ℕ → ℕ → ℕ → Bool
within low high status = leb low status && ltb status high

abbrev count_status : Option ℕ → BackendAccumulator → BackendAccumulator
count_status none a = a
count_status (some status) a =
    if within 200 300 status
    then record a { success_2xx = increment a.success_2xx }
    else if within 400 500 status
    then record a { client_error_4xx = increment a.client_error_4xx }
    else if within 500 600 status
    then record a { server_error_5xx = increment a.server_error_5xx }
    else a

abbrev is_504 : Option ℕ → Bool
is_504 none = false
is_504 (some status) = status == 504

abbrev count_timeout : Bool → BackendAccumulator → BackendAccumulator
count_timeout timed_out a = if timed_out then record a { timeouts = increment a.timeouts } else a

abbrev count_latency : Option ℕ → BackendAccumulator → BackendAccumulator
count_latency none a = a
count_latency (some ms) a = record a {
  latency_total_ms = saturating_add a.latency_total_ms ms;
  latency_samples = increment a.latency_samples;
}

abbrev count_ttfb : Option ℕ → BackendAccumulator → BackendAccumulator
count_ttfb none a = a
count_ttfb (some ms) a = record a {
  ttfb_total_ms = saturating_add a.ttfb_total_ms ms;
  ttfb_samples = increment a.ttfb_samples;
}

unfoldable pub update : BackendAccumulator → RequestRecord → BackendAccumulator
update a r = count_ttfb r.ttfb_ms (
    count_latency r.latency_ms (
      count_timeout (r.timed_out || is_504 r.status)
        (count_status r.status (record a { total = increment a.total }))))

unfoldable pub update_all : BackendAccumulator → List RequestRecord → BackendAccumulator
unfolding update
update_all a [] = a
update_all a (r ∷ rs) = update_all (update a r) rs

-- The ring: the oldest record makes room when it is full.
abbrev pop_front : List RequestRecord → List RequestRecord
pop_front [] = []
pop_front (r ∷ rs) = rs

unfoldable pub push : ℕ → List RequestRecord → RequestRecord → List RequestRecord
push capacity records r =
    (if length records == capacity then pop_front records else records) ++ r ∷ []

unfoldable pub push_all : ℕ → List RequestRecord → List RequestRecord → List RequestRecord
unfolding push
push_all capacity records [] = records
push_all capacity records (r ∷ rs) = push_all capacity (push capacity records r) rs

-- The number of requests that pass a test.
abbrev pub count : (RequestRecord → Bool) → List RequestRecord → ℕ
count p [] = 0
count p (r ∷ rs) = let rest = count p rs in if p r then suc rest else rest

abbrev pub has_status : ℕ → ℕ → RequestRecord → Bool
has_status low high r = elim r.status [ none ↦ false | some s ↦ within low high s ]

abbrev pub has_timed_out : RequestRecord → Bool
has_timed_out r = r.timed_out || is_504 r.status

-- The counters are those of so many requests more.
pub record Counts (a b : BackendAccumulator) (rs : List RequestRecord) : Type 0 where
  pub total : b.total ≡ a.total + length rs
  pub success_2xx : b.success_2xx ≡ a.success_2xx + count (has_status 200 300) rs
  pub client_error_4xx : b.client_error_4xx ≡ a.client_error_4xx + count (has_status 400 500) rs
  pub server_error_5xx : b.server_error_5xx ≡ a.server_error_5xx + count (has_status 500 600) rs
  pub timeouts : b.timeouts ≡ a.timeouts + count has_timed_out rs

-- No counter can reach the limit of 64 bits during so many requests.
pub record Room (a : BackendAccumulator) (n : ℕ) : Type 0 where
  pub total : a.total + n < 18446744073709551616
  pub success_2xx : a.success_2xx + n < 18446744073709551616
  pub client_error_4xx : a.client_error_4xx + n < 18446744073709551616
  pub server_error_5xx : a.server_error_5xx + n < 18446744073709551616
  pub timeouts : a.timeouts + n < 18446744073709551616

increment-lt : (n : ℕ) → n + 1 < 18446744073709551616 → increment n ≡ n + 1
increment-lt n lt = omega arith

-- One request more.
abbrev bit : Bool → ℕ
bit true = 1
bit false = 0

update-Counts :
    (a : BackendAccumulator) (r : RequestRecord)
    → Room a 1
    → ((update a r).total ≡ a.total + 1)
      × ((update a r).success_2xx ≡ a.success_2xx + bit (has_status 200 300 r))
      × ((update a r).client_error_4xx ≡ a.client_error_4xx + bit (has_status 400 500 r))
      × ((update a r).server_error_5xx ≡ a.server_error_5xx + bit (has_status 500 600 r))
      × ((update a r).timeouts ≡ a.timeouts + bit (has_timed_out r))
unfolding update
update-Counts a r room = ground (
  arith,
  increment-lt a.total room.total,
  increment-lt a.success_2xx room.success_2xx,
  increment-lt a.client_error_4xx room.client_error_4xx,
  increment-lt a.server_error_5xx room.server_error_5xx,
  increment-lt a.timeouts room.timeouts,
)

count-cons :
    (p : RequestRecord → Bool) (r : RequestRecord) (rs : List RequestRecord)
    → count p (r ∷ rs) ≡ bit (p r) + count p rs
count-cons p r rs = go (p r)
  where
    go : (b : Bool) → (if b then suc (count p rs) else count p rs) ≡ bit b + count p rs
    go true = omega arith
    go false = omega arith

bit-le : (b : Bool) → bit b ≤ 1
bit-le true = omega arith
bit-le false = omega arith

-- As long as no counter can reach the limit of 64 bits: after any requests, each counter has grown by
-- the number of the requests it stands for, which are those with a status of its class, and those
-- that timed out or were answered 504.
pub update_all-Counts :
    (a : BackendAccumulator) (rs : List RequestRecord)
    → Room a (length rs)
    → Counts a (update_all a rs) rs
unfolding update_all
update_all-Counts a [] room = record {
  total = omega arith;
  success_2xx = omega arith;
  client_error_4xx = omega arith;
  server_error_5xx = omega arith;
  timeouts = omega arith;
}
update_all-Counts a (r ∷ rs) room =
    let first : Room a 1 = record {
      total = omega (arith, room.total);
      success_2xx = omega (arith, room.success_2xx);
      client_error_4xx = omega (arith, room.client_error_4xx);
      server_error_5xx = omega (arith, room.server_error_5xx);
      timeouts = omega (arith, room.timeouts);
    } in
    let one = update-Counts a r first in
    let left : Room (update a r) (length rs) = record {
      total = omega (arith, room.total, one);
      success_2xx = omega (arith, room.success_2xx, one, bit-le (has_status 200 300 r));
      client_error_4xx = omega (arith, room.client_error_4xx, one, bit-le (has_status 400 500 r));
      server_error_5xx = omega (arith, room.server_error_5xx, one, bit-le (has_status 500 600 r));
      timeouts = omega (arith, room.timeouts, one, bit-le (has_timed_out r));
    } in
    let rest = update_all-Counts (update a r) rs left in
    record {
      total = omega (arith, rest.total, one);
      success_2xx = omega (arith, rest.success_2xx, one, count-cons (has_status 200 300) r rs);
      client_error_4xx =
          omega (arith, rest.client_error_4xx, one, count-cons (has_status 400 500) r rs);
      server_error_5xx =
          omega (arith, rest.server_error_5xx, one, count-cons (has_status 500 600) r rs);
      timeouts = omega (arith, rest.timeouts, one, count-cons has_timed_out r rs);
    }

-- The last records, as many as the ring holds.
abbrev last_records : ℕ → List RequestRecord → List RequestRecord
last_records n rs = drop (length rs - n) rs

drop-suc :
    (x : RequestRecord) (xs : List RequestRecord) (c : ℕ)
    → c ≤ length xs
    → last_records c (x ∷ xs) ≡ last_records c xs
drop-suc x xs c le =
    let e : suc (length xs) - c ≡ suc (length xs - c) = omega arith in ap (λ n. drop n (x ∷ xs)) e

push_all-last :
    (c : ℕ) (records rs : List RequestRecord)
    → 0 < c
    → length records ≤ c
    → push_all c records rs ≡ last_records c (records ++ rs)
unfolding push_all push
push_all-last c records [] pos le =
    let e : length (records ++ []) - c ≡ 0 = omega (arith, length-append records []) in
    sym (ap (λ n. drop n (records ++ [])) e ∙ append-nil records)
push_all-last c records (r ∷ rs) pos le =
    go records le (λ xs l. push_all-last c xs rs pos l) (length records == c) refl
  where
    go :
        (xs : List RequestRecord)
        → length xs ≤ c
        → ((ys : List RequestRecord) → length ys ≤ c → push_all c ys rs ≡ last_records c (ys ++ rs))
        → (b : Bool) → (length xs == c) ≡ b
        → push_all c ((if b then pop_front xs else xs) ++ r ∷ []) rs ≡ last_records c (xs ++ r ∷ rs)
    go [] l rec true e = absurd (ground arith)
    go (x ∷ xs) l rec true e =
        rec (xs ++ r ∷ []) (omega (arith, length-append xs (r ∷ [])))
        ∙ ap (last_records c) (append_assoc xs (r ∷ []) rs)
        ∙ sym (drop-suc x (xs ++ r ∷ rs) c (ground (arith, length-append xs (r ∷ rs))))
    go xs l rec false e =
        rec (xs ++ r ∷ []) (ground (arith, length-append xs (r ∷ [])))
        ∙ ap (last_records c) (append_assoc xs (r ∷ []) rs)

-- A ring that holds a record at least, and none at first, holds the last of the records that were
-- pushed, as many as fit, in their order.
pub push_all-last_records :
    (c : ℕ) (rs : List RequestRecord) → 0 < c → push_all c [] rs ≡ drop (length rs - c) rs
push_all-last_records c rs pos = push_all-last c [] rs pos (omega arith)
