-- ===== src/RateLimit/Rate.antt =====
-- What a client gets through, in exact arithmetic: instants are microseconds, and a token is as many
-- units as a minute has microseconds, so that the product of an elapsed time and the rate per minute
-- counts units.
use just1kbot.Prelude.{
  none, ◌∙◌, ℕ, suc, ◌+◌, ◌-◌, ◌*◌, ◌/◌, ◌≤◌, ltb, leb, Bool, true, false, not, ◌≡◌, refl, ap, ◌⊎◌,
  inl, inr, Option, some, List, [], ◌∷◌, ◌++◌, String, first_where, select_where, if◌then◌else◌,
  arith,
}
use text.Mathlib.TextPositions.{eq_refl}
use just1kbot.RateLimit.{
  Floats, Bucket, HttpRateLimiter, has_key, refilled, make_room, evict, cleanup_if_due, cleanup,
  tokens_of, put_last, spend, check,
}

abbrev pub unit : ℕ
unit = 60000000

abbrev pub exact : Floats
exact = record {
  Float = ℕ;
  zero = 0;
  one = unit;
  thirty = 30000000;
  two_minutes = 120000000;
  add = λ a b. a + b;
  sub = λ a b. a - b;
  mul = λ a b. a * b;
  min = λ a b. if ltb b a then b else a;
  max = λ a b. if ltb a b then b else a;
  le = leb;
  lt = ltb;
  retry_after = λ tokens rate. suc ((unit - tokens) / (rate * 1000000));
}

abbrev Limiter : Type 0
Limiter = HttpRateLimiter exact

-- The checks of one client at the instants, in turn: how many are let through, and the limiter after.
unfoldable pub let_through : String → List ℕ → Limiter → ℕ × Limiter
let_through key [] l = (0, l)
let_through key (t ∷ ts) l =
    let first : (Bool × ℕ) × Limiter = check exact key t l in
    let rest : ℕ × Limiter = let_through key ts first.1 in
    ((if first.0.0 then suc rest.0 else rest.0), rest.1)

-- The instants do not go back, and the last of them is at most `end`.
abbrev pub AreInOrder : ℕ → List ℕ → ℕ → Type 0
AreInOrder from [] end = from ≤ end
AreInOrder from (t ∷ ts) end = (from ≤ t) × AreInOrder t ts end

first_where-last :
    (key : String) (b : Bucket exact) (bs : List (Bucket exact))
    → has_key exact key b ≡ true
    → first_where (has_key exact key) (select_where (λ x. not (has_key exact key x)) bs ++ b ∷ [])
      ≡ some b
first_where-last key b [] h = ground (arith, h)
first_where-last key b (x ∷ xs) h = ground (arith, first_where-last key b xs h)

-- The client's bucket.
abbrev pub bucket_of : String → Limiter → Option (Bucket exact)
bucket_of key l = first_where (has_key exact key) (HttpRateLimiter.buckets l)

put_last-bucket :
    (key : String) (tokens now : ℕ) (l : Limiter)
    → bucket_of key (put_last exact key tokens now l)
      ≡ some (record { key = key; tokens = tokens; last_refill = now })
unfolding put_last
put_last-bucket key tokens now l =
    first_where-last key (record { key = key; tokens = tokens; last_refill = now })
      (HttpRateLimiter.buckets l) (eq_refl key)

make_room-present :
    (key : String) (now : ℕ) (l : Limiter) (b : Bucket exact)
    → bucket_of key l ≡ some b
    → make_room exact key now l ≡ l
unfolding make_room
make_room-present key now l b h = ground (arith, h)

-- A check of a client whose bucket is there: the bucket is refilled, and a token is taken where there
-- is one.
check-bucket :
    (key : String) (now : ℕ) (l : Limiter) (b : Bucket exact)
    → bucket_of key l ≡ some b
    → check exact key now l
      ≡ spend exact key (refilled exact l now (Bucket.tokens b) (Bucket.last_refill b)) now l
unfolding check
check-bucket key now l b h = rw (make_room-present key now l b h, h) refl

refilled-le :
    (l : Limiter) (now tokens last : ℕ)
    → refilled exact l now tokens last ≤ tokens + (now - last) * HttpRateLimiter.rate l
unfolding refilled
refilled-le l now tokens last = ground arith

elapsed :
    (last t end rate : ℕ)
    → last ≤ t
    → t ≤ end
    → (t - last) * rate + (end - t) * rate ≡ (end - last) * rate
elapsed last t end rate h k =
    let whole : end - last ≡ (t - last) + (end - t) = omega arith in
    omega (arith, ap (λ x. x * rate) whole)

in_order-le : (from end : ℕ) (ts : List ℕ) → AreInOrder from ts end → from ≤ end
in_order-le from end [] o = o
in_order-le from end (t ∷ ts) o = omega (arith, o.0, in_order-le t end ts o.1)

leb-cases : (a b : ℕ) → ((leb a b ≡ true) × (a ≤ b)) ⊎ (leb a b ≡ false)
leb-cases a b = ground arith

spent :
    (key : String) (tk t : ℕ) (l : Limiter)
    → leb unit tk ≡ true
    → spend exact key tk t l ≡ ((true, 0), put_last exact key (tk - unit) t l)
unfolding spend
spent key tk t l h = rw (h) refl

unspent :
    (key : String) (tk t : ℕ) (l : Limiter)
    → leb unit tk ≡ false
    → spend exact key tk t l
      ≡ ((false, suc ((unit - tk) / (HttpRateLimiter.rate l * 1000000))), put_last exact key tk t l)
unfolding spend
unspent key tk t l h = rw (h) refl

-- Room is made without a change of the rate and the burst.
make_room-kept :
    (key : String) (now : ℕ) (l : Limiter)
    → (HttpRateLimiter.rate (make_room exact key now l) ≡ HttpRateLimiter.rate l)
      × (HttpRateLimiter.burst (make_room exact key now l) ≡ HttpRateLimiter.burst l)
unfolding make_room evict cleanup_if_due cleanup
make_room-kept key now l = ground arith

-- No bucket holds more than the burst once it is refilled.
tokens_of-burst :
    (l : Limiter) (now : ℕ) (b : Option (Bucket exact))
    → tokens_of exact l now b ≤ HttpRateLimiter.burst l
unfolding refilled
tokens_of-burst l now none = ground arith
tokens_of-burst l now (some b) = ground arith

module _ (key : String) (rate : ℕ) where
  -- A client whose bucket is there is let through at most as often as the tokens that it had and those
  -- that the time brings pay for.
  let_through-from :
      (ts : List ℕ) (l : Limiter) (tokens last end : ℕ)
      → HttpRateLimiter.rate l ≡ rate
      → bucket_of key l ≡ some (record { key = key; tokens = tokens; last_refill = last })
      → AreInOrder last ts end
      → (let_through key ts l).0 * unit ≤ tokens + (end - last) * rate
  unfolding let_through put_last
  let_through-from [] l tokens last end r h o = omega arith
  let_through-from (t ∷ ts) l tokens last end r h o =
      let tk : ℕ = refilled exact l t tokens last in
      let enough : tk ≤ tokens + (t - last) * rate = rw⁻¹ r (refilled-le l t tokens last) in
      let sum = elapsed last t end rate o.0 (in_order-le t end ts o.1) in
      rw (check-bucket key t l (record { key = key; tokens = tokens; last_refill = last }) h)
        (elim (leb-cases unit tk)
          as (λ _.
            (if (spend exact key tk t l).0.0
                then suc (let_through key ts (spend exact key tk t l).1).0
                else (let_through key ts (spend exact key tk t l).1).0)
              * unit
            ≤ tokens + (end - last) * rate) [
              | inl c ↦ rw (spent key tk t l c.0) (
                  omega (
                    arith,
                    c.1,
                    enough,
                    sum,
                    let_through-from ts (put_last exact key (tk - unit) t l) (tk - unit) t end r
                        (put_last-bucket key (tk - unit) t l) o.1,
                  ))
              | inr c ↦ rw (unspent key tk t l c) (
                  omega (
                    arith,
                    enough,
                    sum,
                    let_through-from ts (put_last exact key tk t l) tk t end r
                        (put_last-bucket key tk t l) o.1,
                  ))
            ])

  -- In exact arithmetic, whatever the limiter holds, a client that asks again and again, at instants
  -- that do not go back and with no other client's request between its own, is let through at most as
  -- often as the burst and the rate times the time since its first request pay for. The first request
  -- may find the limiter full, so that it cleans up and evicts.
  pub let_through-rate :
      (t : ℕ) (ts : List ℕ) (l : Limiter) (end : ℕ)
      → HttpRateLimiter.rate l ≡ rate
      → AreInOrder t ts end
      → (let_through key (t ∷ ts) l).0 * unit ≤ HttpRateLimiter.burst l + (end - t) * rate
  unfolding let_through put_last check
  let_through-rate t ts l end r o =
      let roomy : Limiter = make_room exact key t l in
      let kept = make_room-kept key t l in
      let tk : ℕ = tokens_of exact roomy t (bucket_of key roomy) in
      let capped : tk ≤ HttpRateLimiter.burst l =
        omega (arith, kept.1, tokens_of-burst roomy t (bucket_of key roomy)) in
      let r' : HttpRateLimiter.rate roomy ≡ rate = kept.0 ∙ r in
      elim (leb-cases unit tk)
        as (λ _.
          (if (spend exact key tk t roomy).0.0
              then suc (let_through key ts (spend exact key tk t roomy).1).0
              else (let_through key ts (spend exact key tk t roomy).1).0)
            * unit
          ≤ HttpRateLimiter.burst l + (end - t) * rate) [
            | inl c ↦ rw (spent key tk t roomy c.0) (
                omega (
                  arith,
                  c.1,
                  capped,
                  let_through-from ts (put_last exact key (tk - unit) t roomy) (tk - unit) t end r'
                      (put_last-bucket key (tk - unit) t roomy) o,
                ))
            | inr c ↦ rw (unspent key tk t roomy c) (
                omega (
                  arith,
                  capped,
                  let_through-from ts (put_last exact key tk t roomy) tk t end r'
                      (put_last-bucket key tk t roomy) o,
                ))
          ]
