-- ===== src/RateLimit/Bounds.antt =====
-- The memory of the limiter is bounded, and so is what it lets through.
use just1kbot.Prelude.{
  suc, ◌≤◌, Bool, true, not, ◌≡◌, ◌∙◌, ◌⊎◌, List, [], ◌∷◌, String, length, length-append,
  first_where, select_where, arith,
}
use just1kbot.RateLimit.{
  Floats, Bucket, HttpRateLimiter, has_key, is_present, cleanup, cleanup_if_due, evict, make_room,
  put_last, is_stale, tokens_of, spend, check,
}

module _ (fl : Floats) where
  length-select :
      (p : Bucket fl → Bool) (bs : List (Bucket fl)) → length (select_where p bs) ≤ length bs
  length-select p [] = omega arith
  length-select p (b ∷ bs) = ground (arith, length-select p bs)

  -- Leaving out the buckets of a key that is there leaves out one at least.
  length-removed :
      (key : String) (bs : List (Bucket fl))
      → is_present fl key bs ≡ true
      → suc (length (select_where (λ b. not (has_key fl key b)) bs)) ≤ length bs
  length-removed key [] h = ground (arith, h)
  length-removed key (b ∷ bs) h =
      ground (arith, length-removed key bs, length-select (λ b. not (has_key fl key b)) bs)

  -- Among at most `max_entries` buckets, `make_room` leaves one place free for a key that is not there.
  abbrev IsBounded : HttpRateLimiter fl → Type 0
  IsBounded l = length (HttpRateLimiter.buckets l) ≤ HttpRateLimiter.max_entries l

  cleanup_if_due-IsBounded :
      (now : Floats.Float fl) (l : HttpRateLimiter fl)
      → (length (HttpRateLimiter.buckets (cleanup_if_due fl now l))
          ≤ length (HttpRateLimiter.buckets l))
        × (HttpRateLimiter.max_entries (cleanup_if_due fl now l) ≡ HttpRateLimiter.max_entries l)
  unfolding cleanup_if_due cleanup
  cleanup_if_due-IsBounded now l = ground (
    arith,
    length-select (λ b. not (is_stale fl (record l { last_cleanup = now }) now b))
        (HttpRateLimiter.buckets l),
  )

  evict-IsBounded :
      (l : HttpRateLimiter fl)
      → 1 ≤ HttpRateLimiter.max_entries l
      → IsBounded l
      → (suc (length (HttpRateLimiter.buckets (evict fl l))) ≤ HttpRateLimiter.max_entries l)
        × (HttpRateLimiter.max_entries (evict fl l) ≡ HttpRateLimiter.max_entries l)
  unfolding evict
  evict-IsBounded l m h = ground arith

  make_room-IsBounded :
      (key : String) (now : Floats.Float fl) (l : HttpRateLimiter fl)
      → 1 ≤ HttpRateLimiter.max_entries l
      → IsBounded l
      → ((is_present fl key (HttpRateLimiter.buckets (make_room fl key now l)) ≡ true)
          ⊎ (suc (length (HttpRateLimiter.buckets (make_room fl key now l)))
              ≤ HttpRateLimiter.max_entries (make_room fl key now l)))
        × ((IsBounded (make_room fl key now l))
            × (HttpRateLimiter.max_entries (make_room fl key now l)
                ≡ HttpRateLimiter.max_entries l))
  unfolding make_room
  make_room-IsBounded key now l m h =
      let c = cleanup_if_due-IsBounded now l in
      let e = evict-IsBounded (cleanup_if_due fl now l) (rw (c.1) m) (omega (arith, c.0, c.1, h)) in
      ground (arith, c, e)

  put_last-IsBounded :
      (key : String) (tokens now : Floats.Float fl) (l : HttpRateLimiter fl)
      → ((is_present fl key (HttpRateLimiter.buckets l) ≡ true)
          ⊎ (suc (length (HttpRateLimiter.buckets l)) ≤ HttpRateLimiter.max_entries l))
      → IsBounded l
      → (IsBounded (put_last fl key tokens now l))
        × (HttpRateLimiter.max_entries (put_last fl key tokens now l)
            ≡ HttpRateLimiter.max_entries l)
  unfolding put_last
  put_last-IsBounded key tokens now l r h = ground (
    arith,
    length-removed key (HttpRateLimiter.buckets l),
    length-select (λ b. not (has_key fl key b)) (HttpRateLimiter.buckets l),
    length-append (select_where (λ b. not (has_key fl key b)) (HttpRateLimiter.buckets l))
        ((record { key = key; tokens = tokens; last_refill = now }) ∷ []),
  )

  spend-IsBounded :
      (key : String) (tokens now : Floats.Float fl) (l : HttpRateLimiter fl)
      → ((is_present fl key (HttpRateLimiter.buckets l) ≡ true)
          ⊎ (suc (length (HttpRateLimiter.buckets l)) ≤ HttpRateLimiter.max_entries l))
      → IsBounded l
      → (length (HttpRateLimiter.buckets (spend fl key tokens now l).1)
          ≤ HttpRateLimiter.max_entries l)
        × (HttpRateLimiter.max_entries (spend fl key tokens now l).1
            ≡ HttpRateLimiter.max_entries l)
  unfolding spend
  spend-IsBounded key tokens now l r h = ground (
    arith,
    put_last-IsBounded key tokens now l r h,
    put_last-IsBounded key (Floats.sub fl tokens (Floats.one fl)) now l r h,
  )

  -- A limiter that may hold an entry never holds more than `max_entries`, however many clients it
  -- meets: a check keeps the bound.
  pub check-IsBounded :
      (key : String) (now : Floats.Float fl) (l : HttpRateLimiter fl)
      → 1 ≤ HttpRateLimiter.max_entries l
      → length (HttpRateLimiter.buckets l) ≤ HttpRateLimiter.max_entries l
      → (length (HttpRateLimiter.buckets (check fl key now l).1) ≤ HttpRateLimiter.max_entries l)
        × (HttpRateLimiter.max_entries (check fl key now l).1 ≡ HttpRateLimiter.max_entries l)
  unfolding check
  check-IsBounded key now l m h =
      let r = make_room-IsBounded key now l m h in
      let s =
        spend-IsBounded key
          (tokens_of fl (make_room fl key now l) now
            (first_where (has_key fl key) (HttpRateLimiter.buckets (make_room fl key now l))))
          now (make_room fl key now l) r.0 r.1.0 in
      (omega (arith, s.0, r.1.1), s.1 ∙ r.1.1)
