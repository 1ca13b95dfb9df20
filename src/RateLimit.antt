-- ===== src/RateLimit.antt =====
-- utils/http_rate_limiter.py: `HttpRateLimiter`, a token bucket for each client. Its floating point
-- numbers are a type with the operations that it uses; instants and tokens are such numbers.
pub mod Bounds
pub mod Rate
use just1kbot.Prelude.{
  ℕ, suc, ◌+◌, ltb, leb, Bool, true, false, not, ◌&&◌, Option, none, some, List, [], ◌∷◌, ◌++◌,
  String, str_eq, length, first_where, select_where, if◌then◌else◌,
}

-- `retry_after` is `max(1, math.ceil((1.0 - tokens) / rate))`.
pub record Floats : Type 1 where
  pub Float : Type 0
  pub zero : Float
  pub one : Float
  pub thirty : Float
  pub two_minutes : Float
  pub add : Float → Float → Float
  pub sub : Float → Float → Float
  pub mul : Float → Float → Float
  pub min : Float → Float → Float
  pub max : Float → Float → Float
  pub le : Float → Float → Bool
  pub lt : Float → Float → Bool
  pub retry_after : Float → Float → ℕ

module _ (fl : Floats) where
  pub record Bucket : Type 0 where
    pub key : String
    pub tokens : Floats.Float fl
    pub last_refill : Floats.Float fl

  -- `buckets` is an OrderedDict, the least recently used first.
  pub record HttpRateLimiter : Type 0 where
    pub rate : Floats.Float fl
    pub burst : Floats.Float fl
    pub max_entries : ℕ
    pub buckets : List Bucket
    pub last_cleanup : Floats.Float fl

  abbrev pub has_key : String → Bucket → Bool
  has_key key b = str_eq (Bucket.key b) key

  abbrev pub is_present : String → List Bucket → Bool
  is_present key bs = elim (first_where (has_key key) bs) [ none ↦ false | some b ↦ true ]

  -- `min(burst, tokens + max(0.0, now - last_refill) * rate)`
  unfoldable pub refilled :
      HttpRateLimiter → Floats.Float fl → Floats.Float fl → Floats.Float fl → Floats.Float fl
  refilled l now tokens last_refill =
      fl.min l.burst (fl.add tokens (fl.mul (fl.max fl.zero (fl.sub now last_refill)) l.rate))

  abbrev pub is_stale : HttpRateLimiter → Floats.Float fl → Bucket → Bool
  is_stale l now b =
      Floats.le fl (HttpRateLimiter.burst l)
        (refilled l now (Bucket.tokens b) (Bucket.last_refill b))
      && Floats.lt fl (Floats.two_minutes fl) (Floats.sub fl now (Bucket.last_refill b))

  -- `_cleanup`
  unfoldable pub cleanup : Floats.Float fl → HttpRateLimiter → HttpRateLimiter
  cleanup now l = record l { buckets = select_where (λ b. not (is_stale l now b)) l.buckets }

  -- At most every thirty seconds.
  unfoldable pub cleanup_if_due : Floats.Float fl → HttpRateLimiter → HttpRateLimiter
  cleanup_if_due now l =
      if fl.le fl.thirty (fl.sub now l.last_cleanup)
      then cleanup now (record l { last_cleanup = now })
      else l

  -- `popitem(last=False)`
  abbrev pub without_first : List Bucket → List Bucket
  without_first [] = []
  without_first (b ∷ bs) = bs

  unfoldable pub evict : HttpRateLimiter → HttpRateLimiter
  evict l =
      if leb l.max_entries (length l.buckets)
      then record l { buckets = without_first l.buckets }
      else l

  unfoldable pub make_room : String → Floats.Float fl → HttpRateLimiter → HttpRateLimiter
  make_room key now l =
      if not (is_present key l.buckets) && leb l.max_entries (length l.buckets)
      then evict (cleanup_if_due now l)
      else l

  abbrev pub tokens_of : HttpRateLimiter → Floats.Float fl → Option Bucket → Floats.Float fl
  tokens_of l now none = refilled l now (HttpRateLimiter.burst l) now
  tokens_of l now (some b) = refilled l now (Bucket.tokens b) (Bucket.last_refill b)

  -- The entry is written, and moved to the end.
  unfoldable pub put_last :
      String → Floats.Float fl → Floats.Float fl → HttpRateLimiter → HttpRateLimiter
  put_last key tokens now l = record l {
    buckets =
        select_where (λ b. not (has_key key b)) l.buckets
        ++ (record { key = key; tokens = tokens; last_refill = now }) ∷ [];
  }

  unfoldable pub spend :
      String → Floats.Float fl → Floats.Float fl → HttpRateLimiter → (Bool × ℕ) × HttpRateLimiter
  spend key tokens now l =
      if fl.le fl.one tokens
      then ((true, 0), put_last key (fl.sub tokens fl.one) now l)
      else ((false, fl.retry_after tokens l.rate), put_last key tokens now l)

  unfoldable pub check : String → Floats.Float fl → HttpRateLimiter → (Bool × ℕ) × HttpRateLimiter
  check key now l =
      let roomy : HttpRateLimiter = make_room key now l in
      spend key (tokens_of roomy now (first_where (has_key key) roomy.buckets)) now roomy
