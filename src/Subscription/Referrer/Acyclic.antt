-- ===== src/Subscription/Referrer/Acyclic.antt =====
-- A referrer that is accepted makes no cycle.
use just1kbot.Prelude.{ℕ, zero, suc, true, false, some, List, [], ◌∷◌, ◌≡◌, ◌≢◌, arith}
use just1kbot.Database.{Db}
use just1kbot.Subscription.Referrer.{contains, referred_by, walk_chain, validate_referral}

-- `Above db a t`: following the referrers from `a` reaches `t`.
pub data Above (db : Db) : ℕ → ℕ → Type 0 where
  direct : {a t : ℕ} → referred_by db a ≡ some t → Above db a t
  via : {a t : ℕ} (r : ℕ) → referred_by db a ≡ some r → Above db r t → Above db a t

-- A step of a walk that succeeds meets no id that was visited, and goes on.
walk_chain-step :
    (db : Db) (n : ℕ) (visited : List ℕ) (a r : ℕ)
    → walk_chain db (suc n) visited a ≡ true
    → referred_by db a ≡ some r
    → (contains r visited ≡ false) × (walk_chain db n (r ∷ visited) r ≡ true)
unfolding walk_chain
walk_chain-step db n visited a r h e = ground arith

contains-ne :
    (x y : ℕ) (visited : List ℕ) → contains x visited ≡ true → contains y visited ≡ false → y ≢ x
contains-ne x y visited h k = λ e. ground arith

walk_chain-avoids :
    (db : Db) (n : ℕ) (visited : List ℕ) (a t x : ℕ)
    → walk_chain db n visited a ≡ true
    → contains x visited ≡ true
    → Above db a t
    → t ≢ x
unfolding walk_chain
walk_chain-avoids db zero visited a t x h m u = cc
walk_chain-avoids db (suc n) visited a t x h m (direct e) =
    contains-ne x t visited m (walk_chain-step db n visited a t h e).0
walk_chain-avoids db (suc n) visited a t x h m (via r e u) =
    walk_chain-avoids db n (r ∷ visited) r t x (walk_chain-step db n visited a r h e).1
      (ground arith) u

-- If `_validate_referral` accepts a referrer for a user, then the referrer is another user, and
-- no one above the referrer, however far up, is the user: attaching the referrer closes no cycle.
pub validate_referral-Above :
    (db : Db) (telegram_id ref_id t : ℕ)
    → validate_referral db telegram_id ref_id ≡ true
    → Above db ref_id t
    → (ref_id ≢ telegram_id) × (t ≢ telegram_id) × (t ≢ ref_id)
unfolding validate_referral
validate_referral-Above db telegram_id ref_id t h u =
    let w : walk_chain db 50 (telegram_id ∷ ref_id ∷ []) ref_id ≡ true = ground arith in
    (
      ground arith,
      walk_chain-avoids db 50 (telegram_id ∷ ref_id ∷ []) ref_id t telegram_id w (ground arith) u,
      walk_chain-avoids db 50 (telegram_id ∷ ref_id ∷ []) ref_id t ref_id w (ground arith) u,
    )
