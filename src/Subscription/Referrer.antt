-- ===== src/Subscription/Referrer.antt =====
-- `_validate_referral`: the chain of referrers above a candidate is walked, at most fifty steps.
pub mod Acyclic
use just1kbot.Prelude.{
  ℕ, zero, suc, ◌==◌, ltb, Bool, true, false, ◌||◌, Option, none, some, List, [], ◌∷◌,
  if◌then◌else◌,
}
use just1kbot.Database.{User, Db, get_user_by_telegram_id}

abbrev pub contains : ℕ → List ℕ → Bool
contains x [] = false
contains x (y ∷ ys) = x == y || contains x ys

abbrev pub max_referral_chain_depth : ℕ
max_referral_chain_depth = 50

abbrev pub nonzero : Option ℕ → Option ℕ
nonzero none = none
nonzero (some n) = if ltb 0 n then some n else none

abbrev pub referrer_of : Option User → Option ℕ
referrer_of none = none
referrer_of (some u) = nonzero (User.referred_by u)

-- The referrer that the loop reads of a telegram id: none for an id that is no user's, and for a
-- user without one.
unfoldable pub referred_by : Db → ℕ → Option ℕ
referred_by db current_id = referrer_of (get_user_by_telegram_id current_id db)

-- The body of the loop runs while the depth, which is counted down here, allows it.
unfoldable pub walk_chain : Db → ℕ → List ℕ → ℕ → Bool
walk_chain db zero visited current_id = false
walk_chain db (suc depth) visited current_id = elim (referred_by db current_id) [
  | none ↦ true
  | some next ↦ elim (contains next visited) [
    | true ↦ false
    | false ↦ walk_chain db depth (next ∷ visited) next
  ]
]

abbrev exists_user : Option User → Bool
exists_user none = false
exists_user (some _) = true

unfoldable pub validate_referral : Db → ℕ → ℕ → Bool
validate_referral db telegram_id ref_id =
    if ref_id == telegram_id
    then false
    else if exists_user (get_user_by_telegram_id ref_id db)
    then walk_chain db max_referral_chain_depth (telegram_id ∷ ref_id ∷ []) ref_id
    else false
