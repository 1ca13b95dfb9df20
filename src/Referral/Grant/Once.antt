-- ===== src/Referral/Grant/Once.antt =====
-- A referral bonus is granted once for an order and a referrer.
use just1kbot.Prelude.{
  ℕ, pos, ◌<ℤ◌, leb_ℤ, leb_ℤ-cases, inl, inr, true, false, Option, none, some, List, [], ◌∷◌,
  first_where, ◌≡◌, refl, arith,
}
use just1kbot.Database.{referral_bonus, Decimal, AccountLedgerEntry, User, Db, ok, key_eq}
use just1kbot.Ledger.Balance.{is_whole}
use just1kbot.Ledger.Entries.{
  EntryValues, satisfies_checks, conflicts_with, new_entry, append_entry,
}
use just1kbot.Ledger.Operations.{admin_adjustment_values}
use just1kbot.Ledger.Operations.Idempotence.{first_where-appended}
use just1kbot.Referral.Tiers.{get_referral_tier, calculate_referral_bonus}
use just1kbot.Referral.Activity.{get_user_active_referrals_count}
use just1kbot.Referral.Grant.{
  ReferralBonusGrantResult, add_entry, bonus_metadata, activates, rewarding_tier, bonus_for,
  granted, credit_once, no_grant, grant_to,
}

-- The credit of a bonus.
abbrev pub bonus_values : ℕ → ℕ → Decimal → EntryValues
bonus_values order_id referrer_id bonus =
    admin_adjustment_values referrer_id bonus (referral_bonus order_id referrer_id)
      (bonus_metadata order_id)

calculate_referral_bonus-is_whole :
    (amount : Decimal) (rate : Option ℕ) → is_whole (calculate_referral_bonus amount rate) ≡ true
unfolding calculate_referral_bonus
calculate_referral_bonus-is_whole amount rate = ground arith

bonus_for-is_whole :
    (purchaser referrer : User) (order_id : ℕ) (amount : Decimal) (db : Db)
    → is_whole (bonus_for purchaser referrer order_id amount db) ≡ true
unfolding bonus_for
bonus_for-is_whole purchaser referrer order_id amount db =
    calculate_referral_bonus-is_whole amount _

bonus_checks :
    (order_id referrer_id : ℕ) (bonus : Decimal)
    → pos 0 <ℤ bonus
    → is_whole bonus ≡ true
    → satisfies_checks (bonus_values order_id referrer_id bonus) ≡ true
unfolding satisfies_checks
bonus_checks order_id referrer_id bonus h w = ground arith

-- Where the bonus conflicts with no row, its key is not there.
no_earlier_bonus :
    (es : List AccountLedgerEntry) (order_id referrer_id : ℕ) (bonus : Decimal)
    → first_where (conflicts_with (bonus_values order_id referrer_id bonus)) es ≡ none
    → first_where
        (λ e. key_eq (AccountLedgerEntry.idempotency_key e) (referral_bonus order_id referrer_id))
        es
      ≡ none
unfolding conflicts_with
no_earlier_bonus [] order_id referrer_id bonus h = refl
no_earlier_bonus (e ∷ es) order_id referrer_id bonus h =
    ground (arith, no_earlier_bonus es order_id referrer_id bonus)

leb_ℤ-positive : (a : Decimal) → pos 0 <ℤ a → leb_ℤ a (pos 0) ≡ false
leb_ℤ-positive a h = ground arith

credit_once-again :
    (order_id referrer_id : ℕ) (bonus : Decimal) (e : AccountLedgerEntry) (db : Db)
    → first_where
        (λ e. key_eq (AccountLedgerEntry.idempotency_key e) (referral_bonus order_id referrer_id))
        (Db.entries db)
      ≡ some e
    → credit_once order_id referrer_id bonus db ≡ (ok (pos 0), db)
unfolding credit_once
credit_once-again order_id referrer_id bonus e db h = rw (credit_once, h) refl

credit_once-new :
    (order_id referrer_id : ℕ) (bonus : Decimal) (db : Db)
    → pos 0 <ℤ bonus
    → is_whole bonus ≡ true
    → first_where (conflicts_with (bonus_values order_id referrer_id bonus)) (Db.entries db) ≡ none
    → credit_once order_id referrer_id bonus db
      ≡ (ok bonus, append_entry (bonus_values order_id referrer_id bonus) db)
unfolding credit_once add_entry
credit_once-new order_id referrer_id bonus db p w f =
    rw (credit_once, no_earlier_bonus (Db.entries db) order_id referrer_id bonus f)
      (rw (bonus_checks order_id referrer_id bonus p w, f) refl)

module _ (purchaser referrer : User) (order_id : ℕ) (amount : Decimal) where
  -- What a grant reports.
  abbrev result : Db → Decimal → ReferralBonusGrantResult
  result db credited =
      granted referrer (activates purchaser order_id amount db)
        (rewarding_tier purchaser referrer order_id amount db)
        (get_referral_tier (get_user_active_referrals_count db (User.telegram_id referrer)))
        credited

  -- Once the bonus of the order and the referrer is in the ledger, granting it again, whatever the
  -- amount, credits nothing and writes nothing.
  pub grant_to-again :
      (e : AccountLedgerEntry) (db : Db)
      → first_where
          (λ e.
            key_eq
              (AccountLedgerEntry.idempotency_key e)
              (referral_bonus order_id (User.id referrer)))
          (Db.entries db)
        ≡ some e
      → (g : ReferralBonusGrantResult) × (grant_to purchaser referrer order_id amount db
          ≡ (ok g, db))
        × (ReferralBonusGrantResult.referrer_bonus g ≡ pos 0)
  unfolding grant_to granted
  grant_to-again e db h =
      elim (leb_ℤ-cases (bonus_for purchaser referrer order_id amount db) (pos 0)) [
        | inl y ↦ (no_grant, rw (y.0) refl, refl)
        | inr n ↦ (
          result db (pos 0),
          rw
              (
                n.0,
                credit_once-again order_id (User.id referrer)
                    (bonus_for purchaser referrer order_id amount db) e db h,
              )
              refl,
          refl,
        )
      ]

  -- A positive bonus that conflicts with no row is credited to the referrer, and granting it again
  -- credits nothing and writes nothing.
  pub grant_to-once :
      (db : Db)
      → pos 0 <ℤ bonus_for purchaser referrer order_id amount db
      → first_where
          (conflicts_with (
            bonus_values order_id
              (User.id referrer)
              (bonus_for purchaser referrer order_id amount db)))
          (Db.entries db)
        ≡ none
      → let bonus = bonus_for purchaser referrer order_id amount db in
        let after = append_entry (bonus_values order_id (User.id referrer) bonus) db in
        ((g : ReferralBonusGrantResult) × (grant_to purchaser referrer order_id amount db
            ≡ (ok g, after))
          × (ReferralBonusGrantResult.referrer_bonus g ≡ bonus))
        × ((g : ReferralBonusGrantResult) × (grant_to purchaser referrer order_id amount after
              ≡ (ok g, after))
            × (ReferralBonusGrantResult.referrer_bonus g ≡ pos 0))
  unfolding grant_to granted
  grant_to-once db p f = (
    (
      result db (bonus_for purchaser referrer order_id amount db),
      rw
          (
            leb_ℤ-positive (bonus_for purchaser referrer order_id amount db) p,
            credit_once-new order_id (User.id referrer)
                (bonus_for purchaser referrer order_id amount db) db p
                (bonus_for-is_whole purchaser referrer order_id amount db) f,
          )
          refl,
      refl,
    ),
    grant_to-again
        (new_entry
          (bonus_values order_id (User.id referrer)
            (bonus_for purchaser referrer order_id amount db))
          db)
        _
        (first_where-appended _ (Db.entries db) _
          (no_earlier_bonus (Db.entries db) order_id (User.id referrer)
            (bonus_for purchaser referrer order_id amount db) f)
          (ground arith)),
  )
