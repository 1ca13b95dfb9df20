-- ===== src/Subscription/Onboarding/Binding.antt =====
-- Binding a user to a referrer keeps the referrers free of cycles.
use just1kbot.Prelude.{
  ℕ, ◌==◌, Bool, true, false, not, ◌&&◌, Option, none, some, List, [], ◌∷◌, ◌++◌, first_where,
  update_where, ◌≡◌, ◌≢◌, refl, sym, ap, ◌∙◌, ◌⊎◌, inl, inr, arith, if◌then◌else◌,
}
use just1kbot.Database.{User, Db, put_user, get_user_by_telegram_id}
use just1kbot.Subscription.Referrer.{referred_by, referrer_of, nonzero, validate_referral}
use just1kbot.Subscription.Referrer.Acyclic.{Above, direct, via, validate_referral-Above}
use just1kbot.Subscription.Onboarding.{
  get_user_by_telegram_id_any, bind_if, bind_unbound, onboard, bound_to, may_bind, bind_late,
  restore, create_user, new_user, valid_referrer, process_onboarding,
}

-- Nobody is above himself.
abbrev pub IsAcyclic : Db → Type 0
IsAcyclic db = (a : ℕ) → ¬ (Above db a a)

-- The users' referrers after a change are those before, but for that of one user.
abbrev pub Attaches : Db → Db → ℕ → ℕ → Type 0
Attaches db after telegram_id ref_id =
    (x : ℕ)
    → (referred_by after x ≡ referred_by db x)
      ⊎ ((x ≡ telegram_id) × (referred_by after x ≡ some ref_id))

module _ (db after : Db) (telegram_id ref_id : ℕ)
    (attaches : Attaches db after telegram_id ref_id) where
  -- A chain afterwards is one from before, or it passes through the user and goes on above the
  -- referrer.
  abbrev Chain : ℕ → ℕ → Type 0
  Chain a t =
      Above db a t
      ⊎ (((a ≡ telegram_id) ⊎ Above db a telegram_id) × ((t ≡ ref_id) ⊎ Above db ref_id t))

  some_eq : (a b : ℕ) → (some a ≡ some b) → a ≡ b
  some_eq a b h = cc

  link : (a r t : ℕ) → referred_by after a ≡ some r → Chain r t → Chain a t
  link a r t e c = elim (attaches a) [
    | inl h ↦ elim c [
      | inl w ↦ inl (via r (sym h ∙ e) w)
      | inr w ↦ inr (
        (elim (w.0) as (λ _. (a ≡ telegram_id) ⊎ Above db a telegram_id) [
          | inl p ↦ inr (direct (sym h ∙ e ∙ ap some p))
          | inr p ↦ inr (via r (sym h ∙ e) p)
        ]),
        w.1,
      )
    ]
    | inr h ↦ elim c [
      | inl w ↦ inr (inl h.0, inr (rw⁻¹ (some_eq r ref_id (sym e ∙ h.1)) w))
      | inr w ↦ inr (inl h.0, w.1)
    ]
  ]

  chains : (a t : ℕ) → Above after a t → Chain a t
  chains a t (direct e) = elim (attaches a) [
    | inl h ↦ inl (direct (sym h ∙ e))
    | inr h ↦ inr (inl h.0, inl (some_eq t ref_id (sym e ∙ h.1)))
  ]
  chains a t (via r e u) = link a r t e (chains r t u)

Above-trans : (db : Db) (a b c : ℕ) → Above db a b → Above db b c → Above db a c
Above-trans db a b c (direct e) u = via b e u
Above-trans db a b c (via r e w) u = via r e (Above-trans db r b c w u)

accepted :
    (db : Db) (telegram_id ref_id : ℕ)
    → validate_referral db telegram_id ref_id ≡ true
    → (ref_id ≢ telegram_id) × (nonzero (some ref_id) ≡ some ref_id)
unfolding validate_referral get_user_by_telegram_id
accepted db telegram_id ref_id v = (ground arith, ground arith)

closes_none :
    (db : Db) (telegram_id ref_id a : ℕ)
    → validate_referral db telegram_id ref_id ≡ true
    → ((a ≡ telegram_id) ⊎ Above db a telegram_id)
    → ¬ ((a ≡ ref_id) ⊎ Above db ref_id a)
closes_none db telegram_id ref_id a v (inl p) (inl q) =
    (accepted db telegram_id ref_id v).0 (sym q ∙ p)
closes_none db telegram_id ref_id a v (inl p) (inr q) =
    (validate_referral-Above db telegram_id ref_id a v q).1 p
closes_none db telegram_id ref_id a v (inr p) (inl q) =
    (validate_referral-Above db telegram_id ref_id telegram_id v (rw⁻¹ q p)).1 refl
closes_none db telegram_id ref_id a v (inr p) (inr q) =
    (validate_referral-Above db telegram_id ref_id telegram_id v
        (Above-trans db ref_id a telegram_id q p)).1
      refl

-- A binding that `_validate_referral` accepts closes no cycle.
pub Attaches-IsAcyclic :
    (db after : Db) (telegram_id ref_id : ℕ)
    → Attaches db after telegram_id ref_id
    → validate_referral db telegram_id ref_id ≡ true
    → IsAcyclic db
    → IsAcyclic after
Attaches-IsAcyclic db after telegram_id ref_id attaches v acyclic a u =
    elim (chains db after telegram_id ref_id attaches a a u) [
      | inl w ↦ acyclic a w
      | inr w ↦ closes_none db telegram_id ref_id a v w.0 w.1
    ]

first_where-append :
    (p : User → Bool) (us : List User) (u : User)
    → (first_where p (us ++ u ∷ []) ≡ first_where p us)
      ⊎ ((p u ≡ true) × (first_where p us ≡ none) × (first_where p (us ++ u ∷ []) ≡ some u))
first_where-append p [] u = ground arith
first_where-append p (v ∷ vs) u = ground (arith, first_where-append p vs u)

-- A new user's row binds the new user alone.
create_user-Attaches :
    (db : Db) (telegram_id ref_id : ℕ)
    → nonzero (some ref_id) ≡ some ref_id
    → Attaches db (create_user telegram_id (some ref_id) db).1 telegram_id ref_id
unfolding create_user referred_by get_user_by_telegram_id
create_user-Attaches db telegram_id ref_id n x = ground (
  arith,
  n,
  first_where-append (λ u. User.telegram_id u == x && not (User.is_deleted u)) (Db.users db)
      (new_user (Db.next_user_id db) telegram_id (some ref_id)),
)

-- Every row with the user's id is the user's.
abbrev pub IsSole : User → List User → Type 0
IsSole user [] = Unit {0}
IsSole user (u ∷ us) =
    ((User.id u == User.id user) ≡ true
      → (User.telegram_id u ≡ User.telegram_id user)
        × ((User.is_deleted u ≡ User.is_deleted user)
            × (User.referred_by u ≡ User.referred_by user)))
    × IsSole user us

referrer-put :
    (user : User) (ref_id x : ℕ) (us : List User)
    → IsSole user us
    → let p : User → Bool = λ u. User.telegram_id u == x && not (User.is_deleted u) in
      let us' : List User =
        update_where (λ u. User.id u == User.id user) (λ _. bound_to ref_id user) us in
      (referrer_of (first_where p us') ≡ referrer_of (first_where p us))
      ⊎ ((x ≡ User.telegram_id user) × (referrer_of (first_where p us') ≡ nonzero (some ref_id)))
referrer-put user ref_id x [] s = inl refl
referrer-put user ref_id x (u ∷ us) s = ground (arith, referrer-put user ref_id x us s.1)

put_user-Attaches :
    (db : Db) (user : User) (ref_id : ℕ)
    → nonzero (some ref_id) ≡ some ref_id
    → IsSole user (Db.users db)
    → Attaches db (put_user (bound_to ref_id user) db) (User.telegram_id user) ref_id
unfolding referred_by get_user_by_telegram_id
put_user-Attaches db user ref_id n s x =
    ground (arith, n, referrer-put user ref_id x (Db.users db) s)

same-IsAcyclic :
    (db after : Db)
    → ((x : ℕ) → referred_by after x ≡ referred_by db x)
    → IsAcyclic db
    → IsAcyclic after
same-IsAcyclic db after same acyclic a u = acyclic a (same_chain a a u)
  where
    same_chain : (a t : ℕ) → Above after a t → Above db a t
    same_chain a t (direct e) = direct (sym (same a) ∙ e)
    same_chain a t (via r e w) = via r (sym (same a) ∙ e) (same_chain r t w)

create_user-same :
    (db : Db) (telegram_id : ℕ) (x : ℕ)
    → referred_by (create_user telegram_id none db).1 x ≡ referred_by db x
unfolding create_user referred_by get_user_by_telegram_id
create_user-same db telegram_id x = ground (
  arith,
  first_where-append (λ u. User.telegram_id u == x && not (User.is_deleted u)) (Db.users db)
      (new_user (Db.next_user_id db) telegram_id none),
)

module _ (db : Db) (acyclic : IsAcyclic db) where
  registered_if :
      (telegram_id ref_id : ℕ) (c : Bool)
      → validate_referral db telegram_id ref_id ≡ c
      → IsAcyclic (create_user telegram_id (if c then some ref_id else none) db).1
  registered_if telegram_id ref_id true v =
      Attaches-IsAcyclic db (create_user telegram_id (some ref_id) db).1 telegram_id ref_id
        (create_user-Attaches db telegram_id ref_id (accepted db telegram_id ref_id v).1) v acyclic
  registered_if telegram_id ref_id false v =
      same-IsAcyclic db (create_user telegram_id none db).1 (create_user-same db telegram_id)
        acyclic

  registered-IsAcyclic :
      (telegram_id : ℕ) (ref_id : Option ℕ)
      → IsAcyclic (create_user telegram_id (valid_referrer telegram_id ref_id db) db).1
  unfolding valid_referrer
  registered-IsAcyclic telegram_id none =
      same-IsAcyclic db (create_user telegram_id none db).1 (create_user-same db telegram_id)
        acyclic
  registered-IsAcyclic telegram_id (some ref_id) =
      registered_if telegram_id ref_id (validate_referral db telegram_id ref_id) refl

  bound_if :
      (user : User) (ref_id : ℕ) (c : Bool)
      → IsSole user (Db.users db)
      → may_bind db user ref_id ≡ c
      → IsAcyclic (bind_if c ref_id user db).1
  unfolding may_bind
  bound_if user ref_id false s v = acyclic
  bound_if user ref_id true s v =
      let valid : validate_referral db (User.telegram_id user) ref_id ≡ true = ground arith in
      Attaches-IsAcyclic db (put_user (bound_to ref_id user) db) (User.telegram_id user) ref_id
        (put_user-Attaches db user ref_id (accepted db (User.telegram_id user) ref_id valid).1 s)
        valid acyclic

  bound-IsAcyclic :
      (user : User) (ref_id : ℕ) (referrer : Option ℕ)
      → IsSole user (Db.users db)
      → IsAcyclic (bind_unbound referrer ref_id user db).1
  bound-IsAcyclic user ref_id (some r) s = acyclic
  bound-IsAcyclic user ref_id none s = bound_if user ref_id (may_bind db user ref_id) s refl

  late-IsAcyclic :
      (user : User) (ref_id : Option ℕ)
      → IsSole user (Db.users db)
      → IsAcyclic (bind_late ref_id user db).1
  unfolding bind_late
  late-IsAcyclic user none s = acyclic
  late-IsAcyclic user (some ref_id) s = bound-IsAcyclic user ref_id (User.referred_by user) s

  onboard-IsAcyclic :
      (telegram_id : ℕ) (ref_id : Option ℕ) (o : Option User)
      → ((user : User) → o ≡ some user → (User.is_deleted user ≡ false) × IsSole user (Db.users db))
      → IsAcyclic (onboard telegram_id ref_id o db).1
  unfolding onboard restore
  onboard-IsAcyclic telegram_id ref_id none h = registered-IsAcyclic telegram_id ref_id
  onboard-IsAcyclic telegram_id ref_id (some user) h =
      simp ((h user refl).0) (late-IsAcyclic user ref_id (h user refl).1)

  -- Where nobody is above himself among the users that are not deleted, an onboarding keeps it so, for
  -- a new user and for a user who is not deleted and whose row is the only one with its id; a user
  -- that is restored is excluded, since the walk did not see his referrer while he was deleted.
  pub process_onboarding-IsAcyclic :
      (telegram_id : ℕ) (ref_id : Option ℕ)
      → ((user : User)
          → get_user_by_telegram_id_any telegram_id db ≡ some user
          → (User.is_deleted user ≡ false) × IsSole user (Db.users db))
      → IsAcyclic (process_onboarding telegram_id ref_id db).1
  unfolding process_onboarding
  process_onboarding-IsAcyclic telegram_id ref_id h =
      onboard-IsAcyclic telegram_id ref_id (get_user_by_telegram_id_any telegram_id db) h
