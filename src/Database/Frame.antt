-- ===== src/Database/Frame.antt =====
-- What an action leaves as it was, whether it returns or raises.
use just1kbot.Prelude.{Bool, true, false, ◌≡◌, ◌≢◌, ◌⊎◌, inl, inr, refl, ap, ◌∙◌}
use just1kbot.Database.Store.{Db, Result, ok, err, Action, Error, and_then, ◌>>=◌, ◌>>◌, raise_if}

-- The part `f` of the database is the same afterwards.
abbrev pub Keeps : {A B : Type 0} → (Db → B) → Action A → Type 0
Keeps f m = (db : Db) → f (m db).1 ≡ f db

Keeps-and_then :
    {A B C : Type 0} (f : Db → B) (b : B) (r : Result A × Db) (k : A → Action C)
    → f r.1 ≡ b
    → ((a : A) → Keeps f (k a))
    → f (and_then r k).1 ≡ b
Keeps-and_then f b (ok a, db) k h g = g a db ∙ h
Keeps-and_then f b (err e, db) k h g = h

-- One action after another keeps what both keep.
pub Keeps-bind :
    {A B C : Type 0} (f : Db → B) (m : Action A) (k : A → Action C)
    → Keeps f m
    → ((a : A) → Keeps f (k a))
    → Keeps f (m >>= k)
Keeps-bind f m k h g db = Keeps-and_then f (f db) (m db) k (h db) g

-- A guard keeps everything.
pub Keeps-raise_if :
    {A B : Type 0} (f : Db → B) (c : Bool) (e : Error) (k : Action A)
    → Keeps f k
    → Keeps f (raise_if c e >> k)
Keeps-raise_if f true e k h db = refl
Keeps-raise_if f false e k h db = h db

-- An exception that an action does not raise.
abbrev pub Avoids : {A : Type 0} → Error → Action A → Type 0
Avoids e m = (db : Db) → (m db).0 ≢ err e

-- An exception of one type of result as one of another.
reraise : {A C : Type 0} → Result C → Result A
reraise (ok c) = err Error.type_error
reraise (err x) = err x

Avoids-and_then :
    {A C : Type 0} (e : Error) (r : Result A × Db) (k : A → Action C)
    → r.0 ≢ err e
    → ((a : A) → Avoids e (k a))
    → (and_then r k).0 ≢ err e
unfolding reraise
Avoids-and_then e (ok a, db) k h g = g a db
Avoids-and_then {A = A} e (err x, db) k h g = λ p. h (ap (reraise {A = A}) p)

-- Two actions that do not raise it, one after another.
pub Avoids-bind :
    {A C : Type 0} (e : Error) (m : Action A) (k : A → Action C)
    → Avoids e m
    → ((a : A) → Avoids e (k a))
    → Avoids e (m >>= k)
Avoids-bind e m k h g db = Avoids-and_then e (m db) k (h db) g

-- A guard before an action that does not raise its exception: if the whole raises it, nothing was
-- changed.
pub guard-cases :
    {A : Type 0} (e : Error) (c : Bool) (k : Action A)
    → Avoids e k
    → (db : Db) → (((raise_if c e >> k) db).1 ≡ db) ⊎ (((raise_if c e >> k) db).0 ≢ err e)
guard-cases e true k h db = inl refl
guard-cases e false k h db = inr (h db)

-- What holds of every exception and of all that may follow a value holds of the sequence.
pub and_then-elim :
    {A C : Type 0} (Q : Result C × Db → Type 0) (r : Result A × Db) (k : A → Action C)
    → ((e : Error) (db : Db) → Q (err e, db))
    → ((a : A) (db : Db) → Q (k a db))
    → Q (and_then r k)
and_then-elim Q (ok a, db) k h g = g a db
and_then-elim Q (err e, db) k h g = h e db

-- An answer that is no exception is a value.
pub ok_value :
    {A : Type 0} (r : Result A × Db) → ((e : Error) → r.0 ≢ err e) → (a : A) × (r ≡ (ok a, r.1))
ok_value (ok a, db) h = (a, refl)
ok_value (err e, db) h = absurd (h e refl)
