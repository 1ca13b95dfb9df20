-- ===== src/WhiteInternet/Answers.antt =====
-- The triples (succeeded, text, object) that the operations of services/white_internet_service.py
-- return, and their early returns.
use just1kbot.Prelude.{Bool, true, false, Option, none, some}
use just1kbot.Database.{Action, pure}
use just1kbot.WhiteInternet.Settings.{Message}

abbrev pub Answer : Type 0 → Type 0
Answer A = Bool × (Message × Option A)

abbrev pub granted : {A : Type 0} → Message → A → Action (Answer A)
granted m a = pure (true, (m, some a))

abbrev pub refused : {A : Type 0} → Message → Action (Answer A)
refused m = pure (false, (m, none))

abbrev pub refuse_if : {A : Type 0} → Bool → Message → Action (Answer A) → Action (Answer A)
refuse_if c m k db = elim c [ true ↦ refused m db | false ↦ k db ]

-- An early return where a check or the checkout has a message.
abbrev pub unless : {A : Type 0} → Option Message → Action (Answer A) → Action (Answer A)
unless o k db = elim o [ some m ↦ refused m db | none ↦ k db ]

-- An early return where an object is missing.
abbrev pub or_refuse :
    {A B : Type 0} → Option A → Message → (A → Action (Answer B)) → Action (Answer B)
or_refuse o m k db = elim o [ none ↦ refused m db | some a ↦ k a db ]
