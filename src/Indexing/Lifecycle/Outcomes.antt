-- ===== src/Indexing/Lifecycle/Outcomes.antt =====
-- What holds of a run that may end in a read outside a buffer.
use winindex.Storage.Serializer.Read.{Outcome, ok, rejected, fault, ◌>>=◌}
use winindex.Prelude.{◌≡◌}

-- What holds of every result that is defined.
abbrev pub Always {ℓ κ} : {A : Type ℓ} → (A → Type κ) → Outcome A → Type κ
Always P (ok a) = P a
Always P rejected = Unit
Always P fault = Unit

pub Always->>= {ℓ κ} :
    {A B : Type ℓ} (P : A → Type κ) (Q : B → Type κ) (o : Outcome A) (f : A → Outcome B)
    → Always P o
    → ((a : A) → P a → Always Q (f a))
    → Always Q (o >>= f)
Always->>= P Q (ok a) f h k = k a h
Always->>= P Q rejected f h k = tt
Always->>= P Q fault f h k = tt

pub Always-ok {ℓ κ} :
    {A : Type ℓ} (P : A → Type κ) {o : Outcome A} {a : A} → o ≡ ok a → Always P o → P a
Always-ok P e h = rw e at h
