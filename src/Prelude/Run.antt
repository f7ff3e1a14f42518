-- ===== src/Prelude/Run.antt =====
-- Code that may fail an assertion (`BUG_ON` of shared/lk/bug.h, which aborts the process), and
-- loops that are given fuel.
use ngnfs_progs.Prelude.Tests.{if◌then◌else◌}
use mathlib.Core.Path.{◌≡◌, refl}
use mathlib.Core.Bool.{Bool}

-- `bug` is a failed assertion; `hang` is a loop that has used its fuel.
pub data Run {ℓ} (A : Type ℓ) : Type ℓ where
  done : A → Run A
  bug : Run A
  hang : Run A

infixl 5 ◌>>=◌ ◌>>◌
abbrev pub ◌>>=◌ {ℓ κ} : {A : Type ℓ} {B : Type κ} → Run A → (A → Run B) → Run B
done a >>= f = f a
bug >>= f = bug
hang >>= f = hang

abbrev pub ◌>>◌ {ℓ} : {B : Type ℓ} → Run (Unit {0}) → Run B → Run B
m >> k = m >>= λ _. k

abbrev pub bug_on : Bool → Run (Unit {0})
bug_on c = if c then bug else done tt

-- The run ends, with a result that satisfies `P`.
abbrev pub Returns {ℓ} : {A : Type ℓ} → Run A → (A → Type 0) → Type 0
Returns (done a) P = P a
Returns bug P = ⊥
Returns hang P = ⊥

pub Returns-done {ℓ} :
    {A : Type ℓ} (P : A → Type 0) (r : Run A) → Returns r P → (a : A) × (r ≡ done a) × P a
Returns-done P (done a) h = (a, refl, h)
Returns-done P bug h = absurd h
Returns-done P hang h = absurd h

pub Returns-bind {ℓ κ} :
    {A : Type ℓ} {B : Type κ} (P : A → Type 0) (Q : B → Type 0) (m : Run A) (f : A → Run B)
    → Returns m P
    → ((a : A) → P a → Returns (f a) Q)
    → Returns (m >>= f) Q
Returns-bind P Q (done a) f h next = next a h
Returns-bind P Q bug f h next = absurd h
Returns-bind P Q hang f h next = absurd h

pub Returns-map {ℓ} :
    {A : Type ℓ} (P Q : A → Type 0) (r : Run A) → Returns r P → ((a : A) → P a → Q a) → Returns r Q
Returns-map P Q (done a) h next = next a h
Returns-map P Q bug h next = absurd h
Returns-map P Q hang h next = absurd h
