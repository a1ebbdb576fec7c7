-- ===== src/Base/Run.antt =====
-- What a call of a Rust function comes to: a value, or a panic. Loops on fuel have a third outcome.
use mathlib.Core.Option.{Option, none, some}
use mathlib.Core.Bool.{Bool, true, false}
use mirror_mergiraf.Base.Tests.{if◌then◌else◌}

pub data Run {ℓ} (A : Type ℓ) : Type ℓ where
  done : A → Run A
  panicked : Run A
  out_of_fuel : Run A

infixl 5 ◌>>=◌ ◌>>◌
abbrev pub ◌>>=◌ {ℓ κ} : {A : Type ℓ} {B : Type κ} → Run A → (A → Run B) → Run B
done a >>= f = f a
panicked >>= f = panicked
out_of_fuel >>= f = out_of_fuel

abbrev pub ◌>>◌ {ℓ κ} : {A : Type ℓ} {B : Type κ} → Run A → Run B → Run B
m >> k = m >>= λ _. k

-- The call returns, and its value satisfies `P`.
abbrev pub Returns {ℓ} : {A : Type ℓ} → (A → Type 0) → Run A → Type 0
Returns P (done a) = P a
Returns P panicked = ⊥
Returns P out_of_fuel = ⊥

-- `Option::expect` and `Option::unwrap`
abbrev pub expect {ℓ} : {A : Type ℓ} → Option A → Run A
expect none = panicked
expect (some a) = done a

-- `Result<A, E>`
pub data Result {ℓ κ} (E : Type ℓ) (A : Type κ) : Type (ℓ ⊔ κ) where
  ok : A → Result E A
  err : E → Result E A

pub Returns-imp {ℓ} :
    {A : Type ℓ} {P Q : A → Type 0} (r : Run A) → ((a : A) → P a → Q a) → Returns P r → Returns Q r
Returns-imp (done a) f h = f a h
Returns-imp panicked f h = h
Returns-imp out_of_fuel f h = h

pub Returns->>= {ℓ κ} :
    {A : Type ℓ} {B : Type κ} (P : A → Type 0) (Q : B → Type 0) (m : Run A) (f : A → Run B)
    → ((a : A) → P a → Returns Q (f a))
    → Returns P m
    → Returns Q (m >>= f)
Returns->>= P Q (done a) f h r = h a r
Returns->>= P Q panicked f h r = r
Returns->>= P Q out_of_fuel f h r = r

pub Returns-if {ℓ} :
    {A : Type ℓ} (P : A → Type 0) (b : Bool) (r t : Run A)
    → Returns P r
    → Returns P t
    → Returns P (if b then r else t)
Returns-if P true r t h k = h
Returns-if P false r t h k = k

-- The call ends: with a value that satisfies `P`, or with a panic, and then `S` holds.
abbrev pub Ends {ℓ} : Type 0 → {A : Type ℓ} → (A → Type 0) → Run A → Type 0
Ends S P (done a) = P a
Ends S P panicked = S
Ends S P out_of_fuel = ⊥

pub Ends-imp {ℓ} :
    (S : Type 0) {A : Type ℓ} {P Q : A → Type 0} (r : Run A)
    → ((a : A) → P a → Q a)
    → Ends S P r
    → Ends S Q r
Ends-imp S (done a) f h = f a h
Ends-imp S panicked f h = h
Ends-imp S out_of_fuel f h = h

pub Ends->>= {ℓ κ} :
    (S : Type 0) {A : Type ℓ} {B : Type κ} (P : A → Type 0) (Q : B → Type 0) (m : Run A)
    (f : A → Run B)
    → ((a : A) → P a → Ends S Q (f a))
    → Ends S P m
    → Ends S Q (m >>= f)
Ends->>= S P Q (done a) f h r = h a r
Ends->>= S P Q panicked f h r = r
Ends->>= S P Q out_of_fuel f h r = r
