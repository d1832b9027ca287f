-- ===== src/Domains/Options.antt =====
-- What a chain of fallible reads in zimascope-ebpf/src/domain.rs yields where it succeeds.
use zima_scope.Base.{◌≡◌, refl, Bool, true, false, Option, some, none, ◌>>=◌, if◌then◌else◌, arith}
use mathlib.Core.Path.{subst}
use mathlib.Core.Option.{some-injective}
use zima_scope.Domains.Dns.{when}

-- `P` holds of the result, where there is one.
pub record Yields {A : Type 0} (P : A → Type 0) (o : Option A) : Type 0 where
  pub yielded : (a : A) → o ≡ some a → P a

module _ {A : Type 0} {P : A → Type 0} where
  pub none-Yields : Yields P none
  none-Yields = record { yielded = λ a e. absurd (ground arith) }

  pub some-Yields : {a : A} → P a → Yields P (some a)
  some-Yields {a} h = record { yielded = λ b e. subst P (some-injective a b e) h }

  pub when-Yields :
      (test : Bool) {o : Option A} → ((test ≡ true) → Yields P o) → Yields P (when test o)
  unfolding when
  when-Yields true h = h refl
  when-Yields false h = none-Yields

  pub bind-Yields :
      {B : Type 0} (o : Option B) {f : B → Option A}
      → ((b : B) → o ≡ some b → Yields P (f b))
      → Yields P (o >>= f)
  bind-Yields none h = none-Yields
  bind-Yields (some b) h = h b refl

  pub test-Yields :
      (test : Bool) {a b : Option A}
      → Yields P a
      → Yields P b
      → Yields P (elim test [ true ↦ a | false ↦ b ])
  test-Yields true h k = h
  test-Yields false h k = k

  pub if-Yields :
      (test : Bool) {a b : Option A} → Yields P a → Yields P b → Yields P (if test then a else b)
  if-Yields true h k = h
  if-Yields false h k = k

-- A predicate on the value of a branch holds where it holds of both branches.
pub by_test :
    {A : Type 0} (P : A → Type 0) (test : Bool) {a b : A}
    → (test ≡ true → P a)
    → (test ≡ false → P b)
    → P (elim test [ true ↦ a | false ↦ b ])
by_test P true h k = h refl
by_test P false h k = k refl

pub by_option :
    {A : Type 0} {B : Type 0} (P : A → Type 0) (o : Option B) {a : A} {f : B → A}
    → P a
    → ((b : B) → o ≡ some b → P (f b))
    → P (elim o [ none ↦ a | some b ↦ f b ])
by_option P none h k = h
by_option P (some b) h k = k b refl
