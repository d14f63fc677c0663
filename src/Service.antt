-- ===== src/Service.antt =====
-- Service calls outside apps/projects: a call reads its surroundings and rewrites the rows of one
-- store, and returns or raises. What it has written when it raises stays, outside
-- `transaction.atomic`. apps/audit/services.py: the event that `record_audit` writes.
use dev_nepal.Prelude.{ℕ, Bool, Option, none, some, if◌then◌else◌}
use dev_nepal.Accounts.{Actor}

pub data Reply (E A : Type 0) : Type 0 where
  returns : A → Reply E A
  raises : E → Reply E A

abbrev pub Service : Type 0 → Type 0 → Type 0 → Type 0 → Type 0
Service X S E A = X → S → Reply E A × S

module _ {S E A : Type 0} where
  abbrev pub kept : S → Reply E A × S → Reply E A × S
  kept before (returns a, after) = (returns a, after)
  kept before (raises e, after) = (raises e, before)

module _ {X S E : Type 0} where
  abbrev pub reply : {A : Type 0} → A → Service X S E A
  reply a x s = (returns a, s)

  abbrev pub fail : {A : Type 0} → E → Service X S E A
  fail e x s = (raises e, s)

  abbrev pub fail_if : Bool → E → Service X S E (Unit {0})
  fail_if test e x s = (if test then raises e else returns tt, s)

  abbrev pub read : {A : Type 0} → (S → A) → Service X S E A
  read f x s = (returns (f s), s)

  abbrev pub look : {A : Type 0} → (X → A) → Service X S E A
  look f x s = (returns (f x), s)

  abbrev pub update : (S → S) → Service X S E (Unit {0})
  update f x s = (returns tt, f s)

  -- `if test: m`, `else: k`
  abbrev pub choose : {A : Type 0} → Bool → Service X S E A → Service X S E A → Service X S E A
  choose test m k x s = if test then m x s else k x s

  -- `with transaction.atomic():`
  abbrev pub transaction : {A : Type 0} → Service X S E A → Service X S E A
  transaction m x s = kept s (m x s)

  abbrev pub resume_with :
      {A B : Type 0} → (A → Service X S E B) → X → Reply E A × S → Reply E B × S
  resume_with f x (returns a, s) = f a x s
  resume_with f x (raises e, s) = (raises e, s)

infixl 5 ◌>>=◌ ◌>>◌
abbrev pub ◌>>=◌ : {X S E A B : Type 0} → Service X S E A → (A → Service X S E B) → Service X S E B
◌>>=◌ m f x s = resume_with f x (m x s)

abbrev pub ◌>>◌ : {X S E B : Type 0} → Service X S E (Unit {0}) → Service X S E B → Service X S E B
m >> k = m >>= λ _. k

pub data EventResult : Type 0 where
  success failure denied : EventResult

-- A row of the audit trail, with the actions and the payloads of one component.
pub record Event (Op Payload : Type 0) : Type 0 where
  pub actor : Option ℕ
  pub action : Op
  pub before : Payload
  pub after : Payload
  pub result : EventResult
  pub created_at : ℕ

abbrev pub key_of : Actor → Option ℕ
key_of none = none
key_of (some user) = some user.pk
