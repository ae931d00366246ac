-- ===== src/Manager/Sound/Establishes.antt =====
-- What methods of `SymbolManager` (libdwarfparser/symbolmanager.cpp) bring about where they return: a
-- rule for each way to compose them.
use libdwarfparser.Prelude.{◌≡◌, refl, Option, none, some}
use libdwarfparser.Outcome.{Failure, Outcome, ok, fail}
use libdwarfparser.Manager.{SymbolManager, Method, raise, lift, continue, ◌>>=◌}
use libdwarfparser.Manager.Sound.{IsSound}
use libdwarfparser.Manager.Sound.Keeps.{Keeps, Left}
use libdwarfparser.Ids.Numbered.{IsNumbered}
use libdwarfparser.Manager.Sound.Extends.{Extends}

-- After a method that has returned.
abbrev pub After : {A : Type 0} → (SymbolManager → Type 0) → (Outcome A × SymbolManager) → Type 0
After P (ok a, m) = P m
After P (fail e, m) = Unit

-- The manager that a run leaves where it has returned knows what was known.
abbrev pub Grown : {A : Type 0} → SymbolManager → (Outcome A × SymbolManager) → Type 0
Grown m (ok a, m') = Extends m m'
Grown m (fail e, m') = Unit

Left-Grown : {A : Type 0} (x : Outcome A × SymbolManager) (m : SymbolManager) → Left m x → Grown m x
Left-Grown (ok a, m') m (v, e) = e
Left-Grown (fail e, m') m v = tt

pub Extends-Grown :
    {A : Type 0} (x : Outcome A × SymbolManager) (m : SymbolManager) → Extends m x.1 → Grown m x
Extends-Grown (ok a, m') m e = e
Extends-Grown (fail f, m') m e = tt

-- On sound containers and counted identifiers, what the method leaves where it returns has the property.
pub record Establishes {A : Type 0} (P : SymbolManager → Type 0) (r : Method A) : Type 0 where
  pub holds : (m : SymbolManager) → IsSound m → IsNumbered m.ids → After P (r m)

-- What is known stays true as more becomes known.
abbrev pub IsLasting : (SymbolManager → Type 0) → Type 0
IsLasting P = (m m' : SymbolManager) → Extends m m' → P m → P m'

pub raise-Establishes :
    {A : Type 0} (P : SymbolManager → Type 0) (e : Failure) → Establishes {A = A} P (raise e)
raise-Establishes P e = record { holds = λ m v n. tt }

pub nothing-Establishes : {A : Type 0} (r : Method A) → Establishes (λ m. Unit) r
nothing-Establishes r = record { holds = λ m v n. ended (r m) }
  where
    ended : {A : Type 0} (x : Outcome A × SymbolManager) → After (λ m. Unit) x
    ended (ok a, m) = tt
    ended (fail e, m) = tt

module _ {A B : Type 0} (P : SymbolManager → Type 0) (r : Method A) (f : A → Method B) where
  ended_later :
      (x : Outcome B × SymbolManager) (m : SymbolManager)
      → IsLasting P
      → Grown m x
      → P m
      → After P x
  ended_later (ok b, m') m lasts e h = lasts m m' e h
  ended_later (fail e, m') m lasts _ h = tt

  continue_before :
      (o : Outcome A) (m m' : SymbolManager)
      → IsLasting P
      → ((a : A) (m : SymbolManager) → IsSound m → Grown m (f a m))
      → Left m (o, m')
      → After P (o, m')
      → After P (continue o f m')
  continue_before (ok a) m m' lasts k (v, e) h = ended_later (f a m') m' lasts (k a m' v) h
  continue_before (fail e) m m' lasts k v h = tt

  continue_after :
      (o : Outcome A) (m m' : SymbolManager)
      → ((a : A) → Establishes P (f a))
      → IsNumbered m.ids
      → Left m (o, m')
      → After P (continue o f m')
  continue_after (ok a) m m' h n (v, e) = Establishes.holds (h a) m' v (e.numbered n)
  continue_after (fail e) m m' h n v = tt

  -- The first part brings it about.
  pub first-Establishes :
      IsLasting P
      → Establishes P r
      → Keeps r
      → ((a : A) (m : SymbolManager) → IsSound m → Grown m (f a m))
      → Establishes P (r >>= f)
  first-Establishes lasts h k kf = record {
    holds = λ m v n.
        continue_before (r m).0 m (r m).1 lasts kf (Keeps.leaves k m v) (Establishes.holds h m v n);
  }

  pub before-Establishes :
      IsLasting P → Establishes P r → Keeps r → ((a : A) → Keeps (f a)) → Establishes P (r >>= f)
  before-Establishes lasts h k kf =
      first-Establishes lasts h k (λ a m v. Left-Grown (f a m) m (Keeps.leaves (kf a) m v))

  -- What comes after the first part does.
  pub after-Establishes : Keeps r → ((a : A) → Establishes P (f a)) → Establishes P (r >>= f)
  after-Establishes k h = record {
    holds = λ m v n. continue_after (r m).0 m (r m).1 h n (Keeps.leaves k m v);
  }

-- A value is read, if it can be.
pub lift_bind-Establishes :
    {A B : Type 0} (P : SymbolManager → Type 0) (o : Outcome A) (f : A → Method B)
    → ((a : A) → o ≡ ok a → Establishes P (f a))
    → Establishes P (lift o >>= f)
lift_bind-Establishes P (ok a) f h = h a refl
lift_bind-Establishes P (fail e) f h = raise-Establishes P e

pub both-Establishes :
    {A : Type 0} (P Q : SymbolManager → Type 0) (r : Method A)
    → Establishes P r
    → Establishes Q r
    → Establishes (λ m. P m × Q m) r
both-Establishes {A} P Q r h k = record {
  holds = λ m v n. both (r m) (Establishes.holds h m v n) (Establishes.holds k m v n);
}
  where
    both : (x : Outcome A × SymbolManager) → After P x → After Q x → After (λ m. P m × Q m) x
    both (ok a, m) p q = (p, q)
    both (fail e, m) p q = tt

pub option-Establishes :
    {A B : Type 0} (P : SymbolManager → Type 0) (o : Option A) (r : Method B) (f : A → Method B)
    → Establishes P r
    → ((a : A) → Establishes P (f a))
    → Establishes P (elim o [ none ↦ r | some a ↦ f a ])
option-Establishes P none r f h k = h
option-Establishes P (some a) r f h k = k a
