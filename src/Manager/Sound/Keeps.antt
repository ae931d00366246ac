-- ===== src/Manager/Sound/Keeps.antt =====
-- The methods of `SymbolManager` (libdwarfparser/symbolmanager.cpp) that keep its containers sound,
-- one rule for each way to compose them.
use libdwarfparser.Prelude.{ℕ, ◌≡◌, refl, some, nat_eq, string_eq, Option-cases, inl, inr, arith}
use libdwarfparser.Outcome.{Failure, Outcome, ok, fail}
use libdwarfparser.Map.{find, assign, find-assign_own, All-find}
use libdwarfparser.Symbols.{Symbol, Pointer}
use libdwarfparser.Manager.{
  SymbolManager, Method, pure, raise, lift, continue, ◌>>=◌, deref, store, alloc, get_id,
  constructing, on_throw,
}
use libdwarfparser.Manager.Register.{add_symbol, add_alternative_id}
use libdwarfparser.Manager.Sound.{
  IsSound, IsEntered, sound_entries, replace-IsSound, entered, entered-IsSound,
}
use libdwarfparser.Manager.Sound.Extends.{
  Extends, Extends-refl, Extends-trans, Extends-same, get_id-Extends, assign-Extends, alias-Extends,
}

-- Sound containers, in which nothing that was known before is lost.
abbrev pub Kept : SymbolManager → SymbolManager → Type 0
Kept m m' = IsSound m' × Extends m m'

-- The same where a run has returned.
abbrev pub Left : {A : Type 0} → SymbolManager → Outcome A × SymbolManager → Type 0
Left m (ok a, m') = Kept m m'
Left m (fail e, m') = Unit

-- Where the method returns, sound containers have stayed sound and nothing that was known is lost.
pub record Keeps {A : Type 0} (r : Method A) : Type 0 where
  pub leaves : (m : SymbolManager) → IsSound m → Left m (r m)

pub Kept-Left :
    {A : Type 0} (x : Outcome A × SymbolManager) (m : SymbolManager) → Kept m x.1 → Left m x
Kept-Left (ok a, m') m k = k
Kept-Left (fail e, m') m k = tt

pub Left-ok :
    {A : Type 0} (x : Outcome A × SymbolManager) (m : SymbolManager) (a : A)
    → x.0 ≡ ok a
    → Left m x
    → Kept m x.1
Left-ok (ok b, m') m a e k = k
Left-ok (fail f, m') m a e k = absurd (ground arith)

-- The manager after a run that has returned.
pub kept :
    {A : Type 0} {r : Method A}
    → Keeps r
    → (m : SymbolManager) (a : A) → IsSound m
    → (r m).0 ≡ ok a
    → Kept m (r m).1
kept {A} {r} h m a v e = Left-ok (r m) m a e (Keeps.leaves h m v)

pub keeping :
    {A : Type 0} (r : Method A) → ((m : SymbolManager) → IsSound m → Kept m (r m).1) → Keeps r
keeping r h = record { leaves = λ m v. Kept-Left (r m) m (h m v) }

-- A method that leaves the manager as it is.
pub still-Keeps : {A : Type 0} (r : Method A) → ((m : SymbolManager) → (r m).1 ≡ m) → Keeps r
still-Keeps r h = keeping r (λ m v. rw (h m) (v, Extends-refl m))

pub pure-Keeps : {A : Type 0} (a : A) → Keeps (pure a)
pure-Keeps a = still-Keeps (pure a) (λ m. refl)

pub raise-Keeps : {A : Type 0} (e : Failure) → Keeps {A = A} (raise e)
raise-Keeps e = still-Keeps (raise e) (λ m. refl)

pub lift-Keeps : {A : Type 0} (o : Outcome A) → Keeps (lift o)
lift-Keeps o = still-Keeps (lift o) (λ m. refl)

pub Left-trans :
    {A : Type 0} (x : Outcome A × SymbolManager) (m m' : SymbolManager)
    → Extends m m'
    → Left m' x
    → Left m x
Left-trans (ok a, m'') m m' e (v, e') = (v, Extends-trans m m' m'' e e')
Left-trans (fail f, m'') m m' e k = tt

pub continue-Left :
    {A B : Type 0} (o : Outcome A) (f : A → Method B) (m m' : SymbolManager)
    → ((a : A) → IsSound m' → Left m' (f a m'))
    → Left m (o, m')
    → Left m (continue o f m')
continue-Left (ok a) f m m' h (v, e) = Left-trans (f a m') m m' e (h a v)
continue-Left (fail e) f m m' h k = tt

-- The body of a constructor.
pub constructing-Keeps :
    {A : Type 0} (q : Pointer) {r : Method A} → Keeps r → Keeps (constructing q r)
constructing-Keeps {A} q {r} h = record { leaves = λ m v. returned (r m) m (Keeps.leaves h m v) }
  where
    returned :
        (x : Outcome A × SymbolManager) (m : SymbolManager) → Left m x → Left m (on_throw q x.0 x.1)
    returned (ok a, m') m k = k
    returned (fail e, m') m k = tt

pub bind-Keeps :
    {A B : Type 0} {r : Method A} {f : A → Method B}
    → Keeps r
    → ((a : A) → Keeps (f a))
    → Keeps (r >>= f)
bind-Keeps {A} {B} {r} {f} h k = record {
  leaves = λ m v.
      continue-Left (r m).0 f m (r m).1 (λ a. Keeps.leaves (k a) (r m).1) (Keeps.leaves h m v);
}

pub deref-Keeps : (q : Pointer) → Keeps (deref q)
unfolding deref
deref-Keeps q = still-Keeps (deref q) (λ m. refl)

-- An object is read, and something follows that keeps sound containers sound where the object is.
pub deref_bind-Keeps :
    {A : Type 0} (q : Pointer) (f : Symbol → Method A)
    → ((m : SymbolManager) (s : Symbol)
        → find m.heap.cells q ≡ some s
        → IsSound m
        → Kept m (f s m).1)
    → Keeps (deref q >>= f)
unfolding deref
deref_bind-Keeps q f h = keeping (deref q >>= f) (λ m v. elim (Option-cases (find m.heap.cells q)) [
  | inl gone ↦ rw gone (v, Extends-refl m)
  | inr (s, there) ↦ rw there (h m s there v)
])

pub update-Keeps :
    (q : Pointer) (f : Symbol → Symbol)
    → ((s : Symbol) → (f s).id ≡ s.id)
    → Keeps (deref q >>= λ s. store q (f s))
unfolding store
update-Keeps q f same =
    deref_bind-Keeps q (λ s. store q (f s))
      (λ m s there v. (
        replace-IsSound m q s (f s) there (same s) v,
        Extends-same m (store q (f s) m).1 refl refl refl refl,
      ))

pub get_id-Keeps : (d : ℕ × ℕ) → Keeps (get_id d)
unfolding get_id
get_id-Keeps d = keeping (get_id d) (λ m v. (v, get_id-Extends m d))

-- A new object and its registration.
pub enter_lem :
    (m : SymbolManager) (s : Symbol)
    → (alloc s >>= λ q. add_symbol q >>= λ _. pure q) m ≡ (ok m.heap.next, entered m s)
unfolding alloc add_symbol
enter_lem m s = rw (find-assign_own m.heap.cells m.heap.next s) refl

entered-Extends : (m : SymbolManager) (s : Symbol) → Extends m (entered m s)
entered-Extends m s =
    Extends-trans m (record m { symbol_id_map = assign m.symbol_id_map s.id m.heap.next })
      (entered m s) (assign-Extends m s.id m.heap.next)
      (Extends-same _ (entered m s) refl refl refl refl)

pub enter-Keeps : (s : Symbol) → Keeps (alloc s >>= λ q. add_symbol q >>= λ _. pure q)
enter-Keeps s = keeping _ (λ m v. rw (enter_lem m s) (entered-IsSound m s v, entered-Extends m s))

-- An identifier becomes an alias of a symbol that is there.
added-Extends :
    (m : SymbolManager) (id i : ℕ) (p : Pointer)
    → find m.symbol_id_map id ≡ some p
    → Extends m (add_alternative_id id i m).1
unfolding add_alternative_id
added-Extends m id i p at =
    Extends-trans m (record m { symbol_id_alias_map = assign m.symbol_id_alias_map i id })
      (add_alternative_id id i m).1 (alias-Extends m id i p at)
      (Extends-same _ (add_alternative_id id i m).1 refl refl refl refl)

pub add_alias-Keeps : (q : Pointer) (i : ℕ) → Keeps (deref q >>= λ s. add_alternative_id s.id i)
unfolding add_alternative_id
add_alias-Keeps q i =
    deref_bind-Keeps q (λ s. add_alternative_id s.id i)
      (λ m s there v.
        let (p, at) =
          All-find (IsEntered m.symbol_id_map) m.heap.cells q s (sound_entries m v) there in
        (v, added-Extends m s.id i p at))
