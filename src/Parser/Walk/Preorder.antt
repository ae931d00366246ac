-- ===== src/Parser/Walk/Preorder.antt =====
-- The walk as a traversal of a forest of entries.
use libdwarfparser.Prelude.{
  ℕ, zero, suc, ◌+◌, ◌≤◌, ◌<◌, ◌≡◌, refl, ap, ◌∙◌, List, [], ◌∷◌, length, All, arith,
}
use libdwarfparser.Outcome.{Outcome, ok, fail}
use libdwarfparser.Symbols.{Pointer}
use libdwarfparser.Manager.{SymbolManager, Method, pure, continue, ◌>>=◌, ◌>>◌}
use libdwarfparser.Parser.{Parser, Answer, dlv_no_entry, dlv_ok}
use libdwarfparser.Parser.Init.{init_symbol_from_die}
use libdwarfparser.Parser.Walk.{
  Debug, on_answer, entry_loop, get_die_and_siblings, read_units, read_cu_list,
}

-- Entries that stand side by side: the first, by its handle, those below it and those behind it.
pub data Forest : Type 0 where
  empty : Forest
  entry : ℕ → Forest → Forest → Forest

abbrev pub size : Forest → ℕ
size empty = 0
size (entry h below behind) = suc (size below + size behind)

-- A unit: where the next one begins, and its entry.
pub record CompileUnit : Type 0 where
  pub next : ℕ
  pub handle : ℕ
  pub below : Forest
  pub behind : Forest

-- Methods that agree on every manager agree in what comes after them.
pub bind_cong :
    {A B : Type 0} (r r' : Method A) (f f' : A → Method B) (m : SymbolManager)
    → r m ≡ r' m
    → ((a : A) (m' : SymbolManager) → f a m' ≡ f' a m')
    → (r >>= f) m ≡ (r' >>= f') m
bind_cong {A} {B} r r' f f' m same after =
    ap (λ x. continue x.0 f x.1) same ∙ agree (r' m).0 (r' m).1
  where
    agree : (o : Outcome A) (m' : SymbolManager) → continue o f m' ≡ continue o f' m'
    agree (ok a) m' = after a m'
    agree (fail e) m' = refl

module _ (g : Debug) where
  -- What `child` and `sibling` answer where the forest stands.
  abbrev pub Shows : Forest → Answer ℕ → Type 0
  Shows empty a = a ≡ dlv_no_entry
  Shows (entry h below behind) a =
      (a ≡ dlv_ok h) × Shows below (g.child h) × Shows behind (g.sibling h)

  -- Each entry makes its symbol, under the symbol of its parent, before those below it and those
  -- behind it do.
  unfoldable pub visit : Parser → Forest → Pointer → Method (Unit {0})
  unfolding init_symbol_from_die
  visit p empty parent = pure tt
  visit p (entry h below behind) parent = init_symbol_from_die p (g.die h) parent >>= λ cursym.
      visit p below cursym >> visit p behind parent

  on_answer-eq-visit :
      (p : Parser) (n : ℕ) (f : Forest) (a : Answer ℕ) (parent : Pointer) (m : SymbolManager)
      → Shows f a
      → size f ≤ n
      → on_answer a (λ h. get_die_and_siblings g p n h parent) m ≡ visit p f parent m
  unfolding entry_loop get_die_and_siblings visit
  on_answer-eq-visit p n empty a parent m shown bound = rw shown refl
  on_answer-eq-visit p zero (entry h below behind) a parent m shown bound = absurd (omega arith)
  on_answer-eq-visit p (suc n) (entry h below behind) a parent m (is_h, children, siblings) bound =
      rw is_h (
        bind_cong (init_symbol_from_die p (g.die h) parent)
          (init_symbol_from_die p (g.die h) parent) (λ s. entry_loop g p (suc n) h s parent)
          (λ s. visit p below s >> visit p behind parent) m refl
          (λ s m'.
            bind_cong (on_answer (g.child h) (λ c. get_die_and_siblings g p n c s))
              (visit p below s)
              (λ _. on_answer (g.sibling h) (λ c. get_die_and_siblings g p n c parent))
              (λ _. visit p behind parent) m'
              (on_answer-eq-visit p n below (g.child h) s m' children (omega arith))
              (λ _ m''.
                on_answer-eq-visit p n behind (g.sibling h) parent m'' siblings (omega arith))))

  -- Where libdwarf shows a finite forest behind an entry, a walk that may go as many rounds deep
  -- as the forest has entries is the traversal of the forest, whatever becomes of the entries.
  pub get_die_and_siblings-eq-visit :
      (p : Parser) (n h : ℕ) (below behind : Forest) (parent : Pointer) (m : SymbolManager)
      → Shows below (g.child h)
      → Shows behind (g.sibling h)
      → size (entry h below behind) ≤ n
      → get_die_and_siblings g p n h parent m ≡ visit p (entry h below behind) parent m
  get_die_and_siblings-eq-visit p n h below behind parent m children siblings bound =
      on_answer-eq-visit p n (entry h below behind) (dlv_ok h) parent m (refl, children, siblings)
        bound

  -- The units as the questions for them show them, from the `k`-th on.
  abbrev pub ShowsUnits : ℕ → List CompileUnit → Type 0
  ShowsUnits k [] = g.next_cu_header k ≡ dlv_no_entry
  ShowsUnits k (u ∷ us) =
      (g.next_cu_header k ≡ dlv_ok u.next)
      × (g.cu_die k ≡ dlv_ok u.handle)
      × Shows u.below (g.child u.handle)
      × Shows u.behind (g.sibling u.handle)
      × ShowsUnits (suc k) us

  abbrev pub AtMost : ℕ → List CompileUnit → Type 0
  AtMost n = All (λ u. size (entry u.handle u.below u.behind) ≤ n)

  -- Each unit is traversed relative to its own offset: that of the first is given, and each unit
  -- says where the next one begins.
  unfoldable pub visit_units : Parser → ℕ → List CompileUnit → Method (Unit {0})
  unfolding visit
  visit_units p offset [] = pure tt
  visit_units p offset (u ∷ us) =
      visit (record p { cur_cu_offset = offset }) (entry u.handle u.below u.behind) 0
      >> visit_units p u.next us

  read_units-eq-visit_units :
      (p : Parser) (rounds n k next : ℕ) (us : List CompileUnit) (m : SymbolManager)
      → ShowsUnits k us
      → AtMost n us
      → length us < rounds
      → read_units g p rounds n k next m ≡ visit_units p next us m
  unfolding read_units visit_units
  read_units-eq-visit_units p zero n k next us m shown small bound = absurd (omega arith)
  read_units-eq-visit_units p (suc rounds) n k next [] m shown small bound =
      rw (shown, read_units) refl
  read_units-eq-visit_units p (suc rounds) n k next (u ∷ us) m
        (header, at, children, siblings, shown) (small, smalls) bound =
      let unit = record p { cur_cu_offset = next } in
      rw (header, at, read_units)
        (bind_cong (get_die_and_siblings g unit n u.handle 0)
          (visit unit (entry u.handle u.below u.behind) 0)
          (λ _. read_units g p rounds n (suc k) u.next) (λ _. visit_units p u.next us) m
          (get_die_and_siblings-eq-visit unit n u.handle u.below u.behind 0 m children siblings
            small)
          (λ _ m'.
            read_units-eq-visit_units p rounds n (suc k) u.next us m' shown smalls (omega arith)))

  -- `read_cu_list` is the traversal of the units in order, each relative to its own offset, which
  -- for the first unit is 0; where libdwarf shows finitely many units with finitely many entries,
  -- and the rounds are more than the units and the depth at least the entries of each.
  pub read_cu_list-eq-visit_units :
      (p : Parser) (rounds n : ℕ) (us : List CompileUnit) (m : SymbolManager)
      → ShowsUnits 0 us
      → AtMost n us
      → length us < rounds
      → read_cu_list g p rounds n m ≡ visit_units p 0 us m
  unfolding read_cu_list
  read_cu_list-eq-visit_units p rounds n us m shown small bound =
      read_units-eq-visit_units p rounds n 0 0 us m shown small bound
