-- ===== src/Manager/Sound.antt =====
-- When the containers of `SymbolManager` (libdwarfparser/symbolmanager.cpp) lead to objects that are
-- there, and which methods leave it so.
pub mod Extends
pub mod Keeps
pub mod Establishes
pub mod Register
pub mod Destroyed
use libdwarfparser.Prelude.{
  ℕ, suc, ◌≡◌, ◌<◌, refl, sym, ◌∙◌, String, Option, none, some, List, [], ◌∷◌, ◌++◌, ◌==◌,
  if◌then◌else◌, arith, nat_eq, string_eq, nat_beq_iff, All, Bool-cases, Option-cases, inl, inr,
}
use libdwarfparser.Map.{
  Map, find, assign, find-assign, find-assign_own, All-find, All-assign, IsUnique, IsUnique-assign,
}
use libdwarfparser.Symbols.{Symbol, Pointer}
use libdwarfparser.Manager.{SymbolManager, Heap, Multimap, init}
use libdwarfparser.Manager.Find.{Carries, IsIndexed}

abbrev pub IsLive : Heap → Pointer → Type 0
IsLive h p = (s : Symbol) × (find h.cells p ≡ some s)

abbrev pub AllLive : {K : Type 0} → Heap → List (K × Pointer) → Type 0
AllLive h entries = All (λ e. IsLive h e.1) entries

-- `new` gives a pointer that no object has.
abbrev pub IsFresh : Heap → Type 0
IsFresh h = All (λ c. c.0 < h.next) h.cells

-- An identifier leads to the object, or to another that was entered under it since.
abbrev pub IsEntered : Map ℕ Pointer → ℕ × Symbol → Type 0
IsEntered entries c = (q : Pointer) × (find entries c.1.id ≡ some q)

-- Every pointer in a container leads to an object, that of an identifier, which is entered once, to
-- one that carries it; and the identifier of every object is entered.
abbrev pub IsSound : SymbolManager → Type 0
IsSound m =
    IsFresh m.heap
    × IsIndexed m
    × IsUnique m.symbol_id_map
    × AllLive m.heap m.symbol_name_map
    × AllLive m.heap m.base_type_name_map
    × AllLive m.heap m.function_name_map
    × AllLive m.heap m.ref_base_type_name_map
    × AllLive m.heap m.variable_name_map
    × AllLive m.heap m.array_type_map
    × All (IsLive m.heap) m.func_list
    × All (IsLive m.heap) m.array_vector
    × All (IsEntered m.symbol_id_map) m.heap.cells

pub init-IsSound : IsSound init
init-IsSound = (tt, tt, tt, tt, tt, tt, tt, tt, tt, tt, tt, tt)

pub All-weaken {ℓ κ μ} :
    {A : Type ℓ} (P : A → Type κ) (Q : A → Type μ) (xs : List A)
    → ((x : A) → P x → Q x)
    → All P xs
    → All Q xs
All-weaken P Q [] f a = tt
All-weaken P Q (x ∷ xs) f (a, rest) = (f x a, All-weaken P Q xs f rest)

pub All-snoc {ℓ κ} :
    {A : Type ℓ} (P : A → Type κ) (xs : List A) (x : A) → All P xs → P x → All P (xs ++ x ∷ [])
All-snoc P [] x a p = (p, tt)
All-snoc P (y ∷ xs) x (a, rest) p = (a, All-snoc P xs x rest p)

-- No object goes, and each keeps its identifier.
pub record Grows (h h' : Heap) : Type 0 where
  pub grows :
      (p : Pointer) (s : Symbol)
      → find h.cells p ≡ some s
      → (s' : Symbol) × (find h'.cells p ≡ some s') × (s'.id ≡ s.id)

IsLive-Grows : (h h' : Heap) (p : Pointer) → Grows h h' → IsLive h p → IsLive h' p
IsLive-Grows h h' p g (s, at) = let (s', at', same) = g.grows p s at in (s', at')

Carries-Grows : (h h' : Heap) (e : ℕ × Pointer) → Grows h h' → Carries h e → Carries h' e
Carries-Grows h h' (i, p) g (s, at, carried) =
    let (s', at', same) = g.grows p s at in (s', at', same ∙ carried)

AllLive-Grows :
    {K : Type 0} (h h' : Heap) (entries : List (K × Pointer))
    → Grows h h'
    → AllLive h entries
    → AllLive h' entries
AllLive-Grows h h' entries g = All-weaken _ _ entries (λ e. IsLive-Grows h h' e.1 g)

pub IsSound-Grows :
    (m : SymbolManager) (h : Heap)
    → Grows m.heap h
    → IsFresh h
    → All (IsEntered m.symbol_id_map) h.cells
    → IsSound m
    → IsSound (record m { heap = h })
IsSound-Grows m h g fresh entered (_, i, u, n, b, f, r, v, t, fs, ars, _) = (
  fresh,
  All-weaken _ _ m.symbol_id_map (λ e. Carries-Grows m.heap h e g) i,
  u,
  AllLive-Grows m.heap h m.symbol_name_map g n,
  AllLive-Grows m.heap h m.base_type_name_map g b,
  AllLive-Grows m.heap h m.function_name_map g f,
  AllLive-Grows m.heap h m.ref_base_type_name_map g r,
  AllLive-Grows m.heap h m.variable_name_map g v,
  AllLive-Grows m.heap h m.array_type_map g t,
  All-weaken _ _ m.func_list (λ p. IsLive-Grows m.heap h p g) fs,
  All-weaken _ _ m.array_vector (λ p. IsLive-Grows m.heap h p g) ars,
  entered,
)

-- The last part of what is sound.
pub sound_entries : (m : SymbolManager) → IsSound m → All (IsEntered m.symbol_id_map) m.heap.cells
sound_entries m (h, i, u, n, b, f, r, v, t, fs, ars, entered) = entered

-- An object is replaced by one with the same identifier.
pub replace-IsSound :
    (m : SymbolManager) (q : Pointer) (s s' : Symbol)
    → find m.heap.cells q ≡ some s
    → s'.id ≡ s.id
    → IsSound m
    → IsSound (record m { heap = record m.heap { cells = assign m.heap.cells q s' } })
replace-IsSound m q s s' at same sound =
    IsSound-Grows m (record m.heap { cells = assign m.heap.cells q s' })
      (record {
        grows = λ p t at_p. elim (Bool-cases (q == p)) [
          | inl here ↦ (
            s',
            ground (arith, find-assign m.heap.cells q p s'),
            ground (arith, nat_beq_iff q p, at, at_p),
          )
          | inr other ↦ (t, ground (arith, find-assign m.heap.cells q p s'), refl)
        ];
      })
      (All-assign (λ c. c.0 < m.heap.next) m.heap.cells q s' sound.0
        (All-find (λ c. c.0 < m.heap.next) m.heap.cells q s sound.0 at))
      (All-assign (IsEntered m.symbol_id_map) m.heap.cells q s' (sound_entries m sound) (
        rw same (All-find (IsEntered m.symbol_id_map) m.heap.cells q s (sound_entries m sound) at)))
      sound

next_free : (h : Heap) → IsFresh h → find h.cells h.next ≡ none
next_free h fresh = elim (Option-cases (find h.cells h.next)) [
  | inl free ↦ free
  | inr (s, there) ↦
      absurd (omega (arith, All-find (λ c. c.0 < h.next) h.cells h.next s fresh there))
]

-- A new object that is entered under its identifier and its name.
abbrev pub entered : SymbolManager → Symbol → SymbolManager
entered m s = record m {
  heap = record { cells = assign m.heap.cells m.heap.next s; next = suc m.heap.next };
  symbol_name_map =
      if s.name == "" then m.symbol_name_map else m.symbol_name_map ++ (s.name, m.heap.next) ∷ [];
  symbol_id_map = assign m.symbol_id_map s.id m.heap.next;
}

abbrev pub with_object : Heap → Symbol → Heap
with_object h s = record { cells = assign h.cells h.next s; next = suc h.next }

new-Grows : (h : Heap) (s : Symbol) → IsFresh h → Grows h (with_object h s)
new-Grows h s fresh = record {
  grows = λ p t at_p. (
    t,
    ground (arith, find-assign h.cells h.next p s, nat_beq_iff h.next p, next_free h fresh),
    refl,
  );
}

-- A larger index.
IsEntered-assign :
    (entries : Map ℕ Pointer) (i : ℕ) (q : Pointer) (c : ℕ × Symbol)
    → IsEntered entries c
    → IsEntered (assign entries i q) c
IsEntered-assign entries i q c (p, at) = elim (Bool-cases (i == c.1.id)) [
  | inl same ↦ (q, ground (arith, find-assign entries i c.1.id q))
  | inr other ↦ (p, ground (arith, find-assign entries i c.1.id q))
]

pub entered-IsSound : (m : SymbolManager) (s : Symbol) → IsSound m → IsSound (entered m s)
entered-IsSound m s (h, i, u, n, b, f, r, v, t, fs, ars, es) =
    let h' = with_object m.heap s in
    let g = new-Grows m.heap s h in
    let here : IsLive h' m.heap.next = (s, find-assign_own m.heap.cells m.heap.next s) in
    (
      All-assign (λ c. c.0 < suc m.heap.next) m.heap.cells m.heap.next s
          (All-weaken _ _ m.heap.cells (λ c k. omega arith) h) (omega arith),
      All-assign (Carries h') m.symbol_id_map s.id m.heap.next
          (All-weaken _ _ m.symbol_id_map (λ e. Carries-Grows m.heap h' e g) i) (s, here.1, refl),
      IsUnique-assign m.symbol_id_map s.id m.heap.next u,
      elim (Bool-cases (s.name == "")) [
        | inl nameless ↦ rw nameless (AllLive-Grows m.heap h' m.symbol_name_map g n)
        | inr named ↦ rw named (
            All-snoc _ m.symbol_name_map (s.name, m.heap.next)
              (AllLive-Grows m.heap h' m.symbol_name_map g n) here)
      ],
      AllLive-Grows m.heap h' m.base_type_name_map g b,
      AllLive-Grows m.heap h' m.function_name_map g f,
      AllLive-Grows m.heap h' m.ref_base_type_name_map g r,
      AllLive-Grows m.heap h' m.variable_name_map g v,
      AllLive-Grows m.heap h' m.array_type_map g t,
      All-weaken _ _ m.func_list (λ p. IsLive-Grows m.heap h' p g) fs,
      All-weaken _ _ m.array_vector (λ p. IsLive-Grows m.heap h' p g) ars,
      All-assign (IsEntered (assign m.symbol_id_map s.id m.heap.next)) m.heap.cells m.heap.next s
          (All-weaken _ _ m.heap.cells (λ c. IsEntered-assign m.symbol_id_map s.id m.heap.next c)
            es)
          (m.heap.next, find-assign_own m.symbol_id_map s.id m.heap.next),
    )
