-- ===== src/Clean.antt =====
-- `cleanArrays` and `cleanFunctions` of `SymbolManager` (libdwarfparser/symbolmanager.cpp), with
-- the orders and the updates that they use (libdwarfparser/array.cpp, libdwarfparser/function.cpp).
pub mod Order
pub mod Sort
pub mod Merge
pub mod Arrays
pub mod Functions
pub mod Tests
use libdwarfparser.Prelude.{
  ℕ, ◌≡◌, String, Bool, true, false, not, ◌&&◌, Option, none, some, List, [], ◌∷◌, map, length,
  ◌==◌, ltb, if◌then◌else◌, nat_eq, string_eq,
}
use libdwarfparser.Outcome.{assertion, undefined, deadlock, require}
use libdwarfparser.Symbols.{
  Symbol, Kind, Pointer, Reference, RefKind, FunctionData, ArrayData, base_type, ref_base_type,
  function, array, as_function, as_array,
}
use libdwarfparser.Manager.{
  SymbolManager, Multimap, Method, pure, raise, lift, ◌>>=◌, ◌>>◌, get, put, deref, store, delete,
  continue,
}
use libdwarfparser.Manager.Register.{add_alternative_id, multi_insert}
use libdwarfparser.Manager.Lookup.{find_symbol_by_id}

-- What the operators of `Array` and of `Function` read.
pub record ArrayView : Type 0 where
  pub type : ℕ
  pub length : ℕ
  pub id : ℕ

pub record FunctionView : Type 0 where
  pub rettype : ℕ
  pub params : List ℕ
  pub name : String
  pub id : ℕ

-- `Array::operator <` and `Array::operator ==`
unfoldable pub array_lt : ArrayView → ArrayView → Bool
array_lt a b =
    if not (a.type == b.type)
    then ltb a.type b.type
    else if not (a.length == b.length)
    then ltb a.length b.length
    else if not (a.id == b.id)
    then ltb a.id b.id
    else false

unfoldable pub array_eq : ArrayView → ArrayView → Bool
array_eq a b = if not (a.type == b.type) then false else a.length == b.length

-- The loops over two parameter lists of one length. `none`: no parameter differs.
unfoldable pub params_lt : List ℕ → List ℕ → Option Bool
params_lt (p ∷ ps) (q ∷ qs) = if not (p == q) then some (ltb p q) else params_lt ps qs
params_lt _ _ = none

unfoldable pub params_eq : List ℕ → List ℕ → Bool
params_eq (p ∷ ps) (q ∷ qs) = if not (p == q) then false else params_eq ps qs
params_eq _ _ = true

-- `Function::operator <` and `Function::operator ==`
unfoldable pub function_lt : FunctionView → FunctionView → Bool
unfolding params_lt
function_lt f g =
    if not (f.rettype == g.rettype)
    then ltb f.rettype g.rettype
    else if not (length f.params == length g.params)
    then ltb (length f.params) (length g.params)
    else elim (params_lt f.params g.params) [
      | some b ↦ b
      | none ↦ if not (f.id == g.id) then ltb f.id g.id else false
    ]

unfoldable pub function_eq : FunctionView → FunctionView → Bool
unfolding params_eq
function_eq f g =
    if not (f.rettype == g.rettype)
    then false
    else if not (length f.params == length g.params)
    then false
    else params_eq f.params g.params && f.name == g.name

-- `std::sort` by a strict order of the elements.
module _ {V : Type 0} (lt : V → V → Bool) where
  unfoldable pub insert_sorted : Pointer × V → List (Pointer × V) → List (Pointer × V)
  insert_sorted (p, v) [] = (p, v) ∷ []
  insert_sorted (p, v) ((q, w) ∷ items) =
      if lt w v then (q, w) ∷ insert_sorted (p, v) items else (p, v) ∷ (q, w) ∷ items

  unfoldable pub sort : List (Pointer × V) → List (Pointer × V)
  unfolding insert_sorted
  sort [] = []
  sort (i ∷ items) = insert_sorted i (sort items)

-- The loop over the items behind `*oldPtr`: what it pushes to `tmp`. An item that equals `*oldPtr`
-- becomes an alias of it and is deleted.
module _ {V : Type 0} (eq : V → V → Bool) (id_of : V → ℕ) where
  unfoldable pub merge : V → List (Pointer × V) → Method (List (Pointer × V))
  merge old [] = pure []
  merge old ((p, v) ∷ items) =
      let same : Method (List (Pointer × V)) =
        add_alternative_id (id_of old) (id_of v) >> (delete p >> merge old items) in
      let other : Method (List (Pointer × V)) = merge v items >>= λ rest. pure ((p, v) ∷ rest) in
      if eq old v then same else other

  -- The method on the whole sorted vector. The first item is the first `*oldPtr` and goes nowhere;
  -- `none` is the early `return` on an empty vector.
  unfoldable pub merge_sorted : List (Pointer × V) → Method (Option (List (Pointer × V)))
  unfolding merge
  merge_sorted [] = pure none
  merge_sorted ((p, v) ∷ items) = merge v items >>= λ kept. pure (some kept)

-- `sym->getID()` for the symbol that an identifier leads to.
unfoldable pub canonical_id : ℕ → Method ℕ
unfolding find_symbol_by_id deref
canonical_id id = do p ← find_symbol_by_id id; s ← deref p; pure s.id

-- The object at a pointer of `arrayVector`, which is an array.
unfoldable pub as_array_symbol : Symbol → Method (ℕ × Reference × ArrayData)
as_array_symbol s = elim s.kind [
  | base_type e (ref_base_type r (array a)) ↦ pure (e, r, a)
  | _ ↦ raise undefined
]

abbrev pub type_or_zero : Option ℕ → ℕ
type_or_zero none = 0
type_or_zero (some t) = t

-- `Array::updateTypes`. A `RefBaseType` always has its type set, to 0 where it refers to none.
unfoldable pub update_array_types : Pointer → Method (Unit {0})
unfolding deref as_array_symbol canonical_id store
update_array_types p = do
  s ← deref p
  (e, r, a) ← as_array_symbol s
  let type = type_or_zero r.type
  if type == 0 then pure tt else do
    type' ← canonical_id type
    store p
        (record s { kind = base_type e (ref_base_type (record r { type = some type' }) (array a)) })

unfoldable pub array_view : Pointer → Method (Pointer × ArrayView)
unfolding deref as_array_symbol
array_view p = do
  s ← deref p
  (e, r, a) ← as_array_symbol s
  pure (p, record { type = type_or_zero r.type; length = a.length; id = s.id })

unfoldable pub for_each : (Pointer → Method (Unit {0})) → List Pointer → Method (Unit {0})
for_each f [] = pure tt
for_each f (p ∷ ps) = f p >> for_each f ps

unfoldable pub collect :
    {V : Type 0} → (Pointer → Method (Pointer × V)) → List Pointer → Method (List (Pointer × V))
collect f [] = pure []
collect f (p ∷ ps) = f p >>= λ i. collect f ps >>= λ is. pure (i ∷ is)

-- The entries of the vector join `arrayTypeMap`.
unfoldable pub insert_types : List (Pointer × ArrayView) → Multimap ℕ → Multimap ℕ
unfolding multi_insert
insert_types [] m = m
insert_types ((p, v) ∷ items) m = insert_types items (multi_insert m v.type p)

-- The end of `cleanArrays`. On an empty vector the mutex stays locked.
unfoldable pub finish_arrays : Option (List (Pointer × ArrayView)) → Method (Unit {0})
unfolding insert_types
finish_arrays none = pure tt
finish_arrays (some kept) = do
  m ← get
  put (record m {
    array_vector = map (λ i. i.0) kept;
    array_type_map = insert_types kept m.array_type_map;
    array_vector_locked = false;
  })

unfoldable pub clean_arrays : Method (Unit {0})
unfolding for_each update_array_types collect array_view sort array_lt merge_sorted array_eq
    finish_arrays
clean_arrays = do
  m ← get
  if m.array_vector_locked then raise deadlock else do
    put (record m { array_vector_locked = true })
    for_each update_array_types m.array_vector
    items ← collect array_view m.array_vector
    kept ← merge_sorted array_eq (λ v. v.id) (sort array_lt items)
    finish_arrays kept
