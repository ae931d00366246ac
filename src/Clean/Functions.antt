-- ===== src/Clean/Functions.antt =====
-- `cleanFunctions` and `Function::updateTypes`, and the duplicates that the order separates.
use libdwarfparser.Prelude.{
  ℕ, ◌≡◌, ◌≢◌, ◌<◌, refl, String, true, false, Option, none, some, List, [], ◌∷◌, map, ◌==◌, arith,
  if◌then◌else◌, nat_eq, string_eq, eq_iff,
}
use libdwarfparser.Outcome.{undefined, deadlock}
use libdwarfparser.Symbols.{Symbol, Pointer, FunctionData, base_type, function}
use libdwarfparser.Manager.{Method, pure, raise, ◌>>=◌, ◌>>◌, get, put, deref, store}
use libdwarfparser.Clean.{
  FunctionView, function_lt, function_eq, params_lt, params_eq, canonical_id, for_each, collect,
  sort, merge_sorted,
}
use libdwarfparser.Clean.Sort.{IsSorted}
use libdwarfparser.Clean.Merge.{kept}

-- The object at a pointer of `funcList`, which is a function.
unfoldable pub as_function_symbol : Symbol → Method (ℕ × FunctionData)
as_function_symbol s = elim s.kind [ base_type e (function f) ↦ pure (e, f) | _ ↦ raise undefined ]

unfoldable pub canonical_params : List (String × ℕ) → Method (List (String × ℕ))
unfolding canonical_id
canonical_params [] = pure []
canonical_params ((name, id) ∷ ps) =
    canonical_id id >>= λ id'. canonical_params ps >>= λ ps'. pure ((name, id') ∷ ps')

unfoldable pub canonical_rettype : ℕ → Method ℕ
unfolding canonical_id
canonical_rettype rettype = if rettype == 0 then pure 0 else canonical_id rettype

-- `Function::updateTypes`. The look-ups read no field that it writes.
unfoldable pub update_function_types : Pointer → Method (Unit {0})
unfolding deref as_function_symbol canonical_rettype canonical_params store
update_function_types p = do
  s ← deref p
  (e, f) ← as_function_symbol s
  rettype ← canonical_rettype f.rettype
  params ← canonical_params f.param_list
  store p (record s {
    kind = base_type e (function (record f { rettype = rettype; param_list = params }));
  })

unfoldable pub function_view : Pointer → Method (Pointer × FunctionView)
unfolding deref as_function_symbol
function_view p = do
  s ← deref p
  (e, f) ← as_function_symbol s
  pure (
    p,
    record { rettype = f.rettype; params = map (λ q. q.1) f.param_list; name = s.name; id = s.id },
  )

-- The end of `cleanFunctions`. On an empty list the mutex stays locked.
unfoldable pub finish_functions : Option (List (Pointer × FunctionView)) → Method (Unit {0})
finish_functions none = pure tt
finish_functions (some kept) = do
  m ← get
  put (record m { func_list = map (λ i. i.0) kept; func_list_locked = false })

unfoldable pub clean_functions : Method (Unit {0})
unfolding for_each update_function_types collect function_view sort function_lt merge_sorted
    function_eq finish_functions
clean_functions = do
  m ← get
  if m.func_list_locked then raise deadlock else do
    put (record m { func_list_locked = true })
    for_each update_function_types m.func_list
    items ← collect function_view m.func_list
    kept ← merge_sorted function_eq (λ v. v.id) (sort function_lt items)
    finish_functions kept

params_same : (ps : List ℕ) → (params_lt ps ps ≡ none) × (params_eq ps ps ≡ true)
unfolding params_lt params_eq
params_same [] = (refl, refl)
params_same (p ∷ ps) = ground (arith, params_same ps)

-- Three functions of one type, the first and the last of one name, the middle one of another, with
-- ascending identifiers: the vector is sorted, the outer two are equal, and yet both the second and
-- the third are kept, for the order does not look at names.
pub equal_functions_stay :
    (p q r : Pointer) (f g h : FunctionView)
    → f.rettype ≡ g.rettype
    → g.rettype ≡ h.rettype
    → f.params ≡ g.params
    → g.params ≡ h.params
    → f.name ≡ h.name
    → f.name ≢ g.name
    → f.id < g.id
    → g.id < h.id
    → IsSorted function_lt ((p, f) ∷ (q, g) ∷ (r, h) ∷ [])
      × (function_eq f h ≡ true)
      × (kept function_eq (λ v. v.id) f ((q, g) ∷ (r, h) ∷ []) ≡ (q, g) ∷ (r, h) ∷ [])
unfolding function_lt function_eq kept
equal_functions_stay p q r f g h e e' a a' n d lo hi = ground (
  arith,
  params_same f.params,
  params_same g.params,
  params_same h.params,
  eq_iff f.name g.name,
  eq_iff g.name h.name,
  eq_iff f.name h.name,
)
