-- ===== src/Clean/Order.antt =====
-- The orders that `std::sort` is given are strict and total, and agree with `==` on arrays.
use libdwarfparser.Prelude.{
  ℕ, ◌≡◌, ◌≢◌, ◌⊎◌, inl, refl, Bool, true, false, none, some, List, [], ◌∷◌, length, arith, nat_eq,
}
use libdwarfparser.Clean.{FunctionView, array_lt, function_lt, params_lt}

-- An order fit for sorting: nothing stands before itself, it is transitive, and of two elements
-- that `id_of` tells apart one stands before the other.
pub record IsStrictTotal {V : Type 0} (lt : V → V → Bool) (id_of : V → ℕ) : Type 0 where
  pub irreflexive : (a : V) → lt a a ≡ false
  pub transitive : (a b c : V) → lt a b ≡ true → lt b c ≡ true → lt a c ≡ true
  pub total : (a b : V) → id_of a ≢ id_of b → (lt a b ≡ true) ⊎ (lt b a ≡ true)

-- `Array::operator <` is a strict order that is total on arrays with different identifiers.
pub array_lt-IsStrictTotal : IsStrictTotal array_lt (λ a. a.id)
unfolding array_lt
array_lt-IsStrictTotal = record {
  irreflexive = λ a. ground arith;
  transitive = λ a b c h k. ground arith;
  total = λ a b h. ground arith;
}

params_lt-irreflexive : (ps : List ℕ) → params_lt ps ps ≡ none
unfolding params_lt
params_lt-irreflexive [] = refl
params_lt-irreflexive (p ∷ ps) = ground (arith, params_lt-irreflexive ps)

-- What the order on parameters says of three lists of one length.
params_lt_trans :
    (ps qs rs : List ℕ)
    → length ps ≡ length qs
    → length qs ≡ length rs
    → ((params_lt ps qs ≡ none) × (params_lt ps rs ≡ params_lt qs rs))
      ⊎ ((params_lt qs rs ≡ none) × (params_lt ps rs ≡ params_lt ps qs))
      ⊎ ((params_lt ps qs ≡ some false) ⊎ (params_lt qs rs ≡ some false))
      ⊎ (params_lt ps rs ≡ some true)
unfolding params_lt
params_lt_trans [] [] [] e e' = inl (refl, refl)
params_lt_trans (p ∷ ps) (q ∷ qs) (r ∷ rs) e e' =
    ground (arith, params_lt_trans ps qs rs (omega arith) (omega arith))
params_lt_trans [] (q ∷ qs) rs e e' = absurd (omega arith)
params_lt_trans (p ∷ ps) [] rs e e' = absurd (omega arith)
params_lt_trans [] [] (r ∷ rs) e e' = absurd (omega arith)
params_lt_trans (p ∷ ps) (q ∷ qs) [] e e' = absurd (omega arith)

params_lt-total :
    (ps qs : List ℕ)
    → length ps ≡ length qs
    → ((params_lt ps qs ≡ none) × (params_lt qs ps ≡ none))
      ⊎ (params_lt ps qs ≡ some true)
      ⊎ (params_lt qs ps ≡ some true)
unfolding params_lt
params_lt-total [] [] e = inl (refl, refl)
params_lt-total (p ∷ ps) (q ∷ qs) e = ground (arith, params_lt-total ps qs (omega arith))
params_lt-total [] (q ∷ qs) e = absurd (omega arith)
params_lt-total (p ∷ ps) [] e = absurd (omega arith)

function_lt-transitive :
    (f g h : FunctionView)
    → function_lt f g ≡ true
    → function_lt g h ≡ true
    → function_lt f h ≡ true
unfolding function_lt
function_lt-transitive f g h p q = ground (arith, params_lt_trans f.params g.params h.params)

-- `Function::operator <` is a strict order that is total on functions with different identifiers.
pub function_lt-IsStrictTotal : IsStrictTotal function_lt (λ f. f.id)
unfolding function_lt
function_lt-IsStrictTotal = record {
  irreflexive = λ f. ground (arith, params_lt-irreflexive f.params);
  transitive = function_lt-transitive;
  total = λ f g h. ground (arith, params_lt-total f.params g.params);
}
