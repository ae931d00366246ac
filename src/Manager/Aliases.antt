-- ===== src/Manager/Aliases.antt =====
-- `addAlternativeID` and `removeSymbol`: what they do to the identifiers that resolve.
use libdwarfparser.Prelude.{
  ℕ, ◌≡◌, ◌≢◌, refl, none, some, List, [], ◌∷◌, ◌==◌, if◌then◌else◌, arith, nat_eq, nat_beq_iff,
}
use libdwarfparser.Outcome.{Outcome, ok, fail, assertion}
use libdwarfparser.Map.{find, at_or, touch, find-assign, find-erase, All-erase}
use libdwarfparser.Symbols.{Pointer}
use libdwarfparser.Manager.{SymbolManager, Method, ◌>>=◌, ◌>>◌, raise, continue, get, put}
use libdwarfparser.Manager.Register.{add_alternative_id}
use libdwarfparser.Manager.Lookup.{
  find_symbol_by_id, remove_symbol, remove_aliased, get_aliases, print,
}
use libdwarfparser.Manager.Find.{IsIndexed, Carries, resolve, find_symbol_by_id-resolved}

-- Once `new_id` is an alias of `id`, an identifier that no symbol is entered under, `new_id` itself
-- and no other, resolves as the table of symbols says for `id`.
pub resolve-add_alternative_id :
    (m : SymbolManager) (id new_id j : ℕ)
    → find m.symbol_id_map new_id ≡ none
    → resolve (add_alternative_id id new_id m).1 j
      ≡ (if new_id == j then find m.symbol_id_map id else resolve m j)
unfolding resolve add_alternative_id
resolve-add_alternative_id m id new_id j h =
    ground (arith, find-assign m.symbol_id_alias_map new_id j id, nat_beq_iff new_id j)

-- In a consistent index, a look-up by an alias that no symbol is entered under gives the symbol that
-- is entered under the identifier it stands for.
pub find-add_alternative_id :
    (m : SymbolManager) (id new_id : ℕ) (p : Pointer)
    → IsIndexed m
    → find m.symbol_id_map id ≡ some p
    → find m.symbol_id_map new_id ≡ none
    → find_symbol_by_id new_id (add_alternative_id id new_id m).1
      ≡ (ok p, (add_alternative_id id new_id m).1)
unfolding add_alternative_id
find-add_alternative_id m id new_id p v there free =
    find_symbol_by_id-resolved (add_alternative_id id new_id m).1 new_id p v
      (ground (arith, resolve-add_alternative_id m id new_id new_id free))

-- What a call of `removeSymbol` does for an identifier with a list of aliases.
abbrev pub Removes : SymbolManager → ℕ → List ℕ → Type 0
Removes m id [] =
    ((remove_symbol id m).0 ≡ ok tt)
    × ((j : ℕ)
        → find (remove_symbol id m).1.symbol_id_map j
          ≡ (if id == j then none else find m.symbol_id_map j))
    × IsIndexed (remove_symbol id m).1
Removes m id (i ∷ is) = (remove_symbol id m).0 ≢ ok tt

remove_symbol-unaliased :
    (m : SymbolManager) (id : ℕ)
    → IsIndexed m
    → at_or m.symbol_id_alias_reverse_list id [] ≡ []
    → Removes m id []
unfolding remove_symbol
remove_symbol-unaliased m id v h =
    rw (h, remove_symbol)
      (refl, λ j. find-erase m.symbol_id_map id j, All-erase (Carries m.heap) m.symbol_id_map id v)

-- A method that never returns.
abbrev Never : {B : Type 0} → Method B → Type 0
Never {B} r = (b : B) (m : SymbolManager) → (r m).0 ≢ ok b

continue-Never :
    {A B : Type 0} (o : Outcome A) (f : A → Method B) (m : SymbolManager)
    → ((a : A) → Never (f a))
    → (b : B) → (continue o f m).0 ≢ ok b
continue-Never (ok a) f m h b = h a b m
continue-Never (fail e) f m h b = λ p. cc

bind-Never :
    {A B : Type 0} (r : Method A) (f : A → Method B) → ((a : A) → Never (f a)) → Never (r >>= f)
bind-Never r f h b m = continue-Never (r m).0 f (r m).1 h b

stop : Method (Unit {0})
stop = raise assertion

stop-Never : Never stop
unfolding stop
stop-Never b m e = cc

-- What follows the first alias.
abbrev last_print : ℕ → SymbolManager → Method (Unit {0})
last_print id m = print (at_or m.symbol_id_map id 0) >> stop

abbrev report_self : ℕ → SymbolManager → Method (Unit {0})
report_self id m = put (record m { symbol_id_map = touch m.symbol_id_map id 0 }) >> last_print id m

abbrev report : ℕ → Method (Unit {0})
report id = get >>= report_self id

report-Never : (id : ℕ) → Never (report id)
report-Never id = bind-Never get (report_self id) (λ m.
    bind-Never (put (record m { symbol_id_map = touch m.symbol_id_map id 0 }))
      (λ _. last_print id m)
      (λ _. bind-Never (print (at_or m.symbol_id_map id 0)) (λ _. stop) (λ _. stop-Never)))

remove_aliased-Never : (id i : ℕ) (is : List ℕ) → Never (remove_aliased id (i ∷ is))
unfolding remove_aliased stop
remove_aliased-Never id i is =
    bind-Never (find_symbol_by_id i) (λ p. print p >> report id)
      (λ p. bind-Never (print p) (λ _. report id) (λ _. report-Never id))

remove_symbol_aliased :
    (m : SymbolManager) (id i : ℕ) (is : List ℕ)
    → at_or m.symbol_id_alias_reverse_list id [] ≡ i ∷ is
    → (remove_symbol id m).0 ≢ ok tt
unfolding remove_symbol get_aliases
remove_symbol_aliased m id i is h = rw (h, remove_symbol) (remove_aliased-Never id i is tt _)

Removes-of :
    (m : SymbolManager) (id : ℕ) (aliases : List ℕ)
    → IsIndexed m
    → at_or m.symbol_id_alias_reverse_list id [] ≡ aliases
    → Removes m id aliases
Removes-of m id [] v h = remove_symbol-unaliased m id v h
Removes-of m id (i ∷ is) v h = remove_symbol_aliased m id i is h

-- In a consistent index `removeSymbol` removes a symbol without aliases: its identifier is no longer
-- entered, every other is as before, and the index stays consistent. A call for a symbol that has an
-- alias does not return.
pub remove_symbol_lem :
    (m : SymbolManager) (id : ℕ)
    → IsIndexed m
    → Removes m id (at_or m.symbol_id_alias_reverse_list id [])
remove_symbol_lem m id v = Removes-of m id (at_or m.symbol_id_alias_reverse_list id []) v refl
