-- ===== src/Ids/Consistency.antt =====
-- The two maps of the namespace stay inverse to one another on the identifiers issued so far.
use libdwarfparser.Prelude.{
  ℕ, ◌+◌, ◌≤◌, ◌<◌, ◌≡◌, ◌≢◌, refl, arith, ◌==◌, if◌then◌else◌, ◌%◌, ◌∙◌, pair_beq_iff, nat_eq,
  pair_eq,
}
use libdwarfparser.Map.{find, at_or, touch, at_or-touch, at_or-assign}
use libdwarfparser.Ids.{DwarfId, Ids, u64, init, get_id, get_rev_id, no_dwarf_id}

pub record IsConsistent (s : Ids) : Type 0 where
  pub issued : (pair : DwarfId) → at_or s.id_map pair 0 ≤ s.current_id
  pub reverse :
      (pair : DwarfId)
      → at_or s.id_map pair 0 ≢ 0
      → at_or s.id_rev_map (at_or s.id_map pair 0) no_dwarf_id ≡ pair

pub init-IsConsistent : IsConsistent init
unfolding at_or find
init-IsConsistent = record { issued = λ p. omega arith; reverse = λ p h. absurd (h refl) }

-- What `getID` leaves in the map: its result for the pair asked for, the old value for any other.
pub at_or-get_id :
    (s : Ids) (pair p : DwarfId)
    → at_or (get_id s pair).1.id_map p 0
      ≡ (if pair == p then (get_id s pair).0 else at_or s.id_map p 0)
unfolding get_id
at_or-get_id s pair p = ground (
  arith,
  pair_beq_iff pair p,
  at_or-touch s.id_map pair p 0,
  at_or-assign (touch s.id_map pair 0) pair p ((s.current_id + 1) % u64) 0,
)

pub get_id-IsConsistent :
    (s : Ids) (pair : DwarfId)
    → s.current_id + 1 < u64
    → IsConsistent s
    → IsConsistent (get_id s pair).1
unfolding get_id
get_id-IsConsistent s pair room c = record {
  issued = λ p. ground (arith, at_or-get_id s pair p, c.issued p, c.issued pair);
  reverse = λ p h. ground (
    arith,
    at_or-get_id s pair p,
    c.issued p,
    c.issued pair,
    c.reverse p,
    pair_beq_iff pair p,
    at_or-assign s.id_rev_map ((s.current_id + 1) % u64) (at_or (get_id s pair).1.id_map p 0) pair
        no_dwarf_id,
  );
}

pub get_rev_id-IsConsistent : (s : Ids) (id : ℕ) → IsConsistent s → IsConsistent (get_rev_id s id).1
unfolding get_rev_id
get_rev_id-IsConsistent s id c = record {
  issued = c.issued;
  reverse = λ p h. at_or-touch s.id_rev_map id (at_or s.id_map p 0) no_dwarf_id ∙ c.reverse p h;
}
