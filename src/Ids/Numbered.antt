-- ===== src/Ids/Numbered.antt =====
-- How many pairs have identifiers (libdwarfparser/symbolmanager.cpp).
use libdwarfparser.Prelude.{
  ℕ, suc, ◌+◌, ◌%◌, ◌≡◌, ◌≢◌, ◌<◌, ◌≤◌, refl, length, none, some, [], ◌∷◌, ◌==◌, nat_beq_iff,
  nat_eq, pair_eq, arith, Option-cases, Bool-cases, inl, inr, Key,
}
use libdwarfparser.Map.{Map, find, assign, touch, at_or, find-assign, find-assign_own}
use libdwarfparser.Ids.{Ids, DwarfId, get_id, u64, init}

-- As long as fewer than 2 ^ 64 pairs have identifiers, the counter is their number and none is 0.
pub record IsNumbered (s : Ids) : Type 0 where
  pub counted : length s.id_map < u64 → s.current_id ≡ length s.id_map
  pub real : length s.id_map < u64 → (d : DwarfId) (i : ℕ) → find s.id_map d ≡ some i → i ≢ 0

module _ {ℓ κ} {K : Type ℓ} {V : Type κ} ⦃e : Key K⦄ where
  length-assign_known :
      (m : Map K V) (k : K) (v w : V) → find m k ≡ some w → length (assign m k v) ≡ length m
  unfolding find assign
  length-assign_known [] k v w at = absurd (ground arith)
  length-assign_known ((j, x) ∷ m) k v w at = ground (arith, length-assign_known m k v w)

  length-assign_new :
      (m : Map K V) (k : K) (v : V) → find m k ≡ none → length (assign m k v) ≡ suc (length m)
  unfolding find assign
  length-assign_new [] k v free = refl
  length-assign_new ((j, x) ∷ m) k v free = ground (arith, length-assign_new m k v)

get_id-known :
    (s : Ids) (pair : DwarfId) (i : ℕ) → i ≢ 0 → find s.id_map pair ≡ some i → (get_id s pair).1 ≡ s
unfolding get_id at_or touch
get_id-known s pair i real at = ground (arith, at, nat_beq_iff i 0)

get_id-issued :
    (s : Ids) (pair : DwarfId)
    → find s.id_map pair ≡ none
    → ((get_id s pair).1.id_map ≡ assign (assign s.id_map pair 0) pair ((s.current_id + 1) % u64))
      × ((get_id s pair).1.current_id ≡ (s.current_id + 1) % u64)
unfolding get_id at_or touch
get_id-issued s pair free = rw (free, get_id, at_or, touch) (refl, refl)

get_id-again :
    (s : Ids) (pair : DwarfId)
    → find s.id_map pair ≡ some 0
    → (get_id s pair).1.id_map ≡ assign s.id_map pair ((s.current_id + 1) % u64)
unfolding get_id at_or touch
get_id-again s pair at = rw (at, get_id, at_or, touch) refl

-- `getID` gives identifiers to at most one pair more, and goes on counting them.
pub get_id-IsNumbered :
    (s : Ids) (pair : DwarfId)
    → (length s.id_map ≤ length (get_id s pair).1.id_map)
      × (IsNumbered s → IsNumbered (get_id s pair).1)
get_id-IsNumbered s pair = elim (Option-cases (find s.id_map pair)) [
  | inl free ↦
      let c = (s.current_id + 1) % u64 in
      let (ids, current) = get_id-issued s pair free in
      let longer : length (get_id s pair).1.id_map ≡ suc (length s.id_map) = rw ids (
        ground (
          arith,
          length-assign_known (assign s.id_map pair 0) pair c 0 (find-assign_own s.id_map pair 0),
          length-assign_new s.id_map pair 0 free,
        )) in
      (
        omega (arith, longer),
        λ n. record {
          counted = λ few.
              let count = n.counted (omega (arith, longer)) in
              omega (arith, current, count, longer);
          real = λ few d i at.
              let count = n.counted (omega (arith, longer)) in
              let old = n.real (omega (arith, longer)) d i in
              let here : find (assign (assign s.id_map pair 0) pair c) d ≡ some i = rw ids at at in
              elim (Bool-cases (pair == d)) [
                | inl same ↦
                    let is_new : i ≡ c =
                      ground (arith, find-assign (assign s.id_map pair 0) pair d c) in
                    (λ z. omega (arith, is_new, count, few, longer, z))
                | inr other ↦ old (
                    ground (
                      arith,
                      find-assign (assign s.id_map pair 0) pair d c,
                      find-assign s.id_map pair d 0,
                    ))
              ];
        },
      )
  | inr (i, at) ↦ elim (Bool-cases (i == 0)) [
    | inl zero_id ↦
        let none_yet : find s.id_map pair ≡ some 0 = ground (arith, nat_beq_iff i 0) in
        let c = (s.current_id + 1) % u64 in
        let same : length (get_id s pair).1.id_map ≡ length s.id_map =
          rw (get_id-again s pair none_yet) (length-assign_known s.id_map pair c 0 none_yet) in
        (
          omega (arith, same),
          λ n. record {
            counted = λ few. absurd (n.real (omega (arith, same, few)) pair 0 none_yet refl);
            real = λ few d j there. absurd (n.real (omega (arith, same, few)) pair 0 none_yet refl);
          },
        )
    | inr other ↦
        let same = get_id-known s pair i (λ z. absurd (ground (arith, nat_beq_iff i 0))) at in
        rw same (omega arith, λ n. n)
  ]
]

-- Before any call no pair has an identifier.
pub init-IsNumbered : IsNumbered init
unfolding find
init-IsNumbered = record { counted = λ few. refl; real = λ few d i at. absurd (ground arith) }
