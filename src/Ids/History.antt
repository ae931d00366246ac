-- ===== src/Ids/History.antt =====
-- What the clients of the namespace rely on, over every sequence of calls.
use libdwarfparser.Prelude.{
  ◌+◌, ◌≤◌, ◌<◌, ◌≡◌, ◌≢◌, refl, arith, ◌∙◌, sym, ap, List, [], ◌∷◌, length, pair_beq_iff, nat_eq,
  pair_eq,
}
use libdwarfparser.Map.{at_or}
use libdwarfparser.Ids.{
  DwarfId, Ids, Call, get_id_of, get_rev_id_of, u64, init, get_id, get_rev_id, no_dwarf_id, step,
  run,
}
use libdwarfparser.Ids.Consistency.{
  IsConsistent, init-IsConsistent, get_id-IsConsistent, get_rev_id-IsConsistent, at_or-get_id,
}

pub current_id-get_id :
    (s : Ids) (p : DwarfId)
    → s.current_id + 1 < u64
    → (s.current_id ≤ (get_id s p).1.current_id) × ((get_id s p).1.current_id ≤ s.current_id + 1)
unfolding get_id
current_id-get_id s p h = ground arith

current_id-step :
    (s : Ids) (c : Call)
    → s.current_id + 1 < u64
    → (s.current_id ≤ (step s c).current_id) × ((step s c).current_id ≤ s.current_id + 1)
unfolding step get_rev_id
current_id-step s (get_id_of p) h = current_id-get_id s p h
current_id-step s (get_rev_id_of n) h = ground arith

step-IsConsistent :
    (s : Ids) (c : Call) → s.current_id + 1 < u64 → IsConsistent s → IsConsistent (step s c)
unfolding step
step-IsConsistent s (get_id_of p) h v = get_id-IsConsistent s p h v
step-IsConsistent s (get_rev_id_of n) h v = get_rev_id-IsConsistent s n v

-- From a consistent namespace with room for one identifier a call, any calls keep it consistent,
-- and each issues at most one identifier.
pub run-IsConsistent :
    (s : Ids) (cs : List Call)
    → s.current_id + length cs < u64
    → IsConsistent s
    → IsConsistent (run s cs) × ((run s cs).current_id ≤ s.current_id + length cs)
unfolding run
run-IsConsistent s [] h v = (v, omega arith)
run-IsConsistent s (c ∷ cs) h v =
    let bounds = current_id-step s c (omega arith) in
    let rest =
      run-IsConsistent (step s c) cs (omega (arith, bounds))
        (step-IsConsistent s c (omega arith) v) in
    (rest.0, omega (arith, rest.1, bounds))

-- The identifier that a pair has once it has one.
pub get_id_known :
    (s : Ids) (p : DwarfId) → at_or s.id_map p 0 ≢ 0 → (get_id s p).0 ≡ at_or s.id_map p 0
unfolding get_id
get_id_known s p h = ground arith

pub get_id-ne-zero : (s : Ids) (p : DwarfId) → s.current_id + 1 < u64 → (get_id s p).0 ≢ 0
unfolding get_id
get_id-ne-zero s p h = ground arith

at_or_after : (s : Ids) (p : DwarfId) → at_or (get_id s p).1.id_map p 0 ≡ (get_id s p).0
at_or_after s p = ground (arith, at_or-get_id s p p, pair_beq_iff p p)

-- The DWARF offset and file that an identifier was issued for are given back for it, in every
-- consistent namespace with room for one more identifier.
pub get_rev_id-get_id :
    (s : Ids) (p : DwarfId)
    → s.current_id + 1 < u64
    → IsConsistent s
    → (get_rev_id (get_id s p).1 (get_id s p).0).0 ≡ p
unfolding get_rev_id
get_rev_id-get_id s p room v =
    ap (λ n. at_or (get_id s p).1.id_rev_map n no_dwarf_id) (sym (at_or_after s p))
    ∙ (get_id-IsConsistent s p room v).reverse p
        (λ e. get_id-ne-zero s p room (sym (at_or_after s p) ∙ e))

at_or-step :
    (s : Ids) (c : Call) (p : DwarfId)
    → at_or s.id_map p 0 ≢ 0
    → at_or (step s c).id_map p 0 ≡ at_or s.id_map p 0
unfolding step get_rev_id
at_or-step s (get_id_of q) p h =
    ground (arith, at_or-get_id s q p, pair_beq_iff q p, get_id_known s p)
at_or-step s (get_rev_id_of n) p h = refl

at_or-run :
    (s : Ids) (cs : List Call) (p : DwarfId)
    → at_or s.id_map p 0 ≢ 0
    → at_or (run s cs).id_map p 0 ≡ at_or s.id_map p 0
unfolding run
at_or-run s [] p h = refl
at_or-run s (c ∷ cs) p h =
    at_or-run (step s c) cs p (λ e. h (sym (at_or-step s c p h) ∙ e)) ∙ at_or-step s c p h

-- An identifier is not zero, and whatever calls come after it was issued, asking again for the same
-- pair gives the same identifier.
pub get_id_stable :
    (s : Ids) (p : DwarfId) (cs : List Call)
    → s.current_id + 1 < u64
    → ((get_id s p).0 ≢ 0) × ((get_id (run (get_id s p).1 cs) p).0 ≡ (get_id s p).0)
get_id_stable s p cs room =
    let known = at_or_after s p in
    let some_id = get_id-ne-zero s p room in
    let kept = at_or-run (get_id s p).1 cs p (λ e. some_id (sym known ∙ e)) ∙ known in
    (some_id, get_id_known (run (get_id s p).1 cs) p (λ e. some_id (sym kept ∙ e)) ∙ kept)

-- Two pairs never share an identifier, however many calls lie between the two requests, as long as
-- the counter does not wrap.
pub get_id_injective :
    (s : Ids) (p q : DwarfId) (cs : List Call)
    → s.current_id + 1 + length cs + 1 < u64
    → IsConsistent s
    → (get_id s p).0 ≡ (get_id (run (get_id s p).1 cs) q).0
    → p ≡ q
unfolding step
get_id_injective s p q cs room v same =
    let bounds = current_id-get_id s p (omega arith) in
    let (v', top) =
      run-IsConsistent (get_id s p).1 cs (omega (arith, bounds))
        (get_id-IsConsistent s p (omega arith) v) in
    let t = run (get_id s p).1 cs in
    let u = (get_id t q).1 in
    let w = get_id-IsConsistent t q (omega (arith, top, bounds)) v' in
    let some_id = get_id-ne-zero s p (omega arith) in
    let known = at_or_after s p in
    let kept : at_or t.id_map p 0 ≡ (get_id s p).0 =
      at_or-run (get_id s p).1 cs p (λ e. some_id (sym known ∙ e)) ∙ known in
    let at_p : at_or u.id_map p 0 ≡ (get_id s p).0 =
      at_or-step t (get_id_of q) p (λ e. some_id (sym kept ∙ e)) ∙ kept in
    let at_q : at_or u.id_map q 0 ≡ (get_id s p).0 = at_or_after t q ∙ sym same in
    sym (w.reverse p (λ e. some_id (sym at_p ∙ e)))
    ∙ ap (λ n. at_or u.id_rev_map n no_dwarf_id) (at_p ∙ sym at_q)
    ∙ w.reverse q (λ e. some_id (sym at_q ∙ e))

-- After any sequence of calls on a new namespace, shorter than the 64-bit counter, the pair that an
-- identifier is issued for is given back for it.
pub reached_round_trip :
    (cs : List Call) (p : DwarfId)
    → length cs + 1 < u64
    → (get_rev_id (get_id (run init cs) p).1 (get_id (run init cs) p).0).0 ≡ p
reached_round_trip cs p room =
    let (v, top) = run-IsConsistent init cs (omega arith) init-IsConsistent in
    get_rev_id-get_id (run init cs) p (omega (arith, top)) v
