-- ===== src/Vmi/Memory.antt =====
-- Which of the pages that libvmi allocates are freed: `getPages` and `destroyMap`
-- (libvmiwrapper/vmiinstance.cpp).
use mathlib.Core.List.Perm
use mathlib.Core.List.{Perm, perm_middle, append-nil}
use mathlib.Core.Path.{fun_ext}
use libdwarfparser.Prelude.{
  ℕ, ◌≡◌, refl, subst, Bool, false, none, some, List, [], ◌∷◌, ◌++◌, ◌==◌, ◌||◌, nat_eq, arith,
  if◌then◌else◌, Bool-cases, Option-cases, inl, inr, ltb,
}
use libdwarfparser.Outcome.{ok}
use libdwarfparser.Manager.Lookup.{holds}
use libdwarfparser.OrderedMap.{OrderedMap, find, assign, find-assign}
use libdwarfparser.Vmi.{
  PageInfo, Libvmi, is_selected, insert_page, select_pages, get_pages, freed_pages, pages_of,
  destroy_map,
}

-- The pages that pass a test and stand at the address of an earlier one that does, or at one that was seen.
unfoldable pub shadowed : (PageInfo → Bool) → (ℕ → Bool) → List PageInfo → List PageInfo
shadowed test seen [] = []
shadowed test seen (page ∷ rest) =
    let on = shadowed test seen rest in
    let new = shadowed test (λ va. page.vaddr == va || seen va) rest in
    if test page then (if seen page.vaddr then page ∷ on else new) else on

abbrev is_key : OrderedMap PageInfo → ℕ → Bool
is_key pages va = holds (find pages va)

pages_of-assign :
    (pages : OrderedMap PageInfo) (va : ℕ) (page : PageInfo)
    → find pages va ≡ none
    → Perm (pages_of (assign pages va page)) (page ∷ pages_of pages)
unfolding find assign
pages_of-assign [] va page new = Perm.refl (page ∷ [])
pages_of-assign ((j, w) ∷ pages) va page new = elim (Bool-cases (j == va)) [
  | inl same ↦ absurd (ground arith)
  | inr other ↦ elim (Bool-cases (ltb va j)) [
    | inl less ↦ rw (other, assign, less) (Perm.refl (page ∷ w ∷ pages_of pages))
    | inr more ↦
        rw (other, assign, more)
          (Perm.trans (Perm.cons w (pages_of-assign pages va page (rw (other, find) at new)))
            (Perm.swap page w (pages_of pages)))
  ]
]

module _ {ℓ} {A : Type ℓ} where
  to_front : (a : A) (xs ys zs : List A) → Perm (xs ++ (ys ++ (a ∷ zs))) (a ∷ (xs ++ (ys ++ zs)))
  to_front a xs ys zs =
      Perm.trans (Perm.append_left xs (perm_middle {a = a} ys zs))
        (perm_middle {a = a} xs (ys ++ zs))

module _ (v : Libvmi) (pid : ℕ) (executable : Bool) where
  abbrev test : PageInfo → Bool
  test = is_selected v pid executable

  is_key-insert_page :
      (pages : OrderedMap PageInfo) (page : PageInfo)
      → find pages page.vaddr ≡ none
      → is_key (assign pages page.vaddr page) ≡ (λ va. page.vaddr == va || is_key pages va)
  is_key-insert_page pages page new =
      fun_ext (λ va. ground (arith, find-assign pages page.vaddr va page))

  insert_page-new :
      (pages : OrderedMap PageInfo) (page : PageInfo)
      → find pages page.vaddr ≡ none
      → insert_page v pages page ≡ assign pages page.vaddr page
  unfolding insert_page
  insert_page-new pages page new = rw (new, insert_page) refl

  insert_page-known :
      (pages : OrderedMap PageInfo) (page old : PageInfo)
      → find pages page.vaddr ≡ some old
      → insert_page v pages page ≡ pages
  unfolding insert_page
  insert_page-known pages page old known = rw (known, insert_page) refl

  select_pages-Perm :
      (list : List PageInfo) (pages : OrderedMap PageInfo)
      → Perm
          (freed_pages v pid executable list
            ++ (pages_of (select_pages v pid executable list pages)
                ++ shadowed test (is_key pages) list))
          (list ++ pages_of pages)
  unfolding freed_pages select_pages shadowed
  select_pages-Perm [] pages = rw append-nil (Perm.refl (pages_of pages))
  select_pages-Perm (page ∷ rest) pages = elim (Bool-cases (test page)) [
    | inr passed ↦ rw passed (Perm.cons page (select_pages-Perm rest pages))
    | inl taken ↦ elim (Option-cases (find pages page.vaddr)) [
      | inl new ↦
          let pages' = assign pages page.vaddr page in
          rw (taken, insert_page-new pages page new, new)
            (Perm.trans
              (subst
                (λ seen.
                  Perm
                    (freed_pages v pid executable rest
                      ++ (pages_of (select_pages v pid executable rest pages')
                          ++ shadowed test seen rest))
                    (rest ++ pages_of pages'))
                (is_key-insert_page pages page new) (select_pages-Perm rest pages'))
              (Perm.trans (Perm.append_left rest (pages_of-assign pages page.vaddr page new))
                (perm_middle {a = page} rest (pages_of pages))))
      | inr (old, known) ↦
          rw (taken, insert_page-known pages page old known, known)
            (Perm.trans
              (to_front page (freed_pages v pid executable rest)
                (pages_of (select_pages v pid executable rest pages))
                (shadowed test (is_key pages) rest))
              (Perm.cons page (select_pages-Perm rest pages)))
    ]
  ]

-- If libvmi gives at least one page, `getPages` returns a map, and all the pages that libvmi gave are,
-- each once, those that `getPages` frees, those that `destroyMap` frees for that map, and those that
-- are selected and stand at the address of an earlier selected one; the last are freed by neither.
pub get_pages-destroy_map :
    (v : Libvmi) (pid : ℕ) (executable : Bool) (page : PageInfo) (rest : List PageInfo)
    → v.get_va_pages (v.pid_to_dtb (if pid == 0 then 1 else pid)) ≡ page ∷ rest
    → (pages : OrderedMap PageInfo) × (get_pages v pid executable ≡ ok pages)
      × Perm
          (freed_pages v pid executable (page ∷ rest)
            ++ ((destroy_map pages).0
                ++ shadowed (is_selected v pid executable) (λ va. false) (page ∷ rest)))
          (page ∷ rest)
unfolding get_pages find
get_pages-destroy_map v pid executable page rest given = (
  select_pages v pid executable (page ∷ rest) [],
  rw given refl,
  rw append-nil at (select_pages-Perm v pid executable (page ∷ rest) []),
)
