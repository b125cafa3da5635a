-- ===== src/Api/Views/Order.antt =====
-- The order of the index of src/api.rs: `sort_records` shows the same jobs, in an order.
use mathlib.Core.List.Perm
use mathlib.Core.List.{Perm}
use unlimited_ocr_server.Prelude.{
  ◌≤◌, ◌<◌, ◌≡◌, ◌⊎◌, inl, inr, List, [], ◌∷◌, arith, All, All-map, Bool-cases, true, false,
}
use unlimited_ocr_server.Types.{JobRecord}
use unlimited_ocr_server.Api.Views.{comes_first, insert_record, sort_records}

-- It was updated later, or at the same time and has no smaller identifier.
abbrev pub Precedes : JobRecord → JobRecord → Type 0
Precedes left right =
    (right.updated_at < left.updated_at)
    ⊎ ((left.updated_at ≡ right.updated_at) × (right.id ≤ left.id))

-- Every job precedes all that come after it.
abbrev pub IsShownInOrder : List JobRecord → Type 0
IsShownInOrder [] = Unit
IsShownInOrder (r ∷ records) = All (Precedes r) records × IsShownInOrder records

comes_first-Precedes :
    (left right : JobRecord) → comes_first left right ≡ true → Precedes left right
comes_first-Precedes left right h = ground arith

not_first-Precedes : (left right : JobRecord) → comes_first left right ≡ false → Precedes right left
not_first-Precedes left right h = ground arith

Precedes-trans : (a b c : JobRecord) → Precedes a b → Precedes b c → Precedes a c
Precedes-trans a b c h k = ground (arith, h, k)

insert_record-All {κ} :
    (P : JobRecord → Type κ) (r : JobRecord) (records : List JobRecord)
    → P r
    → All P records
    → All P (insert_record r records)
unfolding insert_record
insert_record-All P r [] p h = (p, tt)
insert_record-All P r (next ∷ records) p h = elim (Bool-cases (comes_first r next)) [
  | inl t ↦ rw t (p, h)
  | inr f ↦ rw f (h.0, insert_record-All P r records p h.1)
]

insert_record-IsShownInOrder :
    (r : JobRecord) (records : List JobRecord)
    → IsShownInOrder records
    → IsShownInOrder (insert_record r records)
unfolding insert_record
insert_record-IsShownInOrder r [] s = (tt, tt)
insert_record-IsShownInOrder r (next ∷ records) s = elim (Bool-cases (comes_first r next)) [
  | inl t ↦
      let first = comes_first-Precedes r next t in
      rw t ((first, All-map _ _ (λ a h. Precedes-trans r next a first h) records s.0), s)
  | inr f ↦ rw f (
    insert_record-All (Precedes next) r records (not_first-Precedes r next f) s.0,
    insert_record-IsShownInOrder r records s.1,
  )
]

pub sort_records-IsShownInOrder : (records : List JobRecord) → IsShownInOrder (sort_records records)
unfolding sort_records
sort_records-IsShownInOrder [] = tt
sort_records-IsShownInOrder (r ∷ records) =
    insert_record-IsShownInOrder r (sort_records records) (sort_records-IsShownInOrder records)

insert_record-Perm :
    (r : JobRecord) (records : List JobRecord) → Perm (insert_record r records) (r ∷ records)
unfolding insert_record
insert_record-Perm r [] = Perm.rfl
insert_record-Perm r (next ∷ records) = elim (Bool-cases (comes_first r next)) [
  | inl t ↦ rw t Perm.rfl
  | inr f ↦
      rw f (Perm.trans (Perm.cons next (insert_record-Perm r records)) (Perm.swap r next records))
]

pub sort_records-Perm : (records : List JobRecord) → Perm (sort_records records) records
unfolding sort_records
sort_records-Perm [] = Perm.rfl
sort_records-Perm (r ∷ records) =
    Perm.trans (insert_record-Perm r (sort_records records))
      (Perm.cons r (sort_records-Perm records))
