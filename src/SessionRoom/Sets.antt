-- ===== src/SessionRoom/Sets.antt =====
-- asio/internal/Session.cpp, class SessionRoom: the sets of ids in its two caches.
use asio.Prelude.{
  ℕ, ◌≡◌, refl, Bool, true, false, not, ◌&&◌, ◌||◌, List, [], some, ◌==◌, if◌then◌else◌, Bytes,
  bytes_beq, bytes_beq_iff, arith, inl, inr, Option-cases, Bool-cases, nat_key, bytes_key,
}
use asio.Prelude.Assoc.{
  find, assign, contains, set_insert, set_erase, find-assign, find-map_values, find-map_values-none,
  contains-set_insert, contains-set_erase, IsAscending, set_insert-IsAscending,
  set_erase-IsAscending,
}
use asio.SessionRoom.{IdSets, ids_of, insert_id, remove_id_name, remove_id}

-- Every set is in ascending order, as a `std::set` is.
abbrev pub SetsAscend : IdSets → Type 0
SetsAscend mp = (name : Bytes) → IsAscending 0 (ids_of name mp)

ids_of-assign :
    (name other : Bytes) (ids : List ℕ) (mp : IdSets)
    → ids_of other (assign name ids mp) ≡ (if bytes_beq name other then ids else ids_of other mp)
unfolding ids_of
ids_of-assign name other ids mp = ground (arith, find-assign name other ids mp)

ids_of-insert_id :
    (i : ℕ) (name other : Bytes) (mp : IdSets)
    → ids_of other (insert_id i name mp)
      ≡ (if bytes_beq name other then set_insert i (ids_of other mp) else ids_of other mp)
unfolding insert_id
ids_of-insert_id i name other mp =
    ground
      (arith, ids_of-assign name other (set_insert i (ids_of name mp)) mp, bytes_beq_iff name other)

found-Ascending :
    (name : Bytes) (mp : IdSets) (ids : List ℕ)
    → find name mp ≡ some ids
    → SetsAscend mp
    → IsAscending 0 ids
unfolding ids_of
found-Ascending name mp ids e s = rw e at (s name)

contains_none : (i : ℕ) → contains i [] ≡ false
unfolding contains
contains_none i = refl

-- Membership in the sets after an insertion, and after the two removals.
pub contains-insert_id :
    (i j : ℕ) (name other : Bytes) (mp : IdSets)
    → contains j (ids_of other (insert_id i name mp))
      ≡ (bytes_beq name other && i == j || contains j (ids_of other mp))
contains-insert_id i j name other mp =
    ground (arith, ids_of-insert_id i name other mp, contains-set_insert i j (ids_of other mp))

pub contains-remove_id_name :
    (i j : ℕ) (name other : Bytes) (mp : IdSets)
    → SetsAscend mp
    → contains j (ids_of other (remove_id_name i name mp))
      ≡ (not (bytes_beq name other && i == j) && contains j (ids_of other mp))
unfolding remove_id_name ids_of
contains-remove_id_name i j name other mp s = elim (Option-cases (find name mp)) [
  | inl e ↦ rw e (ground (arith, e, bytes_beq_iff name other, contains_none j))
  | inr (ids, e) ↦
      let ascend = found-Ascending name mp ids e s in
      rw e (
        ground (
          arith,
          e,
          bytes_beq_iff name other,
          find-assign name other (set_erase i ids) mp,
          contains-set_erase i j 0 ids ascend,
        ))
]

pub contains-remove_id :
    (i j : ℕ) (name : Bytes) (mp : IdSets)
    → SetsAscend mp
    → contains j (ids_of name (remove_id i mp)) ≡ (not (i == j) && contains j (ids_of name mp))
unfolding remove_id ids_of
contains-remove_id i j name mp s = elim (Option-cases (find name mp)) [
  | inl e ↦ rw (e, find-map_values-none _ name mp e) (ground (arith, contains_none j))
  | inr (ids, e) ↦
      let ascend = found-Ascending name mp ids e s in
      rw (e, find-map_values _ name mp ids e) (ground (arith, contains-set_erase i j 0 ids ascend))
]

branch :
    (t : Bool) (xs ys : List ℕ)
    → IsAscending 0 xs
    → IsAscending 0 ys
    → IsAscending 0 (if t then xs else ys)
branch true xs ys a b = a
branch false xs ys a b = b

-- The sets stay ascending.
pub insert_id-SetsAscend :
    (i : ℕ) (name : Bytes) (mp : IdSets) → SetsAscend mp → SetsAscend (insert_id i name mp)
insert_id-SetsAscend i name mp s other = rw (ids_of-insert_id i name other mp) (
    branch (bytes_beq name other) _ _
      (set_insert-IsAscending i 0 (ids_of other mp) (omega arith) (s other)) (s other))

pub remove_id_name-SetsAscend :
    (i : ℕ) (name : Bytes) (mp : IdSets) → SetsAscend mp → SetsAscend (remove_id_name i name mp)
unfolding remove_id_name
remove_id_name-SetsAscend i name mp s other = elim (Option-cases (find name mp)) [
  | inl e ↦ rw e (s other)
  | inr (ids, e) ↦
      let ascend = found-Ascending name mp ids e s in
      elim (Bool-cases (contains i ids)) [
        | inr absent ↦ rw (e, absent) (s other)
        | inl present ↦
            rw (e, present)
              (rw (ids_of-assign name other (set_erase i ids) mp) (
                branch (bytes_beq name other) _ _ (set_erase-IsAscending i 0 ids ascend) (s other)))
      ]
]

pub remove_id-SetsAscend : (i : ℕ) (mp : IdSets) → SetsAscend mp → SetsAscend (remove_id i mp)
unfolding remove_id ids_of
remove_id-SetsAscend i mp s name = elim (Option-cases (find name mp)) [
  | inl e ↦ rw (find-map_values-none _ name mp e) tt
  | inr (ids, e) ↦
      let ascend = found-Ascending name mp ids e s in
      rw (find-map_values _ name mp ids e)
        (branch (contains i ids) _ _ (set_erase-IsAscending i 0 ids ascend) ascend)
]
