-- ===== src/FilePool/Sharing.antt =====
-- A file of a certain size is mapped once, and stays mapped while it is held.
use kingdb.Prelude.{
  ℕ, ◌+◌, ◌<◌, ◌≤◌, ◌≡◌, refl, ap, arith, Bool, true, ◌&&◌, Option, none, some, List, [], ◌∷◌, ◌++◌,
  All, ◌==◌, ==_iff, if◌then◌else◌, Option-cases, inl, inr, Bool-cases,
}
use kingdb.FilePool.{
  FileResource, FileManager, find_unused, is_file, find_used, add_reference, drop_reference, opened,
  Got, make_room, open_file, use_new, retired, get_file, release_file,
}
use kingdb.FilePool.Counts.{references, IsHeld, find_unused_matches}

abbrev one_if : Bool → ℕ
one_if b = if b then 1 else 0

-- How many entries of each list are of a file and a size.
unfoldable pub used_entries : ℕ → ℕ → List (ℕ × FileResource) → ℕ
used_entries f n [] = 0
used_entries f n ((key, r) ∷ rs) = one_if (is_file f n (key, r)) + used_entries f n rs

unfoldable pub unused_entries : ℕ → ℕ → List FileResource → ℕ
unused_entries f n [] = 0
unused_entries f n (r ∷ rs) = one_if (is_file f n (r.fileid, r)) + unused_entries f n rs

abbrev pub IsMappedOnce : FileManager → Type 0
IsMappedOnce m = (f n : ℕ) → used_entries f n m.files_used + unused_entries f n m.files_unused ≤ 1

used_entries-append :
    (f n : ℕ) (xs ys : List (ℕ × FileResource))
    → used_entries f n (xs ++ ys) ≡ used_entries f n xs + used_entries f n ys
unfolding used_entries
used_entries-append f n [] ys = omega arith
used_entries-append f n (x ∷ xs) ys = omega (arith, used_entries-append f n xs ys)

unused_entries-append :
    (f n : ℕ) (xs ys : List FileResource)
    → unused_entries f n (xs ++ ys) ≡ unused_entries f n xs + unused_entries f n ys
unfolding unused_entries
unused_entries-append f n [] ys = omega arith
unused_entries-append f n (x ∷ xs) ys = omega (arith, unused_entries-append f n xs ys)

abbrev found_entries : ℕ → ℕ → Option FileResource → ℕ
found_entries f n none = 0
found_entries f n (some r) = one_if (is_file f n (r.fileid, r))

-- The search loses no entry.
find_unused_entries :
    (f n fileid filesize : ℕ) (rs : List FileResource)
    → let s = find_unused fileid filesize rs in
      unused_entries f n rs
      ≡ unused_entries f n s.remaining + unused_entries f n s.closed + found_entries f n s.found
unfolding find_unused unused_entries
find_unused_entries f n fileid filesize [] = refl
find_unused_entries f n fileid filesize (r ∷ rs) =
    ground (arith, find_unused_entries f n fileid filesize rs)

-- What the search does not find is not there.
find_unused_missing :
    (fileid filesize : ℕ) (rs : List FileResource)
    → (find_unused fileid filesize rs).found ≡ none
    → unused_entries fileid filesize rs ≡ 0
unfolding find_unused unused_entries
find_unused_missing fileid filesize [] h = refl
find_unused_missing fileid filesize (r ∷ rs) h =
    ground (arith, find_unused_missing fileid filesize rs)

find_used_missing :
    (fileid filesize : ℕ) (rs : List (ℕ × FileResource))
    → find_used fileid filesize rs ≡ none
    → used_entries fileid filesize rs ≡ 0
unfolding find_used used_entries
find_used_missing fileid filesize [] h = refl
find_used_missing fileid filesize ((key, r) ∷ rs) h =
    ground (arith, find_used_missing fileid filesize rs)

used_entries-add_reference :
    (f n fileid filesize : ℕ) (rs : List (ℕ × FileResource))
    → used_entries f n (add_reference fileid filesize rs) ≡ used_entries f n rs
unfolding add_reference used_entries
used_entries-add_reference f n fileid filesize [] = refl
used_entries-add_reference f n fileid filesize ((key, r) ∷ rs) =
    ground (arith, used_entries-add_reference f n fileid filesize rs)

-- ReleaseFile moves an entry from one list to the other.
used_entries-drop_reference :
    (f n fileid filesize : ℕ) (rs : List (ℕ × FileResource)) (r : FileResource)
    → All IsHeld rs
    → find_used fileid filesize rs ≡ some r
    → used_entries f n (drop_reference fileid filesize rs) + unused_entries f n (retired r)
      ≡ used_entries f n rs
unfolding drop_reference used_entries find_used unused_entries
used_entries-drop_reference f n fileid filesize [] r a h = cc
used_entries-drop_reference f n fileid filesize ((key, q) ∷ rs) r a h =
    ground (arith, used_entries-drop_reference f n fileid filesize rs r a.1)

held_entries :
    (f n : ℕ) (rs : List (ℕ × FileResource)) → 0 < references f n rs → 0 < used_entries f n rs
unfolding references used_entries
held_entries f n [] h = h
held_entries f n ((key, r) ∷ rs) h = ground (arith, held_entries f n rs)

same_key :
    (f n fileid filesize : ℕ)
    → ((fileid == f) && (filesize == n)) ≡ true
    → (fileid ≡ f) × (filesize ≡ n)
same_key f n fileid filesize h = ground (arith, ==_iff fileid f, ==_iff filesize n)

-- What a call leaves of the entries: none is lost to the lists and closed at once, and a file is
-- still mapped once.
abbrev pub Entries : FileManager → Got → Type 0
Entries m g =
    (f n : ℕ)
    → (unused_entries f n g.closed + unused_entries f n g.state.files_unused
        ≤ unused_entries f n m.files_unused)
      × (used_entries f n g.state.files_used + unused_entries f n g.state.files_unused ≤ 1)

make_room_entries :
    (f n : ℕ) (m : FileManager)
    → (unused_entries f n (make_room m).0.files_unused + unused_entries f n (make_room m).1
        ≡ unused_entries f n m.files_unused)
      × ((make_room m).0.files_used ≡ m.files_used)
unfolding make_room unused_entries
make_room_entries f n m = ground arith

open_file_entries :
    (f n fileid filesize : ℕ) (fd datafile : Option ℕ) (m : FileManager)
    → let state = (open_file fileid filesize fd datafile m).0 in
      (state.files_unused ≡ m.files_unused)
      × (used_entries f n state.files_used
          ≤ used_entries f n m.files_used + one_if ((fileid == f) && (filesize == n)))
unfolding open_file
open_file_entries f n fileid filesize none datafile m = (refl, omega arith)
open_file_entries f n fileid filesize (some fd) none m = (refl, omega arith)
open_file_entries f n fileid filesize (some fd) (some datafile) m =
    (refl, rw (used_entries-append f n m.files_used) (unfold used_entries in omega arith))

use_new-Entries :
    (fileid filesize : ℕ) (fd datafile : Option ℕ) (m : FileManager)
    → IsMappedOnce m
    → (find_unused fileid filesize m.files_unused).found ≡ none
    → find_used fileid filesize m.files_used ≡ none
    → Entries m (use_new fileid filesize fd datafile (find_unused fileid filesize m.files_unused) m)
unfolding use_new
use_new-Entries fileid filesize fd datafile m once e u f n =
    let s = find_unused fileid filesize m.files_unused in
    let m' : FileManager = record m { files_unused = s.remaining } in
    let room = make_room m' in
    let (split, same) = make_room_entries f n m' in
    let (keep, more) = open_file_entries f n fileid filesize fd datafile room.0 in
    let all = find_unused_entries f n fileid filesize m.files_unused in
    let closed = unused_entries-append f n s.closed room.1 in
    let kept = ap (unused_entries f n) keep in
    let used = ap (used_entries f n) same in
    (
      omega (arith, all, closed, split, kept),
      elim (Bool-cases ((fileid == f) && (filesize == n))) [
        | inl k ↦
            let (kf, kn) = same_key f n fileid filesize k in
            omega (
              arith,
              all,
              split,
              kept,
              used,
              more,
              ap one_if k,
              ap (λ a. used_entries a filesize m.files_used) kf,
              ap (λ a. used_entries f a m.files_used) kn,
              find_used_missing fileid filesize m.files_used u,
              ap (λ a. unused_entries a filesize m.files_unused) kf,
              ap (λ a. unused_entries f a m.files_unused) kn,
              find_unused_missing fileid filesize m.files_unused e,
            )
        | inr k ↦ omega (arith, all, split, kept, used, more, ap one_if k, once f n)
      ],
    )

pub get_file-Entries :
    (fileid filesize : ℕ) (fd datafile : Option ℕ) (m : FileManager)
    → IsMappedOnce m
    → Entries m (get_file fileid filesize fd datafile m)
unfolding get_file
get_file-Entries fileid filesize fd datafile m once =
    elim (Option-cases (find_unused fileid filesize m.files_unused).found) [
      | inr (r, e) ↦ λ f n.
          let (q, z) = find_unused_matches fileid filesize m.files_unused r e in
          let all = find_unused_entries f n fileid filesize m.files_unused in
          rw (e, get_file)
            (
              omega (arith, all),
              rw (used_entries-append f n m.files_used) (
                  unfold used_entries in
                  omega (
                    arith,
                    all,
                    ap (found_entries f n) e,
                    once f n,
                    ap (λ a. one_if (is_file f n (a, r))) q,
                  )),
            )
      | inl e ↦ elim (Option-cases (find_used fileid filesize m.files_used)) [
        | inr (r, u) ↦ λ f n.
            let all = find_unused_entries f n fileid filesize m.files_unused in
            rw (e, get_file)
              (rw u (
                omega (arith, all),
                omega (
                  arith,
                  all,
                  once f n,
                  used_entries-add_reference f n fileid filesize m.files_used,
                ),
              ))
        | inl u ↦ λ f n.
            rw (e, get_file) (rw u (use_new-Entries fileid filesize fd datafile m once e u f n))
      ]
    ]

pub release_file_entries :
    (fileid filesize : ℕ) (m : FileManager)
    → All IsHeld m.files_used
    → IsMappedOnce m
    → IsMappedOnce (release_file fileid filesize m)
unfolding release_file
release_file_entries fileid filesize m a once f n =
    elim (Option-cases (find_used fileid filesize m.files_used)) [
      | inl e ↦ rw (e, release_file) (once f n)
      | inr (r, e) ↦
          rw (e, release_file)
            (omega (
              arith,
              once f n,
              unused_entries-append f n m.files_unused (retired r),
              used_entries-drop_reference f n fileid filesize m.files_used r a e,
            ))
    ]

-- GetFile unmaps no file that is held.
pub get_file-closed :
    (fileid filesize : ℕ) (fd datafile : Option ℕ) (m : FileManager)
    → IsMappedOnce m
    → (f n : ℕ) → 0 < references f n m.files_used
    → unused_entries f n (get_file fileid filesize fd datafile m).closed ≡ 0
get_file-closed fileid filesize fd datafile m once f n held = omega (
  arith,
  (get_file-Entries fileid filesize fd datafile m once f n).0,
  once f n,
  held_entries f n m.files_used held,
)

found_held :
    (fileid filesize : ℕ) (rs : List (ℕ × FileResource)) (r : FileResource)
    → find_used fileid filesize rs ≡ some r
    → 0 < used_entries fileid filesize rs
unfolding find_used used_entries
found_held fileid filesize [] r h = cc
found_held fileid filesize ((key, q) ∷ rs) r h = ground (arith, found_held fileid filesize rs r)

not_unused :
    (fileid filesize : ℕ) (rs : List FileResource)
    → unused_entries fileid filesize rs ≡ 0
    → (find_unused fileid filesize rs).found ≡ none
unfolding find_unused unused_entries
not_unused fileid filesize [] h = refl
not_unused fileid filesize (r ∷ rs) h = ground (arith, not_unused fileid filesize rs)

-- GetFile of a file that is held answers with the mapping that its holders have.
pub get_file-shared :
    (fileid filesize : ℕ) (fd datafile : Option ℕ) (m : FileManager) (r : FileResource)
    → IsMappedOnce m
    → find_used fileid filesize m.files_used ≡ some r
    → (get_file fileid filesize fd datafile m).answer
      ≡ opened (record r { num_references = r.num_references + 1 })
unfolding get_file
get_file-shared fileid filesize fd datafile m r once u =
    rw
      (
        not_unused fileid filesize m.files_unused
            (omega (arith, once fileid filesize, found_held fileid filesize m.files_used r u)),
        get_file,
      )
      (rw u refl)
