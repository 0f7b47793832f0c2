-- ===== src/FilePool/Counts.antt =====
-- The reference counts of FileManager count those who hold a file.
use kingdb.Prelude.{
  ℕ, ◌+◌, ◌-◌, ◌<◌, ◌≡◌, refl, sym, ap, ◌∙◌, arith, Bool, true, false, ◌&&◌, Option, none, some,
  List, [], ◌∷◌, ◌++◌, All, All-append, ◌==◌, if◌then◌else◌, Option-cases, inl, inr,
}
use kingdb.FilePool.{
  FileResource, FileManager, Search, find_unused, is_file, find_used, add_reference, drop_reference,
  Opened, opened, refused, make_room, open_file, use_new, get_file, release_file,
}

-- The references to a file of a certain size, over all its entries.
unfoldable pub references : ℕ → ℕ → List (ℕ × FileResource) → ℕ
references fileid filesize [] = 0
references fileid filesize ((key, r) ∷ rs) =
    (if is_file fileid filesize (key, r) then r.num_references else 0)
    + references fileid filesize rs

-- An entry in use has a holder, and stands under its file id.
abbrev pub IsHeld : ℕ × FileResource → Type 0
IsHeld (key, r) = (0 < r.num_references) × (r.fileid ≡ key)

references-append :
    (f n : ℕ) (xs ys : List (ℕ × FileResource))
    → references f n (xs ++ ys) ≡ references f n xs + references f n ys
unfolding references
references-append f n [] ys = omega arith
references-append f n (x ∷ xs) ys = omega (arith, references-append f n xs ys)

abbrev one_if : Bool → ℕ
one_if b = if b then 1 else 0

references-add_reference :
    (f n fileid filesize : ℕ) (rs : List (ℕ × FileResource)) (r : FileResource)
    → find_used fileid filesize rs ≡ some r
    → references f n (add_reference fileid filesize rs)
      ≡ references f n rs + one_if ((fileid == f) && (filesize == n))
unfolding references add_reference find_used
references-add_reference f n fileid filesize [] r h = cc
references-add_reference f n fileid filesize ((key, q) ∷ rs) r h =
    ground (arith, references-add_reference f n fileid filesize rs r)

references-drop_reference :
    (f n fileid filesize : ℕ) (rs : List (ℕ × FileResource))
    → All IsHeld rs
    → references f n (drop_reference fileid filesize rs)
      ≡ references f n rs - one_if ((fileid == f) && (filesize == n))
unfolding references drop_reference
references-drop_reference f n fileid filesize [] h = omega arith
references-drop_reference f n fileid filesize ((key, q) ∷ rs) h =
    ground (arith, references-drop_reference f n fileid filesize rs h.1)

pub find_unused_matches :
    (fileid filesize : ℕ) (rs : List FileResource) (r : FileResource)
    → (find_unused fileid filesize rs).found ≡ some r
    → (r.fileid ≡ fileid) × (r.filesize ≡ filesize)
unfolding find_unused
find_unused_matches fileid filesize [] r h = cc
find_unused_matches fileid filesize (q ∷ rs) r h =
    ground (arith, find_unused_matches fileid filesize rs r)

-- What GetFile answers with, and what it does to the counts.
abbrev pub was_opened : Opened → Bool
was_opened (opened r) = true
was_opened (refused s) = false

abbrev pub Answers : ℕ → ℕ → Opened → Type 0
Answers fileid filesize (opened r) = (r.fileid ≡ fileid) × (r.filesize ≡ filesize)
Answers fileid filesize (refused s) = Unit {0}

find_used_matches :
    (fileid filesize : ℕ) (rs : List (ℕ × FileResource)) (r : FileResource)
    → All IsHeld rs
    → find_used fileid filesize rs ≡ some r
    → (r.fileid ≡ fileid) × (r.filesize ≡ filesize)
unfolding find_used
find_used_matches fileid filesize [] r a h = cc
find_used_matches fileid filesize ((key, q) ∷ rs) r a h =
    ground (arith, find_used_matches fileid filesize rs r a.1)

add_reference-IsHeld :
    (fileid filesize : ℕ) (rs : List (ℕ × FileResource))
    → All IsHeld rs
    → All IsHeld (add_reference fileid filesize rs)
unfolding add_reference
add_reference-IsHeld fileid filesize [] a = tt
add_reference-IsHeld fileid filesize ((key, q) ∷ rs) a =
    ground (arith, add_reference-IsHeld fileid filesize rs a.1)

drop_reference-IsHeld :
    (fileid filesize : ℕ) (rs : List (ℕ × FileResource))
    → All IsHeld rs
    → All IsHeld (drop_reference fileid filesize rs)
unfolding drop_reference
drop_reference-IsHeld fileid filesize [] a = tt
drop_reference-IsHeld fileid filesize ((key, q) ∷ rs) a =
    ground (arith, drop_reference-IsHeld fileid filesize rs a.1)

-- What the list of the files in use is after a call, with its answer.
abbrev pub Effect : ℕ → ℕ → List (ℕ × FileResource) → List (ℕ × FileResource) → Opened → Type 0
Effect fileid filesize rs used answer =
    All IsHeld used
    × ((f n : ℕ)
        → references f n used
          ≡ references f n rs + one_if (was_opened answer && ((fileid == f) && (filesize == n))))
    × Answers fileid filesize answer

inserted :
    (f n fileid filesize : ℕ) (rs : List (ℕ × FileResource)) (r : FileResource)
    → r.filesize ≡ filesize
    → r.num_references ≡ 1
    → references f n (rs ++ ((fileid, r) ∷ []))
      ≡ references f n rs + one_if ((fileid == f) && (filesize == n))
inserted f n fileid filesize rs r e o =
    references-append f n rs ((fileid, r) ∷ [])
    ∙ unfold references in ground (arith, ap (λ k. k == n) e)

unchanged : (f n : ℕ) (rs : List (ℕ × FileResource)) → references f n rs ≡ references f n rs + 0
unchanged f n rs = omega arith

open_file-Effect :
    (fileid filesize : ℕ) (fd datafile : Option ℕ) (m : FileManager)
    → All IsHeld m.files_used
    → let (state, answer) = open_file fileid filesize fd datafile m in
      Effect fileid filesize m.files_used state.files_used answer
unfolding open_file
open_file-Effect fileid filesize none datafile m a = (a, (λ f n. unchanged f n m.files_used), tt)
open_file-Effect fileid filesize (some fd) none m a = (a, (λ f n. unchanged f n m.files_used), tt)
open_file-Effect fileid filesize (some fd) (some datafile) m a = (
  All-append IsHeld m.files_used _ a ((omega arith, refl), tt),
  (λ f n. inserted f n fileid filesize m.files_used _ refl refl),
  (refl, refl),
)

pub make_room-files_used : (m : FileManager) → (make_room m).0.files_used ≡ m.files_used
unfolding make_room
make_room-files_used m = ground arith

use_new-Effect :
    (fileid filesize : ℕ) (fd datafile : Option ℕ) (s : Search) (m : FileManager)
    → All IsHeld m.files_used
    → let g = use_new fileid filesize fd datafile s m in
      Effect fileid filesize m.files_used g.state.files_used g.answer
unfolding use_new
use_new-Effect fileid filesize fd datafile s m a =
    let room = make_room (record m { files_unused = s.remaining }) in
    let same = make_room-files_used (record m { files_unused = s.remaining }) in
    let (h, c, r) = open_file-Effect fileid filesize fd datafile room.0 (rw same a) in
    (h, (λ f n. omega (arith, c f n, ap (references f n) same)), r)

-- GetFile counts one holder more for the file that it answers with, and none for any other.
pub get_file-Effect :
    (fileid filesize : ℕ) (fd datafile : Option ℕ) (m : FileManager)
    → All IsHeld m.files_used
    → let g = get_file fileid filesize fd datafile m in
      Effect fileid filesize m.files_used g.state.files_used g.answer
unfolding get_file
get_file-Effect fileid filesize fd datafile m a =
    elim (Option-cases (find_unused fileid filesize m.files_unused).found) [
      | inr (r, e) ↦
          let q = find_unused_matches fileid filesize m.files_unused r e in
          rw (e, get_file)
            (
              All-append IsHeld m.files_used _ a ((omega arith, q.0), tt),
              (λ f n. inserted f n fileid filesize m.files_used _ q.1 refl),
              q,
            )
      | inl e ↦ elim (Option-cases (find_used fileid filesize m.files_used)) [
        | inr (r, u) ↦
            rw (e, get_file)
              (rw u (
                add_reference-IsHeld fileid filesize m.files_used a,
                (λ f n. references-add_reference f n fileid filesize m.files_used r u),
                find_used_matches fileid filesize m.files_used r a u,
              ))
        | inl u ↦
            rw (e, get_file)
              (rw u (
                use_new-Effect fileid filesize fd datafile
                  (find_unused fileid filesize m.files_unused) m a))
      ]
    ]

drop_reference_missing :
    (fileid filesize : ℕ) (rs : List (ℕ × FileResource))
    → find_used fileid filesize rs ≡ none
    → drop_reference fileid filesize rs ≡ rs
unfolding find_used drop_reference
drop_reference_missing fileid filesize [] h = refl
drop_reference_missing fileid filesize ((key, q) ∷ rs) h =
    ground (arith, drop_reference_missing fileid filesize rs)

release_file-files_used :
    (fileid filesize : ℕ) (m : FileManager)
    → (release_file fileid filesize m).files_used ≡ drop_reference fileid filesize m.files_used
unfolding release_file
release_file-files_used fileid filesize m =
    elim (Option-cases (find_used fileid filesize m.files_used)) [
      | inl e ↦ rw (e, release_file) (sym (drop_reference_missing fileid filesize m.files_used e))
      | inr (r, e) ↦ rw (e, release_file) refl
    ]

-- ReleaseFile counts one holder less of its file, if there is one.
pub release_file_effect :
    (fileid filesize : ℕ) (m : FileManager)
    → All IsHeld m.files_used
    → All IsHeld (release_file fileid filesize m).files_used
      × ((f n : ℕ)
          → references f n (release_file fileid filesize m).files_used
            ≡ references f n m.files_used - one_if ((fileid == f) && (filesize == n)))
release_file_effect fileid filesize m a = rw (release_file-files_used fileid filesize m) (
  drop_reference-IsHeld fileid filesize m.files_used a,
  (λ f n. references-drop_reference f n fileid filesize m.files_used a),
)
