-- ===== src/FilePool.antt =====
-- util/filepool.h: FileManager, which shares the mapped files between those who read them. The
-- mutex makes GetFile and ReleaseFile one step each; what open() and mmap() return is an argument,
-- and what munmap() and close() are called with is part of the result.
pub mod Counts
pub mod Sharing
pub mod Trace
mod Runs
use kingdb.Prelude.{
  ℕ, ◌+◌, ◌-◌, Bool, true, false, not, ◌&&◌, Option, none, some, List, [], ◌∷◌, ◌++◌, length, ltb,
  ◌==◌, if◌then◌else◌,
}
use kingdb.Status.{Status, status_io_error}

pub record FileResource : Type 0 where
  pub fileid : ℕ
  pub fd : ℕ
  pub filesize : ℕ
  pub mmap : ℕ
  pub num_references : ℕ

-- `files_used` is the multimap as the list of its pairs, those of one key in the order of their
-- insertion.
pub record FileManager : Type 0 where
  pub files_unused : List FileResource
  pub files_used : List (ℕ × FileResource)

abbrev pub new_file_manager : FileManager
new_file_manager = record { files_unused = []; files_used = [] }

unfoldable pub num_files : FileManager → ℕ
num_files m = length m.files_unused + length m.files_used

abbrev pub max_num_files : ℕ
max_num_files = 2048

-- The first loop of GetFile: what it finds, what stays in the list with the found one erased, and
-- what it unmaps and closes on the way.
pub record Search : Type 0 where
  pub found : Option FileResource
  pub remaining : List FileResource
  pub closed : List FileResource

abbrev pub keep_unused : FileResource → Search → Search
keep_unused r s = record s { remaining = r ∷ s.remaining }

abbrev pub close_unused : FileResource → Search → Search
close_unused r s = record s { closed = r ∷ s.closed }

unfoldable pub find_unused : ℕ → ℕ → List FileResource → Search
find_unused fileid filesize [] = record { found = none; remaining = []; closed = [] }
find_unused fileid filesize (r ∷ rs) =
    let rest = find_unused fileid filesize rs in
    if not (r.fileid == fileid)
    then keep_unused r rest
    else if r.filesize == filesize
    then record { found = some r; remaining = rs; closed = [] }
    else close_unused r rest

abbrev pub is_file : ℕ → ℕ → ℕ × FileResource → Bool
is_file fileid filesize (key, r) = (key == fileid) && (r.filesize == filesize)

-- The loop over the equal range of a file id.
unfoldable pub find_used : ℕ → ℕ → List (ℕ × FileResource) → Option FileResource
find_used fileid filesize [] = none
find_used fileid filesize ((key, r) ∷ rs) =
    if is_file fileid filesize (key, r) then some r else find_used fileid filesize rs

-- `num_references += 1` on what the loop finds.
unfoldable pub add_reference : ℕ → ℕ → List (ℕ × FileResource) → List (ℕ × FileResource)
add_reference fileid filesize [] = []
add_reference fileid filesize ((key, r) ∷ rs) =
    if is_file fileid filesize (key, r)
    then (key, record r { num_references = r.num_references + 1 }) ∷ rs
    else (key, r) ∷ add_reference fileid filesize rs

-- `num_references -= 1`, or the erasure, on what the loop finds.
unfoldable pub drop_reference : ℕ → ℕ → List (ℕ × FileResource) → List (ℕ × FileResource)
drop_reference fileid filesize [] = []
drop_reference fileid filesize ((key, r) ∷ rs) =
    if is_file fileid filesize (key, r)
    then if ltb 1 r.num_references
      then (key, record r { num_references = r.num_references - 1 }) ∷ rs
      else rs
    else (key, r) ∷ drop_reference fileid filesize rs

pub data Opened : Type 0 where
  opened : FileResource → Opened
  refused : Status → Opened

-- The state, what was unmapped and closed, and the answer.
pub record Got : Type 0 where
  pub state : FileManager
  pub closed : List FileResource
  pub answer : Opened

-- Room for one more file: the oldest of the unused ones is closed.
unfoldable pub make_room : FileManager → FileManager × List FileResource
unfolding num_files
make_room m =
    if ltb max_num_files (num_files m)
    then elim m.files_unused [ [] ↦ (m, []) | r ∷ rs ↦ (record m { files_unused = rs }, r ∷ []) ]
    else (m, [])

-- A file that is opened and mapped anew.
unfoldable pub open_file : ℕ → ℕ → Option ℕ → Option ℕ → FileManager → FileManager × Opened
open_file fileid filesize none datafile m = (m, refused (status_io_error "Could not open() file"))
open_file fileid filesize (some fd) none m = (m, refused (status_io_error "Could not mmap() file"))
open_file fileid filesize (some fd) (some datafile) m =
    let file : FileResource = record {
      fileid = fileid;
      fd = fd;
      filesize = filesize;
      mmap = datafile;
      num_references = 1;
    } in
    (record m { files_used = m.files_used ++ ((fileid, file) ∷ []) }, opened file)

-- GetFile.
abbrev pub use_unused : ℕ → FileResource → Search → FileManager → Got
use_unused fileid r s m =
    let file : FileResource = record r { num_references = 1 } in
    record {
      state = record {
        files_unused = s.remaining;
        files_used = m.files_used ++ ((fileid, file) ∷ []);
      };
      closed = s.closed;
      answer = opened file;
    }

abbrev pub use_again : ℕ → ℕ → FileResource → Search → FileManager → Got
use_again fileid filesize r s m = record {
  state = record {
    files_unused = s.remaining;
    files_used = add_reference fileid filesize m.files_used;
  };
  closed = s.closed;
  answer = opened (record r { num_references = r.num_references + 1 });
}

unfoldable pub use_new : ℕ → ℕ → Option ℕ → Option ℕ → Search → FileManager → Got
unfolding make_room open_file
use_new fileid filesize fd datafile s m =
    let (room, evicted) = make_room (record m { files_unused = s.remaining }) in
    let (state, answer) = open_file fileid filesize fd datafile room in
    record { state = state; closed = s.closed ++ evicted; answer = answer }

unfoldable pub get_file : ℕ → ℕ → Option ℕ → Option ℕ → FileManager → Got
unfolding find_unused find_used add_reference use_new
get_file fileid filesize fd datafile m =
    let s = find_unused fileid filesize m.files_unused in
    elim s.found [
      | some r ↦ use_unused fileid r s m
      | none ↦ elim (find_used fileid filesize m.files_used) [
        | some r ↦ use_again fileid filesize r s m
        | none ↦ use_new fileid filesize fd datafile s m
      ]
    ]

-- ReleaseFile.
abbrev pub retired : FileResource → List FileResource
retired r = if ltb 1 r.num_references then [] else (record r { num_references = 0 }) ∷ []

unfoldable pub release_file : ℕ → ℕ → FileManager → FileManager
unfolding find_used drop_reference
release_file fileid filesize m = elim (find_used fileid filesize m.files_used) [
  | none ↦ m
  | some r ↦ record {
    files_unused = m.files_unused ++ retired r;
    files_used = drop_reference fileid filesize m.files_used;
  }
]
