-- ===== src/FilePool/Trace.antt =====
-- FileManager over any sequence of calls.
use kingdb.Prelude.{
  ℕ, ◌+◌, ◌-◌, ◌<◌, ◌≡◌, refl, ap, ◌∙◌, arith, ◌&&◌, Option, some, List, [], ◌∷◌, All, ◌==◌,
  if◌then◌else◌,
}
use kingdb.FilePool.{
  FileResource, FileManager, new_file_manager, find_used, Opened, opened, refused, Got, get_file,
  release_file,
}
use kingdb.FilePool.Counts.{references, IsHeld, was_opened, get_file-Effect, release_file_effect}
use kingdb.FilePool.Sharing.{
  IsMappedOnce, unused_entries, get_file-Entries, release_file_entries, get_file-closed,
  get_file-shared,
}

-- A call, with what open() and mmap() return in it.
pub data Call : Type 0 where
  get : ℕ → ℕ → Option ℕ → Option ℕ → Call
  release : ℕ → ℕ → Call

unfoldable pub step : Call → FileManager → FileManager
step (get fileid filesize fd datafile) m = (get_file fileid filesize fd datafile m).state
step (release fileid filesize) m = release_file fileid filesize m

unfoldable pub run : List Call → FileManager → FileManager
unfolding step
run [] m = m
run (c ∷ cs) m = run cs (step c m)

-- The specification: the number of those who hold a file, by the calls and whether they succeeded.
abbrev pub tally_step : ℕ → ℕ → Call → FileManager → ℕ → ℕ
tally_step f n (get fileid filesize fd datafile) m k =
    k
    + (if was_opened (get_file fileid filesize fd datafile m).answer
          && ((fileid == f) && (filesize == n))
        then 1
        else 0)
tally_step f n (release fileid filesize) m k =
    k - (if (fileid == f) && (filesize == n) then 1 else 0)

unfoldable pub tally : ℕ → ℕ → List Call → FileManager → ℕ → ℕ
unfolding step
tally f n [] m k = k
tally f n (c ∷ cs) m k = tally f n cs (step c m) (tally_step f n c m k)

pub record IsSound (m : FileManager) : Type 0 where
  pub held : All IsHeld m.files_used
  pub once : IsMappedOnce m

step-IsSound : (c : Call) (m : FileManager) → IsSound m → IsSound (step c m)
unfolding step
step-IsSound (get fileid filesize fd datafile) m s = record {
  held = (get_file-Effect fileid filesize fd datafile m s.held).0;
  once = λ f n. (get_file-Entries fileid filesize fd datafile m s.once f n).1;
}
step-IsSound (release fileid filesize) m s = record {
  held = (release_file_effect fileid filesize m s.held).0;
  once = release_file_entries fileid filesize m s.held s.once;
}

pub run-IsSound : (cs : List Call) (m : FileManager) → IsSound m → IsSound (run cs m)
unfolding run
run-IsSound [] m s = s
run-IsSound (c ∷ cs) m s = run-IsSound cs (step c m) (step-IsSound c m s)

pub new-IsSound : IsSound new_file_manager
unfolding unused_entries kingdb.FilePool.Sharing.used_entries
new-IsSound = record { held = tt; once = λ f n. omega arith }

step-references :
    (f n : ℕ) (c : Call) (m : FileManager)
    → IsSound m
    → references f n (step c m).files_used ≡ tally_step f n c m (references f n m.files_used)
unfolding step
step-references f n (get fileid filesize fd datafile) m s =
    (get_file-Effect fileid filesize fd datafile m s.held).1 f n
step-references f n (release fileid filesize) m s =
    (release_file_effect fileid filesize m s.held).1 f n

tally-references :
    (f n : ℕ) (cs : List Call) (m : FileManager)
    → IsSound m
    → references f n (run cs m).files_used ≡ tally f n cs m (references f n m.files_used)
unfolding run tally
tally-references f n [] m s = refl
tally-references f n (c ∷ cs) m s =
    tally-references f n cs (step c m) (step-IsSound c m s)
    ∙ ap (tally f n cs (step c m)) (step-references f n c m s)

-- After any sequence of calls of GetFile and ReleaseFile on a new FileManager, the reference counts
-- of each file and size are the number of those who hold it: the calls of GetFile that succeeded
-- less those of ReleaseFile, where a ReleaseFile without a holder counts for nothing. The counts are
-- unbounded numbers.
pub run-tally :
    (cs : List Call) (f n : ℕ)
    → references f n (run cs new_file_manager).files_used ≡ tally f n cs new_file_manager 0
unfolding references
run-tally cs f n = tally-references f n cs new_file_manager new-IsSound

-- After any sequence of calls on a new FileManager, GetFile neither unmaps nor closes a file of a
-- size that is held, and answers a call for one that is held with the mapping and the descriptor
-- that its holders have, whatever open() and mmap() would return.
pub run-get_file :
    (cs : List Call) (fileid filesize : ℕ) (fd datafile : Option ℕ)
    → let m = run cs new_file_manager in
      let g = get_file fileid filesize fd datafile m in
      ((f n : ℕ) → 0 < references f n m.files_used → unused_entries f n g.closed ≡ 0)
      × ((r : FileResource)
          → find_used fileid filesize m.files_used ≡ some r
          → g.answer ≡ opened (record r { num_references = r.num_references + 1 }))
run-get_file cs fileid filesize fd datafile =
    let s = run-IsSound cs new_file_manager new-IsSound in
    (
      get_file-closed fileid filesize fd datafile (run cs new_file_manager) s.once,
      (λ r. get_file-shared fileid filesize fd datafile (run cs new_file_manager) r s.once),
    )
