-- ===== src/FilePool/Runs.antt =====
-- FileManager on concrete calls.
use kingdb.Prelude.{ℕ, ◌+◌, ◌<◌, ◌≡◌, refl, none, some, List, [], ◌∷◌}
use kingdb.FilePool.{FileResource, new_file_manager, find_used, get_file, release_file, opened}
use kingdb.FilePool.Counts.{references}
use kingdb.FilePool.Sharing.{unused_entries}
use kingdb.FilePool.Trace.{Call, get, release, run, tally, run-tally, run-get_file}

-- Two holders of a file, one of which lets go, and a file that grew meanwhile.
abbrev calls : List Call
calls =
    get 1 100 (some 3) (some 7000)
    ∷ get 1 100 none none
    ∷ get 1 200 (some 4) (some 8000)
    ∷ release 1 100
    ∷ []

two_mappings :
    (run calls new_file_manager).files_used
    ≡ (1, record { fileid = 1; fd = 3; filesize = 100; mmap = 7000; num_references = 1 })
      ∷ (1, record { fileid = 1; fd = 4; filesize = 200; mmap = 8000; num_references = 1 })
      ∷ []
unfolding run get_file release_file
two_mappings = refl

run-tally_example :
    references 1 100 (run calls new_file_manager).files_used ≡ tally 1 100 calls new_file_manager 0
run-tally_example = run-tally calls 1 100

run-get_file_example :
    let m = run calls new_file_manager in
    let g = get_file 1 200 none none m in
    ((f n : ℕ) → 0 < references f n m.files_used → unused_entries f n g.closed ≡ 0)
    × ((r : FileResource)
        → find_used 1 200 m.files_used ≡ some r
        → g.answer ≡ opened (record r { num_references = r.num_references + 1 }))
run-get_file_example = run-get_file calls 1 200 none none
