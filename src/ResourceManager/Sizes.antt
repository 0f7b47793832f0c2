-- ===== src/ResourceManager/Sizes.antt =====
-- The totals of the FileResourceManager are the sums of the sizes of the files.
use kingdb.Prelude.{
  ℕ, ◌+◌, ◌%◌, ◌^◌, ◌<◌, ◌≡◌, refl, ap, ◌∙◌, arith, Bool, true, false, not, ◌==◌, if◌then◌else◌,
  inl, inr, Bool-cases, Option-cases, ==_refl,
}
use kingdb.Prelude.Maps.{
  NatMap, NatSet, get_or, lookup, insert, erase, contains, set_insert, set_erase, Distinct, total,
  counted, total-insert, total-erase, total-without, insert-Distinct, erase-Distinct, lookup-insert,
  lookup-erase, total_cong, contains-set_insert, contains-set_erase,
}
use kingdb.ResourceManager.{
  ResourceManager, sub64, filesize_of, increment_db_sizes, increment_db_size_total,
  increment_db_size_uncompacted, clear_temporary_data_for_file_id, clear_all_data_for_file_id,
  get_file_size, set_file_size, set_file_compacted, set_file_large,
}

abbrev pub any_file : ℕ → Bool
any_file k = true

abbrev pub outside : NatSet → ℕ → Bool
outside s k = not (contains k s)

-- The two totals are the sums over all files and over the files that are not compacted, in 64 bits.
pub record IsConsistent (m : ResourceManager) : Type 0 where
  pub distinct : Distinct m.filesizes
  pub fits : (k : ℕ) → filesize_of k m < 2 ^ 64
  pub total_all : m.dbsize_total ≡ total any_file m.filesizes % 2 ^ 64
  pub total_uncompacted :
      m.dbsize_uncompacted ≡ total (outside m.compactedfiles) m.filesizes % 2 ^ 64

-- A total after one of its terms has changed from `old` to `new`.
moved :
    (d s s' old new : ℕ)
    → old < 2 ^ 64
    → d ≡ s % 2 ^ 64
    → s' + old ≡ s + new
    → (d + sub64 new old) % 2 ^ 64 ≡ s' % 2 ^ 64
moved d s s' old new h e f = omega arith

-- The two totals after an increment.
pub increment_db_sizes_fields :
    (fileid inc : ℕ) (m : ResourceManager)
    → increment_db_sizes fileid inc m ≡ record m {
      dbsize_total = (m.dbsize_total + inc) % 2 ^ 64;
      dbsize_uncompacted =
          if contains fileid m.compactedfiles
          then m.dbsize_uncompacted
          else (m.dbsize_uncompacted + inc) % 2 ^ 64;
    }
unfolding increment_db_sizes increment_db_size_total increment_db_size_uncompacted
increment_db_sizes_fields fileid inc m = elim (Bool-cases (contains fileid m.compactedfiles)) [
  | inl e ↦ rw e
  | inr e ↦ rw e
]

-- The total of the files outside a set moves with a file that is outside, and stays otherwise.
moved_outside :
    (d s s' old new : ℕ) (inside : Bool)
    → old < 2 ^ 64
    → d ≡ s % 2 ^ 64
    → s' + counted (not inside) old ≡ s + counted (not inside) new
    → (if inside then d else (d + sub64 new old) % 2 ^ 64) ≡ s' % 2 ^ 64
moved_outside d s s' old new true h e f = omega arith
moved_outside d s s' old new false h e f = moved d s s' old new h e f

fits_insert :
    (fileid filesize : ℕ) (map : NatMap ℕ)
    → filesize < 2 ^ 64
    → ((k : ℕ) → get_or 0 (lookup k map) < 2 ^ 64)
    → (k : ℕ) → get_or 0 (lookup k (insert fileid filesize map)) < 2 ^ 64
fits_insert fileid filesize map h fits k =
    rw (lookup-insert k fileid filesize map) (ground (arith, fits k))

fits_erase :
    (fileid : ℕ) (map : NatMap ℕ)
    → ((k : ℕ) → get_or 0 (lookup k map) < 2 ^ 64)
    → (k : ℕ) → get_or 0 (lookup k (erase fileid map)) < 2 ^ 64
fits_erase fileid map fits k = rw (lookup-erase k fileid map) (ground (arith, fits k))

pub set_file_size-IsConsistent :
    (fileid filesize : ℕ) (m : ResourceManager)
    → filesize < 2 ^ 64
    → IsConsistent m
    → IsConsistent (set_file_size fileid filesize m)
unfolding set_file_size
set_file_size-IsConsistent fileid filesize m h c =
    rw (increment_db_sizes_fields fileid (sub64 filesize (filesize_of fileid m)) m) (record {
      distinct = insert-Distinct fileid filesize m.filesizes c.distinct;
      fits = fits_insert fileid filesize m.filesizes h c.fits;
      total_all =
          moved m.dbsize_total _ _ (filesize_of fileid m) filesize (c.fits fileid) c.total_all
            (total-insert any_file fileid filesize m.filesizes);
      total_uncompacted =
          moved_outside m.dbsize_uncompacted _ _ (filesize_of fileid m) filesize
            (contains fileid m.compactedfiles) (c.fits fileid) c.total_uncompacted
            (total-insert (outside m.compactedfiles) fileid filesize m.filesizes);
    })

-- The sum over the files outside the compacted ones, without one file.
cleared_outside :
    (fileid : ℕ) (m : ResourceManager)
    → IsConsistent m
    → total (outside (set_erase fileid m.compactedfiles)) (erase fileid m.filesizes)
        + counted (not (contains fileid m.compactedfiles)) (filesize_of fileid m)
      ≡ total (outside m.compactedfiles) m.filesizes
        + counted (not (contains fileid m.compactedfiles)) 0
cleared_outside fileid m c = grind (
  arith,
  total_cong (outside m.compactedfiles) (outside (set_erase fileid m.compactedfiles)) fileid
      (erase fileid m.filesizes) (λ j e. rw (contains-set_erase j fileid m.compactedfiles, e) refl)
      (lookup-erase fileid fileid m.filesizes ∙ rw (==_refl fileid)),
  total-erase (outside m.compactedfiles) fileid m.filesizes c.distinct,
)

pub clear_all_data-IsConsistent :
    (fileid : ℕ) (m : ResourceManager)
    → IsConsistent m
    → IsConsistent (clear_all_data_for_file_id fileid m)
unfolding clear_all_data_for_file_id clear_temporary_data_for_file_id
clear_all_data-IsConsistent fileid m c =
    rw
      (increment_db_sizes_fields fileid (sub64 0 (filesize_of fileid m))
        (clear_temporary_data_for_file_id fileid m))
      (record {
        distinct = erase-Distinct fileid m.filesizes c.distinct;
        fits = fits_erase fileid m.filesizes c.fits;
        total_all =
            moved m.dbsize_total _ _ (filesize_of fileid m) 0 (c.fits fileid) c.total_all
              (total-erase any_file fileid m.filesizes c.distinct ∙ omega arith);
        total_uncompacted =
            moved_outside m.dbsize_uncompacted _ _ (filesize_of fileid m) 0
              (contains fileid m.compactedfiles) (c.fits fileid) c.total_uncompacted
              (cleared_outside fileid m c);
      })

pub get_file_size-IsConsistent :
    (fileid : ℕ) (m : ResourceManager) → IsConsistent m → IsConsistent (get_file_size fileid m).1
unfolding get_file_size
get_file_size-IsConsistent fileid m c = record {
  distinct = insert-Distinct fileid _ m.filesizes c.distinct;
  fits = fits_insert fileid _ m.filesizes (c.fits fileid) c.fits;
  total_all =
      c.total_all
      ∙ ap (λ n. n % 2 ^ 64)
          (omega (arith, total-insert any_file fileid (filesize_of fileid m) m.filesizes));
  total_uncompacted =
      c.total_uncompacted
      ∙ ap (λ n. n % 2 ^ 64)
          (omega (
            arith,
            total-insert (outside m.compactedfiles) fileid (filesize_of fileid m) m.filesizes,
          ));
}

outside_insert :
    (k : ℕ) (s : NatSet) (j : ℕ)
    → outside (set_insert k s) j ≡ (if k == j then false else outside s j)
outside_insert k s j = rw (contains-set_insert j k s) (ground arith)

-- The sum over the files outside the compacted ones, once one more is compacted.
compacted_outside :
    (fileid : ℕ) (m : ResourceManager)
    → IsConsistent m
    → contains fileid m.compactedfiles ≡ false
    → total (outside (set_insert fileid m.compactedfiles)) m.filesizes + filesize_of fileid m
      ≡ total (outside m.compactedfiles) m.filesizes + 0
compacted_outside fileid m c e = omega (
  arith,
  total-without (outside m.compactedfiles) (outside (set_insert fileid m.compactedfiles)) fileid
      m.filesizes (outside_insert fileid m.compactedfiles) (ap not e) c.distinct,
)

pub set_file_compacted-IsConsistent :
    (fileid : ℕ) (m : ResourceManager) → IsConsistent m → IsConsistent (set_file_compacted fileid m)
unfolding set_file_compacted increment_db_size_uncompacted
set_file_compacted-IsConsistent fileid m c = elim (Bool-cases (contains fileid m.compactedfiles)) [
  | inl e ↦ rw e c
  | inr e ↦ elim (Option-cases (lookup fileid m.filesizes)) [
    | inl n ↦
        rw (e, n)
          (record {
            distinct = c.distinct;
            fits = c.fits;
            total_all = c.total_all;
            total_uncompacted =
                c.total_uncompacted
                ∙ ap (λ n. n % 2 ^ 64)
                    (ground (arith, compacted_outside fileid m c e, ap (get_or 0) n));
          })
    | inr (v, n) ↦
        rw (e, n)
          (record {
            distinct = c.distinct;
            fits = c.fits;
            total_all = c.total_all;
            total_uncompacted =
                moved m.dbsize_uncompacted _ _ v 0 (rw n at (c.fits fileid)) c.total_uncompacted
                  (rw n at (compacted_outside fileid m c e));
          })
  ]
]

pub set_file_large-IsConsistent :
    (fileid : ℕ) (m : ResourceManager) → IsConsistent m → IsConsistent (set_file_large fileid m)
unfolding set_file_large
set_file_large-IsConsistent fileid m c =
    set_file_compacted-IsConsistent fileid
      (record m { largefiles = set_insert fileid m.largefiles })
      (record {
        distinct = c.distinct;
        fits = c.fits;
        total_all = c.total_all;
        total_uncompacted = c.total_uncompacted;
      })
