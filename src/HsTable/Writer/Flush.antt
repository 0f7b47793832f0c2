-- ===== src/HsTable/Writer/Flush.antt =====
-- FlushCurrentFile moves what the buffer holds into the file.
use kingdb.Prelude.{
  ℕ, zero, suc, ◌+◌, ◌-◌, ◌<◌, ◌≤◌, ◌≡◌, refl, sym, ap, ◌∙◌, arith, Bool, true, false, not, List,
  [], ◌∷◌, ◌++◌, length, take, drop, length-take, length-drop, drop-append_left, leb, if◌then◌else◌,
}
use kingdb.Prelude.Maps.{get_or, lookup, insert, lookup-insert}
use kingdb.Coding.{Platform}
use kingdb.Options.{DatabaseOptions}
use kingdb.Format.Checksums.{Checksums}
use kingdb.ResourceManager.{set_file_size}
use kingdb.HsTable.Writer.{Manager, file_of, write_at}
use kingdb.HsTable.Writer.Bytes.{write_at_end}
use kingdb.HsTable.Writer.Files.{write_items, pad_file, renew_file, flush_current_file}
use kingdb.HsTable.Writer.Append.{Buffered}

-- A file that takes entries: what the buffer holds from `offset_start` on belongs to its end.
pub record IsOpen (m : Manager) : Type 0 where
  pub has_file : m.has_file ≡ true
  pub start-le-end : m.offset_start ≤ m.offset_end
  pub end-le-buffer : m.offset_end ≤ length m.buffer_raw
  pub fd_position : m.fd_position ≡ m.offset_start
  pub file_length : length (file_of m.fileid m) ≡ m.offset_start

-- The bytes that wait in the buffer.
abbrev pub pending : Manager → List ℕ
pending m = drop m.offset_start (take m.offset_end m.buffer_raw)

lt→leb : (a b : ℕ) → b < a → leb a b ≡ false
lt→leb a b h = ground arith

take-of-drop : (a b : ℕ) (xs : List ℕ) → a ≤ b → take (b - a) (drop a xs) ≡ drop a (take b xs)
take-of-drop zero b xs h = ap (λ k. take k xs) (omega arith)
take-of-drop (suc a) zero xs h = absurd (omega arith)
take-of-drop (suc a) (suc b) [] h = nothing (suc b - suc a)
  where
    nothing : (n : ℕ) → take {A = ℕ} n [] ≡ []
    nothing zero = refl
    nothing (suc n) = refl
take-of-drop (suc a) (suc b) (x ∷ xs) h =
    ap (λ k. take k (drop a xs)) (less_one a b) ∙ take-of-drop a b xs (omega arith)
  where
    less_one : (a b : ℕ) → suc b - suc a ≡ b - a
    less_one a b = omega arith

second_branch : (b : Bool) (x y : Manager) → b ≡ true → (if not b then x else y) ≡ y
second_branch b x y h = rw h refl

pub file_of-insert :
    (fileid : ℕ) (bytes : List ℕ) (m : Manager)
    → get_or [] (lookup fileid (insert fileid bytes m.files)) ≡ bytes
file_of-insert fileid bytes m =
    ap (get_or []) (lookup-insert fileid fileid bytes m.files) ∙ ground arith

-- What the buffer holds after entries went into it.
pub pending-Buffered :
    (m m' : Manager) (bytes : List ℕ)
    → IsOpen m
    → Buffered m bytes m'
    → pending m' ≡ pending m ++ bytes
pending-Buffered m m' bytes o b =
    ap (λ s. drop s (take m'.offset_end m'.buffer_raw)) b.offset_start
    ∙ ap (drop m.offset_start) b.buffer_bytes
    ∙ drop-append_left m.offset_start (take m.offset_end m.buffer_raw) bytes
        (omega (arith, length-take m.offset_end m.buffer_raw, o.start-le-end, o.end-le-buffer))

pub Buffered-IsOpen :
    (m m' : Manager) (bytes : List ℕ)
    → IsOpen m
    → Buffered m bytes m'
    → m.offset_end + length bytes ≤ length m.buffer_raw
    → IsOpen m'
Buffered-IsOpen m m' bytes o b fits = record {
  has_file = b.has_file ∙ o.has_file;
  start-le-end = omega (arith, b.offset_start, b.offset_end, o.start-le-end);
  end-le-buffer = omega (arith, b.offset_end, b.buffer_size);
  fd_position = b.fd_position ∙ o.fd_position ∙ sym b.offset_start;
  file_length =
      ap (λ f. length (get_or [] (lookup m'.fileid f))) b.files
      ∙ ap (λ i. length (get_or [] (lookup i m.files))) b.fileid
      ∙ o.file_length
      ∙ sym b.offset_start;
}

module _ (p : Platform) (cs : Checksums) (db_options : DatabaseOptions) (filetype_default : ℕ)
    (m : Manager) (open_file : IsOpen m) where
  -- The state behind the flush of a file that is not full.
  abbrev pub flushed : Manager
  flushed = record m {
    files = insert m.fileid (file_of m.fileid m ++ pending m) m.files;
    fd_position = m.offset_end;
    resources = set_file_size m.fileid m.offset_end m.resources;
    offset_start = m.offset_end;
    buffer_has_items = false;
    has_sync_option = false;
  }

  pending_size : length (pending m) ≡ m.offset_end - m.offset_start
  pending_size =
      length-drop m.offset_start (take m.offset_end m.buffer_raw)
      ∙ omega (arith, length-take m.offset_end m.buffer_raw, open_file.end-le-buffer)

  items_written :
      m.buffer_has_items ≡ true
      → record (write_items p cs db_options filetype_default m) { has_sync_option = false }
        ≡ flushed
  unfolding write_items
  items_written items =
      let same = take-of-drop m.offset_start m.offset_end m.buffer_raw open_file.start-le-end in
      rw (items, same)
        (ap
            (λ k. record m {
              files =
                  insert m.fileid (write_at m.fd_position (pending m) (file_of m.fileid m)) m.files;
              fd_position = k;
              resources = set_file_size m.fileid m.offset_end m.resources;
              offset_start = m.offset_end;
              buffer_has_items = false;
              has_sync_option = false;
            })
            (omega (arith, pending_size, open_file.fd_position, open_file.start-le-end))
          ∙ ap
              (λ f. record m {
                files = insert m.fileid f m.files;
                fd_position = m.offset_end;
                resources = set_file_size m.fileid m.offset_end m.resources;
                offset_start = m.offset_end;
                buffer_has_items = false;
                has_sync_option = false;
              })
              (write_at_end m.fd_position (pending m) (file_of m.fileid m)
                (open_file.file_length ∙ sym open_file.fd_position)))

  stays :
      (m' : Manager)
      → m'.offset_end < db_options.storage_hstable_size
      → renew_file p cs db_options filetype_default false m' ≡ m'
  unfolding renew_file
  stays m' low = rw (lt→leb db_options.storage_hstable_size m'.offset_end low) refl

  pub flush_current_file-flushed :
      m.buffer_has_items ≡ true
      → m.offset_end < db_options.storage_hstable_size
      → flush_current_file p cs db_options filetype_default false 0 m ≡ flushed
  unfolding flush_current_file pad_file
  flush_current_file-flushed items low =
      second_branch m.has_file _ _ open_file.has_file
      ∙ ap (renew_file p cs db_options filetype_default false) (items_written items)
      ∙ stays flushed low
