-- ===== src/HsTable/Recovery/Scan.antt =====
-- What the scan of RecoverFile finds in a file of whole entries.
use kingdb.Prelude.{
  ℕ, suc, ◌+◌, ◌^◌, ◌<◌, ◌≤◌, ◌≡◌, refl, sym, ap, ◌∙◌, arith, some, List, [], ◌∷◌, ◌++◌, All,
  length, drop, length-append, drop-append, drop-drop, length-drop, append_assoc,
}
use kingdb.Coding.{Platform}
use kingdb.Status.{Status}
use kingdb.Options.{DatabaseOptions}
use kingdb.Reader.{done, failed, out_of_bounds, read_uint8}
use kingdb.Format.Checksums.{Checksums}
use kingdb.Format.Entry.{encode_to, decode_from, read_fields}
use kingdb.Format.Entry.RoundTrip.{written, decode_from-encode_to}
use kingdb.HsTable.Recovery.{Recovery, verifying, scan}
use kingdb.HsTable.Recovery.Written.{
  Entry, IsWhole, entry_bytes, entries_bytes, found, found_all, suc_add, scan_step, visit-written,
  sizes_valid,
}

module _ (p : Platform) (cs : Checksums) (db_options : DatabaseOptions) (file : List ℕ)
    (fileid : ℕ) where
  scan_stops :
      (fuel : ℕ) (r : Recovery) {status : Status}
      → decode_from p cs db_options verifying (drop r.offset file) ≡ failed status
      → scan p cs db_options file fileid (suc fuel) r ≡ some (done r)
  unfolding scan
  scan_stops fuel r f = rw (f, scan) refl

  scan_leaves :
      (fuel : ℕ) (r : Recovery)
      → decode_from p cs db_options verifying (drop r.offset file) ≡ out_of_bounds
      → scan p cs db_options file fileid (suc fuel) r ≡ some out_of_bounds
  unfolding scan
  scan_leaves fuel r f = rw (f, scan) refl

  decode_nothing : decode_from p cs db_options verifying [] ≡ out_of_bounds
  unfolding decode_from read_fields read_uint8
  decode_nothing = refl

  -- The offset at the end lies behind the entries.
  behind :
      (es : List Entry) (tail : List ℕ) (r : Recovery)
      → drop r.offset file ≡ entries_bytes p cs db_options es ++ tail
      → drop (found_all p cs db_options fileid es r).offset file ≡ tail
  unfolding entries_bytes found_all
  behind [] tail r d = d
  behind (e ∷ es) tail r d = behind es tail (found p cs db_options fileid e r) (
      drop-drop r.offset (length (entry_bytes p cs db_options e)) file
      ∙ ap (drop (length (entry_bytes p cs db_options e)))
          (d ∙ append_assoc (entry_bytes p cs db_options e) (entries_bytes p cs db_options es) tail)
      ∙ drop-append (length (entry_bytes p cs db_options e)) (entry_bytes p cs db_options e)
          (entries_bytes p cs db_options es ++ tail) refl)

  -- The scan over whole entries, up to what follows them.
  scan-entries :
      (fuel : ℕ) (es : List Entry) (tail : List ℕ) (r : Recovery)
      → All (IsWhole p cs db_options) es
      → drop r.offset file ≡ entries_bytes p cs db_options es ++ tail
      → r.offset ≤ length file
      → length file < 2 ^ 31
      → scan p cs db_options file fileid (length es + fuel) r
        ≡ scan p cs db_options file fileid fuel (found_all p cs db_options fileid es r)
  unfolding entries_bytes found_all
  scan-entries fuel [] tail r w d l small =
      ap (λ n. scan p cs db_options file fileid n r) (omega arith)
  scan-entries fuel (e ∷ es) tail r w d l small =
      let whole = w.0 in
      let there =
        d ∙ append_assoc (entry_bytes p cs db_options e) (entries_bytes p cs db_options es) tail in
      let here =
        there
        ∙ append_assoc (encode_to p cs db_options e.header) (e.key ++ e.value)
            (entries_bytes p cs db_options es ++ tail) in
      let all =
        sym (length-drop r.offset file)
        ∙ ap length there
        ∙ length-append (entry_bytes p cs db_options e)
            (entries_bytes p cs db_options es ++ tail) in
      ap (λ n. scan p cs db_options file fileid n r) (suc_add (length es) fuel)
      ∙ scan_step p cs db_options file fileid (length es + fuel) r
          (written p cs db_options e.header whole.encodable)
          (length (encode_to p cs db_options e.header))
          (ap (decode_from p cs db_options verifying) here
            ∙ decode_from-encode_to p cs db_options e.header whole.encodable verifying
                ((e.key ++ e.value) ++ (entries_bytes p cs db_options es ++ tail))
                (omega (arith, length-drop r.offset file, ap length here)))
          (sizes_valid p cs db_options file fileid e r whole (omega (arith, all)) small)
      ∙ ap (scan p cs db_options file fileid (length es + fuel))
          (visit-written p cs db_options file fileid e r whole (omega (arith, all)))
      ∙ scan-entries fuel es tail (found p cs db_options fileid e r) w.1
          (drop-drop r.offset (length (entry_bytes p cs db_options e)) file
            ∙ ap (drop (length (entry_bytes p cs db_options e))) there
            ∙ drop-append (length (entry_bytes p cs db_options e)) (entry_bytes p cs db_options e)
                (entries_bytes p cs db_options es ++ tail) refl)
          (omega (arith, all)) small

  -- What the scan of RecoverFile finds in a file whose entries are whole and not to be checked: if
  -- the bytes behind them are no header, it ends there, having found each entry, in order, under its hash and
  -- at its place; the file is smaller than 2 GiB.
  pub scan-entries_bytes :
      (fuel : ℕ) (es : List Entry) (tail : List ℕ) (r : Recovery) {status : Status}
      → All (IsWhole p cs db_options) es
      → drop r.offset file ≡ entries_bytes p cs db_options es ++ tail
      → r.offset ≤ length file
      → length file < 2 ^ 31
      → decode_from p cs db_options verifying tail ≡ failed status
      → scan p cs db_options file fileid (length es + suc fuel) r
        ≡ some (done (found_all p cs db_options fileid es r))
  scan-entries_bytes fuel es tail r w d l small f =
      scan-entries (suc fuel) es tail r w d l small
      ∙ scan_stops fuel (found_all p cs db_options fileid es r)
          (ap (decode_from p cs db_options verifying) (behind es tail r d) ∙ f)

  -- Where a file of less than 2 GiB has whole entries from the offset of the scan on, and ends right
  -- behind the last of them, the scan reads behind the file.
  pub scan_runs_off :
      (fuel : ℕ) (es : List Entry) (r : Recovery)
      → All (IsWhole p cs db_options) es
      → drop r.offset file ≡ entries_bytes p cs db_options es ++ []
      → r.offset ≤ length file
      → length file < 2 ^ 31
      → scan p cs db_options file fileid (length es + suc fuel) r ≡ some out_of_bounds
  scan_runs_off fuel es r w d l small =
      scan-entries (suc fuel) es [] r w d l small
      ∙ scan_leaves fuel (found_all p cs db_options fileid es r)
          (ap (decode_from p cs db_options verifying) (behind es [] r d) ∙ decode_nothing)
