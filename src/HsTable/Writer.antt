-- ===== src/HsTable/Writer.antt =====
-- The state of HSTableManager, and what it does to the files of the system: the sequences, the
-- current file and its buffer. The calls of the system succeed.
pub mod Bytes
pub mod Files
pub mod Parts
pub mod Orders
pub mod Append
pub mod Small
pub mod Flush
pub mod Batch
pub mod EndToEnd
mod Runs
use kingdb.Prelude.{
  ℕ, zero, suc, ◌+◌, ◌-◌, ◌*◌, ◌%◌, ◌^◌, Bool, true, false, Option, none, some, List, [], ◌∷◌, ◌++◌,
  length, take, drop, ltb, if◌then◌else◌,
}
use kingdb.Prelude.Maps.{NatMap, get_or, lookup, insert}
use kingdb.ResourceManager.{ResourceManager}
use kingdb.WriteBuffer.{same_bytes}
use kingdb.HsTable.Recovery.Rewrite.{resize}

-- `std::map<std::string, T>`.
abbrev pub KeyMap : Type 0
KeyMap = List (List ℕ × ℕ)

unfoldable pub key_lookup : List ℕ → KeyMap → Option ℕ
unfolding same_bytes
key_lookup k [] = none
key_lookup k ((j, v) ∷ m) = if same_bytes j k then some v else key_lookup k m

unfoldable pub key_insert : List ℕ → ℕ → KeyMap → KeyMap
unfolding same_bytes
key_insert k v [] = (k, v) ∷ []
key_insert k v ((j, w) ∷ m) =
    let rest = key_insert k v m in if same_bytes j k then (j, v) ∷ m else (j, w) ∷ rest

unfoldable pub key_erase : List ℕ → KeyMap → KeyMap
unfolding same_bytes
key_erase k [] = []
key_erase k ((j, w) ∷ m) =
    let rest = key_erase k m in if same_bytes j k then rest else (j, w) ∷ rest

-- `map[tid][key] = v`, and the erasure of the key where the thread has a map.
abbrev pub thread_insert : ℕ → List ℕ → ℕ → NatMap KeyMap → NatMap KeyMap
thread_insert tid k v m = insert tid (key_insert k v (get_or [] (lookup tid m))) m

abbrev pub thread_erase : ℕ → List ℕ → NatMap KeyMap → NatMap KeyMap
thread_erase tid k m = elim (lookup tid m) [
  | none ↦ m
  | some keys ↦ insert tid (key_erase k keys) m
]

abbrev pub thread_lookup : ℕ → List ℕ → NatMap KeyMap → Option ℕ
thread_lookup tid k m = key_lookup k (get_or [] (lookup tid m))

-- `fd` is that of the file `fileid`, and its position is `fd_position`; `files` holds the bytes of
-- each file.
pub record Manager : Type 0 where
  pub fileid : ℕ
  pub sequence_fileid : ℕ
  pub timestamp : ℕ
  pub sequence_timestamp : ℕ
  pub is_locked_sequence_timestamp : Bool
  pub has_file : Bool
  pub has_sync_option : Bool
  pub buffer_has_items : Bool
  pub fd_position : ℕ
  pub offset_start : ℕ
  pub offset_end : ℕ
  pub buffer_raw : List ℕ
  pub files : NatMap (List ℕ)
  pub resources : ResourceManager
  pub key_to_location : NatMap KeyMap
  pub key_to_headersize : NatMap KeyMap

abbrev pub file_of : ℕ → Manager → List ℕ
file_of fileid m = get_or [] (lookup fileid m.files)

-- The sequences. A locked timestamp does not move.
unfoldable pub increment_sequence_fileid : ℕ → Manager → Manager
increment_sequence_fileid inc m = record m { sequence_fileid = (m.sequence_fileid + inc) % 2 ^ 32 }

unfoldable pub increment_sequence_timestamp : ℕ → Manager → Manager
increment_sequence_timestamp inc m =
    if m.is_locked_sequence_timestamp
    then m
    else record m { sequence_timestamp = (m.sequence_timestamp + inc) % 2 ^ 64 }

unfoldable pub lock_sequence_timestamp : ℕ → Manager → Manager
lock_sequence_timestamp seq m = record m {
  is_locked_sequence_timestamp = true;
  sequence_timestamp = seq;
}

-- The argument of SetSequenceTimestamp is a `uint32_t`.
unfoldable pub set_sequence_timestamp : ℕ → Manager → Manager
set_sequence_timestamp seq m =
    if m.is_locked_sequence_timestamp then m else record m { sequence_timestamp = seq % 2 ^ 32 }

unfoldable pub set_sequence_fileid : ℕ → Manager → Manager
set_sequence_fileid seq m = record m { sequence_fileid = seq }

unfoldable pub get_sequence_fileid_for_stable_id : Manager → ℕ
get_sequence_fileid_for_stable_id m =
    if m.has_file then m.sequence_fileid else (m.sequence_fileid + 1) % 2 ^ 32

-- Bytes written at an offset: what lies around them stays, and a gap is filled with zeros.
unfoldable pub write_at : ℕ → List ℕ → List ℕ → List ℕ
write_at offset bytes file = resize offset file ++ (bytes ++ drop (offset + length bytes) file)

abbrev pub pwrite : ℕ → ℕ → List ℕ → Manager → Manager
pwrite fileid offset bytes m = record m {
  files = insert fileid (write_at offset bytes (file_of fileid m)) m.files;
}

abbrev pub truncate : ℕ → ℕ → Manager → Manager
truncate fileid size m = record m { files = insert fileid (resize size (file_of fileid m)) m.files }

-- `none` is a copy behind the end of the buffer, which C++ leaves undefined.
unfoldable pub copy_to_buffer : ℕ → List ℕ → Manager → Option Manager
unfolding write_at
copy_to_buffer offset bytes m =
    if ltb (length m.buffer_raw) (offset + length bytes)
    then none
    else some (record m { buffer_raw = write_at offset bytes m.buffer_raw })

infixl 5 ◌>>=◌
abbrev pub ◌>>=◌ : {A B : Type 0} → Option A → (A → Option B) → Option B
none >>= f = none
some a >>= f = f a
