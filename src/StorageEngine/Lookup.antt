-- ===== src/StorageEngine/Lookup.antt =====
-- Which of the entries with the hash of a key GetWithIndex looks at.
use kingdb.Prelude.{
  ℕ, suc, ◌<◌, ◌≤◌, All, ◌==◌, ==_refl, ltb, ltb→lt, Bool-cases, inl, inr, ◌≡◌, refl, sym, ap, ◌∙◌,
  arith, Bool, true, false, List, [], ◌∷◌, ◌++◌, length, length-append, append_assoc, if◌then◌else◌,
}
use mathlib.Core.Path.{fun_ext}
use kingdb.Coding.{Platform}
use kingdb.Options.{DatabaseOptions, ReadOptions}
use kingdb.Reader.{Read, done, out_of_bounds}
use kingdb.Format.Checksums.{Checksums}
use kingdb.ResourceManager.{ResourceManager}
use kingdb.WriteBuffer.{same_bytes}
use kingdb.StorageEngine.{
  Answer, FoundEntry, not_found, try_entry, get_entry, look_back, look_in_range, get_with_index,
  with_hash, below_hash, multimap_insert, newest_first,
}

-- The keys do not fall.
abbrev pub IsSorted : List (ℕ × ℕ) → Type 0
IsSorted [] = Unit {0}
IsSorted ((j, w) ∷ m) = All (λ e. j ≤ e.0) m × IsSorted m

with_hash_above : (h j : ℕ) (m : List (ℕ × ℕ)) → h < j → All (λ e. j ≤ e.0) m → with_hash h m ≡ []
unfolding with_hash
with_hash_above h j [] l a = refl
with_hash_above h j ((i, w) ∷ m) l a = ground (arith, with_hash_above h j m l a.1, a.0)

distinct : (h j : ℕ) → ltb h j ≡ true → (j == h) ≡ false
distinct h j e = ground (arith, ltb→lt h j e)

append_if :
    (b : Bool) (e : ℕ × ℕ) (m n : List (ℕ × ℕ))
    → (if b then e ∷ (m ++ n) else m ++ n) ≡ (if b then e ∷ m else m) ++ n
append_if true e m n = refl
append_if false e m n = refl

-- An inserted pair is the last of those with its key.
with_hash-multimap_insert :
    (h l : ℕ) (m : List (ℕ × ℕ))
    → IsSorted m
    → with_hash h (multimap_insert (h, l) m) ≡ with_hash h m ++ ((h, l) ∷ [])
unfolding with_hash multimap_insert
with_hash-multimap_insert h l [] s = ground arith
with_hash-multimap_insert h l ((j, w) ∷ m) s = elim (Bool-cases (ltb h j)) [
  | inl lt ↦ rw (lt, ==_refl h, distinct h j lt, with_hash_above h j m (ltb→lt h j lt) s.0) refl
  | inr ge ↦ rw ge (
      ap (λ t. if j == h then (j, w) ∷ t else t) (with_hash-multimap_insert h l m s.1)
      ∙ append_if (j == h) (j, w) (with_hash h m) ((h, l) ∷ []))
]

length-newest_first : (m : List (ℕ × ℕ)) → length (newest_first m) ≡ length m
unfolding newest_first
length-newest_first [] = refl
length-newest_first (e ∷ m) =
    omega (arith, length-newest_first m, length-append (newest_first m) (e ∷ []))

newest_first-append :
    (m : List (ℕ × ℕ)) (e : ℕ × ℕ) → newest_first (m ++ (e ∷ [])) ≡ e ∷ newest_first m
unfolding newest_first
newest_first-append [] e = refl
newest_first-append (x ∷ m) e = ap (λ t. t ++ (x ∷ [])) (newest_first-append m e)

module _ (p : Platform) (cs : Checksums) (db_options : DatabaseOptions) (files : ℕ → List ℕ)
    (read_options : ReadOptions) where
  -- The first entry of a list that answers for a key.
  unfoldable pub first_answer :
      List ℕ → List (ℕ × ℕ) → ResourceManager → Read Answer × ResourceManager
  first_answer key [] rm = (not_found, rm)
  first_answer key ((hash, location) ∷ rest) rm =
      try_entry key location (get_entry p cs db_options files read_options location rm)
        (λ rm'. first_answer key rest rm')

  look_back-first_answer :
      (key : List ℕ) (x : ℕ × ℕ) (xs : List (ℕ × ℕ)) (first : ℕ × ℕ) (below : List (ℕ × ℕ))
      (rm : ResourceManager)
      → look_back p cs db_options files read_options key
          (suc (length xs))
          ((x ∷ xs) ++ (first ∷ below))
          rm
        ≡ first_answer key (x ∷ xs) rm
  unfolding look_back first_answer
  look_back-first_answer key (hash, location) [] first below rm = refl
  look_back-first_answer key (hash, location) (y ∷ ys) first below rm =
      ap (try_entry key location (get_entry p cs db_options files read_options location rm))
        (fun_ext (λ rm'. look_back-first_answer key y ys first below rm'))

  look_back_range :
      (key : List ℕ) (zs : List (ℕ × ℕ)) (first : ℕ × ℕ) (below : List (ℕ × ℕ))
      (rm : ResourceManager)
      → 0 < length zs
      → look_back p cs db_options files read_options key (length zs) (zs ++ (first ∷ below)) rm
        ≡ first_answer key zs rm
  look_back_range key [] first below rm h = absurd (omega arith)
  look_back_range key (x ∷ xs) first below rm h = look_back-first_answer key x xs first below rm

  -- Among two or more entries with the hash of the key, GetWithIndex answers from the newest that
  -- can be read and has the key, but never looks at the oldest.
  pub get_with_index-first_answer :
      (hash_function : List ℕ → ℕ) (index : List (ℕ × ℕ)) (key : List ℕ) (oldest : ℕ × ℕ)
      (newer : List (ℕ × ℕ)) (rm : ResourceManager)
      → with_hash (hash_function key) index ≡ oldest ∷ newer
      → 0 < length newer
      → get_with_index p cs db_options files read_options hash_function index key rm
        ≡ first_answer key (newest_first newer) rm
  unfolding get_with_index look_in_range newest_first
  get_with_index-first_answer hash_function index key oldest newer rm e more =
      let below = newest_first (below_hash (hash_function key) index) in
      rw e (
        ap (λ zs. look_back p cs db_options files read_options key (length newer) zs rm)
          (append_assoc (newest_first newer) (oldest ∷ []) below)
        ∙ ap
            (λ n.
              look_back p cs db_options files read_options key n
                (newest_first newer ++ (oldest ∷ below)) rm)
            (sym (length-newest_first newer))
        ∙ look_back_range key (newest_first newer) oldest below rm
            (omega (arith, length-newest_first newer)))

  -- Where one entry alone has the hash of the key and no hash in the index is smaller, GetWithIndex
  -- answers from it if it has the key; otherwise its iterator leaves the index.
  pub get_with_index_single :
      (hash_function : List ℕ → ℕ) (index : List (ℕ × ℕ)) (key : List ℕ) (hash location : ℕ)
      (rm : ResourceManager)
      → with_hash (hash_function key) index ≡ (hash, location) ∷ []
      → below_hash (hash_function key) index ≡ []
      → get_with_index p cs db_options files read_options hash_function index key rm
        ≡ try_entry key location
            (get_entry p cs db_options files read_options location rm)
            (λ rm'. (out_of_bounds, rm'))
  unfolding get_with_index look_in_range newest_first look_back
  get_with_index_single hash_function index key hash location rm e b = rw (e, b) refl

  -- The newest entry with the hash of a key answers for it, if it can be read and has the key.
  get_with_index_newest :
      (hash_function : List ℕ → ℕ) (index older : List (ℕ × ℕ)) (key : List ℕ) (hash location : ℕ)
      (rm : ResourceManager)
      → with_hash (hash_function key) index ≡ older ++ ((hash, location) ∷ [])
      → (steps : ℕ) × (below : List (ℕ × ℕ)) × (get_with_index p cs db_options files read_options
            hash_function index key rm
          ≡ look_back p cs db_options files read_options key steps ((hash, location) ∷ below) rm)
  unfolding get_with_index look_in_range
  get_with_index_newest hash_function index [] key hash location rm e =
      (0, newest_first (below_hash (hash_function key) index), rw e (unfold newest_first in refl))
  get_with_index_newest hash_function index (o ∷ os) key hash location rm e =
      let below = newest_first (below_hash (hash_function key) index) in
      (
        length (os ++ ((hash, location) ∷ [])),
        newest_first (o ∷ os) ++ below,
        rw e (
            ap
              (λ m.
                look_back p cs db_options files read_options key
                  (length (os ++ ((hash, location) ∷ []))) (m ++ below) rm)
              (newest_first-append (o ∷ os) (hash, location))),
      )

  -- The same, once the entry has been read.
  get_with_index_latest :
      (hash_function : List ℕ → ℕ) (index older : List (ℕ × ℕ)) (key : List ℕ) (hash location : ℕ)
      (rm rm' : ResourceManager) (entry : FoundEntry)
      → with_hash (hash_function key) index ≡ older ++ ((hash, location) ∷ [])
      → get_entry p cs db_options files read_options location rm ≡ (done entry, rm')
      → same_bytes entry.key key ≡ true
      → get_with_index p cs db_options files read_options hash_function index key rm
        ≡ (done (record { entry = entry; location = location }), rm')
  unfolding look_back try_entry
  get_with_index_latest hash_function index older key hash location rm rm' entry e r k =
      let (steps, below, g) =
        get_with_index_newest hash_function index older key hash location rm e in
      g ∙ rw (r, k) refl

  -- Once a location has been inserted for a key into a sorted index, GetWithIndex answers with the
  -- entry that is there, if it can be read and has the key: the last write of a key wins over its
  -- older entries, and over those of other keys with the same hash.
  pub get_with_index-multimap_insert :
      (hash_function : List ℕ → ℕ) (index : List (ℕ × ℕ)) (key : List ℕ) (location : ℕ)
      (rm rm' : ResourceManager) (entry : FoundEntry)
      → IsSorted index
      → get_entry p cs db_options files read_options location rm ≡ (done entry, rm')
      → same_bytes entry.key key ≡ true
      → get_with_index p cs db_options files read_options hash_function
          (multimap_insert (hash_function key, location) index)
          key
          rm
        ≡ (done (record { entry = entry; location = location }), rm')
  get_with_index-multimap_insert hash_function index key location rm rm' entry s r k =
      get_with_index_latest hash_function _ (with_hash (hash_function key) index) key
        (hash_function key) location rm rm' entry
        (with_hash-multimap_insert (hash_function key) location index s) r k
