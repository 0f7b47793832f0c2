-- ===== src/WriteBuffer/ReadBack.antt =====
-- What a writer reads back.
use kingdb.Prelude.{
  ℕ, ◌≡◌, refl, sym, ap, ◌∙◌, true, false, not, none, some, List, [], ◌∷◌, ◌++◌, ==_refl,
  append_assoc,
}
use kingdb.Status.{status_ok, status_delete_order}
use kingdb.Options.{DatabaseOptions}
use kingdb.Order.{Order, put, delete, is_first_part, is_last_part, is_self_contained}
use kingdb.WriteBuffer.{
  WriteBuffer, value_of, buffer_live, buffer_copy, same_bytes, answer_copy, get, delete_key,
}
use kingdb.WriteBuffer.Lookup.{last_order, last_order-append, get-last_order}
use kingdb.WriteBuffer.Queue.{accept, written, written_buffers, written_open}

same_bytes_refl : (key : List ℕ) → same_bytes key key ≡ true
unfolding same_bytes
same_bytes_refl [] = refl
same_bytes_refl (b ∷ bs) = rw (==_refl b) (same_bytes_refl bs)

last_order_new :
    (copy live : List Order) (o : Order) → last_order o.key (copy ++ (live ++ (o ∷ []))) ≡ some o
last_order_new copy live o =
    ap (last_order o.key) (sym (append_assoc copy live (o ∷ [])))
    ∙ last_order-append o.key (copy ++ live) (o ∷ [])
    ∙ unfold last_order in rw (same_bytes_refl o.key) refl

get-written :
    (db_options : DatabaseOptions) (o : Order) (w : WriteBuffer)
    → w.stop_requested ≡ false
    → w.im_copy ≡ not w.im_live
    → get o.key (written db_options o w) ≡ answer_copy (some (accept db_options o))
get-written db_options o w h e =
    let (l, c, live, copy, size) = written_buffers db_options o w h e in
    get-last_order o.key (written db_options o w) (written_open db_options o w h)
    ∙ ap answer_copy (
        ap (last_order o.key) (
          ap (λ os. os ++ buffer_live (written db_options o w)) copy
          ∙ ap (λ os. buffer_copy w ++ os) live)
        ∙ last_order_new (buffer_copy w) (buffer_live w) (accept db_options o))

-- Once PutPart has accepted a whole value, a Get of its key returns it; once Delete has accepted a
-- key, a Get of the key returns the status of a delete, so that the storage engine is not asked.
pub get-put_or_delete :
    (db_options : DatabaseOptions) (o : Order) (w : WriteBuffer)
    → w.stop_requested ≡ false
    → w.im_copy ≡ not w.im_live
    → (o.type ≡ put
        → is_self_contained o ≡ true
        → get o.key (written db_options o w) ≡ (status_ok, some (value_of o)))
      × (get o.key (delete_key db_options o.tid o.write_options o.key w).1
          ≡ (status_delete_order, none))
unfolding delete_key
get-put_or_delete db_options o w h e = (
  (λ t c.
      get-written db_options o w h e
      ∙ (unfold answer_copy is_self_contained is_first_part is_last_part in rw (t, c) refl)),
  get-written db_options
        (record o {
          type = delete;
          chunk = [];
          offset_chunk = 0;
          size_value = 0;
          size_value_compressed = 0;
          crc32 = 0;
        })
        w h e
      ∙ (unfold answer_copy in refl),
)
