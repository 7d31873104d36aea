-- ===== src/Node/Quiet.antt =====
-- The commands of Node.c on a node that no thread is inside.
use mimuw_pw_tasks.Prelude.{ℕ, ◌≡◌, refl, ap, ◌∙◌, Bool, false, none, some, ◌+◌, ◌==◌}
use mimuw_pw_tasks.Prelude.Ints.{increment}
use mimuw_pw_tasks.CString.{CString}
use mimuw_pw_tasks.HashMap.{HashMap, hmap_get, hmap_insert, hmap_size}
use mimuw_pw_tasks.Paths.{make_map_contents_string}
use mimuw_pw_tasks.SafeHashMap.{
  SafeHashMap, change_readers, change_writers, map_reader_preliminary_protocol,
  map_reader_final_protocol, map_writer_preliminary_protocol, map_writer_final_protocol,
}
use mimuw_pw_tasks.Store.{Ptr, null, Node, Heap, done, load, store, modify}
use mimuw_pw_tasks.Node.{
  node_reader_preliminary_protocol, node_reader_final_protocol, enter_map, leave_map, count_get,
  safe_hmap_get_child, safe_hmap_insert_child, safe_make_children_string, insert_child,
}
use mimuw_pw_tasks.Node.Writes.{put, eq_refl, put-put, put_again, eq_other}

-- a map that no thread is inside or waits for
unfoldable pub quiet_map : HashMap Ptr → Bool → SafeHashMap Ptr
quiet_map m change = record {
  map = m;
  readers_inside = 0;
  writers_inside = 0;
  readers_waiting = 0;
  writers_waiting = 0;
  change = change;
}

-- a node that no writer is inside and nobody waits for, with the counts of the readers inside, of the
-- threads below and of lookups
unfoldable pub quiet : Ptr → CString → HashMap Ptr → Bool → Bool → ℕ → ℕ → ℕ → Node
unfolding quiet_map
quiet parent name m change map_change readers threads gets = record {
  parent = parent;
  name = name;
  children = quiet_map m map_change;
  readers_inside = readers;
  writers_inside = 0;
  readers_waiting = 0;
  writers_waiting = 0;
  subtree_threads = threads;
  safe_hmap_get_count = gets;
  change = change;
  emergency_pass = false;
}

unfoldable pub counted : Node → Node
counted n = record n { safe_hmap_get_count = increment n.safe_hmap_get_count }

module _ (h : Heap) (p parent : Ptr) (name : CString) (m : HashMap Ptr) (b c : Bool) where
  pub enter_reader :
      (t g : ℕ)
      → h.node p ≡ some (quiet parent name m b c 0 t g)
      → node_reader_preliminary_protocol p h
        ≡ done false (put h p (quiet parent name m b c 1 (increment t) g))
  unfolding node_reader_preliminary_protocol quiet put
  enter_reader t g e =
      rw (e, load, store, modify, eq_refl p, load, eq_refl p) (ap (done false) (put-put h p _ _))

  pub leave_reader :
      (t g : ℕ)
      → h.node p ≡ some (quiet parent name m b c 1 t g)
      → node_reader_final_protocol p h
        ≡ done tt (put h p (quiet parent name m change_writers c 0 t g))
  unfolding node_reader_final_protocol quiet put
  leave_reader t g e = rw (e, modify, load, store) refl

  pub get_absent :
      (r t g : ℕ) (key : CString)
      → h.node p ≡ some (quiet parent name m b c r t g)
      → hmap_get m key ≡ none
      → safe_hmap_get_child p key h
        ≡ done null (put h p (quiet parent name m b change_writers r t g))
  unfolding safe_hmap_get_child enter_map leave_map quiet put map_reader_preliminary_protocol
      map_reader_final_protocol
  get_absent r t g key e miss =
      rw (e, load, store, modify, eq_refl p, load, miss, load, eq_refl p)
        (ap (done null) (put-put h p _ _))

  pub get_child :
      (r t g : ℕ) (key : CString) (child : Ptr) (n : Node)
      → h.node p ≡ some (quiet parent name m b c r t g)
      → hmap_get m key ≡ some child
      → (child == p) ≡ false
      → h.node child ≡ some n
      → safe_hmap_get_child p key h
        ≡ done child (put (put h child (counted n)) p (quiet parent name m b change_writers r t g))
  unfolding safe_hmap_get_child enter_map leave_map count_get counted quiet put
      map_reader_preliminary_protocol map_reader_final_protocol
  get_child r t g key child n e hit d f =
      rw
        (
          e,
          load,
          store,
          modify,
          eq_refl p,
          load,
          hit,
          load,
          d,
          f,
          load,
          eq_other p child d,
          eq_refl p,
        )
        (ap (done child) (put_again h p child _ _ _ d))

  pub list_children :
      (r t g : ℕ) (text : CString)
      → h.node p ≡ some (quiet parent name m b c r t g)
      → make_map_contents_string (hmap_size m + 1) m ≡ some text
      → safe_make_children_string p h
        ≡ done text (put h p (quiet parent name m b change_writers r t g))
  unfolding safe_make_children_string enter_map leave_map quiet put map_reader_preliminary_protocol
      map_reader_final_protocol
  list_children r t g text e made =
      rw (e, load, store, modify, eq_refl p, load, made, load, eq_refl p)
        (ap (done text) (put-put h p _ _))

  pub insert_quiet :
      (t g : ℕ) (key : CString) (child : Ptr)
      → h.node p ≡ some (quiet parent name m b c 1 t g)
      → safe_hmap_insert_child p key child h
        ≡ done
            ((hmap_insert m key (some child)).1)
            (put h p (quiet parent name (hmap_insert m key (some child)).0 b change_readers 1 t g))
  unfolding safe_hmap_insert_child insert_child enter_map leave_map quiet put
      map_writer_preliminary_protocol map_writer_final_protocol
  insert_quiet t g key child e =
      rw (e, load, store, modify, eq_refl p, load, eq_refl p)
        (ap (done ((hmap_insert m key (some child)).1))
          (put-put (put h p _) p _ _ ∙ put-put h p _ _))
