-- ===== src/SafeHashMap/Sequential.antt =====
-- The calls on a SafeHashMap as they take effect, one after another, on a partial function from keys
-- to values.
use mimuw_pw_tasks.Prelude.{
  ℕ, zero, suc, ◌%◌, ◌≡◌, refl, sym, ap, ◌∙◌, true, not, Option, none, some, List, [], ◌∷◌, arith,
  length, if◌then◌else◌, replicate, ◌≢◌, ◌<◌, ◌≤◌, ◌⊎◌, ◌^◌, inl, inr, get_elem?, set, set_cases,
  Bool-cases,
}
use mimuw_pw_tasks.SafeHashMap.Safety.{mutual_exclusion}
use mathlib.Core.Path.{subst}
use mimuw_pw_tasks.CString.{CString}
use mimuw_pw_tasks.HashMap.{Pair, HashMap, size_mod, find_pair}
use mimuw_pw_tasks.HashMap.Chain.{IsDistinct, value_of}
use mimuw_pw_tasks.HashMap.Methods.{found, first}
use mimuw_pw_tasks.HashMap.Buckets.{pairs}
use mimuw_pw_tasks.HashMap.Laws.{
  Models, update, hmap_new-Models, hmap_insert-Models, hmap_remove-Models, visit-Models,
}
use mimuw_pw_tasks.Paths.Contents.{
  IsAscending, contains, join, room, make_map_contents_string-cases,
}
use mimuw_pw_tasks.SafeHashMap.{
  SafeHashMap, Signal, safe_hmap_new, Request, safe_hmap_get, safe_hmap_insert, safe_hmap_remove,
  safe_hmap_size, safe_make_map_contents_string, Answer, value, success, number, text, perform,
  is_writer, preliminary_protocol, after_wait, final_protocol, map_reader_preliminary_protocol,
  map_reader_after_wait, map_reader_final_protocol, map_writer_preliminary_protocol,
  map_writer_after_wait, map_writer_final_protocol,
}
use mimuw_pw_tasks.SafeHashMap.Threads.{
  Pc, idle, blocked, woken, inside, working, finished, Wakes, one, none_blocked, System, Step,
  arrive_waiting, arrive_entering, wake, wait_again, enter_late, load, store, leave, Reach, begin,
  next,
}

module _ {ℓ} {V : Type ℓ} where
  -- what a call does to the partial function
  abbrev pub effect : (CString → Option V) → Request V → CString → Option V
  effect f (safe_hmap_get k) = f
  effect f (safe_hmap_insert k v) = update f k (first (f k) (some v))
  effect f (safe_hmap_remove k) = update f k none
  effect f safe_hmap_size = f
  effect f safe_make_map_contents_string = f

  -- The answers that the partial function allows. The text is the keys in the order of `strcmp`, joined
  -- by commas, unless they take 2 ^ 32 bytes or more with one more for each.
  abbrev pub Answers : (CString → Option V) → Request V → Answer V → Type ℓ
  Answers f (safe_hmap_get k) a = a ≡ value (f k)
  Answers f (safe_hmap_insert k v) a = a ≡ success (not (found (f k)))
  Answers f (safe_hmap_remove k) a = a ≡ success (found (f k))
  Answers f safe_hmap_size a =
      (ps : List (Pair V)) × IsDistinct ps
      × ((q : CString) → value_of (find_pair ps q) ≡ f q)
      × (a ≡ number (length ps % size_mod))
  Answers f safe_make_map_contents_string a =
      (ks : List CString) × IsAscending ks
      × ((q : CString) → contains q ks ≡ found (f q))
      × ((a ≡ text (some (join ks))) ⊎ (2 ^ 32 ≤ room ks))

  -- the partial function behind a log, whose last call stands first
  abbrev pub after_log : List (Request V × Answer V) → CString → Option V
  after_log [] = λ _. none
  after_log ((r, a) ∷ log) = effect (after_log log) r

  abbrev pub IsSequential : List (Request V × Answer V) → Type ℓ
  IsSequential [] = Unit
  IsSequential ((r, a) ∷ log) = Answers (after_log log) r a × IsSequential log

  pub perform-Models :
      (f : CString → Option V) (m : HashMap V) (r : Request V)
      → Models f m
      → Answers f r (perform m r).1 × Models (effect f r) (perform m r).0
  unfolding perform
  perform-Models f m (safe_hmap_get k) h = (ap value (h.reads k), h)
  perform-Models f m (safe_hmap_insert k v) h =
      let (b, g) = hmap_insert-Models f m k (some v) h in (ap success b, g)
  perform-Models f m (safe_hmap_remove k) h =
      let (b, g) = hmap_remove-Models f m k h in (ap success b, g)
  perform-Models f m safe_hmap_size h =
      let (ps, v, d, reads, count) = visit-Models f m (suc (length (pairs m))) h (omega arith) in
      ((ps, d, reads, ap number count), h)
  perform-Models f m safe_make_map_contents_string h =
      let (ks, up, all, made) = make_map_contents_string-cases f m h in
      ((ks, up, all, elim made [ inl e ↦ inl (ap text e) | inr large ↦ inr large ]), h)

  -- the protocols leave the map alone
  preliminary_protocol-map :
      (r : Request V) (m : SafeHashMap V) → (preliminary_protocol r m).0.map ≡ m.map
  unfolding map_reader_preliminary_protocol map_writer_preliminary_protocol
  preliminary_protocol-map r m = ground arith

  after_wait-map : (r : Request V) (m : SafeHashMap V) → (after_wait r m).0.map ≡ m.map
  unfolding map_reader_after_wait map_writer_after_wait
  after_wait-map r m = ground arith

  final_protocol-map : (r : Request V) (m : SafeHashMap V) → (final_protocol r m).0.map ≡ m.map
  unfolding map_reader_final_protocol map_writer_final_protocol
  final_protocol-map r m = ground arith

  replicate-idle : (n i : ℕ) (p : Pc V) → get_elem? (replicate n idle) i ≡ some p → p ≡ idle
  replicate-idle zero i p h = cc
  replicate-idle (suc n) zero p h = cc
  replicate-idle (suc n) (suc i) p h = replicate-idle n i p h

  -- A state that its log explains, where no thread works on an old map.
  pub record IsExplained (s : System V) : Type ℓ where
    pub models : Models (after_log s.log) s.shared.map
    pub sequential : IsSequential s.log
    pub fresh :
        (i : ℕ) (r : Request V) (seen : HashMap V)
        → get_elem? s.pcs i ≡ some (working r seen)
        → seen ≡ s.shared.map

  -- a thread that works after a step worked before it
  abbrev Working : List (Pc V) → List (Pc V) → Type ℓ
  Working ps qs =
      (i : ℕ) (r : Request V) (seen : HashMap V)
      → get_elem? qs i ≡ some (working r seen)
      → get_elem? ps i ≡ some (working r seen)

  set-Working :
      (ps : List (Pc V)) (i : ℕ) (p : Pc V)
      → ((r : Request V) (seen : HashMap V) → working r seen ≢ p)
      → Working ps (set ps i p)
  set-Working ps i p n j r seen h = elim (set_cases ps i j p (working r seen) h) [
    | inl e ↦ absurd (n r seen e)
    | inr (_, e) ↦ e
  ]

  Wakes-Working : {sig : Signal} {ps qs : List (Pc V)} → Wakes sig ps qs → Working ps qs
  Wakes-Working {ps} (one i r h on) = set-Working ps i (woken r) (λ q m. cc)
  Wakes-Working (none_blocked h) = λ j r seen e. e

  -- a step that leaves the map and the log alone
  kept :
      {s : System V} (m : SafeHashMap V) (qs : List (Pc V))
      → IsExplained s
      → m.map ≡ s.shared.map
      → Working s.pcs qs
      → IsExplained (record s { shared = m; pcs = qs })
  kept {s} m qs g e w = record {
    models = subst (Models (after_log s.log)) (sym e) g.models;
    sequential = g.sequential;
    fresh = λ i r seen h. g.fresh i r seen (w i r seen h) ∙ sym e;
  }

  -- While a writer works, no other thread does.
  alone :
      {n : ℕ} {s : System V} (i j : ℕ) (r q : Request V) (seen other : HashMap V) (a : Answer V)
      → n < 2 ^ 31
      → Reach n s
      → get_elem? s.pcs i ≡ some (working r seen)
      → is_writer r ≡ true
      → get_elem? (set s.pcs i (finished r a)) j ≡ some (working q other)
      → ⊥
  alone {s} i j r q seen other a few reach h writes k =
      elim (set_cases s.pcs i j (finished r a) (working q other) k) [
        | inl e ↦ cc
        | inr (d, e) ↦ d (
            mutual_exclusion i j (working r seen) (working q other) r q few reach h e refl refl
              writes)
      ]

  -- a call on a map and its answer, as the log will have them
  performed :
      (f : CString → Option V) (map m : HashMap V) (r : Request V) (a : Answer V)
      → Models f map
      → perform map r ≡ (m, a)
      → Answers f r a × Models (effect f r) (if is_writer r then m else map)
  performed f map m r a g e =
      let (answers, models) = perform-Models f map r g in
      (
        subst (Answers f r) (ap (λ x. x.1) e) answers,
        by_kind r (subst (Models (effect f r)) (ap (λ x. x.0) e) models),
      )
    where
      by_kind :
          (r : Request V)
          → Models (effect f r) m
          → Models (effect f r) (if is_writer r then m else map)
      by_kind (safe_hmap_get k) h = g
      by_kind (safe_hmap_insert k v) h = h
      by_kind (safe_hmap_remove k) h = h
      by_kind safe_hmap_size h = g
      by_kind safe_make_map_contents_string h = g

  Step-IsExplained :
      {n : ℕ} {s t : System V} → n < 2 ^ 31 → Reach n s → Step s t → IsExplained s → IsExplained t
  Step-IsExplained {s} few reach (arrive_waiting i r {m} h e) g =
      kept m _ g (ap (λ x. x.0.map) (sym e) ∙ preliminary_protocol-map r s.shared)
        (set-Working s.pcs i (blocked r) (λ q x. cc))
  Step-IsExplained {s} few reach (arrive_entering i r {m} h e w) g =
      kept m _ g (ap (λ x. x.0.map) (sym e) ∙ preliminary_protocol-map r s.shared)
        (λ j q x k. set-Working s.pcs i (inside r) (λ q x. cc) j q x (Wakes-Working w j q x k))
  Step-IsExplained {s} few reach (wake i r h) g =
      kept s.shared _ g refl (set-Working s.pcs i (woken r) (λ q x. cc))
  Step-IsExplained {s} few reach (wait_again i r {m} h e) g =
      kept m _ g (ap (λ x. x.0.map) (sym e) ∙ after_wait-map r s.shared)
        (set-Working s.pcs i (blocked r) (λ q x. cc))
  Step-IsExplained {s} few reach (enter_late i r {m} h e w) g =
      kept m _ g (ap (λ x. x.0.map) (sym e) ∙ after_wait-map r s.shared)
        (λ j q x k. set-Working s.pcs i (inside r) (λ q x. cc) j q x (Wakes-Working w j q x k))
  Step-IsExplained {s} few reach (load i r h) g = record {
    models = g.models;
    sequential = g.sequential;
    fresh = λ j q seen k. elim (set_cases s.pcs i j (working r s.shared.map) (working q seen) k) [
      | inl e ↦ cc
      | inr (_, e) ↦ g.fresh j q seen e
    ];
  }
  Step-IsExplained {s} few reach (store i r seen {m} {a} h e) g =
      let same = g.fresh i r seen h in
      let (answers, models) =
        performed (after_log s.log) s.shared.map m r a g.models
          (subst (λ x. perform x r ≡ (m, a)) same e) in
      record {
        models = models;
        sequential = (answers, g.sequential);
        fresh = λ j q x k. elim (Bool-cases (is_writer r)) [
          | inl writes ↦ absurd (alone i j r q seen x a few reach h writes k)
          | inr reads ↦
              rw reads (g.fresh j q x (set-Working s.pcs i (finished r a) (λ q x. cc) j q x k))
        ];
      }
  Step-IsExplained {s} few reach (leave i r a {m} h e w) g =
      kept m _ g (ap (λ x. x.0.map) (sym e) ∙ final_protocol-map r s.shared)
        (λ j q x k. set-Working s.pcs i idle (λ q x. cc) j q x (Wakes-Working w j q x k))

  -- However fewer than 2 ^ 31 threads are interleaved, the calls on the map have the answers that
  -- they would have one after another, in the order in which they were written, on a partial
  -- function from keys to values that is empty at first: the text of the keys is those of the function,
  -- in ascending order and joined by commas, unless they take 2 ^ 32 bytes or more. The map is well formed
  -- and holds that function; and no thread works on a map that has changed since it read it.
  pub Reach-IsExplained : {n : ℕ} {s : System V} → n < 2 ^ 31 → Reach n s → IsExplained s
  unfolding safe_hmap_new
  Reach-IsExplained {n} few begin = record {
    models = hmap_new-Models;
    sequential = tt;
    fresh = λ i r seen h. cc (replicate-idle n i (working r seen) h);
  }
  Reach-IsExplained few (next r st) = Step-IsExplained few r st (Reach-IsExplained few r)
