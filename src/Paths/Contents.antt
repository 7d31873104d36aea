-- ===== src/Paths/Contents.antt =====
-- `make_map_contents_string`: the keys of a map, sorted, with commas between them.
use mimuw_pw_tasks.Prelude.{
  ℕ, ◌+◌, ◌^◌, ◌≤◌, ◌<◌, Ordering, ◌≡◌, ◌≢◌, ◌⊎◌, inl, inr, dec_lt, refl, sym, ap, ◌∙◌, Bool, true,
  false, ◌||◌, Option, some, List, [], ◌∷◌, ◌++◌, map, arith, ◌==◌, length, ==_iff,
}
use mimuw_pw_tasks.CString.{CString, strcmp, str_eq}
use mimuw_pw_tasks.CString.Laws.{str_eq_iff, eq_of_strcmp, strcmp_trans, strcmp-opposite}
use mimuw_pw_tasks.HashMap.{Pair, HashMap, find_pair, hmap_size}
use mimuw_pw_tasks.HashMap.Chain.{IsDistinct, value_of}
use mimuw_pw_tasks.HashMap.Buckets.{pairs, IsValid}
use mimuw_pw_tasks.HashMap.Methods.{found, hmap_get_lem}
use mimuw_pw_tasks.HashMap.Flat.{pairs-IsDistinct, find_pair-pairs}
use mimuw_pw_tasks.HashMap.Iterator.{visit-pairs}
use mimuw_pw_tasks.HashMap.Laws.{Models}
use mimuw_pw_tasks.Paths.{
  insert_sorted, sort_strings, make_map_contents_array, write_keys, drop_last, contents_size,
  contents_string, make_map_contents_string,
}
use mimuw_pw_tasks.Paths.Names.{All}
use mathlib.Core.List.{append-nil}

abbrev pub contains : CString → List CString → Bool
contains q [] = false
contains q (k ∷ ks) = str_eq q k || contains q ks

-- each string comes before all that follow it, by `strcmp`
abbrev pub IsAscending : List CString → Type 0
IsAscending [] = Unit
IsAscending (k ∷ ks) = All (λ j. strcmp k j ≡ Ordering.lt) ks × IsAscending ks

abbrev pub AreDistinct : List CString → Type 0
AreDistinct [] = Unit
AreDistinct (k ∷ ks) = (contains k ks ≡ false) × AreDistinct ks

-- the strings with commas between them
abbrev pub join : List CString → CString
join [] = []
join (k ∷ []) = k
join (k ∷ j ∷ ks) = k ++ b',' ∷ join (j ∷ ks)

-- the bytes that the strings take, each with one more
abbrev pub room : List CString → ℕ
room [] = 0
room (k ∷ ks) = length k + 1 + room ks

contains-insert_sorted :
    (q k : CString) (ks : List CString)
    → contains q (insert_sorted k ks) ≡ str_eq q k || contains q ks
unfolding insert_sorted
contains-insert_sorted q k [] = refl
contains-insert_sorted q k (j ∷ ks) = ground (arith, contains-insert_sorted q k ks)

contains-sort_strings :
    (q : CString) (ks : List CString) → contains q (sort_strings ks) ≡ contains q ks
unfolding sort_strings
contains-sort_strings q [] = refl
contains-sort_strings q (k ∷ ks) =
    contains-insert_sorted q k (sort_strings ks)
    ∙ ap (λ b. str_eq q k || b) (contains-sort_strings q ks)

room-insert_sorted : (k : CString) (ks : List CString) → room (insert_sorted k ks) ≡ room (k ∷ ks)
unfolding insert_sorted
room-insert_sorted k [] = refl
room-insert_sorted k (j ∷ ks) = ground (arith, room-insert_sorted k ks)

room-sort_strings : (ks : List CString) → room (sort_strings ks) ≡ room ks
unfolding sort_strings
room-sort_strings [] = refl
room-sort_strings (k ∷ ks) =
    omega (arith, room-insert_sorted k (sort_strings ks), room-sort_strings ks)

All-insert_sorted {ℓ} :
    (P : CString → Type ℓ) (k : CString) (ks : List CString)
    → P k
    → All P ks
    → All P (insert_sorted k ks)
unfolding insert_sorted
All-insert_sorted P k [] p h = (p, tt)
All-insert_sorted P k (j ∷ ks) p h = go (strcmp k j) (All-insert_sorted P k ks p h.1)
  where
    go :
        (o : Ordering)
        → All P (insert_sorted k ks)
        → All P (elim o [ Ordering.gt ↦ j ∷ insert_sorted k ks | _ ↦ k ∷ j ∷ ks ])
    go Ordering.lt rest = (p, h)
    go Ordering.eq rest = (p, h)
    go Ordering.gt rest = (h.0, rest)

All-before :
    (k j : CString) (ks : List CString)
    → strcmp k j ≡ Ordering.lt
    → All (λ i. strcmp j i ≡ Ordering.lt) ks
    → All (λ i. strcmp k i ≡ Ordering.lt) ks
All-before k j [] h a = tt
All-before k j (i ∷ ks) h a = (strcmp_trans k j i h a.0, All-before k j ks h a.1)

insert_sorted-IsAscending :
    (k : CString) (ks : List CString)
    → IsAscending ks
    → contains k ks ≡ false
    → IsAscending (insert_sorted k ks)
unfolding insert_sorted
insert_sorted-IsAscending k [] a n = (tt, tt)
insert_sorted-IsAscending k (j ∷ ks) a n =
    go (strcmp k j) refl (insert_sorted-IsAscending k ks a.1 (ground arith))
  where
    go :
        (o : Ordering)
        → strcmp k j ≡ o
        → IsAscending (insert_sorted k ks)
        → IsAscending (elim o [ Ordering.gt ↦ j ∷ insert_sorted k ks | _ ↦ k ∷ j ∷ ks ])
    go Ordering.lt e rest = ((e, All-before k j ks e a.0), a)
    go Ordering.eq e rest = absurd (ground (arith, str_eq_iff k j, eq_of_strcmp k j e))
    go Ordering.gt e rest = (
      All-insert_sorted (λ i. strcmp j i ≡ Ordering.lt) k ks (ground (arith, strcmp-opposite k j))
          a.0,
      rest,
    )

sort_strings-IsAscending : (ks : List CString) → AreDistinct ks → IsAscending (sort_strings ks)
unfolding sort_strings
sort_strings-IsAscending [] d = tt
sort_strings-IsAscending (k ∷ ks) d =
    insert_sorted-IsAscending k (sort_strings ks) (sort_strings-IsAscending ks d.1)
      (contains-sort_strings k ks ∙ d.0)

-- each string with a comma behind it
abbrev commas : List CString → CString
commas [] = []
commas (k ∷ ks) = k ++ b',' ∷ commas ks

write_keys-commas :
    (size position : ℕ) (ks : List CString)
    → position + room ks ≤ size
    → write_keys size position ks ≡ some (commas ks)
unfolding write_keys
write_keys-commas size position [] h = refl
write_keys-commas size position (k ∷ ks) h =
    ground (arith, write_keys-commas size (position + length k + 1) ks)

drop_last-append :
    (a : CString) (x : ℕ) (s : CString) → drop_last (a ++ x ∷ s) ≡ a ++ drop_last (x ∷ s)
unfolding drop_last
drop_last-append [] x s = refl
drop_last-append (y ∷ []) x s = refl
drop_last-append (y ∷ z ∷ a) x s = ap (λ t. y ∷ t) (drop_last-append (z ∷ a) x s)

drop_last-cons : (x : ℕ) (s : CString) → s ≢ [] → drop_last (x ∷ s) ≡ x ∷ drop_last s
unfolding drop_last
drop_last-cons x [] h = absurd (h refl)
drop_last-cons x (y ∷ s) h = refl

commas-ne-nil : (k : CString) (ks : List CString) → commas (k ∷ ks) ≢ []
commas-ne-nil [] ks = λ e. cc
commas-ne-nil (x ∷ k) ks = λ e. cc

drop_last-commas : (k : CString) (ks : List CString) → drop_last (commas (k ∷ ks)) ≡ join (k ∷ ks)
drop_last-commas k [] = drop_last-append k b',' [] ∙ (unfold drop_last in append-nil k)
drop_last-commas k (j ∷ ks) =
    drop_last-append k b',' (commas (j ∷ ks))
    ∙ ap (λ t. k ++ t)
        (drop_last-cons b',' (commas (j ∷ ks)) (commas-ne-nil j ks)
          ∙ ap (λ t. b',' ∷ t) (drop_last-commas j ks))

contents_size_lem : (ks : List CString) → room ks < 2 ^ 32 → contents_size ks ≡ room ks
unfolding contents_size
contents_size_lem [] h = refl
contents_size_lem (k ∷ ks) h = omega (arith, contents_size_lem ks (omega arith))

contents_string-join : (ks : List CString) → room ks < 2 ^ 32 → contents_string ks ≡ some (join ks)
unfolding contents_string
contents_string-join [] h = refl
contents_string-join (k ∷ ks) h =
    let s = contents_size_lem (k ∷ ks) h in
    let w = write_keys-commas (room (k ∷ ks)) 0 (k ∷ ks) (omega arith) in
    ground (arith, s, w, drop_last-commas k ks)

module _ {ℓ} {V : Type ℓ} where
  -- the keys of a map in the order of its buckets
  abbrev pub keys_of : List (Pair V) → List CString
  keys_of ps = map (λ (p : Pair V). p.key) ps

  contains-keys_of :
      (q : CString) (ps : List (Pair V))
      → contains q (keys_of ps) ≡ found (value_of (find_pair ps q))
  unfolding find_pair
  contains-keys_of q [] = refl
  contains-keys_of q (p ∷ ps) = ground (arith, contains-keys_of q ps)

  keys_of-AreDistinct : (ps : List (Pair V)) → IsDistinct ps → AreDistinct (keys_of ps)
  keys_of-AreDistinct [] d = tt
  keys_of-AreDistinct (p ∷ ps) d =
      (contains-keys_of p.key ps ∙ ap (λ o. found (value_of o)) d.0, keys_of-AreDistinct ps d.1)

  pub length-le-room : (ps : List (Pair V)) → length ps ≤ room (keys_of ps)
  length-le-room [] = omega arith
  length-le-room (p ∷ ps) = omega (arith, length-le-room ps)

  make_map_contents_array-pairs :
      (m : HashMap V) (fuel : ℕ)
      → IsValid m
      → length (pairs m) < fuel
      → room (keys_of (pairs m)) < 2 ^ 32
      → make_map_contents_array fuel m ≡ some (sort_strings (keys_of (pairs m)))
  unfolding make_map_contents_array hmap_size
  make_map_contents_array-pairs m fuel v enough small =
      let count : (length (pairs m) == m.size) ≡ true =
        (==_iff _ _).1 (omega (arith, v.counted, length-le-room (pairs m))) in
      rw (visit-pairs m v.width fuel enough, make_map_contents_array, count)

  -- the keys in the order of `strcmp`, each once
  pub sorted_keys-Models :
      (f : CString → Option V) (m : HashMap V)
      → Models f m
      → IsAscending (sort_strings (keys_of (pairs m)))
        × ((q : CString) → contains q (sort_strings (keys_of (pairs m))) ≡ found (f q))
  sorted_keys-Models f m h =
      let ks = keys_of (pairs m) in
      (
        sort_strings-IsAscending ks (keys_of-AreDistinct (pairs m) (pairs-IsDistinct m h.valid)),
        λ q.
            contains-sort_strings q ks
            ∙ contains-keys_of q (pairs m)
            ∙ ap (λ o. found (value_of o)) (find_pair-pairs m h.valid q)
            ∙ ap found (sym (hmap_get_lem m q) ∙ h.reads q),
      )

  -- On a well-formed map whose keys with their commas take less than 2 ^ 32 bytes,
  -- `make_map_contents_string` ends, stays within its buffers, and returns the keys joined by
  -- commas, each once and in the order of `strcmp`. With the partial function that the map holds
  -- the keys, and so the string, are given.
  pub make_map_contents_string-Models :
      (f : CString → Option V) (m : HashMap V) (fuel : ℕ)
      → Models f m
      → length (pairs m) < fuel
      → room (keys_of (pairs m)) < 2 ^ 32
      → (ks : List CString) × (make_map_contents_string fuel m ≡ some (join ks))
        × IsAscending ks
        × ((q : CString) → contains q ks ≡ found (f q))
  unfolding make_map_contents_string
  make_map_contents_string-Models f m fuel h enough small =
      let ks = keys_of (pairs m) in
      (
        sort_strings ks,
        rw (make_map_contents_array-pairs m fuel h.valid enough small, make_map_contents_string)
            (contents_string-join (sort_strings ks) (omega (arith, room-sort_strings ks))),
        (sorted_keys-Models f m h).0,
        (sorted_keys-Models f m h).1,
      )

  -- the same for the map's own size, where the keys may take more room
  pub make_map_contents_string-cases :
      (f : CString → Option V) (m : HashMap V)
      → Models f m
      → (ks : List CString) × IsAscending ks
        × ((q : CString) → contains q ks ≡ found (f q))
        × ((make_map_contents_string (hmap_size m + 1) m ≡ some (join ks)) ⊎ (2 ^ 32 ≤ room ks))
  make_map_contents_string-cases f m h = elim (dec_lt (room (keys_of (pairs m))) (2 ^ 32)) [
    | yes small ↦
        let enough : length (pairs m) < hmap_size m + 1 =
          unfold hmap_size in omega (arith, h.valid.counted, length-le-room (pairs m)) in
        let (ks, made, up, all) =
          make_map_contents_string-Models f m (hmap_size m + 1) h enough small in
        (ks, up, all, inl made)
    | no large ↦
        let (up, all) = sorted_keys-Models f m h in
        (
          sort_strings (keys_of (pairs m)),
          up,
          all,
          inr (omega (arith, room-sort_strings (keys_of (pairs m)))),
        )
  ]
