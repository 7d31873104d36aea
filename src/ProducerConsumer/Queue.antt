-- ===== src/ProducerConsumer/Queue.antt =====
-- The circular buffer and the queue that it holds.
use mimuw_pw_tasks.Prelude.{
  ℕ, zero, suc, ◌+◌, ◌-◌, ◌%◌, ◌≤◌, ◌<◌, ◌≡◌, ◌≢◌, ◌⊎◌, inl, inr, refl, sym, ap, ◌∙◌, none, some,
  List, [], ◌∷◌, ◌++◌, arith, ◌==◌, Bool-cases, length, get_or, set, length-set,
}
use mimuw_pw_tasks.HashMap.Buckets.{get_or-set_self, get_or-set_ne}
use mimuw_pw_tasks.ProducerConsumer.{
  buffer_size, Prodcons, init, advance, notempty, notfull, put, get,
}

-- the items at `count` positions from `pos` on
unfoldable pub items : ℕ → ℕ → List ℕ → List ℕ
items zero pos buffer = []
items (suc count) pos buffer = get_or buffer pos 0 ∷ items count (advance pos) buffer

abbrev pub used : Prodcons → ℕ
used b = (b.writepos + buffer_size - b.readpos) % buffer_size

-- the queue, its oldest item first
abbrev pub contents : Prodcons → List ℕ
contents b = items (used b) b.readpos b.buffer

pub record IsValid (b : Prodcons) : Type 0 where
  pub size : length b.buffer ≡ buffer_size
  pub read_in : b.readpos < buffer_size
  pub write_in : b.writepos < buffer_size

pub length-items : (count pos : ℕ) (buffer : List ℕ) → length (items count pos buffer) ≡ count
unfolding items
length-items zero pos buffer = refl
length-items (suc count) pos buffer = ap suc (length-items count (advance pos) buffer)

-- a write `ahead` positions on is not among the items before
items-set :
    (count ahead pos w v : ℕ) (buffer : List ℕ)
    → pos < buffer_size
    → count ≤ ahead
    → ahead < buffer_size
    → w ≡ (pos + ahead) % buffer_size
    → items count pos (set buffer w v) ≡ items count pos buffer
unfolding items
items-set zero ahead pos w v buffer p c a e = refl
items-set (suc count) ahead pos w v buffer p c a e =
    let other : w ≢ pos = omega arith in
    let head = get_or-set_ne buffer w pos v 0 other in
    let tail =
      items-set count (ahead - 1) (advance pos) w v buffer (ground arith) (omega arith)
        (omega arith) (ground arith) in
    λ i. head i ∷ tail i

items-snoc :
    (count pos : ℕ) (buffer : List ℕ)
    → pos < buffer_size
    → items (suc count) pos buffer
      ≡ items count pos buffer ++ get_or buffer ((pos + count) % buffer_size) 0 ∷ []
unfolding items
items-snoc zero pos buffer p =
    let e : pos ≡ (pos + 0) % buffer_size = omega arith in ap (λ j. get_or buffer j 0 ∷ []) e
items-snoc (suc count) pos buffer p =
    let e : (advance pos + count) % buffer_size ≡ (pos + suc count) % buffer_size = ground arith in
    ap (λ l. get_or buffer pos 0 ∷ l)
      (items-snoc count (advance pos) buffer (ground arith)
        ∙ ap (λ j. items count (advance pos) buffer ++ get_or buffer j 0 ∷ []) e)

pub init-IsValid : IsValid init
unfolding init
init-IsValid = omega arith

pub init-empty : contents init ≡ []
unfolding init items
init-empty = refl

module _ (b : Prodcons) (v : IsValid b) where
  -- the buffer after a `put` that does not wait
  abbrev stored : ℕ → Prodcons
  stored item = record b { buffer = set b.buffer b.writepos item; writepos = advance b.writepos }

  contents-stored : (item : ℕ) → used b < 15 → contents (stored item) ≡ contents b ++ item ∷ []
  contents-stored item free =
      let grown : used (stored item) ≡ suc (used b) = ground (arith, v.read_in, v.write_in) in
      let at : (b.readpos + used b) % buffer_size ≡ b.writepos =
        ground (arith, v.read_in, v.write_in) in
      let written =
        get_or-set_self b.buffer b.writepos item 0 (omega (arith, v.size, v.write_in)) in
      let before =
        items-set (used b) (used b) b.readpos b.writepos item b.buffer v.read_in (omega arith)
          (omega arith) (sym at) in
      rw (
        grown,
        items-snoc (used b) b.readpos (set b.buffer b.writepos item) v.read_in,
        at,
        written,
        before,
      )

  -- `put` waits exactly when fifteen items are in the buffer; otherwise it adds its item behind the
  -- others, signals `notempty`, and the buffer stays well formed.
  pub put-queue :
      (item : ℕ)
      → ((put b item ≡ none) × (length (contents b) ≡ 15))
        ⊎ ((b' : Prodcons) × (put b item ≡ some (b', notempty))
            × (length (contents b) < 15)
            × (contents b' ≡ contents b ++ item ∷ [])
            × IsValid b')
  unfolding put
  put-queue item = elim (Bool-cases ((b.writepos + 1) % buffer_size == b.readpos)) [
    | inl full ↦
        inl (
          rw full,
          length-items (used b) b.readpos b.buffer ∙ ground (arith, v.read_in, v.write_in),
        )
    | inr free ↦
        let few : used b < 15 = ground (arith, v.read_in, v.write_in) in
        inr (
          stored item,
          rw free,
          omega (arith, length-items (used b) b.readpos b.buffer),
          contents-stored item few,
          record {
            size = length-set b.buffer b.writepos item ∙ v.size;
            read_in = v.read_in;
            write_in = ground (arith, v.write_in);
          },
        )
  ]

  -- `get` waits exactly when the buffer is empty; otherwise it takes away the oldest item and
  -- returns it, signals `notfull`, and the buffer stays well formed.
  pub get-queue :
      ((get b ≡ none) × (contents b ≡ []))
      ⊎ ((item : ℕ) × (b' : Prodcons) × (get b ≡ some (item, b', notfull))
          × (contents b ≡ item ∷ contents b')
          × IsValid b')
  unfolding get
  get-queue = elim (Bool-cases (b.writepos == b.readpos)) [
    | inl empty ↦
        let none_used : used b ≡ 0 = ground (arith, v.read_in, v.write_in) in
        inl (rw empty, rw none_used (unfold items in refl))
    | inr some_in ↦
        let b' : Prodcons = record b { readpos = advance b.readpos } in
        let shrunk : used b ≡ suc (used b') = ground (arith, v.read_in, v.write_in) in
        inr (
          get_or b.buffer b.readpos 0,
          b',
          rw some_in,
          rw shrunk (unfold items in refl),
          record { size = v.size; read_in = ground (arith, v.read_in); write_in = v.write_in },
        )
  ]
