-- ===== src/Gifts/Ring.antt =====
-- The circular buffer of Lab_10/gifts.c as a queue: `insert` and `collect`.
use native.Mathlib.Nat.{mod-add-mod, mod-eq_of_lt, mod-eq-sub-mod, mod-lt, zero-mod}
use mimuw_pw_tasks.Prelude.{
  ℕ, suc, ◌+◌, ◌-◌, ◌%◌, ◌≤◌, ◌<◌, ◌≡◌, ◌≢◌, refl, sym, ap, ◌∙◌, some, List, [], ◌∷◌, ◌++◌, arith,
  dec_lt, length, take, get_elem?, set, length-set, length-append, length-replicate,
  get_elem?-set_self, get_elem?-set_ne, get_elem?-append, get_elem?-append_here, Option-cases, inl,
  inr, get_elem?-some, take-append, take-suc,
}
use mimuw_pw_tasks.Gifts.{Macros, Storage, init, insert, collect}

-- The buffer has the gifts that are inserted and not collected, from `take` on.
pub record IsQueue (m : Macros) (s : Storage) (inserted collected : List ℕ) : Type 0 where
  pub size : length s.buffer ≡ m.buffsize
  pub put_at : s.put ≡ length inserted % m.buffsize
  pub take_at : s.take ≡ length collected % m.buffsize
  pub counts : s.total_collected ≡ length collected
  pub behind : length collected ≤ length inserted
  pub order : take (length collected) inserted ≡ collected
  pub holds :
      (k : ℕ)
      → length collected ≤ k
      → k < length inserted
      → get_elem? s.buffer (k % m.buffsize) ≡ get_elem? inserted k

pub init-IsQueue : (m : Macros) → IsQueue m (init m) [] []
unfolding init
init-IsQueue m = record {
  size = length-replicate m.buffsize 0;
  put_at = sym (zero-mod m.buffsize);
  take_at = sym (zero-mod m.buffsize);
  counts = refl;
  behind = omega arith;
  order = refl;
  holds = λ k low high. absurd (omega arith);
}

-- less than one round apart
mod_ne : (b k n : ℕ) → k < n → n < k + b → n % b ≢ k % b
mod_ne b k n low high e =
    let r = k % b in
    let d : ℕ = n - k in
    let in_range : r < b = mod-lt k (omega arith) in
    let apart : n ≡ k + d = omega arith in
    let sum : (r + d) % b ≡ n % b = mod-add-mod k b d ∙ ap (λ x. x % b) (sym apart) in
    elim (dec_lt (r + d) b) [
      | yes p ↦ absurd (omega (arith, mod-eq_of_lt p))
      | no p ↦
          let wrap : b ≤ r + d = omega arith in
          let small : r + d - b < b = omega arith in
          absurd (omega (arith, mod-eq-sub-mod wrap, mod-eq_of_lt small))
    ]

-- what `collect` leaves
abbrev pub taken : Macros → Storage → Storage
taken m s = record s { take = (s.take + 1) % m.buffsize; total_collected = s.total_collected + 1 }

pub collect-taken : (m : Macros) (s t : Storage) (g : ℕ) → collect m s ≡ some (g, t) → t ≡ taken m s
unfolding collect
collect-taken m s t g h = elim (Option-cases (get_elem? s.buffer s.take)) [
  | inl e ↦ cc
  | inr (x, e) ↦ cc
]

module _ {m : Macros} {s : Storage} {ins col : List ℕ} (q : IsQueue m s ins col) where
  pub insert-IsQueue :
      (g : ℕ) → length ins < length col + m.buffsize → IsQueue m (insert m s g) (ins ++ g ∷ []) col
  unfolding insert
  insert-IsQueue g free =
      let longer = length-append ins (g ∷ []) in
      let some_size : 0 < m.buffsize = omega (arith, q.behind) in
      let in_range : s.put < length s.buffer =
        omega (arith, mod-lt (length ins) some_size, q.put_at, q.size) in
      record {
        size = length-set s.buffer s.put g ∙ q.size;
        put_at =
            ap (λ p. (p + 1) % m.buffsize) q.put_at
            ∙ mod-add-mod (length ins) m.buffsize 1
            ∙ ap (λ n. n % m.buffsize) (sym longer);
        take_at = q.take_at;
        counts = q.counts;
        behind = omega (arith, longer, q.behind);
        order = take-append (length col) ins (g ∷ []) q.behind ∙ q.order;
        holds = λ k low high. elim (dec_lt k (length ins)) [
          | yes p ↦
              let other : s.put ≢ k % m.buffsize =
                λ e. mod_ne m.buffsize k (length ins) p (omega arith) (sym q.put_at ∙ e) in
              get_elem?-set_ne s.buffer g other
              ∙ q.holds k low p
              ∙ sym (get_elem?-append ins (g ∷ []) k p)
          | no p ↦
              let here : k ≡ length ins = omega (arith, longer) in
              ap (λ n. get_elem? (set s.buffer s.put g) (n % m.buffsize)) here
              ∙ ap (get_elem? (set s.buffer s.put g)) (sym q.put_at)
              ∙ get_elem?-set_self s.buffer s.put g in_range
              ∙ sym (get_elem?-append_here ins g [])
              ∙ ap (get_elem? (ins ++ g ∷ [])) (sym here)
        ];
      }

  next_gift :
      length col < length ins
      → (g : ℕ) × (get_elem? ins (length col) ≡ some g) × (collect m s ≡ some (g, taken m s))
  unfolding collect
  next_gift left =
      let (g, e) = get_elem?-some ins (length col) left in
      let found : get_elem? s.buffer s.take ≡ some g =
        ap (get_elem? s.buffer) q.take_at ∙ q.holds (length col) (omega arith) left ∙ e in
      (g, e, rw (found, collect) refl)

  taken-IsQueue :
      (g : ℕ)
      → length col < length ins
      → get_elem? ins (length col) ≡ some g
      → IsQueue m (taken m s) ins (col ++ g ∷ [])
  taken-IsQueue g left e =
      let longer : length (col ++ g ∷ []) ≡ suc (length col) =
        omega (arith, length-append col (g ∷ [])) in
      record {
        size = q.size;
        put_at = q.put_at;
        take_at =
            ap (λ p. (p + 1) % m.buffsize) q.take_at
            ∙ mod-add-mod (length col) m.buffsize 1
            ∙ ap (λ n. n % m.buffsize) (sym (length-append col (g ∷ [])));
        counts = omega (arith, longer, q.counts);
        behind = omega arith;
        order =
            ap (λ n. take n ins) longer
            ∙ take-suc (length col) ins g e
            ∙ ap (λ l. l ++ g ∷ []) q.order;
        holds = λ k low high. q.holds k (omega arith) high;
      }

  -- `collect` finds a gift, and it is the oldest one.
  pub collect-IsQueue :
      length col < length ins
      → (g : ℕ) × (collect m s ≡ some (g, taken m s)) × IsQueue m (taken m s) ins (col ++ g ∷ [])
  collect-IsQueue left = let (g, e, found) = next_gift left in (g, found, taken-IsQueue g left e)

  -- The semaphores do not matter.
  pub posted-IsQueue :
      (gifts free_space mutex : ℕ)
      → IsQueue m (record s { gifts = gifts; free_space = free_space; mutex = mutex }) ins col
  posted-IsQueue gifts free_space mutex = record {
    size = q.size;
    put_at = q.put_at;
    take_at = q.take_at;
    counts = q.counts;
    behind = q.behind;
    order = q.order;
    holds = q.holds;
  }
