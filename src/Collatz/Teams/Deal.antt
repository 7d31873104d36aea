-- ===== src/Collatz/Teams/Deal.antt =====
-- The tasks that `TeamConstThreads` deals out, and the results that it collects.
use mathlib.Core.List.{append_assoc, append-nil}
use mimuw_pw_tasks.Prelude.{
  ℕ, ◌+◌, ◌%◌, ◌<◌, ◌≡◌, refl, sym, ap, ◌∙◌, inl, inr, true, ◌==◌, ==_iff, if◌then◌else◌, lt→ltb,
  Bool-cases, none, some, List, [], ◌∷◌, ◌++◌, length, get_elem?, arith,
}
use mimuw_pw_tasks.Collatz.{InfInt, Outcome, returns, and_then, uint64_mod}
use mimuw_pw_tasks.Collatz.Count.{IsExact}
use mimuw_pw_tasks.Collatz.Teams.{
  run_solo, push_back, deal, Future, get_future, get_all, thread_results, run_const_threads,
}
use mimuw_pw_tasks.Collatz.Teams.Scores.{
  Scores, no_task, task, Scores-append, Scores-length, run_solo-Scores, run_tasks-Scores,
}

get_elem?-middle :
    (l : List ℕ) (r : ℕ) (rest : List ℕ) → get_elem? ((l ++ r ∷ []) ++ rest) (length l) ≡ some r
get_elem?-middle [] r rest = refl
get_elem?-middle (x ∷ l) r rest = get_elem?-middle l r rest

-- a value at the end of one of the lists
abbrev at_end : (ℕ → List ℕ) → ℕ → ℕ → ℕ → List ℕ
at_end l i r j = if j == i then l j ++ r ∷ [] else l j

at_end_more :
    (l : ℕ → List ℕ) (i r j : ℕ) (rest : List ℕ)
    → (more : List ℕ) × (at_end l i r j ++ rest ≡ l j ++ more)
at_end_more l i r j rest = elim (Bool-cases (j == i)) [
  | inl e ↦ (r ∷ rest, rw e (append_assoc (l j) (r ∷ []) rest))
  | inr e ↦ (rest, rw e refl)
]

at_end_self : (l : ℕ → List ℕ) (i r : ℕ) → at_end l i r i ≡ l i ++ r ∷ []
at_end_self l i r = let same : (i == i) ≡ true = (==_iff i i).1 refl in rw same refl

module _ {I : Type 0} {num : InfInt I} {is : I → ℕ → Type 0} (laws : IsExact num is)
    (fuel : ℕ) where
  get_all-cons :
      (results : ℕ → Outcome (List ℕ)) (j i : ℕ) {r : ℕ} (futures : List Future)
      {values rs : List ℕ}
      → results j ≡ returns values
      → get_elem? values i ≡ some r
      → get_all results futures ≡ returns rs
      → get_all results ((j, i) ∷ futures) ≡ returns (r ∷ rs)
  unfolding get_all get_future
  get_all-cons results j i futures e v more = rw (e, and_then, v, more) refl

  push_back-Scores :
      (tasks : ℕ → List I) (l : ℕ → List ℕ) (i : ℕ) {n : I} {r : ℕ}
      → ((j : ℕ) → Scores is fuel (tasks j) (l j))
      → Scores is fuel (n ∷ []) (r ∷ [])
      → (j : ℕ) → Scores is fuel (push_back tasks i n j) (at_end l i r j)
  push_back-Scores tasks l i s one j = elim (Bool-cases (j == i)) [
    | inl e ↦ rw e (Scores-append (s j) one)
    | inr e ↦ rw e (s j)
  ]

  -- Behind the dealing each thread's results begin with those of the tasks that it had before, and
  -- the futures have the results of the tasks that are dealt.
  deal-Scores :
      (size : ℕ)
      → 0 < size
      → (i : ℕ) (tasks : ℕ → List I) (l : ℕ → List ℕ) {input : List I} {rs : List ℕ}
      → ((j : ℕ) → Scores is fuel (tasks j) (l j))
      → Scores is fuel input rs
      → (all : ℕ → List ℕ) × ((j : ℕ) → Scores is fuel ((deal size i tasks input).0 j) (all j))
        × ((j : ℕ) → (rest : List ℕ) × (all j ≡ l j ++ rest))
        × ((results : ℕ → Outcome (List ℕ))
            → ((j : ℕ) → j < size → results j ≡ returns (all j))
            → get_all results (deal size i tasks input).1 ≡ returns rs)
  unfolding deal get_all
  deal-Scores size positive i tasks l s no_task =
      (l, s, λ j. ([], sym (append-nil (l j))), λ results given. refl)
  deal-Scores size positive i tasks l s (task {n} {x} {k} {tasks = later} m c few more) =
      let j = i % size in
      let r = k % uint64_mod in
      let (all, dealt, begins, collected) =
        deal-Scores size positive (i + 1) (push_back tasks j n) (at_end l j r)
          (push_back-Scores tasks l j s (task m c few no_task)) more in
      (
        all,
        dealt,
        λ v.
            let (rest, e) = begins v in
            let (longer, e') = at_end_more l j r v rest in (longer, e ∙ e'),
        λ results given.
            let (rest, e) = begins j in
            let value : get_elem? (all j) (length (tasks j)) ≡ some r =
              ap (get_elem? (all j)) (Scores-length (s j))
              ∙ ap (λ q. get_elem? q (length (l j))) (e ∙ ap (λ q. q ++ rest) (at_end_self l j r))
              ∙ get_elem?-middle (l j) r rest in
            get_all-cons results j (length (tasks j))
              (deal size (i + 1) (push_back tasks j n) later).1 (given j (omega arith)) value
              (collected results given),
      )

  thread_results-Scores :
      (size : ℕ) (tasks : ℕ → List I) (j : ℕ) {rs : List ℕ}
      → j < size
      → Scores is fuel (tasks j) rs
      → thread_results num fuel size tasks j ≡ returns rs
  unfolding thread_results
  thread_results-Scores size tasks j below s =
      let (after, run, _) = run_tasks-Scores laws fuel none tt s in
      rw (lt→ltb j size below, run) refl

  pub run_const_threads-run_solo :
      (size : ℕ)
      → 0 < size
      → {input : List I} {rs : List ℕ} → Scores is fuel input rs
      → (run_const_threads num fuel size input ≡ returns rs)
        × (run_solo num fuel input ≡ returns rs)
  unfolding run_const_threads
  run_const_threads-run_solo size positive {input} s =
      let (all, dealt, _, collected) =
        deal-Scores size positive 0 (λ _. []) (λ _. []) (λ _. no_task) s in
      (
        collected (thread_results num fuel size (deal size 0 (λ _. []) input).0) (λ j below.
            thread_results-Scores size ((deal size 0 (λ _. []) input).0) j below (dealt j)),
        run_solo-Scores laws fuel s,
      )
