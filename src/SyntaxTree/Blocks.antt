-- ===== src/SyntaxTree/Blocks.antt =====
-- The blocks of a heap, counted: what an allocation adds, what a vector's growth moves, and that blocks
-- which are held once each can be freed one after the other.
use npsql.Base.{
  ℕ, ◌+◌, ◌≤◌, ◌<◌, ◌≡◌, ◌≢◌, ◌∙◌, ◌⊎◌, inl, inr, refl, sym, Bool-cases, true, false, Option,
  Option-cases, none, some, subst, List, [], ◌∷◌, ◌++◌, if◌then◌else◌, ◌==◌, put_at, arith,
  ℕ_discrete,
}
use npsql.ExprEval.{◌>>=◌}
use npsql.SyntaxTree.{Heap, malloc, Grow}
use npsql.SyntaxTree.Free.{free_block}

abbrev pub count : ℕ → List ℕ → ℕ
count a [] = 0
count a (x ∷ xs) = (if a == x then 1 else 0) + count a xs

pub count_append : (a : ℕ) (xs ys : List ℕ) → count a (xs ++ ys) ≡ count a xs + count a ys
count_append a [] ys = omega arith
count_append a (x ∷ xs) ys = omega (arith, count_append a xs ys)

-- The block of a pointer, if it is not NULL.
abbrev pub block : Option ℕ → List ℕ
block none = []
block (some a) = a ∷ []

abbrev pub Bounded : Heap → Type 0
Bounded h = (a : ℕ) → h.live a ≡ true → a < h.next

-- `h` has the blocks of `h0`, and beside them those of the list, each once and none of them in `h0`.
pub record Adds (h0 h : Heap) (xs : List ℕ) : Type 0 where
  pub bounded : Bounded h
  pub live : (a : ℕ) → h.live a ≡ (if count a xs == 0 then h0.live a else true)
  pub fresh : (a : ℕ) → count a xs ≢ 0 → h0.live a ≡ false
  pub once : (a : ℕ) → count a xs ≤ 1

pub Adds-none : (h : Heap) → Bounded h → Adds h h []
Adds-none h b = record {
  bounded = b;
  live = λ a. refl;
  fresh = λ a ne. absurd (ne refl);
  once = λ a. omega arith;
}

pub Adds-perm :
    (h0 h : Heap) (xs ys : List ℕ)
    → ((a : ℕ) → count a xs ≡ count a ys)
    → Adds h0 h xs
    → Adds h0 h ys
Adds-perm h0 h xs ys same d = record {
  bounded = d.bounded;
  live = λ a. rw (← same a) (d.live a);
  fresh = λ a ne. d.fresh a (λ e. ne (sym (same a) ∙ e));
  once = λ a. rw (← same a) (d.once a);
}

-- A block past the heap's is in no list that the heap holds, nor in the heap before.
Adds-past :
    (h0 h : Heap) (xs : List ℕ) (a : ℕ)
    → Adds h0 h xs
    → h.live a ≡ false
    → (count a xs ≡ 0) × (h0.live a ≡ false)
Adds-past h0 h xs a d dead = ground (arith, d.live a)

dead_past : (h : Heap) (a : ℕ) → Bounded h → h.next ≤ a → h.live a ≡ false
dead_past h a b past = elim (Bool-cases (h.live a)) [
  | inl e ↦ let small = b a e in absurd (omega arith)
  | inr e ↦ e
]

pub Adds-malloc : (h0 h : Heap) (xs : List ℕ) → Adds h0 h xs → Adds h0 (malloc h).0 (h.next ∷ xs)
Adds-malloc h0 h xs d =
    let (zero_count, dead) =
      Adds-past h0 h xs h.next d (dead_past h h.next d.bounded (omega arith)) in
    record {
      bounded = λ a e. elim (ℕ_discrete a h.next) [
        | yes same ↦ omega arith
        | no ne ↦ let old : a < h.next = d.bounded a (ground arith) in omega arith
      ];
      live = λ a. ground (arith, d.live a);
      fresh = λ a ne. elim (ℕ_discrete a h.next) [
        | yes same ↦ rw same dead
        | no other ↦ d.fresh a (ground arith)
      ];
      once = λ a. ground (arith, d.once a);
    }

-- What the vectors do to the block of a vector that grows: it is kept, or one that was not allocated
-- takes its place and it is given back. No other block changes.
pub record Grown (h : Heap) (v : Option ℕ) (h' : Heap) (b : ℕ) : Type 0 where
  pub bounded : Bounded h'
  pub moved : (v ≡ some b) ⊎ (h.live b ≡ false)
  pub live :
      (a : ℕ)
      → h'.live a ≡ (if a == b then true else if count a (block v) == 0 then h.live a else false)

abbrev pub Grows : Grow → Type 0
Grows grow =
    (h : Heap) (v : Option ℕ) (n : ℕ)
    → Bounded h
    → ((a : ℕ) → v ≡ some a → h.live a ≡ true)
    → Grown h v (grow h v n).0 (grow h v n).1

module _ (h0 h h' : Heap) (b : ℕ) (xs : List ℕ) where
  pushed_new : Adds h0 h xs → Grown h none h' b → h.live b ≡ false → Adds h0 h' (b ∷ xs)
  pushed_new d g dead =
      let (zero_count, dead0) = Adds-past h0 h xs b d dead in
      record {
        bounded = g.bounded;
        live = λ a. ground (arith, g.live a, d.live a);
        fresh = λ a ne. elim (ℕ_discrete a b) [
          | yes same ↦ rw same dead0
          | no other ↦ d.fresh a (ground arith)
        ];
        once = λ a. ground (arith, d.once a);
      }

  pushed_same : Adds h0 h (b ∷ xs) → Grown h (some b) h' b → Adds h0 h' (b ∷ xs)
  pushed_same d g = record {
    bounded = g.bounded;
    live = λ a. ground (arith, g.live a, d.live a);
    fresh = d.fresh;
    once = d.once;
  }

  pushed_moved :
      (c : ℕ) → Adds h0 h (c ∷ xs) → Grown h (some c) h' b → h.live b ≡ false → Adds h0 h' (b ∷ xs)
  pushed_moved c d g dead =
      let (zero_count, dead0) = Adds-past h0 h (c ∷ xs) b d dead in
      let dead_c : h0.live c ≡ false = d.fresh c (ground arith) in
      record {
        bounded = g.bounded;
        live = λ a. ground (arith, g.live a, d.live a, d.once a, dead_c);
        fresh = λ a ne. elim (ℕ_discrete a b) [
          | yes same ↦ rw same dead0
          | no other ↦ d.fresh a (ground arith)
        ];
        once = λ a. ground (arith, d.once a);
      }

some_injective : (a b : ℕ) → some a ≡ some b → a ≡ b
some_injective a b e = cc

-- A push onto a vector whose block the heap holds.
pub Adds-grow :
    (grow : Grow) (h0 h : Heap) (v : Option ℕ) (n : ℕ) (xs : List ℕ)
    → Grows grow
    → Adds h0 h (block v ++ xs)
    → Adds h0 (grow h v n).0 ((grow h v n).1 ∷ xs)
Adds-grow grow h0 h none n xs law d =
    let g = law h none n d.bounded (λ a e. absurd (cc e)) in
    elim g.moved [
      | inl e ↦ absurd (cc e)
      | inr dead ↦ pushed_new h0 h (grow h none n).0 (grow h none n).1 xs d g dead
    ]
Adds-grow grow h0 h (some c) n xs law d =
    let held : h.live c ≡ true = ground (arith, d.live c) in
    let g = law h (some c) n d.bounded (λ a e. rw (← some_injective c a e) held) in
    elim g.moved [
      | inl e ↦
          let same = some_injective c (grow h (some c) n).1 e in
          pushed_same h0 h (grow h (some c) n).0 (grow h (some c) n).1 xs
            (subst (λ x. Adds h0 h (x ∷ xs)) same d)
            (subst (λ x. Grown h (some x) (grow h (some c) n).0 (grow h (some c) n).1) same g)
      | inr dead ↦ pushed_moved h0 h (grow h (some c) n).0 (grow h (some c) n).1 xs c d g dead
    ]

abbrev pub free_all : Heap → List ℕ → Option Heap
free_all h [] = some h
free_all h (x ∷ xs) = free_block h x >>= λ h1. free_all h1 xs

pub free_all-append :
    (h : Heap) (xs ys : List ℕ) → free_all h (xs ++ ys) ≡ (free_all h xs >>= λ h1. free_all h1 ys)
free_all-append h [] ys = refl
free_all-append h (x ∷ xs) ys = elim (Option-cases (free_block h x)) [
  | inl e ↦ rw e refl
  | inr (h1, e) ↦ rw e (free_all-append h1 xs ys)
]

abbrev without : Heap → ℕ → Heap
without h a = record h { live = put_at h.live a false }

free_block-live : (h : Heap) (a : ℕ) → h.live a ≡ true → free_block h a ≡ some (without h a)
unfolding free_block
free_block-live h a e = rw e refl

-- Blocks that are live, each listed once, are freed, and no others.
free_all-live :
    (h : Heap) (xs : List ℕ)
    → ((a : ℕ) → count a xs ≤ 1)
    → ((a : ℕ) → count a xs ≢ 0 → h.live a ≡ true)
    → (h' : Heap) × (free_all h xs ≡ some h')
      × ((a : ℕ) → h'.live a ≡ (if count a xs == 0 then h.live a else false))
free_all-live h [] once held = (h, refl, λ a. refl)
free_all-live h (x ∷ xs) once held =
    let here : h.live x ≡ true = held x (ground arith) in
    let (h', e, live) =
      free_all-live (without h x) xs (λ a. ground (arith, once a))
        (λ a ne. ground (arith, once a, held a)) in
    (h', rw (free_block-live h x here) e, λ a. ground (arith, live a, once a))

-- What was added can be freed, and nothing else is.
pub Adds-free :
    (h0 h : Heap) (xs ys : List ℕ)
    → Adds h0 h (xs ++ ys)
    → (h' : Heap) × (free_all h xs ≡ some h')
      × ((a : ℕ) → h'.live a ≡ (if count a ys == 0 then h0.live a else true))
Adds-free h0 h xs ys d =
    let (h', e, live) =
      free_all-live h xs (λ a. omega (arith, d.once a, count_append a xs ys))
        (λ a ne. ground (arith, d.live a, count_append a xs ys)) in
    (h', e, λ a. ground (arith, live a, d.live a, d.once a, d.fresh a, count_append a xs ys))

-- A block that was added is given back.
pub Adds-free_block :
    (h0 h : Heap) (x : ℕ) (xs : List ℕ)
    → Adds h0 h (x ∷ xs)
    → (h' : Heap) × (free_block h x ≡ some h') × Adds h0 h' xs
Adds-free_block h0 h x xs d =
    let here : h.live x ≡ true = ground (arith, d.live x) in
    let dead : h0.live x ≡ false = d.fresh x (ground arith) in
    (
      without h x,
      free_block-live h x here,
      record {
        bounded = λ a e. d.bounded a (ground arith);
        live = λ a. ground (arith, d.live a, d.once a, dead);
        fresh = λ a ne. d.fresh a (ground arith);
        once = λ a. ground (arith, d.once a);
      },
    )
