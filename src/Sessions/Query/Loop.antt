-- ===== src/Sessions/Query/Loop.antt =====
-- server/src/nqp.c, query_loop: the queries of a session in the order in which they come.
use npsql.Base.{
  ℕ, zero, suc, ◌<◌, ◌≡◌, refl, Bool, Option, some, List, [], ◌∷◌, ◌++◌, length, arith,
}
use npsql.Sessions.Messages.{framed}
use npsql.Sessions.Messages.Framing.{length_in-two_bytes, receive_payload-append}
use npsql.Sessions.Query.{query_loop, nqp_query, nqp_goodbye, goodbye}

-- The stream of a client: its queries, each a message, and then `after`.
abbrev pub queries_sent : Bool → List (List ℕ) → List ℕ → List ℕ
queries_sent host [] after = after
queries_sent host (q ∷ qs) after = framed host nqp_query q ++ queries_sent host qs after

abbrev pub answers_sent : List (List ℕ) → List ℕ
answers_sent [] = goodbye
answers_sent (a ∷ as_) = a ++ answers_sent as_

module _ {S : Type 0} (host : Bool) (answer : S → List ℕ → Option (S × List ℕ)) where
  -- From a state, every query is shorter than 2 ^ 15 bytes and has an answer in the state that the query
  -- before it left; the answers in order, and the last state.
  abbrev pub Answers : S → List (List ℕ) → List (List ℕ) → S → Type 0
  Answers state [] [] last = state ≡ last
  Answers state (q ∷ qs) (a ∷ as_) last =
      (length q < 32768)
      × (after : S) × (answer state q ≡ some (after, a))
      × Answers after qs as_ last
  Answers state [] (a ∷ as_) last = ⊥
  Answers state (q ∷ qs) [] last = ⊥

  query_loop-query :
      (n : ℕ) (state after last : S) (q a rest : List ℕ) (sent left : List ℕ)
      → length q < 32768
      → answer state q ≡ some (after, a)
      → query_loop host answer n after rest ≡ some (last, sent, left)
      → query_loop host answer (suc n) state (framed host nqp_query q ++ rest)
        ≡ some (last, a ++ sent, left)
  unfolding query_loop
  query_loop-query n state after last q a rest sent left small e later =
      rw
        (
          length_in-two_bytes host (length q) (omega arith),
          receive_payload-append q rest small,
          e,
          later,
        )
        refl

  -- A client sends queries that are shorter than 2 ^ 15 bytes and have answers, each in the state of the
  -- server that the one before it left, and then a goodbye, on a host of either byte order: with fuel
  -- beyond the number of the queries the session's loop ends in the state that the last one left, after
  -- it has sent the answer of each query in order and then its own goodbye, and leaves what follows the
  -- goodbye.
  pub query_loop-Answers :
      (state last : S) (qs as_ : List (List ℕ)) (n : ℕ) (a b : ℕ) (left : List ℕ)
      → length qs < n
      → Answers state qs as_ last
      → query_loop host answer n state (queries_sent host qs (nqp_goodbye ∷ a ∷ b ∷ left))
        ≡ some (last, answers_sent as_, left)
  unfolding query_loop
  query_loop-Answers state last [] [] zero a b left enough answers = absurd (omega arith)
  query_loop-Answers state last [] [] (suc n) a b left enough answers = rw answers refl
  query_loop-Answers state last [] (x ∷ as_) n a b left enough answers = absurd answers
  query_loop-Answers state last (q ∷ qs) [] n a b left enough answers = absurd answers
  query_loop-Answers state last (q ∷ qs) (x ∷ as_) zero a b left enough answers =
      absurd (omega arith)
  query_loop-Answers state last (q ∷ qs) (x ∷ as_) (suc n) a b left enough
        (small, after, e, answers) =
      query_loop-query n state after last q x _ (answers_sent as_) left small e
        (query_loop-Answers after last qs as_ n a b left (omega arith) answers)
