-- ===== src/Sessions/Pool.antt =====
-- Connections come and go in any order: no session serves two at a time.
use npsql.Base.{
  Mem, Bool-cases, ℕ, zero, suc, ◌+◌, ◌-◌, ◌≤◌, ◌<◌, ◌≡◌, ◌≢◌, ◌∙◌, ◌⊎◌, inl, inr, refl, sym, ap,
  Bool, true, false, Bool-cases, ◌==◌, ne→==-false, if◌then◌else◌, arith, ℕ_discrete, put_at,
  put_at_self, put_at-ne,
}
use npsql.Sessions.{
  SessionManager, max_session_count, session_manager_init, take_session, handle_hello, no_reply,
  sorry, welcome, handle_connection, return_session,
}

-- The pool, and which sessions serve a connection.
pub record System : Type 0 where
  pub manager : SessionManager
  pub active : ℕ → Bool

pub data Step (s : System) : System → Type 0 where
  connect :
      (host : Bool) (header : Mem) (id : ℕ) (m : SessionManager)
      → handle_connection host header s.manager ≡ (welcome id, m)
      → Step s (record { manager = m; active = put_at s.active id true })
  refuse :
      (host : Bool) (header : Mem) (m : SessionManager)
      → handle_connection host header s.manager ≡ (sorry, m)
      → Step s (record s { manager = m })
  malformed :
      (host : Bool) (header : Mem) (m : SessionManager)
      → handle_connection host header s.manager ≡ (no_reply, m)
      → Step s (record s { manager = m })
  disconnect :
      (id : ℕ)
      → s.active id ≡ true
      → Step s (record { manager = return_session s.manager id; active = put_at s.active id false })

pub data Reach (s : System) : System → Type 0 where
  here : Reach s s
  next : {t u : System} → Reach s t → Step t u → Reach s u

abbrev pub start : System
start = record { manager = session_manager_init; active = λ _. false }

abbrev one_if : Bool → ℕ
one_if b = if b then 1 else 0

-- How many of the first `n` sessions are active.
abbrev number_active : (ℕ → Bool) → ℕ → ℕ
number_active a zero = 0
number_active a (suc n) = one_if (a n) + number_active a n

record Inv (s : System) : Type 0 where
  counted : number_active s.active max_session_count ≡ s.manager.next_open
  small : (id : ℕ) → s.active id ≡ true → id < max_session_count
  free :
      (i : ℕ)
      → s.manager.next_open ≤ i
      → i < max_session_count
      → (s.manager.open_sessions i < max_session_count)
        × (s.active (s.manager.open_sessions i) ≡ false)
  distinct :
      (i j : ℕ)
      → s.manager.next_open ≤ i
      → s.manager.next_open ≤ j
      → i < max_session_count
      → j < max_session_count
      → s.manager.open_sessions i ≡ s.manager.open_sessions j
      → i ≡ j

number_active-beyond :
    (a : ℕ → Bool) (id n : ℕ) (b : Bool)
    → n ≤ id
    → number_active (put_at a id b) n ≡ number_active a n
number_active-beyond a id zero b h = refl
number_active-beyond a id (suc n) b h =
    rw (put_at-ne a id b n (λ e. absurd (omega arith)), number_active-beyond a id n b (omega arith))

number_active-put_at :
    (a : ℕ → Bool) (id n : ℕ) (b : Bool)
    → id < n
    → number_active (put_at a id b) n + one_if (a id) ≡ number_active a n + one_if b
number_active-put_at a id zero b h = absurd (omega arith)
number_active-put_at a id (suc n) b h = elim (ℕ_discrete n id) [
  | yes e ↦ rw (e, put_at_self a id b, number_active-beyond a id id b (omega arith)) (omega arith)
  | no ne ↦ rw (put_at-ne a id b n ne) (omega (arith, number_active-put_at a id n b (omega arith)))
]

number_active-le : (a : ℕ → Bool) (n : ℕ) → number_active a n ≤ n
number_active-le a zero = omega arith
number_active-le a (suc n) = ground (arith, number_active-le a n)

-- Where all are counted, each is active.
number_active-all : (a : ℕ → Bool) (n id : ℕ) → number_active a n ≡ n → id < n → a id ≡ true
number_active-all a zero id e h = absurd (omega arith)
number_active-all a (suc n) id e h = elim (ℕ_discrete id n) [
  | yes same ↦ rw same (last (Bool-cases (a n)))
  | no ne ↦ number_active-all a n id (ground (arith, number_active-le a n)) (omega arith)
]
  where
    last : (a n ≡ true) ⊎ (a n ≡ false) → a n ≡ true
    last (inl yes_) = yes_
    last (inr no_) = absurd (ground (arith, number_active-le a n))

-- An active session is counted.
number_active-some : (a : ℕ → Bool) (n id : ℕ) → a id ≡ true → id < n → 0 < number_active a n
number_active-some a zero id e h = absurd (omega arith)
number_active-some a (suc n) id e h = elim (ℕ_discrete id n) [
  | yes same ↦ ground arith
  | no ne ↦ ground (arith, number_active-some a n id e (omega arith))
]

start-Inv : Inv start
start-Inv = record {
  counted = refl;
  small = λ id e. absurd cc;
  free = λ i lo hi. (hi, refl);
  distinct = λ i j _ _ _ _ e. e;
}

connect-Inv :
    (s : System)
    → Inv s
    → s.manager.next_open < max_session_count
    → Inv (record {
      manager = record s.manager { next_open = s.manager.next_open + 1 };
      active = put_at s.active (s.manager.open_sessions s.manager.next_open) true;
    })
connect-Inv s v room = record {
  counted = omega (
    arith,
    v.counted,
    number_active-put_at s.active new max_session_count true new_free.0,
    inactive,
  );
  small = λ k e. elim (ℕ_discrete k new) [
    | yes same ↦ rw same new_free.0
    | no ne ↦ v.small k (sym (put_at-ne s.active new true k ne) ∙ e)
  ];
  free = λ i lo hi. (
    (v.free i (omega arith) hi).0,
    put_at-ne s.active new true _ (λ e.
          absurd
            (omega (arith, v.distinct i s.manager.next_open (omega arith) (omega arith) hi room e)))
        ∙ (v.free i (omega arith) hi).1,
  );
  distinct = λ i j li lj hi hj e. v.distinct i j (omega arith) (omega arith) hi hj e;
}
  where
    new : ℕ
    new = s.manager.open_sessions s.manager.next_open

    new_free : (new < max_session_count) × (s.active new ≡ false)
    new_free = v.free s.manager.next_open (omega arith) room

    inactive : one_if (s.active new) ≡ 0
    inactive = rw new_free.1

disconnect-Inv :
    (s : System) (id : ℕ)
    → Inv s
    → s.active id ≡ true
    → Inv (record { manager = return_session s.manager id; active = put_at s.active id false })
unfolding return_session
disconnect-Inv s id v serves = record {
  counted =
      omega (arith, v.counted, number_active-put_at s.active id max_session_count false small, one);
  small = λ k e. elim (ℕ_discrete k id) [
    | yes same ↦ rw same small
    | no ne ↦ v.small k (sym (put_at-ne s.active id false k ne) ∙ e)
  ];
  free = λ i lo hi. elim (ℕ_discrete i n) [
    | yes same ↦
        rw (same, put_at_self s.manager.open_sessions n id, put_at_self s.active id false)
          (small, refl)
    | no ne ↦ rw (put_at-ne s.manager.open_sessions n id i ne) (
      (v.free i (omega arith) hi).0,
      put_at-ne s.active id false _ (other i (omega arith) hi) ∙ (v.free i (omega arith) hi).1,
    )
  ];
  distinct = λ i j li lj hi hj e. elim (ℕ_discrete i n) [
    | yes same ↦ elim (ℕ_discrete j n) [
      | yes same' ↦ omega arith
      | no ne' ↦ absurd (
          other j (omega arith) hj (
            sym (put_at-ne s.manager.open_sessions n id j ne')
            ∙ sym e
            ∙ (rw same (put_at_self s.manager.open_sessions n id))))
    ]
    | no ne ↦ elim (ℕ_discrete j n) [
      | yes same' ↦ absurd (
          other i (omega arith) hi (
            sym (put_at-ne s.manager.open_sessions n id i ne)
            ∙ e
            ∙ (rw same' (put_at_self s.manager.open_sessions n id))))
      | no ne' ↦ v.distinct i j (omega arith) (omega arith) hi hj (
          sym (put_at-ne s.manager.open_sessions n id i ne)
          ∙ e
          ∙ put_at-ne s.manager.open_sessions n id j ne')
    ]
  ];
}
  where
    small : id < max_session_count
    small = v.small id serves

    some_open : 0 < s.manager.next_open
    some_open =
        omega (arith, v.counted, number_active-some s.active max_session_count id serves small)

    n : ℕ
    n = s.manager.next_open - 1

    -- No free session's number is the one that is given back.
    other :
        (i : ℕ) → s.manager.next_open ≤ i → i < max_session_count → s.manager.open_sessions i ≢ id
    other i lo hi e =
        let clash : true ≡ false = sym serves ∙ ap s.active (sym e) ∙ (v.free i lo hi).1 in
        absurd (cc clash)

    one : one_if (s.active id) ≡ 1
    one = rw serves

-- What `handle_connection` does, in one of three ways.
handle_connection-cases :
    (host : Bool) (header : Mem) (m : SessionManager)
    → ((handle_hello host header ≡ false) × (handle_connection host header m ≡ (no_reply, m)))
      ⊎ ((m.next_open ≡ max_session_count) × (handle_connection host header m ≡ (sorry, m)))
      ⊎ ((m.next_open ≢ max_session_count)
          × (handle_connection host header m
              ≡ (welcome (m.open_sessions m.next_open), record m { next_open = m.next_open + 1 })))
unfolding handle_connection take_session
handle_connection-cases host header m = elim (Bool-cases (handle_hello host header)) [
  | inr bad ↦ inl (bad, rw bad)
  | inl good ↦ elim (ℕ_discrete m.next_open max_session_count) [
    | yes e ↦ inr (inl (e, rw (good, full e)))
    | no ne ↦ inr (inr (ne, rw (good, ne→==-false _ _ ne)))
  ]
]
  where
    full : m.next_open ≡ max_session_count → (m.next_open == max_session_count) ≡ true
    full e = ground arith

room :
    (s : System)
    → Inv s
    → s.manager.next_open ≢ max_session_count
    → s.manager.next_open < max_session_count
room s v ne = omega (arith, v.counted, number_active-le s.active max_session_count)

Step-Inv : {s t : System} → Step s t → Inv s → Inv t
Step-Inv {s} (connect host header id m e) v = elim (handle_connection-cases host header s.manager) [
  | inl (_, ignored) ↦ absurd (cc ignored)
  | inr (inl (_, refused)) ↦ absurd (cc refused)
  | inr (inr (ne, taken)) ↦
      let same_id : s.manager.open_sessions s.manager.next_open ≡ id = cc in
      let same_manager : record s.manager { next_open = s.manager.next_open + 1 } ≡ m = cc in
      rw (same_id, same_manager) at (connect-Inv s v (room s v ne))
]
Step-Inv {s} (refuse host header m e) v = elim (handle_connection-cases host header s.manager) [
  | inl (_, ignored) ↦ absurd (cc ignored)
  | inr (inl (_, refused)) ↦ let same : s.manager ≡ m = cc in rw same at v
  | inr (inr (ne, taken)) ↦ absurd (cc taken)
]
Step-Inv {s} (malformed host header m e) v = elim (handle_connection-cases host header s.manager) [
  | inl (_, ignored) ↦ let same : s.manager ≡ m = cc in rw same at v
  | inr (inl (_, refused)) ↦ absurd (cc refused)
  | inr (inr (ne, taken)) ↦ absurd (cc taken)
]
Step-Inv {s} (disconnect id serves) v = disconnect-Inv s id v serves

Reach-Inv : {s t : System} → Inv s → Reach s t → Inv t
Reach-Inv v here = v
Reach-Inv v (next r st) = Step-Inv st (Reach-Inv v r)

-- From a new pool, whatever connections come and end in whatever order: the next connection, if its
-- hello is well formed, is welcomed to a session of the pool that serves no other connection, or it is
-- turned away and every session of the pool serves one; if it is malformed, nothing changes.
pub handle_connection-fresh :
    {s : System} (host : Bool) (header : Mem)
    → Reach start s
    → ((handle_hello host header ≡ false)
        × (handle_connection host header s.manager ≡ (no_reply, s.manager)))
      ⊎ ((handle_connection host header s.manager ≡ (sorry, s.manager))
          × ((id : ℕ) → id < max_session_count → s.active id ≡ true))
      ⊎ ((id : ℕ) × (m : SessionManager) × (handle_connection host header s.manager
            ≡ (welcome id, m))
          × (id < max_session_count)
          × (s.active id ≡ false))
handle_connection-fresh {s} host header r = elim (handle_connection-cases host header s.manager) [
  | inl (bad, ignored) ↦ inl (bad, ignored)
  | inr (inl (full, refused)) ↦ inr (
      inl (
        refused,
        λ id h.
            number_active-all s.active max_session_count id ((Reach-Inv start-Inv r).counted ∙ full)
              h,
      ))
  | inr (inr (ne, taken)) ↦
      let v : Inv s = Reach-Inv start-Inv r in
      let free = v.free s.manager.next_open (omega arith) (room s v ne) in
      inr (
        inr (
          s.manager.open_sessions s.manager.next_open,
          record s.manager { next_open = s.manager.next_open + 1 },
          taken,
          free.0,
          free.1,
        ))
]
