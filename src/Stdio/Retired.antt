-- ===== src/Stdio/Retired.antt =====
-- Which identifiers go to the child.
use tunnel_client.Base.{
  ℕ, ◌+◌, ◌≤◌, ◌<◌, ◌≡◌, ◌≢◌, sym, ◌∙◌, inl, inr, Bool, true, false, Option, none, some, List, [],
  ◌∷◌, ◌==◌, zero, suc, length, Bool-cases, arith, ◌↔◌, subst,
}
use tunnel_client.Health.{max_uint64}
use tunnel_client.Stdio.{
  Transport, Wired, unfinished, contains, remove, next_alias, wire_response_id, try_alias,
  found_alias, rounds_for,
}

module _ {RequestId : Type 0} (same : RequestId → RequestId → Bool)
    (same_iff : (a b : RequestId) → (same a b ≡ true) ↔ (a ≡ b)) where
  same_both : (a b x : RequestId) → same a x ≡ true → same b x ≡ true → same a b ≡ true
  same_both a b x h k = (same_iff a b).1 ((same_iff a x).0 h ∙ sym ((same_iff b x).0 k))

  contains-remove_ne :
      (a b : RequestId) (xs : List RequestId)
      → same a b ≡ false
      → contains same a xs ≡ true
      → contains same a (remove same b xs) ≡ true
  unfolding contains remove
  contains-remove_ne a b [] h k = k
  contains-remove_ne a b (x ∷ xs) h k = ground (arith, contains-remove_ne a b xs h, same_both a b x)

  length-remove_le : (b : RequestId) (xs : List RequestId) → length (remove same b xs) ≤ length xs
  unfolding remove
  length-remove_le b [] = omega arith
  length-remove_le b (x ∷ xs) = ground (arith, length-remove_le b xs)

  length-remove :
      (b : RequestId) (xs : List RequestId)
      → contains same b xs ≡ true
      → length (remove same b xs) < length xs
  unfolding contains remove
  length-remove b [] h = absurd (ground arith)
  length-remove b (x ∷ xs) h = ground (arith, length-remove b xs, length-remove_le b xs)

  -- As many different identifiers as a list contains are no more than it has entries.
  pigeonhole :
      (f : ℕ → RequestId) (k : ℕ) (xs : List RequestId)
      → ((i j : ℕ) → i < j → j < k → same (f i) (f j) ≡ false)
      → ((i : ℕ) → i < k → contains same (f i) xs ≡ true)
      → k ≤ length xs
  pigeonhole f zero xs d h = omega arith
  pigeonhole f (suc k) xs d h =
      let fewer : length (remove same (f k) xs) < length xs =
        length-remove (f k) xs (h k (omega arith)) in
      let rest : k ≤ length (remove same (f k) xs) =
        pigeonhole f k (remove same (f k) xs) (λ i j l m. d i j l (omega arith))
          (λ i l. contains-remove_ne (f i) (f k) xs (d i k l (omega arith)) (h i (omega arith))) in
      omega (arith, fewer, rest)

  module _ (is_valid : RequestId → Bool) (make_alias : ℕ → Option RequestId) where
    abbrev alias_or : RequestId → Option RequestId → RequestId
    alias_or d none = d
    alias_or d (some a) = a

    abbrev Blocked : RequestId → List RequestId → Option RequestId → Type 0
    Blocked caller retired none = ⊥
    Blocked caller retired (some a) = contains same a (caller ∷ retired) ≡ true

    try_Blocked :
        (caller : RequestId) (retired : List RequestId) (n : ℕ) (o : Option RequestId)
        (again : Wired RequestId × ℕ)
        → (try_alias same is_valid make_alias caller retired n o again).0 ≡ unfinished
        → Blocked caller retired o × (again.0 ≡ unfinished)
    unfolding contains
    try_Blocked caller retired n none again h = absurd (ground arith)
    try_Blocked caller retired n (some a) again h = ground arith

    next_Blocked :
        (r : ℕ) (caller : RequestId) (retired : List RequestId) (n : ℕ)
        → (next_alias same is_valid make_alias (suc r) caller retired n).0 ≡ unfinished
        → Blocked caller retired (make_alias (n + 1))
          × ((next_alias same is_valid make_alias r caller retired (n + 1)).0 ≡ unfinished)
    unfolding next_alias
    next_Blocked r caller retired n h = elim (Bool-cases (n == max_uint64)) [
      | inl e ↦ absurd (ground (arith, (rw e at h)))
      | inr e ↦
          try_Blocked caller retired (n + 1) (make_alias (n + 1))
            (next_alias same is_valid make_alias r caller retired (n + 1)) (rw e at h)
    ]

    all_Blocked :
        (r : ℕ) (caller : RequestId) (retired : List RequestId) (n : ℕ)
        → (next_alias same is_valid make_alias r caller retired n).0 ≡ unfinished
        → (i : ℕ) → i < r
        → Blocked caller retired (make_alias (n + 1 + i))
    all_Blocked zero caller retired n h i l = absurd (omega arith)
    all_Blocked (suc r) caller retired n h zero l =
        subst (λ m. Blocked caller retired (make_alias m)) (omega arith)
          (next_Blocked r caller retired n h).0
    all_Blocked (suc r) caller retired n h (suc i) l =
        subst (λ m. Blocked caller retired (make_alias m)) (omega arith)
          (all_Blocked r caller retired (n + 1) (next_Blocked r caller retired n h).1 i
            (omega arith))

    -- Aliases of different numbers differ.
    abbrev pub AreDifferent : Option RequestId → Option RequestId → Type 0
    AreDifferent none o = Unit {0}
    AreDifferent (some a) none = Unit {0}
    AreDifferent (some a) (some b) = same a b ≡ false

    contains-Blocked :
        (caller : RequestId) (retired : List RequestId) (o : Option RequestId)
        → Blocked caller retired o
        → contains same (alias_or caller o) (caller ∷ retired) ≡ true
    contains-Blocked caller retired none h = elim h [ ]
    contains-Blocked caller retired (some a) h = h

    different-Blocked :
        (caller : RequestId) (retired : List RequestId) (o p : Option RequestId)
        → Blocked caller retired o
        → Blocked caller retired p
        → AreDifferent o p
        → same (alias_or caller o) (alias_or caller p) ≡ false
    different-Blocked caller retired none p h k d = elim h [ ]
    different-Blocked caller retired (some a) none h k d = elim k [ ]
    different-Blocked caller retired (some a) (some b) h k d = d

    module _
        (make_alias_differs : (i j : ℕ) → i < j → AreDifferent (make_alias i) (make_alias j)) where
      next_alias_ends :
          (caller : RequestId) (retired : List RequestId) (n : ℕ)
          → (next_alias same is_valid make_alias
              (rounds_for same is_valid make_alias retired)
              caller
              retired
              n).0
            ≢ unfinished
      next_alias_ends caller retired n h =
          let blocked : (i : ℕ)
              → i < length retired + 2
              → Blocked caller retired (make_alias (n + 1 + i)) =
            all_Blocked (length retired + 2) caller retired n h in
          let bound : length retired + 2 ≤ length (caller ∷ retired) =
            pigeonhole (λ i. alias_or caller (make_alias (n + 1 + i))) (length retired + 2)
              (caller ∷ retired)
              (λ i j l m.
                different-Blocked caller retired (make_alias (n + 1 + i)) (make_alias (n + 1 + j))
                  (blocked i (omega arith)) (blocked j m)
                  (make_alias_differs (n + 1 + i) (n + 1 + j) (omega arith)))
              (λ i l. contains-Blocked caller retired (make_alias (n + 1 + i)) (blocked i l)) in
          omega (arith, bound)

      found_alias_ends :
          (t : Transport RequestId) (r : Wired RequestId × ℕ)
          → r.0 ≢ unfinished
          → (found_alias same is_valid make_alias t r).0 ≢ unfinished
      found_alias_ends t (w, n) h = h

      -- The search for an identifier to send always ends, whatever is retired: with an identifier,
      -- or with one of the three errors. The aliases of different numbers are taken to differ.
      pub wire_response_id_ends :
          (caller : RequestId) (t : Transport RequestId)
          → (wire_response_id same is_valid make_alias caller t).0 ≢ unfinished
      unfolding wire_response_id
      wire_response_id_ends caller t = ground (
        arith,
        found_alias_ends t
            (next_alias same is_valid make_alias
              (rounds_for same is_valid make_alias t.retired_response_ids) caller
              t.retired_response_ids t.next_aliased_id)
            (next_alias_ends caller t.retired_response_ids t.next_aliased_id),
      )
