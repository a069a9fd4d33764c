-- ===== src/CallBuffer/Ring.antt =====
-- The buffer against the list of all calls, the newest first.
use tunnel_client.Base.{
  ℕ, ◌+◌, ◌%◌, ◌≤◌, ◌<◌, ◌≡◌, ◌≢◌, refl, sym, ap, ◌∙◌, false, Option, some, List, [], ◌∷◌, ltb,
  ◌==◌, zero, suc, if◌then◌else◌, Bytes, trim_space, length, set, get_elem?, min, take, arith,
  length-set, get_elem?-set_self, get_elem?-set_ne, length-replicate, Bool-cases, inl, inr, ◌⊎◌,
}
use tunnel_client.CallBuffer.{
  CallEntry, CallBuffer, new_call_buffer, record_call, index, is_wanted, room_after, visit, scan,
  bounded_limit, snapshot, zero_entry,
}

-- The buffer after a list of calls, the newest first.
abbrev pub recorded : List CallEntry → CallBuffer
recorded [] = new_call_buffer
recorded (e ∷ es) = record_call e (recorded es)

abbrev pub wanted : Bytes → List CallEntry → List CallEntry
wanted label [] = []
wanted label (e ∷ es) = if is_wanted label e then e ∷ wanted label es else wanted label es

record IsRing (es : List CallEntry) (b : CallBuffer) : Type 0 where
  size : length b.entries ≡ 100
  count : b.count ≡ min (length es) 100
  next : b.next < 100
  newest : (i : ℕ) → i < b.count → get_elem? b.entries (index 100 b.next i) ≡ get_elem? es i

index_next : (n i : ℕ) → n < 100 → i < 99 → index 100 ((n + 1) % 100) (suc i) ≡ index 100 n i
unfolding index
index_next n i h k = ground arith

index_zero : (n : ℕ) → n < 100 → index 100 ((n + 1) % 100) 0 ≡ n
unfolding index
index_zero n h = ground arith

index_other : (n i : ℕ) → n < 100 → i < 99 → n ≢ index 100 n i
unfolding index
index_other n i h k = ground arith

newest_next :
    (e : CallEntry) (es cells : List CallEntry) (n c : ℕ)
    → n < 100
    → length cells ≡ 100
    → ((i : ℕ) → i < c → get_elem? cells (index 100 n i) ≡ get_elem? es i)
    → (i : ℕ) → i < 100
    → i < suc c
    → get_elem? (set cells n e) (index 100 ((n + 1) % 100) i) ≡ get_elem? (e ∷ es) i
newest_next e es cells n c h l k zero m j =
    ap (get_elem? (set cells n e)) (index_zero n h)
    ∙ get_elem?-set_self cells n e (omega (arith, l))
newest_next e es cells n c h l k (suc i) m j =
    ap (get_elem? (set cells n e)) (index_next n i h (omega arith))
    ∙ get_elem?-set_ne cells n (index 100 n i) e (index_other n i h (omega arith))
    ∙ k i (omega arith)

record_call-IsRing :
    (e : CallEntry) (es : List CallEntry) (b : CallBuffer)
    → IsRing es b
    → IsRing (e ∷ es) (record_call e b)
unfolding record_call
record_call-IsRing e es b h = rw (h.size) (record {
  size = length-set b.entries b.next e ∙ h.size;
  count = ground (arith, h.count);
  next = omega arith;
  newest = λ i k.
      newest_next e es b.entries b.next b.count h.next h.size h.newest i (ground (arith, h.count))
        (ground arith);
})

recorded-IsRing : (es : List CallEntry) → IsRing es (recorded es)
recorded-IsRing [] = record {
  size = length-replicate 100 zero_entry;
  count = omega arith;
  next = omega arith;
  newest = λ i h. absurd (omega arith);
}
recorded-IsRing (e ∷ es) = record_call-IsRing e es (recorded es) (recorded-IsRing es)

take_nil : {A : Type 0} (n : ℕ) → ◌≡◌ {A = List A} (take n []) []
take_nil zero = refl
take_nil (suc n) = refl

-- A bound that the list does not reach makes no difference.
take_bound :
    {A : Type 0} (m n : ℕ) (xs : List A)
    → (m ≡ n) ⊎ ((length xs ≤ m) × (length xs ≤ n))
    → take m xs ≡ take n xs
take_bound zero zero xs h = refl
take_bound zero (suc n) [] h = refl
take_bound zero (suc n) (x ∷ xs) h = absurd (ground arith)
take_bound (suc m) zero [] h = refl
take_bound (suc m) zero (x ∷ xs) h = absurd (ground arith)
take_bound (suc m) (suc n) [] h = refl
take_bound (suc m) (suc n) (x ∷ xs) h = ap (λ l. x ∷ l) (take_bound m n xs (ground arith))

length-wanted :
    (label : Bytes) (n : ℕ) (es : List CallEntry) → length (wanted label (take n es)) ≤ n
length-wanted label zero es = omega arith
length-wanted label (suc n) [] = omega arith
length-wanted label (suc n) (e ∷ es) = ground (arith, length-wanted label n es)

visit_lem :
    (label : Bytes) (e : CallEntry) (room : ℕ) (es : List CallEntry)
    (rest : Option (List CallEntry))
    → rest ≡ some (take (room_after label (some e) (suc room)) (wanted label es))
    → visit label (some e) rest ≡ some (take (suc room) (wanted label (e ∷ es)))
unfolding visit
visit_lem label e room es rest h = elim (Bool-cases (is_wanted label e)) [
  | inl w ↦ rw (h, w) (ap (λ n. some (e ∷ take n (wanted label es))) (omega arith))
  | inr w ↦ rw (h, w)
]

scan_lem :
    (b : CallBuffer) (label : Bytes) (left i room : ℕ) (es : List CallEntry)
    → left ≤ length es
    → ((j : ℕ)
        → j < left
        → get_elem? b.entries (index (length b.entries) b.next (i + j)) ≡ get_elem? es j)
    → scan b label left i room ≡ some (take room (wanted label (take left es)))
unfolding scan
scan_lem b label zero i room es h k = ap some (sym (take_nil room))
scan_lem b label (suc left) i room [] h k = absurd (omega (arith, h))
scan_lem b label (suc left) i zero (e ∷ es) h k = refl
scan_lem b label (suc left) i (suc room) (e ∷ es) h k =
    let at : ℕ → Option CallEntry = λ j. get_elem? b.entries (index (length b.entries) b.next j) in
    let found : at i ≡ some e = ap at (omega arith) ∙ k 0 (omega arith) in
    let left_room : ℕ = room_after label (some e) (suc room) in
    let goes : (suc room == 0) ≡ false = ground arith in
    rw (found, goes)
      (visit_lem label e room (take left es) (scan b label left (i + 1) left_room) (
        scan_lem b label left (i + 1) left_room es (omega (arith, h))
          (λ j l. ap at (omega arith) ∙ k (suc j) (omega (arith, l)))))

snapshot-IsRing :
    (es : List CallEntry) (b : CallBuffer) (limit : ℕ) (label : Bytes)
    → IsRing es b
    → snapshot limit label b
      ≡ some (take (bounded_limit 100 limit) (wanted (trim_space label) (take 100 es)))
unfolding snapshot
snapshot-IsRing [] b limit label h =
    let none_yet : b.count ≡ 0 = omega (arith, h.count) in
    rw (none_yet, h.size) (ap some (sym (take_nil (bounded_limit 100 limit))))
snapshot-IsRing (e ∷ es) b limit label h =
    let bound : ℕ = bounded_limit 100 limit in
    let room : ℕ = if ltb b.count bound then b.count else bound in
    let l : Bytes = trim_space label in
    let some_yet : (b.count == 0) ≡ false = ground (arith, h.count) in
    let scanned : scan b l b.count 0 room ≡ some (take room (wanted l (take b.count (e ∷ es)))) =
      scan_lem b l b.count 0 room (e ∷ es) (omega (arith, h.count)) (λ j k.
        rw h.size
          (ap (λ n. get_elem? b.entries (index 100 b.next n)) (omega arith) ∙ h.newest j k)) in
    rw (h.size, some_yet)
      (scanned
        ∙ ap some (
            take_bound room bound (wanted l (take b.count (e ∷ es)))
              (ground (arith, length-wanted l b.count (e ∷ es)))
            ∙ ap (λ t. take bound (wanted l t))
                (take_bound b.count 100 (e ∷ es) (ground (arith, h.count)))))

-- After any number of calls, a snapshot is the last hundred of them, the newest first, with the
-- label asked for if there is one, cut off at the limit if it is from 1 to 100; and no
-- index is out of bounds.
pub snapshot-recorded :
    (es : List CallEntry) (limit : ℕ) (label : Bytes)
    → snapshot limit label (recorded es)
      ≡ some (take (bounded_limit 100 limit) (wanted (trim_space label) (take 100 es)))
snapshot-recorded es limit label = snapshot-IsRing es (recorded es) limit label (recorded-IsRing es)
