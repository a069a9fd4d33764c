-- ===== src/SharedConnection/Ownership.antt =====
-- Every base connection that is opened is closed once, and at most one is open.
use tunnel_client.Base.{
  ℕ, ◌+◌, ◌≡◌, refl, sym, ap, ◌∙◌, false, Option, none, some, List, ltb, if◌then◌else◌, get_elem?,
  arith, Bool-cases, inl, inr,
}
use tunnel_client.SharedConnection.{
  Connection, Transport, detached, close_base, detach_at, drop_current, invalidate, Opened,
  connect_base, reusable, connect_with, connect, is_at, close,
}
use tunnel_client.SharedConnection.Counts.{
  is_base, base_at, one, times_closed, holders, open_count, holders-set, open_count-set,
  holders-append, open_count-append, get_elem?-append_connection, own, own_self, replace-alone,
}

-- Of the bases opened each is closed once or held by one connection, no other base is, and only
-- the transport's own connection holds one.
pub record IsOwned (t : Transport) : Type 0 where
  pub each_once :
      (b : ℕ)
      → times_closed b t.closed + holders b t.connections ≡ (if ltb b t.opened then 1 else 0)
  pub alone : open_count t.connections ≡ own t.current t.connections

pub close_base_times :
    (b : ℕ) (o : Option ℕ) (cs : List ℕ)
    → times_closed b (close_base o cs) ≡ times_closed b cs + is_base b o
close_base_times b none cs = omega arith
close_base_times b (some c) cs = omega arith

-- Detaching a connection moves its base from the holders to the closed ones.
detach_at-each_once :
    (h : ℕ) (o : Option Connection) (t : Transport) (b : ℕ)
    → get_elem? t.connections h ≡ o
    → times_closed b (detach_at h o t).closed + holders b (detach_at h o t).connections
      ≡ times_closed b t.closed + holders b t.connections
detach_at-each_once h none t b e = refl
detach_at-each_once h (some c) t b e =
    omega
      (arith, close_base_times b c.base t.closed, holders-set b t.connections h c (detached c) e)

detach_at-opened :
    (h : ℕ) (o : Option Connection) (t : Transport) → (detach_at h o t).opened ≡ t.opened
detach_at-opened h none t = refl
detach_at-opened h (some c) t = refl

detach_at-open_count :
    (h : ℕ) (o : Option Connection) (t : Transport)
    → get_elem? t.connections h ≡ o
    → open_count (detach_at h o t).connections + one (base_at o) ≡ open_count t.connections
detach_at-open_count h none t e = omega arith
detach_at-open_count h (some c) t e = omega (arith, open_count-set t.connections h c (detached c) e)

-- With no connection of its own the transport has no base open.
drop_current-IsOwned :
    (o : Option ℕ) (t : Transport)
    → t.current ≡ o
    → IsOwned t
    → IsOwned (drop_current o t) × ((drop_current o t).current ≡ none)
drop_current-IsOwned none t e h = (h, e)
drop_current-IsOwned (some k) t e h = (
  record {
    each_once = λ b.
        detach_at-each_once k (get_elem? t.connections k) t b refl
        ∙ h.each_once b
        ∙ ap (λ n. if ltb b n then 1 else 0)
            (sym (detach_at-opened k (get_elem? t.connections k) t));
    alone = omega (
      arith,
      h.alone ∙ ap (λ o. own o t.connections) e,
      detach_at-open_count k (get_elem? t.connections k) t refl,
    );
  },
  refl,
)

connect_base-IsOwned :
    (answer : Opened) (t : Transport)
    → t.current ≡ none
    → IsOwned t
    → IsOwned (connect_base answer t).1
connect_base-IsOwned none t e h = h
connect_base-IsOwned (some g) t e h =
    let c : Connection = record { base = some t.opened; has_written = false; generation = g } in
    record {
      each_once = λ b. ground (arith, h.each_once b, holders-append b c t.connections);
      alone = omega (
        arith,
        h.alone ∙ ap (λ o. own o t.connections) e,
        open_count-append c t.connections,
        ap (λ o. one (base_at o)) (get_elem?-append_connection c t.connections),
      );
    }

connect_with-IsOwned :
    (o : Option ℕ) (answer : Opened) (t : Transport)
    → IsOwned t
    → IsOwned (connect_with o answer t).1
unfolding invalidate
connect_with-IsOwned (some k) answer t h = h
connect_with-IsOwned none answer t h =
    let dropped : IsOwned (drop_current t.current t) × ((drop_current t.current t).current ≡ none) =
      drop_current-IsOwned t.current t refl h in
    connect_base-IsOwned answer (drop_current t.current t) dropped.1 dropped.0

detach_at-alone_other :
    (h : ℕ) (o : Option Connection) (t : Transport)
    → get_elem? t.connections h ≡ o
    → open_count t.connections ≡ own t.current t.connections
    → open_count (detach_at h o t).connections ≡ own t.current (detach_at h o t).connections
detach_at-alone_other h none t e n = n
detach_at-alone_other h (some c) t e n =
    replace-alone t.current t.connections h c (detached c) e (λ a. refl) n

detach_at-alone :
    (h : ℕ) (o : Option Connection) (t : Transport)
    → get_elem? t.connections h ≡ o
    → open_count t.connections ≡ own t.current t.connections
    → open_count (detach_at h o t).connections
      ≡ own (if is_at h t.current then none else t.current) (detach_at h o t).connections
detach_at-alone h o t e n = elim (Bool-cases (is_at h t.current)) [
  | inl a ↦ rw a (
      omega (
        arith,
        n,
        own_self t.current t.connections h a,
        ap (λ x. one (base_at x)) e,
        detach_at-open_count h o t e,
      ))
  | inr a ↦ rw a (detach_at-alone_other h o t e n)
]

pub close-IsOwned : (h : ℕ) (t : Transport) → IsOwned t → IsOwned (close h t)
unfolding close
close-IsOwned h t i = record {
  each_once = λ b.
      detach_at-each_once h (get_elem? t.connections h) t b refl
      ∙ i.each_once b
      ∙ ap (λ n. if ltb b n then 1 else 0) (sym (detach_at-opened h (get_elem? t.connections h) t));
  alone = detach_at-alone h (get_elem? t.connections h) t refl i.alone;
}

pub connect-IsOwned :
    (provider : Option ℕ) (answer : Opened) (t : Transport)
    → IsOwned t
    → IsOwned (connect provider answer t).1
unfolding connect
connect-IsOwned provider answer t i =
    connect_with-IsOwned (reusable provider t.current t.connections) answer t i

pub invalidate-IsOwned : (t : Transport) → IsOwned t → IsOwned (invalidate t)
unfolding invalidate
invalidate-IsOwned t i = (drop_current-IsOwned t.current t refl i).0
