-- ===== src/SharedConnection/Writes.antt =====
-- Writes on a shared connection keep every base accounted for, and reach only open ones.
use tunnel_client.Base.{
  ℕ, ◌≤◌, ◌<◌, ◌≡◌, refl, ap, Bool, true, false, not, ◌&&◌, Option, none, some, if◌then◌else◌,
  get_elem?, arith, Bool-cases, inl, inr,
}
use tunnel_client.SharedConnection.{
  Connection, Transport, is_current_generation, Opened, base_of, current_base, is_at, restart_at,
  restart_for_initialize, mark_at, write_to, write_after, write,
}
use tunnel_client.SharedConnection.Counts.{
  is_base, base_at, times_closed, holders, holders-set, other_has_none, replace-alone, holders-get,
}
use tunnel_client.SharedConnection.Ownership.{IsOwned, close_base_times}

mark_at-IsOwned :
    (h : ℕ) (o : Option Connection) (t : Transport)
    → get_elem? t.connections h ≡ o
    → IsOwned t
    → IsOwned (mark_at h o t)
mark_at-IsOwned h none t e i = i
mark_at-IsOwned h (some c) t e i =
    let d : Connection = record c { has_written = true } in
    record {
      each_once = λ b. omega (arith, i.each_once b, holders-set b t.connections h c d e);
      alone =
          replace-alone t.current t.connections h c d e
            (λ a. other_has_none t.current t.connections h c e a i.alone) i.alone;
    }

not_false {ℓ} : {P : Type ℓ} (b : Bool) → b ≡ true → b ≡ false → P
not_false b e f = cc

if-IsOwned :
    (b : Bool) (x y : Bool × Transport) → IsOwned x.1 → IsOwned y.1 → IsOwned (if b then x else y).1
if-IsOwned true x y i j = i
if-IsOwned false x y i j = j

-- Only the transport's own connection is given a new base.
restart_at-IsOwned :
    (h : ℕ) (answer : Opened) (o : Option Connection) (t : Transport)
    → is_at h t.current ≡ true
    → get_elem? t.connections h ≡ o
    → IsOwned t
    → IsOwned (restart_at h answer o t).1
restart_at-IsOwned h none none t a e i = i
restart_at-IsOwned h (some g) none t a e i = i
restart_at-IsOwned h none (some c) t a e i = i
restart_at-IsOwned h (some g) (some c) t a e i =
    let d : Connection = record c { base = some t.opened; has_written = false } in
    if-IsOwned (not c.has_written) (true, t) _ i
      record {
        each_once = λ b. ground (
          arith,
          i.each_once b,
          close_base_times b c.base t.closed,
          holders-set b t.connections h c d e,
        );
        alone =
            replace-alone t.current t.connections h c d e (not_false (is_at h t.current) a) i.alone;
      }

and-right : (a b : Bool) → (a && b) ≡ true → b ≡ true
and-right true b e = e
and-right false b e = cc

restart_for_initialize-IsOwned :
    (is_initialize : Bool) (h : ℕ) (answer : Opened) (t : Transport)
    → IsOwned t
    → IsOwned (restart_for_initialize is_initialize h answer t).1
unfolding restart_for_initialize
restart_for_initialize-IsOwned is_initialize h answer t i =
    elim (Bool-cases (t.restart_on_initialize && (is_initialize && is_at h t.current))) [
      | inl a ↦
          let at : is_at h t.current ≡ true =
            and-right is_initialize (is_at h t.current)
              (and-right t.restart_on_initialize (is_initialize && is_at h t.current) a) in
          rw a (restart_at-IsOwned h answer (get_elem? t.connections h) t at refl i)
      | inr a ↦ rw a i
    ]

write_to-IsOwned :
    (accepted : Bool) (h : ℕ) (o : Option ℕ) (t : Transport)
    → IsOwned t
    → IsOwned (write_to accepted h o t).1
write_to-IsOwned accepted h none t i = i
write_to-IsOwned false h (some b) t i = i
write_to-IsOwned true h (some b) t i = mark_at-IsOwned h (get_elem? t.connections h) t refl i

write_after-IsOwned :
    (provider : Option ℕ) (accepted : Bool) (h : ℕ) (r : Bool × Transport)
    → IsOwned r.1
    → IsOwned (write_after provider accepted h r).1
write_after-IsOwned provider accepted h (false, t) i = i
write_after-IsOwned provider accepted h (true, t) i =
    write_to-IsOwned accepted h (current_base provider h t) t i

if_some : (b : Bool) (x : Option ℕ) (c : ℕ) → (if b then x else none) ≡ some c → x ≡ some c
if_some true x c e = e
if_some false x c e = cc

base_of-base_at :
    (provider : Option ℕ) (o : Option Connection) (b : ℕ)
    → base_of provider o ≡ some b
    → base_at o ≡ some b
base_of-base_at provider none b e = e
base_of-base_at provider (some c) b e =
    if_some (is_current_generation provider c.generation) c.base b e

-- Nothing has closed `b`, and it was opened.
pub IsOpenBase : ℕ → Transport → Type 0
IsOpenBase b t = (times_closed b t.closed ≡ 0) × (b < t.opened)

held-open :
    (t : Transport) (h b : ℕ)
    → IsOwned t
    → base_at (get_elem? t.connections h) ≡ some b
    → IsOpenBase b t
unfolding IsOpenBase
held-open t h b i e =
    let held : 1 ≤ holders b t.connections =
      ground (arith, holders-get b t.connections h, ap (is_base b) e) in
    (ground (arith, i.each_once b), ground (arith, i.each_once b))

mark_at-open :
    (h : ℕ) (o : Option Connection) (t : Transport) (b : ℕ)
    → IsOpenBase b t
    → IsOpenBase b (mark_at h o t)
unfolding IsOpenBase
mark_at-open h none t b i = i
mark_at-open h (some c) t b i = i

write_to-open :
    (accepted : Bool) (h : ℕ) (o : Option ℕ) (t : Transport) (b : ℕ)
    → (o ≡ some b → IsOpenBase b t)
    → (write_to accepted h o t).0 ≡ some b
    → IsOpenBase b (write_to accepted h o t).1
unfolding IsOpenBase
write_to-open accepted h none t b open_base e = cc
write_to-open false h (some c) t b open_base e = open_base e
write_to-open true h (some c) t b open_base e =
    mark_at-open h (get_elem? t.connections h) t b (open_base e)

write_after-open :
    (provider : Option ℕ) (accepted : Bool) (h : ℕ) (r : Bool × Transport) (b : ℕ)
    → IsOwned r.1
    → (write_after provider accepted h r).0 ≡ some b
    → IsOpenBase b (write_after provider accepted h r).1
unfolding current_base
write_after-open provider accepted h (false, t) b i e = cc
write_after-open provider accepted h (true, t) b i e =
    write_to-open accepted h (current_base provider h t) t b
      (λ q. held-open t h b i (base_of-base_at provider (get_elem? t.connections h) b q)) e

pub write-IsOwned :
    (provider : Option ℕ) (is_initialize accepted : Bool) (answer : Opened) (h : ℕ) (t : Transport)
    → IsOwned t
    → IsOwned (write provider is_initialize accepted answer h t).1
unfolding write
write-IsOwned provider is_initialize accepted answer h t i =
    write_after-IsOwned provider accepted h (restart_for_initialize is_initialize h answer t)
      (restart_for_initialize-IsOwned is_initialize h answer t i)

pub write-IsOpenBase :
    (provider : Option ℕ) (is_initialize accepted : Bool) (answer : Opened) (h : ℕ) (t : Transport)
    (b : ℕ)
    → IsOwned t
    → (write provider is_initialize accepted answer h t).0 ≡ some b
    → IsOpenBase b (write provider is_initialize accepted answer h t).1
unfolding write
write-IsOpenBase provider is_initialize accepted answer h t b i e =
    write_after-open provider accepted h (restart_for_initialize is_initialize h answer t) b
      (restart_for_initialize-IsOwned is_initialize h answer t i) e
