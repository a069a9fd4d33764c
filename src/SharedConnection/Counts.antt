-- ===== src/SharedConnection/Counts.antt =====
-- Counting the base connections of pkg/mcpclient/shared_connection_transport.go: how many shared
-- connections hold one, and which ones were closed.
use tunnel_client.Base.{
  ℕ, zero, suc, ◌+◌, ◌≤◌, ◌≡◌, ◌≢◌, refl, sym, ap, true, false, Option, none, some, List, [], ◌∷◌,
  ◌==◌, if◌then◌else◌, length, get_elem?, set, arith, ==_iff, get_elem?-set_ne, Bool-cases, inl,
  inr,
}
use tunnel_client.SharedConnection.{Connection, append_connection, is_at}

abbrev pub is_base : ℕ → Option ℕ → ℕ
is_base b none = 0
is_base b (some c) = if c == b then 1 else 0

abbrev pub base_at : Option Connection → Option ℕ
base_at none = none
base_at (some c) = c.base

abbrev pub one : Option ℕ → ℕ
one none = 0
one (some b) = 1

-- How often a base is closed, how many connections hold it, and how many hold any.
abbrev pub times_closed : ℕ → List ℕ → ℕ
times_closed b [] = 0
times_closed b (c ∷ cs) = (if c == b then 1 else 0) + times_closed b cs

abbrev pub holders : ℕ → List Connection → ℕ
holders b [] = 0
holders b (c ∷ cs) = is_base b c.base + holders b cs

abbrev pub open_count : List Connection → ℕ
open_count [] = 0
open_count (c ∷ cs) = one c.base + open_count cs

pub holders-set :
    (b : ℕ) (cs : List Connection) (h : ℕ) (c d : Connection)
    → get_elem? cs h ≡ some c
    → holders b (set cs h d) + is_base b c.base ≡ holders b cs + is_base b d.base
holders-set b [] h c d e = cc
holders-set b (x ∷ cs) zero c d e = omega (arith, ap (λ o. is_base b (base_at o)) e)
holders-set b (x ∷ cs) (suc h) c d e = omega (arith, holders-set b cs h c d e)

pub open_count-set :
    (cs : List Connection) (h : ℕ) (c d : Connection)
    → get_elem? cs h ≡ some c
    → open_count (set cs h d) + one c.base ≡ open_count cs + one d.base
open_count-set [] h c d e = cc
open_count-set (x ∷ cs) zero c d e = omega (arith, ap (λ o. one (base_at o)) e)
open_count-set (x ∷ cs) (suc h) c d e = omega (arith, open_count-set cs h c d e)

pub holders-append :
    (b : ℕ) (c : Connection) (cs : List Connection)
    → holders b (append_connection c cs) ≡ holders b cs + is_base b c.base
holders-append b c [] = omega arith
holders-append b c (x ∷ cs) = omega (arith, holders-append b c cs)

pub open_count-append :
    (c : Connection) (cs : List Connection)
    → open_count (append_connection c cs) ≡ open_count cs + one c.base
open_count-append c [] = omega arith
open_count-append c (x ∷ cs) = omega (arith, open_count-append c cs)

pub get_elem?-append_connection :
    (c : Connection) (cs : List Connection)
    → get_elem? (append_connection c cs) (length cs) ≡ some c
get_elem?-append_connection c [] = refl
get_elem?-append_connection c (x ∷ cs) = get_elem?-append_connection c cs

open_count-get : (cs : List Connection) (h : ℕ) → one (base_at (get_elem? cs h)) ≤ open_count cs
open_count-get [] h = omega arith
open_count-get (x ∷ cs) zero = omega arith
open_count-get (x ∷ cs) (suc h) = omega (arith, open_count-get cs h)

-- Two connections count twice.
open_count-two :
    (cs : List Connection) (h k : ℕ)
    → h ≢ k
    → one (base_at (get_elem? cs h)) + one (base_at (get_elem? cs k)) ≤ open_count cs
open_count-two [] h k n = omega arith
open_count-two (x ∷ cs) zero zero n = absurd (n refl)
open_count-two (x ∷ cs) zero (suc k) n = omega (arith, open_count-get cs k)
open_count-two (x ∷ cs) (suc h) zero n = omega (arith, open_count-get cs h)
open_count-two (x ∷ cs) (suc h) (suc k) n = omega (arith, open_count-two cs h k (λ q. n (ap suc q)))

-- How many bases the transport's own connection holds.
abbrev pub own : Option ℕ → List Connection → ℕ
own none cs = 0
own (some h) cs = one (base_at (get_elem? cs h))

get_elem?-set_present :
    (cs : List Connection) (h : ℕ) (c d : Connection)
    → get_elem? cs h ≡ some c
    → get_elem? (set cs h d) h ≡ some d
get_elem?-set_present [] h c d e = cc
get_elem?-set_present (x ∷ cs) zero c d e = refl
get_elem?-set_present (x ∷ cs) (suc h) c d e = get_elem?-set_present cs h c d e

own-set_other :
    (o : Option ℕ) (cs : List Connection) (h : ℕ) (d : Connection)
    → is_at h o ≡ false
    → own o (set cs h d) ≡ own o cs
own-set_other none cs h d q = refl
own-set_other (some k) cs h d q =
    ap (λ o. one (base_at o)) (get_elem?-set_ne cs h k d (λ e. grind arith))

-- A connection other than the transport's own has no base.
pub other_has_none :
    (o : Option ℕ) (cs : List Connection) (h : ℕ) (c : Connection)
    → get_elem? cs h ≡ some c
    → is_at h o ≡ false
    → open_count cs ≡ own o cs
    → one c.base ≡ 0
other_has_none none cs h c e q n = omega (arith, open_count-get cs h, ap (λ o. one (base_at o)) e)
other_has_none (some k) cs h c e q n =
    omega (arith, n, open_count-two cs h k (λ e. grind arith), ap (λ o. one (base_at o)) e)

pub own_self :
    (o : Option ℕ) (cs : List Connection) (h : ℕ)
    → is_at h o ≡ true
    → own o cs ≡ one (base_at (get_elem? cs h))
own_self none cs h q = cc
own_self (some k) cs h q = ap (λ j. one (base_at (get_elem? cs j))) (sym ((==_iff h k).0 q))

-- A connection is replaced, and if it is not the transport's own, by one without a base.
pub replace-alone :
    (o : Option ℕ) (cs : List Connection) (h : ℕ) (c d : Connection)
    → get_elem? cs h ≡ some c
    → (is_at h o ≡ false → one d.base ≡ 0)
    → open_count cs ≡ own o cs
    → open_count (set cs h d) ≡ own o (set cs h d)
replace-alone o cs h c d e q n = elim (Bool-cases (is_at h o)) [
  | inl a ↦ omega (
    arith,
    n,
    open_count-set cs h c d e,
    own_self o cs h a,
    own_self o (set cs h d) h a,
    ap (λ x. one (base_at x)) e,
    ap (λ x. one (base_at x)) (get_elem?-set_present cs h c d e),
  )
  | inr a ↦ omega (
    arith,
    n,
    q a,
    open_count-set cs h c d e,
    other_has_none o cs h c e a n,
    own-set_other o cs h d a,
  )
]

-- A base that a connection holds is open.
pub holders-get :
    (b : ℕ) (cs : List Connection) (h : ℕ) → is_base b (base_at (get_elem? cs h)) ≤ holders b cs
holders-get b [] h = omega arith
holders-get b (x ∷ cs) zero = omega arith
holders-get b (x ∷ cs) (suc h) = omega (arith, holders-get b cs h)
